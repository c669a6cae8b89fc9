-- ===== src/Accounts/Entry.antt =====
-- That a new user gets in, and a user with a new password: Signup, VerifyEmail, Reset and Login of
-- internal/web/handlers.go together.
use shopify_gmc.Base.{
  ℕ, suc, ◌+◌, ◌*◌, ◌<◌, ◌≡◌, refl, ap, ◌∙◌, String, true, false, none, some, [], ◌∷◌, ◌++◌, ◌==◌,
  nat_eq, string_eq, if◌then◌else◌, is_some, ltb, Bool-cases, Option-cases, inl, inr, arith,
  ==_refl, ◌||◌,
}
use shopify_gmc.Base.Table.{Table, lookup, modify, lookup-insert, IsKeyed}
use shopify_gmc.LoginLimiter
use shopify_gmc.Login
use shopify_gmc.Login.{login, pending}
use shopify_gmc.Members.{insert_member}
use shopify_gmc.Accounts.{
  User, Token, State, Params, Form, verified, created, get_active, get_by_email, new_user, signup,
  sign_up_in, insert_token, verification_for, verify_email, mark_verified, reset, reset_with,
  slug_used, new_slug, hour,
}
use shopify_gmc.Accounts.Journey.{
  account_of, accounts_of, lookup-accounts_of, with_users, get_by_email-modify, get_by_email-lookup,
  lookup-append, append-IsKeyed, get_by_email-append, login_admits, login_pends, login_rejects,
}

module _ (k : Params) (now : ℕ) (f : Form) (st : State) where
  -- The rows of a user who has signed up.
  record IsCreated (after : State) : Type 0 where
    new_address : get_by_email f.email st.users ≡ none
    users_are : after.users ≡ st.users ++ (suc st.free, new_user k st.free f) ∷ []
    link :
        lookup (k.token_hash f.token) after.verifications
        ≡ some (verification_for k now (suc st.free))

  sign_up_in-created : (sign_up_in k now f st).0 ≡ created → IsCreated (sign_up_in k now f st).1
  sign_up_in-created h = elim (Bool-cases (slug_used k (new_slug k f) st.tenants)) [
    | inl used ↦ cc (rw (sign_up_in, used) at h)
    | inr free ↦ elim (Option-cases (get_by_email f.email st.users)) [
      | inr (e, taken) ↦ cc (rw (sign_up_in, free, taken) at h)
      | inl new ↦
          elim (Option-cases (
            insert_member (record { tenant_id = st.free; user_id = suc st.free; role = "owner" })
              st.members)) [
                | inl refused ↦ cc (rw (sign_up_in, free, new, refused) at h)
                | inr (members, joined) ↦
                    elim (Option-cases (lookup (k.token_hash f.token) st.verifications)) [
                      | inr (t, used) ↦
                          cc (rw (sign_up_in, free, new, joined, insert_token, used) at h)
                      | inl fresh ↦
                          rw (sign_up_in, free, new, joined, insert_token, fresh)
                            (record {
                              new_address = new;
                              users_are = refl;
                              link =
                                  lookup-insert (k.token_hash f.token) (k.token_hash f.token)
                                    (verification_for k now (suc st.free)) st.verifications
                                  ∙ rw (==_refl (k.token_hash f.token)) refl;
                            })
                    ]
              ]
    ]
  ]

  signup-created : (signup k now f st).0 ≡ created → IsCreated (signup k now f st).1
  unfolding signup
  signup-created h =
      elim (Bool-cases (f.name == "" || f.email == "" || ltb (k.byte_length f.password) 12)) [
        | inl bad ↦ cc (rw bad at h)
        | inr good ↦ rw good (sign_up_in-created (rw good at h))
      ]

  -- The link of a sign-up's mail confirms the address, within a day.
  verify-created :
      (later : ℕ) (after : State)
      → lookup (suc st.free) st.users ≡ none
      → later < now + 24 * hour
      → IsCreated after
      → ((verify_email k later f.token after).0 ≡ verified)
        × ((verify_email k later f.token after).1.users
            ≡ modify (suc st.free) (λ u. record u { email_verified_at = some later }) after.users)
  unfolding verify_email get_active
  verify-created later after fresh soon is =
      rw (is.link, in_time, mark_verified, found) (refl, refl)
    where
      in_time : ltb later (now + 24 * hour) ≡ true
      in_time = ground (arith, soon)

      found : lookup (suc st.free) after.users ≡ some (new_user k st.free f)
      found = rw is.users_are (lookup-append (suc st.free) (new_user k st.free f) st.users fresh)

-- Whoever signs up gets in once the address is confirmed: with the password of the sign-up, a login
-- that the limiter admits ends at the page that asks to confirm the address; the link of the mail
-- confirms it for a day; and after that the same login sets the session cookie, where the database
-- takes the session and the cookie can be encoded.
pub signup-verify-login :
    (k : Params) (now : ℕ) (f : Form) (st : State) (later : ℕ) (l : Login.Params) (sid : ℕ)
    (stoken : String) (at_time : ℕ) (g : Login.Form) (lst : Login.State) (c : String)
    → IsKeyed st.users
    → lookup (suc st.free) st.users ≡ none
    → (signup k now f st).0 ≡ created
    → later < now + 24 * hour
    → l.normal g.email ≡ f.email
    → l.verify g.password (k.hash_password f.password) ≡ true
    → (LoginLimiter.check lst.limiter at_time g.ip).1.1 ≡ true
    → l.encode (record { session_id = sid; token = stoken }) ≡ some c
    → let after = (signup k now f st).1 in
      let confirmed = verify_email k later f.token after in
      ((login l true sid stoken at_time g (with_users lst after.users)).1
        ≡ record { page = pending; cookie = none })
      × (confirmed.0 ≡ verified)
      × ((login l true sid stoken at_time g (with_users lst confirmed.1.users)).1.cookie ≡ some c)
signup-verify-login k now f st later l sid stoken at_time g lst c keyed fresh done soon same right
      admitted encoded =
    (
      login_pends l sid stoken at_time g (with_users lst after.users) (account_of (suc st.free, u))
          admitted (account after.users u found) right refl,
      (verify-created k now f st later after fresh soon is).0,
      login_admits l sid stoken at_time g (with_users lst confirmed.users)
          (account_of (suc st.free, record u { email_verified_at = some later })) c admitted
          (account confirmed.users (record u { email_verified_at = some later }) found_confirmed)
          right refl encoded,
    )
  where
    after : State
    after = (signup k now f st).1

    confirmed : State
    confirmed = (verify_email k later f.token (signup k now f st).1).1

    u : User
    u = new_user k st.free f

    is : IsCreated k now f st (signup k now f st).1
    is = signup-created k now f st done

    found :
        get_by_email f.email (signup k now f st).1.users ≡ some (suc st.free, new_user k st.free f)
    found =
        rw is.users_are
          (get_by_email-append (suc st.free) (new_user k st.free f) st.users is.new_address)

    found_confirmed :
        get_by_email f.email (verify_email k later f.token (signup k now f st).1).1.users
        ≡ some (suc st.free, record (new_user k st.free f) { email_verified_at = some later })
    found_confirmed =
        ap (get_by_email f.email)
          (verify-created k now f st later (signup k now f st).1 fresh soon is).1
        ∙ get_by_email-modify (suc st.free) f.email (new_user k st.free f)
            (λ u. record u { email_verified_at = some later }) (signup k now f st).1.users
            (rw is.users_are
              (append-IsKeyed (suc st.free) (new_user k st.free f) st.users fresh keyed))
            found refl

    account :
        (users : Table ℕ User) (v : User)
        → get_by_email f.email users ≡ some (suc st.free, v)
        → lookup (l.normal g.email) (accounts_of users) ≡ some (account_of (suc st.free, v))
    account users v h = rw same (lookup-accounts_of f.email users ∙ rw h refl)

-- A link resets the password to one of 12 bytes or more: for a user with a confirmed address, a login
-- that the limiter admits sets the cookie with the new password, where the database takes the session
-- and the cookie can be encoded, and with a password that does not match it sets none.
pub reset-login :
    (k : Params) (now : ℕ) (token password : String) (st : State) (t : Token) (u : User)
    (l : Login.Params) (sid : ℕ) (stoken : String) (at_time : ℕ) (g : Login.Form)
    (lst : Login.State) (c : String)
    → IsKeyed st.users
    → get_active now (k.token_hash token) st.resets ≡ some t
    → get_by_email u.email st.users ≡ some (t.user_id, u)
    → is_some u.email_verified_at ≡ true
    → ltb (k.byte_length password) 12 ≡ false
    → l.normal g.email ≡ u.email
    → (LoginLimiter.check lst.limiter at_time g.ip).1.1 ≡ true
    → l.encode (record { session_id = sid; token = stoken }) ≡ some c
    → let after = (reset k now token password password st).1 in
      (login l true sid stoken at_time g (with_users lst after.users)).1.cookie
      ≡ (if l.verify g.password (k.hash_password password) then some c else none)
unfolding reset
reset-login k now token password st t u l sid stoken at_time g lst c keyed link found confirmed long
      same admitted encoded =
    rw
      (
        ==_refl password,
        long,
        link,
        reset_with,
        get_by_email-lookup t.user_id u.email u st.users keyed found,
      )
      (elim (Bool-cases (l.verify g.password (k.hash_password password))) [
        | inl right ↦ rw right (
            login_admits l sid stoken at_time g (with_users lst users) row c admitted account right
              confirmed encoded)
        | inr wrong ↦
            rw wrong (
              login_rejects l sid stoken at_time g (with_users lst users) row admitted account
                wrong)
      ])
  where
    users : Table ℕ User
    users = modify t.user_id (λ u. record u { password_hash = k.hash_password password }) st.users

    row : Login.Account
    row = account_of (t.user_id, record u { password_hash = k.hash_password password })

    account :
        lookup (l.normal g.email) (
          accounts_of (
            modify t.user_id (λ u. record u { password_hash = k.hash_password password }) st.users))
        ≡ some (account_of (t.user_id, record u { password_hash = k.hash_password password }))
    account = rw same (
        lookup-accounts_of u.email
          (modify t.user_id (λ u. record u { password_hash = k.hash_password password }) st.users)
        ∙ rw
            (get_by_email-modify t.user_id u.email u
              (λ u. record u { password_hash = k.hash_password password }) st.users keyed found
              refl)
            refl)
