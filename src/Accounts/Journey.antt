-- ===== src/Accounts/Journey.antt =====
-- From a sign-up over the mail's link to the first login: Signup, VerifyEmail and Login of
-- internal/web/handlers.go, and a login after Reset.
use shopify_gmc.Base.{
  ℕ, ◌≡◌, refl, ap, ◌∙◌, String, true, false, none, some, [], ◌∷◌, ◌++◌, ◌==◌, nat_eq, string_eq,
  is_some, Bool-cases, inl, inr, arith, ==_refl, ==_iff,
}
use mathlib.Core.Option
use shopify_gmc.Base.Table.{Table, lookup, modify, IsKeyed}
use shopify_gmc.LoginLimiter
use shopify_gmc.Login
use shopify_gmc.Login.{login, checked, authenticate, start_session, finish, Account, pending}
use shopify_gmc.Accounts.{User, get_by_email, when_found}

-- A user's row as `Login` reads it, by address.
abbrev pub account_of : ℕ × User → Account
account_of e = record {
  id = e.0;
  password_hash = e.1.password_hash;
  email_verified_at = e.1.email_verified_at;
  default_tenant_id = e.1.default_tenant_id;
}

unfoldable pub accounts_of : Table ℕ User → Table String Account
accounts_of [] = []
accounts_of (e ∷ users) = (e.1.email, account_of e) ∷ accounts_of users

pub lookup-accounts_of :
    (email : String) (users : Table ℕ User)
    → lookup email (accounts_of users)
      ≡ Option.map {A = ℕ × User} account_of (get_by_email email users)
unfolding lookup accounts_of get_by_email
lookup-accounts_of email [] = refl
lookup-accounts_of email (e ∷ users) = elim (Bool-cases (e.1.email == email)) [
  | inl same ↦ rw same refl
  | inr other ↦ rw other (lookup-accounts_of email users)
]

-- The row that an address finds stands under its identifier.
pub get_by_email-lookup :
    (id : ℕ) (email : String) (u : User) (users : Table ℕ User)
    → IsKeyed users
    → get_by_email email users ≡ some (id, u)
    → lookup id users ≡ some u
unfolding get_by_email lookup
get_by_email-lookup id email u [] keyed h = absurd cc
get_by_email-lookup id email u ((i, v) ∷ users) keyed h = elim (Bool-cases (v.email == email)) [
  | inl this ↦ ground (arith, ==_refl id)
  | inr other ↦
      let rest = get_by_email-lookup id email u users keyed.1 (rw (when_found, other) at h) in
      elim (Bool-cases (i == id)) [
        | inl same ↦ absurd (taken ((==_iff i id).0 same) rest)
        | inr ne ↦ rw ne rest
      ]
]
  where
    taken : i ≡ id → lookup id users ≡ some u → ⊥
    taken same rest = ground (arith, keyed.0)

-- A change of one user's row that keeps its address.
pub get_by_email-modify :
    (id : ℕ) (email : String) (u : User) (f : User → User) (users : Table ℕ User)
    → IsKeyed users
    → get_by_email email users ≡ some (id, u)
    → (f u).email ≡ u.email
    → get_by_email email (modify id f users) ≡ some (id, f u)
unfolding get_by_email modify lookup
get_by_email-modify id email u f [] keyed h same = absurd cc
get_by_email-modify id email u f ((i, v) ∷ users) keyed h same =
    elim (Bool-cases (v.email == email)) [
      | inl here_is ↦ ground (arith, ==_refl id)
      | inr other ↦ ground (
        arith,
        ==_iff i id,
        get_by_email-modify id email u f users keyed.1,
        get_by_email-lookup id email u users keyed.1,
      )
    ]

module _ (id : ℕ) (u : User) where
  pub lookup-append :
      (users : Table ℕ User) → lookup id users ≡ none → lookup id (users ++ (id, u) ∷ []) ≡ some u
  unfolding lookup
  lookup-append [] new = ground (arith, ==_refl id)
  lookup-append ((i, v) ∷ users) new = ground (arith, lookup-append users)

  lookup_other :
      (j : ℕ) (users : Table ℕ User)
      → (id == j) ≡ false
      → lookup j users ≡ none
      → lookup j (users ++ (id, u) ∷ []) ≡ none
  unfolding lookup
  lookup_other j [] ne new = ground arith
  lookup_other j ((i, v) ∷ users) ne new = ground (arith, lookup_other j users ne)

  pub append-IsKeyed :
      (users : Table ℕ User)
      → lookup id users ≡ none
      → IsKeyed users
      → IsKeyed (users ++ (id, u) ∷ [])
  append-IsKeyed [] new keyed = (unfold lookup in refl, tt)
  append-IsKeyed ((i, v) ∷ users) new keyed =
      (lookup_other i users different keyed.0, append-IsKeyed users absent keyed.1)
    where
      different : (id == i) ≡ false
      different = unfold lookup in ground (arith, ==_iff i id, ==_iff id i)

      absent : lookup id users ≡ none
      absent = unfold lookup in ground arith

  pub get_by_email-append :
      (users : Table ℕ User)
      → get_by_email u.email users ≡ none
      → get_by_email u.email (users ++ (id, u) ∷ []) ≡ some (id, u)
  unfolding get_by_email
  get_by_email-append [] new = ground (arith, ==_refl u.email)
  get_by_email-append ((i, v) ∷ users) new = ground (arith, get_by_email-append users)

-- The accounts that `Login` reads in a state.
abbrev pub with_users : Login.State → Table ℕ User → Login.State
with_users st users = record st { accounts = accounts_of users }

module _ (l : Login.Params) (sid : ℕ) (stoken : String) (now : ℕ) (f : Login.Form)
    (st : Login.State) where
  login_at :
      (a : Account)
      → (LoginLimiter.check st.limiter now f.ip).1.1 ≡ true
      → lookup (l.normal f.email) st.accounts ≡ some a
      → login l true sid stoken now f st
        ≡ authenticate l true sid stoken now f
            (some a)
            (record st { limiter = (LoginLimiter.check st.limiter now f.ip).0 })
  unfolding login
  login_at a admitted account = rw (admitted, account) refl

  pub login_admits :
      (a : Account) (c : String)
      → (LoginLimiter.check st.limiter now f.ip).1.1 ≡ true
      → lookup (l.normal f.email) st.accounts ≡ some a
      → l.verify f.password a.password_hash ≡ true
      → is_some a.email_verified_at ≡ true
      → l.encode (record { session_id = sid; token = stoken }) ≡ some c
      → (login l true sid stoken now f st).1.cookie ≡ some c
  login_admits a c admitted account right confirmed encoded =
      ap (λ x. x.1.cookie) (login_at a admitted account)
      ∙ rw (authenticate, right, confirmed, encoded) refl

  pub login_pends :
      (a : Account)
      → (LoginLimiter.check st.limiter now f.ip).1.1 ≡ true
      → lookup (l.normal f.email) st.accounts ≡ some a
      → l.verify f.password a.password_hash ≡ true
      → is_some a.email_verified_at ≡ false
      → (login l true sid stoken now f st).1 ≡ record { page = pending; cookie = none }
  login_pends a admitted account right unconfirmed =
      ap (λ x. x.1) (login_at a admitted account) ∙ rw (authenticate, right, unconfirmed) refl

  pub login_rejects :
      (a : Account)
      → (LoginLimiter.check st.limiter now f.ip).1.1 ≡ true
      → lookup (l.normal f.email) st.accounts ≡ some a
      → l.verify f.password a.password_hash ≡ false
      → (login l true sid stoken now f st).1.cookie ≡ none
  login_rejects a admitted account wrong =
      ap (λ x. x.1.cookie) (login_at a admitted account) ∙ rw (authenticate, wrong) refl
