-- ===== src/Accounts/Reset.antt =====
-- The links of Forgot and Reset, of internal/web/handlers.go.
use shopify_gmc.Base.{
  ℕ, ◌≡◌, refl, sym, ap, ◌∙◌, String, true, false, Option, none, some, ◌==◌, nat_eq, string_eq, ltb,
  Bool-cases, Option-cases, inl, inr, arith, ==_refl, ==_iff,
}
use mathlib.Core.Option
use shopify_gmc.Base.Table.{Table, lookup, modify, lookup-modify}
use shopify_gmc.Accounts.{
  User, Token, State, Params, reset_done, if_usable, get_active, consume, reset, reset_with,
}

pub consume-unusable :
    (now later : ℕ) (hash : String) (tokens : Table String Token)
    → get_active later hash (consume now hash tokens) ≡ none
unfolding get_active
consume-unusable now later hash tokens =
    ap (if_usable later) (
      lookup-modify hash hash (λ t. record t { consumed_at = some now }) tokens
      ∙ rw (==_refl hash) refl)
    ∙ unusable (lookup hash tokens)
  where
    unusable :
        (o : Option Token)
        → if_usable later (Option.map {A = Token} (λ t. record t { consumed_at = some now }) o)
          ≡ none
    unusable none = refl
    unusable (some t) = ground arith

module _ (k : Params) (now : ℕ) (token password confirm : String) where
  -- The row of the link, its user, and the tables afterwards.
  pub record IsReset (st after : State) (t : Token) (u : User) : Type 0 where
    pub same : password ≡ confirm
    pub long : ltb (k.byte_length password) 12 ≡ false
    pub link : get_active now (k.token_hash token) st.resets ≡ some t
    pub owner : lookup t.user_id st.users ≡ some u
    pub after_is : after ≡ record st {
      users =
          modify t.user_id (λ u. record u { password_hash = k.hash_password password }) st.users;
      resets = consume now (k.token_hash token) st.resets;
    }

  reset_with_lem :
      (o : Option Token) (st : State)
      → (reset_with k now (k.token_hash token) (k.hash_password password) o st).0 ≡ reset_done
      → (t : Token) × (u : User) × (o ≡ some t)
        × (lookup t.user_id st.users ≡ some u)
        × ((reset_with k now (k.token_hash token) (k.hash_password password) o st).1 ≡ record st {
          users =
              modify t.user_id
                (λ u. record u { password_hash = k.hash_password password })
                st.users;
          resets = consume now (k.token_hash token) st.resets;
        })
  reset_with_lem none st h = absurd cc
  reset_with_lem (some t) st h = elim (Option-cases (lookup t.user_id st.users)) [
    | inl gone ↦ cc (rw (reset_with, gone) at h)
    | inr (u, found) ↦ (t, u, refl, found, rw (reset_with, found) refl)
  ]

  reset_opened :
      (st : State)
      → (password == confirm) ≡ true
      → ltb (k.byte_length password) 12 ≡ false
      → reset k now token password confirm st
        ≡ reset_with k now
            (k.token_hash token)
            (k.hash_password password)
            (get_active now (k.token_hash token) st.resets)
            st
  unfolding reset
  reset_opened st same long = rw (same, long) refl

  pub reset_lem :
      (st : State)
      → (reset k now token password confirm st).0 ≡ reset_done
      → (t : Token) × (u : User) × IsReset st (reset k now token password confirm st).1 t u
  unfolding reset
  reset_lem st h = elim (Bool-cases (password == confirm)) [
    | inr other ↦ cc (rw other at h)
    | inl same ↦ elim (Bool-cases (ltb (k.byte_length password) 12)) [
      | inl short ↦ cc (rw (same, short) at h)
      | inr long ↦
          let (t, u, link, owner, after) =
            reset_with_lem (get_active now (k.token_hash token) st.resets) st
              (ap (λ x. x.0) (sym (reset_opened st same long)) ∙ h) in
          (
            t,
            u,
            record {
              same = (==_iff password confirm).0 same;
              long = long;
              link = link;
              owner = owner;
              after_is = ap (λ x. x.1) (reset_opened st same long) ∙ after;
            },
          )
    ]
  ]

  -- A link resets a password once: after it has, it is no link any more, and a form that shows it,
  -- at any time and with any passwords, changes nothing.
  pub reset_once :
      (st : State) (later : ℕ) (again confirmed : String)
      → (reset k now token password confirm st).0 ≡ reset_done
      → (get_active later (k.token_hash token) (reset k now token password confirm st).1.resets
          ≡ none)
        × ((reset k later token again confirmed (reset k now token password confirm st).1).1
            ≡ (reset k now token password confirm st).1)
  reset_once st later again confirmed h =
      (gone, stays (reset k now token password confirm st).1 gone)
    where
      gone :
          get_active later (k.token_hash token) (reset k now token password confirm st).1.resets
          ≡ none
      gone =
          let (t, u, is) = reset_lem st h in
          ap (λ s. get_active later (k.token_hash token) s.resets) is.after_is
          ∙ consume-unusable now later (k.token_hash token) st.resets

      stays :
          (s : State)
          → get_active later (k.token_hash token) s.resets ≡ none
          → (reset k later token again confirmed s).1 ≡ s
      stays s none_left = unfold reset in ground (arith, none_left)
