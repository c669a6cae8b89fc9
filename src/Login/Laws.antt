-- ===== src/Login/Laws.antt =====
-- What signing in and out, of internal/web/handlers.go, do to the sessions.
use shopify_gmc.Base.{
  ℕ, ◌+◌, ◌<◌, ◌≡◌, ◌≢◌, refl, sym, ap, ◌∙◌, String, Bool, true, false, Option, none, some, nat_eq,
  string_eq, if◌then◌else◌, is_some, ltb, Bool-cases, Option-cases, inl, inr, arith, ==_refl,
}
use shopify_gmc.Base.Table.{lookup, lookup-insert}
use shopify_gmc.LoginLimiter
use shopify_gmc.Sessions
use shopify_gmc.Sessions.{
  Session, MemSessionDb, create, get, revoke, insert_row, change_row, revoke_in, revoke_row,
  is_live,
}
use shopify_gmc.Sessions.Laws.{create-get, revoke-get, insert_row-IsCoherent, IsCoherent}
use shopify_gmc.Login.{
  State, Form, Params, SessionCookie, Account, login, logout, authenticate, finish, revoked,
}

module _ (k : Params) (stores : Bool) (id : ℕ) (token : String) (now : ℕ) (f : Form) where
  -- A new session of the account in `after`, where the limiter has forgotten the address.
  pub record IsSignedIn (st after : State) (u : Account) (c : String) : Type 0 where
    pub account : lookup (k.normal f.email) st.accounts ≡ some u
    pub password : k.verify f.password u.password_hash ≡ true
    pub confirmed : is_some u.email_verified_at ≡ true
    pub encoded : k.encode (record { session_id = id; token = token }) ≡ some c
    pub new_session :
        after.sessions ≡ (create k.hash k.ttl id token now u.id f.ip f.agent st.sessions).1
    pub admitted : (LoginLimiter.check st.limiter now f.ip).1.1 ≡ true
    pub forgiven :
        after.limiter ≡ LoginLimiter.record_success (LoginLimiter.check st.limiter now f.ip).0 f.ip

  abbrev pruned : State → State
  pruned st = record st { limiter = (LoginLimiter.check st.limiter now f.ip).0 }

  login_admitted :
      (st : State)
      → (LoginLimiter.check st.limiter now f.ip).1.1 ≡ true
      → login k stores id token now f st
        ≡ authenticate k stores id token now f (lookup (k.normal f.email) st.accounts) (pruned st)
  unfolding login
  login_admitted st h = rw h refl

  login_refused :
      (st : State)
      → (LoginLimiter.check st.limiter now f.ip).1.1 ≡ false
      → (login k stores id token now f st).1.cookie ≡ none
  unfolding login
  login_refused st h = rw h refl

  authenticate_set :
      (o : Option Account) (st : State) (c : String)
      → (authenticate k stores id token now f o st).1.cookie ≡ some c
      → (u : Account) × (o ≡ some u)
        × (k.verify f.password u.password_hash ≡ true)
        × (is_some u.email_verified_at ≡ true)
        × (k.encode (record { session_id = id; token = token }) ≡ some c)
        × (authenticate k stores id token now f o st
            ≡ finish k f u
                (record st {
                  sessions = (create k.hash k.ttl id token now u.id f.ip f.agent st.sessions).1;
                })
                (some c))
  authenticate_set none st c h = absurd cc
  authenticate_set (some u) st c h = elim (Bool-cases (k.verify f.password u.password_hash)) [
    | inr wrong ↦ cc (rw wrong at h)
    | inl right ↦ elim (Bool-cases (is_some u.email_verified_at)) [
      | inr pending ↦ cc (rw (right, pending) at h)
      | inl confirmed ↦ elim (Bool-cases stores) [
        | inr refused ↦ cc (rw (right, confirmed, refused) at h)
        | inl stored ↦ elim (Option-cases (k.encode (record { session_id = id; token = token }))) [
          | inl unwritten ↦ cc (rw (right, confirmed, stored, unwritten) at h)
          | inr (d, written) ↦
              let same = rw (right, confirmed, stored, written) at h in
              (
                u,
                refl,
                right,
                confirmed,
                written ∙ same,
                rw (right, confirmed, stored, written) (rw same refl),
              )
        ]
      ]
    ]
  ]

  login_created :
      (st : State) (c : String)
      → (login k stores id token now f st).1.cookie ≡ some c
      → (u : Account) × IsSignedIn st (login k stores id token now f st).0 u c
  login_created st c h = elim (Bool-cases (LoginLimiter.check st.limiter now f.ip).1.1) [
    | inr refused ↦ cc (sym (login_refused st refused) ∙ h)
    | inl admitted ↦
        let same = login_admitted st admitted in
        let (u, account, password, confirmed, encoded, end) =
          authenticate_set (lookup (k.normal f.email) st.accounts) (pruned st) c
            (ap (λ x. x.1.cookie) (sym same) ∙ h) in
        (
          u,
          record {
            account = account;
            password = password;
            confirmed = confirmed;
            encoded = encoded;
            new_session = ap (λ x. x.0.sessions) (same ∙ end);
            admitted = admitted;
            forgiven = ap (λ x. x.0.limiter) (same ∙ end);
          },
        )
  ]

  -- A login that sets the session cookie `c` had been admitted by the limiter, with the password of an
  -- account whose address is confirmed; its token then gets a session of that account at every time
  -- until the time to live is over, and none later.
  pub login_signs_in :
      (st : State) (c : String) (at_time : ℕ)
      → token ≢ ""
      → (login k stores id token now f st).1.cookie ≡ some c
      → (u : Account) × IsSignedIn st (login k stores id token now f st).0 u c
        × (get k.hash k.ttl token at_time (login k stores id token now f st).0.sessions ≡ (
            if ltb at_time (now + k.ttl)
            then some (create k.hash k.ttl id token now u.id f.ip f.agent st.sessions).0
            else none))
  login_signs_in st c at_time named h =
      let (u, signed) = login_created st c h in
      (
        u,
        signed,
        ap (get k.hash k.ttl token at_time) signed.new_session
            ∙ create-get k.hash k.ttl id token now u.id f.ip f.agent st.sessions at_time named,
      )

revoke-create :
    (k : Params) (id : ℕ) (token : String) (now user : ℕ) (ip agent : String) (db : MemSessionDb)
    (out : ℕ)
    → (after : MemSessionDb) × (revoke id out (create k.hash k.ttl id token now user ip agent db).1
        ≡ some after)
revoke-create k id token now user ip agent db out =
    elim (Option-cases (revoke id out (create k.hash k.ttl id token now user ip agent db).1)) [
      | inr (after, h) ↦ (after, h)
      | inl failed ↦ absurd (impossible failed)
    ]
  where
    impossible : revoke id out (create k.hash k.ttl id token now user ip agent db).1 ≡ none → ⊥
    impossible failed =
        unfold revoke revoke_in change_row create insert_row in
        ground (
          arith,
          lookup-insert id id db.free db.by_id,
          lookup-insert db.free db.free (Sessions.new_row k.hash k.ttl id token now user ip agent)
              db.rows,
          ==_refl id,
          ==_refl db.free,
        )

revoked_sessions :
    (k : Params) (out : ℕ) (cookie : SessionCookie) (st : State) (after : MemSessionDb)
    → revoke cookie.session_id out st.sessions ≡ some after
    → (revoked k out (some cookie) st).sessions ≡ after
revoked_sessions k out cookie st after h = rw (revoked, h) refl

-- A session ends with the logout that shows its cookie: where the store was coherent, the identifier
-- and the token of the session were new and not empty, and the cookie decodes to what was encoded,
-- the token gets no session at any time after.
pub login-logout :
    (k : Params) (stores : Bool) (id : ℕ) (token : String) (now : ℕ) (f : Form) (st : State)
    (c : String) (out later : ℕ)
    → 0 < k.ttl
    → token ≢ ""
    → IsCoherent st.sessions
    → lookup id st.sessions.by_id ≡ none
    → k.decode c ≡ some (record { session_id = id; token = token })
    → (login k stores id token now f st).1.cookie ≡ some c
    → get k.hash k.ttl token later
        (logout k out (some c) (login k stores id token now f st).0).0.sessions
      ≡ none
unfolding logout create
login-logout k stores id token now f st c out later lives named coherent fresh decodes h =
    let (u, signed) = login_created k stores id token now f st c h in
    let (after, gone) = revoke-create k id token now u.id f.ip f.agent st.sessions out in
    let started : MemSessionDb =
      (create k.hash k.ttl id token now u.id f.ip f.agent st.sessions).1 in
    rw decodes (
      ap (get k.hash k.ttl token later) (
        revoked_sessions k out (record { session_id = id; token = token })
          (login k stores id token now f st).0 after (ap (revoke id out) signed.new_session ∙ gone))
      ∙ revoke-get k.hash k.ttl token now started after
          (create k.hash k.ttl id token now u.id f.ip f.agent st.sessions).0 out later
          (create-IsCoherent u.id) (live u.id) gone)
  where
    create-IsCoherent :
        (user : ℕ) → IsCoherent (create k.hash k.ttl id token now user f.ip f.agent st.sessions).1
    create-IsCoherent user =
        unfold create in
        insert_row-IsCoherent (Sessions.new_row k.hash k.ttl id token now user f.ip f.agent)
          st.sessions coherent fresh

    live :
        (user : ℕ)
        → get k.hash k.ttl token now
            (create k.hash k.ttl id token now user f.ip f.agent st.sessions).1
          ≡ some (create k.hash k.ttl id token now user f.ip f.agent st.sessions).0
    live user =
        create-get k.hash k.ttl id token now user f.ip f.agent st.sessions now named
        ∙ ground (arith, lives)
