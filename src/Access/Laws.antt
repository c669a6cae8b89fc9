-- ===== src/Access/Laws.antt =====
-- The guards of a workspace's pages, `tenantMW` and `ownerMW` of cmd/server/main.go, on every request.
use shopify_gmc.Base.{
  ℕ, String, Bool, true, false, not, some, ◌≡◌, refl, ap, ◌∙◌, ◌==◌, ==_iff, nat_eq, string_eq,
  ◌||◌, Bool-cases, Option-cases, inl, inr, ◌⊎◌, arith,
}
use shopify_gmc.Sessions.{Session, get}
use shopify_gmc.Access.{
  Request, User, Tenant, Membership, World, Outcome, replied, Handler, Answers, Secrets,
  empty_context, unauthorized, forbidden, page, read_cookie, find_user, get_by_slug,
  get_by_tenant_and_user, effective_user, is_impersonating, impersonator_of, end_transaction,
  opened, require_user, load_tenant_by_slug, require_membership, check_impersonation,
  set_rls_context, csrf, tenant_chain, owner_chain, require_owner, is_failure,
}
use shopify_gmc.Access.Decide.{
  is_refusal, csrf_holds, admitted_context, IsAdmitted, Verdict, runs, refuses, newer-none,
  unauthorized_refuses, begun, csrf-fails, tenant_chain_admits,
}

end_transaction-same :
    {R : Type 0}
    → (commits : Bool) (status : ℕ) (message : String) (w : World R)
    → end_transaction commits w (replied status (page message), opened w)
      ≡ (replied status (page message), w)
end_transaction-same commits status message w =
    elim (Bool-cases (is_failure (replied status (page message)) || not commits)) [
      | inl undone ↦ rw undone refl
      | inr kept ↦ rw kept refl
    ]

module _ {R : Type 0} (k : Secrets) (db : Answers) (r : Request) (w : World R) where
  abbrev ChainVerdict : Type 0
  ChainVerdict = Verdict k db r w (λ next. tenant_chain k db next r empty_context w)

  csrf_refused :
      (token : String) (s : Session) (u : User) (t : Tenant) (m : Membership) (message : String)
      → read_cookie k "session" r ≡ some token
      → get k.hash k.ttl token w.now w.sessions ≡ some s
      → find_user (effective_user s) w.db ≡ some u
      → get_by_slug k.lower r.slug w.db.tenants ≡ some t
      → get_by_tenant_and_user t.id u.id w.db.memberships ≡ some m
      → db.begins ≡ true
      → db.configures ≡ true
      → ((next : Handler R)
          → csrf k next r (begun k db r w s u t m) (opened w)
            ≡ (replied 403 (page message), opened w))
      → (next : Handler R)
      → tenant_chain k db next r empty_context w ≡ (replied 403 (page message), w)
  unfolding tenant_chain require_user load_tenant_by_slug require_membership check_impersonation
      set_rls_context
  csrf_refused token s u t m message a b c d e begins configures same next =
      rw (a, b, c, d, e, begins, configures, newer-none (impersonator_of s w.db))
        (ap (end_transaction db.commits w) (same next)
          ∙ end_transaction-same db.commits 403 message w)

  member_verdict :
      (token : String) (s : Session) (u : User) (t : Tenant) (m : Membership)
      → read_cookie k "session" r ≡ some token
      → get k.hash k.ttl token w.now w.sessions ≡ some s
      → find_user (effective_user s) w.db ≡ some u
      → get_by_slug k.lower r.slug w.db.tenants ≡ some t
      → get_by_tenant_and_user t.id u.id w.db.memberships ≡ some m
      → ChainVerdict
  unfolding tenant_chain require_user load_tenant_by_slug require_membership check_impersonation
      set_rls_context
  member_verdict token s u t m a b c d e = elim (Bool-cases db.begins) [
    | inr not_begun ↦
        refuses (replied 500 (page "begin tx")) refl (λ next. rw (a, b, c, d, e, not_begun) refl)
    | inl begins ↦ elim (Bool-cases db.configures) [
      | inr not_set ↦
          refuses (replied 500 (page "set rls")) refl
            (λ next. rw (a, b, c, d, e, begins, not_set) refl)
      | inl configures ↦ elim (Bool-cases (csrf_holds k r s)) [
        | inl holds ↦
            let admitted : IsAdmitted k r w s u t m = record {
              token = token;
              cookie = a;
              live = b;
              is_user = c;
              is_tenant = d;
              is_member = e;
              csrf = holds;
            } in
            runs s u t m admitted (tenant_chain_admits k db r w s u t m admitted begins configures)
        | inr fails ↦
            let (message, same) = csrf-fails k db r w s u t m fails in
            refuses (replied 403 (page message)) refl
              (csrf_refused token s u t m message a b c d e begins configures same)
      ]
    ]
  ]

  tenant_verdict :
      (token : String) (s : Session) (u : User) (t : Tenant)
      → read_cookie k "session" r ≡ some token
      → get k.hash k.ttl token w.now w.sessions ≡ some s
      → find_user (effective_user s) w.db ≡ some u
      → get_by_slug k.lower r.slug w.db.tenants ≡ some t
      → ChainVerdict
  unfolding tenant_chain require_user load_tenant_by_slug require_membership
  tenant_verdict token s u t a b c d =
      elim (Option-cases (get_by_tenant_and_user t.id u.id w.db.memberships)) [
        | inl absent ↦ refuses forbidden refl (λ next. rw (a, b, c, d, absent) refl)
        | inr (m, e) ↦ member_verdict token s u t m a b c d e
      ]

  user_verdict :
      (token : String) (s : Session) (u : User)
      → read_cookie k "session" r ≡ some token
      → get k.hash k.ttl token w.now w.sessions ≡ some s
      → find_user (effective_user s) w.db ≡ some u
      → ChainVerdict
  unfolding tenant_chain require_user load_tenant_by_slug
  user_verdict token s u a b c = elim (Option-cases (get_by_slug k.lower r.slug w.db.tenants)) [
    | inl absent ↦ refuses (replied 404 (page "Not found")) refl (λ next. rw (a, b, c, absent) refl)
    | inr (t, d) ↦ tenant_verdict token s u t a b c d
  ]

  session_verdict :
      (token : String) (s : Session)
      → read_cookie k "session" r ≡ some token
      → get k.hash k.ttl token w.now w.sessions ≡ some s
      → ChainVerdict
  unfolding tenant_chain require_user
  session_verdict token s a b = elim (Option-cases (find_user (effective_user s) w.db)) [
    | inl absent ↦
        refuses (unauthorized k r) (unauthorized_refuses k db r w) (λ next. rw (a, b, absent) refl)
    | inr (u, c) ↦ user_verdict token s u a b c
  ]

  token_verdict : (token : String) → read_cookie k "session" r ≡ some token → ChainVerdict
  unfolding tenant_chain require_user
  token_verdict token a = elim (Option-cases (get k.hash k.ttl token w.now w.sessions)) [
    | inl absent ↦
        refuses (unauthorized k r) (unauthorized_refuses k db r w) (λ next. rw (a, absent) refl)
    | inr (s, b) ↦ session_verdict token s a b
  ]

  -- Every request to a page of a workspace is either answered by its handler, in a transaction bound to
  -- the tenant and the user, and then it is admitted: a live session, a member of the tenant of the
  -- address, and the CSRF token where the method is unsafe; or it is refused, whatever the handler is,
  -- and the sessions and the database stay as they were.
  pub tenant_chain_guards : Verdict k db r w (λ next. tenant_chain k db next r empty_context w)
  unfolding tenant_chain require_user
  tenant_chain_guards = elim (Option-cases (read_cookie k "session" r)) [
    | inl absent ↦
        refuses (unauthorized k r) (unauthorized_refuses k db r w) (λ next. rw absent refl)
    | inr (token, a) ↦ token_verdict token a
  ]

  -- Every request to an owner's page of a workspace is either answered by its handler, in the
  -- transaction, and then it is admitted, the member's role is "owner" and the session impersonates
  -- nobody; or it is refused, whatever the handler is, and the world stays as it was.
  pub owner_chain_guards :
      ((s : Session) × (u : User) × (t : Tenant) × (m : Membership) × IsAdmitted k r w s u t m
        × (m.role ≡ "owner")
        × (is_impersonating s ≡ false)
        × ((next : Handler R)
            → owner_chain k db next r empty_context w
              ≡ end_transaction db.commits w (next r (admitted_context k w.db s u t m) (opened w))))
      ⊎ ((o : Outcome) × (is_refusal o ≡ true)
          × ((next : Handler R) → owner_chain k db next r empty_context w ≡ (o, w)))
  unfolding owner_chain
  owner_chain_guards = elim tenant_chain_guards [
    | refuses o refusal same ↦ inr (o, refusal, λ next. same (require_owner k next))
    | runs s u t m admitted same ↦
        elim (Bool-cases (not (m.role == "owner") || is_impersonating s)) [
          | inl stopped ↦ inr (
            forbidden,
            refl,
            λ next.
                same (require_owner k next)
                ∙ ap (end_transaction db.commits w) (not_owner s u t m stopped next)
                ∙ end_transaction-same db.commits 403 "You can't access this workspace." w,
          )
          | inr passes ↦ inl (
            s,
            u,
            t,
            m,
            admitted,
            ground (arith, ==_iff m.role "owner"),
            ground arith,
            λ next.
                same (require_owner k next)
                ∙ ap (end_transaction db.commits w) (is_owner s u t m passes next),
          )
        ]
  ]
    where
      not_owner :
          (s : Session) (u : User) (t : Tenant) (m : Membership)
          → (not (m.role == "owner") || is_impersonating s) ≡ true
          → (next : Handler R)
          → require_owner k next r (admitted_context k w.db s u t m) (opened w)
            ≡ (forbidden, opened w)
      not_owner s u t m stopped next = unfold require_owner in rw stopped refl

      is_owner :
          (s : Session) (u : User) (t : Tenant) (m : Membership)
          → (not (m.role == "owner") || is_impersonating s) ≡ false
          → (next : Handler R)
          → require_owner k next r (admitted_context k w.db s u t m) (opened w)
            ≡ next r (admitted_context k w.db s u t m) (opened w)
      is_owner s u t m passes next = unfold require_owner in rw passes refl
