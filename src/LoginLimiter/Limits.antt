-- ===== src/LoginLimiter/Limits.antt =====
-- What a refusal of the limiter of ratelimit.go means for the address that it refuses.
use shopify_gmc.Base.{
  ℕ, zero, suc, ◌+◌, ◌-◌, ◌*◌, ◌^◌, ◌≤◌, ◌<◌, ◌≡◌, refl, ap, ◌∙◌, String, Bool, true, false, some,
  List, [], ◌∷◌, ltb, length, arith, ==_refl, string_eq, Option-cases, Bool-cases, inl, inr,
}
use shopify_gmc.Base.Int.{pos, ◌-ℤ◌, ltb_ℤ}
use shopify_gmc.Base.Table.{lookup, insert, lookup-insert}
use shopify_gmc.LoginLimiter.{
  second, window, backoff_after, LoginState, Limiter, check, check_state, fail_state,
  record_failure, window_answer, lock_duration, prune_before,
}
use shopify_gmc.LoginLimiter.Refinement.{check-none, check-some, record_failure-insert}

in_window : (now t : ℕ) → ltb_ℤ (pos now -ℤ pos window) (pos t) ≡ ltb now (t + window)
unfolding ◌-ℤ◌
in_window now t = ground arith

-- At a later time before the oldest kept failure leaves the window, nothing more is pruned.
prune_before-stable :
    (ts : List ℕ) (now t : ℕ) {oldest : ℕ} {rest : List ℕ}
    → prune_before ts (pos now -ℤ pos window) ≡ oldest ∷ rest
    → (now < oldest + window)
      × (t < oldest + window → prune_before (oldest ∷ rest) (pos t -ℤ pos window) ≡ oldest ∷ rest)
unfolding prune_before
prune_before-stable [] now t e = absurd (cc)
prune_before-stable (u ∷ ts) now t {oldest} {rest} e = elim (Bool-cases (ltb now (u + window))) [
  | inl new ↦ (ground (arith, in_window now u), ground (arith, in_window t oldest))
  | inr old ↦ prune_before-stable ts now t (ground (arith, in_window now u))
]

window_answer_refused :
    (now : ℕ) (ts : List ℕ) {r : ℕ}
    → window_answer now ts ≡ (r, false)
    → (oldest : ℕ) × (rest : List ℕ) × (ts ≡ oldest ∷ rest)
      × (r ≡ oldest + window - now)
      × (4 ≤ length rest)
unfolding window_answer
window_answer_refused now [] e = absurd (cc (ap (λ (a : ℕ × Bool). a.1) e))
window_answer_refused now (t ∷ ts) e = (t, ts, refl, ground arith, ground arith)

window_answer_full :
    (now oldest : ℕ) (rest : List ℕ)
    → 4 ≤ length rest
    → window_answer now (oldest ∷ rest) ≡ (oldest + window - now, false)
unfolding window_answer
window_answer_full now oldest rest h = ground arith

stored : (l : Limiter) (ip : String) (st : LoginState) → lookup ip (insert ip st l) ≡ some st
stored l ip st = rw (lookup-insert ip ip st l, ==_refl ip) refl

module _ (now : ℕ) (st : LoginState) where
  check_state-locked :
      ltb now st.lock_until ≡ true → check_state now st ≡ (st, (st.lock_until - now, false))
  unfolding check_state
  check_state-locked e = rw (e, check_state) refl

  check_state-free :
      ltb now st.lock_until ≡ false
      → (kept : List ℕ) → prune_before st.failures (pos now -ℤ pos window) ≡ kept
      → check_state now st ≡ (record st { failures = kept }, window_answer now kept)
  unfolding check_state
  check_state-free e kept p = rw (e, check_state, p) refl

-- A refusal at `now`, repeated at `t` with nothing in between.
abbrev Persists : ℕ → ℕ → LoginState → ℕ → Type 0
Persists now t st r =
    (0 < r) × (t < now + r → (check_state t (check_state now st).0).1 ≡ (now + r - t, false))

check_state_locked-Persists :
    (now t : ℕ) (st : LoginState) {r : ℕ}
    → now ≤ t
    → ltb now st.lock_until ≡ true
    → st.lock_until - now ≡ r
    → Persists now t st r
check_state_locked-Persists now t st {r} h locked e =
    rw (check_state-locked now st locked)
      (ground arith, λ later. rw (check_state-locked t st (ground arith)) (ground arith))

check_state_full-Persists :
    (now t oldest : ℕ) (rest : List ℕ) (st : LoginState) {r : ℕ}
    → now ≤ t
    → ltb now st.lock_until ≡ false
    → prune_before st.failures (pos now -ℤ pos window) ≡ oldest ∷ rest
    → r ≡ oldest + window - now
    → 4 ≤ length rest
    → Persists now t st r
check_state_full-Persists now t oldest rest st {r} h free p e full =
    let stable = prune_before-stable st.failures now t p in
    rw (check_state-free now st free (oldest ∷ rest) p) (
      omega (arith, stable.0, e),
      λ later.
          rw
            (check_state-free t (record st { failures = oldest ∷ rest }) (ground arith)
              (oldest ∷ rest) (stable.1 (omega (arith, stable.0, e))))
            (window_answer_full t oldest rest full
              ∙ ap (λ n. (n, false)) (omega (arith, stable.0, e))),
    )

check_state_refused :
    (now t : ℕ) (st : LoginState) {r : ℕ}
    → now ≤ t
    → (check_state now st).1 ≡ (r, false)
    → Persists now t st r
check_state_refused now t st {r} h e = elim (Bool-cases (ltb now st.lock_until)) [
  | inl locked ↦
      check_state_locked-Persists now t st h locked
        (ap (λ (a : ℕ × Bool). a.0) (rw (check_state-locked now st locked) at e))
  | inr free ↦
      let full : window_answer now (prune_before st.failures (pos now -ℤ pos window)) ≡ (r, false) =
        rw (check_state-free now st free _ refl) at e in
      let (oldest, rest, p, e', n) = window_answer_refused now _ full in
      check_state_full-Persists now t oldest rest st h free p e' n
]

-- A refused check tells the address to wait for a positive time r, and r is exact from below: until
-- r has passed, a check that follows with nothing in between is refused too, with what is left of r.
pub check_refused_persists :
    (l : Limiter) (now t : ℕ) (ip : String) (r : ℕ)
    → now ≤ t
    → (check l now ip).1 ≡ (r, false)
    → (0 < r) × (t < now + r → (check (check l now ip).0 t ip).1 ≡ (now + r - t, false))
check_refused_persists l now t ip r h e = elim (Option-cases (lookup ip l)) [
  | inl fresh ↦ absurd (cc (ap (λ (a : ℕ × Bool). a.1) (rw (check-none now l ip fresh) at e)))
  | inr (st, found) ↦
      let old = check_state_refused now t st h (rw (check-some now l ip found) at e) in
      rw (check-some now l ip found) (
        old.0,
        λ later.
            rw
              (check-some t (insert ip (check_state now st).0 l) ip
                (stored l ip (check_state now st).0))
              (old.1 later),
      )
]

pow_bounds : (k : ℕ) → 0 < k → k ≤ 8 → (2 ≤ 2 ^ k) × (2 ^ k ≤ 256)
pow_bounds zero h le = absurd (omega arith)
pow_bounds (suc zero) h le = omega arith
pow_bounds (suc (suc zero)) h le = omega arith
pow_bounds (suc (suc (suc zero))) h le = omega arith
pow_bounds (suc (suc (suc (suc zero)))) h le = omega arith
pow_bounds (suc (suc (suc (suc (suc zero))))) h le = omega arith
pow_bounds (suc (suc (suc (suc (suc (suc zero)))))) h le = omega arith
pow_bounds (suc (suc (suc (suc (suc (suc (suc zero))))))) h le = omega arith
pow_bounds (suc (suc (suc (suc (suc (suc (suc (suc zero)))))))) h le = omega arith
pow_bounds (suc (suc (suc (suc (suc (suc (suc (suc (suc k))))))))) h le = absurd (omega arith)

lock_duration_bounds :
    (n : ℕ) → backoff_after < n → (2 * second ≤ lock_duration n) × (lock_duration n ≤ 256 * second)
unfolding lock_duration
lock_duration_bounds n h = ground (arith, pow_bounds (n - backoff_after), pow_bounds 8)

-- A failure of an address that has failed at least three times since its last success locks it for
-- a time between 2 and 256 seconds that its number of failures determines: every check before the
-- end of it is refused, with the rest of it as the time to wait.
pub record_failure_locks :
    (l : Limiter) (now t : ℕ) (ip : String) (st : LoginState)
    → lookup ip l ≡ some st
    → backoff_after ≤ st.streak_fail
    → let d = lock_duration (suc st.streak_fail) in
      (2 * second ≤ d)
      × (d ≤ 256 * second)
      × (t < now + d → (check (record_failure l now ip) t ip).1 ≡ (now + d - t, false))
record_failure_locks l now t ip st found long =
    let bounds = lock_duration_bounds (suc st.streak_fail) (omega arith) in
    (
      bounds.0,
      bounds.1,
      λ early.
          rw (record_failure-insert now l ip, found)
            (rw
              (check-some t (insert ip (fail_state now st) l) ip (stored l ip (fail_state now st)))
              (rw (check_state-locked t (fail_state now st) (unfold fail_state in ground arith))
                (unfold fail_state in ground arith))),
    )
