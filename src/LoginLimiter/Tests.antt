-- ===== src/LoginLimiter/Tests.antt =====
-- Runs of the limiter, and its theorems at concrete histories.
use shopify_gmc.Base.{
  ℕ, ◌+◌, ◌-◌, ◌*◌, ◌≡◌, refl, false, true, List, [], ◌∷◌, some, arith, string_eq,
}
use shopify_gmc.Base.Table.{lookup, insert, remove}
use shopify_gmc.Base.Int.{◌-ℤ◌}
use shopify_gmc.LoginLimiter.{second, LoginState, Limiter, check, record_failure, record_success}
use shopify_gmc.LoginLimiter.History.{Event, probe, failure, success, answers, expected}
use shopify_gmc.LoginLimiter.Refinement.{limiter_refines_history}

abbrev start : ℕ
start = 1000 * second

abbrev busy : List Event
busy =
    failure start "a"
    ∷ failure start "b"
    ∷ failure (start + 1) "a"
    ∷ failure (start + 2) "a"
    ∷ probe (start + 3) "a"
    ∷ failure (start + 4) "a"
    ∷ probe (start + 5) "a"
    ∷ success "a"
    ∷ probe (start + 6) "a"
    ∷ probe (start + 7) "b"
    ∷ []

busy-answers : answers busy [] ≡ (0, true) ∷ (2 * second - 1, false) ∷ (0, true) ∷ (0, true) ∷ []
unfolding answers check record_failure record_success lookup insert remove ◌-ℤ◌
busy-answers = refl

limiter_refines_history_example : answers busy [] ≡ expected busy (λ ip. [])
limiter_refines_history_example = limiter_refines_history start busy (omega arith)

abbrev failing : LoginState
failing = record {
  failures = start ∷ start ∷ start ∷ start ∷ start ∷ [];
  lock_until = 0;
  streak_fail = 5;
}

abbrev crowded : Limiter
crowded = ("a", failing) ∷ []

crowded_refused : (check crowded start "a").1 ≡ (900 * second, false)
unfolding check lookup insert ◌-ℤ◌
crowded_refused = refl

crowded_found : lookup "a" crowded ≡ some failing
unfolding lookup
crowded_found = refl
