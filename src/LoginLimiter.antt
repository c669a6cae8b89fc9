-- ===== src/LoginLimiter.antt =====
-- The login rate limiter, internal/web/ratelimit.go. A time is a number of nanoseconds since the
-- epoch, and the zero `time.Time` of `lockUntil` is 0. The mutex makes each method one step. The
-- clock is the argument `now`, and the fields that `NewLoginLimiter` fixes are constants.
pub mod History
pub mod Window
pub mod Refinement
pub mod Limits
mod Tests
use shopify_gmc.Base.{
  ℕ, suc, ◌+◌, ◌-◌, ◌*◌, ◌^◌, String, Bool, true, false, Option, none, some, List, [], ◌∷◌, ◌++◌,
  ltb, leb, if◌then◌else◌, length, min, string_eq, default,
}
use shopify_gmc.Base.Int.{ℤ, pos, ◌-ℤ◌, ltb_ℤ}
use shopify_gmc.Base.Table.{Table, lookup, insert, remove}

abbrev pub second : ℕ
second = 1000000000

abbrev pub window : ℕ
window = 900 * second

abbrev pub max_per_window : ℕ
max_per_window = 5

abbrev pub backoff_after : ℕ
backoff_after = 3

abbrev pub backoff_base_unit : ℕ
backoff_base_unit = second

pub record LoginState : Type 0 where
  pub failures : List ℕ
  pub lock_until : ℕ
  pub streak_fail : ℕ

abbrev pub Limiter : Type 0
Limiter = Table String LoginState

pub prune_before : List ℕ → ℤ → List ℕ
prune_before [] cutoff = []
prune_before (t ∷ ts) cutoff = if ltb_ℤ cutoff (pos t) then t ∷ ts else prune_before ts cutoff

-- `retryAfter` and `allowed`.
abbrev pub Answer : Type 0
Answer = ℕ × Bool

-- The test on the pruned failures. The oldest is in the window, so the subtraction is exact.
pub window_answer : ℕ → List ℕ → Answer
window_answer now [] = (0, true)
window_answer now (oldest ∷ ts) =
    if leb max_per_window (length (oldest ∷ ts)) then (oldest + window - now, false) else (0, true)

-- `Check` prunes the failures that it stores, through the pointer `st`.
pub check_state : ℕ → LoginState → LoginState × Answer
unfolding prune_before window_answer
check_state now st =
    if ltb now st.lock_until
    then (st, (st.lock_until - now, false))
    else let kept = prune_before st.failures (pos now -ℤ pos window) in
      (record st { failures = kept }, window_answer now kept)

unfoldable pub check : Limiter → ℕ → String → Limiter × Answer
unfolding check_state
check l now ip = elim (lookup ip l) [
  | none ↦ (l, (0, true))
  | some st ↦ (insert ip (check_state now st).0 l, (check_state now st).1)
]

abbrev pub new_state : LoginState
new_state = record { failures = []; lock_until = 0; streak_fail = 0 }

-- `l.backoffBaseUnit * (1 << exp)`, with `exp` capped at 8.
pub lock_duration : ℕ → ℕ
lock_duration streak =
    backoff_base_unit * 2 ^ (if ltb 8 (streak - backoff_after) then 8 else streak - backoff_after)

pub fail_state : ℕ → LoginState → LoginState
unfolding lock_duration
fail_state now st = record {
  failures = st.failures ++ now ∷ [];
  lock_until =
      if ltb backoff_after (suc st.streak_fail)
      then now + lock_duration (suc st.streak_fail)
      else st.lock_until;
  streak_fail = suc st.streak_fail;
}

pub record_failure : Limiter → ℕ → String → Limiter
unfolding fail_state
record_failure l now ip = insert ip (fail_state now (default (lookup ip l) new_state)) l

pub record_success : Limiter → String → Limiter
record_success l ip = remove ip l
