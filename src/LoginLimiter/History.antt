-- ===== src/LoginLimiter/History.antt =====
-- The limiter as it is meant: for each address the times of the failures since its last success,
-- never pruned, from which every answer is computed; and runs of events against both.
use shopify_gmc.Base.{
  ℕ, ◌+◌, ◌-◌, ◌≤◌, String, false, List, [], ◌∷◌, ◌++◌, ltb, if◌then◌else◌, length, select, ◌==◌,
  string_eq,
}
use shopify_gmc.LoginLimiter.{
  window, backoff_after, Limiter, Answer, window_answer, lock_duration, check, record_failure,
  record_success,
}

-- The last of `ts`, or `t`.
abbrev pub last_or : ℕ → List ℕ → ℕ
last_or t [] = t
last_or t (u ∷ ts) = last_or u ts

abbrev pub lock_of : List ℕ → ℕ
lock_of ts = if ltb backoff_after (length ts) then last_or 0 ts + lock_duration (length ts) else 0

-- The failures that are less than a window old.
abbrev pub recent : ℕ → List ℕ → List ℕ
recent now = select (λ t. ltb now (t + window))

abbrev pub answer : ℕ → List ℕ → Answer
answer now ts =
    if ltb now (lock_of ts) then (lock_of ts - now, false) else window_answer now (recent now ts)

abbrev pub History : Type 0
History = String → List ℕ

pub data Event : Type 0 where
  probe failure : ℕ → String → Event
  success : String → Event

abbrev pub after_event : Event → History → History
after_event (probe now ip) h = h
after_event (failure now ip) h = λ j. if ip == j then h j ++ now ∷ [] else h j
after_event (success ip) h = λ j. if ip == j then [] else h j

unfoldable pub expected : List Event → History → List Answer
expected [] h = []
expected (probe now ip ∷ es) h = answer now (h ip) ∷ expected es h
expected (failure now ip ∷ es) h = expected es (after_event (failure now ip) h)
expected (success ip ∷ es) h = expected es (after_event (success ip) h)

unfoldable pub answers : List Event → Limiter → List Answer
answers [] l = []
answers (probe now ip ∷ es) l = (check l now ip).1 ∷ answers es (check l now ip).0
answers (failure now ip ∷ es) l = answers es (record_failure l now ip)
answers (success ip ∷ es) l = answers es (record_success l ip)

-- The clock does not run backwards: from `t` on, the times of the events rise.
abbrev pub IsTimely : ℕ → List Event → Type 0
IsTimely t [] = Unit
IsTimely t (probe now ip ∷ es) = (t ≤ now) × IsTimely now es
IsTimely t (failure now ip ∷ es) = (t ≤ now) × IsTimely now es
IsTimely t (success ip ∷ es) = IsTimely t es
