-- ===== src/Jobs/Handle.antt =====
-- What `handle` of internal/jobs/jobs.go does with the row of a job.
use shopify_gmc.Base.{
  ℕ, zero, suc, ◌+◌, ◌≤◌, ◌<◌, ◌≡◌, ◌≢◌, refl, Bool, true, false, none, some, List, arith, leb,
  String, Bool-cases, inl, inr, ==_iff, ==_refl, nat_eq, string_eq, ◌==◌, any,
}
use shopify_gmc.Base.Text.{append_text}
use shopify_gmc.Base.Table.{lookup, modify, lookup-modify}
use shopify_gmc.Jobs.{
  Job, JobRow, Queue, queued, succeeded, dead, Outcome, done, failed, backoff, handle,
}

-- Is there a handler for the job.
abbrev pub is_registered : List String → Job → Bool
is_registered kinds j = any (λ k. k == j.kind) kinds

-- What the row of a job becomes: with a handler or without, with no attempt left or with some.
abbrev row_change : ℕ → Job → Bool → Bool → Outcome → JobRow → JobRow
row_change now j false spent outcome r = record r {
  status = dead;
  last_error = some (append_text "no handler registered for kind=" j.kind);
  finished_at = some now;
}
row_change now j true spent done r = record r { status = succeeded; finished_at = some now }
row_change now j true true (failed error) r = record r {
  status = dead;
  last_error = some error;
  finished_at = some now;
}
row_change now j true false (failed error) r = record r {
  status = queued;
  last_error = some error;
  run_at = now + backoff j.attempts;
  locked_at = none;
  locked_by = none;
}

abbrev pub settled : ℕ → List String → Job → Outcome → JobRow → JobRow
settled now kinds j outcome =
    row_change now j (is_registered kinds j) (leb j.max_attempts j.attempts) outcome

module _ (now : ℕ) (kinds : List String) (j : Job) (q : Queue) where
  pub handle-settled :
      (outcome : Outcome)
      → handle now kinds j outcome q ≡ modify j.id (settled now kinds j outcome) q
  unfolding handle
  handle-settled done = elim (Bool-cases (is_registered kinds j)) [
    | inl known ↦ rw known refl
    | inr unknown ↦ rw unknown refl
  ]
  handle-settled (failed error) = elim (Bool-cases (is_registered kinds j)) [
    | inl known ↦ elim (Bool-cases (leb j.max_attempts j.attempts)) [
      | inl spent ↦ rw (known, spent) refl
      | inr left ↦ rw (known, left) refl
    ]
    | inr unknown ↦ rw unknown refl
  ]

-- The delay before the next attempt: half a minute, two minutes, and ten minutes from the third on.
backoff_schedule :
    (n : ℕ) → (n ≤ 1 → backoff n ≡ 30) × (n ≡ 2 → backoff n ≡ 120) × (3 ≤ n → backoff n ≡ 600)
unfolding backoff
backoff_schedule zero = (λ h. refl, λ h. absurd (omega arith), λ h. absurd (omega arith))
backoff_schedule (suc zero) = (λ h. refl, λ h. absurd (omega arith), λ h. absurd (omega arith))
backoff_schedule (suc (suc zero)) =
    (λ h. absurd (omega arith), λ h. refl, λ h. absurd (omega arith))
backoff_schedule (suc (suc (suc n))) =
    (λ h. absurd (omega arith), λ h. absurd (omega arith), λ h. ground arith)

-- What becomes of the row `r` of a job, and of the other rows.
pub record IsHandled (now : ℕ) (kinds : List String) (j : Job) (outcome : Outcome) (r : JobRow)
    (q q' : Queue) : Type 0 where
  pub row : JobRow
  pub found : lookup j.id q' ≡ some row
  pub attempts : row.attempts ≡ r.attempts
  pub unknown_dies : any (λ k. k == j.kind) kinds ≡ false → row.status ≡ dead
  pub success_ends : any (λ k. k == j.kind) kinds ≡ true → outcome ≡ done → row.status ≡ succeeded
  pub last_failure_dies :
      any (λ k. k == j.kind) kinds ≡ true
      → (e : String) → outcome ≡ failed e
      → j.max_attempts ≤ j.attempts
      → (row.status ≡ dead) × (row.last_error ≡ some e)
  pub failure_retries :
      any (λ k. k == j.kind) kinds ≡ true
      → (e : String) → outcome ≡ failed e
      → j.attempts < j.max_attempts
      → (row.status ≡ queued)
        × (row.locked_by ≡ none)
        × (row.last_error ≡ some e)
        × (j.attempts ≤ 1 → row.run_at ≡ now + 30)
        × (j.attempts ≡ 2 → row.run_at ≡ now + 120)
        × (3 ≤ j.attempts → row.run_at ≡ now + 600)
  pub others : (k : ℕ) → k ≢ j.id → lookup k q' ≡ lookup k q

-- `handle` on a job with a row: without a handler for its kind the job dies; after a success it has
-- succeeded; after an error it dies if its attempts are used up, and else is queued again without a
-- lock, after 30 seconds, 2 minutes, or 10 minutes from the third attempt on. No other row changes.
pub handle_lem :
    (now : ℕ) (kinds : List String) (j : Job) (outcome : Outcome) (r : JobRow) (q : Queue)
    → lookup j.id q ≡ some r
    → IsHandled now kinds j outcome r q (handle now kinds j outcome q)
handle_lem now kinds j outcome r q e = rw (handle-settled now kinds j q outcome) (record {
  row = settled now kinds j outcome r;
  found = rw (lookup-modify j.id j.id (settled now kinds j outcome) q, ==_refl j.id, e) refl;
  attempts = ground arith;
  unknown_dies = λ u. ground arith;
  success_ends = λ u o. ground arith;
  last_failure_dies = λ u x o n. ground arith;
  failure_retries = λ u x o n. ground (arith, backoff_schedule j.attempts);
  others =
      λ k n. ground (arith, lookup-modify j.id k (settled now kinds j outcome) q, ==_iff j.id k);
})
