-- ===== src/Jobs.antt =====
-- The job queue on audit_jobs, internal/jobs/jobs.go. Identifiers are numbers, times are seconds. A
-- statement that locks, or a transaction, is one step; Postgres leaves the order of rows with equal
-- `run_at` open, and here the first in the table is taken.
pub mod Claim
pub mod Handle
pub mod System
mod Tests
use shopify_gmc.Base.{
  ℕ, suc, ◌+◌, ◌-◌, ◌*◌, String, Bool, true, false, Option, none, some, List, [], ◌∷◌, ◌&&◌, ltb,
  leb, if◌then◌else◌, length, ◌==◌, nat_eq, string_eq, any, not,
}
use shopify_gmc.Base.Table.{Table, modify, insert}
use shopify_gmc.Base.Text.{append_text}

pub data Status : Type 0 where
  queued running succeeded dead : Status

-- A row of audit_jobs; `updated_at` is left out.
pub record JobRow : Type 0 where
  pub tenant_id : Option ℕ
  pub kind : String
  pub payload : String
  pub status : Status
  pub run_at : ℕ
  pub attempts : ℕ
  pub max_attempts : ℕ
  pub last_error : Option String
  pub locked_at : Option ℕ
  pub locked_by : Option String
  pub finished_at : Option ℕ

pub record Job : Type 0 where
  pub id : ℕ
  pub tenant_id : Option ℕ
  pub kind : String
  pub payload : String
  pub attempts : ℕ
  pub max_attempts : ℕ

abbrev pub Queue : Type 0
Queue = Table ℕ JobRow

abbrev pub is_queued : Status → Bool
is_queued queued = true
is_queued _ = false

-- WHERE status = 'queued' AND run_at <= now.
abbrev pub is_ready : ℕ → JobRow → Bool
is_ready now r = is_queued r.status && leb r.run_at now

-- ORDER BY run_at LIMIT 1, over the ready rows of the table.
abbrev earlier : ℕ × JobRow → Option (ℕ × JobRow) → Option (ℕ × JobRow)
earlier e none = some e
earlier e (some f) = if leb e.1.run_at f.1.run_at then some e else some f

pub next_ready : ℕ → Queue → Option (ℕ × JobRow)
next_ready now [] = none
next_ready now (e ∷ q) =
    let rest = next_ready now q in if is_ready now e.1 then earlier e rest else rest

abbrev pub claimed_row : ℕ → String → JobRow → JobRow
claimed_row now worker r = record r {
  status = running;
  locked_at = some now;
  locked_by = some worker;
  attempts = suc r.attempts;
}

-- The columns that `claim` returns.
abbrev pub claimed_job : ℕ → JobRow → Job
claimed_job id r = record {
  id = id;
  tenant_id = r.tenant_id;
  kind = r.kind;
  payload = r.payload;
  attempts = suc r.attempts;
  max_attempts = r.max_attempts;
}

-- `claim`, where the database answers: an error of it leaves the queue as it was.
pub claim : ℕ → String → Queue → Queue × Option Job
unfolding next_ready
claim now worker q = elim (next_ready now q) [
  | none ↦ (q, none)
  | some (id, r) ↦ (modify id (claimed_row now worker) q, some (claimed_job id r))
]

abbrev backoffs : List ℕ
backoffs = 30 ∷ 120 ∷ 600 ∷ []

abbrev nth : List ℕ → ℕ → ℕ
nth [] i = 0
nth (x ∷ xs) i = elim i [ ℕ.zero ↦ x | suc k ↦ nth xs k ]

-- The delay that `markRetry` picks. `delayIdx` is not below 0, since `-` stops at 0.
unfoldable pub backoff : ℕ → ℕ
backoff attempts =
    let i = attempts - 1 in
    nth backoffs (if leb (length backoffs) i then length backoffs - 1 else i)

pub mark_succeeded : ℕ → Job → Queue → Queue
mark_succeeded now j q =
    modify j.id (λ r. record r { status = succeeded; finished_at = some now }) q

pub mark_retry : ℕ → Job → String → Queue → Queue
unfolding backoff
mark_retry now j error q =
    modify j.id
      (λ r. record r {
        status = queued;
        last_error = some error;
        run_at = now + backoff j.attempts;
        locked_at = none;
        locked_by = none;
      })
      q

pub mark_dead : ℕ → Job → String → Queue → Queue
mark_dead now j error q =
    modify j.id (λ r. record r { status = dead; last_error = some error; finished_at = some now }) q

-- What the registered handler of a kind returns: `nil`, or an error with its text.
pub data Outcome : Type 0 where
  done : Outcome
  failed : String → Outcome

-- `handle`: `kinds` are the registered kinds, `outcome` is what the handler of the job's kind
-- returns.
settle : ℕ → Job → Outcome → Queue → Queue
unfolding mark_succeeded mark_retry mark_dead
settle now j done q = mark_succeeded now j q
settle now j (failed error) q =
    if leb j.max_attempts j.attempts then mark_dead now j error q else mark_retry now j error q

pub handle : ℕ → List String → Job → Outcome → Queue → Queue
unfolding settle
handle now kinds j outcome q =
    if any (λ k. k == j.kind) kinds
    then settle now j outcome q
    else mark_dead now j (append_text "no handler registered for kind=" j.kind) q

-- `INSERT INTO audit_jobs (tenant_id, kind, payload, run_at)`: the schema gives the other columns.
pub new_row : Option ℕ → String → String → ℕ → JobRow
new_row tenant kind payload run_at = record {
  tenant_id = tenant;
  kind = kind;
  payload = payload;
  status = queued;
  run_at = run_at;
  attempts = 0;
  max_attempts = 5;
  last_error = none;
  locked_at = none;
  locked_by = none;
  finished_at = none;
}

-- `AuditJobsRepo.Enqueue`, with the identifier that the database draws.
pub enqueue : ℕ → Option ℕ → String → String → ℕ → Queue → Queue
unfolding new_row
enqueue id tenant kind payload run_at q =
    insert id (new_row tenant kind (if payload == "" then "{}" else payload) run_at) q
