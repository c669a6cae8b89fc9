-- ===== src/Gmc.antt =====
-- The client of the Content API, internal/gmc/client.go: `do` with its retries, and the calls on top
-- of it. The requests are numbered; what is answered to each, the random part of a sleep, and what
-- encoding/json and strconv make of a text are parameters. The context is not cancelled, so that a
-- sleep lasts to its end.
pub mod Retries
pub mod Reports
mod Tests
use shopify_gmc.Base.{
  ℕ, zero, suc, ◌+◌, ◌*◌, ◌^◌, ◌%◌, String, Bool, true, false, not, Option, none, some, List, [],
  ◌∷◌, ◌++◌, ◌==◌, string_eq, nat_eq, if◌then◌else◌, ◌||◌, leb, ltb, ◌⊎◌, inl, inr,
}
use shopify_gmc.Base.Int.{ℤ, pos, negsuc}
use shopify_gmc.Base.Text.{append_text}

-- What `HTTP.Do` gives: an error, or a status, the header Retry-After and the body.
pub data Reply : Type 0 where
  broken : Reply
  replied : ℕ → String → List ℕ → Reply

-- What the JSON decoder gives; `nothing` is io.EOF.
pub data Decoded {ℓ} (A : Type ℓ) : Type ℓ where
  value : A → Decoded A
  nothing malformed : Decoded A

-- The results of `do`; `bad_status` carries the status.
pub data Result {ℓ} (A : Type ℓ) : Type ℓ where
  ok : A → Result A
  untouched malformed_body no_token unauthorized rate_limited transport : Result A
  bad_status : ℕ → Result A

-- Nanoseconds.
abbrev second : ℕ
second = 10 ^ 9

abbrev pub hour : ℕ
hour = 3600 * second

-- A `time.Duration` has 64 bits, and a timer of a negative one does not wait.
unfoldable pub duration : ℕ → ℕ
duration d = let wrapped = d % 2 ^ 64 in if leb (2 ^ 63) wrapped then 0 else wrapped

abbrev pub capped : ℕ → ℕ
capped d = if ltb hour d then hour else d

abbrev pub max_retries_of : ℕ → ℕ
max_retries_of m = if m == 0 then 4 else m

pub record Client {ℓ} (A : Type ℓ) : Type ℓ where
  pub has_token : Bool
  pub max_retries : ℕ
  pub answer : ℕ → Reply
  pub milliseconds : ℕ → ℕ
  pub atoi : String → Option ℤ
  pub decode : List ℕ → Decoded A

-- A reply settles the request, or is tried again; `again` carries the result for the last attempt.
pub data Step {ℓ} (A : Type ℓ) : Type ℓ where
  settled : Result A → Step A
  again : Result A → String → Step A

-- A request: the result, the requests made and the sleeps between them.
pub record Run {ℓ} (A : Type ℓ) : Type ℓ where
  pub result : Result A
  pub requests : ℕ
  pub waits : List ℕ

abbrev pub decoded {ℓ} : {A : Type ℓ} → Decoded A → Result A
decoded (value a) = ok a
decoded nothing = untouched
decoded malformed = malformed_body

module _ {ℓ} {A : Type ℓ} (c : Client A) where
  -- The switch of `do`.
  unfoldable pub step_of : Reply → Step A
  step_of broken = again transport ""
  step_of (replied status retry_after body) =
      if status == 200 || status == 201 || status == 204
      then settled (decoded (c.decode body))
      else if status == 401 || status == 403
      then settled unauthorized
      else if status == 429 || leb 500 status
      then again (if status == 429 then rate_limited else bad_status status) retry_after
      else settled (bad_status status)

  abbrev pub backoff : ℕ → ℕ
  backoff attempt =
      capped (duration (2 ^ attempt * (30 * second) + c.milliseconds attempt * 10 ^ 6))

  abbrev pub retry_wait : ℕ → Option ℤ → ℕ
  retry_wait attempt none = backoff attempt
  retry_wait attempt (some (negsuc n)) = backoff attempt
  retry_wait attempt (some (pos zero)) = backoff attempt
  retry_wait attempt (some (pos (suc n))) = capped (duration (suc n * second))

  -- `sleep`, how long.
  unfoldable pub wait_of : ℕ → String → ℕ
  wait_of attempt retry_after =
      if retry_after == "" then backoff attempt else retry_wait attempt (c.atoi retry_after)

  abbrev pub last_run : Step A → Run A
  last_run (settled r) = record { result = r; requests = 1; waits = [] }
  last_run (again r retry_after) = record { result = r; requests = 1; waits = [] }

  abbrev pub resume : ℕ → Step A → Run A → Run A
  resume attempt (settled r) rest = record { result = r; requests = 1; waits = [] }
  resume attempt (again r retry_after) rest = record {
    result = rest.result;
    requests = suc rest.requests;
    waits = wait_of attempt retry_after ∷ rest.waits;
  }

  -- The loop of `do`, with the attempts left after this one.
  unfoldable pub attempts_from : ℕ → ℕ → Run A
  attempts_from zero attempt = last_run (step_of (c.answer attempt))
  attempts_from (suc left) attempt =
      let rest = attempts_from left (suc attempt) in
      resume attempt (step_of (c.answer attempt)) rest

  -- `do`.
  unfoldable pub request : Run A
  request =
      if not c.has_token
      then record { result = no_token; requests = 0; waits = [] }
      else attempts_from (max_retries_of c.max_retries) 0

pub record AccountIssue : Type 0 where
  pub id : String
  pub title : String
  pub severity : String
  pub detail : String

abbrev worse : String → String → String
worse severity worst =
    if severity == "error"
    then "warning"
    else if severity == "suggestion"
    then (if worst == "active" then "warning" else worst)
    else worst

unfoldable pub worst_from : String → List AccountIssue → String
worst_from worst [] = worst
worst_from worst (i ∷ is) =
    if i.severity == "critical" then "suspended" else worst_from (worse i.severity worst) is

-- `synthesiseStatus`.
unfoldable pub synthesise_status : List AccountIssue → String
synthesise_status is = worst_from "active" is

-- `accounts/authinfo`, a merchant and an aggregator each, "" where it has none.
pub record Identifier : Type 0 where
  pub merchant_id : String
  pub aggregator_id : String

pub record Account : Type 0 where
  pub id : String
  pub name : String

abbrev account_id : Identifier → String
account_id a = if a.merchant_id == "" then a.aggregator_id else a.merchant_id

-- `ListAccounts`, after `do`.
unfoldable pub list_accounts : List Identifier → List Account
list_accounts [] = []
list_accounts (a ∷ more) =
    let rest = list_accounts more in
    if account_id a == ""
    then rest
    else record { id = account_id a; name = append_text "Merchant " (account_id a) } ∷ rest

-- A page of productstatuses.list.
pub record ProductPage {ℓ} (P : Type ℓ) : Type ℓ where
  pub resources : List P
  pub next_page_token : String

module _ {ℓ} {P E : Type ℓ} (get_page : String → E ⊎ ProductPage P) where
  -- `ListProductStatuses`, with the pages read at most as fuel: nothing else bounds its loop.
  unfoldable pub list_from : ℕ → String → List P → Option (E ⊎ List P)
  list_from zero token all = none
  list_from (suc fuel) token all = elim (get_page token) [
    | inl e ↦ some (inl e)
    | inr page ↦
        if page.next_page_token == ""
        then some (inr (all ++ page.resources))
        else list_from fuel page.next_page_token (all ++ page.resources)
  ]

  unfoldable pub list_product_statuses : ℕ → Option (E ⊎ List P)
  list_product_statuses fuel = list_from fuel "" []
