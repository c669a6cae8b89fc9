-- ===== src/Audit/Tally.antt =====
-- What `runScore` of internal/audit/pipeline.go computes.
use shopify_gmc.Base.{
  ℕ, ◌+◌, ◌-◌, ◌*◌, ◌≡◌, refl, ap, ◌∙◌, String, some, List, [], ◌∷◌, ◌==◌, string_eq, ==_iff,
  if◌then◌else◌, default, length, sum_of, arith, leb, inl, inr, Bool-cases,
}
use shopify_gmc.Base.Int.{ℤ, pos, ◌-ℤ◌}
use shopify_gmc.Base.Table.{Table, lookup, lookup-insert}
use shopify_gmc.Audit.{Status, pass, fail, info, CheckResult, AuditOutput}
use shopify_gmc.Audit.Score.{
  weight_for, risk_level, Tally, add_count, tally_result, tally_all, tally_score, tally_counts,
  empty_tally, clamp, run_score,
}
use shopify_gmc.Audit.Stage.{end_stage}

-- The issues of a result that stand under a count, by its status and severity.
abbrev pub counted_as : String → Status → String → ℕ → ℕ
counted_as key pass severity n = 0
counted_as key fail severity n = if severity == key then n else 0
counted_as key info severity n = if "info" == key then n else 0

abbrev pub counted : String → CheckResult → ℕ
counted key r = counted_as key r.status r.severity (length r.issues)

abbrev pub penalty_as : Status → String → ℕ → ℕ
penalty_as fail severity n = weight_for severity * n
penalty_as status severity n = 0

abbrev pub penalty : CheckResult → ℕ
penalty r = penalty_as r.status r.severity (length r.issues)

add_count-lookup :
    (key at_key : String) (m n : ℕ) (counts : Table String ℕ)
    → lookup key counts ≡ some n
    → lookup key (add_count at_key m counts) ≡ some (n + (if at_key == key then m else 0))
unfolding add_count
add_count-lookup key at_key m n counts h = elim (Bool-cases (at_key == key)) [
  | inl same ↦
      let eq = (==_iff at_key key).0 same in
      lookup-insert at_key key (default (lookup at_key counts) 0 + m) counts ∙ rw (same, eq, h) refl
  | inr other ↦
      lookup-insert at_key key (default (lookup at_key counts) 0 + m) counts
      ∙ rw (other) (h ∙ ap some (omega arith))
]

counts_step :
    (key : String) (status : Status) (severity : String) (m n : ℕ) (counts : Table String ℕ)
    → lookup key counts ≡ some n
    → lookup key (tally_counts status severity m counts)
      ≡ some (n + counted_as key status severity m)
unfolding tally_counts
counts_step key pass severity m n counts h = h ∙ ap some (omega arith)
counts_step key fail severity m n counts h = add_count-lookup key severity m n counts h
counts_step key info severity m n counts h = add_count-lookup key "info" m n counts h

tally_counts_lem :
    (key : String) (rs : List CheckResult) (t : Tally) (n : ℕ)
    → lookup key t.counts ≡ some n
    → lookup key (tally_all rs t).counts ≡ some (n + sum_of (counted key) rs)
unfolding tally_all tally_result
tally_counts_lem key [] t n h = ground arith
tally_counts_lem key (r ∷ rs) t n h =
    tally_counts_lem key rs (tally_result r t) (n + counted key r)
      (counts_step key r.status r.severity (length r.issues) n t.counts h)
    ∙ ap some (omega arith)

score_step :
    (status : Status) (severity : String) (m : ℕ) (score : ℤ) (n : ℕ)
    → tally_score status severity m (score -ℤ pos n)
      ≡ score -ℤ pos (n + penalty_as status severity m)
unfolding tally_score ◌-ℤ◌
score_step pass severity m score n = ground arith
score_step fail severity m score n = ground arith
score_step info severity m score n = ground arith

tally_score_lem :
    (rs : List CheckResult) (t : Tally) (score : ℤ) (n : ℕ)
    → t.score ≡ score -ℤ pos n
    → (tally_all rs t).score ≡ score -ℤ pos (n + sum_of penalty rs)
unfolding tally_all tally_result
tally_score_lem [] t score n h = h ∙ ap (λ k. score -ℤ pos k) (omega arith)
tally_score_lem (r ∷ rs) t score n h =
    tally_score_lem rs (tally_result r t) score (n + penalty r) (
      ap (tally_score r.status r.severity (length r.issues)) h
      ∙ score_step r.status r.severity (length r.issues) score n)
    ∙ ap (λ k. score -ℤ pos k) (omega arith)

-- The weights, by the counts.
known_severity :
    (s a : String)
    → s ≡ a
    → ((s == "critical") ≡ (a == "critical"))
      × ((s == "error") ≡ (a == "error"))
      × ((s == "warning") ≡ (a == "warning"))
known_severity s a e = rw e (refl, refl, refl)

penalty_counted :
    (status : Status) (s : String) (n : ℕ)
    → penalty_as status s n
      ≡ 10 * counted_as "critical" status s n
        + 5 * counted_as "error" status s n
        + 2 * counted_as "warning" status s n
unfolding weight_for
penalty_counted pass s n = refl
penalty_counted fail s n = ground (
  arith,
  ==_iff s "critical",
  ==_iff s "error",
  known_severity s "critical",
  known_severity s "error",
)
penalty_counted info s n = omega arith

total :
    (rs : List CheckResult)
    → sum_of penalty rs
      ≡ 10 * sum_of (counted "critical") rs
        + 5 * sum_of (counted "error") rs
        + 2 * sum_of (counted "warning") rs
total [] = refl
total (r ∷ rs) = omega (arith, penalty_counted r.status r.severity (length r.issues), total rs)

clamp-minus : (n : ℕ) → clamp (pos 100 -ℤ pos n) ≡ pos (100 - n)
unfolding ◌-ℤ◌
clamp-minus n = ground arith

risk-minus :
    (n : ℕ)
    → risk_level (pos (100 - n))
      ≡ (if leb n 20 then "low" else if leb n 50 then "medium" else "high")
unfolding risk_level
risk-minus n = ground arith

-- The points that the results cost: 10 for each critical issue of a failed check, 5 for each error
-- and 2 for each warning.
abbrev pub points : List CheckResult → ℕ
points rs =
    10 * sum_of (counted "critical") rs
    + 5 * sum_of (counted "error") rs
    + 2 * sum_of (counted "warning") rs

score_of : (rs : List CheckResult) → clamp (tally_all rs empty_tally).score ≡ pos (100 - points rs)
score_of rs =
    ap clamp (
      tally_score_lem rs empty_tally (pos 100) 0 minus_0
      ∙ ap (λ k. pos 100 -ℤ pos k) (omega (arith, total rs)))
    ∙ clamp-minus (points rs)
  where
    minus_0 : pos 100 ≡ pos 100 -ℤ pos 0
    minus_0 = unfold ◌-ℤ◌ in refl

-- The score is 100 less the points of the results, and 0 where they are more; the counts of the four
-- severities are the numbers of the issues of the failed checks (the informational checks' under
-- "info"), so that score and counts fit; and the risk is low from a score of 80, medium from 50, high
-- below.
pub run_score_lem :
    (out : AuditOutput)
    → let r = run_score out in
      (r.score ≡ pos (100 - points out.results))
      × (lookup "critical" r.counts ≡ some (sum_of (counted "critical") out.results))
      × (lookup "error" r.counts ≡ some (sum_of (counted "error") out.results))
      × (lookup "warning" r.counts ≡ some (sum_of (counted "warning") out.results))
      × (lookup "info" r.counts ≡ some (sum_of (counted "info") out.results))
      × (r.risk_level ≡ (
          if leb (points out.results) 20
          then "low"
          else if leb (points out.results) 50
          then "medium"
          else "high"))
unfolding run_score end_stage lookup
run_score_lem out = (
  score_of out.results,
  count "critical" refl,
  count "error" refl,
  count "warning" refl,
  count "info" refl,
  ap risk_level (score_of out.results) ∙ risk-minus (points out.results),
)
  where
    count :
        (key : String)
        → lookup key empty_tally.counts ≡ some 0
        → lookup key (tally_all out.results empty_tally).counts
          ≡ some (sum_of (counted key) out.results)
    count key h = tally_counts_lem key out.results empty_tally 0 h ∙ ap some (omega arith)
