-- ===== src/Differ/Counts.antt =====
-- What `Compute` of differ.go reports.
use shopify_gmc.Base.{
  ◌+◌, ◌≤◌, ◌≡◌, refl, ap, ◌∙◌, String, Bool, true, not, Option, List, [], ◌∷◌, ◌++◌, ◌==◌,
  string_eq, any, select, length, All, arith, length-select, length-select-not, ==_iff,
}
use mathlib.Core.List.{append-nil, append_assoc}
use shopify_gmc.Base.Int.{ℤ}
use shopify_gmc.Base.Table.{Table}
use shopify_gmc.Differ.{
  IssueKey, Diff, has, by_key, compute, count_current, current_loop, count_previous, previous_loop,
  empty_diff, delta,
}
use shopify_gmc.Differ.Keys.{IsNamed, same_issue, key-same_issue, occurs, by_key-occurs}

abbrev pub is_critical : IssueKey → Bool
is_critical k = k.severity == "critical"

-- The loop over the current issues, from a diff `d`.
current_loop_lem :
    (m : Table String IssueKey) (ks : List IssueKey) (d : Diff)
    → let fresh = select (λ k. not (has m k)) ks in
      current_loop m ks d ≡ record d {
        new_count = d.new_count + length fresh;
        unchanged_count = d.unchanged_count + length (select (has m) ks);
        new_critical_count = d.new_critical_count + length (select is_critical fresh);
        new_issues = d.new_issues ++ fresh;
      }
unfolding current_loop count_current
current_loop_lem m [] d = ground (arith, append-nil d.new_issues)
current_loop_lem m (k ∷ ks) d =
    current_loop_lem m ks (count_current m k d)
    ∙ ground
        (arith, append_assoc d.new_issues (k ∷ []) (select (λ (j : IssueKey). not (has m j)) ks))

-- The loop over the previous issues, from a diff `d`.
previous_loop_lem :
    (m : Table String IssueKey) (ks : List IssueKey) (d : Diff)
    → let gone = select (λ k. not (has m k)) ks in
      previous_loop m ks d ≡ record d {
        resolved_count = d.resolved_count + length gone;
        resolved_issues = d.resolved_issues ++ gone;
      }
unfolding previous_loop count_previous
previous_loop_lem m [] d = ground (arith, append-nil d.resolved_issues)
previous_loop_lem m (k ∷ ks) d =
    previous_loop_lem m ks (count_previous m k d)
    ∙ ground (
      arith,
      append_assoc d.resolved_issues (k ∷ []) (select (λ (j : IssueKey). not (has m j)) ks),
    )

-- Is the same rule on the same page reported in a list.
abbrev pub seen : List IssueKey → IssueKey → Bool
seen ks k = any (λ j. same_issue j k) ks

select-cong {ℓ} :
    {A : Type ℓ} (p q : A → Bool) (xs : List A)
    → All (λ x. p x ≡ q x) xs
    → select p xs ≡ select q xs
select-cong p q [] h = refl
select-cong p q (x ∷ xs) h = ground (arith, h.0, select-cong p q xs h.1)

occurs-seen :
    (ks : List IssueKey) (k : IssueKey) → All IsNamed ks → IsNamed k → occurs ks k ≡ seen ks k
occurs-seen [] k h n = refl
occurs-seen (j ∷ ks) k h n = ground (arith, key-same_issue j k h.0 n, occurs-seen ks k h.1 n)

has-seen :
    (ks js : List IssueKey)
    → All IsNamed ks
    → All IsNamed js
    → All (λ k. has (by_key ks) k ≡ seen ks k) js
has-seen ks [] h n = tt
has-seen ks (j ∷ js) h n = (by_key-occurs ks j ∙ occurs-seen ks j h n.0, has-seen ks js h n.1)

All-not {ℓ} :
    {A : Type ℓ} (p q : A → Bool) (xs : List A)
    → All (λ x. p x ≡ q x) xs
    → All (λ x. not (p x) ≡ not (q x)) xs
All-not p q [] h = tt
All-not p q (x ∷ xs) h = (ap not h.0, All-not p q xs h.1)

-- What was not seen before.
abbrev pub unseen : List IssueKey → List IssueKey → List IssueKey
unseen ks = select (λ k. not (seen ks k))

module _ (prev curr : List IssueKey) (named_prev : All IsNamed prev)
    (named_curr : All IsNamed curr) where
  fresh : select (λ k. not (has (by_key prev) k)) curr ≡ unseen prev curr
  fresh = select-cong _ _ curr (All-not _ _ curr (has-seen prev curr named_prev named_curr))

  gone : select (λ k. not (has (by_key curr) k)) prev ≡ unseen curr prev
  gone = select-cong _ _ prev (All-not _ _ prev (has-seen curr prev named_curr named_prev))

  kept : select (has (by_key prev)) curr ≡ select (seen prev) curr
  kept = select-cong _ _ curr (has-seen prev curr named_prev named_curr)

  compute_is :
      (old : Option ℤ) (new : ℤ)
      → compute prev curr old new ≡ record {
        new_count = length (unseen prev curr);
        resolved_count = length (unseen curr prev);
        unchanged_count = length (select (seen prev) curr);
        new_critical_count = length (select is_critical (unseen prev curr));
        prev_score = old;
        new_score = new;
        score_delta = delta old new;
        new_issues = unseen prev curr;
        resolved_issues = unseen curr prev;
      }
  unfolding compute
  compute_is old new =
      let mid = current_loop (by_key prev) curr (empty_diff old new) in
      ground (
        arith,
        current_loop_lem (by_key prev) curr (empty_diff old new),
        previous_loop_lem (by_key curr) prev mid,
        fresh,
        gone,
        kept,
      )

seen-cons :
    (j : IssueKey) (ks js : List IssueKey)
    → All (λ k. seen ks k ≡ true) js
    → All (λ k. seen (j ∷ ks) k ≡ true) js
seen-cons j ks [] h = tt
seen-cons j ks (k ∷ js) h = (ground (arith, h.0), seen-cons j ks js h.1)

seen_self : (ks : List IssueKey) → All (λ k. seen ks k ≡ true) ks
seen_self [] = tt
seen_self (k ∷ ks) = (
  ground (arith, ==_iff k.check_id k.check_id, ==_iff k.page_url k.page_url),
  seen-cons k ks ks (seen_self ks),
)

select-All {ℓ} :
    {A : Type ℓ} (p : A → Bool) (xs : List A)
    → All (λ x. p x ≡ true) xs
    → (select p xs ≡ xs) × (select (λ x. not (p x)) xs ≡ [])
select-All p [] h = (refl, refl)
select-All p (x ∷ xs) h =
    (ground (arith, h.0, select-All p xs h.1), ground (arith, h.0, select-All p xs h.1))

-- For issues whose checks are named without U+0000, `Compute` classifies by check and page: the new
-- issues are the current ones that the previous audit does not have, the resolved ones the previous
-- that the current audit does not have, each in their order; the counts are the lengths of these
-- lists and of the current issues that were there before, and the critical count is of the new ones.
-- The score's change is 0 without a previous score.
pub compute_lem :
    (prev curr : List IssueKey) (old : Option ℤ) (new : ℤ)
    → All IsNamed prev
    → All IsNamed curr
    → let d = compute prev curr old new in
      (d.new_issues ≡ unseen prev curr)
      × (d.resolved_issues ≡ unseen curr prev)
      × (d.new_count ≡ length (unseen prev curr))
      × (d.resolved_count ≡ length (unseen curr prev))
      × (d.unchanged_count ≡ length (select (seen prev) curr))
      × (d.new_critical_count ≡ length (select is_critical (unseen prev curr)))
      × (d.score_delta ≡ delta old new)
compute_lem prev curr old new hp hc =
    rw (compute_is prev curr hp hc old new) (refl, refl, refl, refl, refl, refl, refl)

-- Every current issue is counted once, as new or as unchanged; no more issues are critical than new,
-- nor resolved than there were; exchanging the audits exchanges new and resolved issues; and an
-- audit against itself has nothing new and nothing resolved.
pub compute_accounts :
    (prev curr : List IssueKey) (old : Option ℤ) (new : ℤ)
    → All IsNamed prev
    → All IsNamed curr
    → let d = compute prev curr old new in
      (d.new_count + d.unchanged_count ≡ length curr)
      × (d.new_critical_count ≤ d.new_count)
      × (d.resolved_count ≤ length prev)
      × (d.resolved_issues ≡ (compute curr prev old new).new_issues)
      × ((compute curr curr old new).new_count ≡ 0)
      × ((compute curr curr old new).unchanged_count ≡ length curr)
compute_accounts prev curr old new hp hc =
    rw
      (
        compute_is prev curr hp hc old new,
        compute_is curr prev hc hp old new,
        compute_is curr curr hc hc old new,
      )
      (
        omega (arith, length-select-not (seen prev) curr),
        length-select is_critical (unseen prev curr),
        length-select (λ k. not (seen curr k)) prev,
        refl,
        ap length (select-All (seen curr) curr (seen_self curr)).1,
        ap length (select-All (seen curr) curr (seen_self curr)).0,
      )
