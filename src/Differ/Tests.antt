-- ===== src/Differ/Tests.antt =====
-- A comparison of two audits, and the theorems at it.
use shopify_gmc.Base.{◌≡◌, refl, some, none, List, [], ◌∷◌, String, string_eq, length, select}
use shopify_gmc.Base.Int.{pos, negsuc, ◌-ℤ◌}
use shopify_gmc.Base.Table.{lookup, insert}
use shopify_gmc.Base.{All}
use shopify_gmc.Differ.{IssueKey, key, by_key, compute, delta}
use shopify_gmc.Differ.Keys.{IsNamed, NoNul-by_test}
use shopify_gmc.Differ.Counts.{is_critical, seen, unseen, compute_lem}

abbrev issue : String → String → String → IssueKey
issue check page severity = record {
  check_id = check;
  page_url = page;
  severity = severity;
  title = check;
  product_title = "";
}

abbrev before : List IssueKey
before = issue "https" "/" "error" ∷ issue "alt" "/p/1" "warning" ∷ []

abbrev now : List IssueKey
now =
    issue "alt" "/p/1" "warning" ∷ issue "alt" "/p/2" "warning" ∷ issue "policy" "/" "critical" ∷ []

compare_two :
    let d = compute before now (some (pos 93)) (pos 86) in
    (d.new_count ≡ 2)
    × (d.new_critical_count ≡ 1)
    × (d.unchanged_count ≡ 1)
    × (d.resolved_issues ≡ issue "https" "/" "error" ∷ [])
    × (d.score_delta ≡ negsuc 6)
unfolding compute by_key key lookup insert ◌-ℤ◌
compare_two = (refl, refl, refl, refl, refl)

before-IsNamed : All IsNamed before
before-IsNamed = (NoNul-by_test "https" refl, (NoNul-by_test "alt" refl, tt))

now-IsNamed : All IsNamed now
now-IsNamed =
    (NoNul-by_test "alt" refl, (NoNul-by_test "alt" refl, (NoNul-by_test "policy" refl, tt)))

compute_lem_example :
    let d = compute before now none (pos 86) in
    (d.new_issues ≡ unseen before now)
    × (d.resolved_issues ≡ unseen now before)
    × (d.new_count ≡ length (unseen before now))
    × (d.resolved_count ≡ length (unseen now before))
    × (d.unchanged_count ≡ length (select (seen before) now))
    × (d.new_critical_count ≡ length (select is_critical (unseen before now)))
    × (d.score_delta ≡ delta none (pos 86))
compute_lem_example = compute_lem before now none (pos 86) before-IsNamed now-IsNamed
