-- ===== src/Differ.antt =====
-- The comparison of two audits of a store, internal/audit/differ/differ.go. Scores are `int`s, here
-- integers; the counters count list elements.
pub mod Keys
pub mod Counts
mod Tests
use Prim.Native.Char
use Prim.Native.String
use shopify_gmc.Base.{
  ℕ, suc, String, Bool, true, false, Option, none, some, List, [], ◌∷◌, ◌++◌, ◌==◌, string_eq,
  if◌then◌else◌, is_some,
}
use shopify_gmc.Base.Int.{ℤ, pos, ◌-ℤ◌}
use shopify_gmc.Base.Table.{Table, lookup, insert}
use shopify_gmc.Base.Text.{append_text}

pub record IssueKey : Type 0 where
  pub check_id : String
  pub page_url : String
  pub severity : String
  pub title : String
  pub product_title : String

-- The character U+0000 between the two parts of an identity.
abbrev pub nul : String
nul = String.◌∷◌ Char.nul String.[]

-- `IssueKey.id`.
pub key : IssueKey → String
key k = append_text k.check_id (append_text nul k.page_url)

pub record Diff : Type 0 where
  pub new_count : ℕ
  pub resolved_count : ℕ
  pub unchanged_count : ℕ
  pub new_critical_count : ℕ
  pub prev_score : Option ℤ
  pub new_score : ℤ
  pub score_delta : ℤ
  pub new_issues : List IssueKey
  pub resolved_issues : List IssueKey

-- `prevByKey` and `currByKey`: a later issue of the same identity replaces an earlier one.
unfoldable pub by_key_from : Table String IssueKey → List IssueKey → Table String IssueKey
by_key_from m [] = m
by_key_from m (k ∷ ks) = by_key_from (insert (key k) k m) ks

unfoldable pub by_key : List IssueKey → Table String IssueKey
unfolding by_key_from
by_key ks = by_key_from [] ks

abbrev has : Table String IssueKey → IssueKey → Bool
has m k = is_some (lookup (key k) m)

-- One round of the loop over `curr`.
count_current : Table String IssueKey → IssueKey → Diff → Diff
count_current prev k d =
    if has prev k then record d { unchanged_count = suc d.unchanged_count } else record d {
      new_count = suc d.new_count;
      new_critical_count =
          if k.severity == "critical" then suc d.new_critical_count else d.new_critical_count;
      new_issues = d.new_issues ++ k ∷ [];
    }

current_loop : Table String IssueKey → List IssueKey → Diff → Diff
current_loop prev [] d = d
current_loop prev (k ∷ ks) d = current_loop prev ks (count_current prev k d)

-- One round of the loop over `prev`.
count_previous : Table String IssueKey → IssueKey → Diff → Diff
count_previous curr k d = if has curr k then d else record d {
  resolved_count = suc d.resolved_count;
  resolved_issues = d.resolved_issues ++ k ∷ [];
}

previous_loop : Table String IssueKey → List IssueKey → Diff → Diff
previous_loop curr [] d = d
previous_loop curr (k ∷ ks) d = previous_loop curr ks (count_previous curr k d)

abbrev delta : Option ℤ → ℤ → ℤ
delta none new = pos 0
delta (some old) new = new -ℤ old

abbrev empty_diff : Option ℤ → ℤ → Diff
empty_diff prev_score new_score = record {
  new_count = 0;
  resolved_count = 0;
  unchanged_count = 0;
  new_critical_count = 0;
  prev_score = prev_score;
  new_score = new_score;
  score_delta = delta prev_score new_score;
  new_issues = [];
  resolved_issues = [];
}

pub compute : List IssueKey → List IssueKey → Option ℤ → ℤ → Diff
unfolding current_loop count_current previous_loop count_previous
compute prev curr prev_score new_score =
    previous_loop (by_key curr) prev
      (current_loop (by_key prev) curr (empty_diff prev_score new_score))
