-- ===== src/Differ/Keys.antt =====
-- Identities of issues in differ.go, as texts and as pairs.
use Prim.Native.Char
use Prim.Native.Char.{Char, code}
use shopify_gmc.Base.{
  ◌≡◌, ◌≢◌, refl, sym, ap, ◌∙◌, inl, inr, Bool-cases, String, Bool, true, false, List, [], ◌∷◌,
  ◌==◌, string_eq, nat_eq, all, not, ==_iff, any, arith, ◌||◌, ◌&&◌,
}
use mathlib.Core.Path.{ap₂}
use text.Mathlib.TextLemmas.{nil-append, cons-append, head-eq_of_cons-eq, tail-eq_of_cons-eq}
use shopify_gmc.Base.Table.{Table, lookup, insert, lookup-insert}
use shopify_gmc.Base.Text.{append_text, codes}
use shopify_gmc.Differ.{IssueKey, key, nul, by_key, by_key_from, has}

-- The texts of check identifiers and addresses hold no U+0000, which Postgres does not store in a
-- text.
abbrev pub NoNul : String → Type 0
NoNul String.[] = Unit
NoNul (String.◌∷◌ c s) = (c ≢ Char.nul) × NoNul s

join-nil : (b : String) → append_text String.[] (append_text nul b) ≡ String.◌∷◌ Char.nul b
join-nil b =
    nil-append (append_text nul b)
    ∙ cons-append Char.nul String.[] b
    ∙ ap (String.◌∷◌ Char.nul) (nil-append b)

join-inj :
    (a b c d : String)
    → NoNul a
    → NoNul c
    → append_text a (append_text nul b) ≡ append_text c (append_text nul d)
    → (a ≡ c) × (b ≡ d)
join-inj String.[] b String.[] d h k e =
    (refl, tail-eq_of_cons-eq (sym (join-nil b) ∙ e ∙ join-nil d))
join-inj String.[] b (String.◌∷◌ y c) d h k e =
    absurd
      (k.0 (sym (head-eq_of_cons-eq (sym (join-nil b) ∙ e ∙ cons-append y c (append_text nul d)))))
join-inj (String.◌∷◌ x a) b String.[] d h k e =
    absurd (h.0 (head-eq_of_cons-eq (sym (cons-append x a (append_text nul b)) ∙ e ∙ join-nil d)))
join-inj (String.◌∷◌ x a) b (String.◌∷◌ y c) d h k e =
    let same =
      sym (cons-append x a (append_text nul b)) ∙ e ∙ cons-append y c (append_text nul d) in
    let rest = join-inj a b c d h.1 k.1 (tail-eq_of_cons-eq same) in
    (ap₂ String.◌∷◌ (head-eq_of_cons-eq same) rest.0, rest.1)

abbrev pub IsNamed : IssueKey → Type 0
IsNamed k = NoNul k.check_id

-- The same rule on the same page.
abbrev pub same_issue : IssueKey → IssueKey → Bool
same_issue j k = (j.check_id == k.check_id) && (j.page_url == k.page_url)

-- The text identity of issues is the identity of their check and their page.
pub key-same_issue : (j k : IssueKey) → IsNamed j → IsNamed k → (key j == key k) ≡ same_issue j k
unfolding key
key-same_issue j k hj hk = elim (Bool-cases (key j == key k)) [
  | inl same ↦
      let parts =
        join-inj j.check_id j.page_url k.check_id k.page_url hj hk
          ((==_iff (key j) (key k)).0 same) in
      rw (same, (==_iff j.check_id k.check_id).1 parts.0, (==_iff j.page_url k.page_url).1 parts.1)
        refl
  | inr other ↦ other ∙ sym (differs other)
]
  where
    differs : (key j == key k) ≡ false → same_issue j k ≡ false
    differs other =
        ground (
          arith,
          ==_iff j.check_id k.check_id,
          ==_iff j.page_url k.page_url,
          ==_iff (key j) (key k),
        )

-- Is an issue of the same identity in a list.
abbrev pub occurs : List IssueKey → IssueKey → Bool
occurs ks k = any (λ j. key j == key k) ks

by_key_from-occurs :
    (m : Table String IssueKey) (ks : List IssueKey) (k : IssueKey)
    → has (by_key_from m ks) k ≡ (occurs ks k || has m k)
unfolding by_key_from
by_key_from-occurs m [] k = refl
by_key_from-occurs m (j ∷ ks) k =
    by_key_from-occurs (insert (key j) j m) ks k ∙ ground (arith, lookup-insert (key j) (key k) j m)

pub by_key-occurs : (ks : List IssueKey) (k : IssueKey) → has (by_key ks) k ≡ occurs ks k
unfolding by_key lookup
by_key-occurs ks k = by_key_from-occurs [] ks k ∙ ground arith

-- The absence of U+0000, by its test.
pub NoNul-by_test : (s : String) → all (λ c. not (c == 0)) (codes s) ≡ true → NoNul s
NoNul-by_test String.[] h = tt
NoNul-by_test (String.◌∷◌ c s) h =
    ((λ e. ground (arith, ap code e)), NoNul-by_test s (ground arith))
