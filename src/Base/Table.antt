-- ===== src/Base/Table.antt =====
-- A table keyed by any type with equality: an association list with the operations of a Go map or
-- of a database table with a primary key. The first entry of a key counts.
use mathlib.Core.Path.{◌≡◌, refl, ◌∙◌}
use mathlib.Core.Logic.{inl, inr}
use mathlib.Core.Option.{Option, none, some}
use mathlib.Core.Option
use mathlib.Core.List.{List, [], ◌∷◌}
use native.Mathlib.Omega.{arith}
use shopify_gmc.Base.Tests.{Eq, ◌==◌, ==_comm, Bool-cases, if◌then◌else◌}

abbrev pub Table {ℓ κ} : Type ℓ → Type κ → Type (ℓ ⊔ κ)
Table K V = List (K × V)

module _ {ℓ κ} {K : Type ℓ} {V : Type κ} ⦃e : Eq K⦄ where
  unfoldable pub lookup : K → Table K V → Option V
  lookup k [] = none
  lookup k ((j, v) ∷ m) = if j == k then some v else lookup k m

  -- Replaces the entry of `k`, or adds one at the end.
  unfoldable pub insert : K → V → Table K V → Table K V
  insert k v [] = (k, v) ∷ []
  insert k v ((i, old) ∷ rest) = if i == k then (k, v) ∷ rest else (i, old) ∷ insert k v rest

  unfoldable pub remove : K → Table K V → Table K V
  remove k [] = []
  remove k ((j, w) ∷ m) = let rest = remove k m in if j == k then rest else (j, w) ∷ rest

  -- Changes the value of `k` where there is one: `UPDATE … WHERE id = k`.
  unfoldable pub modify : K → (V → V) → Table K V → Table K V
  modify k f [] = []
  modify k f ((j, w) ∷ m) = if j == k then (j, f w) ∷ m else (j, w) ∷ modify k f m

  pub lookup-insert :
      (k at_key : K) (new : V) (m : Table K V)
      → lookup at_key (insert k new m) ≡ (if k == at_key then some new else lookup at_key m)
  unfolding lookup insert
  lookup-insert k at_key new [] = refl
  lookup-insert k at_key new ((i, old) ∷ rest) = ground (
    arith,
    lookup-insert k at_key new rest,
    e.same_iff k at_key,
    e.same_iff i k,
    e.same_iff i at_key,
  )

  pub lookup-remove :
      (k j : K) (m : Table K V) → lookup j (remove k m) ≡ (if k == j then none else lookup j m)
  unfolding lookup remove
  lookup-remove k j [] = ground arith
  lookup-remove k j ((i, w) ∷ m) =
      ground (arith, e.same_iff k j, e.same_iff i k, e.same_iff i j, lookup-remove k j m)

  pub lookup-modify :
      (k j : K) (f : V → V) (m : Table K V)
      → lookup j (modify k f m) ≡ (if k == j then Option.map f (lookup j m) else lookup j m)
  unfolding lookup modify
  lookup-modify k j f [] = ground arith
  lookup-modify k j f ((i, w) ∷ m) =
      ground (arith, e.same_iff k j, e.same_iff i k, e.same_iff i j, lookup-modify k j f m)

-- No key stands twice, as under a primary key.
module _ {ℓ κ} {K : Type ℓ} {V : Type κ} ⦃e : Eq K⦄ where
  abbrev pub IsKeyed : Table K V → Type κ
  IsKeyed [] = Unit
  IsKeyed ((k, v) ∷ m) = (lookup k m ≡ none) × IsKeyed m

  pub insert-IsKeyed : (k : K) (v : V) (m : Table K V) → IsKeyed m → IsKeyed (insert k v m)
  unfolding lookup insert
  insert-IsKeyed k v [] h = (refl, tt)
  insert-IsKeyed k v ((j, w) ∷ m) h = elim (Bool-cases (j == k)) [
    | inl same ↦ rw (same, insert) (rw (← (e.same_iff j k).0 same) h.0, h.1)
    | inr other ↦
        rw (other, insert)
          (lookup-insert k j v m ∙ rw (==_comm k j, other) h.0, insert-IsKeyed k v m h.1)
  ]

  pub modify-IsKeyed : (k : K) (f : V → V) (m : Table K V) → IsKeyed m → IsKeyed (modify k f m)
  unfolding modify
  modify-IsKeyed k f [] h = tt
  modify-IsKeyed k f ((j, w) ∷ m) h = elim (Bool-cases (j == k)) [
    | inl same ↦ rw (same, modify) h
    | inr other ↦
        rw (other, modify)
          (lookup-modify k j f m ∙ rw (==_comm k j, other) h.0, modify-IsKeyed k f m h.1)
  ]
