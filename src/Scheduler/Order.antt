-- ===== src/Scheduler/Order.antt =====
-- The rows that a claim of internal/scheduler/scheduler.go locks: which, and in which order.
use shopify_gmc.Base.{
  ℕ, zero, suc, ◌≡◌, inl, inr, refl, ap, ◌∙◌, true, false, Option, none, some, [], ◌∷◌, ◌==◌,
  nat_eq, ==_iff, ==_comm, length, take, drop, All, arith, Bool-cases, min,
}
use shopify_gmc.Base.Table.{lookup, IsKeyed}
use shopify_gmc.Scheduler.{
  StoreRow, Stores, is_due, not_after, precedes, insert_due, sort_due, due_rows, locked,
}

-- A row of the table that is due.
abbrev pub IsDueRow : ℕ → Stores → ℕ × StoreRow → Type 0
IsDueRow now stores e = (lookup e.0 stores ≡ some e.1) × (is_due now e.1 ≡ true)

-- Each row precedes every later one.
abbrev pub IsSorted : Stores → Type 0
IsSorted [] = Unit
IsSorted (e ∷ es) = All (λ f. precedes e f ≡ true) es × IsSorted es

module _ (P : ℕ × StoreRow → Type 0) where
  insert_due-All : (e : ℕ × StoreRow) (es : Stores) → P e → All P es → All P (insert_due e es)
  unfolding insert_due
  insert_due-All e [] p h = (p, tt)
  insert_due-All e (f ∷ fs) p h = elim (Bool-cases (precedes e f)) [
    | inl first ↦ rw (insert_due, first) (p, h)
    | inr later ↦ rw (insert_due, later) (h.0, insert_due-All e fs p h.1)
  ]

  pub sort_due-All : (es : Stores) → All P es → All P (sort_due es)
  unfolding sort_due
  sort_due-All [] h = tt
  sort_due-All (e ∷ es) h = insert_due-All e (sort_due es) h.0 (sort_due-All es h.1)

  pub take-All : (n : ℕ) (es : Stores) → All P es → All P (take n es)
  take-All zero es h = tt
  take-All (suc n) [] h = tt
  take-All (suc n) (e ∷ es) h = (h.0, take-All n es h.1)

  pub drop-All : (n : ℕ) (es : Stores) → All P es → All P (drop n es)
  drop-All zero es h = h
  drop-All (suc n) [] h = tt
  drop-All (suc n) (e ∷ es) h = drop-All n es h.1

not_after_trans :
    (a b c : Option ℕ) → not_after a b ≡ true → not_after b c ≡ true → not_after a c ≡ true
not_after_trans none b c h k = refl
not_after_trans (some s) none c h k = absurd cc
not_after_trans (some s) (some t) none h k = absurd cc
not_after_trans (some s) (some t) (some u) h k = ground arith

not_after_total : (a b : Option ℕ) → not_after a b ≡ false → not_after b a ≡ true
not_after_total none b h = absurd cc
not_after_total (some s) none h = refl
not_after_total (some s) (some t) h = ground arith

All-precedes :
    (e f : ℕ × StoreRow) (es : Stores)
    → precedes e f ≡ true
    → All (λ g. precedes f g ≡ true) es
    → All (λ g. precedes e g ≡ true) es
All-precedes e f [] h k = tt
All-precedes e f (g ∷ es) h k = (
  not_after_trans e.1.next_audit_at f.1.next_audit_at g.1.next_audit_at h k.0,
  All-precedes e f es h k.1,
)

insert_due-IsSorted : (e : ℕ × StoreRow) (es : Stores) → IsSorted es → IsSorted (insert_due e es)
unfolding insert_due
insert_due-IsSorted e [] h = (tt, tt)
insert_due-IsSorted e (f ∷ fs) h = elim (Bool-cases (precedes e f)) [
  | inl first ↦ rw (insert_due, first) ((first, All-precedes e f fs first h.0), h)
  | inr later ↦
      rw (insert_due, later)
        (
          insert_due-All (λ g. precedes f g ≡ true) e fs
              (not_after_total e.1.next_audit_at f.1.next_audit_at later) h.0,
          insert_due-IsSorted e fs h.1,
        )
]

pub sort_due-IsSorted : (es : Stores) → IsSorted (sort_due es)
unfolding sort_due
sort_due-IsSorted [] = tt
sort_due-IsSorted (e ∷ es) = insert_due-IsSorted e (sort_due es) (sort_due-IsSorted es)

-- The rows that are taken precede those that are left.
take-precedes :
    (n : ℕ) (es : Stores)
    → IsSorted es
    → All (λ e. All (λ f. precedes e f ≡ true) (drop n es)) (take n es)
take-precedes zero es h = tt
take-precedes (suc n) [] h = tt
take-precedes (suc n) (e ∷ es) h =
    (drop-All (λ f. precedes e f ≡ true) n es h.0, take-precedes n es h.1)

-- Identifiers stay unique.
lookup-insert_due :
    (k : ℕ) (e : ℕ × StoreRow) (es : Stores)
    → (e.0 == k) ≡ false
    → lookup k es ≡ none
    → lookup k (insert_due e es) ≡ none
unfolding insert_due lookup
lookup-insert_due k e [] ne h = ground arith
lookup-insert_due k e (f ∷ fs) ne h = ground (arith, lookup-insert_due k e fs ne)

insert_due-IsKeyed :
    (e : ℕ × StoreRow) (es : Stores) → lookup e.0 es ≡ none → IsKeyed es → IsKeyed (insert_due e es)
unfolding insert_due
insert_due-IsKeyed e [] new h = (unfold lookup in refl, tt)
insert_due-IsKeyed e (f ∷ fs) new h = elim (Bool-cases (precedes e f)) [
  | inl first ↦ rw (insert_due, first) (new, h)
  | inr later ↦
      rw (insert_due, later)
        (lookup-insert_due f.0 e fs (different new) h.0, insert_due-IsKeyed e fs (absent new) h.1)
]
  where
    different : lookup e.0 (f ∷ fs) ≡ none → (e.0 == f.0) ≡ false
    different new = unfold lookup in ground (arith, ==_comm e.0 f.0)

    absent : lookup e.0 (f ∷ fs) ≡ none → lookup e.0 fs ≡ none
    absent new = unfold lookup in ground arith

sort_due-absent : (k : ℕ) (es : Stores) → lookup k es ≡ none → lookup k (sort_due es) ≡ none
unfolding sort_due lookup
sort_due-absent k [] h = refl
sort_due-absent k (e ∷ es) h =
    ground (arith, lookup-insert_due k e (sort_due es), sort_due-absent k es)

sort_due-IsKeyed : (es : Stores) → IsKeyed es → IsKeyed (sort_due es)
unfolding sort_due
sort_due-IsKeyed [] h = tt
sort_due-IsKeyed (e ∷ es) h =
    insert_due-IsKeyed e (sort_due es) (sort_due-absent e.0 es h.0) (sort_due-IsKeyed es h.1)

take-absent : (n k : ℕ) (es : Stores) → lookup k es ≡ none → lookup k (take n es) ≡ none
unfolding lookup
take-absent zero k es h = refl
take-absent (suc n) k [] h = refl
take-absent (suc n) k (e ∷ es) h = ground (arith, take-absent n k es)

take-IsKeyed : (n : ℕ) (es : Stores) → IsKeyed es → IsKeyed (take n es)
take-IsKeyed zero es h = tt
take-IsKeyed (suc n) [] h = tt
take-IsKeyed (suc n) (e ∷ es) h = (take-absent n e.0 es h.0, take-IsKeyed n es h.1)

module _ (now : ℕ) where
  due_rows-absent : (k : ℕ) (es : Stores) → lookup k es ≡ none → lookup k (due_rows now es) ≡ none
  unfolding lookup
  due_rows-absent k [] h = refl
  due_rows-absent k (e ∷ es) h = ground (arith, due_rows-absent k es)

  due_rows-IsKeyed : (es : Stores) → IsKeyed es → IsKeyed (due_rows now es)
  due_rows-IsKeyed [] h = tt
  due_rows-IsKeyed (e ∷ es) h = elim (Bool-cases (is_due now e.1)) [
    | inl due ↦ rw due (due_rows-absent e.0 es h.0, due_rows-IsKeyed es h.1)
    | inr not_due ↦ rw not_due (due_rows-IsKeyed es h.1)
  ]

  All-IsDueRow-cons :
      (e : ℕ × StoreRow) (es rows : Stores)
      → lookup e.0 rows ≡ none
      → All (IsDueRow now es) rows
      → All (IsDueRow now (e ∷ es)) rows
  All-IsDueRow-cons e es [] new h = tt
  All-IsDueRow-cons e es (f ∷ rows) new h = ((found, h.0.1), All-IsDueRow-cons e es rows absent h.1)
    where
      absent : lookup e.0 rows ≡ none
      absent = unfold lookup in ground arith

      found : lookup f.0 (e ∷ es) ≡ some f.1
      found = unfold lookup in ground (arith, ==_comm e.0 f.0, h.0.0)

  due_rows-All : (es : Stores) → IsKeyed es → All (IsDueRow now es) (due_rows now es)
  due_rows-All [] h = tt
  due_rows-All (e ∷ es) h = elim (Bool-cases (is_due now e.1)) [
    | inl due ↦ rw due (
      (here_found, due),
      All-IsDueRow-cons e es (due_rows now es) (due_rows-absent e.0 es h.0) (due_rows-All es h.1),
    )
    | inr not_due ↦ rw not_due (
        All-IsDueRow-cons e es (due_rows now es) (due_rows-absent e.0 es h.0) (due_rows-All es h.1))
  ]
    where
      here_found : lookup e.0 (e ∷ es) ≡ some e.1
      here_found = unfold lookup in ground (arith, ==_iff e.0 e.0)

length-insert_due : (e : ℕ × StoreRow) (es : Stores) → length (insert_due e es) ≡ suc (length es)
unfolding insert_due
length-insert_due e [] = refl
length-insert_due e (f ∷ fs) = ground (arith, length-insert_due e fs)

length-sort_due : (es : Stores) → length (sort_due es) ≡ length es
unfolding sort_due
length-sort_due [] = refl
length-sort_due (e ∷ es) = ground (arith, length-insert_due e (sort_due es), length-sort_due es)

length-take : (n : ℕ) (es : Stores) → length (take n es) ≡ min n (length es)
length-take zero es = ground arith
length-take (suc n) [] = ground arith
length-take (suc n) (e ∷ es) = ground (arith, length-take n es)

module _ (now batch : ℕ) (stores : Stores) where
  -- As many rows as are due, and no more than the batch.
  pub length-locked : length (locked now batch stores) ≡ min batch (length (due_rows now stores))
  unfolding locked
  length-locked =
      length-take batch (sort_due (due_rows now stores))
      ∙ ap (min batch) (length-sort_due (due_rows now stores))

  pub locked-IsKeyed : IsKeyed stores → IsKeyed (locked now batch stores)
  unfolding locked
  locked-IsKeyed keyed =
      take-IsKeyed batch (sort_due (due_rows now stores))
        (sort_due-IsKeyed (due_rows now stores) (due_rows-IsKeyed now stores keyed))

  pub locked-All : IsKeyed stores → All (IsDueRow now stores) (locked now batch stores)
  unfolding locked
  locked-All keyed =
      take-All (IsDueRow now stores) batch (sort_due (due_rows now stores))
        (sort_due-All (IsDueRow now stores) (due_rows now stores) (due_rows-All now stores keyed))

  -- A row that is locked precedes each due row that is left.
  pub locked-precedes :
      All
        (λ e. All (λ f. precedes e f ≡ true) (drop batch (sort_due (due_rows now stores))))
        (locked now batch stores)
  unfolding locked
  locked-precedes =
      take-precedes batch (sort_due (due_rows now stores)) (sort_due-IsSorted (due_rows now stores))
