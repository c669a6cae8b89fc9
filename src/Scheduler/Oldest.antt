-- ===== src/Scheduler/Oldest.antt =====
-- A claim of internal/scheduler/scheduler.go locks the rows first that have been due the longest.
use shopify_gmc.Base.{
  ℕ, zero, suc, ◌≤◌, ◌≡◌, refl, ap, ◌∙◌, true, false, [], ◌∷◌, nat_eq, length, take, All, arith,
  Bool-cases, inl, inr, min,
}
use shopify_gmc.Scheduler.{
  StoreRow, Stores, is_due, precedes, insert_due, sort_due, due_rows, locked,
}
use shopify_gmc.Scheduler.Order.{IsSorted, sort_due-IsSorted, sort_due-All}

abbrev Enabled : ℕ × StoreRow → Type 0
Enabled e = e.1.monitor_enabled ≡ true

due_rows-Enabled : (now : ℕ) (es : Stores) → All Enabled (due_rows now es)
due_rows-Enabled now [] = tt
due_rows-Enabled now (e ∷ es) = elim (Bool-cases e.1.monitor_enabled) [
  | inl on ↦ ground (arith, due_rows-Enabled now es)
  | inr off ↦ ground (arith, due_rows-Enabled now es)
]

-- Rows that are due at `t`, or later than `t`.
module _ (t : ℕ) where
  due_count-insert_due :
      (e : ℕ × StoreRow) (es : Stores)
      → length (due_rows t (insert_due e es)) ≡ length (due_rows t (e ∷ es))
  unfolding insert_due
  due_count-insert_due e [] = refl
  due_count-insert_due e (f ∷ fs) = ground (arith, due_count-insert_due e fs)

  due_count-sort_due : (es : Stores) → length (due_rows t (sort_due es)) ≡ length (due_rows t es)
  unfolding sort_due
  due_count-sort_due [] = refl
  due_count-sort_due (e ∷ es) =
      ground (arith, due_count-insert_due e (sort_due es), due_count-sort_due es)

  due_count-due_rows :
      (now : ℕ) (es : Stores)
      → t ≤ now
      → length (due_rows t (due_rows now es)) ≡ length (due_rows t es)
  due_count-due_rows now [] le = refl
  due_count-due_rows now (e ∷ es) le = ground (arith, due_count-due_rows now es le)

  -- Nothing that follows a row that is not due is due.
  due_count-later :
      (e : ℕ × StoreRow) (es : Stores)
      → Enabled e
      → is_due t e.1 ≡ false
      → All (λ f. precedes e f ≡ true) es
      → length (due_rows t es) ≡ 0
  due_count-later e [] on h later = refl
  due_count-later e (f ∷ fs) on h later = ground (arith, due_count-later e fs on h)

  due_count-take :
      (n : ℕ) (es : Stores)
      → IsSorted es
      → All Enabled es
      → length (due_rows t (take n es)) ≡ min n (length (due_rows t es))
  due_count-take zero es sorted on = omega arith
  due_count-take (suc n) [] sorted on = omega arith
  due_count-take (suc n) (e ∷ es) sorted on = elim (Bool-cases (is_due t e.1)) [
    | inl due ↦ rw due (omega (arith, due_count-take n es sorted.1 on.1))
    | inr not_due ↦ rw not_due (
        omega
          (arith, due_count-take n es sorted.1 on.1, due_count-later e es on.0 not_due sorted.0))
  ]

  -- The rows that are due longest are locked first.
  pub due_count-locked :
      (now batch : ℕ) (stores : Stores)
      → t ≤ now
      → length (due_rows t (locked now batch stores)) ≡ min batch (length (due_rows t stores))
  unfolding locked
  due_count-locked now batch stores le =
      due_count-take batch (sort_due (due_rows now stores))
        (sort_due-IsSorted (due_rows now stores))
        (sort_due-All Enabled (due_rows now stores) (due_rows-Enabled now stores))
      ∙ ap (min batch) (due_count-sort_due (due_rows now stores) ∙ due_count-due_rows now stores le)
