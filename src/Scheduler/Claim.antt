-- ===== src/Scheduler/Claim.antt =====
-- What a claim of internal/scheduler/scheduler.go does to the table stores: the rows it locks are
-- advanced, and no other.
use shopify_gmc.Base.{
  ℕ, suc, ◌+◌, ◌≤◌, ◌<◌, ◌≡◌, refl, sym, ap, ◌∙◌, Bool, true, false, none, some, List, [], ◌∷◌,
  ◌==◌, ==_iff, nat_eq, if◌then◌else◌, length, All, arith, min, map, any, Option, Option-cases, leb,
  inl, inr,
}
use mathlib.Core.Option
use shopify_gmc.Base.Table.{lookup, modify, lookup-modify, IsKeyed, modify-IsKeyed}
use shopify_gmc.Scheduler.{
  StoreRow, Stores, ClaimedStore, is_due, due_rows, locked, advance, advance_all, returned,
  claim_due,
}
use shopify_gmc.Scheduler.Order.{IsDueRow, length-locked, locked-IsKeyed, locked-All}
use shopify_gmc.Scheduler.Oldest.{due_count-locked}

-- The stores are monitored at positive intervals.
abbrev pub HasFrequencies : Stores → Type 0
HasFrequencies = All (λ e. 0 < e.1.monitor_frequency)

abbrev listed : ℕ → Stores → Bool
listed k = any (λ e. e.0 == k)

-- The row of each entry is a row of the table.
abbrev AreRows : Stores → Stores → Type 0
AreRows stores = All (λ e. lookup e.0 stores ≡ some e.1)

AreRows-due : (now : ℕ) (stores es : Stores) → All (IsDueRow now stores) es → AreRows stores es
AreRows-due now stores [] h = tt
AreRows-due now stores (e ∷ es) h = (h.0.0, AreRows-due now stores es h.1)

listed-lookup : (k : ℕ) (es : Stores) → lookup k es ≡ none → listed k es ≡ false
unfolding lookup
listed-lookup k [] h = refl
listed-lookup k (e ∷ es) h = ground (arith, listed-lookup k es)

lookup-advance_all :
    (now k : ℕ) (es stores : Stores)
    → IsKeyed es
    → lookup k (advance_all now es stores)
      ≡ (if listed k es then Option.map (advance now) (lookup k stores) else lookup k stores)
unfolding advance_all
lookup-advance_all now k [] stores keyed = refl
lookup-advance_all now k (e ∷ es) stores keyed = ground (
  arith,
  lookup-advance_all now k es (modify e.0 (advance now) stores) keyed.1,
  lookup-modify e.0 k (advance now) stores,
  ==_iff e.0 k,
  listed-lookup e.0 es keyed.0,
)

module _ (now : ℕ) where
  modify-AreRows :
      (k : ℕ) (stores es : Stores)
      → lookup k es ≡ none
      → AreRows stores es
      → AreRows (modify k (advance now) stores) es
  modify-AreRows k stores [] absent h = tt
  modify-AreRows k stores (e ∷ es) absent h = (kept, modify-AreRows k stores es absent_rest h.1)
    where
      absent_rest : lookup k es ≡ none
      absent_rest = unfold lookup in ground arith

      different : (k == e.0) ≡ false
      different = unfold lookup in ground (arith, ==_iff k e.0, ==_iff e.0 k)

      kept : lookup e.0 (modify k (advance now) stores) ≡ some e.1
      kept = ground (arith, lookup-modify k e.0 (advance now) stores, different, h.0)

  modify-HasFrequencies :
      (k : ℕ) (stores : Stores)
      → HasFrequencies stores
      → HasFrequencies (modify k (advance now) stores)
  unfolding modify
  modify-HasFrequencies k [] h = tt
  modify-HasFrequencies k (e ∷ es) h = ground (arith, modify-HasFrequencies k es)

  pub advance_all-IsKeyed :
      (es stores : Stores) → IsKeyed stores → IsKeyed (advance_all now es stores)
  unfolding advance_all
  advance_all-IsKeyed [] stores h = h
  advance_all-IsKeyed (e ∷ es) stores h =
      advance_all-IsKeyed es (modify e.0 (advance now) stores)
        (modify-IsKeyed e.0 (advance now) stores h)

  pub advance_all-HasFrequencies :
      (es stores : Stores) → HasFrequencies stores → HasFrequencies (advance_all now es stores)
  unfolding advance_all
  advance_all-HasFrequencies [] stores h = h
  advance_all-HasFrequencies (e ∷ es) stores h =
      advance_all-HasFrequencies es (modify e.0 (advance now) stores)
        (modify-HasFrequencies e.0 stores h)

  module _ (t : ℕ) (le : t ≤ now) where
    due_count-modify :
        (k : ℕ) (r : StoreRow) (stores : Stores)
        → HasFrequencies stores
        → lookup k stores ≡ some r
        → length (due_rows t (modify k (advance now) stores)) + (if is_due t r then 1 else 0)
          ≡ length (due_rows t stores)
    unfolding modify lookup
    due_count-modify k r [] pos h = absurd cc
    due_count-modify k r (e ∷ es) pos h = ground (arith, due_count-modify k r es pos.1, pos.0, le)

    due_count-advance_all :
        (es stores : Stores)
        → HasFrequencies stores
        → IsKeyed es
        → AreRows stores es
        → length (due_rows t (advance_all now es stores)) + length (due_rows t es)
          ≡ length (due_rows t stores)
    unfolding advance_all
    due_count-advance_all [] stores pos keyed h = omega arith
    due_count-advance_all (e ∷ es) stores pos keyed h = ground (
      arith,
      due_count-modify e.0 e.1 stores pos h.0,
      due_count-advance_all es (modify e.0 (advance now) stores)
          (modify-HasFrequencies e.0 stores pos) keyed.1 (modify-AreRows e.0 stores es keyed.0 h.1),
    )

-- Whether the time of a store has come, where it never had one too.
pub has_come : ℕ → Option ℕ → Bool
has_come now none = true
has_come now (some t) = leb t now

-- The rows of the monitored stores whose time has come.
pub awaiting : ℕ → Stores → List StoreRow
awaiting now [] = []
awaiting now (e ∷ es) =
    let rest = awaiting now es in
    if e.1.monitor_enabled
    then (if has_come now e.1.next_audit_at then e.1 ∷ rest else rest)
    else rest

-- The row of a store after its claim: `now` plus its interval, and claimed now.
abbrev pub moved_on : ℕ → StoreRow → StoreRow
moved_on now r = record {
  tenant_id = r.tenant_id;
  shop_domain = r.shop_domain;
  display_name = r.display_name;
  monitor_enabled = r.monitor_enabled;
  monitor_frequency = r.monitor_frequency;
  next_audit_at = some (now + r.monitor_frequency);
  last_audit_at = some now;
}

length-due_rows : (now : ℕ) (es : Stores) → length (due_rows now es) ≡ length (awaiting now es)
unfolding awaiting has_come
length-due_rows now [] = refl
length-due_rows now (e ∷ es) = elim (Option-cases e.1.next_audit_at) [
  | inl never ↦ ground (arith, length-due_rows now es)
  | inr (t, set) ↦ ground (arith, length-due_rows now es)
]

-- A monitored store of the table whose time has come, as the claim returns it.
pub record IsClaimOf (now : ℕ) (stores : Stores) (c : ClaimedStore) : Type 0 where
  pub row : StoreRow
  pub its_row : lookup c.store_id stores ≡ some row
  pub monitored : row.monitor_enabled ≡ true
  pub came : has_come now row.next_audit_at ≡ true
  pub its_tenant : c.tenant_id ≡ row.tenant_id
  pub its_domain : c.shop_domain ≡ row.shop_domain
  pub its_name : c.display_name ≡ row.display_name
  pub its_next : c.next_run_at ≡ now + row.monitor_frequency

due-monitored : (now : ℕ) (r : StoreRow) → is_due now r ≡ true → r.monitor_enabled ≡ true
due-monitored now r due = ground arith

due-has_come : (now : ℕ) (r : StoreRow) → is_due now r ≡ true → has_come now r.next_audit_at ≡ true
unfolding has_come
due-has_come now r due = elim (Option-cases r.next_audit_at) [
  | inl never ↦ rw never refl
  | inr (t, set) ↦ ground arith
]

abbrev pub claims : ℕ → List ClaimedStore → Bool
claims k = any (λ c. c.store_id == k)

claims-returned : (now k : ℕ) (es : Stores) → claims k (map (returned now) es) ≡ listed k es
claims-returned now k [] = refl
claims-returned now k (e ∷ es) = ground (arith, claims-returned now k es)

length-returned : (now : ℕ) (es : Stores) → length (map (returned now) es) ≡ length es
length-returned now [] = refl
length-returned now (e ∷ es) = ap suc (length-returned now es)

returned-IsClaimOf :
    (now : ℕ) (stores es : Stores)
    → All (IsDueRow now stores) es
    → All (IsClaimOf now stores) (map (returned now) es)
returned-IsClaimOf now stores [] h = tt
returned-IsClaimOf now stores (e ∷ es) h = (
  record {
    row = e.1;
    its_row = h.0.0;
    monitored = due-monitored now e.1 h.0.1;
    came = due-has_come now e.1 h.0.1;
    its_tenant = refl;
    its_domain = refl;
    its_name = refl;
    its_next = refl;
  },
  returned-IsClaimOf now stores es h.1,
)

-- Where identifiers are unique, a claim returns as many stores as are monitored and due, up to the
-- batch; each was, and is returned with its data and `now` plus its interval; and the table afterwards
-- has, under every identifier, the row of before, with its next audit at `now` plus the interval and
-- its last one at `now` exactly when the store was returned.
pub claim_due_lem :
    (now batch k : ℕ) (stores : Stores)
    → IsKeyed stores
    → (length (claim_due now batch stores).1 ≡ min batch (length (awaiting now stores)))
      × All (IsClaimOf now stores) (claim_due now batch stores).1
      × (lookup k (claim_due now batch stores).0 ≡ (
          if claims k (claim_due now batch stores).1
          then Option.map (moved_on now) (lookup k stores)
          else lookup k stores))
unfolding claim_due
claim_due_lem now batch k stores keyed = (
  length-returned now (locked now batch stores)
      ∙ length-locked now batch stores
      ∙ ap (min batch) (length-due_rows now stores),
  returned-IsClaimOf now stores (locked now batch stores) (locked-All now batch stores keyed),
  rw (claims-returned now k (locked now batch stores)) (
      lookup-advance_all now k (locked now batch stores) stores
        (locked-IsKeyed now batch stores keyed)),
)

module _ (now batch : ℕ) (stores : Stores) where
  pub claim_due-IsKeyed : IsKeyed stores → IsKeyed (claim_due now batch stores).0
  unfolding claim_due
  claim_due-IsKeyed = advance_all-IsKeyed now (locked now batch stores) stores

  pub claim_due-HasFrequencies :
      HasFrequencies stores → HasFrequencies (claim_due now batch stores).0
  unfolding claim_due
  claim_due-HasFrequencies = advance_all-HasFrequencies now (locked now batch stores) stores

  -- A claim clears up to a batch of the stores that were due at any earlier time.
  pub due_count-claim_due :
      (t : ℕ)
      → t ≤ now
      → HasFrequencies stores
      → IsKeyed stores
      → length (due_rows t (claim_due now batch stores).0) + min batch (length (due_rows t stores))
        ≡ length (due_rows t stores)
  unfolding claim_due
  due_count-claim_due t le pos keyed = rw (sym (due_count-locked t now batch stores le)) (
      due_count-advance_all now t le (locked now batch stores) stores pos
        (locked-IsKeyed now batch stores keyed)
        (AreRows-due now stores (locked now batch stores) (locked-All now batch stores keyed)))
