-- ===== src/Jobs/Claim.antt =====
-- Which row `claim` of internal/jobs/jobs.go takes.
use shopify_gmc.Base.{
  suc, ◌⊎◌, String, ℕ, ◌≤◌, ◌≡◌, refl, true, false, Option, none, some, [], ◌∷◌, arith, leb,
  Bool-cases, inl, inr, ==_iff, ==_refl, nat_eq, ◌==◌, if◌then◌else◌,
}
use shopify_gmc.Base.Table.{lookup, modify, lookup-modify, IsKeyed, modify-IsKeyed}
use shopify_gmc.Jobs.{
  running, JobRow, Queue, is_ready, next_ready, earlier, Job, claim, claimed_row, claimed_job,
}

-- The row `r` under `id` is ready and no ready row of the queue is due before it.
pub record IsFirst (now : ℕ) (q : Queue) (id : ℕ) (r : JobRow) : Type 0 where
  pub found : lookup id q ≡ some r
  pub ready : is_ready now r ≡ true
  pub first :
      (k : ℕ) (s : JobRow) → lookup k q ≡ some s → is_ready now s ≡ true → r.run_at ≤ s.run_at

abbrev pub Chosen : ℕ → Queue → Option (ℕ × JobRow) → Type 0
Chosen now q none = (k : ℕ) (s : JobRow) → lookup k q ≡ some s → is_ready now s ≡ false
Chosen now q (some (id, r)) = IsFirst now q id r

lookup-cons :
    (k j : ℕ) (r s : JobRow) (q : Queue)
    → lookup k ((j, r) ∷ q) ≡ some s
    → ((k ≡ j) × (r ≡ s)) ⊎ (lookup k q ≡ some s)
unfolding lookup
lookup-cons k j r s q h = ground (arith, ==_iff j k)

lookup-tail :
    (k j : ℕ) (r s : JobRow) (q : Queue)
    → lookup j q ≡ none
    → lookup k q ≡ some s
    → lookup k ((j, r) ∷ q) ≡ some s
unfolding lookup
lookup-tail k j r s q fresh h = ground (arith, ==_iff j k)

lookup-head : (j : ℕ) (r : JobRow) (q : Queue) → lookup j ((j, r) ∷ q) ≡ some r
unfolding lookup
lookup-head j r q = rw (==_refl j) refl

lookup_empty : (k : ℕ) {s : JobRow} → lookup k [] ≡ some s → ⊥
unfolding lookup
lookup_empty k e = cc

module _ (now j : ℕ) (r : JobRow) (q : Queue) where
  take-IsFirst :
      is_ready now r ≡ true
      → ((k : ℕ) (s : JobRow) → lookup k q ≡ some s → is_ready now s ≡ true → r.run_at ≤ s.run_at)
      → IsFirst now ((j, r) ∷ q) j r
  take-IsFirst ready first = record {
    found = lookup-head j r q;
    ready = ready;
    first = λ k s e h. elim (lookup-cons k j r s q e) [
      | inl (same, eq) ↦ rw eq (omega arith)
      | inr tail ↦ first k s tail h
    ];
  }

  keep-IsFirst :
      {id : ℕ} {t : JobRow}
      → lookup j q ≡ none
      → IsFirst now q id t
      → (is_ready now r ≡ true → t.run_at ≤ r.run_at)
      → IsFirst now ((j, r) ∷ q) id t
  keep-IsFirst {id} {t} fresh c head = record {
    found = lookup-tail id j r t q fresh c.found;
    ready = c.ready;
    first = λ k s e h. elim (lookup-cons k j r s q e) [
      | inl (same, eq) ↦ rw (← eq) (head (rw eq h))
      | inr tail ↦ c.first k s tail h
    ];
  }

  skip-Chosen : is_ready now r ≡ false → Chosen now q none → Chosen now ((j, r) ∷ q) none
  skip-Chosen late c k s e = elim (lookup-cons k j r s q e) [
    | inl (same, eq) ↦ rw (← eq) late
    | inr tail ↦ c k s tail
  ]

  earlier-Chosen :
      lookup j q ≡ none
      → (o : Option (ℕ × JobRow)) → Chosen now q o
      → Chosen now ((j, r) ∷ q) (if is_ready now r then earlier (j, r) o else o)
  earlier-Chosen fresh none c = elim (Bool-cases (is_ready now r)) [
    | inl ready ↦ rw ready (take-IsFirst ready (λ k s e h. absurd (cc (c k s e))))
    | inr late ↦ rw late (skip-Chosen late c)
  ]
  earlier-Chosen fresh (some (id, t)) c = elim (Bool-cases (is_ready now r)) [
    | inr late ↦ rw late (keep-IsFirst fresh c (λ h. absurd (cc)))
    | inl ready ↦ elim (Bool-cases (leb r.run_at t.run_at)) [
      | inl le ↦ rw (ready, le) (take-IsFirst ready (λ k s e h. ground (arith, c.first k s e h)))
      | inr gt ↦ rw (ready, gt) (keep-IsFirst fresh c (λ h. ground arith))
    ]
  ]

pub next_ready-Chosen : (now : ℕ) (q : Queue) → IsKeyed q → Chosen now q (next_ready now q)
unfolding next_ready
next_ready-Chosen now [] h = λ k s e. absurd (lookup_empty k e)
next_ready-Chosen now ((j, r) ∷ q) h =
    earlier-Chosen now j r q h.0 (next_ready now q) (next_ready-Chosen now q h.1)

-- What a claim returns and leaves behind.
abbrev pub ClaimSpec : ℕ → String → Queue → Queue → Option Job → Type 0
ClaimSpec now worker q q' none =
    (q' ≡ q) × ((k : ℕ) (s : JobRow) → lookup k q ≡ some s → is_ready now s ≡ false)
ClaimSpec now worker q q' (some j) =
    (r : JobRow) × IsFirst now q j.id r
    × (j ≡ claimed_job j.id r)
    × ((k : ℕ)
        → lookup k q' ≡ (
            if j.id == k
            then some (record r {
              status = running;
              locked_at = some now;
              locked_by = some worker;
              attempts = suc r.attempts;
            })
            else lookup k q))

module _ (now : ℕ) (worker : String) (q : Queue) where
  claim-none : next_ready now q ≡ none → claim now worker q ≡ (q, none)
  unfolding claim
  claim-none e = rw (e, claim) refl

  claim-some :
      {id : ℕ} {r : JobRow}
      → next_ready now q ≡ some (id, r)
      → claim now worker q ≡ (modify id (claimed_row now worker) q, some (claimed_job id r))
  unfolding claim
  claim-some e = rw (e, claim) refl

claim-Chosen :
    (now : ℕ) (worker : String) (q : Queue) (o : Option (ℕ × JobRow))
    → next_ready now q ≡ o
    → Chosen now q o
    → ClaimSpec now worker q (claim now worker q).0 (claim now worker q).1
claim-Chosen now worker q none e c = rw (claim-none now worker q e) (refl, c)
claim-Chosen now worker q (some (id, r)) e c =
    rw (claim-some now worker q e) (r, c, refl, λ k. claimed_lookup k)
  where
    claimed_lookup :
        (k : ℕ)
        → lookup k (modify id (claimed_row now worker) q)
          ≡ (if id == k then some (claimed_row now worker r) else lookup k q)
    claimed_lookup k =
        ground (arith, lookup-modify id k (claimed_row now worker) q, c.found, ==_iff id k)

-- A claim on a queue with unique identifiers either changes nothing, when no queued job is due, or
-- takes a queued job that is due and than which no other is due earlier, marks it as running for
-- the worker with one attempt more, returns those attempts, and leaves every other row as it was.
pub claim_lem :
    (now : ℕ) (worker : String) (q : Queue)
    → IsKeyed q
    → ClaimSpec now worker q (claim now worker q).0 (claim now worker q).1
claim_lem now worker q h =
    claim-Chosen now worker q (next_ready now q) refl (next_ready-Chosen now q h)

pub claim-IsKeyed :
    (now : ℕ) (worker : String) (q : Queue) → IsKeyed q → IsKeyed (claim now worker q).0
claim-IsKeyed now worker q h = go (next_ready now q) refl
  where
    go : (o : Option (ℕ × JobRow)) → next_ready now q ≡ o → IsKeyed (claim now worker q).0
    go none e = rw (claim-none now worker q e) h
    go (some (id, r)) e =
        rw (claim-some now worker q e) (modify-IsKeyed id (claimed_row now worker) q h)
