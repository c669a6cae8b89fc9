-- ===== src/Jobs/System.antt =====
-- Several workers on one queue (internal/jobs/jobs.go): what holds in every state that claims,
-- finished handlers and new jobs can reach, in any order.
use shopify_gmc.Base.{
  ℕ, ◌≤◌, ◌<◌, ◌≡◌, ◌≢◌, refl, sym, ap, ◌∙◌, Bool, true, false, not, Option, none, some, List, [],
  ◌∷◌, arith, String, Bool-cases, inl, inr, ==_iff, ==_refl, nat_eq, string_eq, ◌==◌, if◌then◌else◌,
  All, select,
}
use mathlib.Core.Path.{subst}
use mathlib.Core.List.{Memᴰ}
use shopify_gmc.Base.Table.{
  lookup, modify, lookup-modify, lookup-insert, IsKeyed, insert-IsKeyed, modify-IsKeyed,
}
use shopify_gmc.Jobs.{
  Job, JobRow, Queue, queued, running, Outcome, claim, handle, enqueue, new_row, is_ready,
  claimed_row,
}
use shopify_gmc.Jobs.Claim.{ClaimSpec, claim_lem, claim-IsKeyed}
use shopify_gmc.Jobs.Handle.{settled, handle-settled}

-- A job that a goroutine of a worker is running.
pub record Held : Type 0 where
  pub worker : String
  pub job : Job

pub record Pool : Type 0 where
  pub queue : Queue
  pub held : List Held

abbrev pub hold : String → Option Job → List Held → List Held
hold worker none hs = hs
hold worker (some j) hs = record { worker = worker; job = j } ∷ hs

abbrev pub drop_held : ℕ → List Held → List Held
drop_held id = select (λ h. not (h.job.id == id))

abbrev pub after_claim : ℕ → String → Pool → Pool
after_claim now worker p = record {
  queue = (claim now worker p.queue).0;
  held = hold worker (claim now worker p.queue).1 p.held;
}

-- A handler has returned. Where the database refuses the update of `mark…`, the error is logged and
-- the row stays as it is.
abbrev pub after_handle : ℕ → List String → Job → Outcome → Bool → Pool → Pool
after_handle now kinds j outcome stored p = record {
  queue = if stored then handle now kinds j outcome p.queue else p.queue;
  held = drop_held j.id p.held;
}

pub data Step : Pool → Pool → Type 0 where
  claims : (now : ℕ) (worker : String) (p : Pool) → Step p (after_claim now worker p)
  finishes :
      (now : ℕ) (kinds : List String) (h : Held) (outcome : Outcome) (stored : Bool) (p : Pool)
      → Memᴰ h p.held
      → Step p (after_handle now kinds h.job outcome stored p)
  enqueues :
      (id : ℕ) (tenant : Option ℕ) (kind payload : String) (run_at : ℕ) (p : Pool)
      → lookup id p.queue ≡ none
      → Step p (record p { queue = enqueue id tenant kind payload run_at p.queue })

pub data Reach (p : Pool) : Pool → Type 0 where
  here : Reach p p
  next : {q r : Pool} → Reach p q → Step q r → Reach p r

-- A held job is that of a row that is running, locked by the worker that holds it.
abbrev pub Owns : Queue → Held → Type 0
Owns q h =
    (r : JobRow) × (lookup h.job.id q ≡ some r)
    × (r.status ≡ running)
    × (r.locked_by ≡ some h.worker)
    × (r.attempts ≡ h.job.attempts)
    × (r.max_attempts ≡ h.job.max_attempts)

abbrev pub Distinct : List Held → Type 0
Distinct [] = Unit
Distinct (h ∷ hs) = All (λ k. k.job.id ≢ h.job.id) hs × Distinct hs

abbrev pub WithinAttempts : JobRow → Type 0
WithinAttempts r = (r.attempts ≤ r.max_attempts) × (r.status ≡ queued → r.attempts < r.max_attempts)

pub record IsSound (p : Pool) : Type 0 where
  pub keyed : IsKeyed p.queue
  pub owned : All (Owns p.queue) p.held
  pub distinct : Distinct p.held
  pub within : (k : ℕ) (r : JobRow) → lookup k p.queue ≡ some r → WithinAttempts r

All-Mem {ℓ κ} : {A : Type ℓ} (P : A → Type κ) (a : A) (xs : List A) → All P xs → Memᴰ a xs → P a
All-Mem P a [] h m = elim m [ ]
All-Mem P a (x ∷ xs) h (Memᴰ.head e) = rw e h.0
All-Mem P a (x ∷ xs) h (Memᴰ.tail m) = All-Mem P a xs h.1 m

All-select {ℓ κ} :
    {A : Type ℓ} (P : A → Type κ) (p : A → Bool) (xs : List A) → All P xs → All P (select p xs)
All-select P p [] h = tt
All-select P p (x ∷ xs) h = elim (Bool-cases (p x)) [
  | inl kept ↦ rw kept (h.0, All-select P p xs h.1)
  | inr lost ↦ rw lost (All-select P p xs h.1)
]

drop_held-ne : (id : ℕ) (hs : List Held) → All (λ k. k.job.id ≢ id) (drop_held id hs)
drop_held-ne id [] = tt
drop_held-ne id (h ∷ hs) = elim (Bool-cases (h.job.id == id)) [
  | inl same ↦ rw same (drop_held-ne id hs)
  | inr other ↦ rw other ((λ e. cc ((==_iff h.job.id id).1 e)), drop_held-ne id hs)
]

drop_held-Distinct : (id : ℕ) (hs : List Held) → Distinct hs → Distinct (drop_held id hs)
drop_held-Distinct id [] d = tt
drop_held-Distinct id (h ∷ hs) d = elim (Bool-cases (h.job.id == id)) [
  | inl same ↦ rw same (drop_held-Distinct id hs d.1)
  | inr other ↦ rw other (
    All-select (λ k. k.job.id ≢ h.job.id) (λ k. not (k.job.id == id)) hs d.0,
    drop_held-Distinct id hs d.1,
  )
]

-- A change of the row `id` concerns no holder of another row.
keep-owned :
    (q q' : Queue) (id : ℕ) (hs : List Held)
    → ((k : ℕ) → k ≢ id → lookup k q' ≡ lookup k q)
    → All (λ k. k.job.id ≢ id) hs
    → All (Owns q) hs
    → All (Owns q') hs
keep-owned q q' id [] agree ne o = tt
keep-owned q q' id (h ∷ hs) agree ne o = (
  (o.0.0, agree h.job.id ne.0 ∙ o.0.1, o.0.2, o.0.3, o.0.4, o.0.5),
  keep-owned q q' id hs agree ne.1 o.1,
)

owned-ne :
    (q : Queue) (id : ℕ) (r : JobRow) (hs : List Held)
    → lookup id q ≡ some r
    → r.status ≡ queued
    → All (Owns q) hs
    → All (λ k. k.job.id ≢ id) hs
owned-ne q id r [] e s o = tt
owned-ne q id r (h ∷ hs) e s o =
    (λ same. ground (arith, same, o.0.1, o.0.2), owned-ne q id r hs e s o.1)

ready-queued : (now : ℕ) (r : JobRow) → is_ready now r ≡ true → r.status ≡ queued
ready-queued now r h = ground arith

claim_keeps :
    (now : ℕ) (worker : String) (p : Pool) (q' : Queue) (o : Option Job)
    → ClaimSpec now worker p.queue q' o
    → IsKeyed q'
    → IsSound p
    → IsSound (record { queue = q'; held = hold worker o p.held })
claim_keeps now worker p q' none c keyed s = record {
  keyed = keyed;
  owned = rw c.0 s.owned;
  distinct = s.distinct;
  within = rw c.0 s.within;
}
claim_keeps now worker p q' (some j) (r, first, same, look) keyed s = record {
  keyed = keyed;
  owned = (
    (
      claimed_row now worker r,
      rw (look j.id, ==_refl j.id) refl,
      refl,
      refl,
      sym (ap (λ (x : Job). x.attempts) same),
      sym (ap (λ (x : Job). x.max_attempts) same),
    ),
    keep-owned p.queue q' j.id p.held (λ k n. ground (arith, look k, ==_iff j.id k))
        (owned-ne p.queue j.id r p.held first.found (ready-queued now r first.ready) s.owned)
        s.owned,
  );
  distinct = (
    owned-ne p.queue j.id r p.held first.found (ready-queued now r first.ready) s.owned,
    s.distinct,
  );
  within = λ k t e. elim (Bool-cases (j.id == k)) [
    | inl same_id ↦
        let was = s.within j.id r first.found in
        let left = was.1 (ready-queued now r first.ready) in
        rw (← claimed_is k t same_id e) (left, λ q. cc)
    | inr other ↦ s.within k t (rw (look k, other) at e)
  ];
}
  where
    claimed_is :
        (k : ℕ) (t : JobRow)
        → (j.id == k) ≡ true
        → lookup k q' ≡ some t
        → claimed_row now worker r ≡ t
    claimed_is k t same_id e = cc (rw (look k, same_id) at e)

settled_row_is :
    (now : ℕ) (kinds : List String) (j : Job) (outcome : Outcome) (q : Queue) (r : JobRow)
    → lookup j.id q ≡ some r
    → (k : ℕ) → (j.id == k) ≡ true
    → lookup k (modify j.id (settled now kinds j outcome) q) ≡ some (settled now kinds j outcome r)
settled_row_is now kinds j outcome q r found k same =
    let found_k = subst (λ i. lookup i q ≡ some r) ((==_iff j.id k).0 same) found in
    rw (lookup-modify j.id k (settled now kinds j outcome) q, same, found_k) refl

settled-within :
    (now : ℕ) (kinds : List String) (j : Job) (outcome : Outcome) (q : Queue) (r : JobRow) (k : ℕ)
    (t : JobRow)
    → lookup j.id q ≡ some r
    → r.attempts ≡ j.attempts
    → r.max_attempts ≡ j.max_attempts
    → ((i : ℕ) (u : JobRow) → lookup i q ≡ some u → WithinAttempts u)
    → lookup k (modify j.id (settled now kinds j outcome) q) ≡ some t
    → WithinAttempts t
settled-within now kinds j outcome q r k t found a b w e = elim (Bool-cases (j.id == k)) [
  | inl same_id ↦
      let was = w j.id r found in
      let now_is : settled now kinds j outcome r ≡ t =
        cc (settled_row_is now kinds j outcome q r found k same_id, e) in
      rw (← now_is) (ground (arith, was), ground (arith, was))
  | inr other ↦ w k t (rw (lookup-modify j.id k (settled now kinds j outcome) q, other) at e)
]

handle_keeps :
    (now : ℕ) (kinds : List String) (h : Held) (outcome : Outcome) (stored : Bool) (p : Pool)
    → Memᴰ h p.held
    → IsSound p
    → IsSound (after_handle now kinds h.job outcome stored p)
handle_keeps now kinds h outcome false p m s = record {
  keyed = s.keyed;
  owned = All-select (Owns p.queue) (λ k. not (k.job.id == h.job.id)) p.held s.owned;
  distinct = drop_held-Distinct h.job.id p.held s.distinct;
  within = s.within;
}
handle_keeps now kinds h outcome true p m s =
    rw (handle-settled now kinds h.job p.queue outcome) (record {
      keyed = modify-IsKeyed h.job.id (settled now kinds h.job outcome) p.queue s.keyed;
      owned =
          keep-owned p.queue _ h.job.id (drop_held h.job.id p.held)
            (λ k n. ground (
              arith,
              lookup-modify h.job.id k (settled now kinds h.job outcome) p.queue,
              ==_iff h.job.id k,
            ))
            (drop_held-ne h.job.id p.held)
            (All-select (Owns p.queue) (λ k. not (k.job.id == h.job.id)) p.held s.owned);
      distinct = drop_held-Distinct h.job.id p.held s.distinct;
      within = λ k t e.
          let o = All-Mem (Owns p.queue) h p.held s.owned m in
          settled-within now kinds h.job outcome p.queue o.0 k t o.1 o.4 o.5 s.within e;
    })

abbrev row_of : Option ℕ → String → String → ℕ → JobRow
row_of tenant kind payload run_at =
    new_row tenant kind (if payload == "" then "{}" else payload) run_at

fresh-ne :
    (q : Queue) (id : ℕ) (hs : List Held)
    → lookup id q ≡ none
    → All (Owns q) hs
    → All (λ k. k.job.id ≢ id) hs
fresh-ne q id [] e o = tt
fresh-ne q id (h ∷ hs) e o = (λ same. ground (arith, same, o.0.1), fresh-ne q id hs e o.1)

enqueue_keeps :
    (id : ℕ) (tenant : Option ℕ) (kind payload : String) (run_at : ℕ) (p : Pool)
    → lookup id p.queue ≡ none
    → IsSound p
    → IsSound (record p { queue = enqueue id tenant kind payload run_at p.queue })
unfolding enqueue
enqueue_keeps id tenant kind payload run_at p fresh s = record {
  keyed = insert-IsKeyed id _ p.queue s.keyed;
  owned =
      keep-owned p.queue _ id p.held
        (λ k n.
          ground
            (arith, lookup-insert id k (row_of tenant kind payload run_at) p.queue, ==_iff id k))
        (fresh-ne p.queue id p.held fresh s.owned) s.owned;
  distinct = s.distinct;
  within = λ k t e. elim (Bool-cases (id == k)) [
    | inl same_id ↦
        new_within k t
          (rw (lookup-insert id k (row_of tenant kind payload run_at) p.queue, same_id) at e)
    | inr other ↦
        s.within k t
          (rw (lookup-insert id k (row_of tenant kind payload run_at) p.queue, other) at e)
  ];
}
  where
    new_within :
        (k : ℕ) (t : JobRow) → some (row_of tenant kind payload run_at) ≡ some t → WithinAttempts t
    new_within k t e = ground arith

Step-IsSound : {p q : Pool} → Step p q → IsSound p → IsSound q
Step-IsSound (claims now worker p) s =
    claim_keeps now worker p (claim now worker p.queue).0 (claim now worker p.queue).1
      (claim_lem now worker p.queue s.keyed) (claim-IsKeyed now worker p.queue s.keyed) s
Step-IsSound (finishes now kinds h outcome stored p m) s =
    handle_keeps now kinds h outcome stored p m s
Step-IsSound (enqueues id tenant kind payload run_at p fresh) s =
    enqueue_keeps id tenant kind payload run_at p fresh s

abbrev pub idle : Pool
idle = record { queue = []; held = [] }

idle-IsSound : IsSound idle
unfolding lookup
idle-IsSound = record { keyed = tt; owned = tt; distinct = tt; within = λ k r e. cc }

-- In every state that claims of any workers, handlers that return (also where the database then
-- refuses the update) and new jobs reach from an empty queue, in any order: no job is held twice,
-- each held job is a running row that is locked by the worker that holds it and has the attempts
-- that the worker was told, and no row has more attempts than its maximum, a queued one fewer.
pub Reach-IsSound : {p : Pool} → Reach idle p → IsSound p
Reach-IsSound here = idle-IsSound
Reach-IsSound (next r st) = Step-IsSound st (Reach-IsSound r)
