-- ===== src/Audit/Budget.antt =====
-- How many calls of the AI `runEnrich` of internal/audit/pipeline.go makes.
use shopify_gmc.Base.{
  ℕ, zero, suc, ◌+◌, ◌-◌, ◌*◌, ◌≤◌, ◌<◌, ◌≡◌, ◌⊎◌, inl, inr, refl, ap, ◌∙◌, String, none, some,
  List, [], ◌∷◌, length, take, drop, arith, Option-cases,
}
use shopify_gmc.Audit.Enrich.{
  AiBudget, spend, FixRequest, AiClient, Enriching, take_fallbacks, take_response, take_responses,
  run_batch, batches,
}

take_fallbacks-counters :
    (batch : List FixRequest) (s : Enriching)
    → ((take_fallbacks batch s).budget ≡ s.budget) × ((take_fallbacks batch s).calls ≡ s.calls)
unfolding take_fallbacks
take_fallbacks-counters [] s = (refl, refl)
take_fallbacks-counters (req ∷ batch) s = take_fallbacks-counters batch _

take_response-counters :
    (req : FixRequest) (r : String) (s : Enriching)
    → ((take_response req r s).budget ≡ s.budget) × ((take_response req r s).calls ≡ s.calls)
unfolding take_response
take_response-counters req r s = ground arith

take_responses-counters :
    (rs : List String) (batch : List FixRequest) (s : Enriching)
    → ((take_responses rs batch s).budget ≡ s.budget)
      × ((take_responses rs batch s).calls ≡ s.calls)
unfolding take_responses
take_responses-counters [] batch s = (refl, refl)
take_responses-counters (r ∷ rs) [] s = (refl, refl)
take_responses-counters (r ∷ rs) (req ∷ batch) s =
    let rest = take_responses-counters rs batch (take_response req r s) in
    let one = take_response-counters req r s in (rest.0 ∙ one.0, rest.1 ∙ one.1)

run_batch-counters :
    (ai : AiClient) (batch : List FixRequest) (s : Enriching)
    → ((run_batch ai batch s).budget ≡ record s.budget { made = suc s.budget.made })
      × ((run_batch ai batch s).calls ≡ suc s.calls)
unfolding run_batch
run_batch-counters ai batch s = elim (Option-cases (ai.fix_batch s.budget.made batch)) [
  | inl failed ↦ rw (run_batch, failed) (take_fallbacks-counters batch _)
  | inr (rs, answered) ↦ rw (run_batch, answered) (take_responses-counters rs batch _)
]

length-drop : {A : Type 0} (n : ℕ) (xs : List A) → length (drop n xs) ≡ length xs - n
length-drop zero xs = omega arith
length-drop (suc n) [] = omega arith
length-drop (suc n) (x ∷ xs) = omega (arith, length-drop n xs)

-- The calls between two states.
abbrev pub calls_between : Enriching → Enriching → ℕ
calls_between s r = r.calls - s.calls

pub record IsSpent (size : ℕ) (todo : ℕ) (s r : Enriching) : Type 0 where
  pub grows : s.calls ≤ r.calls
  pub its_limit : r.budget.limit ≡ s.budget.limit
  pub spent : r.budget.used ≡ s.budget.used + (r.calls - s.calls)
  pub sent : r.budget.made ≡ s.budget.made + (r.calls - s.calls)
  pub within : s.budget.used ≤ s.budget.limit → r.budget.used ≤ r.budget.limit
  pub served : (r.budget.limit ≤ r.budget.used) ⊎ (todo ≤ (r.calls - s.calls) * size)

unspent : (size : ℕ) (s : Enriching) → IsSpent size 0 s s
unspent size s = record {
  grows = omega arith;
  its_limit = refl;
  spent = omega arith;
  sent = omega arith;
  within = λ h. h;
  served = inr (omega arith);
}

exhausted : (size todo : ℕ) (s : Enriching) → s.budget.limit ≤ s.budget.used → IsSpent size todo s s
exhausted size todo s h = record {
  grows = omega arith;
  its_limit = refl;
  spent = omega arith;
  sent = omega arith;
  within = λ h. h;
  served = inl h;
}

more_served : (size n todo : ℕ) → todo - size ≤ n * size → todo ≤ suc n * size
more_served size n todo h = omega (arith, suc_times)
  where
    suc_times : suc n * size ≡ size + n * size
    suc_times = omega arith

-- One call more, before the rest.
after_call :
    (size todo : ℕ) (s t r : Enriching)
    → s.budget.used < s.budget.limit
    → t.budget ≡ record s.budget { used = suc s.budget.used; made = suc s.budget.made }
    → t.calls ≡ suc s.calls
    → IsSpent size (todo - size) t r
    → IsSpent size todo s r
after_call size todo s t r room b c rest =
    let used : t.budget.used ≡ suc s.budget.used = ap (λ (b : AiBudget). b.used) b in
    let made : t.budget.made ≡ suc s.budget.made = ap (λ (b : AiBudget). b.made) b in
    let limit : t.budget.limit ≡ s.budget.limit = ap (λ (b : AiBudget). b.limit) b in
    record {
      grows = omega (arith, rest.grows, c);
      its_limit = rest.its_limit ∙ limit;
      spent = omega (arith, rest.grows, rest.spent, c, used);
      sent = omega (arith, rest.grows, rest.sent, c, made);
      within = λ h. rest.within (omega (arith, used, limit, room));
      served = elim rest.served [
        | inl full ↦ inl full
        | inr done ↦ inr (rw (one_more) (more_served size (r.calls - t.calls) todo done))
      ];
    }
  where
    one_more : r.calls - s.calls ≡ suc (r.calls - t.calls)
    one_more = omega (arith, rest.grows, c)

spend-cases :
    (b : AiBudget)
    → ((spend b ≡ none) × (b.limit ≤ b.used))
      ⊎ ((spend b ≡ some (record b { used = suc b.used })) × (b.used < b.limit))
unfolding spend
spend-cases b = ground arith

module _ (ai : AiClient) (size : ℕ) where
  pub batches-IsSpent :
      (fuel : ℕ) (todo : List FixRequest) (s : Enriching)
      → length todo ≤ fuel
      → IsSpent (suc size) (length todo) s (batches ai (suc size) fuel todo s)
  unfolding batches
  batches-IsSpent zero [] s h = unspent (suc size) s
  batches-IsSpent zero (x ∷ xs) s h = absurd (omega (arith, h))
  batches-IsSpent (suc fuel) [] s h = unspent (suc size) s
  batches-IsSpent (suc fuel) (req ∷ todo) s h = elim (spend-cases s.budget) [
    | inl (empty, full) ↦ rw (batches, empty) (exhausted (suc size) (length (req ∷ todo)) s full)
    | inr (left, room) ↦
        let t =
          run_batch ai (take (suc size) (req ∷ todo))
            (record s { budget = record s.budget { used = suc s.budget.used } }) in
        let counters =
          run_batch-counters ai (take (suc size) (req ∷ todo))
            (record s { budget = record s.budget { used = suc s.budget.used } }) in
        let fewer = length-drop (suc size) (req ∷ todo) in
        let rest =
          batches-IsSpent fuel (drop (suc size) (req ∷ todo)) t (omega (arith, fewer, h)) in
        rw (batches, left)
          (after_call (suc size) (length (req ∷ todo)) s t _ room counters.0 counters.1
            (rw fewer at rest))
  ]
