-- ===== src/Scheduler/Ticks.antt =====
-- Several runs of the loop of internal/scheduler/scheduler.go: no store that is due waits for ever.
use shopify_gmc.Base.{
  ℕ, ◌*◌, ◌≤◌, ◌≡◌, refl, nat_eq, String, Bool, List, [], ◌∷◌, length, All, arith,
}
use shopify_gmc.Base.Table.{IsKeyed}
use shopify_gmc.Scheduler.{
  ClaimedStore, Payload, State, due_rows, claim_due, enqueue_audit, enqueue_all, run_once,
  run_times,
}
use shopify_gmc.Scheduler.Claim.{
  HasFrequencies, claim_due-IsKeyed, claim_due-HasFrequencies, due_count-claim_due,
}

module _ (url_for : String → String) (render : Payload → String) where
  enqueue_all-stores :
      (now : ℕ) (accepts : ℕ → Bool) (cs : List ClaimedStore) (st : State)
      → (enqueue_all url_for render now accepts cs st).stores ≡ st.stores
  unfolding enqueue_all enqueue_audit
  enqueue_all-stores now accepts [] st = refl
  enqueue_all-stores now accepts (c ∷ cs) st = ground (
    arith,
    enqueue_all-stores now accepts cs (enqueue_audit url_for render now (accepts c.store_id) c st),
  )

  run_once-stores :
      (now batch : ℕ) (accepts : ℕ → Bool) (st : State)
      → (run_once url_for render now batch accepts st).stores ≡ (claim_due now batch st.stores).0
  unfolding run_once
  run_once-stores now batch accepts st =
      enqueue_all-stores now accepts (claim_due now batch st.stores).1
        (record st { stores = (claim_due now batch st.stores).0 })

  length-zero : (t : ℕ) (st : State) → length (due_rows t st.stores) ≤ 0 → due_rows t st.stores ≡ []
  length-zero t st h = ground arith

  -- Where identifiers are unique and all intervals positive, the stores that are due at the time `t`
  -- are all cleared by runs at times from `t` on, once the runs' batches add up to their number;
  -- stores that come to be due meanwhile and transactions that the database refuses do not matter.
  pub run_times-clears :
      (t batch : ℕ) (runs : List (ℕ × (ℕ → Bool))) (st : State)
      → IsKeyed st.stores
      → HasFrequencies st.stores
      → All (λ run. t ≤ run.0) runs
      → length (due_rows t st.stores) ≤ length runs * batch
      → due_rows t (run_times url_for render batch runs st).stores ≡ []
  unfolding run_times
  run_times-clears t batch [] st keyed pos later enough = length-zero t st (omega (arith, enough))
  run_times-clears t batch ((now, accepts) ∷ runs) st keyed pos later enough =
      run_times-clears t batch runs (run_once url_for render now batch accepts st)
        (rw same (claim_due-IsKeyed now batch st.stores keyed))
        (rw same (claim_due-HasFrequencies now batch st.stores pos)) later.1
        (rw same
          (ground (arith, due_count-claim_due now batch st.stores t later.0 pos keyed, enough)))
    where
      same :
          (run_once url_for render now batch accepts st).stores ≡ (claim_due now batch st.stores).0
      same = run_once-stores now batch accepts st
