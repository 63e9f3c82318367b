-- ===== src/Workers/Runtime/Retries.antt =====
-- Transient retries are bounded: every execution uses up credit that nothing gives back.
use velox_server.Prelude.{
  ℕ, zero, suc, ◌+◌, ◌*◌, ◌≤◌, ◌<◌, false, Option, none, some, List, [], ◌∷◌, ◌≡◌, refl, ◌⊎◌, inl,
  inr, arith, Bool-cases, ap, length, ◌==◌, nat_eq, ◌∙◌,
}
use velox_server.Prelude.Result.{ok}
use velox_server.Actions.{Action}
use velox_server.Lifecycle.{ActionLifecycleState, new_state}
use velox_server.ControlPlane.{ControlPlane, get_state, enqueue}
use velox_server.ControlPlane.Queue
use velox_server.Workers.Runtime.{
  RuntimeConfig, Reading, WorkerState, WorkerProcessingResult, process_next, is_held, retry_count,
}
use velox_server.Workers.Invocation.{WorkerInvocationResult, run_rounds, count_processed, invoke}
use velox_server.Workers.Runtime.Gate.{cleared}
use velox_server.Workers.Runtime.Safety.{claim, Executed, Waited, process_next_cases}
use velox_server.Workers.Runtime.Credit.{
  credit, total_credit, total_credit-append, total_credit_mono, total_credit-le, final_plane-spends,
}

module _ (config : RuntimeConfig) where
  cleared-credit-le :
      (reading : Reading) (o : Option ActionLifecycleState)
      → credit config (some (cleared o reading.now)) ≤ credit config o
  unfolding retry_count new_state
  cleared-credit-le reading none = omega arith
  cleared-credit-le reading (some state) = ground arith

  abbrev state_credit : WorkerState → ℕ
  state_credit s = total_credit config s.plane s.queue

  -- Taking an action off the queue takes its credit, and putting it back gives it back.
  claim-credit :
      (action : Action) (q : List Action) (s : WorkerState)
      → s.queue ≡ action ∷ q
      → credit config (get_state (claim s q).plane action.id) + state_credit (claim s q)
        ≤ state_credit s
  unfolding total_credit get_state
  claim-credit action q s e = omega (
    arith,
    ap (total_credit config s.plane) e,
    total_credit_mono config s.plane (claim s q).plane q (λ i. omega arith),
  )

  enqueue-credit :
      (action : Action) (s : WorkerState)
      → state_credit (record s { plane = enqueue s.plane action })
        ≤ credit config (get_state s.plane action.id) + state_credit s
  unfolding total_credit get_state enqueue Queue.enqueue
  enqueue-credit action s = omega (
    arith,
    total_credit-append config (enqueue s.plane action) s.queue (action ∷ []),
    total_credit_mono config s.plane (enqueue s.plane action) s.queue (λ i. omega arith),
  )

  count_processed-cons :
      (r : WorkerProcessingResult) (rs : List WorkerProcessingResult)
      → count_processed (r ∷ rs) ≡ count_processed (r ∷ []) + count_processed rs
  unfolding count_processed
  count_processed-cons r rs = ground arith

  count_one : (r : WorkerProcessingResult) → count_processed (r ∷ []) ≤ 1
  unfolding count_processed
  count_one r = ground arith

  count_idle : (r : WorkerProcessingResult) → r.processed ≡ false → count_processed (r ∷ []) ≡ 0
  unfolding count_processed
  count_idle r idle = rw idle refl

  Executed-credit :
      (reading : Reading) (action : Action) (q : List Action) (s s' : WorkerState)
      (r : WorkerProcessingResult)
      → s.queue ≡ action ∷ q
      → Executed config reading action (claim s q) s' r
      → state_credit s' + 1 ≤ state_credit s
  Executed-credit reading action q s s' r e x =
      let c = (claim s q).plane in
      let state = cleared (get_state c action.id) reading.now in
      omega (
        arith,
        ap (λ (c' : ControlPlane). total_credit config c' c'.queue) x.plane_after,
        final_plane-spends config reading action state c
            (cleared-credit-le reading (get_state c action.id)),
        claim-credit action q s e,
      )

  Waited-credit :
      (action : Action) (q : List Action) (s s' : WorkerState) (r : WorkerProcessingResult)
      → s.queue ≡ action ∷ q
      → Waited action (claim s q) s' r
      → state_credit s' ≤ state_credit s
  Waited-credit action q s s' r e w =
      elim (Bool-cases (is_held (get_state (claim s q).plane action.id))) [
        | inl held ↦
            let back : s' ≡ record (claim s q) { plane = enqueue (claim s q).plane action } =
              w.after ∙ rw held refl in
            omega (
              arith,
              ap (λ (x : WorkerState). state_credit x) back,
              enqueue-credit action (claim s q),
              claim-credit action q s e,
            )
        | inr dropped ↦
            let gone : s' ≡ claim s q = w.after ∙ rw dropped refl in
            omega (arith, ap (λ (x : WorkerState). state_credit x) gone, claim-credit action q s e)
      ]

  round_paid :
      (reading : Reading) (s s' : WorkerState) (r : WorkerProcessingResult)
      → (s.queue ≡ []) × (r.processed ≡ false) × (s' ≡ s)
        ⊎ ((action : Action) × (q : List Action) × (s.queue ≡ action ∷ q)
            × (Executed config reading action (claim s q) s' r ⊎ Waited action (claim s q) s' r))
      → state_credit s' + count_processed (r ∷ []) ≤ state_credit s
  round_paid reading s s' r (inl (empty, idle, same)) =
      omega (arith, ap (λ (w : WorkerState). state_credit w) same, count_idle r idle)
  round_paid reading s s' r (inr (action, q, e, inl x)) =
      omega (arith, Executed-credit reading action q s s' r e x, count_one r)
  round_paid reading s s' r (inr (action, q, e, inr w)) =
      omega (arith, Waited-credit action q s s' r e w, count_idle r w.not_processed)

  -- A round that executes an action uses up credit, and no round gives any back.
  round-credit :
      (reading : Reading) (s : WorkerState)
      → (r : WorkerProcessingResult) × (s' : WorkerState) × (process_next config reading s
          ≡ (ok r, s'))
        × (state_credit s' + count_processed (r ∷ []) ≤ state_credit s)
  round-credit reading s =
      let (r, s', run, cases) = process_next_cases config reading s in
      (r, s', run, round_paid reading s s' r cases)

  -- The executions of a batch are paid for by the credit config of the queue.
  run_rounds-credit :
      (readings : ℕ → Reading) (n : ℕ) (s : WorkerState)
      → (rs : List WorkerProcessingResult) × (s' : WorkerState) × (run_rounds config readings n s
          ≡ (ok rs, s'))
        × (state_credit s' + count_processed rs ≤ state_credit s)
  unfolding run_rounds
  run_rounds-credit readings zero s = ([], s, refl, unfold count_processed in omega arith)
  run_rounds-credit readings (suc n) s =
      let (r, s', run, paid) = round-credit (readings n) s in
      let (rs, s'', runs, paid') = run_rounds-credit readings n s' in
      elim (Bool-cases r.processed) [
        | inl more ↦ (
          r ∷ rs,
          s'',
          rw (run, run_rounds) (rw more (rw runs refl)),
          omega (arith, count_processed-cons r rs, paid, paid'),
        )
        | inr stop ↦ (r ∷ [], s', rw (run, run_rounds) (rw stop refl), paid)
      ]

-- A batch of at least one round never raises. Whatever the executors return and however large the
-- batch is, the number of its executions is at most `max_transient_retries + 1` times the length of
-- the queue. The flag that it reports says whether the queue it leaves is empty.
pub invoke_bounded :
    (config : RuntimeConfig) (readings : ℕ → Reading) (n : ℕ) (s : WorkerState)
    → 0 < n
    → (r : WorkerInvocationResult) × (s' : WorkerState) × (invoke config readings n s ≡ (ok r, s'))
      × (r.processed_count ≤ (config.max_transient_retries + 1) * length s.queue)
      × (r.queue_empty ≡ (length s'.queue == 0))
unfolding invoke
invoke_bounded config readings zero s h = elim h [ ]
invoke_bounded config readings (suc n) s h =
    let (rs, s', run, paid) = run_rounds-credit config readings (suc n) s in
    let r : WorkerInvocationResult = record {
      requested_count = suc n;
      processed_count = count_processed rs;
      queue_empty = length s'.queue == 0;
      results = rs;
    } in
    (r, s', rw run refl, omega (arith, paid, total_credit-le config s.plane s.queue), refl)
