-- ===== src/Workers/Invocation.antt =====
-- `WorkerRuntimeInvocationService` of workers/runtime.py: a batch of rounds.
use velox_server.Prelude.{
  ℕ, zero, suc, Bool, ◌==◌, nat_eq, string_eq, List, [], ◌∷◌, keep, length, if◌then◌else◌,
}
use velox_server.Prelude.Result.{Result, ok, err, Step, continue}
use velox_server.Lifecycle.{TransitionError}
use velox_server.Workers.Runtime.{
  RuntimeConfig, Reading, WorkerState, WorkerProcessingResult, process_next,
}

pub record WorkerInvocationResult : Type 0 where
  pub requested_count : ℕ
  pub processed_count : ℕ
  pub queue_empty : Bool
  pub results : List WorkerProcessingResult

pub data InvocationError : Type 0 where
  too_few_actions : InvocationError
  transition_failed : TransitionError → InvocationError

-- The loop of `invoke`: at most `n` rounds, until one processes nothing. `readings` gives what the
-- rounds read, the round with `n` left at `n`.
unfoldable pub run_rounds :
    RuntimeConfig
    → (ℕ → Reading)
    → ℕ
    → Step WorkerState TransitionError (List WorkerProcessingResult)
run_rounds config readings zero s = (ok [], s)
run_rounds config readings (suc n) s = continue (process_next config (readings n) s) λ result s.
    let more = continue (run_rounds config readings n s) λ rest s. (ok (result ∷ rest), s) in
    if result.processed then more else (ok (result ∷ []), s)

unfoldable pub count_processed : List WorkerProcessingResult → ℕ
count_processed results = length (keep (λ r. r.processed) results)

-- WorkerRuntimeInvocationService.invoke
summary :
    ℕ
    → Result TransitionError (List WorkerProcessingResult) × WorkerState
    → Result InvocationError WorkerInvocationResult × WorkerState
unfolding count_processed
summary n (err e, s) = (err (transition_failed e), s)
summary n (ok results, s) = (
  ok (record {
    requested_count = n;
    processed_count = count_processed results;
    queue_empty = length s.queue == 0;
    results = results;
  }),
  s,
)

unfoldable pub invoke :
    RuntimeConfig → (ℕ → Reading) → ℕ → Step WorkerState InvocationError WorkerInvocationResult
unfolding summary
invoke config readings zero s = (err too_few_actions, s)
invoke config readings (suc n) s = summary (suc n) (run_rounds config readings (suc n) s)
