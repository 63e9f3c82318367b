-- ===== src/Engineering/Continuation.antt =====
-- integrations/software_engineering_continuation.py: the execution of one durably approved action
-- by the worker runtime, and the review of its worktree.
pub mod Ready
pub mod Claimed
use velox_server.Prelude.{
  String, Bool, true, false, Option, none, some, is_none, not, ◌&&◌, ◌||◌, ◌==◌, string_eq, List,
  [], ◌∷◌, any, if◌then◌else◌,
}
use velox_server.Prelude.Result.{Result, ok, err, raise_if, ◌>>=◌, ◌>>◌, Step, continue}
use velox_server.Prelude.Dict
use velox_server.Actions.{Uuid, Instant, Value, text, Action}
use velox_server.Lifecycle.{
  ActionStatus, queued, approved, ActionLifecycleState, LifecycleMetadata, no_metadata, new_state,
  TransitionError,
}
use velox_server.ControlPlane.{ControlPlane, get_state, set_state, enqueue}
use velox_server.ControlPlane.Queue
use velox_server.Workers.Executor.{WorkerExecutionStatus, succeeded, skipped, failed}
use velox_server.Workers.Runtime.{WorkerState, WorkerProcessingResult}
use velox_server.Engineering.{RunRepository, WorkProductReview}
use velox_server.Runs.{RunError}
use velox_server.Engineering.Recovery
use velox_server.Engineering.Recovery.{RecoveryError, is_canonical_action}
use velox_server.Engineering.Control.{Inspector}

-- What the worker runtime raises: its own error, or that of an observer that writes the run store.
pub data WorkerError : Type 0 where
  transition_error : TransitionError → WorkerError
  observer_error : RunError → WorkerError

-- SoftwareEngineeringContinuation{NotFound,State,Route}Error by its message; `worker_raised` is
-- what the worker runtime raises.
pub data ContinuationError : Type 0 where
  not_found not_approved not_claimed not_canonical conflicting not_processed : ContinuationError
  worker_raised : WorkerError → ContinuationError

-- `process_action` of the worker runtime that the service is given, on the worker state and on the
-- run store, which an observer of the runtime may write.
abbrev pub Runtime : Type 0 → Type 0
Runtime S = Uuid → Step (WorkerState × S) WorkerError WorkerProcessingResult

-- SoftwareEngineeringContinuationResult; a review that is `none` is unavailable.
pub record ContinuationResult : Type 0 where
  pub action_id : Uuid
  pub processed : Bool
  pub execution_status : WorkerExecutionStatus
  pub lifecycle_status : ActionStatus
  pub execution_reason : Option String
  pub external_execution_performed : Bool
  pub review : Option WorkProductReview

-- _SAFE_EXECUTION_FAILURE_REASONS
abbrev safe_reasons : List String
safe_reasons =
    "unsupported_capability" ∷ "invalid_task" ∷ "executable_missing" ∷ "workspace_unavailable"
    ∷ "unsupported_cli" ∷ "canonical_workspace_modified" ∷ "timeout" ∷ "authentication_failed"
    ∷ "malformed_output" ∷ "process_failed" ∷ "invalid_result" ∷ "worker_reported_blockers" ∷ []

is_safe : Option String → Bool
is_safe none = false
is_safe (some r) = any (λ s. r == s) safe_reasons

-- The reason that is shown; a failure's own only where it is a safe one.
unfoldable pub shown_reason : WorkerExecutionStatus → Option String → Option String
unfolding is_safe
shown_reason succeeded reason = none
shown_reason skipped reason = some "worker execution skipped"
shown_reason failed reason = if is_safe reason then reason else some "worker execution failed"

-- `status in {QUEUED, APPROVED}`, or no lifecycle at all
unfoldable pub may_continue : Option ActionLifecycleState → Bool
may_continue none = true
may_continue (some state) = elim state.status [ queued ↦ true | approved ↦ true | _ ↦ false ]

-- _require_canonical_action, of a queued action
unfoldable pub require_canonical_action : Option Action → Result ContinuationError (Unit {0})
unfolding is_canonical_action
require_canonical_action none = ok tt
require_canonical_action (some a) = raise_if (not (is_canonical_action a)) not_canonical

-- Of the two objectives that are compared, the recovered one is a text.
same_value : Option Value → Option Value → Bool
same_value none none = true
same_value (some (text s)) (some (text t)) = s == t
same_value _ _ = false

-- The target and the objective of a queued action against those that were recovered.
unfoldable pub conflicts : Action → Action → Bool
unfolding same_value
conflicts action recovered =
    not (action.target == recovered.target)
    || not
        (same_value (Dict.get action.payload "objective") (Dict.get recovered.payload "objective"))

-- The control plane with the action in its queue.
unfoldable pub with_action :
    Option Action → Action → ControlPlane → Result ContinuationError ControlPlane
unfolding conflicts
with_action none recovered c = ok (enqueue c recovered)
with_action (some action) recovered c = raise_if (conflicts action recovered) conflicting >> ok c

-- The lifecycle state that a durable approval gives an action that has none, or that is queued.
unfoldable pub needs_state : Option ActionLifecycleState → Bool
needs_state none = true
needs_state (some state) = elim state.status [ queued ↦ true | _ ↦ false ]

unfoldable pub with_state :
    Option ActionLifecycleState → Uuid → Instant → ControlPlane → ControlPlane
unfolding needs_state
with_state lifecycle i now c =
    if needs_state lifecycle
    then set_state c i (
        new_state approved none
          (record no_metadata { approval_required = some true; durable_recovery = some true }) now)
    else c

unfoldable pub claim_error : RecoveryError → ContinuationError
claim_error Recovery.not_found = not_found
claim_error _ = not_claimed

-- The claim, with the errors that the caller sees.
unfoldable pub claimed :
    {S : Type 0} → Result RecoveryError Action × S → Result ContinuationError Action × S
unfolding claim_error
claimed (ok a, store) = (ok a, store)
claimed (err e, store) = (err (claim_error e), store)

reviewed : Option Inspector → Uuid → Option WorkProductReview
reviewed none i = none
reviewed (some review) i = review i

-- The answer, where the runtime processed the action.
unfoldable pub answer_of :
    Option Inspector → Uuid → WorkerProcessingResult → Result ContinuationError ContinuationResult
unfolding shown_reason reviewed
answer_of reviewer i r = elim r.processed [
  | false ↦ err not_processed
  | true ↦ elim r.execution_status [
    | none ↦ err not_processed
    | some status ↦ elim r.lifecycle_state [
      | none ↦ err not_processed
      | some state ↦ ok (record {
        action_id = i;
        processed = true;
        execution_status = status;
        lifecycle_status = state.status;
        execution_reason = shown_reason status r.execution_reason;
        external_execution_performed = r.external_execution_performed;
        review = reviewed reviewer i;
      })
    ]
  ]
]

-- What is made of the runtime's outcome.
unfoldable pub finish :
    {S : Type 0}
    → Option Inspector
    → Uuid
    → Result WorkerError WorkerProcessingResult × (WorkerState × S)
    → Result ContinuationError ContinuationResult × (WorkerState × S)
unfolding answer_of
finish reviewer i (err e, after) = (err (worker_raised e), after)
finish reviewer i (ok r, after) = (answer_of reviewer i r, after)

module _ {S : Type 0} (runtime : Runtime S) (repository : RunRepository S)
    (reviewer : Option Inspector) where
  -- The checks before the claim.
  unfoldable pub check : Uuid → WorkerState → Result ContinuationError (Unit {0})
  unfolding may_continue require_canonical_action
  check i w =
      raise_if (not (may_continue (get_state w.plane i))) not_approved
      >> require_canonical_action (Queue.find w.queue i)

  -- The control plane on which the runtime processes the recovered action.
  unfoldable pub ready :
      Uuid → Instant → Action → WorkerState → Result ContinuationError ControlPlane
  unfolding with_action with_state
  ready i now recovered w = with_action (Queue.find w.queue i) recovered w.plane >>= λ c.
      ok (with_state (get_state w.plane i) i now c)

  -- The processing of a claimed action.
  unfoldable pub run_claimed :
      Uuid → Instant → Action → Step (WorkerState × S) ContinuationError ContinuationResult
  unfolding ready finish
  run_claimed i now recovered (w, store) =
      continue (ready i now recovered w, (w, store))
        λ c x. finish reviewer i (runtime i (record w { plane = c }, store))

  -- execute
  unfoldable pub execute :
      Uuid → Uuid → Instant → Step (WorkerState × S) ContinuationError ContinuationResult
  unfolding check claimed run_claimed
  execute i claim_id now (w, store) =
      continue (check i w, (w, store))
        λ _ x.
          let (answer, store') = claimed (Recovery.claim repository i claim_id now store) in
          continue (answer, (w, store')) λ recovered x. run_claimed i now recovered (w, store')
