-- ===== src/Workers/Runtime.antt =====
-- `WorkerRuntime` of workers/runtime.py.
pub mod Outcome
pub mod Gate
pub mod Safety
pub mod Credit
pub mod Retries
use velox_server.Prelude.{
  ℕ, zero, suc, ◌+◌, String, Bool, true, false, Option, none, some, or_else, ◌==◌, nat_eq,
  string_eq, List, [], ◌∷◌, ◌++◌, keep, length, if◌then◌else◌, ltb, ◌&&◌,
}
use Prim.Native.String.{◌++◌ as ◌<>◌}
use velox_server.Prelude.Result.{Result, ok, err, ◌>>=◌, Step, continue}
use velox_server.Actions.{Uuid, Instant, flag, text, Action}
use velox_server.Lifecycle.{
  ActionStatus, queued, approved, executing, completed, ActionLifecycleState, LifecycleMetadata,
  no_metadata, new_state, awaits_approval, TransitionError, transition,
}
use velox_server.Lifecycle
use velox_server.ControlPlane.{ControlPlane, get_state, set_state, enqueue}
use velox_server.ControlPlane.Queue
use velox_server.Workers.Executor.{
  WorkerExecutionStatus, succeeded, skipped, failed, transient, internal, WorkerExecutionFailure,
  WorkerExecutionResult, ExecutionOutcome, returned, threw,
}
use velox_server.Workers.Registry.{Registry}
use velox_server.Workers.Resolve.{resolve, execute}
use velox_server.Workers.Observation.{WorkerExecutionObservation, start, finish}
use velox_server.Workers.Report.{action_status_value, performed_externally, processed_action}

-- The runtime's parts that never change.
pub record RuntimeConfig : Type 0 where
  pub casefold : String → String
  pub registry : Registry
  pub max_transient_retries : ℕ

-- What one round reads from outside: the clock, a fresh UUID and the measured duration.
pub record Reading : Type 0 where
  pub now : Instant
  pub execution_id : Uuid
  pub duration : ℕ

pub record WorkerState : Type 0 where
  pub plane : ControlPlane
  pub open plane use *
  pub observations : List WorkerExecutionObservation

pub record WorkerProcessingResult : Type 0 where
  pub action : Option Action
  pub lifecycle_state : Option ActionLifecycleState
  pub execution_status : Option WorkerExecutionStatus
  pub execution_reason : Option String
  pub processed : Bool
  pub external_execution_performed : Bool

-- WorkerRuntime._unprocessed_result
unfoldable pub unprocessed_result : Option String → WorkerProcessingResult
unprocessed_result reason = record {
  action = none;
  lifecycle_state = none;
  execution_status = none;
  execution_reason = reason;
  processed = false;
  external_execution_performed = false;
}

-- A claimed action that is not executed.
unfoldable pub held_result : Action → Option ActionLifecycleState → String → WorkerProcessingResult
held_result action state reason = record {
  action = some action;
  lifecycle_state = state;
  execution_status = none;
  execution_reason = some reason;
  processed = false;
  external_execution_performed = false;
}

-- The result that stands for an exception of the executor.
unfoldable pub result_of : Action → ExecutionOutcome → WorkerExecutionResult
result_of action (returned r) = r
result_of action (threw name message) = record {
  action = action;
  status = failed;
  reason = some ("executor raised exception: " <> message);
  metadata =
      ("external_execution_performed", flag false)
      ∷ ("exception_type", text name)
      ∷ ("exception_message", text message)
      ∷ [];
  failure = some (record {
    category = internal;
    message = some ("executor raised exception: " <> message);
    metadata = ("exception_type", text name) ∷ ("exception_message", text message) ∷ [];
  });
}

-- WorkerRuntime._failure_for_result
failure_of :
    WorkerExecutionStatus
    → Option WorkerExecutionFailure
    → Option String
    → Option WorkerExecutionFailure
failure_of failed (some f) reason = some f
failure_of failed none reason =
    some (record { category = internal; message = reason; metadata = [] })
failure_of _ failure reason = none

unfoldable pub failure_for_result : WorkerExecutionResult → Option WorkerExecutionFailure
unfolding failure_of
failure_for_result r = failure_of r.status r.failure r.reason

-- The lifecycle transition that follows an execution.
unfoldable pub settle :
    WorkerExecutionStatus
    → ActionLifecycleState
    → Option String
    → Instant
    → Result TransitionError ActionLifecycleState
settle succeeded state reason now = transition state completed none no_metadata now
settle skipped state reason now = transition state Lifecycle.skipped reason no_metadata now
settle failed state reason now = transition state Lifecycle.failed reason no_metadata now

-- `lifecycle_state.status == FAILED and failure is not None and failure.category == TRANSIENT`
unfoldable pub is_transient : ActionStatus → Option WorkerExecutionFailure → Bool
is_transient Lifecycle.failed (some f) = elim f.category [ transient ↦ true | _ ↦ false ]
is_transient _ _ = false

-- int(lifecycle_state.metadata.get("transient_retry_count", 0))
unfoldable pub retry_count : LifecycleMetadata → ℕ
retry_count m = or_else m.transient_retry_count 0

-- The two transitions of a retry.
unfoldable pub retry_state :
    ActionLifecycleState → Instant → Result TransitionError ActionLifecycleState
unfolding retry_count
retry_state state now = do
  requeued ←
      transition state queued none
        (record no_metadata { transient_retry_count = some (retry_count state.metadata + 1) }) now
  transition requeued approved none no_metadata now

-- The tail of `_process_dequeued_action`: with `retry` the action goes back to the queue, approved.
after_retry :
    WorkerState
    → Action
    → Result TransitionError ActionLifecycleState
    → Result TransitionError ActionLifecycleState × WorkerState
after_retry s action (err e) = (err e, s)
after_retry s action (ok state) =
    (ok state, record s { plane = enqueue (set_state s.plane action.id state) action })

unfoldable pub maybe_retry :
    RuntimeConfig
    → WorkerState
    → Action
    → ActionLifecycleState
    → Option WorkerExecutionFailure
    → Instant
    → Result TransitionError ActionLifecycleState × WorkerState
unfolding after_retry
maybe_retry config s action state failure now =
    if is_transient state.status failure
      && ltb (retry_count state.metadata) config.max_transient_retries
    then after_retry s action (retry_state state now)
    else (ok state, s)

unfoldable pub processed_result :
    WorkerExecutionResult
    → ActionLifecycleState
    → WorkerExecutionObservation
    → Option WorkerExecutionFailure
    → WorkerProcessingResult
unfolding performed_externally
processed_result r state observation failure = record {
  action = some (processed_action r state observation failure);
  lifecycle_state = some state;
  execution_status = some r.status;
  execution_reason = r.reason;
  processed = true;
  external_execution_performed = performed_externally r;
}

-- The execution of an approved action, from the move to EXECUTING on.
unfoldable pub execute_approved :
    RuntimeConfig
    → Reading
    → Action
    → ActionLifecycleState
    → Step WorkerState TransitionError WorkerProcessingResult
unfolding result_of failure_for_result
execute_approved config reading action state s =
    continue (transition state executing none no_metadata reading.now, s)
      λ running s.
        let s = record s { plane = set_state s.plane action.id running } in
        let resolution = resolve config.casefold config.registry action in
        let observation = start action resolution reading.execution_id reading.now in
        let result = result_of action (execute resolution reading.now action) in
        let failure = failure_for_result result in
        let finished =
          finish observation result.status result.metadata result.reason failure reading.duration
            reading.now in
        let s = record s { observations = s.observations ++ finished ∷ [] } in
        continue (settle result.status running result.reason reading.now, s)
          λ settled s.
            let s = record s { plane = set_state s.plane action.id settled } in
            continue (maybe_retry config s action settled failure reading.now)
              λ final s. (ok (processed_result result final finished failure), s)

-- `lifecycle_state.status != APPROVED`: a rejected or otherwise non-approved action is dropped.
pub unapproved_result : Action → ActionLifecycleState → WorkerProcessingResult
unfolding held_result action_status_value
unapproved_result action state =
    held_result action (some state)
      ("action is not approved for execution (status: " <> action_status_value state.status <> ")")

run_approved :
    RuntimeConfig
    → Reading
    → Action
    → ActionLifecycleState
    → ActionStatus
    → Step WorkerState TransitionError WorkerProcessingResult
run_approved config reading action state approved s = execute_approved config reading action state s
run_approved config reading action state other s = (ok (unapproved_result action state), s)

-- An action whose lifecycle state is QUEUED: it goes back to the queue while it awaits approval.
run_queued :
    RuntimeConfig
    → Reading
    → Action
    → ActionLifecycleState
    → Step WorkerState TransitionError WorkerProcessingResult
unfolding run_approved
run_queued config reading action state s =
    if awaits_approval state.metadata
    then (
      ok (held_result action (some state) "action awaits explicit approval"),
      record s { plane = enqueue s.plane action },
    )
    else continue (transition state approved none no_metadata reading.now, s)
        λ next s. run_approved config reading action next next.status s

run_status :
    RuntimeConfig
    → Reading
    → Action
    → ActionLifecycleState
    → ActionStatus
    → Step WorkerState TransitionError WorkerProcessingResult
run_status config reading action state queued s = run_queued config reading action state s
run_status config reading action state other s = run_approved config reading action state other s

-- WorkerRuntime._process_dequeued_action
unfoldable pub process_dequeued_action :
    RuntimeConfig → Reading → Action → Step WorkerState TransitionError WorkerProcessingResult
unfolding run_status run_queued run_approved
process_dequeued_action config reading action s =
    let state =
      or_else (get_state s.plane action.id) (new_state queued none no_metadata reading.now) in
    run_status config reading action state state.status s

-- WorkerRuntime.process_next
process_front :
    RuntimeConfig
    → Reading
    → Option Action × List Action
    → Step WorkerState TransitionError WorkerProcessingResult
process_front config reading (none, q) s = (ok (unprocessed_result none), s)
process_front config reading (some action, q) s =
    process_dequeued_action config reading action
      (record s { plane = record s.plane { queue = q } })

unfoldable pub process_next :
    RuntimeConfig → Reading → Step WorkerState TransitionError WorkerProcessingResult
unfolding process_front
process_next config reading s = process_front config reading (Queue.dequeue s.queue) s

-- WorkerRuntime.process_action
process_claimed :
    RuntimeConfig
    → Reading
    → Option Action × List Action
    → Step WorkerState TransitionError WorkerProcessingResult
process_claimed config reading (none, q) s =
    (ok (unprocessed_result (some "action is not queued")), s)
process_claimed config reading (some action, q) s =
    process_dequeued_action config reading action
      (record s { plane = record s.plane { queue = q } })

-- `lifecycle_state is not None and it is QUEUED and awaits approval`
unfoldable pub is_held : Option ActionLifecycleState → Bool
is_held none = false
is_held (some state) = elim state.status [ queued ↦ awaits_approval state.metadata | _ ↦ false ]

process_found :
    RuntimeConfig
    → Reading
    → Uuid
    → Option Action
    → Step WorkerState TransitionError WorkerProcessingResult
unfolding is_held process_claimed
process_found config reading i none s = (ok (unprocessed_result (some "action is not queued")), s)
process_found config reading i (some action) s =
    let state = get_state s.plane action.id in
    if is_held state
    then (ok (held_result action state "action awaits explicit approval"), s)
    else process_claimed config reading (Queue.remove s.queue i) s

unfoldable pub process_action :
    RuntimeConfig → Reading → Uuid → Step WorkerState TransitionError WorkerProcessingResult
unfolding process_found
process_action config reading i s = process_found config reading i (Queue.find s.queue i) s
