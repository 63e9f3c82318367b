-- ===== src/Workers/Runtime/Outcome.antt =====
-- The execution of an approved action, in closed form: it never raises, and this is what it does.
use velox_server.Prelude.{
  ◌+◌, String, Bool, true, Option, none, some, [], ◌∷◌, ◌++◌, ◌≡◌, refl, inl, inr, arith, ltb, ◌&&◌,
  if◌then◌else◌, Bool-cases, nat_eq,
}
use velox_server.Prelude.Result.{ok}
use velox_server.Actions.{Instant, Action}
use velox_server.Lifecycle
use velox_server.Lifecycle.{
  ActionStatus, queued, approved, executing, completed, LifecycleMetadata, no_metadata, merge,
  ActionLifecycleState, TransitionError, transition, normalize_blank_reason,
}
use velox_server.ControlPlane.{ControlPlane, set_state, enqueue}
use velox_server.Workers.Executor.{
  WorkerExecutionStatus, succeeded, skipped, failed, WorkerExecutionResult, WorkerExecutionFailure,
}
use velox_server.Workers.Resolve.{resolve, execute}
use velox_server.Workers.Observation.{WorkerExecutionObservation, start, finish}
use velox_server.Workers.Runtime.{
  RuntimeConfig, Reading, WorkerState, result_of, failure_for_result, settle, is_transient,
  retry_count, retry_state, maybe_retry, execute_approved, processed_result,
}

module _ (config : RuntimeConfig) (reading : Reading) (action : Action) where
  -- What the executor that the registry resolves returns.
  unfoldable pub execution : WorkerExecutionResult
  unfolding result_of
  execution =
      result_of action (execute (resolve config.casefold config.registry action) reading.now action)

  unfoldable pub observed : WorkerExecutionObservation
  unfolding failure_for_result
  observed =
      finish
        (start action (resolve config.casefold config.registry action) reading.execution_id
          reading.now)
        execution.status execution.metadata execution.reason (failure_for_result execution)
        reading.duration reading.now

  abbrev pub running_state : ActionLifecycleState → ActionLifecycleState
  running_state state = record state { status = executing; updated_at = reading.now; reason = none }

-- The status and the reason that an execution leaves.
abbrev pub settled_status : WorkerExecutionStatus → ActionStatus
settled_status succeeded = completed
settled_status skipped = Lifecycle.skipped
settled_status failed = Lifecycle.failed

abbrev pub settled_reason : WorkerExecutionStatus → Option String → Option String
settled_reason succeeded reason = none
settled_reason _ reason = reason

module _ (config : RuntimeConfig) (reading : Reading) (action : Action)
    (state : ActionLifecycleState) where
  -- The state after the execution, before a retry.
  abbrev pub settled_state : ActionLifecycleState
  settled_state =
      let result = execution config reading action in
      record state {
        status = settled_status result.status;
        updated_at = reading.now;
        reason = normalize_blank_reason (settled_reason result.status result.reason);
      }

  abbrev pub retried_state : ActionLifecycleState
  retried_state = record state {
    status = approved;
    updated_at = reading.now;
    reason = none;
    metadata = record state.metadata {
      transient_retry_count = some (retry_count state.metadata + 1);
    };
  }

  -- The execution failed transiently and a retry is left.
  unfoldable pub retries : Bool
  unfolding is_transient failure_for_result retry_count
  retries =
      is_transient settled_state.status (failure_for_result (execution config reading action))
      && ltb (retry_count state.metadata) config.max_transient_retries

  abbrev pub final_state : ActionLifecycleState
  final_state = if retries then retried_state else settled_state

  -- The control plane after the execution.
  abbrev pub final_plane : ControlPlane → ControlPlane
  final_plane c =
      let c =
        set_state (set_state c action.id (running_state config reading action state)) action.id
          settled_state in
      if retries then enqueue (set_state c action.id retried_state) action else c

settle_running :
    (status : WorkerExecutionStatus) (state : ActionLifecycleState) (reason : Option String)
    (now : Instant)
    → state.status ≡ executing
    → settle status state reason now
      ≡ ok (record state {
        status = settled_status status;
        updated_at = now;
        reason = normalize_blank_reason (settled_reason status reason);
      })
unfolding settle transition
settle_running succeeded state reason now h = ground arith
settle_running skipped state reason now h = ground arith
settle_running failed state reason now h = ground arith

retry_failed :
    (state : ActionLifecycleState) (now : Instant)
    → state.status ≡ Lifecycle.failed
    → retry_state state now
      ≡ ok (record state {
        status = approved;
        updated_at = now;
        reason = none;
        metadata = record state.metadata {
          transient_retry_count = some (retry_count state.metadata + 1);
        };
      })
unfolding retry_state transition
retry_failed state now h = ground arith

run_approved_state :
    (state : ActionLifecycleState) (now : Instant)
    → state.status ≡ approved
    → transition state executing none no_metadata now
      ≡ ok (record state { status = executing; updated_at = now; reason = none })
unfolding transition
run_approved_state state now h = ground arith

failed_of_transient :
    (status : ActionStatus) (failure : Option WorkerExecutionFailure)
    → is_transient status failure ≡ true
    → status ≡ Lifecycle.failed
unfolding is_transient
failed_of_transient status failure h = ground arith

maybe_retry_lem :
    (config : RuntimeConfig) (s : WorkerState) (action : Action) (settled : ActionLifecycleState)
    (failure : Option WorkerExecutionFailure) (now : Instant)
    → let retried = record settled {
      status = approved;
      updated_at = now;
      reason = none;
      metadata = record settled.metadata {
        transient_retry_count = some (retry_count settled.metadata + 1);
      };
    } in
      maybe_retry config s action settled failure now ≡ (
        if is_transient settled.status failure
          && ltb (retry_count settled.metadata) config.max_transient_retries
        then (ok retried, record s { plane = enqueue (set_state s.plane action.id retried) action })
        else (ok settled, s))
unfolding maybe_retry
maybe_retry_lem config s action settled failure now =
    elim (Bool-cases (is_transient settled.status failure)) [
      | inl may ↦
          rw (retry_failed settled now (failed_of_transient settled.status failure may)) refl
      | inr fails ↦ rw fails refl
    ]

module _ (config : RuntimeConfig) (reading : Reading) (action : Action)
    (state : ActionLifecycleState) (s : WorkerState) where
  -- An approved action is executed once, through the executor that the registry resolves, whatever
  -- that comes to; the call never raises. The execution is observed, the lifecycle state moves
  -- through EXECUTING to the state of the result, and a transient failure with a retry left goes
  -- back to the queue, approved, with its retry counted.
  pub execute_approved_lem :
      state.status ≡ approved
      → execute_approved config reading action state s ≡ (
        ok (
            processed_result
              (execution config reading action)
              (final_state config reading action state)
              (observed config reading action)
              (failure_for_result (execution config reading action))),
        record s {
          plane = final_plane config reading action state s.plane;
          observations = s.observations ++ observed config reading action ∷ [];
        },
      )
  unfolding execute_approved execution observed retries
  execute_approved_lem h =
      let result = execution config reading action in
      rw (run_approved_state state reading.now h) (
        rw
          (settle_running result.status (running_state config reading action state) result.reason
            reading.now refl)
          (rw maybe_retry_lem (elim (Bool-cases (retries config reading action state)) [
            | inl may ↦ rw may refl
            | inr done ↦ rw done refl
          ])))
