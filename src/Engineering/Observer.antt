-- ===== src/Engineering/Observer.antt =====
-- `DurableSoftwareEngineeringExecutionObserver` of integrations/software_engineering_state.py: what it
-- writes to the run repository. The observations are those of the in-memory observer that it wraps.
pub mod Steps
pub mod Attempts
use velox_server.Prelude.{
  ℕ, String, Bool, true, false, Option, none, some, is_none, not, ◌&&◌, ◌==◌, string_eq, option_eq,
  nat_eq, if◌then◌else◌,
}
use velox_server.Prelude.Result.{Result, ok, err, Step, continue}
use velox_server.Prelude.Dict
use velox_server.Prelude.Dict.{Dict}
use velox_server.Actions.{Uuid, Instant, Value, truthy, Action, role_value, software_engineering}
use velox_server.Workers.Executor.{WorkerExecutionStatus, WorkerExecutionFailure}
use velox_server.Workers.Resolve.{WorkerExecutorResolution}
use velox_server.Workers.Observation
use velox_server.Workers.Observation.{WorkerExecutionObservation, execution_status_value}
use velox_server.Runs.{RunState, RunError, Registration}
use velox_server.Engineering.{RunRepository, implement_capability}

-- SoftwareEngineeringRunStateError: the repository's, or that of an observation without an end.
pub data ObserverError : Type 0 where
  run_error : RunError → ObserverError
  no_completion_time : ObserverError

-- _is_canonical_route
unfoldable pub is_canonical_route : Option String → Option String → Bool
unfolding role_value
is_canonical_route role capability =
    role == some (role_value software_engineering) && capability == some implement_capability

-- The registration that a start makes of its action.
unfoldable pub start_registration : Action → Registration
unfolding role_value
start_registration action = record {
  action_id = action.id;
  target = action.target;
  executor_role = role_value software_engineering;
  capability = implement_capability;
  delegation_status = none;
  objective = none;
  approval_status = none;
}

-- bool(metadata.get("external_execution_performed", False))
unfoldable pub external_performed : Dict String Value → Bool
external_performed metadata = elim (Dict.get metadata "external_execution_performed") [
  | none ↦ false
  | some v ↦ truthy v
]

module _ {S : Type 0} (repository : RunRepository S) where
  -- An error of the repository as one of the observer.
  unfoldable pub reported :
      {A : Type 0} → A → Result RunError RunState × S → Result ObserverError A × S
  reported a (ok s, store) = (ok a, store)
  reported a (err e, store) = (err (run_error e), store)

  -- A claimed run that has not started is marked as started.
  unfoldable pub mark_started :
      WorkerExecutionObservation
      → Uuid
      → Instant
      → Result RunError RunState × S
      → Result ObserverError WorkerExecutionObservation × S
  unfolding reported
  mark_started observation i now (err e, store) = (err (run_error e), store)
  mark_started observation i now (ok s, store) =
      if not (is_none s.claim_id) && is_none s.execution_started_at
      then reported observation
          (repository.record_execution_started i observation.started_at now store)
      else (ok observation, store)

  -- start
  unfoldable pub start :
      Action
      → WorkerExecutorResolution
      → Uuid
      → Instant
      → Step S ObserverError WorkerExecutionObservation
  unfolding mark_started is_canonical_route start_registration
  start action resolution execution_id now store =
      let observation = Observation.start action resolution execution_id now in
      if is_canonical_route resolution.requested_role resolution.requested_capability
      then mark_started observation action.id now
          (repository.register_action (start_registration action) now store)
      else (ok observation, store)

  -- The record of a finished observation.
  unfoldable pub record_finished :
      WorkerExecutionObservation
      → WorkerExecutionStatus
      → Bool
      → Instant
      → Option Instant
      → Step S ObserverError WorkerExecutionObservation
  unfolding reported execution_status_value
  record_finished finished status external now none store = (err no_completion_time, store)
  record_finished finished status external now (some finished_at) store = reported finished (
      repository.record_execution finished.action_id (execution_status_value status) finished_at
        external now store)

  -- finish
  unfoldable pub finish :
      WorkerExecutionObservation
      → WorkerExecutionStatus
      → Dict String Value
      → Option String
      → Option WorkerExecutionFailure
      → ℕ
      → Instant
      → Step S ObserverError WorkerExecutionObservation
  unfolding record_finished is_canonical_route external_performed
  finish observation status metadata reason failure duration now store =
      let finished = Observation.finish observation status metadata reason failure duration now in
      if is_canonical_route finished.requested_role finished.requested_capability
      then record_finished finished status (external_performed metadata) now finished.finished_at
          store
      else (ok finished, store)
