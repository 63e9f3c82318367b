-- ===== src/Workers/Report.antt =====
-- What workers/runtime.py writes into the metadata of a processed action.
use velox_server.Prelude.{
  String, Bool, false, Option, none, some, option_map, nat_eq, string_eq, [], ◌∷◌, ◌++◌,
}
use velox_server.Prelude.Dict
use velox_server.Prelude.Dict.{Dict}
use velox_server.Actions.{
  Value, null, flag, num, text, timestamp, obj, to_fields, of_optional, truthy, Action,
}
use velox_server.Lifecycle.{
  ActionStatus, queued, approved, executing, completed, ActionLifecycleState, LifecycleMetadata,
  no_metadata, new_state, awaits_approval, TransitionError, transition,
}
use velox_server.Lifecycle
use velox_server.Workers.Executor.{WorkerExecutionFailure, WorkerExecutionResult}
use velox_server.Permission.{status_value}
use velox_server.Workers.Observation.{
  WorkerExecutionObservation, execution_status_value, category_value, reason_value, instant_value,
  duration_value, context_value, observation_value,
}

-- ActionStatus.value
unfoldable pub action_status_value : ActionStatus → String
action_status_value Lifecycle.planned = "planned"
action_status_value Lifecycle.queued = "queued"
action_status_value Lifecycle.approved = "approved"
action_status_value Lifecycle.rejected = "rejected"
action_status_value Lifecycle.executing = "executing"
action_status_value Lifecycle.completed = "completed"
action_status_value Lifecycle.skipped = "skipped"
action_status_value Lifecycle.failed = "failed"

-- bool(execution_result.metadata.get("external_execution_performed", False))
unfoldable pub performed_externally : WorkerExecutionResult → Bool
performed_externally r = elim (Dict.get r.metadata "external_execution_performed") [
  | none ↦ false
  | some v ↦ truthy v
]

-- The metadata of a lifecycle state, as its model_dump has it.
optional_field : String → Option Value → Dict String Value
optional_field k none = []
optional_field k (some v) = (k, v) ∷ []

metadata_fields : LifecycleMetadata → Dict String Value
metadata_fields m =
    optional_field "approval_required" (option_map flag m.approval_required)
    ++ (optional_field "durable_recovery" (option_map flag m.durable_recovery)
        ++ (optional_field "transient_retry_count" (option_map num m.transient_retry_count)
            ++ optional_field "permission_status"
                (option_map (λ p. text (status_value p)) m.permission_status)))

-- lifecycle_state.model_dump(mode="json")
unfoldable pub lifecycle_value : ActionLifecycleState → Value
unfolding action_status_value metadata_fields optional_field
lifecycle_value state = obj (
    to_fields (
      ("status", text (action_status_value state.status))
      ∷ ("created_at", timestamp state.created_at)
      ∷ ("updated_at", timestamp state.updated_at)
      ∷ ("reason", of_optional state.reason)
      ∷ ("metadata", obj (to_fields (metadata_fields state.metadata)))
      ∷ []))

-- WorkerRuntime._failure_metadata
unfoldable pub failure_metadata : Option WorkerExecutionFailure → Value
failure_metadata none = null
failure_metadata (some f) = obj (
    to_fields (
      ("category", text (category_value f.category))
      ∷ ("message", of_optional f.message)
      ∷ ("metadata", obj (to_fields f.metadata))
      ∷ []))

-- The `worker_execution` entry of a processed action's metadata.
unfoldable pub execution_value :
    WorkerExecutionResult → WorkerExecutionObservation → Option WorkerExecutionFailure → Value
unfolding failure_metadata
execution_value r o failure = obj (
    to_fields (
      ("status", text (execution_status_value r.status))
      ∷ ("reason", of_optional r.reason)
      ∷ ("failure", failure_metadata failure)
      ∷ ("requested_role", of_optional o.requested_role)
      ∷ ("executor_registered", flag o.executor_registered)
      ∷ ("requested_capability", of_optional o.requested_capability)
      ∷ ("requested_provider", of_optional o.requested_provider)
      ∷ ("matched_provider", of_optional o.matched_provider)
      ∷ ("requested_account_context", context_value o.requested_account_context)
      ∷ ("matched_account_context", context_value o.matched_account_context)
      ∷ ("account_context_used", context_value o.matched_account_context)
      ∷ ("routing_reason", text (reason_value o.routing_reason))
      ∷ ("started_at", timestamp o.started_at)
      ∷ ("finished_at", instant_value o.finished_at)
      ∷ ("duration_ms", duration_value o.duration_ms)
      ∷ ("metadata", obj (to_fields r.metadata))
      ∷ ("observation", observation_value o)
      ∷ []))

-- The metadata of the returned action is written over the executor's: the lifecycle, the execution
-- and whether external work was done.
unfoldable pub processed_action :
    WorkerExecutionResult
    → ActionLifecycleState
    → WorkerExecutionObservation
    → Option WorkerExecutionFailure
    → Action
processed_action r state observation failure = record r.action {
  metadata =
      Dict.put
        (Dict.put (Dict.put r.action.metadata "action_lifecycle" (lifecycle_value state))
          "worker_execution" (execution_value r observation failure))
        "external_execution_performed" (flag (performed_externally r));
}
