-- ===== src/Workers/Observation.antt =====
-- `WorkerExecutionObservation` and `InMemoryWorkerExecutionObserver` of workers/runtime.py.
use velox_server.Prelude.{
  ℕ, String, Bool, Option, none, some, option_map, [], ◌∷◌, nat_eq, string_eq,
}
use velox_server.Prelude.Dict
use velox_server.Prelude.Dict.{Dict}
use velox_server.Actions.{
  Uuid, Instant, Value, null, flag, num, text, timestamp, identifier, obj, of_optional, to_fields,
  Action,
}
use velox_server.Workers.Executor.{
  WorkerExecutionStatus, succeeded, skipped, failed, WorkerExecutionFailureCategory, transient,
  permanent, internal, WorkerExecutionFailure, WorkerAccountContext, as_metadata,
}
use velox_server.Workers.Resolve.{
  RoutingReason, missing_executor_role, invalid_capability, invalid_capability_provider,
  invalid_account_context, no_handler, capability_route, ambiguous_capability_route,
  missing_account_context, WorkerExecutorResolution,
}

-- WorkerExecutionStatus.value
unfoldable pub execution_status_value : WorkerExecutionStatus → String
execution_status_value succeeded = "succeeded"
execution_status_value skipped = "skipped"
execution_status_value failed = "failed"

-- WorkerExecutionFailureCategory.value
unfoldable pub category_value : WorkerExecutionFailureCategory → String
category_value transient = "transient"
category_value permanent = "permanent"
category_value internal = "internal"

-- The texts of `routing_reason`.
unfoldable pub reason_value : RoutingReason → String
reason_value missing_executor_role = "missing_executor_role"
reason_value invalid_capability = "invalid_capability"
reason_value invalid_capability_provider = "invalid_capability_provider"
reason_value invalid_account_context = "invalid_account_context"
reason_value no_handler = "no_handler"
reason_value capability_route = "capability_route"
reason_value ambiguous_capability_route = "ambiguous_capability_route"
reason_value missing_account_context = "missing_account_context"

pub record WorkerExecutionObservation : Type 0 where
  pub execution_id : Uuid
  pub action_id : Uuid
  pub requested_role : Option String
  pub executor_registered : Bool
  pub requested_capability : Option String
  pub requested_provider : Option String
  pub matched_provider : Option String
  pub requested_account_context : Option WorkerAccountContext
  pub matched_account_context : Option WorkerAccountContext
  pub routing_reason : RoutingReason
  pub status : String
  pub started_at : Instant
  pub finished_at : Option Instant
  pub duration_ms : Option ℕ
  pub reason : Option String
  pub failure_category : Option String
  pub failure_message : Option String
  pub metadata : Dict String Value

-- InMemoryWorkerExecutionObserver.start, called with the parts of a resolution: the observation
-- that it appends.
unfoldable pub start :
    Action → WorkerExecutorResolution → Uuid → Instant → WorkerExecutionObservation
start action r execution_id now = record {
  execution_id = execution_id;
  action_id = action.id;
  requested_role = r.requested_role;
  executor_registered = r.registered;
  requested_capability = r.requested_capability;
  requested_provider = r.requested_provider;
  matched_provider = r.matched_provider;
  requested_account_context = r.requested_account_context;
  matched_account_context = r.matched_account_context;
  routing_reason = r.routing_reason;
  status = "started";
  started_at = now;
  finished_at = none;
  duration_ms = none;
  reason = none;
  failure_category = none;
  failure_message = none;
  metadata = ("action_type", text action.type) ∷ ("action_target", text action.target) ∷ [];
}

-- {**old, **new}
unfoldable pub merge_metadata : Dict String Value → Dict String Value → Dict String Value
merge_metadata old [] = old
merge_metadata old ((k, v) ∷ new) = merge_metadata (Dict.put old k v) new

-- InMemoryWorkerExecutionObserver.finish, on the observation that it updates
unfoldable pub finish :
    WorkerExecutionObservation
    → WorkerExecutionStatus
    → Dict String Value
    → Option String
    → Option WorkerExecutionFailure
    → ℕ
    → Instant
    → WorkerExecutionObservation
unfolding execution_status_value category_value merge_metadata
finish o status metadata reason failure duration now = record o {
  status = execution_status_value status;
  finished_at = some now;
  duration_ms = some duration;
  reason = reason;
  failure_category = option_map (λ (f : WorkerExecutionFailure). category_value f.category) failure;
  failure_message = elim failure [ none ↦ none | some f ↦ f.message ];
  metadata = merge_metadata o.metadata metadata;
}

abbrev optional_value {ℓ} : {A : Type ℓ} → (A → Value) → Option A → Value
optional_value f none = null
optional_value f (some a) = f a

abbrev pub instant_value : Option Instant → Value
instant_value i = optional_value timestamp i

abbrev pub duration_value : Option ℕ → Value
duration_value d = optional_value num d

abbrev pub context_value : Option WorkerAccountContext → Value
context_value c = optional_value as_metadata c

-- WorkerExecutionObservation.as_metadata; `account_context_used` is the matched one, as the worker
-- runtime passes it.
unfoldable pub observation_value : WorkerExecutionObservation → Value
unfolding reason_value
observation_value o = obj (
    to_fields (
      ("execution_id", identifier o.execution_id)
      ∷ ("action_id", identifier o.action_id)
      ∷ ("requested_role", of_optional o.requested_role)
      ∷ ("executor_registered", flag o.executor_registered)
      ∷ ("requested_capability", of_optional o.requested_capability)
      ∷ ("requested_provider", of_optional o.requested_provider)
      ∷ ("matched_provider", of_optional o.matched_provider)
      ∷ ("requested_account_context", context_value o.requested_account_context)
      ∷ ("matched_account_context", context_value o.matched_account_context)
      ∷ ("account_context_used", context_value o.matched_account_context)
      ∷ ("routing_reason", text (reason_value o.routing_reason))
      ∷ ("status", text o.status)
      ∷ ("started_at", timestamp o.started_at)
      ∷ ("finished_at", instant_value o.finished_at)
      ∷ ("duration_ms", duration_value o.duration_ms)
      ∷ ("reason", of_optional o.reason)
      ∷ ("failure_category", of_optional o.failure_category)
      ∷ ("failure_message", of_optional o.failure_message)
      ∷ ("metadata", obj (to_fields o.metadata))
      ∷ []))
