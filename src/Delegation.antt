-- ===== src/Delegation.antt =====
-- core/delegation.py: a typed task request becomes a routed, permission-gated action.
pub mod Governed
use velox_server.Prelude.{
  String, Bool, true, false, Option, none, some, ◌==◌, string_eq, not, List, [], ◌∷◌, if◌then◌else◌,
}
use velox_server.Prelude.Result.{Result, ok, err, raise_if, ◌>>=◌, ◌>>◌}
use velox_server.Prelude.Dict.{Dict}
use velox_server.Prelude.Text.{strip, is_blank}
use velox_server.Actions.{
  Uuid, Instant, Value, text, obj, field, end, Action, ExecutorRole, role_value, known_role,
}
use velox_server.Lifecycle.{TransitionError, PermissionStatus, allowed, requires_approval, denied}
use velox_server.ControlPlane.{ControlPlane, enqueue}
use velox_server.Permission.{EngineOutcome, PermissionEvaluation, evaluate}
use velox_server.Workers.Executor.{WorkerAccountContext, as_metadata}
use velox_server.Workers.Registry.{Registry}
use velox_server.Workers.Resolve.{RoutingReason, WorkerExecutorResolution, resolve}

-- TaskDelegationRequestError
pub data RequestError : Type 0 where
  objective_required target_required capability_required not_canonical : RequestError
  account_required principal_required : RequestError

pub data TaskDelegationStatus : Type 0 where
  task_queued awaiting_approval task_denied route_rejected : TaskDelegationStatus

pub record TaskDelegationRequest : Type 0 where
  pub objective : String
  pub target : String
  pub executor_role : ExecutorRole
  pub capability : String
  pub account_context : Option WorkerAccountContext

-- The principal of an account context, where there is one, is a text.
check_principal : Option String → Result RequestError (Unit {0})
check_principal none = ok tt
check_principal (some p) = raise_if (is_blank p) principal_required

check_account : Option WorkerAccountContext → Result RequestError (Unit {0})
unfolding check_principal
check_account none = ok tt
check_account (some c) =
    raise_if (is_blank c.account_identifier) account_required >> check_principal c.principal

-- TaskDelegationRequest.__post_init__
unfoldable pub check_request :
    (String → String) → TaskDelegationRequest → Result RequestError (Unit {0})
unfolding check_account
check_request casefold q = do
  raise_if (is_blank q.objective) objective_required
  raise_if (is_blank q.target) target_required
  raise_if (is_blank q.capability) capability_required
  raise_if (not (q.capability == casefold (strip q.capability))) not_canonical
  check_account q.account_context

pub record TaskDelegationResult : Type 0 where
  pub action_id : Uuid
  pub status : TaskDelegationStatus
  pub permission_status : Option PermissionStatus
  pub routing_reason : RoutingReason

account_entry : Option WorkerAccountContext → Dict String Value
account_entry none = []
account_entry (some c) = ("account_context", as_metadata c) ∷ []

-- ActionTaskDelegator._action_for; `id` and `now` are the defaults of a new action.
unfoldable pub action_for : TaskDelegationRequest → Uuid → Instant → Action
unfolding account_entry role_value
action_for q id now = record {
  id = id;
  type = q.capability;
  target = q.target;
  payload =
      ("capability", text q.capability)
      ∷ ("objective", text q.objective)
      ∷ account_entry q.account_context;
  executor_role = known_role q.executor_role;
  created_at = now;
  metadata =
      (
        "task_delegation",
        obj (
            field "requested_role" (text (role_value q.executor_role))
              (field "requested_capability" (text q.capability) end)),
      )
      ∷ [];
}

-- What `delegate` does after the permission evaluation.
unfoldable pub delegated_status : PermissionStatus → TaskDelegationStatus
delegated_status allowed = task_queued
delegated_status requires_approval = awaiting_approval
delegated_status denied = task_denied

unfoldable pub queue_allowed : PermissionStatus → Action → ControlPlane → ControlPlane
queue_allowed allowed a c = enqueue c a
queue_allowed _ a c = c

-- An empty list of evaluations has no first one, which is an IndexError.
pub data DelegationError : Type 0 where
  refused : TransitionError → DelegationError
  no_evaluation : DelegationError

settle_delegation :
    Action
    → RoutingReason
    → Result TransitionError (List PermissionEvaluation) × ControlPlane
    → Result DelegationError TaskDelegationResult × ControlPlane
unfolding delegated_status queue_allowed
settle_delegation a reason (err e, c) = (err (refused e), c)
settle_delegation a reason (ok [], c) = (err no_evaluation, c)
settle_delegation a reason (ok (evaluation ∷ more), c) = (
  ok (record {
    action_id = a.id;
    status = delegated_status evaluation.decision.status;
    permission_status = some evaluation.decision.status;
    routing_reason = reason;
  }),
  queue_allowed evaluation.decision.status evaluation.action c,
)

-- ActionTaskDelegator.delegate
unfoldable pub delegate :
    (Action → Instant → EngineOutcome)
    → (String → String)
    → Registry
    → TaskDelegationRequest
    → Uuid
    → Instant
    → ControlPlane
    → Result DelegationError TaskDelegationResult × ControlPlane
unfolding settle_delegation
delegate engine casefold registry q id now c =
    let action = action_for q id now in
    let resolution = resolve casefold registry action in
    if resolution.registered
    then settle_delegation action resolution.routing_reason (evaluate engine (action ∷ []) now c)
    else (
      ok (record {
        action_id = action.id;
        status = route_rejected;
        permission_status = none;
        routing_reason = resolution.routing_reason;
      }),
      c,
    )
