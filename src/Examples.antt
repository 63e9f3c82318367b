-- ===== src/Examples.antt =====
-- A small assembled server, and the theorems applied to it.
pub mod Witnesses
pub mod Ingress
pub mod Durable
pub mod Engineering
pub mod Calendar
pub mod Schema
pub mod Observer
use velox_server.Prelude.{nat_eq, String, List, none, some, [], ◌∷◌}
use velox_server.Actions.{Action, text_role, context_preparation}
use velox_server.Lifecycle.{
  ActionStatus, queued, approved, ActionLifecycleState, LifecycleMetadata, no_metadata,
}
use velox_server.ControlPlane.{ControlPlane}
use velox_server.Permission.{base_engine, approval_metadata}
use velox_server.Approval.{no_hooks}
use velox_server.Workers.Executor.{
  WorkerExecutor, WorkerCapability, succeeded, failed, transient, no_op_executor, returned,
}
use velox_server.Workers.Registry.{Registry, Registration, ProviderManifest, RouteKey}
use velox_server.Workers.Runtime.{RuntimeConfig, Reading, WorkerState}
use velox_server.Delegation.{TaskDelegationRequest}
use velox_server.Events.{UniversalEvent, EventStatus, new_event_state}
use velox_server.Events.Pipeline.{process_event, plan_event}
use velox_server.Events.Workflow.{EventServices, WorkflowState}
use velox_server.Prelude.Result.{ok}
use velox_server.Prelude.Dict
use velox_server.Runs.Memory
use velox_server.Runs.Memory.{Runs}
use velox_server.Engineering.{RunRepository}
use velox_server.Governance.{Server, Call, plan, delegate_task, approve, work, work_on}

-- Lower-case identifiers fold to themselves.
abbrev pub same_case : String → String
same_case s = s

abbrev pub mail : Action
mail = record {
  id = 7;
  type = "gmail.read";
  target = "inbox";
  payload = [];
  executor_role = text_role "context_preparation";
  created_at = 100;
  metadata = [];
}

abbrev pub deploy : Action
deploy = record mail { id = 8; type = "deploy"; target = "production" }

-- An executor that reads, and one whose backend is down.
abbrev pub reader : WorkerExecutor
reader now action capability context =
    returned
      (record { action = action; status = succeeded; reason = none; metadata = []; failure = none })

abbrev pub unreachable : WorkerExecutor
unreachable now action capability context = returned (record {
  action = action;
  status = failed;
  reason = some "timeout";
  metadata = [];
  failure = some (record { category = transient; message = none; metadata = [] });
})

abbrev pub gmail_read : WorkerCapability
gmail_read = record { identifier = "gmail.read"; role = "context_preparation"; provider = "gmail" }

abbrev pub gmail : ProviderManifest
gmail = record { capabilities = gmail_read ∷ []; executor = reader; account_context = none }

abbrev pub no_routes : Registry
no_routes = record { registrations = []; fallback_executor = no_op_executor }

abbrev pub route_of_mail : WorkerExecutor → Registry
route_of_mail executor = record no_routes {
  registrations =
      (
        record {
          role = "context_preparation";
          capability = "gmail.read";
          provider = "gmail";
          account = none;
        },
        record { capability = gmail_read; executor = executor; account_context = none },
      )
      ∷ [];
}

abbrev pub config_with : WorkerExecutor → RuntimeConfig
config_with executor = record {
  casefold = same_case;
  registry = route_of_mail executor;
  max_transient_retries = 1;
}

-- A run repository that answers each call as one that holds the given runs.
abbrev pub frozen : Runs → RunRepository (Unit {0})
frozen m = record {
  get = λ i u. ok (Dict.get m i);
  list_pending_approval = λ u. ok (Memory.list_pending_approval m);
  register_action = λ r now u. ((Memory.register_action r now m).0, tt);
  record_approval = λ i o at now u. ((Memory.record_approval i o at now m).0, tt);
  record_rejection = λ i at now u. ((Memory.record_rejection i at now m).0, tt);
  claim_approved = λ i c now u. ((Memory.claim_approved i c now m).0, tt);
  record_execution_started = λ i at now u. ((Memory.record_execution_started i at now m).0, tt);
  release_unstarted_claim = λ i e at u. ((Memory.release_unstarted_claim i e at m).0, tt);
  abandon_started_claim = λ i e at u. ((Memory.abandon_started_claim i e at m).0, tt);
  record_execution = λ i s at e now u. ((Memory.record_execution i s at e now m).0, tt);
  record_disposition = λ d now u. ((Memory.record_disposition d now m).0, tt);
  record_promotion = λ p now u. ((Memory.record_promotion p now m).0, tt);
}

abbrev pub server : Server
server = record {
  engine = base_engine;
  hooks = λ now. no_hooks;
  config = config_with reader;
  repository = λ now. frozen [];
  reviewer = none;
}

abbrev pub reading : Reading
reading = record { now = 200; execution_id = 31; duration = 4 }

-- The same by a delegation, for a named account.
abbrev pub request : TaskDelegationRequest
request = record {
  objective = "read the inbox";
  target = "inbox";
  executor_role = context_preparation;
  capability = "gmail.read";
  account_context = none;
}

abbrev pub account_request : TaskDelegationRequest
account_request = record request {
  account_context = some (record { principal = some "me"; account_identifier = " home " });
}

-- The mail is read at once; the deployment waits for the operator.
abbrev pub history : List Call
history =
    plan (mail ∷ deploy ∷ []) 150
    ∷ work reading
    ∷ work reading
    ∷ approve 8 250
    ∷ work_on 8 reading
    ∷ delegate_task request 9 260
    ∷ work reading
    ∷ []

abbrev pub state_in : ActionStatus → LifecycleMetadata → ActionLifecycleState
state_in status metadata = record {
  status = status;
  created_at = 150;
  updated_at = 150;
  reason = none;
  metadata = metadata;
}

-- The mail is approved and queued, and the deployment is held.
abbrev pub plane : ControlPlane
plane = record {
  queue = mail ∷ [];
  lifecycle = (7, state_in approved no_metadata) ∷ (8, state_in queued approval_metadata) ∷ [];
  pending = (8, deploy) ∷ [];
}

abbrev pub workers : WorkerState
workers = record { plane = plane; observations = [] }

-- A pull request event, and the default services with a fixed id for the planned action.
abbrev pub pull_request : UniversalEvent
pull_request = record {
  id = 5;
  source = "github";
  type = "pull_request.opened";
  timestamp = 90;
  payload = [];
  metadata = [];
  correlation_id = none;
  causation_id = none;
}

abbrev pub services : EventServices
services = record {
  pipeline = λ event route. ok (process_event same_case event route);
  planner = λ p now. ok (plan_event (λ u. "00000000-0000-0000-0000-000000000005") p 41 now);
  engine = base_engine;
}

-- The event has been accepted, with the given status.
abbrev pub with_event : List UniversalEvent → EventStatus → WorkflowState
with_event inbox status = record {
  events = pull_request ∷ [];
  inbox = inbox;
  states = (5, new_event_state 5 status 95) ∷ [];
  plane = plane;
}
