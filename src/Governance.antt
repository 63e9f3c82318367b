-- ===== src/Governance.antt =====
-- The governed path of an action, over the parts of one assembled server: an operator's or an
-- application's calls, each one step on the shared control plane. The tail of
-- `EventWorkflow.process` (core/events/workflow.py) is the step that plans.
pub mod Invariant
pub mod Planning
pub mod Working
pub mod Resuming
pub mod Trace
use velox_server.Prelude.{
  Option, String, Bool, true, List, [], ◌∷◌, ◌++◌, map, any, nat_eq, ◌==◌, ◌≡◌,
}
use velox_server.Prelude.Result.{Result, ok, err}
use velox_server.Actions.{Uuid, Instant, Action}
use velox_server.Lifecycle.{ActionLifecycleState, TransitionError}
use velox_server.ControlPlane.{ControlPlane}
use velox_server.ControlPlane.Queue
use velox_server.Permission.{PermissionEvaluation, EngineOutcome, evaluate, queueable_actions}
use velox_server.Approval.{
  ApprovalError, ApprovalHooks, approve_pending_action, reject_pending_action,
}
use velox_server.Delegation.{
  TaskDelegationRequest, TaskDelegationStatus, task_queued, TaskDelegationResult, DelegationError,
  delegate,
}
use velox_server.Events.Workflow.{queue_evaluated}
use velox_server.Workers.Runtime.{
  RuntimeConfig, Reading, WorkerState, WorkerProcessingResult, process_next, process_action,
}
use velox_server.Engineering.{RunRepository}
use velox_server.Engineering.Control.{Inspector}
use velox_server.Engineering.Recovery
use velox_server.Engineering.Recovery.{RecoveryError}
use velox_server.Engineering.Continuation
use velox_server.Engineering.Continuation.{
  ContinuationError, WorkerError, transition_error, Runtime,
}

-- The parts of the assembled server that never change. What the recovery, the recorder and the run
-- repository answer may differ from call to call, so they depend on the time of the call.
pub record Server : Type 0 where
  pub engine : Action → Instant → EngineOutcome
  pub hooks : Instant → ApprovalHooks
  pub config : RuntimeConfig
  pub repository : Instant → RunRepository (Unit {0})
  pub reviewer : Option Inspector

-- The calls that reach the control plane. `resume` is that of the continuation service, which runs
-- a durably approved software-engineering action on the same queue, lifecycle states and worker.
pub data Call : Type 0 where
  plan : List Action → Instant → Call
  delegate_task : TaskDelegationRequest → Uuid → Instant → Call
  approve : Uuid → Instant → Call
  reject : Uuid → String → Instant → Call
  work : Reading → Call
  work_on : Uuid → Reading → Call
  resume : Uuid → Uuid → Instant → Reading → Call

-- The worker's state, and for the statements a log of the ids that the permission engine allowed, an
-- operator approved, or a durable claim in the run repository covers. No operation reads the log.
pub record System : Type 0 where
  pub worker : WorkerState
  pub open worker use *
  pub granted : List Uuid

allowed_ids : Result TransitionError (List PermissionEvaluation) → List Uuid
allowed_ids (ok evaluations) = map (λ a. a.id) (queueable_actions evaluations)
allowed_ids (err e) = []

queued_ids : Uuid → TaskDelegationStatus → List Uuid
queued_ids i task_queued = i ∷ []
queued_ids i _ = []

delegated_ids : Uuid → Result DelegationError TaskDelegationResult → List Uuid
unfolding queued_ids
delegated_ids i (ok r) = queued_ids i r.status
delegated_ids i (err e) = []

approved_ids : Uuid → Result ApprovalError ActionLifecycleState → List Uuid
approved_ids i (ok state) = i ∷ []
approved_ids i (err e) = []

-- The id of a continuation that passed its checks and got the durable claim.
resumed_ids : Uuid → Result ContinuationError (Unit {0}) → Result RecoveryError Action → List Uuid
resumed_ids i (ok u) (ok a) = i ∷ []
resumed_ids i _ _ = []

unfoldable pub from_worker :
    Result TransitionError WorkerProcessingResult × WorkerState
    → Result WorkerError WorkerProcessingResult × (WorkerState × Unit {0})
from_worker (ok r, w) = (ok r, (w, tt))
from_worker (err e, w) = (err (transition_error e), (w, tt))

-- The worker runtime as the continuation service is given it.
unfoldable pub worker_runtime : RuntimeConfig → Reading → Runtime (Unit {0})
unfolding from_worker
worker_runtime config reading i (w, u) = from_worker (process_action config reading i w)

unfoldable pub with_plane : System → ControlPlane → List Uuid → System
with_plane s c ids = record { worker = record s.worker { plane = c }; granted = ids ++ s.granted }

unfoldable pub with_worker : System → WorkerState → System
with_worker s w = record { worker = w; granted = s.granted }

unfoldable pub step : Server → Call → System → System
unfolding queue_evaluated allowed_ids delegated_ids approved_ids resumed_ids worker_runtime
    with_plane with_worker
step server (plan actions now) s =
    let (evaluations, c) = evaluate server.engine actions now s.plane in
    with_plane s (queue_evaluated evaluations c) (allowed_ids evaluations)
step server (delegate_task q i now) s =
    let (r, c) =
      delegate server.engine server.config.casefold server.config.registry q i now s.plane in
    with_plane s c (delegated_ids i r)
step server (approve i now) s =
    let (r, c) = approve_pending_action (server.hooks now) i now s.plane in
    with_plane s c (approved_ids i r)
step server (reject i reason now) s =
    with_plane s (reject_pending_action (server.hooks now) i reason now s.plane).1 []
step server (work reading) s = with_worker s (process_next server.config reading s.worker).1
step server (work_on i reading) s =
    with_worker s (process_action server.config reading i s.worker).1
step server (resume i claim_id now reading) s =
    let runtime = worker_runtime server.config reading in
    let repository = server.repository now in
    let (r, (w, u)) =
      Continuation.execute runtime repository server.reviewer i claim_id now (s.worker, tt) in
    record {
      worker = w;
      granted =
          resumed_ids i (Continuation.check runtime repository server.reviewer i s.worker)
            (Recovery.claim repository i claim_id now tt).0
          ++ s.granted;
    }

-- The calls of a list, in order.
unfoldable pub run : Server → List Call → System → System
unfolding step
run server [] s = s
run server (call ∷ calls) s = run server calls (step server call s)

-- The freshly started server.
abbrev pub started : System
started = record {
  worker = record {
    plane = record { queue = []; lifecycle = []; pending = [] };
    observations = [];
  };
  granted = [];
}

abbrev pub Granted : List Uuid → Uuid → Type 0
Granted ids i = any (λ j. j == i) ids ≡ true
