-- ===== src/Events/Workflow.antt =====
-- core/events/workflow.py: `EventWorkflowService` accepts and processes events.
pub mod Waiting
pub mod Inbox
use velox_server.Prelude.{String, Option, none, some, or_else, List, [], ◌∷◌, ◌++◌, nat_eq}
use velox_server.Prelude.Result.{Result, ok, err}
use velox_server.Prelude.Dict
use velox_server.Prelude.Dict.{Dict}
use velox_server.Actions.{Uuid, Instant, Action}
use velox_server.Lifecycle.{TransitionError}
use velox_server.ControlPlane.{ControlPlane}
use velox_server.ControlPlane.Queue
use velox_server.Permission.{EngineOutcome, PermissionEvaluation, evaluate, queueable_actions}
use velox_server.Events.{
  UniversalEvent, EventLifecycleState, new_event_state, accepted, pending, processing, processed,
  failed, EventTransitionError, event_transition, get_event, mark_processed,
}
use velox_server.Events.Pipeline.{ProcessedEvent, IntegrationRouteContext}

-- The store, the inbox, the lifecycle states and the shared control plane.
pub record WorkflowState : Type 0 where
  pub events : List UniversalEvent
  pub inbox : List UniversalEvent
  pub states : Dict Uuid EventLifecycleState
  pub plane : ControlPlane

-- The pipeline, the planner and the permission engine. The first two may raise, with a message.
pub record EventServices : Type 0 where
  pub pipeline : UniversalEvent → Option IntegrationRouteContext → Result String ProcessedEvent
  pub planner : ProcessedEvent → Instant → Result String (List Action)
  pub engine : Action → Instant → EngineOutcome

pub data WorkflowError : Type 0 where
  duplicate_event event_not_found : WorkflowError
  lifecycle_conflict : EventTransitionError → WorkflowError
  processing_failed : WorkflowError
  transition_refused : EventTransitionError → WorkflowError
  planner_raised : String → WorkflowError
  permission_raised : TransitionError → WorkflowError

pub record EventProcessingResult : Type 0 where
  pub processed_event : ProcessedEvent
  pub permission_evaluations : List PermissionEvaluation

unfoldable pub set_event_state : WorkflowState → Uuid → EventLifecycleState → WorkflowState
set_event_state s i state = record s { states = Dict.put s.states i state }

-- EventWorkflowService.accept
unfoldable pub accept :
    UniversalEvent → Instant → WorkflowState → Result WorkflowError UniversalEvent × WorkflowState
unfolding set_event_state
accept event now s = elim (get_event s.events event.id) [
  | some known ↦ (err duplicate_event, s)
  | none ↦
      let s = record s { events = s.events ++ event ∷ []; inbox = s.inbox ++ event ∷ [] } in
      elim (event_transition (new_event_state event.id accepted now) pending none now) [
        | err e ↦ (err (transition_refused e), s)
        | ok state ↦ (ok event, set_event_state s event.id state)
      ]
]

-- The queueable actions of an evaluation join the queue.
unfoldable pub queue_evaluated :
    Result TransitionError (List PermissionEvaluation) → ControlPlane → ControlPlane
queue_evaluated (ok evaluations) c = record c {
  queue = Queue.enqueue_many c.queue (queueable_actions evaluations);
}
queue_evaluated (err e) c = c

report :
    ProcessedEvent
    → Result TransitionError (List PermissionEvaluation)
    → Result WorkflowError EventProcessingResult
report p (ok evaluations) =
    ok (record { processed_event = p; permission_evaluations = evaluations })
report p (err e) = err (permission_raised e)

-- The last part of `process`: planning, permission and queueing.
plan_and_queue :
    EventServices
    → ProcessedEvent
    → Instant
    → WorkflowState
    → Result WorkflowError EventProcessingResult × WorkflowState
unfolding report
plan_and_queue services p now s = elim (services.planner p now) [
  | err message ↦ (err (planner_raised message), s)
  | ok actions ↦
      let (evaluations, c) = evaluate services.engine actions now s.plane in
      (report p evaluations, record s { plane = queue_evaluated evaluations c })
]

-- The middle part: the pipeline, and the lifecycle state that its outcome gives.
run_pipeline :
    EventServices
    → UniversalEvent
    → Option IntegrationRouteContext
    → Uuid
    → EventLifecycleState
    → Instant
    → WorkflowState
    → Result WorkflowError EventProcessingResult × WorkflowState
unfolding set_event_state plan_and_queue
run_pipeline services event route i state now s = elim (services.pipeline event route) [
  | err message ↦ elim (event_transition state failed (some message) now) [
    | err e ↦ (err (transition_refused e), s)
    | ok after ↦ (err processing_failed, set_event_state s i after)
  ]
  | ok p ↦ elim (event_transition state processed none now) [
    | err e ↦ (err (transition_refused e), s)
    | ok after ↦
        let s = set_event_state s i after in
        plan_and_queue services p now (record s { inbox = mark_processed s.inbox i })
  ]
]

-- EventWorkflowService.process
unfoldable pub process :
    EventServices
    → Uuid
    → Option IntegrationRouteContext
    → Instant
    → WorkflowState
    → Result WorkflowError EventProcessingResult × WorkflowState
unfolding run_pipeline set_event_state
process services i route now s = elim (get_event s.events i) [
  | none ↦ (err event_not_found, s)
  | some event ↦
      let state = or_else (Dict.get s.states i) (new_event_state i pending now) in
      elim (event_transition state processing none now) [
        | err e ↦ (err (lifecycle_conflict e), s)
        | ok running ↦ run_pipeline services event route i running now (set_event_state s i running)
      ]
]
