-- ===== src/Events/Workflow/Inbox.antt =====
-- The inbox holds exactly the stored events that are not processed, in the order of acceptance.
use velox_server.Prelude.{
  true, false, Option, none, some, or_else, nat_eq, List, ◌≡◌, refl, arith, String,
}
use velox_server.Prelude.Result.{Result, ok, err}
use velox_server.Prelude.Dict
use velox_server.Prelude.Dict.{Dict}
use velox_server.Actions.{Uuid, Instant, Action}
use velox_server.Events.{
  UniversalEvent, EventLifecycleState, new_event_state, pending, processing, processed, failed,
  EventTransitionError, invalid_event_transition, event_transition, get_event,
}
use velox_server.Events.Pipeline.{ProcessedEvent, IntegrationRouteContext}
use velox_server.Events.Workflow.{
  WorkflowState, EventServices, lifecycle_conflict, accept, process, run_pipeline, plan_and_queue,
  set_event_state,
}
use velox_server.Events.Workflow.Waiting.{
  is_done, Consistent, get_event-All, Distinct-append, set_open, set_done, starts, fails, completes,
  conflicts, new_waits, ended,
}

-- Accepting an event keeps the inbox in step with the lifecycle: the stored events have distinct
-- ids, and the inbox holds those that are not processed, in the order of acceptance.
pub accept-Consistent :
    (event : UniversalEvent) (now : Instant) (s : WorkflowState)
    → Consistent s
    → Consistent (accept event now s).1
unfolding accept event_transition set_event_state
accept-Consistent event now s h = by_event (get_event s.events event.id) refl
  where
    by_event :
        (found : Option UniversalEvent)
        → get_event s.events event.id ≡ found
        → Consistent (accept event now s).1
    by_event (some known) e = rw (e, accept) h
    by_event none e =
        let fresh = get_event-All s.events event.id e in
        let state = new_event_state event.id pending now in
        rw (e, accept)
          (record {
            distinct = Distinct-append s.events event h.distinct fresh;
            waiting = new_waits s.states state event s.events fresh refl h.waiting;
          })

plan_and_queue-Consistent :
    (services : EventServices) (p : ProcessedEvent) (now : Instant) (s : WorkflowState)
    → Consistent s
    → Consistent (plan_and_queue services p now s).1
unfolding plan_and_queue
plan_and_queue-Consistent services p now s h = by_plan (services.planner p now) refl
  where
    by_plan :
        (planned : Result String (List Action))
        → services.planner p now ≡ planned
        → Consistent (plan_and_queue services p now s).1
    by_plan (err message) e = rw (e, plan_and_queue) h
    by_plan (ok actions) e =
        rw (e, plan_and_queue) (record { distinct = h.distinct; waiting = h.waiting })

run_pipeline-Consistent :
    (services : EventServices) (event : UniversalEvent) (route : Option IntegrationRouteContext)
    (i : Uuid) (running : EventLifecycleState) (now : Instant) (s : WorkflowState)
    → running.status ≡ processing
    → is_done (Dict.get s.states i) ≡ false
    → Consistent s
    → Consistent (run_pipeline services event route i running now s).1
unfolding run_pipeline
run_pipeline-Consistent services event route i running now s is was h =
    by_outcome (services.pipeline event route) refl
  where
    by_outcome :
        (outcome : Result String ProcessedEvent)
        → services.pipeline event route ≡ outcome
        → Consistent (run_pipeline services event route i running now s).1
    by_outcome (err message) e =
        rw (e, run_pipeline)
          (rw (fails running message now is)
            (set_open s i (ended running failed (some message) now) refl was h))
    by_outcome (ok p) e =
        rw (e, run_pipeline)
          (rw (completes running now is) (
            plan_and_queue-Consistent services p now _
              (set_done s i (ended running processed none now) refl was h)))

-- Processing an event keeps the inbox in step with the lifecycle, whatever the pipeline, the planner
-- and the permission engine do: the event leaves the inbox when it is processed, and stays when its
-- processing failed or was refused.
pub process-Consistent :
    (services : EventServices) (i : Uuid) (route : Option IntegrationRouteContext) (now : Instant)
    (s : WorkflowState)
    → Consistent s
    → Consistent (process services i route now s).1
unfolding process set_event_state
process-Consistent services i route now s h = by_event (get_event s.events i) refl
  where
    by_start :
        (event : UniversalEvent)
        → get_event s.events i ≡ some event
        → (start : Result EventTransitionError EventLifecycleState)
        → event_transition
            (or_else (Dict.get s.states i) (new_event_state i pending now))
            processing
            none
            now
          ≡ start
        → Consistent (process services i route now s).1
    by_start event e (err why) t = rw (e, process) (rw t h)
    by_start event e (ok running) t =
        let (was, is) = starts i now (Dict.get s.states i) t in
        let unfinished : is_done (some running) ≡ false = ground arith in
        rw (e, process)
          (rw t (
            run_pipeline-Consistent services event route i running now (set_event_state s i running)
              is (rw (Dict.get-put_self s.states i running) unfinished)
              (set_open s i running unfinished was h)))

    by_event :
        (found : Option UniversalEvent)
        → get_event s.events i ≡ found
        → Consistent (process services i route now s).1
    by_event none e = rw (e, process) h
    by_event (some event) e = by_start event e _ refl

-- An event that is processed is never processed again, whatever the services: the call raises a
-- lifecycle conflict and changes nothing.
pub processed_is_final :
    (services : EventServices) (i : Uuid) (route : Option IntegrationRouteContext) (now : Instant)
    (s : WorkflowState) {event : UniversalEvent}
    → get_event s.events i ≡ some event
    → is_done (Dict.get s.states i) ≡ true
    → process services i route now s
      ≡ (err (lifecycle_conflict (invalid_event_transition processed processing)), s)
unfolding process
processed_is_final services i route now s e done =
    rw (e, process) (rw (conflicts i now (Dict.get s.states i) done) refl)
