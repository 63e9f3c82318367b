-- ===== src/Examples/Ingress.antt =====
-- The theorems on delegation and on the event workflow at concrete inputs.
use velox_server.Events.Pipeline.{plan_event, process_event}
use velox_server.Prelude.Text.{contains, is_blank}
use velox_server.Prelude.Dict
use velox_server.Prelude.{◌≡◌, refl, some, none, true, [], ◌∷◌, length, nat_eq}
use velox_server.Prelude.Result.{ok, err}
use velox_server.ControlPlane.{ControlPlane, set_state}
use velox_server.ControlPlane.Queue
use velox_server.ControlPlane.Queue.{remove_splits}
use velox_server.Permission.{evaluate_action, queueable_actions, evaluate, base_engine}
use velox_server.Workers.Resolve.{capability_for_action, account_context_for_action}
use velox_server.Delegation.{TaskDelegationResult, delegate, check_request, action_for}
use velox_server.Delegation.Governed.{Delegated, delegate_cases, delegated_request}
use velox_server.Workers.Registry.{normalize_account_context}
use velox_server.Actions.{Uuid}
use velox_server.Events.{
  event_transition, EventLifecycleState, pending, processed, processing, get_event,
  invalid_event_transition,
}
use velox_server.Events.Workflow.{queue_evaluated, accept, process, lifecycle_conflict}
use velox_server.Events.Workflow.Waiting.{Consistent, is_done}
use velox_server.Events.Workflow.Inbox.{accept-Consistent, process-Consistent, processed_is_final}
use velox_server.Examples.{
  pull_request, services, with_event, request, account_request, same_case, route_of_mail, reader,
  plane,
}

delegate_cases_example :
    (r : TaskDelegationResult) × (c' : ControlPlane) × (delegate base_engine same_case
        (route_of_mail reader)
        request
        9
        260
        plane
      ≡ (ok r, c'))
    × Delegated base_engine same_case (route_of_mail reader) request 9 260 plane r c'
delegate_cases_example =
    delegate_cases base_engine same_case (route_of_mail reader) request 9 260 plane

account_request_valid : check_request same_case account_request ≡ ok tt
unfolding check_request is_blank
account_request_valid = refl

delegated_request_example :
    ((capability_for_action same_case (action_for account_request 9 260)).value
      ≡ some account_request.capability)
    × ((account_context_for_action (action_for account_request 9 260)).account_context
        ≡ normalize_account_context account_request.account_context)
delegated_request_example = delegated_request same_case account_request 9 260 account_request_valid

waiting_event-Consistent : Consistent (with_event (pull_request ∷ []) pending)
unfolding Dict.get
waiting_event-Consistent = record { distinct = (tt, tt); waiting = refl }

accept-Consistent_example :
    Consistent
      (accept (record pull_request { id = 6 }) 99 (with_event (pull_request ∷ []) pending)).1
accept-Consistent_example =
    accept-Consistent (record pull_request { id = 6 }) 99 (with_event (pull_request ∷ []) pending)
      waiting_event-Consistent

process-Consistent_example :
    Consistent (process services 5 none 99 (with_event (pull_request ∷ []) pending)).1
process-Consistent_example =
    process-Consistent services 5 none 99 (with_event (pull_request ∷ []) pending)
      waiting_event-Consistent

stored_event : get_event (pull_request ∷ []) 5 ≡ some pull_request
unfolding get_event
stored_event = refl

event_done :
    is_done (Dict.get {K = Uuid} {V = EventLifecycleState} (with_event [] processed).states 5)
    ≡ true
unfolding Dict.get
event_done = refl

processed_is_final_example : process services 5 none 120 (with_event [] processed) ≡ (
  err (lifecycle_conflict (invalid_event_transition processed processing)),
  with_event [] processed,
)
processed_is_final_example =
    processed_is_final services 5 none 120 (with_event [] processed) {event = pull_request}
      stored_event event_done

-- The action that the default services plan for the event joins the queue.
event_queued :
    length (process services 5 none 99 (with_event (pull_request ∷ []) pending)).1.plane.queue ≡ 2
unfolding process get_event event_transition Dict.get queue_evaluated evaluate plan_event
    process_event contains evaluate_action base_engine Queue.enqueue_many queueable_actions
    Queue.enqueue set_state
event_queued = refl
