-- ===== src/Workers/Runtime/Gate.antt =====
-- The approval gate of `_process_dequeued_action`: which claimed actions are executed.
use velox_server.Prelude.{
  Bool, true, false, not, Option, none, some, or_else, ◌≡◌, refl, arith, if◌then◌else◌, ap, sym,
}
use velox_server.Prelude.Result.{ok}
use velox_server.Actions.{Instant, Action}
use velox_server.Lifecycle
use velox_server.Lifecycle.{
  ActionStatus, queued, approved, no_metadata, awaits_approval, ActionLifecycleState, new_state,
  TransitionError, transition,
}
use velox_server.ControlPlane.{get_state, enqueue}
use velox_server.Workers.Runtime.{
  RuntimeConfig, Reading, WorkerState, WorkerProcessingResult, execute_approved, run_approved,
  run_queued, run_status, process_dequeued_action, held_result, unapproved_result, is_held,
}

-- The lifecycle lets the action run: it is approved, or queued without a need for approval. An
-- action that the repository does not know counts as queued.
abbrev pub may_run : Option ActionLifecycleState → Bool
may_run none = true
may_run (some state) = elim state.status [
  | approved ↦ true
  | queued ↦ not (awaits_approval state.metadata)
  | _ ↦ false
]

-- The state in which an action that may run is executed.
abbrev pub cleared : Option ActionLifecycleState → Instant → ActionLifecycleState
cleared none now = record (new_state queued none no_metadata now) {
  status = approved;
  updated_at = now;
  reason = none;
}
cleared (some state) now = elim state.status [
  | queued ↦ record state { status = approved; updated_at = now; reason = none }
  | _ ↦ state
]

approve_queued :
    (state : ActionLifecycleState) (now : Instant)
    → state.status ≡ queued
    → transition state approved none no_metadata now
      ≡ ok (record state { status = approved; updated_at = now; reason = none })
unfolding transition
approve_queued state now h = ground arith

cleared-approved :
    (state : ActionLifecycleState) (now : Instant)
    → state.status ≡ approved
    → cleared (some state) now ≡ state
cleared-approved state now h = ground arith

module _ (config : RuntimeConfig) (reading : Reading) (action : Action) (s : WorkerState) where
  run_status_runs :
      (state : ActionLifecycleState) (status : ActionStatus)
      → state.status ≡ status
      → may_run (some state) ≡ true
      → run_status config reading action state status s
        ≡ execute_approved config reading action (cleared (some state) reading.now) s
  unfolding run_status run_queued run_approved
  run_status_runs state queued h m =
      let open_gate : awaits_approval state.metadata ≡ false = ground arith in
      rw open_gate (rw (approve_queued state reading.now h) (rw h refl))
  run_status_runs state approved h m =
      ap (λ st. execute_approved config reading action st s)
        (sym (cleared-approved state reading.now h))
  run_status_runs state Lifecycle.planned h m = ground arith
  run_status_runs state Lifecycle.rejected h m = ground arith
  run_status_runs state Lifecycle.executing h m = ground arith
  run_status_runs state Lifecycle.completed h m = ground arith
  run_status_runs state Lifecycle.skipped h m = ground arith
  run_status_runs state Lifecycle.failed h m = ground arith

  run_status_waits :
      (state : ActionLifecycleState) (status : ActionStatus)
      → state.status ≡ status
      → may_run (some state) ≡ false
      → (r : WorkerProcessingResult) × (r.processed ≡ false)
        × (run_status config reading action state status s ≡ (
          ok r,
          if is_held (some state) then record s { plane = enqueue s.plane action } else s,
        ))
  unfolding run_status run_queued run_approved is_held
  run_status_waits state queued h m =
      let shut_gate : awaits_approval state.metadata ≡ true = ground arith in
      (
        held_result action (some state) "action awaits explicit approval",
        unfold held_result in refl,
        rw shut_gate (rw h (rw shut_gate refl)),
      )
  run_status_waits state approved h m = cc
  run_status_waits state Lifecycle.planned h m =
      (unapproved_result action state, unfold unapproved_result in refl, rw h refl)
  run_status_waits state Lifecycle.rejected h m =
      (unapproved_result action state, unfold unapproved_result in refl, rw h refl)
  run_status_waits state Lifecycle.executing h m =
      (unapproved_result action state, unfold unapproved_result in refl, rw h refl)
  run_status_waits state Lifecycle.completed h m =
      (unapproved_result action state, unfold unapproved_result in refl, rw h refl)
  run_status_waits state Lifecycle.skipped h m =
      (unapproved_result action state, unfold unapproved_result in refl, rw h refl)
  run_status_waits state Lifecycle.failed h m =
      (unapproved_result action state, unfold unapproved_result in refl, rw h refl)

  -- An action that may run is executed.
  pub process_dequeued_action_runs :
      may_run (get_state s.plane action.id) ≡ true
      → process_dequeued_action config reading action s
        ≡ execute_approved config reading action
            (cleared (get_state s.plane action.id) reading.now)
            s
  unfolding process_dequeued_action new_state awaits_approval
  process_dequeued_action_runs = by_state (get_state s.plane action.id) refl
    where
      by_state :
          (found : Option ActionLifecycleState)
          → get_state s.plane action.id ≡ found
          → may_run found ≡ true
          → run_status config reading action
              (or_else found (new_state queued none no_metadata reading.now))
              (or_else found (new_state queued none no_metadata reading.now)).status
              s
            ≡ execute_approved config reading action (cleared found reading.now) s
      by_state none e m =
          run_status_runs (new_state queued none no_metadata reading.now) queued refl refl
      by_state (some state) e m = run_status_runs state state.status refl m

  -- An action that may not run is not executed: it goes back to the queue while it awaits
  -- approval, and is dropped in any other state. Nothing else changes.
  pub process_dequeued_action_waits :
      may_run (get_state s.plane action.id) ≡ false
      → (r : WorkerProcessingResult) × (r.processed ≡ false)
        × (process_dequeued_action config reading action s ≡ (
          ok r,
          if is_held (get_state s.plane action.id)
              then record s { plane = enqueue s.plane action }
              else s,
        ))
  unfolding process_dequeued_action
  process_dequeued_action_waits = by_state (get_state s.plane action.id)
    where
      by_state :
          (found : Option ActionLifecycleState)
          → may_run found ≡ false
          → (r : WorkerProcessingResult) × (r.processed ≡ false)
            × (run_status config reading action
                  (or_else found (new_state queued none no_metadata reading.now))
                  (or_else found (new_state queued none no_metadata reading.now)).status
                  s
                ≡ (ok r, if is_held found then record s { plane = enqueue s.plane action } else s))
      by_state none m = cc
      by_state (some state) m = run_status_waits state state.status refl m

  pub cleared_status :
      (found : Option ActionLifecycleState)
      → may_run found ≡ true
      → (cleared found reading.now).status ≡ approved
  unfolding new_state
  cleared_status none m = refl
  cleared_status (some state) m = ground arith
