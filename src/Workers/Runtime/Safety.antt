-- ===== src/Workers/Runtime/Safety.antt =====
-- What `process_next` and `process_action` guarantee for every control plane, executor and reading.
use velox_server.Prelude.{
  true, false, Option, none, some, List, [], ◌∷◌, ◌++◌, ◌≡◌, refl, ◌⊎◌, inl, inr, if◌then◌else◌,
  Bool-cases, ◌∙◌, All, ◌≢◌,
}
use velox_server.Prelude.Result.{ok}
use velox_server.Actions.{Uuid, Action}
use velox_server.ControlPlane.{get_state, enqueue}
use velox_server.ControlPlane.Queue
use velox_server.Workers.Runtime.{
  RuntimeConfig, Reading, WorkerState, WorkerProcessingResult, process_dequeued_action,
  process_front, process_next, process_found, process_action, is_held, unprocessed_result,
  held_result, processed_result, failure_for_result,
}
use velox_server.Workers.Runtime.Outcome.{
  execute_approved_lem, execution, observed, final_state, final_plane,
}
use velox_server.Workers.Runtime.Gate.{
  may_run, cleared, process_dequeued_action_runs, process_dequeued_action_waits, cleared_status,
}

-- The state with the claimed action taken off the queue.
abbrev pub claim : WorkerState → List Action → WorkerState
claim s q = record s { plane = record s.plane { queue = q } }

-- What becomes of one claimed action: it is executed, or it waits or is dropped.
pub record Executed (config : RuntimeConfig) (reading : Reading) (action : Action)
    (s s' : WorkerState) (r : WorkerProcessingResult) : Type 0 where
  pub permitted : may_run (get_state s.plane action.id) ≡ true
  pub processed : r.processed ≡ true
  pub state_returned :
      r.lifecycle_state
      ≡ some (final_state config reading action (cleared (get_state s.plane action.id) reading.now))
  pub status_returned : r.execution_status ≡ some (execution config reading action).status
  pub plane_after :
      s'.plane
      ≡ final_plane config reading action
          (cleared (get_state s.plane action.id) reading.now)
          s.plane
  pub observed_once : s'.observations ≡ s.observations ++ observed config reading action ∷ []

pub record Waited (action : Action) (s s' : WorkerState) (r : WorkerProcessingResult) : Type 0 where
  pub not_permitted : may_run (get_state s.plane action.id) ≡ false
  pub not_processed : r.processed ≡ false
  pub after : s' ≡ (
      if is_held (get_state s.plane action.id)
      then record s { plane = enqueue s.plane action }
      else s)

module _ (config : RuntimeConfig) (reading : Reading) where
  pub process_dequeued_action_cases :
      (action : Action) (s : WorkerState)
      → (r : WorkerProcessingResult) × (s' : WorkerState) × (process_dequeued_action config reading
            action s
          ≡ (ok r, s'))
        × (Executed config reading action s s' r ⊎ Waited action s s' r)
  process_dequeued_action_cases action s =
      elim (Bool-cases (may_run (get_state s.plane action.id))) [
        | inl runs ↦
            let state = cleared (get_state s.plane action.id) reading.now in
            (
              processed_result (execution config reading action)
                  (final_state config reading action state) (observed config reading action)
                  (failure_for_result (execution config reading action)),
              record s {
                plane = final_plane config reading action state s.plane;
                observations = s.observations ++ observed config reading action ∷ [];
              },
              process_dequeued_action_runs config reading action s runs
                  ∙ execute_approved_lem config reading action state s
                      (cleared_status config reading action s (get_state s.plane action.id) runs),
              inl (record {
                permitted = runs;
                processed = unfold processed_result in refl;
                state_returned = unfold processed_result in refl;
                status_returned = unfold processed_result in refl;
                plane_after = refl;
                observed_once = refl;
              }),
            )
        | inr waits ↦
            let (r, idle, e) = process_dequeued_action_waits config reading action s waits in
            (r, _, e, inr (record { not_permitted = waits; not_processed = idle; after = refl }))
      ]

  -- The two outcomes of `process_next`: the queue is empty, or its first action is claimed.
  abbrev pub Next : WorkerState → WorkerState → WorkerProcessingResult → Type 0
  Next s s' r =
      ((s.queue ≡ []) × (r.processed ≡ false) × (s' ≡ s))
      ⊎ ((action : Action) × (q : List Action) × (s.queue ≡ action ∷ q)
          × (Executed config reading action (claim s q) s' r ⊎ Waited action (claim s q) s' r))

  -- `process_next` never raises. On an empty queue it does nothing. Otherwise it claims the first
  -- action. An action whose lifecycle is approved, or queued without a need for approval, or unknown
  -- is executed; any other waits or is dropped.
  pub process_next_cases :
      (s : WorkerState)
      → (r : WorkerProcessingResult) × (s' : WorkerState) × (process_next config reading s
          ≡ (ok r, s'))
        × Next s s' r
  unfolding process_next
  process_next_cases s = by_queue s.queue refl
    where
      by_queue :
          (q : List Action)
          → s.queue ≡ q
          → (r : WorkerProcessingResult) × (s' : WorkerState) × (process_front config reading
                (Queue.dequeue q)
                s
              ≡ (ok r, s'))
            × Next s s' r
      by_queue [] e = (
        unprocessed_result none,
        s,
        unfold Queue.dequeue in refl,
        inl (e, unfold unprocessed_result in refl, refl),
      )
      by_queue (action ∷ q) e =
          let (r, s', run, cases) = process_dequeued_action_cases action (claim s q) in
          (r, s', unfold Queue.dequeue in run, inr (action, q, e, cases))

  -- `process_action` on the queue that `find` sees the action in.
  process_found_cases :
      (i : Uuid) (s : WorkerState) (action : Action)
      → Queue.find s.queue i ≡ some action
      → is_held (get_state s.plane action.id) ≡ false
      → (r : WorkerProcessingResult) × (s' : WorkerState) × (process_found config reading i
            (some action)
            s
          ≡ (ok r, s'))
        × (before after : List Action) × (s.queue ≡ before ++ action ∷ after)
        × (action.id ≡ i)
        × All (λ b. b.id ≢ i) before
        × (Executed config reading action (claim s (before ++ after)) s' r
            ⊎ Waited action (claim s (before ++ after)) s' r)
  unfolding process_found
  process_found_cases i s action found free =
      let (before, after, split, taken, distinct, same) = Queue.remove_splits s.queue i found in
      let (r, s', run, cases) = process_dequeued_action_cases action (claim s (before ++ after)) in
      (r, s', rw free (rw taken run), before, after, split, same, distinct, cases)

  -- The three outcomes of `process_action`: the action is not queued, it awaits approval, or the
  -- first action with the id is claimed from its place.
  abbrev pub Targeted : Uuid → WorkerState → WorkerState → WorkerProcessingResult → Type 0
  Targeted i s s' r =
      ((Queue.find s.queue i ≡ none) × (r.processed ≡ false) × (s' ≡ s))
      ⊎ (((action : Action) × (Queue.find s.queue i ≡ some action)
            × (is_held (get_state s.plane action.id) ≡ true)
            × (r.processed ≡ false)
            × (s' ≡ s))
          ⊎ ((action : Action) × (before after : List Action) × (s.queue ≡ before ++ action ∷ after)
              × (action.id ≡ i)
              × All (λ b. b.id ≢ i) before
              × (Executed config reading action (claim s (before ++ after)) s' r
                  ⊎ Waited action (claim s (before ++ after)) s' r)))

  process_found-Targeted :
      (i : Uuid) (s : WorkerState) (found : Option Action)
      → Queue.find s.queue i ≡ found
      → (r : WorkerProcessingResult) × (s' : WorkerState) × (process_found config reading i found s
          ≡ (ok r, s'))
        × Targeted i s s' r
  unfolding process_found unprocessed_result held_result
  process_found-Targeted i s none e =
      (unprocessed_result (some "action is not queued"), s, refl, inl (e, refl, refl))
  process_found-Targeted i s (some action) e =
      elim (Bool-cases (is_held (get_state s.plane action.id))) [
        | inl held ↦ (
          held_result action (get_state s.plane action.id) "action awaits explicit approval",
          s,
          rw held refl,
          inr (inl (action, e, held, refl, refl)),
        )
        | inr free ↦
            let (r, s', run, before, after, split, same, distinct, cases) =
              process_found_cases i s action e free in
            (r, s', run, inr (inr (action, before, after, split, same, distinct, cases)))
      ]

  -- `process_action` never raises, and touches nothing but its action: it does nothing if the action
  -- is not queued or awaits approval, and else claims the first action with the id, leaves every
  -- other action at its place in the queue, and executes or drops the claimed one as `process_next`
  -- does.
  pub process_action_cases :
      (i : Uuid) (s : WorkerState)
      → (r : WorkerProcessingResult) × (s' : WorkerState) × (process_action config reading i s
          ≡ (ok r, s'))
        × Targeted i s s' r
  unfolding process_action
  process_action_cases i s = process_found-Targeted i s (Queue.find s.queue i) refl
