-- ===== src/Lifecycle/Transitions.antt =====
-- What `transition` guarantees, as a step relation on statuses and laws of the resulting state.
use velox_server.Prelude.{
  String, ◌≡◌, refl, ◌⊎◌, inl, inr, true, false, not, ◌&&◌, Option, arith, is_none,
}
use velox_server.Prelude.Result.{ok}
use velox_server.Actions.{Instant}
use velox_server.Lifecycle.{
  ActionStatus, planned, queued, approved, rejected, executing, completed, skipped, failed,
  LifecycleMetadata, ActionLifecycleState, valid_transition, takes_reason, transition, merge,
  normalize_blank_reason,
}

-- The documented life of an action.
infix 40 ◌⟶◌ ◌⟶*◌
pub data ◌⟶◌ : ActionStatus → ActionStatus → Type 0 where
  enqueue : planned ⟶ queued
  approve : queued ⟶ approved
  reject : queued ⟶ rejected
  start : approved ⟶ executing
  complete : executing ⟶ completed
  skip : executing ⟶ skipped
  fail : executing ⟶ failed
  requeue : failed ⟶ queued

pub data ◌⟶*◌ : ActionStatus → ActionStatus → Type 0 where
  here : {s : ActionStatus} → s ⟶* s
  then : {s t u : ActionStatus} → s ⟶ t → t ⟶* u → s ⟶* u

ruleset edges = (enqueue, approve, reject, start, complete, skip, fail, requeue)

abbrev pub IsTerminal : ActionStatus → Type 0
IsTerminal s = (s ≡ completed) ⊎ ((s ≡ skipped) ⊎ (s ≡ rejected))

-- A status that may have a reason.
abbrev pub Explained : ActionStatus → Type 0
Explained t = (t ≡ failed) ⊎ ((t ≡ rejected) ⊎ (t ≡ skipped))

edge_is_valid : {s t : ActionStatus} → s ⟶ t → valid_transition s t ≡ true
unfolding valid_transition
edge_is_valid enqueue = refl
edge_is_valid approve = refl
edge_is_valid reject = refl
edge_is_valid start = refl
edge_is_valid complete = refl
edge_is_valid skip = refl
edge_is_valid fail = refl
edge_is_valid requeue = refl

reason_is_taken :
    (reason : Option String) (t : ActionStatus)
    → (is_none reason ≡ true) ⊎ Explained t
    → (not (is_none reason) && not (takes_reason t)) ≡ false
unfolding takes_reason
reason_is_taken reason t (inl h) = rw h refl
reason_is_taken reason t (inr (inl h)) = rw h (ground arith)
reason_is_taken reason t (inr (inr (inl h))) = rw h (ground arith)
reason_is_taken reason t (inr (inr (inr h))) = rw h (ground arith)

module _ (s : ActionLifecycleState) (t : ActionStatus) (reason : Option String)
    (m : LifecycleMetadata) (now : Instant) where
  -- The manager accepts every move along an edge of the life of an action, given no reason or a
  -- move to FAILED, REJECTED or SKIPPED.
  pub transition_accepts :
      (s.status ⟶ t)
      → (is_none reason ≡ true) ⊎ Explained t
      → (u : ActionLifecycleState) × (transition s t reason m now ≡ ok u)
  unfolding transition
  transition_accepts edge r = (
    record {
      status = t;
      created_at = s.created_at;
      updated_at = now;
      reason = normalize_blank_reason reason;
      metadata = merge s.metadata m;
    },
    rw (edge_is_valid edge) (rw (reason_is_taken reason t r) refl),
  )

  -- A transition that the manager accepts moves along an edge of the life of an action, stamps the
  -- time, keeps the creation time and merges the metadata. The new state has no reason, or its
  -- status takes one.
  pub transition_result :
      {u : ActionLifecycleState}
      → transition s t reason m now ≡ ok u
      → (s.status ⟶ t)
        × (u.status ≡ t)
        × (u.created_at ≡ s.created_at)
        × (u.updated_at ≡ now)
        × (u.metadata ≡ merge s.metadata m)
        × ((is_none u.reason ≡ true) ⊎ (takes_reason t ≡ true))
  unfolding transition
  transition_result h = grind (arith, edges)

-- A terminal status has no way out.
pub IsTerminal-stuck : {s t : ActionStatus} → s ⟶* t → IsTerminal s → t ≡ s
IsTerminal-stuck here h = refl
IsTerminal-stuck (then enqueue r) h = ground arith
IsTerminal-stuck (then approve r) h = ground arith
IsTerminal-stuck (then reject r) h = ground arith
IsTerminal-stuck (then start r) h = ground arith
IsTerminal-stuck (then complete r) h = ground arith
IsTerminal-stuck (then skip r) h = ground arith
IsTerminal-stuck (then fail r) h = ground arith
IsTerminal-stuck (then requeue r) h = ground arith
