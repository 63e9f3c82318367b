-- ===== src/Permission/Evaluation.antt =====
-- What the permission runtime does with each planned action.
use velox_server.Prelude.{
  String, Option, none, some, List, [], ◌∷◌, ◌≡◌, refl, arith, string_eq, nat_eq, map,
}
use velox_server.Prelude.Result.{ok}
use velox_server.Prelude.Dict
use velox_server.Actions.{Uuid, Instant, Action}
use velox_server.Lifecycle.{
  ActionLifecycleState, no_metadata, queued, approved, rejected, PermissionStatus, allowed,
  requires_approval, denied, normalize_blank_reason,
}
use velox_server.ControlPlane.{
  ControlPlane, get_state, set_state, get_pending, add_pending, get_state-set_state,
}
use velox_server.Permission.{
  PermissionDecision, PermissionEvaluation, EngineOutcome, approval_metadata, resolve_decision,
  state_for, resolve_lifecycle_state, apply_permission_metadata, hold, evaluate_action, evaluate,
  queueable_actions, is_allowed,
}

-- The lifecycle state that a decision gives an action.
unfoldable pub evaluated : PermissionStatus → Option String → Instant → ActionLifecycleState
evaluated allowed reason now = record {
  status = approved;
  created_at = now;
  updated_at = now;
  reason = none;
  metadata = no_metadata;
}
evaluated requires_approval reason now = record {
  status = queued;
  created_at = now;
  updated_at = now;
  reason = none;
  metadata = approval_metadata;
}
evaluated denied reason now = record {
  status = rejected;
  created_at = now;
  updated_at = now;
  reason = normalize_blank_reason reason;
  metadata = record no_metadata { permission_status = some denied };
}

unfoldable pub evaluated_state : PermissionDecision → Instant → ActionLifecycleState
unfolding evaluated
evaluated_state decision now = evaluated decision.status decision.reason now

state_for_lem :
    (status : PermissionStatus) (decision : PermissionDecision) (now : Instant)
    → decision.status ≡ status
    → state_for status decision now ≡ ok (evaluated status decision.reason now)
unfolding state_for evaluated
state_for_lem allowed decision now h = refl
state_for_lem requires_approval decision now h = refl
state_for_lem denied decision now h = rw h refl

resolve_lifecycle_state_lem :
    (decision : PermissionDecision) (now : Instant)
    → resolve_lifecycle_state decision now ≡ ok (evaluated_state decision now)
unfolding resolve_lifecycle_state evaluated_state
resolve_lifecycle_state_lem decision now = state_for_lem decision.status decision now refl

hold-get_state :
    (status : PermissionStatus) (c : ControlPlane) (a : Action) (i : Uuid)
    → get_state (hold status c a) i ≡ get_state c i
unfolding hold get_state add_pending
hold-get_state allowed c a i = refl
hold-get_state requires_approval c a i = refl
hold-get_state denied c a i = refl

hold_passes :
    (status : PermissionStatus) (c : ControlPlane) (a : Action)
    → status ≡ allowed
    → hold status c a ≡ c
unfolding hold
hold_passes status c a h = rw h refl

hold_stops :
    (status : PermissionStatus) (c : ControlPlane) (a : Action)
    → status ≡ denied
    → hold status c a ≡ c
unfolding hold
hold_stops status c a h = rw h refl

hold_waits :
    (status : PermissionStatus) (c : ControlPlane) (a : Action)
    → status ≡ requires_approval
    → get_pending (hold status c a) a.id ≡ some a
unfolding hold get_pending add_pending
hold_waits status c a h = rw h (Dict.get-put_self c.pending a.id a)

module _ (engine : Action → Instant → EngineOutcome) (now : Instant) where
  abbrev pub decision_for : Action → PermissionDecision
  decision_for a = resolve_decision (engine a now) now

  abbrev pub evaluation_of : Action → PermissionEvaluation
  evaluation_of a = record {
    action = apply_permission_metadata a (decision_for a);
    decision = decision_for a;
  }

  -- The control plane after the evaluation of an action.
  abbrev pub evaluated_plane : Action → ControlPlane → ControlPlane
  evaluated_plane a c =
      hold (decision_for a).status (set_state c a.id (evaluated_state (decision_for a) now))
        (apply_permission_metadata a (decision_for a))

  -- Evaluating an action never raises. An allowed action is approved, one that requires approval is
  -- queued in its lifecycle and held in the registry, and any other is rejected.
  evaluate_action_lem :
      (a : Action) (c : ControlPlane)
      → evaluate_action engine a now c ≡ (ok (evaluation_of a), evaluated_plane a c)
  unfolding evaluate_action
  evaluate_action_lem a c =
      rw (resolve_lifecycle_state_lem (decision_for a) now, evaluate_action) refl

  abbrev pub evaluated_planes : List Action → ControlPlane → ControlPlane
  evaluated_planes [] c = c
  evaluated_planes (a ∷ more) c = evaluated_planes more (evaluated_plane a c)

  -- A list is evaluated in order, and the call never raises.
  pub evaluate_lem :
      (actions : List Action) (c : ControlPlane)
      → evaluate engine actions now c ≡ (ok (map evaluation_of actions), evaluated_planes actions c)
  unfolding evaluate
  evaluate_lem [] c = refl
  evaluate_lem (a ∷ more) c =
      rw (evaluate_action_lem a c) (rw (evaluate_lem more (evaluated_plane a c)) refl)

  -- The three ways in which an evaluated action can stand in the control plane.
  pub data Gated (a : Action) (c c' : ControlPlane) : Type 0 where
    passes :
        (decision_for a).status ≡ allowed
        → get_state c' a.id ≡ some (evaluated allowed (decision_for a).reason now)
        → c'.pending ≡ c.pending
        → queueable_actions (evaluation_of a ∷ [])
          ≡ apply_permission_metadata a (decision_for a) ∷ []
        → Gated a c c'
    waits :
        (decision_for a).status ≡ requires_approval
        → get_state c' a.id ≡ some (evaluated requires_approval (decision_for a).reason now)
        → get_pending c' a.id ≡ some (apply_permission_metadata a (decision_for a))
        → queueable_actions (evaluation_of a ∷ []) ≡ []
        → Gated a c c'
    stops :
        (decision_for a).status ≡ denied
        → get_state c' a.id ≡ some (evaluated denied (decision_for a).reason now)
        → c'.pending ≡ c.pending
        → queueable_actions (evaluation_of a ∷ []) ≡ []
        → Gated a c c'

  evaluated_state_lem :
      (a : Action) (c : ControlPlane) (status : PermissionStatus)
      → (decision_for a).status ≡ status
      → get_state (evaluated_plane a c) a.id ≡ some (evaluated status (decision_for a).reason now)
  unfolding evaluated_state
  evaluated_state_lem a c status h =
      rw
        (
          hold-get_state (decision_for a).status
              (set_state c a.id (evaluated_state (decision_for a) now))
              (apply_permission_metadata a (decision_for a)) a.id,
          get_state-set_state c a.id a.id (evaluated_state (decision_for a) now),
          h,
        )
        (ground arith)

  queueable : PermissionStatus → Action → List Action
  queueable allowed a = a ∷ []
  queueable requires_approval a = []
  queueable denied a = []

  queueable_lem :
      (a : Action) (status : PermissionStatus)
      → (decision_for a).status ≡ status
      → queueable_actions (evaluation_of a ∷ [])
        ≡ queueable status (apply_permission_metadata a (decision_for a))
  unfolding queueable_actions is_allowed queueable
  queueable_lem a allowed h = rw h refl
  queueable_lem a requires_approval h = rw h refl
  queueable_lem a denied h = rw h refl

  evaluated_plane-Gated :
      (a : Action) (c : ControlPlane) (status : PermissionStatus)
      → (decision_for a).status ≡ status
      → Gated a c (evaluated_plane a c)
  unfolding queueable set_state apply_permission_metadata
  evaluated_plane-Gated a c allowed h =
      passes h (evaluated_state_lem a c allowed h)
        (rw
          (hold_passes (decision_for a).status
            (set_state c a.id (evaluated_state (decision_for a) now))
            (apply_permission_metadata a (decision_for a)) h)
          refl)
        (queueable_lem a allowed h)
  evaluated_plane-Gated a c requires_approval h =
      waits h (evaluated_state_lem a c requires_approval h)
        (hold_waits (decision_for a).status
          (set_state c a.id (evaluated_state (decision_for a) now))
          (apply_permission_metadata a (decision_for a)) h)
        (queueable_lem a requires_approval h)
  evaluated_plane-Gated a c denied h =
      stops h (evaluated_state_lem a c denied h)
        (rw
          (hold_stops (decision_for a).status
            (set_state c a.id (evaluated_state (decision_for a) now))
            (apply_permission_metadata a (decision_for a)) h)
          refl)
        (queueable_lem a denied h)

  -- The permission runtime never raises on a planned action. By its decision, an allowed action is
  -- approved in its lifecycle and queueable; an action that requires approval is queued in its
  -- lifecycle, flagged as such, held in the registry and not queueable; a denied one is rejected
  -- and not queueable. The registry is left alone in the first and the last case.
  pub evaluate_gates :
      (a : Action) (c : ControlPlane)
      → (evaluate engine (a ∷ []) now c ≡ (ok (evaluation_of a ∷ []), evaluated_plane a c))
        × Gated a c (evaluated_plane a c)
  evaluate_gates a c =
      (evaluate_lem (a ∷ []) c, evaluated_plane-Gated a c (decision_for a).status refl)
