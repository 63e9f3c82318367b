-- ===== src/Permission.antt =====
-- core/permission.py: the deny-by-default engine and the runtime that gates planned actions.
pub mod Evaluation
use velox_server.Prelude.{
  String, Bool, true, false, Option, none, some, ◌==◌, string_eq, if◌then◌else◌, List, [], ◌∷◌,
  keep, map, any,
}
use Prim.Native.String.{◌++◌ as ◌<>◌}
use velox_server.Prelude.Result.{Result, ok, err, ◌>>=◌}
use velox_server.Prelude.Dict
use velox_server.Prelude.Dict.{Dict}
use velox_server.Actions.{
  Instant, Value, text, timestamp, obj, end, field, to_fields, of_optional, Action,
}
use velox_server.Lifecycle.{
  ActionLifecycleState, LifecycleMetadata, no_metadata, queued, approved, rejected, planned,
  new_state, transition, TransitionError, PermissionStatus, allowed, requires_approval, denied,
  normalize_blank_reason,
}
use velox_server.ControlPlane.{ControlPlane, set_state, add_pending}

pub record PermissionDecision : Type 0 where
  pub status : PermissionStatus
  pub reason : Option String
  pub metadata : Dict String Value
  pub created_at : Instant

-- The constructor: a blank reason becomes `None`.
unfoldable pub decide : PermissionStatus → Option String → Instant → PermissionDecision
unfolding normalize_blank_reason
decide status reason now = record {
  status = status;
  reason = normalize_blank_reason reason;
  metadata = [];
  created_at = now;
}

-- What a call of a `PermissionEngine` comes to: a decision, an exception, or a value that is no
-- decision.
pub data EngineOutcome : Type 0 where
  decided : PermissionDecision → EngineOutcome
  raised : EngineOutcome
  no_decision : EngineOutcome

abbrev pub safe_action_types : List String
safe_action_types =
    "review_pull_request" ∷ "summarize_email" ∷ "prepare_meeting" ∷ "gmail.read" ∷ []

unfoldable pub is_safe_type : String → Bool
is_safe_type t = any (λ s. s == t) safe_action_types

-- BasePermissionEngine.evaluate
unfoldable pub base_evaluate : Action → Instant → PermissionDecision
unfolding is_safe_type decide
base_evaluate action now =
    if is_safe_type action.type
    then decide allowed
        (some ("action type '" <> action.type <> "' is on the safe list and is auto-approved")) now
    else decide requires_approval
        (some (
          "action type '" <> action.type
          <> "' is not on the safe list and requires explicit approval"))
        now

unfoldable pub base_engine : Action → Instant → EngineOutcome
unfolding base_evaluate
base_engine action now = decided (base_evaluate action now)

-- PermissionStatus.value
unfoldable pub status_value : PermissionStatus → String
status_value allowed = "allowed"
status_value requires_approval = "requires_approval"
status_value denied = "denied"

-- decision.model_dump(mode="json")
unfoldable pub dump_decision : PermissionDecision → Value
unfolding status_value
dump_decision d = obj (
    field "status" (text (status_value d.status)) (
      field "reason" (of_optional d.reason) (
        field "metadata" (obj (to_fields d.metadata))
          (field "created_at" (timestamp d.created_at) end))))

pub record PermissionEvaluation : Type 0 where
  pub action : Action
  pub decision : PermissionDecision

unfoldable pub is_allowed : PermissionEvaluation → Bool
is_allowed e = elim e.decision.status [ allowed ↦ true | _ ↦ false ]

unfoldable pub queueable_actions : List PermissionEvaluation → List Action
unfolding is_allowed
queueable_actions evaluations = map (λ e. e.action) (keep is_allowed evaluations)

unfoldable pub needs_approval : PermissionEvaluation → Bool
needs_approval e = elim e.decision.status [ requires_approval ↦ true | _ ↦ false ]

unfoldable pub pending_approval_actions : List PermissionEvaluation → List Action
unfolding needs_approval
pending_approval_actions evaluations = map (λ e. e.action) (keep needs_approval evaluations)

-- Anything but a decision is a denial.
unfoldable pub resolve_decision : EngineOutcome → Instant → PermissionDecision
unfolding decide
resolve_decision (decided d) now = d
resolve_decision raised now = decide denied (some "permission decision could not be resolved") now
resolve_decision no_decision now =
    decide denied (some "permission decision could not be resolved") now

abbrev pub approval_metadata : LifecycleMetadata
approval_metadata = record no_metadata { approval_required = some true }

state_for :
    PermissionStatus → PermissionDecision → Instant → Result TransitionError ActionLifecycleState
unfolding new_state transition
state_for allowed decision now = do
  queued_state ← transition (new_state planned none no_metadata now) queued none no_metadata now
  transition queued_state approved none no_metadata now
state_for requires_approval decision now =
    transition (new_state planned none approval_metadata now) queued none no_metadata now
state_for denied decision now = ok (
    new_state rejected decision.reason
      (record no_metadata { permission_status = some decision.status }) now)

unfoldable pub resolve_lifecycle_state :
    PermissionDecision → Instant → Result TransitionError ActionLifecycleState
unfolding state_for
resolve_lifecycle_state decision now = state_for decision.status decision now

unfoldable pub apply_permission_metadata : Action → PermissionDecision → Action
unfolding dump_decision
apply_permission_metadata action decision = record action {
  metadata = Dict.put action.metadata "permission_decision" (dump_decision decision);
}

-- The registry holds what requires approval.
unfoldable pub hold : PermissionStatus → ControlPlane → Action → ControlPlane
hold requires_approval c a = add_pending c a
hold _ c a = c

module _ (engine : Action → Instant → EngineOutcome) where
  unfoldable pub evaluate_action :
      Action → Instant → ControlPlane → Result TransitionError PermissionEvaluation × ControlPlane
  unfolding resolve_decision resolve_lifecycle_state hold apply_permission_metadata
  evaluate_action action now c =
      let decision = resolve_decision (engine action now) now in
      elim (resolve_lifecycle_state decision now) [
        | err e ↦ (err e, c)
        | ok lifecycle_state ↦
            let evaluated_action = apply_permission_metadata action decision in
            (
              ok (record { action = evaluated_action; decision = decision }),
              hold decision.status (set_state c action.id lifecycle_state) evaluated_action,
            )
      ]

  evaluate_rest :
      Result TransitionError PermissionEvaluation
      → Result TransitionError (List PermissionEvaluation) × ControlPlane
      → ControlPlane
      → Result TransitionError (List PermissionEvaluation) × ControlPlane
  evaluate_rest (err e) _ c = (err e, c)
  evaluate_rest (ok first) (ok rest, c') _ = (ok (first ∷ rest), c')
  evaluate_rest (ok first) (err e, c') _ = (err e, c')

  -- PermissionEngineRuntime.evaluate: the actions in order; an exception ends the comprehension.
  unfoldable pub evaluate :
      List Action
      → Instant
      → ControlPlane
      → Result TransitionError (List PermissionEvaluation) × ControlPlane
  unfolding evaluate_rest
  evaluate [] now c = (ok [], c)
  evaluate (a ∷ more) now c =
      let (first, c') = evaluate_action a now c in evaluate_rest first (evaluate more now c') c'
