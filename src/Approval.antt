-- ===== src/Approval.antt =====
-- core/approval_decisions.py: the one explicit-approval transition behind every entrypoint.
pub mod Decisions
use velox_server.Prelude.{String, Option, none, some, or_else}
use velox_server.Prelude.Result.{Result, ok, err, Step, continue}
use velox_server.Actions.{Uuid, Instant, Action}
use velox_server.Lifecycle.{
  queued, approved, rejected, ActionLifecycleState, no_metadata, new_state, TransitionError,
  transition,
}
use velox_server.ControlPlane.{
  ControlPlane, get_state, set_state, get_pending, remove_pending, enqueue,
}
use velox_server.Permission.{approval_metadata}

pub data ApprovalError : Type 0 where
  not_pending : ApprovalError
  refused : TransitionError → ApprovalError
  recovery_failed recording_failed : ApprovalError

-- The optional `PendingActionRecovery` and `ApprovalDecisionRecorder`. Their implementation keeps
-- its own durable store, so all that shows here is what a call returns or that it raises.
pub record ApprovalHooks : Type 0 where
  pub recover_pending : Uuid → Result ApprovalError (Option Action)
  pub record_approved : Action → Result ApprovalError (Unit {0})
  pub record_rejected : Action → Result ApprovalError (Unit {0})

-- No recovery and no recorder.
abbrev pub no_hooks : ApprovalHooks
no_hooks = record {
  recover_pending = λ i. ok none;
  record_approved = λ a. ok tt;
  record_rejected = λ a. ok tt;
}

found_or_missing : Result ApprovalError (Option Action) → Result ApprovalError Action
found_or_missing (ok (some action)) = ok action
found_or_missing (ok none) = err not_pending
found_or_missing (err e) = err e

-- _resolve_pending_action
unfoldable pub resolve_pending_action :
    ApprovalHooks → Uuid → ControlPlane → Result ApprovalError Action
unfolding found_or_missing
resolve_pending_action hooks i c =
    let recovered = hooks.recover_pending i in
    elim (get_pending c i) [ some action ↦ ok action | none ↦ found_or_missing recovered ]

-- The lifecycle state of a held action; a held action that the repository does not know is queued.
unfoldable pub held_state : ControlPlane → Uuid → Instant → ActionLifecycleState
held_state c i now = or_else (get_state c i) (new_state queued none approval_metadata now)

-- `lifecycle_manager.transition`, whose ValueError reaches the caller
refusing : Result TransitionError ActionLifecycleState → Result ApprovalError ActionLifecycleState
refusing (ok state) = ok state
refusing (err e) = err (refused e)

-- approve_pending_action
unfoldable pub approve_pending_action :
    ApprovalHooks → Uuid → Instant → Step ControlPlane ApprovalError ActionLifecycleState
unfolding resolve_pending_action held_state refusing
approve_pending_action hooks i now c =
    continue (resolve_pending_action hooks i c, c)
      λ action c.
        continue (refusing (transition (held_state c i now) approved none no_metadata now), c)
          λ state c.
            continue (hooks.record_approved action, c)
              λ _ c. (ok state, enqueue (remove_pending (set_state c i state) i) action)

-- reject_pending_action
unfoldable pub reject_pending_action :
    ApprovalHooks → Uuid → String → Instant → Step ControlPlane ApprovalError ActionLifecycleState
unfolding resolve_pending_action held_state refusing
reject_pending_action hooks i reason now c =
    continue (resolve_pending_action hooks i c, c)
      λ action c.
        continue
          (refusing (transition (held_state c i now) rejected (some reason) no_metadata now), c)
          λ state c.
            continue (hooks.record_rejected action, c)
              λ _ c. (ok state, remove_pending (set_state c i state) i)
