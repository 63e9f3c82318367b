-- ===== src/Engineering/Recovery/Registered.antt =====
-- The run that the ingress registers for a delegated task, and its recovery.
use velox_server.Prelude.{
  String, true, false, none, some, ◌==◌, string_eq, nat_eq, option_eq, ◌≡◌, refl,
}
use velox_server.Prelude.Result.{ok}
use velox_server.Prelude.Dict
use velox_server.Prelude.Text.{strip, is_blank}
use velox_server.Prelude.Text.Laws.{strip_idem}
use velox_server.Actions.{Uuid, Instant, flag, obj, end, field, Action, role_value}
use velox_server.Delegation.{awaiting_approval, TaskDelegationResult}
use velox_server.Runs
use velox_server.Runs.{
  RunState, RunError, Registration, new_run, normalize_objective, normalize_required_objective,
  require_same_identity, require_compatible_objective, conflicts_with, is_awaiting, is_rejected,
  is_approved,
}
use velox_server.Runs.Memory.{Runs, register_new}
use velox_server.Engineering.{memory_repository, is_canonical_state}
use velox_server.Engineering.Recovery.{
  reported, require_canonical, recovered_action, action_from_state, recover_found, recover_awaiting,
  recover_pending, ingress_registration, ingress_approval, delegation_value, register_delegation,
}

pub same_text : (s : String) → (s == s) ≡ true
same_text s = (string_eq.eqb_iff s s).1 refl

-- An objective as a run state keeps it.
pub record Normal (o : String) : Type 0 where
  pub solid : is_blank o ≡ false
  pub stripped : strip o ≡ o

pub strip-Normal : (o : String) → is_blank o ≡ false → Normal (strip o)
unfolding is_blank
strip-Normal o h = record { solid = rw (strip_idem o) h; stripped = strip_idem o }

pub normalized : (o : String) → Normal o → normalize_objective (some o) ≡ ok (some o)
unfolding normalize_objective
normalized o h = rw (h.solid, h.stripped) refl

normalized_strip :
    (o : String) → is_blank o ≡ false → normalize_objective (some o) ≡ ok (some (strip o))
unfolding normalize_objective
normalized_strip o h = rw h refl

-- The run that the ingress registers for a task that awaits approval.
abbrev pub registered : Uuid → String → String → Instant → RunState
registered i target objective now = record {
  action_id = i;
  executor_role = "software_engineering";
  capability = "code.implement";
  target = target;
  delegation_status = some "awaiting_approval";
  pending_objective = some objective;
  approval_status = some Runs.awaiting_approval;
  approved_at = none;
  rejected_at = none;
  claim_id = none;
  claimed_at = none;
  execution_started_at = none;
  claim_resolution = none;
  claim_reconciled_at = none;
  execution_status = none;
  execution_finished_at = none;
  external_execution_performed = none;
  disposition = none;
  disposition_succeeded = none;
  worktree_present = none;
  branch_present = none;
  canonical_unchanged = none;
  promotion_commit_sha = none;
  pull_request_number = none;
  pull_request_url = none;
  promotion_base_branch = none;
  promotion_head_branch = none;
  promotion_finished_at = none;
  created_at = some now;
  updated_at = some now;
}

abbrev pub pending_action : Uuid → String → String → Instant → Action
pending_action i target objective now =
    recovered_action i target objective (obj (field "pending" (flag true) end)) now

abbrev awaiting_registration : Uuid → String → String → Registration
awaiting_registration i target objective = record {
  action_id = i;
  target = target;
  executor_role = "software_engineering";
  capability = "code.implement";
  delegation_status = some "awaiting_approval";
  objective = some objective;
  approval_status = some Runs.awaiting_approval;
}

ingress_registration_lem :
    (objective target : String) (result : TaskDelegationResult)
    → result.status ≡ awaiting_approval
    → ingress_registration memory_repository objective target result
      ≡ awaiting_registration result.action_id target objective
unfolding ingress_registration ingress_approval delegation_value role_value
ingress_registration_lem objective target result r = simp r refl

new_run_lem :
    (i : Uuid) (target objective o : String) (now : Instant)
    → new_run (awaiting_registration i target objective) (some o) now ≡ registered i target o now
unfolding new_run
new_run_lem i target objective o now = refl

pub register_delegation_lem :
    (m : Runs) (objective target : String) (result : TaskDelegationResult) (now : Instant)
    → Dict.get m result.action_id ≡ none
    → is_blank objective ≡ false
    → result.status ≡ awaiting_approval
    → register_delegation memory_repository objective target result now m ≡ (
      ok result,
      Dict.put m result.action_id (registered result.action_id target (strip objective) now),
    )
unfolding register_delegation
register_delegation_lem m objective target result now p h r =
    rw (ingress_registration_lem objective target result r) (
      rw
        (register_new (awaiting_registration result.action_id target objective)
          (some (strip objective)) now m (normalized_strip objective h) p)
        (rw (new_run_lem result.action_id target objective (strip objective) now) refl))

pub recover_registered :
    (m : Runs) (i : Uuid) (target o : String) (at now : Instant)
    → Dict.get m i ≡ some (registered i target o at)
    → Normal o
    → recover_pending memory_repository i now m ≡ (ok (some (pending_action i target o now)), m)
unfolding recover_pending reported recover_found recover_awaiting require_canonical
    is_canonical_state is_awaiting action_from_state role_value
recover_registered m i target o at now p h = rw p (rw (h.solid, h.stripped) refl)
