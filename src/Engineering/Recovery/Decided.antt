-- ===== src/Engineering/Recovery/Decided.antt =====
-- What the decision on a recovered task writes to its run.
use velox_server.Prelude.{String, true, none, some, string_eq, nat_eq, option_eq, ◌≡◌, refl}
use velox_server.Prelude.Result.{ok}
use velox_server.Prelude.Dict
use velox_server.Actions.{Uuid, Instant, role_value}
use velox_server.Runs
use velox_server.Runs.{
  RunState, RunError, Registration, new_run, normalize_objective, normalize_required_objective,
  require_same_identity, require_compatible_objective, conflicts_with, is_awaiting, is_rejected,
  is_approved,
}
use velox_server.Runs.Memory
use velox_server.Runs.Memory.{Runs, revise, revise_ok, register_new, register_known}
use velox_server.Engineering.{memory_repository}
use velox_server.Engineering.Recovery.{
  reported, is_canonical_action, is_engineering_role, is_text, objective_of, payload_objective,
  recovered_action, ensure_registered, prepare, record_approved, record_rejected,
}
use velox_server.Engineering.Recovery.Registered.{
  Normal, normalized, registered, same_text, pending_action,
}

-- The same run after the decision's registration, and after its approval or rejection.
abbrev pub touched : RunState → Instant → RunState
touched s now = record s { updated_at = some now }

abbrev pub approved : RunState → Instant → RunState
approved s now = record s {
  approval_status = some Runs.approved;
  approved_at = some now;
  updated_at = some now;
}

abbrev pub rejected : RunState → Instant → RunState
rejected s now = record s {
  pending_objective = none;
  approval_status = some Runs.rejected;
  rejected_at = some now;
  updated_at = some now;
}

module _ (m : Runs) (i : Uuid) (target o : String) (at created now : Instant) (h : Normal o) where
  canonical_pending : is_canonical_action (pending_action i target o created) ≡ true
  unfolding is_canonical_action is_engineering_role is_text role_value recovered_action Dict.get
  canonical_pending = refl

  pending_id : (pending_action i target o created).id ≡ i
  unfolding recovered_action
  pending_id = refl

  objective_pending : objective_of (pending_action i target o created) ≡ ok o
  unfolding objective_of payload_objective recovered_action Dict.get
  objective_pending = rw (h.solid, h.stripped) refl

  abbrev pub again : Registration
  again = record {
    action_id = i;
    target = target;
    executor_role = "software_engineering";
    capability = "code.implement";
    delegation_status = none;
    objective = some o;
    approval_status = none;
  }

  pending_target : (pending_action i target o created).target ≡ target
  unfolding recovered_action
  pending_target = refl

  reregistered-again :
      Memory.reregistered again (some o) now (registered i target o at)
      ≡ ok (touched (registered i target o at) now)
  unfolding Memory.reregistered require_same_identity require_compatible_objective conflicts_with
  reregistered-again = rw (same_text target, same_text o) refl

  ensured :
      Dict.get m i ≡ some (registered i target o at)
      → ensure_registered memory_repository (pending_action i target o created) o now m ≡ (
        ok (touched (registered i target o at) now),
        Dict.put m i (touched (registered i target o at) now),
      )
  unfolding ensure_registered reported
  ensured p = rw pending_id (
      rw p (
        rw pending_target (
          rw
            (register_known again (some o) now m (registered i target o at)
              (touched (registered i target o at) now) (normalized o h) p reregistered-again)
            refl)))

  prepared :
      Dict.get m i ≡ some (registered i target o at)
      → prepare memory_repository (pending_action i target o created) now m
        ≡ (ok o, Dict.put m i (touched (registered i target o at) now))
  unfolding prepare
  prepared p = rw objective_pending (rw (ensured p) refl)

  approving_lem :
      Memory.approving o now now (touched (registered i target o at) now)
      ≡ ok (approved (registered i target o at) now)
  unfolding Memory.approving normalize_required_objective require_compatible_objective
      conflicts_with is_rejected
  approving_lem = rw (normalized o h) (rw (same_text o) refl)

  pub record_approved_lem :
      Dict.get m i ≡ some (registered i target o at)
      → record_approved memory_repository (pending_action i target o created) now m ≡ (
        ok tt,
        Dict.put
            (Dict.put m i (touched (registered i target o at) now))
            i
            (approved (registered i target o at) now),
      )
  unfolding record_approved reported Memory.record_approval
  record_approved_lem p = rw canonical_pending (
      rw (prepared p) (
        rw pending_id (
          rw
            (revise_ok (Memory.approving o now now) i
              (Dict.put m i (touched (registered i target o at) now))
              (touched (registered i target o at) now) (approved (registered i target o at) now)
              (Dict.get-put_self m i (touched (registered i target o at) now)) approving_lem)
            refl)))

  rejecting_lem :
      Memory.rejecting now now (touched (registered i target o at) now)
      ≡ ok (rejected (registered i target o at) now)
  unfolding Memory.rejecting
  rejecting_lem = refl

  pub record_rejected_lem :
      Dict.get m i ≡ some (registered i target o at)
      → record_rejected memory_repository (pending_action i target o created) now m ≡ (
        ok tt,
        Dict.put
            (Dict.put m i (touched (registered i target o at) now))
            i
            (rejected (registered i target o at) now),
      )
  unfolding record_rejected reported Memory.record_rejection
  record_rejected_lem p = rw canonical_pending (
      rw (prepared p) (
        rw pending_id (
          rw
            (revise_ok (Memory.rejecting now now) i
              (Dict.put m i (touched (registered i target o at) now))
              (touched (registered i target o at) now) (rejected (registered i target o at) now)
              (Dict.get-put_self m i (touched (registered i target o at) now)) rejecting_lem)
            refl)))
