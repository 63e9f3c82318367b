-- ===== src/Runs/Table/Statements.antt =====
-- The SQL statements of the run repository, each of which SQLite runs as one transaction.
use velox_server.Prelude.{
  ℕ, String, Bool, true, Option, none, some, option_map, is_none, not, ◌&&◌, ◌==◌, string_eq,
  nat_eq, option_eq, if◌then◌else◌,
}
use velox_server.Prelude.Result.{Result, ok, err, raise_if, ◌>>◌, Step}
use velox_server.Prelude.Dict
use velox_server.Actions.{Uuid, Instant}
use velox_server.Runs.{
  approved, rejected, released_before_start, abandoned_after_start, ActionClaim, RunState, RunError,
  run_missing, not_durably_approved, has_result, has_claim, claim_not_released, claim_not_abandoned,
  claim_not_atomic, normalize_required_objective, is_approved, Registration, prefer,
  DispositionRecord, PromotionRecord,
}
use velox_server.Runs.Table.{
  Codec, Row, Table, approval_value, resolution_value, disposition_value, state_from_row,
}
use velox_server.Runs.Table.Rows.{bool_value}

-- What the SET clauses of `_update` are filled with.
pub data Assignments : Type 0 where
  registering : Registration → Option String → Option String → Instant → Assignments
  approving : String → Instant → Instant → Assignments
  rejecting : Instant → Instant → Assignments
  starting : Instant → Instant → Assignments
  executing : String → Instant → Bool → Instant → Assignments
  disposing : DispositionRecord → Instant → Assignments
  promoting : PromotionRecord → Instant → Assignments

module _ (codec : Codec) where
  -- The row after the SET clause. A registration assigns the objective where it has one and the
  -- state that was read, `pending`, had none.
  unfoldable pub assign : Assignments → Row → Row
  assign (registering r objective pending now) row = record row {
    updated_at = some (codec.isoformat now);
    delegation_status = prefer r.delegation_status row.delegation_status;
    pending_objective =
        (if not (is_none objective) && is_none pending then objective else row.pending_objective);
    approval_status = prefer (option_map approval_value r.approval_status) row.approval_status;
  }
  assign (approving objective approved_at now) row = record row {
    pending_objective = some objective;
    approval_status = some (approval_value approved);
    approved_at = some (codec.isoformat approved_at);
    updated_at = some (codec.isoformat now);
  }
  assign (rejecting rejected_at now) row = record row {
    pending_objective = none;
    approval_status = some (approval_value rejected);
    rejected_at = some (codec.isoformat rejected_at);
    updated_at = some (codec.isoformat now);
  }
  assign (starting started_at now) row = record row {
    execution_started_at = some (codec.isoformat started_at);
    updated_at = some (codec.isoformat now);
  }
  assign (executing status finished_at external now) row = record row {
    pending_objective = none;
    execution_status = some status;
    execution_finished_at = some (codec.isoformat finished_at);
    external_execution_performed = some (bool_value external);
    updated_at = some (codec.isoformat now);
  }
  assign (disposing d now) row = record row {
    disposition = some (disposition_value d.disposition);
    disposition_succeeded = some (bool_value d.succeeded);
    worktree_present = some (bool_value d.worktree_present);
    branch_present = some (bool_value d.branch_present);
    canonical_unchanged = some (bool_value d.canonical_unchanged);
    updated_at = some (codec.isoformat now);
  }
  assign (promoting p now) row = record row {
    promotion_commit_sha = some p.commit_sha;
    pull_request_number = some p.pull_request_number;
    pull_request_url = some p.pull_request_url;
    promotion_base_branch = some p.base_branch;
    promotion_head_branch = some p.head_branch;
    promotion_finished_at = some (codec.isoformat p.finished_at);
    updated_at = some (codec.isoformat now);
  }

  -- UPDATE … SET `set` WHERE action_id = `i` AND `test`: the row count and the table.
  unfoldable pub update_where : (Row → Bool) → (Row → Row) → Uuid → Table → ℕ × Table
  update_where test set i t = elim (Dict.get t (codec.uuid_text i)) [
    | none ↦ (0, t)
    | some row ↦ if test row then (1, Dict.put t (codec.uuid_text i) (set row)) else (0, t)
  ]

  -- A statement that must change one row.
  unfoldable pub one_row : ℕ × Table → RunError → Result RunError (Unit {0}) × Table
  one_row (count, t) e = (raise_if (not (count == 1)) e, t)

  -- _update
  unfoldable pub update : Uuid → Assignments → Step Table RunError (Unit {0})
  unfolding assign update_where one_row
  update i a t = one_row (update_where (λ row. true) (assign a) i t) run_missing

  -- INSERT of a new registration: `none` is the IntegrityError of a key that is taken.
  unfoldable pub new_row : Registration → Option String → Instant → Row
  new_row r objective now = record {
    action_id = codec.uuid_text r.action_id;
    executor_role = r.executor_role;
    capability = r.capability;
    target = r.target;
    delegation_status = r.delegation_status;
    pending_objective = objective;
    approval_status = option_map approval_value r.approval_status;
    approved_at = none;
    rejected_at = none;
    claim_id = none;
    claimed_at = none;
    execution_started_at = none;
    claim_resolution = none;
    claim_reconciled_at = none;
    execution_status = none;
    execution_finished_at = none;
    external_execution_performed = none;
    disposition = none;
    disposition_succeeded = none;
    worktree_present = none;
    branch_present = none;
    canonical_unchanged = none;
    promotion_commit_sha = none;
    pull_request_number = none;
    pull_request_url = none;
    promotion_base_branch = none;
    promotion_head_branch = none;
    promotion_finished_at = none;
    created_at = some (codec.isoformat now);
    updated_at = some (codec.isoformat now);
  }

  unfoldable pub insert : Registration → Option String → Instant → Table → Option Table
  unfolding new_row
  insert r objective now t = elim (Dict.get t (codec.uuid_text r.action_id)) [
    | none ↦ some (Dict.put t (codec.uuid_text r.action_id) (new_row r objective now))
    | some row ↦ none
  ]

  -- The WHERE and SET of the claim.
  unfoldable pub is_claimable : Row → Bool
  is_claimable row =
      row.approval_status == some (approval_value approved)
      && is_none row.claim_id
      && is_none row.execution_status

  unfoldable pub set_claimed : Uuid → Instant → Row → Row
  set_claimed claim_id claimed_at row = record row {
    claim_id = some (codec.uuid_text claim_id);
    claimed_at = some (codec.isoformat claimed_at);
    claim_resolution = none;
    claim_reconciled_at = none;
    updated_at = some (codec.isoformat claimed_at);
  }

  -- The guards of claim_approved on the state that its transaction read.
  unfoldable pub check_claim : RunState → Result RunError String
  unfolding is_approved normalize_required_objective
  check_claim s = do
    raise_if (not (is_approved s.approval_status)) not_durably_approved
    raise_if (not (is_none s.execution_status)) has_result
    raise_if (not (is_none s.claim_id)) has_claim
    normalize_required_objective s.pending_objective

  -- The end of a transaction: an exception rolls it back.
  unfoldable pub commit :
      ActionClaim → Table → Result RunError (Unit {0}) × Table → Result RunError ActionClaim × Table
  commit claim t (ok _, t') = (ok claim, t')
  commit claim t (err e, t') = (err e, t)

  -- The claim's UPDATE with its answer.
  unfoldable pub claim_row :
      Uuid → Instant → RunState → String → Uuid → Step Table RunError ActionClaim
  unfolding update_where is_claimable set_claimed one_row commit
  claim_row claim_id claimed_at current objective i t =
      commit
        (record {
          action_id = i;
          claim_id = claim_id;
          target = current.target;
          objective = objective;
          claimed_at = claimed_at;
        })
        t
        (one_row (update_where is_claimable (set_claimed claim_id claimed_at) i t) claim_not_atomic)

  -- claim_approved, one BEGIN IMMEDIATE transaction
  unfoldable pub claim_approved : Uuid → Uuid → Instant → Step Table RunError ActionClaim
  unfolding state_from_row check_claim claim_row
  claim_approved i claim_id claimed_at t = elim (Dict.get t (codec.uuid_text i)) [
    | none ↦ (err run_missing, t)
    | some row ↦ elim (state_from_row codec row) [
      | err e ↦ (err e, t)
      | ok current ↦ elim (check_claim current) [
        | err e ↦ (err e, t)
        | ok objective ↦ claim_row claim_id claimed_at current objective i t
      ]
    ]
  ]

  -- The WHERE and SET of release_unstarted_claim and abandon_started_claim.
  unfoldable pub is_releasable : Instant → Row → Bool
  is_releasable expected row =
      row.approval_status == some (approval_value approved)
      && not (is_none row.claim_id)
      && is_none row.execution_started_at
      && is_none row.execution_status
      && row.updated_at == some (codec.isoformat expected)

  unfoldable pub set_released : Instant → Row → Row
  set_released reconciled_at row = record row {
    claim_id = none;
    claimed_at = none;
    claim_resolution = some (resolution_value released_before_start);
    claim_reconciled_at = some (codec.isoformat reconciled_at);
    updated_at = some (codec.isoformat reconciled_at);
  }

  unfoldable pub is_abandonable : Instant → Row → Bool
  is_abandonable expected row =
      not (is_none row.claim_id)
      && not (is_none row.execution_started_at)
      && is_none row.execution_status
      && row.updated_at == some (codec.isoformat expected)

  unfoldable pub set_abandoned : Instant → Row → Row
  set_abandoned reconciled_at row = record row {
    pending_objective = none;
    claim_resolution = some (resolution_value abandoned_after_start);
    claim_reconciled_at = some (codec.isoformat reconciled_at);
    updated_at = some (codec.isoformat reconciled_at);
  }

  unfoldable pub release : Uuid → Instant → Instant → Step Table RunError (Unit {0})
  unfolding update_where is_releasable set_released one_row
  release i expected reconciled_at t =
      one_row (update_where (is_releasable expected) (set_released reconciled_at) i t)
        claim_not_released

  unfoldable pub abandon : Uuid → Instant → Instant → Step Table RunError (Unit {0})
  unfolding update_where is_abandonable set_abandoned one_row
  abandon i expected reconciled_at t =
      one_row (update_where (is_abandonable expected) (set_abandoned reconciled_at) i t)
        claim_not_abandoned
