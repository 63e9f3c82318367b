-- ===== src/Runs/Table/Rows.antt =====
-- The row that stands for a run state, and that reading it gives the state back.
use velox_server.Prelude.{
  ℕ, String, Bool, true, false, Option, none, some, option_map, string_eq, ◌≡◌, refl,
}
use velox_server.Prelude.Result.{ok}
use velox_server.Actions.{Instant}
use velox_server.Runs.{
  ApprovalStatus, awaiting_approval, approved, rejected, ClaimResolution, released_before_start,
  abandoned_after_start, WorkProductDisposition, keep, discard, RunState,
}
use velox_server.Runs.Table.{
  Codec, Row, approval_value, approval_of, resolution_value, resolution_of, disposition_value,
  disposition_of, optional, optional_bool, state_from_row,
}

-- `int(flag)`
abbrev pub bool_value : Bool → ℕ
bool_value true = 1
bool_value false = 0

unfoldable pub row_of : Codec → RunState → Row
row_of codec s = record {
  action_id = codec.uuid_text s.action_id;
  executor_role = s.executor_role;
  capability = s.capability;
  target = s.target;
  delegation_status = s.delegation_status;
  pending_objective = s.pending_objective;
  approval_status = option_map approval_value s.approval_status;
  approved_at = option_map codec.isoformat s.approved_at;
  rejected_at = option_map codec.isoformat s.rejected_at;
  claim_id = option_map codec.uuid_text s.claim_id;
  claimed_at = option_map codec.isoformat s.claimed_at;
  execution_started_at = option_map codec.isoformat s.execution_started_at;
  claim_resolution = option_map resolution_value s.claim_resolution;
  claim_reconciled_at = option_map codec.isoformat s.claim_reconciled_at;
  execution_status = s.execution_status;
  execution_finished_at = option_map codec.isoformat s.execution_finished_at;
  external_execution_performed = option_map bool_value s.external_execution_performed;
  disposition = option_map disposition_value s.disposition;
  disposition_succeeded = option_map bool_value s.disposition_succeeded;
  worktree_present = option_map bool_value s.worktree_present;
  branch_present = option_map bool_value s.branch_present;
  canonical_unchanged = option_map bool_value s.canonical_unchanged;
  promotion_commit_sha = s.promotion_commit_sha;
  pull_request_number = s.pull_request_number;
  pull_request_url = s.pull_request_url;
  promotion_base_branch = s.promotion_base_branch;
  promotion_head_branch = s.promotion_head_branch;
  promotion_finished_at = option_map codec.isoformat s.promotion_finished_at;
  created_at = option_map codec.isoformat s.created_at;
  updated_at = option_map codec.isoformat s.updated_at;
}

optional_lem :
    {A : Type 0} (print : A → String) (parse : String → Option A)
    → ((a : A) → parse (print a) ≡ some a)
    → (o : Option A) → optional parse (option_map print o) ≡ ok o
optional_lem print parse h none = refl
optional_lem print parse h (some a) = rw (h a) refl

approval_of-approval_value : (a : ApprovalStatus) → approval_of (approval_value a) ≡ some a
unfolding approval_of approval_value
approval_of-approval_value awaiting_approval = refl
approval_of-approval_value approved = refl
approval_of-approval_value rejected = refl

resolution_of-resolution_value : (r : ClaimResolution) → resolution_of (resolution_value r) ≡ some r
unfolding resolution_of resolution_value
resolution_of-resolution_value released_before_start = refl
resolution_of-resolution_value abandoned_after_start = refl

disposition_of-disposition_value :
    (d : WorkProductDisposition) → disposition_of (disposition_value d) ≡ some d
unfolding disposition_of disposition_value
disposition_of-disposition_value keep = refl
disposition_of-disposition_value discard = refl

optional_bool-bool_value : (o : Option Bool) → optional_bool (option_map bool_value o) ≡ o
unfolding optional_bool
optional_bool-bool_value none = refl
optional_bool-bool_value (some true) = refl
optional_bool-bool_value (some false) = refl

-- Reading the row that stands for a run state, with its texts and flags as the statements write
-- them, gives back that state, for every column.
pub state_from_row-row_of :
    (codec : Codec) (s : RunState) → state_from_row codec (row_of codec s) ≡ ok s
unfolding state_from_row row_of
state_from_row-row_of codec s =
    rw
      (
        codec.parse_uuid-uuid_text s.action_id,
        optional_lem approval_value approval_of approval_of-approval_value s.approval_status,
      )
      (rw (time s.approved_at, time s.rejected_at, claim, time s.claimed_at)
        (rw
          (
            time s.execution_started_at,
            optional_lem resolution_value resolution_of resolution_of-resolution_value
                s.claim_resolution,
          )
          (rw
            (
              time s.claim_reconciled_at,
              time s.execution_finished_at,
              optional_lem disposition_value disposition_of disposition_of-disposition_value
                  s.disposition,
            )
            (rw (time s.promotion_finished_at, time s.created_at, time s.updated_at)
              (rw
                (
                  optional_bool-bool_value s.external_execution_performed,
                  optional_bool-bool_value s.disposition_succeeded,
                  optional_bool-bool_value s.worktree_present,
                )
                (rw
                  (
                    optional_bool-bool_value s.branch_present,
                    optional_bool-bool_value s.canonical_unchanged,
                  )
                  refl))))))
  where
    time : (t : Option Instant) → optional codec.fromisoformat (option_map codec.isoformat t) ≡ ok t
    time = optional_lem codec.isoformat codec.fromisoformat codec.fromisoformat-isoformat

    claim : optional codec.parse_uuid (option_map codec.uuid_text s.claim_id) ≡ ok s.claim_id
    claim = optional_lem codec.uuid_text codec.parse_uuid codec.parse_uuid-uuid_text s.claim_id
