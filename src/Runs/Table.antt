-- ===== src/Runs/Table.antt =====
-- `SqliteSoftwareEngineeringRunRepository`: the table, and a row read as a run state. SQLite is
-- a dictionary of rows under their primary key; a column is a text or an integer, or NULL.
pub mod Schema
pub mod Statements
pub mod Operations
pub mod Rows
pub mod Represents
pub mod Guards
pub mod Refine
pub mod Decides
pub mod Settling
pub mod Traces
pub mod Claims
use velox_server.Prelude.{
  ℕ, String, Bool, true, false, Option, none, some, not, ◌==◌, string_eq, nat_eq, ◌≡◌,
  if◌then◌else◌,
}
use velox_server.Prelude.Result.{Result, ok, err, ◌>>=◌}
use velox_server.Prelude.Dict.{Dict}
use velox_server.Actions.{Uuid, Instant}
use velox_server.Runs.{
  ApprovalStatus, awaiting_approval, approved, rejected, ClaimResolution, released_before_start,
  abandoned_after_start, WorkProductDisposition, keep, discard, RunState, RunError, invalid_row,
}

-- `str(uuid)`, `UUID(text)`, `isoformat` and `fromisoformat` of Python's library. The parsers
-- give `none` for a text that they refuse, and for a timestamp without a time zone.
pub record Codec : Type 0 where
  pub uuid_text : Uuid → String
  pub parse_uuid : String → Option Uuid
  pub isoformat : Instant → String
  pub fromisoformat : String → Option Instant
  pub parse_uuid-uuid_text : (i : Uuid) → parse_uuid (uuid_text i) ≡ some i
  pub fromisoformat-isoformat : (t : Instant) → fromisoformat (isoformat t) ≡ some t

-- One row of software_engineering_runs.
pub record Row : Type 0 where
  pub action_id : String
  pub executor_role : String
  pub capability : String
  pub target : String
  pub delegation_status : Option String
  pub pending_objective : Option String
  pub approval_status : Option String
  pub approved_at : Option String
  pub rejected_at : Option String
  pub claim_id : Option String
  pub claimed_at : Option String
  pub execution_started_at : Option String
  pub claim_resolution : Option String
  pub claim_reconciled_at : Option String
  pub execution_status : Option String
  pub execution_finished_at : Option String
  pub external_execution_performed : Option ℕ
  pub disposition : Option String
  pub disposition_succeeded : Option ℕ
  pub worktree_present : Option ℕ
  pub branch_present : Option ℕ
  pub canonical_unchanged : Option ℕ
  pub promotion_commit_sha : Option String
  pub pull_request_number : Option ℕ
  pub pull_request_url : Option String
  pub promotion_base_branch : Option String
  pub promotion_head_branch : Option String
  pub promotion_finished_at : Option String
  pub created_at : Option String
  pub updated_at : Option String

abbrev pub Table : Type 0
Table = Dict String Row

-- The `value` of the enumerations, and the constructors `SoftwareEngineeringApprovalStatus(text)`
-- and so on, which raise on any other text.
unfoldable pub approval_value : ApprovalStatus → String
approval_value awaiting_approval = "awaiting_approval"
approval_value approved = "approved"
approval_value rejected = "rejected"

unfoldable pub approval_of : String → Option ApprovalStatus
approval_of t =
    if t == "awaiting_approval"
    then some awaiting_approval
    else if t == "approved"
    then some approved
    else if t == "rejected"
    then some rejected
    else none

unfoldable pub resolution_value : ClaimResolution → String
resolution_value released_before_start = "released_before_start"
resolution_value abandoned_after_start = "abandoned_after_start"

unfoldable pub resolution_of : String → Option ClaimResolution
resolution_of t =
    if t == "released_before_start"
    then some released_before_start
    else if t == "abandoned_after_start"
    then some abandoned_after_start
    else none

unfoldable pub disposition_value : WorkProductDisposition → String
disposition_value keep = "keep"
disposition_value discard = "discard"

unfoldable pub disposition_of : String → Option WorkProductDisposition
disposition_of t = if t == "keep" then some keep else if t == "discard" then some discard else none

-- A parser's refusal is the ValueError that `_state_from_row` reports.
abbrev pub parsed : {A : Type 0} → Option A → Result RunError A
parsed none = err invalid_row
parsed (some a) = ok a

-- `parse(str(value)) if value is not None else None`
abbrev pub optional :
    {A : Type 0} → (String → Option A) → Option String → Result RunError (Option A)
optional parse none = ok none
optional parse (some t) = parsed (parse t) >>= λ a. ok (some a)

-- _optional_bool of an integer column
unfoldable pub optional_bool : Option ℕ → Option Bool
optional_bool none = none
optional_bool (some n) = some (not (n == 0))

-- _state_from_row
unfoldable pub state_from_row : Codec → Row → Result RunError RunState
state_from_row codec row = do
  action_id ← parsed (codec.parse_uuid row.action_id)
  approval_status ← optional approval_of row.approval_status
  approved_at ← optional codec.fromisoformat row.approved_at
  rejected_at ← optional codec.fromisoformat row.rejected_at
  claim_id ← optional codec.parse_uuid row.claim_id
  claimed_at ← optional codec.fromisoformat row.claimed_at
  execution_started_at ← optional codec.fromisoformat row.execution_started_at
  claim_resolution ← optional resolution_of row.claim_resolution
  claim_reconciled_at ← optional codec.fromisoformat row.claim_reconciled_at
  execution_finished_at ← optional codec.fromisoformat row.execution_finished_at
  disposition ← optional disposition_of row.disposition
  promotion_finished_at ← optional codec.fromisoformat row.promotion_finished_at
  created_at ← optional codec.fromisoformat row.created_at
  updated_at ← optional codec.fromisoformat row.updated_at
  ok (record {
    action_id = action_id;
    executor_role = row.executor_role;
    capability = row.capability;
    target = row.target;
    delegation_status = row.delegation_status;
    pending_objective = row.pending_objective;
    approval_status = approval_status;
    approved_at = approved_at;
    rejected_at = rejected_at;
    claim_id = claim_id;
    claimed_at = claimed_at;
    execution_started_at = execution_started_at;
    claim_resolution = claim_resolution;
    claim_reconciled_at = claim_reconciled_at;
    execution_status = row.execution_status;
    execution_finished_at = execution_finished_at;
    external_execution_performed = optional_bool row.external_execution_performed;
    disposition = disposition;
    disposition_succeeded = optional_bool row.disposition_succeeded;
    worktree_present = optional_bool row.worktree_present;
    branch_present = optional_bool row.branch_present;
    canonical_unchanged = optional_bool row.canonical_unchanged;
    promotion_commit_sha = row.promotion_commit_sha;
    pull_request_number = row.pull_request_number;
    pull_request_url = row.pull_request_url;
    promotion_base_branch = row.promotion_base_branch;
    promotion_head_branch = row.promotion_head_branch;
    promotion_finished_at = promotion_finished_at;
    created_at = created_at;
    updated_at = updated_at;
  })
