-- ===== src/Runs.antt =====
-- integrations/software_engineering_state.py: the durable evidence of one software-engineering
-- action, and what each operation of a run repository does to it.
pub mod Memory
pub mod Table
use velox_server.Prelude.{
  ℕ, String, Bool, true, false, Option, none, some, is_none, or_else, not, ◌&&◌, ◌||◌, ◌==◌,
  string_eq, nat_eq, if◌then◌else◌,
}
use velox_server.Prelude.Result.{Result, ok, err, raise_if, ◌>>=◌, ◌>>◌}
use velox_server.Prelude.Text.{strip, is_blank}
use velox_server.Actions.{Uuid, Instant}

pub data ApprovalStatus : Type 0 where
  awaiting_approval approved rejected : ApprovalStatus

pub data ClaimResolution : Type 0 where
  released_before_start abandoned_after_start : ClaimResolution

pub data WorkProductDisposition : Type 0 where
  keep discard : WorkProductDisposition

-- SoftwareEngineeringActionClaim
pub record ActionClaim : Type 0 where
  pub action_id : Uuid
  pub claim_id : Uuid
  pub target : String
  pub objective : String
  pub claimed_at : Instant

-- SoftwareEngineeringRunState
pub record RunState : Type 0 where
  pub action_id : Uuid
  pub executor_role : String
  pub capability : String
  pub target : String
  pub delegation_status : Option String
  pub pending_objective : Option String
  pub approval_status : Option ApprovalStatus
  pub approved_at : Option Instant
  pub rejected_at : Option Instant
  pub claim_id : Option Uuid
  pub claimed_at : Option Instant
  pub execution_started_at : Option Instant
  pub claim_resolution : Option ClaimResolution
  pub claim_reconciled_at : Option Instant
  pub execution_status : Option String
  pub execution_finished_at : Option Instant
  pub external_execution_performed : Option Bool
  pub disposition : Option WorkProductDisposition
  pub disposition_succeeded : Option Bool
  pub worktree_present : Option Bool
  pub branch_present : Option Bool
  pub canonical_unchanged : Option Bool
  pub promotion_commit_sha : Option String
  pub pull_request_number : Option ℕ
  pub pull_request_url : Option String
  pub promotion_base_branch : Option String
  pub promotion_head_branch : Option String
  pub promotion_finished_at : Option Instant
  pub created_at : Option Instant
  pub updated_at : Option Instant

-- SoftwareEngineeringRunStateError, by its message
pub data RunError : Type 0 where
  run_missing objective_blank objective_unavailable objective_conflict identity_conflict : RunError
  rejected_not_approvable claimed_not_rejectable : RunError
  not_durably_approved has_result has_claim no_claim already_started never_started : RunError
  state_changed claim_not_released claim_not_abandoned claim_not_atomic : RunError
  not_registered invalid_row : RunError

-- _normalize_objective
unfoldable pub normalize_objective : Option String → Result RunError (Option String)
normalize_objective none = ok none
normalize_objective (some v) = if is_blank v then err objective_blank else ok (some (strip v))

unwrap_objective : Option String → Result RunError String
unwrap_objective none = err objective_unavailable
unwrap_objective (some v) = ok v

-- _normalize_required_objective
unfoldable pub normalize_required_objective : Option String → Result RunError String
unfolding normalize_objective unwrap_objective
normalize_required_objective v = normalize_objective v >>= unwrap_objective

-- The condition of _require_compatible_objective
unfoldable pub conflicts_with : Option String → Option String → Bool
conflicts_with (some pending) (some objective) = not (pending == objective)
conflicts_with _ _ = false

-- _require_compatible_objective
unfoldable pub require_compatible_objective : RunState → Option String → Result RunError (Unit {0})
unfolding conflicts_with
require_compatible_objective s objective =
    raise_if (conflicts_with s.pending_objective objective) objective_conflict

-- _require_same_identity
unfoldable pub require_same_identity :
    RunState → String → String → String → Result RunError (Unit {0})
require_same_identity s target executor_role capability =
    raise_if
      (not (s.target == target)
        || not (s.executor_role == executor_role)
        || not (s.capability == capability))
      identity_conflict

-- `x is APPROVED` and the like, for a status that may be `None`.
unfoldable pub is_approved : Option ApprovalStatus → Bool
is_approved (some approved) = true
is_approved _ = false

unfoldable pub is_rejected : Option ApprovalStatus → Bool
is_rejected (some rejected) = true
is_rejected _ = false

unfoldable pub is_awaiting : Option ApprovalStatus → Bool
is_awaiting (some awaiting_approval) = true
is_awaiting _ = false

unfoldable pub is_abandoned : Option ClaimResolution → Bool
is_abandoned (some abandoned_after_start) = true
is_abandoned _ = false

-- What `register_action` is called with.
pub record Registration : Type 0 where
  pub action_id : Uuid
  pub target : String
  pub executor_role : String
  pub capability : String
  pub delegation_status : Option String
  pub objective : Option String
  pub approval_status : Option ApprovalStatus

-- The state of a new registration.
unfoldable pub new_run : Registration → Option String → Instant → RunState
new_run r objective now = record {
  action_id = r.action_id;
  executor_role = r.executor_role;
  capability = r.capability;
  target = r.target;
  delegation_status = r.delegation_status;
  pending_objective = objective;
  approval_status = r.approval_status;
  approved_at = none;
  rejected_at = none;
  claim_id = none;
  claimed_at = none;
  execution_started_at = none;
  claim_resolution = none;
  claim_reconciled_at = none;
  execution_status = none;
  execution_finished_at = none;
  external_execution_performed = none;
  disposition = none;
  disposition_succeeded = none;
  worktree_present = none;
  branch_present = none;
  canonical_unchanged = none;
  promotion_commit_sha = none;
  pull_request_number = none;
  pull_request_url = none;
  promotion_base_branch = none;
  promotion_head_branch = none;
  promotion_finished_at = none;
  created_at = some now;
  updated_at = some now;
}

-- `new if new is not None else old`
abbrev pub prefer {ℓ} : {A : Type ℓ} → Option A → Option A → Option A
prefer none old = old
prefer (some a) old = some a

-- The result of `WorkProductDispositionResult`, as a repository records it.
pub record DispositionRecord : Type 0 where
  pub action_id : Uuid
  pub disposition : WorkProductDisposition
  pub succeeded : Bool
  pub worktree_present : Bool
  pub branch_present : Bool
  pub canonical_unchanged : Bool

-- What `record_promotion` is called with.
pub record PromotionRecord : Type 0 where
  pub action_id : Uuid
  pub commit_sha : String
  pub pull_request_number : ℕ
  pub pull_request_url : String
  pub base_branch : String
  pub head_branch : String
  pub finished_at : Instant
