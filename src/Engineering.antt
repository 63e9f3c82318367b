-- ===== src/Engineering.antt =====
-- The software-engineering services, integrations/software_engineering*.py: what they share. The
-- `SoftwareEngineeringRunRepository` protocol is a record of operations on a store.
pub mod Control
pub mod Workspace
pub mod WorkProduct
pub mod Disposition
pub mod Continuation
pub mod Observer
pub mod Publication
pub mod WorkCommit
pub mod Promotion
pub mod Recovery
use velox_server.Prelude.{String, Bool, Option, some, List, not, ◌||◌, ◌==◌, string_eq, nat_eq}
use velox_server.Prelude.Result.{Result, ok, Step}
use velox_server.Prelude.Dict
use velox_server.Actions.{Uuid, Instant, software_engineering, role_value}
use velox_server.Runs.{
  ActionClaim, RunState, RunError, Registration, DispositionRecord, PromotionRecord,
}
use velox_server.Runs.Memory
use velox_server.Runs.Memory.{Runs}
use velox_server.Runs.Table.{Codec, Table}
use velox_server.Runs.Table.Statements
use velox_server.Runs.Table.Operations

pub record RunRepository (S : Type 0) : Type 0 where
  pub get : Uuid → S → Result RunError (Option RunState)
  pub list_pending_approval : S → Result RunError (List RunState)
  pub register_action : Registration → Instant → Step S RunError RunState
  pub record_approval : Uuid → String → Instant → Instant → Step S RunError RunState
  pub record_rejection : Uuid → Instant → Instant → Step S RunError RunState
  pub claim_approved : Uuid → Uuid → Instant → Step S RunError ActionClaim
  pub record_execution_started : Uuid → Instant → Instant → Step S RunError RunState
  pub release_unstarted_claim : Uuid → Instant → Instant → Step S RunError RunState
  pub abandon_started_claim : Uuid → Instant → Instant → Step S RunError RunState
  pub record_execution : Uuid → String → Instant → Bool → Instant → Step S RunError RunState
  pub record_disposition : DispositionRecord → Instant → Step S RunError RunState
  pub record_promotion : PromotionRecord → Instant → Step S RunError RunState

abbrev pub memory_repository : RunRepository Runs
memory_repository = record {
  get = λ i m. ok (Dict.get m i);
  list_pending_approval = λ m. ok (Memory.list_pending_approval m);
  register_action = Memory.register_action;
  record_approval = Memory.record_approval;
  record_rejection = Memory.record_rejection;
  claim_approved = Memory.claim_approved;
  record_execution_started = Memory.record_execution_started;
  release_unstarted_claim = Memory.release_unstarted_claim;
  abandon_started_claim = Memory.abandon_started_claim;
  record_execution = Memory.record_execution;
  record_disposition = Memory.record_disposition;
  record_promotion = Memory.record_promotion;
}

abbrev pub sqlite_repository : Codec → RunRepository Table
sqlite_repository codec = record {
  get = Operations.find codec;
  list_pending_approval = Operations.list_pending_approval codec;
  register_action = Operations.register_action codec;
  record_approval = Operations.record_approval codec;
  record_rejection = Operations.record_rejection codec;
  claim_approved = Statements.claim_approved codec;
  record_execution_started = Operations.record_execution_started codec;
  release_unstarted_claim = Operations.release_unstarted_claim codec;
  abandon_started_claim = Operations.abandon_started_claim codec;
  record_execution = Operations.record_execution codec;
  record_disposition = Operations.record_disposition codec;
  record_promotion = Operations.record_promotion codec;
}

-- SOFTWARE_ENGINEERING_IMPLEMENT_CAPABILITY
abbrev pub implement_capability : String
implement_capability = "code.implement"

-- The route test that each service makes on a run state.
unfoldable pub is_canonical_state : RunState → Bool
unfolding role_value
is_canonical_state s = not (
    not (s.executor_role == role_value software_engineering)
    || not (s.capability == implement_capability))

-- WorkProductReview
pub record WorkProductReview : Type 0 where
  pub action_id : Uuid
  pub worktree_path : String
  pub branch : String
  pub changed_files : List String
  pub untracked_files : List String
  pub diff_stat : String
  pub diff : String
  pub diff_truncated : Bool
  pub dirty : Bool
  pub canonical_clean : Bool
  pub canonical_unchanged : Bool
