-- ===== src/Engineering/Control.antt =====
-- integrations/software_engineering_run_control.py: the status of a run, and the reconciliation
-- of a claim whose outcome is not known.
pub mod Reconcile
use Prim.Native.String.{◌++◌}
use velox_server.Prelude.{
  ℕ, String, Bool, true, false, Option, none, some, option_map, or_else, is_none, not, ◌&&◌, ◌||◌,
  ◌==◌, string_eq, option_eq, List, [], ◌∷◌, length, if◌then◌else◌,
}
use velox_server.Prelude.Result.{Result, ok, err, raise_if, ◌>>=◌, ◌>>◌, Step, continue}
use velox_server.Actions.{Uuid, Instant}
use velox_server.Runs.{
  ApprovalStatus, ClaimResolution, released_before_start, abandoned_after_start,
  WorkProductDisposition, RunState, RunError, is_approved, is_rejected, is_awaiting, is_abandoned,
}
use velox_server.Runs
use velox_server.Runs.Table.{Codec, resolution_value}
use velox_server.Engineering.{RunRepository, is_canonical_state, WorkProductReview}

pub data RunPhase : Type 0 where
  registered route_rejected awaiting_approval approved claimed running_or_ambiguous : RunPhase
  abandoned rejected succeeded failed skipped kept discarded promoted : RunPhase

pub data ClaimReconciliation : Type 0 where
  release abandon : ClaimReconciliation

pub data InspectionStatus : Type 0 where
  not_applicable available unavailable : InspectionStatus

pub record WorkProductSummary : Type 0 where
  pub status : InspectionStatus
  pub dirty : Option Bool
  pub changed_files_count : Option ℕ
  pub untracked_files_count : Option ℕ
  pub canonical_clean : Option Bool
  pub canonical_unchanged : Option Bool

pub record RunStatus : Type 0 where
  pub action_id : Uuid
  pub target : String
  pub phase : RunPhase
  pub approval_status : Option ApprovalStatus
  pub claimed : Bool
  pub worker_started : Bool
  pub execution_status : Option String
  pub external_execution_performed : Option Bool
  pub disposition : Option WorkProductDisposition
  pub claim_resolution : Option ClaimResolution
  pub promoted : Bool
  pub pull_request_number : Option ℕ
  pub pull_request_url : Option String
  pub promotion_base_branch : Option String
  pub promotion_head_branch : Option String
  pub reconciliation_options : List ClaimReconciliation
  pub retriable : Bool
  pub state_token : String
  pub work_product : WorkProductSummary

-- SoftwareEngineeringRunControlNotFoundError, and SoftwareEngineeringRunControlStateError by
-- its message.
pub data ControlError : Type 0 where
  not_found state_unavailable state_moved no_version not_releasable not_acknowledged : ControlError
  not_abandonable inspection_unavailable failed_closed : ControlError

unfoldable pub is_keep : Option WorkProductDisposition → Bool
is_keep (some Runs.keep) = true
is_keep _ = false

unfoldable pub is_discard : Option WorkProductDisposition → Bool
is_discard (some Runs.discard) = true
is_discard _ = false

-- _phase
unfoldable pub phase : RunState → RunPhase
unfolding is_keep is_discard is_abandoned is_rejected is_approved is_awaiting
phase s =
    if not (is_none s.promotion_finished_at)
    then promoted
    else if or_else s.disposition_succeeded false && is_keep s.disposition
    then kept
    else if or_else s.disposition_succeeded false && is_discard s.disposition
    then discarded
    else if s.execution_status == some "succeeded"
    then succeeded
    else if s.execution_status == some "failed"
    then failed
    else if s.execution_status == some "skipped"
    then skipped
    else if is_abandoned s.claim_resolution
    then abandoned
    else if not (is_none s.claim_id) && not (is_none s.execution_started_at)
    then running_or_ambiguous
    else if not (is_none s.claim_id)
    then claimed
    else if is_rejected s.approval_status
    then rejected
    else if is_approved s.approval_status
    then approved
    else if is_awaiting s.approval_status
    then awaiting_approval
    else if s.delegation_status == some "route_rejected"
    then route_rejected
    else registered

-- _reconciliation_options
unfoldable pub reconciliation_options : RunState → List ClaimReconciliation
unfolding is_abandoned
reconciliation_options s =
    if not (is_none s.execution_status) || is_none s.claim_id
    then []
    else if is_abandoned s.claim_resolution
    then []
    else if is_none s.execution_started_at
    then release ∷ []
    else abandon ∷ []

unfoldable pub retriable : RunState → Bool
unfolding is_approved is_abandoned
retriable s =
    is_approved s.approval_status
    && is_none s.claim_id
    && is_none s.execution_status
    && not (is_abandoned s.claim_resolution)

-- `ABANDON in options`
unfoldable pub offers_abandon : List ClaimReconciliation → Bool
offers_abandon [] = false
offers_abandon (abandon ∷ xs) = true
offers_abandon (release ∷ xs) = offers_abandon xs

-- `review` of the inspector: `none` where it raises WorkProductIdentityError.
abbrev pub Inspector : Type 0
Inspector = Uuid → Option WorkProductReview

abbrev pub uninspected : InspectionStatus → WorkProductSummary
uninspected status = record {
  status = status;
  dirty = none;
  changed_files_count = none;
  untracked_files_count = none;
  canonical_clean = none;
  canonical_unchanged = none;
}

summary_of : Option WorkProductReview → WorkProductSummary
summary_of none = uninspected unavailable
summary_of (some r) = record {
  status = available;
  dirty = some r.dirty;
  changed_files_count = some (length r.changed_files);
  untracked_files_count = some (length r.untracked_files);
  canonical_clean = some r.canonical_clean;
  canonical_unchanged = some r.canonical_unchanged;
}

-- _inspect_work_product
unfoldable pub inspect_work_product : Option Inspector → Uuid → WorkProductSummary
unfolding summary_of
inspect_work_product none i = uninspected unavailable
inspect_work_product (some review) i = summary_of (review i)

-- _inspect_for_abandon: a review that raises is an inspection result too.
unfoldable pub inspect_for_abandon : Option Inspector → Result ControlError (Unit {0})
inspect_for_abandon none = err inspection_unavailable
inspect_for_abandon (some review) = ok tt

-- _require_releasable
unfoldable pub require_releasable : RunState → Result ControlError (Unit {0})
unfolding is_approved
require_releasable s =
    raise_if
      (is_none s.claim_id
        || not (is_none s.execution_started_at)
        || not (is_none s.execution_status)
        || not (is_approved s.approval_status))
      not_releasable

-- _require_abandonable
unfoldable pub require_abandonable : RunState → Bool → Result ControlError (Unit {0})
unfolding is_abandoned
require_abandonable s acknowledged = do
  raise_if (not acknowledged) not_acknowledged
  raise_if
      (is_none s.claim_id
        || is_none s.execution_started_at
        || not (is_none s.execution_status)
        || is_abandoned s.claim_resolution)
      not_abandonable

-- What a repository raises, as the service reports it.
unfoldable pub reported : {A : Type 0} → ControlError → Result RunError A → Result ControlError A
reported e (ok a) = ok a
reported e (err _) = err e

-- hashlib.sha256(…).hexdigest() is a parameter.
module _ (codec : Codec) (sha256 : String → String) where
  abbrev column : {A : Type 0} → (A → String) → Option A → String
  column print none = ""
  column print (some a) = print a

  -- _state_token
  unfoldable pub state_token : RunState → Result ControlError String
  unfolding resolution_value
  state_token s = elim s.updated_at [
    | none ↦ err no_version
    | some updated_at ↦ ok (
        sha256 (
          codec.uuid_text s.action_id
          ++ "|"
          ++ codec.isoformat updated_at
          ++ "|"
          ++ column codec.uuid_text s.claim_id
          ++ "|"
          ++ column codec.isoformat s.execution_started_at
          ++ "|"
          ++ or_else s.execution_status ""
          ++ "|"
          ++ column resolution_value s.claim_resolution))
  ]

  -- _status_from_state
  unfoldable pub status_from_state : Option Inspector → RunState → Result ControlError RunStatus
  unfolding state_token phase reconciliation_options retriable offers_abandon inspect_work_product
      is_abandoned
  status_from_state inspector s = do
    token ← state_token s
    ok (record {
      action_id = s.action_id;
      target = s.target;
      phase = phase s;
      approval_status = s.approval_status;
      claimed = not (is_none s.claim_id);
      worker_started = not (is_none s.execution_started_at);
      execution_status = s.execution_status;
      external_execution_performed = s.external_execution_performed;
      disposition = s.disposition;
      claim_resolution = s.claim_resolution;
      promoted = not (is_none s.promotion_finished_at);
      pull_request_number = s.pull_request_number;
      pull_request_url = s.pull_request_url;
      promotion_base_branch = s.promotion_base_branch;
      promotion_head_branch = s.promotion_head_branch;
      reconciliation_options = reconciliation_options s;
      retriable = retriable s;
      state_token = token;
      work_product =
          (if offers_abandon (reconciliation_options s) || is_abandoned s.claim_resolution
            then inspect_work_product inspector s.action_id
            else uninspected not_applicable);
    })

  module _ {S : Type 0} (repository : RunRepository S) (inspector : Option Inspector) where
    unfoldable pub canonical : Option RunState → Result ControlError RunState
    unfolding is_canonical_state
    canonical none = err not_found
    canonical (some s) = if is_canonical_state s then ok s else err not_found

    -- _get
    unfoldable pub fetch : Uuid → S → Result ControlError RunState
    unfolding reported canonical
    fetch i store = reported state_unavailable (repository.get i store) >>= canonical

    unfoldable pub get_status : Uuid → S → Result ControlError RunStatus
    unfolding fetch status_from_state
    get_status i store = fetch i store >>= status_from_state inspector

    -- The repository's error inside `reconcile`, and the status after it.
    unfoldable pub finish : Result RunError RunState × S → Result ControlError RunStatus × S
    unfolding reported status_from_state
    finish (answer, store) = (reported failed_closed answer >>= status_from_state inspector, store)

    -- The guarded write of `reconcile`, for each resolution.
    unfoldable pub settle :
        ClaimReconciliation
        → Bool
        → Uuid
        → Instant
        → Instant
        → RunState
        → Step S ControlError RunStatus
    unfolding require_releasable require_abandonable inspect_for_abandon finish
    settle release acknowledged i version now s store =
        continue (require_releasable s, store)
          λ _ store. finish (repository.release_unstarted_claim i version now store)
    settle abandon acknowledged i version now s store =
        continue (require_abandonable s acknowledged >> inspect_for_abandon inspector, store)
          λ _ store. finish (repository.abandon_started_claim i version now store)

    -- reconcile
    unfoldable pub reconcile :
        Uuid → ClaimReconciliation → String → Bool → Instant → Step S ControlError RunStatus
    unfolding fetch state_token settle
    reconcile i resolution token acknowledged now store =
        continue (fetch i store, store)
          λ s store.
            continue (state_token s, store)
              λ current store.
                continue (raise_if (not (current == token)) state_moved, store)
                  λ _ store. elim s.updated_at [
                    | none ↦ (err no_version, store)
                    | some version ↦ settle resolution acknowledged i version now s store
                  ]
