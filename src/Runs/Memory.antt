-- ===== src/Runs/Memory.antt =====
-- `InMemorySoftwareEngineeringRunRepository`: the abstract store of run states.
pub mod Changes
pub mod Sound
pub mod Started
pub mod Calls
use velox_server.Prelude.{
  ℕ, String, Bool, true, false, Option, none, some, is_none, not, ◌&&◌, ◌||◌, ◌==◌, nat_eq,
  option_eq, List, keep, if◌then◌else◌, ◌≡◌, refl,
}
use velox_server.Prelude.Result.{Result, ok, err, raise_if, ◌>>=◌, ◌>>◌, Step}
use velox_server.Prelude.Dict
use velox_server.Prelude.Dict.{Dict}
use velox_server.Actions.{Uuid, Instant}
use velox_server.Runs.{
  ApprovalStatus, approved, rejected, released_before_start, abandoned_after_start, ActionClaim,
  RunState, RunError, run_missing, rejected_not_approvable, claimed_not_rejectable,
  not_durably_approved, has_result, has_claim, no_claim, already_started, never_started,
  state_changed, normalize_objective, normalize_required_objective, require_compatible_objective,
  require_same_identity, is_approved, is_rejected, is_awaiting, Registration, new_run, prefer,
  DispositionRecord, PromotionRecord,
}

abbrev pub Runs : Type 0
Runs = Dict Uuid RunState

-- One operation on a known run: `_require`, the guards and `replace` of `change`, and the write.
unfoldable pub revise : (RunState → Result RunError RunState) → Uuid → Step Runs RunError RunState
revise change i m = elim (Dict.get m i) [
  | none ↦ (err run_missing, m)
  | some current ↦ elim (change current) [
    | err e ↦ (err e, m)
    | ok state ↦ (ok state, Dict.put m i state)
  ]
]

module _ (change : RunState → Result RunError RunState) (i : Uuid) (m : Runs) where
  pub revise-none : Dict.get m i ≡ none → revise change i m ≡ (err run_missing, m)
  unfolding revise
  revise-none p = rw (p, revise) refl

  module _ (s : RunState) where
    pub revise_err :
        (e : RunError) → Dict.get m i ≡ some s → change s ≡ err e → revise change i m ≡ (err e, m)
    unfolding revise
    revise_err e p q = rw (p, revise) (rw q refl)

    pub revise_ok :
        (s' : RunState)
        → Dict.get m i ≡ some s
        → change s ≡ ok s'
        → revise change i m ≡ (ok s', Dict.put m i s')
    unfolding revise
    revise_ok s' p q = rw (p, revise) (rw q refl)

-- The guards and the `replace` of each operation, on the current state.
unfoldable pub reregistered :
    Registration → Option String → Instant → RunState → Result RunError RunState
reregistered r objective now s = do
  require_same_identity s r.target r.executor_role r.capability
  require_compatible_objective s objective
  ok (record s {
    delegation_status = prefer r.delegation_status s.delegation_status;
    pending_objective = prefer s.pending_objective objective;
    approval_status = prefer r.approval_status s.approval_status;
    updated_at = some now;
  })

unfoldable pub approving : String → Instant → Instant → RunState → Result RunError RunState
approving objective approved_at now s = do
  normalized ← normalize_required_objective (some objective)
  require_compatible_objective s (some normalized)
  raise_if (is_rejected s.approval_status) rejected_not_approvable
  ok (record s {
    pending_objective = some normalized;
    approval_status = some approved;
    approved_at = some approved_at;
    updated_at = some now;
  })

unfoldable pub rejecting : Instant → Instant → RunState → Result RunError RunState
rejecting rejected_at now s = do
  raise_if (not (is_none s.claim_id) || not (is_none s.execution_status)) claimed_not_rejectable
  ok (record s {
    pending_objective = none;
    approval_status = some rejected;
    rejected_at = some rejected_at;
    updated_at = some now;
  })

unfoldable pub claimed : Uuid → Instant → RunState → RunState
claimed claim_id now s = record s {
  claim_id = some claim_id;
  claimed_at = some now;
  claim_resolution = none;
  claim_reconciled_at = none;
  updated_at = some now;
}

-- `claim_approved` up to its write: the objective of the claim and the claimed state.
unfoldable pub claiming : Uuid → Instant → RunState → Result RunError (String × RunState)
unfolding claimed
claiming claim_id now s = do
  raise_if (not (is_approved s.approval_status)) not_durably_approved
  raise_if (not (is_none s.execution_status)) has_result
  raise_if (not (is_none s.claim_id)) has_claim
  objective ← normalize_required_objective s.pending_objective
  ok (objective, claimed claim_id now s)

unfoldable pub starting : Instant → Instant → RunState → Result RunError RunState
starting started_at now s = do
  raise_if (is_none s.claim_id) no_claim
  raise_if (not (is_none s.execution_status)) has_result
  ok (record s { execution_started_at = some started_at; updated_at = some now })

unfoldable pub released : Instant → RunState → RunState
released reconciled_at s = record s {
  claim_id = none;
  claimed_at = none;
  claim_resolution = some released_before_start;
  claim_reconciled_at = some reconciled_at;
  updated_at = some reconciled_at;
}

unfoldable pub releasing : Instant → Instant → RunState → Result RunError RunState
unfolding released
releasing expected reconciled_at s = do
  raise_if (not (s.updated_at == some expected)) state_changed
  raise_if (is_none s.claim_id) no_claim
  raise_if (not (is_none s.execution_started_at)) already_started
  raise_if (not (is_none s.execution_status)) has_result
  ok (released reconciled_at s)

unfoldable pub abandoned : Instant → RunState → RunState
abandoned reconciled_at s = record s {
  pending_objective = none;
  claim_resolution = some abandoned_after_start;
  claim_reconciled_at = some reconciled_at;
  updated_at = some reconciled_at;
}

unfoldable pub abandoning : Instant → Instant → RunState → Result RunError RunState
unfolding abandoned
abandoning expected reconciled_at s = do
  raise_if (not (s.updated_at == some expected)) state_changed
  raise_if (is_none s.claim_id) no_claim
  raise_if (is_none s.execution_started_at) never_started
  raise_if (not (is_none s.execution_status)) has_result
  ok (abandoned reconciled_at s)

unfoldable pub executed : String → Instant → Bool → Instant → RunState → RunState
executed status finished_at external now s = record s {
  pending_objective = none;
  execution_status = some status;
  execution_finished_at = some finished_at;
  external_execution_performed = some external;
  updated_at = some now;
}

unfoldable pub disposed : DispositionRecord → Instant → RunState → RunState
disposed d now s = record s {
  disposition = some d.disposition;
  disposition_succeeded = some d.succeeded;
  worktree_present = some d.worktree_present;
  branch_present = some d.branch_present;
  canonical_unchanged = some d.canonical_unchanged;
  updated_at = some now;
}

unfoldable pub promoted : PromotionRecord → Instant → RunState → RunState
promoted p now s = record s {
  promotion_commit_sha = some p.commit_sha;
  pull_request_number = some p.pull_request_number;
  pull_request_url = some p.pull_request_url;
  promotion_base_branch = some p.base_branch;
  promotion_head_branch = some p.head_branch;
  promotion_finished_at = some p.finished_at;
  updated_at = some now;
}

-- The public operations; `now` is the clock, and `claim_id` the fresh UUID of a claim.
unfoldable pub register_action : Registration → Instant → Step Runs RunError RunState
register_action r now m = elim (normalize_objective r.objective) [
  | err e ↦ (err e, m)
  | ok objective ↦ elim (Dict.get m r.action_id) [
    | some current ↦ revise (reregistered r objective now) r.action_id m
    | none ↦ let state = new_run r objective now in (ok state, Dict.put m r.action_id state)
  ]
]

pub register_new :
    (r : Registration) (objective : Option String) (now : Instant) (m : Runs)
    → normalize_objective r.objective ≡ ok objective
    → Dict.get m r.action_id ≡ none
    → register_action r now m
      ≡ (ok (new_run r objective now), Dict.put m r.action_id (new_run r objective now))
unfolding register_action
register_new r objective now m p q = rw (p, register_action) (rw q refl)

pub register_known :
    (r : Registration) (objective : Option String) (now : Instant) (m : Runs) (s s' : RunState)
    → normalize_objective r.objective ≡ ok objective
    → Dict.get m r.action_id ≡ some s
    → reregistered r objective now s ≡ ok s'
    → register_action r now m ≡ (ok s', Dict.put m r.action_id s')
unfolding register_action
register_known r objective now m s s' p q e =
    rw (p, register_action) (rw q (revise_ok (reregistered r objective now) r.action_id m s s' q e))

unfoldable pub record_approval : Uuid → String → Instant → Instant → Step Runs RunError RunState
unfolding revise approving
record_approval i objective approved_at now = revise (approving objective approved_at now) i

unfoldable pub record_rejection : Uuid → Instant → Instant → Step Runs RunError RunState
unfolding revise rejecting
record_rejection i rejected_at now = revise (rejecting rejected_at now) i

unfoldable pub claim_approved : Uuid → Uuid → Instant → Step Runs RunError ActionClaim
claim_approved i claim_id now m = elim (Dict.get m i) [
  | none ↦ (err run_missing, m)
  | some current ↦ elim (claiming claim_id now current) [
    | err e ↦ (err e, m)
    | ok (objective, state) ↦ (
      ok (record {
        action_id = i;
        claim_id = claim_id;
        target = current.target;
        objective = objective;
        claimed_at = now;
      }),
      Dict.put m i state,
    )
  ]
]

unfoldable pub record_execution_started : Uuid → Instant → Instant → Step Runs RunError RunState
unfolding revise starting
record_execution_started i started_at now = revise (starting started_at now) i

unfoldable pub release_unstarted_claim : Uuid → Instant → Instant → Step Runs RunError RunState
unfolding revise releasing
release_unstarted_claim i expected reconciled_at = revise (releasing expected reconciled_at) i

unfoldable pub abandon_started_claim : Uuid → Instant → Instant → Step Runs RunError RunState
unfolding revise abandoning
abandon_started_claim i expected reconciled_at = revise (abandoning expected reconciled_at) i

unfoldable pub record_execution :
    Uuid → String → Instant → Bool → Instant → Step Runs RunError RunState
unfolding revise executed
record_execution i status finished_at external now =
    revise (λ s. ok (executed status finished_at external now s)) i

unfoldable pub record_disposition : DispositionRecord → Instant → Step Runs RunError RunState
unfolding revise disposed
record_disposition d now = revise (λ s. ok (disposed d now s)) d.action_id

unfoldable pub record_promotion : PromotionRecord → Instant → Step Runs RunError RunState
unfolding revise promoted
record_promotion p now = revise (λ s. ok (promoted p now s)) p.action_id

-- The condition of list_pending_approval.
unfoldable pub is_pending : RunState → Bool
is_pending s = is_awaiting s.approval_status && is_none s.claim_id && is_none s.execution_status

unfoldable pub list_pending_approval : Runs → List RunState
unfolding is_pending
list_pending_approval m = keep is_pending (Dict.values m)
