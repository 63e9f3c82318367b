-- ===== src/Engineering/Recovery.antt =====
-- integrations/software_engineering_recovery.py: actions rebuilt from durable run states, and
-- integrations/software_engineering_ingress.py, which registers them.
pub mod Registered
pub mod Decided
pub mod Durable
pub mod Stored
use velox_server.Prelude.{
  String, Bool, true, false, Option, none, some, is_none, not, ◌&&◌, ◌||◌, ◌==◌, string_eq, List,
  [], ◌∷◌, if◌then◌else◌,
}
use velox_server.Prelude.Result.{Result, ok, err, raise_if, ◌>>=◌, ◌>>◌, Step, continue}
use velox_server.Prelude.Dict
use velox_server.Prelude.Dict.{Dict}
use velox_server.Prelude.Text.{strip, is_blank}
use velox_server.Actions.{
  Uuid, Instant, Value, flag, text, identifier, obj, end, field, software_engineering, role_value,
  RoleField, no_role, known_role, text_role, Action,
}
use velox_server.Delegation.{
  TaskDelegationStatus, task_queued, awaiting_approval, task_denied, route_rejected,
  TaskDelegationRequest, TaskDelegationResult,
}
use velox_server.Runs
use velox_server.Runs.{ActionClaim, RunState, RunError, ApprovalStatus, Registration, is_awaiting}
use velox_server.Engineering.{RunRepository, implement_capability, is_canonical_state}

-- SoftwareEngineeringRecoveryNotFoundError, and SoftwareEngineeringRecoveryError by its message.
pub data RecoveryError : Type 0 where
  not_found pending_unavailable claim_unavailable not_canonical has_evidence : RecoveryError
  no_objective no_pending_objective not_registered not_approved not_rejected : RecoveryError
  not_claimed : RecoveryError

-- What the repository raises, as the service reports it.
unfoldable pub reported :
    {A S : Type 0} → RecoveryError → Result RunError A × S → Result RecoveryError A × S
reported e (ok a, store) = (ok a, store)
reported e (err _, store) = (err e, store)

-- An ExecutorRole is a text, so a text of the same value is equal to it.
unfoldable pub is_engineering_role : RoleField → Bool
unfolding role_value
is_engineering_role no_role = false
is_engineering_role (known_role r) = role_value r == role_value software_engineering
is_engineering_role (text_role t) = t == role_value software_engineering

unfoldable pub is_text : Option Value → String → Bool
is_text (some (text s)) t = s == t
is_text _ t = false

-- _is_canonical_action
unfoldable pub is_canonical_action : Action → Bool
unfolding is_engineering_role is_text
is_canonical_action a =
    is_engineering_role a.executor_role
    && a.type == implement_capability
    && is_text (Dict.get a.payload "capability") implement_capability

payload_objective : Option Value → Result RecoveryError String
payload_objective (some (text s)) = if is_blank s then err no_objective else ok (strip s)
payload_objective _ = err no_objective

-- _objective
unfoldable pub objective_of : Action → Result RecoveryError String
unfolding payload_objective
objective_of a = payload_objective (Dict.get a.payload "objective")

-- _require_canonical_state
unfoldable pub require_canonical : RunState → Result RecoveryError (Unit {0})
unfolding is_canonical_state
require_canonical s = raise_if (not (is_canonical_state s)) not_canonical

-- The action of the canonical route, with what names the recovery in its metadata. `now` is
-- the default creation time of an action.
unfoldable pub recovered_action : Uuid → String → String → Value → Instant → Action
unfolding role_value
recovered_action i target objective recovery now = record {
  id = i;
  type = implement_capability;
  target = target;
  payload = ("capability", text implement_capability) ∷ ("objective", text objective) ∷ [];
  executor_role = known_role software_engineering;
  created_at = now;
  metadata =
      (
        "task_delegation",
        obj (
            field "requested_role" (text (role_value software_engineering))
              (field "requested_capability" (text implement_capability) end)),
      )
      ∷ ("durable_recovery", recovery)
      ∷ [];
}

-- _action_from_state
unfoldable pub action_from_state : Instant → RunState → Result RecoveryError Action
unfolding recovered_action
action_from_state now s = elim s.pending_objective [
  | none ↦ err no_pending_objective
  | some objective ↦
      if is_blank objective
      then err no_pending_objective
      else ok (
          recovered_action s.action_id s.target (strip objective)
            (obj (field "pending" (flag true) end)) now)
]

module _ {S : Type 0} (repository : RunRepository S) where
  -- recover_pending, of the state that `get` found
  unfoldable pub recover_awaiting : Instant → RunState → Result RecoveryError (Option Action)
  unfolding action_from_state
  recover_awaiting now s = do
    raise_if (not (is_none s.claim_id) || not (is_none s.execution_status)) has_evidence
    action ← action_from_state now s
    ok (some action)

  unfoldable pub recover_found : Instant → Option RunState → Result RecoveryError (Option Action)
  unfolding require_canonical is_awaiting recover_awaiting
  recover_found now none = ok none
  recover_found now (some s) =
      require_canonical s
      >> (if is_awaiting s.approval_status then recover_awaiting now s else ok none)

  -- recover_pending
  unfoldable pub recover_pending : Uuid → Instant → Step S RecoveryError (Option Action)
  unfolding reported recover_found
  recover_pending i now store =
      continue (reported pending_unavailable (repository.get i store, store))
        λ found store. (recover_found now found, store)

  unfoldable pub recover_all : Instant → List RunState → Result RecoveryError (List Action)
  unfolding require_canonical action_from_state
  recover_all now [] = ok []
  recover_all now (s ∷ ss) = do
    require_canonical s
    action ← action_from_state now s
    rest ← recover_all now ss
    ok (action ∷ rest)

  -- list_pending
  unfoldable pub list_pending : Instant → Step S RecoveryError (List Action)
  unfolding reported recover_all
  list_pending now store =
      continue (reported pending_unavailable (repository.list_pending_approval store, store))
        λ states store. (recover_all now states, store)

  -- What `_ensure_registered` registers: only a new run is put awaiting.
  unfoldable pub registration_of : Action → String → Option RunState → Registration
  unfolding role_value
  registration_of a objective current = record {
    action_id = a.id;
    target = a.target;
    executor_role = role_value software_engineering;
    capability = implement_capability;
    delegation_status = none;
    objective = some objective;
    approval_status = (if is_none current then some Runs.awaiting_approval else none);
  }

  -- _ensure_registered
  unfoldable pub ensure_registered : Action → String → Instant → Step S RecoveryError RunState
  unfolding reported registration_of
  ensure_registered a objective now store =
      continue (reported not_registered (repository.get a.id store, store)) λ current store.
        reported not_registered
          (repository.register_action (registration_of a objective current) now store)

  -- What both decisions do before their write.
  unfoldable pub prepare : Action → Instant → Step S RecoveryError String
  unfolding objective_of ensure_registered
  prepare a now store =
      continue (objective_of a, store)
        λ objective store.
          continue (ensure_registered a objective now store) λ _ store. (ok objective, store)

  -- record_approved
  unfoldable pub record_approved : Action → Instant → Step S RecoveryError (Unit {0})
  unfolding is_canonical_action prepare reported
  record_approved a now store =
      if is_canonical_action a
      then (continue (prepare a now store) λ objective store.
          continue (reported not_approved (repository.record_approval a.id objective now now store))
            λ _ store. (ok tt, store))
      else (ok tt, store)

  -- record_rejected
  unfoldable pub record_rejected : Action → Instant → Step S RecoveryError (Unit {0})
  unfolding is_canonical_action prepare reported
  record_rejected a now store =
      if is_canonical_action a
      then (continue (prepare a now store) λ _ store.
          continue (reported not_rejected (repository.record_rejection a.id now now store))
            λ _ store. (ok tt, store))
      else (ok tt, store)

  -- The action of a claim.
  unfoldable pub claimed_action : Instant → ActionClaim → Action
  unfolding recovered_action
  claimed_action now c =
      recovered_action c.action_id c.target c.objective
        (obj (field "claim_id" (identifier c.claim_id) end)) now

  unfoldable pub claim_found : Uuid → Uuid → Instant → Option RunState → Step S RecoveryError Action
  unfolding require_canonical reported claimed_action
  claim_found i claim_id now none store = (err not_found, store)
  claim_found i claim_id now (some s) store =
      continue (require_canonical s, store)
        λ _ store.
          continue (reported not_claimed (repository.claim_approved i claim_id now store))
            λ c store. (ok (claimed_action now c), store)

  -- claim
  unfoldable pub claim : Uuid → Uuid → Instant → Step S RecoveryError Action
  unfolding reported claim_found
  claim i claim_id now store =
      continue (reported claim_unavailable (repository.get i store, store))
        λ found store. claim_found i claim_id now found store

  -- The registration by SoftwareEngineeringTaskIngress.delegate of what the delegator answered.
  -- A task that awaits approval, and one that is queued, can be recovered.
  unfoldable pub ingress_approval : TaskDelegationStatus → Option ApprovalStatus
  ingress_approval awaiting_approval = some Runs.awaiting_approval
  ingress_approval task_queued = some Runs.approved
  ingress_approval _ = none

  unfoldable pub delegation_value : TaskDelegationStatus → String
  delegation_value task_queued = "queued"
  delegation_value awaiting_approval = "awaiting_approval"
  delegation_value task_denied = "denied"
  delegation_value route_rejected = "route_rejected"

  unfoldable pub ingress_registration : String → String → TaskDelegationResult → Registration
  unfolding role_value ingress_approval delegation_value
  ingress_registration objective target result = record {
    action_id = result.action_id;
    target = target;
    executor_role = role_value software_engineering;
    capability = implement_capability;
    delegation_status = some (delegation_value result.status);
    objective = (if is_none (ingress_approval result.status) then none else some objective);
    approval_status = ingress_approval result.status;
  }

  -- The request that the ingress makes; role and capability are not the caller's.
  unfoldable pub ingress_request : String → String → TaskDelegationRequest
  ingress_request objective target = record {
    objective = objective;
    target = target;
    executor_role = software_engineering;
    capability = implement_capability;
    account_context = none;
  }

  -- SoftwareEngineeringTaskIngress.delegate, after the delegator answered
  unfoldable pub register_delegation :
      String → String → TaskDelegationResult → Instant → Step S RunError TaskDelegationResult
  unfolding ingress_registration
  register_delegation objective target result now store =
      continue (repository.register_action (ingress_registration objective target result) now store)
        λ _ store. (ok result, store)
