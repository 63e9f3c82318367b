-- ===== src/Workers/Executor.antt =====
-- The executor contract of workers/executor.py: results, account contexts, capabilities.
use velox_server.Prelude.{
  String, Bool, true, false, Option, none, some, ◌==◌, string_eq, ◌&&◌, [], ◌∷◌, ◌≡◌, ◌↔◌, arith,
  option_eq, Eq,
}
use velox_server.Prelude.Result.{Result, ok, raise_if, ◌>>◌}
use velox_server.Prelude.Dict.{Dict}
use velox_server.Prelude.Text.{strip}
use velox_server.Actions.{
  Instant, Value, flag, text, obj, field, end, Action, RoleField, no_role, known_role, text_role,
  role_value, of_optional,
}

pub data WorkerExecutionStatus : Type 0 where
  succeeded skipped failed : WorkerExecutionStatus

pub data WorkerExecutionFailureCategory : Type 0 where
  transient permanent internal : WorkerExecutionFailureCategory

pub record WorkerExecutionFailure : Type 0 where
  pub category : WorkerExecutionFailureCategory
  pub message : Option String
  pub metadata : Dict String Value

pub record WorkerExecutionResult : Type 0 where
  pub action : Action
  pub status : WorkerExecutionStatus
  pub reason : Option String
  pub metadata : Dict String Value
  pub failure : Option WorkerExecutionFailure

pub record WorkerAccountContext : Type 0 where
  pub principal : Option String
  pub account_identifier : String

-- account_context == account_context, a frozen dataclass
unfoldable pub same_account : WorkerAccountContext → WorkerAccountContext → Bool
same_account a b = a.principal == b.principal && a.account_identifier == b.account_identifier

pub same_account_iff : (a b : WorkerAccountContext) → (same_account a b ≡ true) ↔ (a ≡ b)
unfolding same_account
same_account_iff a b = ground (
  arith,
  (option_eq {A = String}).eqb_iff a.principal b.principal,
  string_eq.eqb_iff a.account_identifier b.account_identifier,
)

instance abbrev pub account_eq : Eq WorkerAccountContext
account_eq = record { eqb = same_account; eqb_iff = same_account_iff }

-- WorkerAccountContext.as_metadata
unfoldable pub as_metadata : WorkerAccountContext → Value
as_metadata c = obj (
    field "principal" (of_optional c.principal)
      (field "account_identifier" (text c.account_identifier) end))

-- What a call of an executor comes to: a result, or an exception with its type's name and text.
pub data ExecutionOutcome : Type 0 where
  returned : WorkerExecutionResult → ExecutionOutcome
  threw : String → String → ExecutionOutcome

-- WorkerExecutor.execute(action, capability=..., account_context=...). An executor asks the outside
-- world, so its outcome depends on the instant of the call too.
abbrev pub WorkerExecutor : Type 0
WorkerExecutor = Instant → Action → Option String → Option WorkerAccountContext → ExecutionOutcome

-- NoOpWorkerExecutor
unfoldable pub no_op_executor : WorkerExecutor
no_op_executor now action capability account_context = returned (record {
  action = action;
  status = skipped;
  reason = some "no registered executor handled this action";
  metadata = ("external_execution_performed", flag false) ∷ ("skipped", flag true) ∷ [];
  failure = none;
})

-- `casefold` is CPython's `str.casefold`, whose Unicode table is no part of the repository.
module _ (casefold : String → String) where
  -- _normalize_capability_identifier and _normalize_provider_identifier
  unfoldable pub normalize_identifier : Option Value → String
  normalize_identifier (some (text s)) = casefold (strip s)
  normalize_identifier _ = ""

-- _normalize_role
unfoldable pub normalize_role : RoleField → String
unfolding role_value
normalize_role (known_role r) = role_value r
normalize_role (text_role s) = strip s
normalize_role no_role = ""

-- WorkerExecutorRegistry._normalize_route_value
unfoldable pub normalize_route_value : Option Value → String
normalize_route_value (some (text s)) = strip s
normalize_route_value _ = ""

pub data CapabilityError : Type 0 where
  empty_identifier empty_role empty_provider : CapabilityError

pub record WorkerCapability : Type 0 where
  pub identifier : String
  pub role : String
  pub provider : String

-- WorkerCapability.__init__
unfoldable pub new_capability :
    (String → String) → String → RoleField → String → Result CapabilityError WorkerCapability
unfolding normalize_identifier normalize_role
new_capability casefold identifier role provider =
    let i = normalize_identifier casefold (some (text identifier)) in
    let r = normalize_role role in
    let p = normalize_identifier casefold (some (text provider)) in
    do
      raise_if (i == "") empty_identifier
      raise_if (r == "") empty_role
      raise_if (p == "") empty_provider
      ok (record { identifier = i; role = r; provider = p })
