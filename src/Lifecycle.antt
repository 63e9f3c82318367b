-- ===== src/Lifecycle.antt =====
-- core/action_lifecycle.py and core/action_lifecycle_manager.py.
pub mod Transitions
use velox_server.Prelude.{
  ℕ, String, Bool, true, false, Option, none, some, is_none, or_else, not, ◌&&◌, if◌then◌else◌,
}
use velox_server.Prelude.Result.{Result, ok, err, raise_if, ◌>>=◌, ◌>>◌}
use velox_server.Prelude.Text.{is_blank}
use velox_server.Actions.{Instant}

pub data ActionStatus : Type 0 where
  planned queued approved rejected executing completed skipped failed : ActionStatus

pub data PermissionStatus : Type 0 where
  allowed requires_approval denied : PermissionStatus

-- The keys that the program writes into a lifecycle state's metadata.
pub record LifecycleMetadata : Type 0 where
  pub approval_required : Option Bool
  pub durable_recovery : Option Bool
  pub transient_retry_count : Option ℕ
  pub permission_status : Option PermissionStatus

abbrev pub no_metadata : LifecycleMetadata
no_metadata = record {
  approval_required = none;
  durable_recovery = none;
  transient_retry_count = none;
  permission_status = none;
}

abbrev pub over {ℓ} : {A : Type ℓ} → Option A → Option A → Option A
over old none = old
over old (some a) = some a

-- {**old, **new}
unfoldable pub merge : LifecycleMetadata → LifecycleMetadata → LifecycleMetadata
merge old new = record {
  approval_required = over old.approval_required new.approval_required;
  durable_recovery = over old.durable_recovery new.durable_recovery;
  transient_retry_count = over old.transient_retry_count new.transient_retry_count;
  permission_status = over old.permission_status new.permission_status;
}

pub record ActionLifecycleState : Type 0 where
  pub status : ActionStatus
  pub created_at : Instant
  pub updated_at : Instant
  pub reason : Option String
  pub metadata : LifecycleMetadata

-- A blank reason is stored as `None`.
unfoldable pub normalize_blank_reason : Option String → Option String
normalize_blank_reason none = none
normalize_blank_reason (some r) = if is_blank r then none else some r

-- A state built with no `updated_at`: it defaults to `created_at`.
unfoldable pub new_state :
    ActionStatus → Option String → LifecycleMetadata → Instant → ActionLifecycleState
unfolding normalize_blank_reason
new_state status reason metadata now = record {
  status = status;
  created_at = now;
  updated_at = now;
  reason = normalize_blank_reason reason;
  metadata = metadata;
}

-- state.metadata.get("approval_required"), as a truth value
unfoldable pub awaits_approval : LifecycleMetadata → Bool
awaits_approval m = or_else m.approval_required false

-- The `_valid_transitions` set.
unfoldable pub valid_transition : ActionStatus → ActionStatus → Bool
valid_transition planned queued = true
valid_transition queued approved = true
valid_transition queued rejected = true
valid_transition approved executing = true
valid_transition executing completed = true
valid_transition executing skipped = true
valid_transition executing failed = true
valid_transition failed queued = true
valid_transition _ _ = false

unfoldable pub takes_reason : ActionStatus → Bool
takes_reason failed = true
takes_reason rejected = true
takes_reason skipped = true
takes_reason _ = false

pub data TransitionError : Type 0 where
  invalid_transition : ActionStatus → ActionStatus → TransitionError
  unexpected_reason : TransitionError

-- ActionLifecycleManager.transition; `now` is datetime.now(UTC)
unfoldable pub transition :
    ActionLifecycleState
    → ActionStatus
    → Option String
    → LifecycleMetadata
    → Instant
    → Result TransitionError ActionLifecycleState
unfolding valid_transition takes_reason merge normalize_blank_reason
transition state status reason metadata now = do
  raise_if (not (valid_transition state.status status)) (invalid_transition state.status status)
  raise_if (not (is_none reason) && not (takes_reason status)) unexpected_reason
  ok (record {
    status = status;
    created_at = state.created_at;
    updated_at = now;
    reason = normalize_blank_reason reason;
    metadata = merge state.metadata metadata;
  })
