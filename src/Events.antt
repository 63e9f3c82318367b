-- ===== src/Events.antt =====
-- core/events: the event envelope (models.py), the event lifecycle (lifecycle.py and
-- lifecycle_manager.py) and the in-memory store and inbox (store.py, inbox.py).
pub mod Pipeline
pub mod Workflow
use velox_server.Prelude.{
  String, Bool, true, false, Option, none, some, is_none, not, ◌&&◌, ◌==◌, nat_eq, List, [], ◌∷◌,
  ◌++◌, if◌then◌else◌,
}
use velox_server.Prelude.Result.{Result, ok, raise_if, ◌>>=◌, ◌>>◌}
use velox_server.Prelude.Dict.{Dict}
use velox_server.Actions.{Uuid, Instant, Value}
use velox_server.Lifecycle.{normalize_blank_reason}

pub record UniversalEvent : Type 0 where
  pub id : Uuid
  pub source : String
  pub type : String
  pub timestamp : Instant
  pub payload : Dict String Value
  pub metadata : Dict String Value
  pub correlation_id : Option Uuid
  pub causation_id : Option Uuid

pub data EventStatus : Type 0 where
  accepted pending processing processed failed : EventStatus

pub record EventLifecycleState : Type 0 where
  pub event_id : Uuid
  pub status : EventStatus
  pub reason : Option String
  pub metadata : Dict String Value
  pub updated_at : Instant

-- A state with the default reason and metadata.
abbrev pub new_event_state : Uuid → EventStatus → Instant → EventLifecycleState
new_event_state i status now = record {
  event_id = i;
  status = status;
  reason = none;
  metadata = [];
  updated_at = now;
}

-- EventLifecycleManager._valid_transitions
unfoldable pub valid_event_transition : EventStatus → EventStatus → Bool
valid_event_transition accepted pending = true
valid_event_transition pending processing = true
valid_event_transition processing processed = true
valid_event_transition processing failed = true
valid_event_transition failed processing = true
valid_event_transition _ _ = false

unfoldable pub is_failed : EventStatus → Bool
is_failed failed = true
is_failed _ = false

pub data EventTransitionError : Type 0 where
  invalid_event_transition : EventStatus → EventStatus → EventTransitionError
  reason_not_taken : EventTransitionError

-- EventLifecycleManager.transition
unfoldable pub event_transition :
    EventLifecycleState
    → EventStatus
    → Option String
    → Instant
    → Result EventTransitionError EventLifecycleState
unfolding valid_event_transition is_failed normalize_blank_reason
event_transition state status reason now = do
  raise_if (not (valid_event_transition state.status status))
      (invalid_event_transition state.status status)
  raise_if (not (is_none reason) && not (is_failed status)) reason_not_taken
  ok (record {
    event_id = state.event_id;
    status = status;
    reason = normalize_blank_reason reason;
    metadata = state.metadata;
    updated_at = now;
  })

-- EventStore.get_event
unfoldable pub get_event : List UniversalEvent → Uuid → Option UniversalEvent
get_event [] i = none
get_event (e ∷ es) i = if e.id == i then some e else get_event es i

-- EventInbox.mark_processed, without its result: the first event with the id is popped.
unfoldable pub mark_processed : List UniversalEvent → Uuid → List UniversalEvent
mark_processed [] i = []
mark_processed (e ∷ es) i = let rest = mark_processed es i in if e.id == i then es else e ∷ rest
