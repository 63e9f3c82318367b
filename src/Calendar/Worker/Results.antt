-- ===== src/Calendar/Worker/Results.antt =====
-- integrations/calendar.py: what the calendar worker makes of a response.
use velox_server.Prelude.{
  ℕ, String, true, false, Option, none, some, List, [], ◌∷◌, ◌==◌, nat_eq, string_eq, option_eq,
  not, is_none, length, option_map, if◌then◌else◌,
}
use velox_server.Prelude.Dict
use velox_server.Prelude.Dict.{Dict}
use velox_server.Prelude.Text.{is_blank}
use velox_server.Actions.{
  Value, null, flag, num, text, arr, Items, no_items, item, Action, of_optional,
}
use velox_server.Workers.Executor.{
  WorkerExecutionStatus, succeeded, failed, permanent, internal, WorkerExecutionResult,
}
use velox_server.Workers.Observation.{merge_metadata}
use velox_server.Google.{GoogleProviderFailure, GoogleProviderResponse}
use velox_server.Calendar.{CalendarEvent, event_value, allowlisted_event}

-- CalendarCapabilityResult
pub record CalendarCapabilityResult : Type 0 where
  pub status : WorkerExecutionStatus
  pub reason : Option String
  pub metadata : Dict String Value

abbrev invalid_result : String → CalendarCapabilityResult
invalid_result reason = record { status = failed; reason = some reason; metadata = [] }

-- `metadata["adapter"]`, which only the fake transport's responses have
unfoldable pub fake_adapter : Option Value → Dict String Value
fake_adapter (some (text s)) = if s == "fake_transport" then ("adapter", text s) ∷ [] else []
fake_adapter _ = []

found_result : Dict String Value → CalendarCapabilityResult
found_result metadata = record {
  status = succeeded;
  reason = some "calendar meeting context provider result";
  metadata = metadata;
}

event_result : Option CalendarEvent → String → Dict String Value → CalendarCapabilityResult
event_result none calendar_event_id adapter =
    invalid_result "calendar provider returned invalid event data"
event_result (some e) calendar_event_id adapter =
    if not (e.event_id == calendar_event_id)
    then invalid_result "calendar provider returned invalid event data"
    else found_result (
        merge_metadata (("found", flag true) ∷ [])
          (merge_metadata adapter (("event", event_value e) ∷ [])))

-- allowlisted_event of a value that may be missing
unfoldable pub allowlisted : Option Value → Option CalendarEvent
allowlisted none = none
allowlisted (some v) = allowlisted_event v

-- _calendar_capability_result
unfoldable pub capability_result : Dict String Value → String → CalendarCapabilityResult
unfolding fake_adapter found_result event_result allowlisted merge_metadata
capability_result body calendar_event_id = elim (Dict.get body "found") [
  | some (flag true) ↦
      event_result (allowlisted (Dict.get body "event")) calendar_event_id
        (fake_adapter (Dict.get body "adapter"))
  | some (flag false) ↦
      found_result (("found", flag false) ∷ fake_adapter (Dict.get body "adapter"))
  | _ ↦ invalid_result "calendar provider returned invalid event data"
]

-- The events of a page, if all are well formed.
unfoldable pub allowlisted_events : Items → Option (List CalendarEvent)
allowlisted_events no_items = some []
allowlisted_events (item v rest) = elim (allowlisted_event v) [
  | none ↦ none
  | some e ↦ option_map (λ es. e ∷ es) (allowlisted_events rest)
]

unfoldable pub event_items : List CalendarEvent → Items
event_items [] = no_items
event_items (e ∷ es) = item (event_value e) (event_items es)

-- `next_page_token`, which is None or a text that is not blank
unfoldable pub next_token : Option Value → Option (Option String)
next_token none = some none
next_token (some null) = some none
next_token (some (text s)) = if is_blank s then none else some (some s)
next_token _ = none

-- The metadata of a page that is passed on.
unfoldable pub page_metadata :
    List CalendarEvent → ℕ → Option String → Dict String Value → Dict String Value
unfolding event_items
page_metadata events skipped_count token adapter =
    ("events", arr (event_items events))
    ∷ ("event_count", num (length events))
    ∷ ("next_page_token", of_optional token)
    ∷ ("has_more_pages", flag (not (is_none token)))
    ∷ ("page_complete", flag (skipped_count == 0))
    ∷ ("skipped_event_count", num skipped_count)
    ∷ adapter

unfoldable pub page_result :
    Option (List CalendarEvent)
    → Option Value
    → Option (Option String)
    → Dict String Value
    → CalendarCapabilityResult
page_result (some events) (some (num skipped_count)) (some token) adapter = record {
  status = succeeded;
  reason = some "calendar event list provider result";
  metadata = page_metadata events skipped_count token adapter;
}
page_result _ _ _ adapter = invalid_result "calendar provider returned invalid event list data"

-- `events_value`, if it is a list or a tuple
unfoldable pub listed : Option Value → Option (List CalendarEvent)
listed (some (arr items)) = allowlisted_events items
listed _ = none

-- _calendar_event_list_result
unfoldable pub event_list_result : Dict String Value → CalendarCapabilityResult
unfolding page_result listed next_token fake_adapter page_metadata
event_list_result body =
    page_result (listed (Dict.get body "events")) (Dict.get body "skipped_event_count")
      (next_token (Dict.get body "next_page_token")) (fake_adapter (Dict.get body "adapter"))

-- CalendarWorkerExecutor._provider_failure_result, of a failure that is there
unfoldable pub provider_failure_result :
    Action → ℕ → Dict String Value → GoogleProviderFailure → WorkerExecutionResult
provider_failure_result action status_code metadata failure = record {
  action = action;
  status = failed;
  reason = some failure.message;
  metadata = metadata;
  failure = some (record {
    category = failure.category;
    message = some failure.message;
    metadata = merge_metadata failure.metadata (
        ("provider_status_code", num status_code)
        ∷ ("provider_reason", of_optional failure.provider_reason)
        ∷ ("retryable", flag failure.retryable)
        ∷ []);
  });
}

-- CalendarWorkerExecutor._capability_worker_result
unfoldable pub capability_worker_result :
    Action → ℕ → Dict String Value → CalendarCapabilityResult → WorkerExecutionResult
capability_worker_result action status_code metadata r = elim r.status [
  | succeeded ↦ record {
    action = action;
    status = succeeded;
    reason = r.reason;
    metadata = merge_metadata metadata r.metadata;
    failure = none;
  }
  | other ↦ record {
    action = action;
    status = other;
    reason = r.reason;
    metadata = metadata;
    failure = some (record {
      category = internal;
      message = r.reason;
      metadata = ("provider_status_code", num status_code) ∷ [];
    });
  }
]

-- A request that is refused before the provider is asked.
unfoldable pub refused : Action → String → String → String → WorkerExecutionResult
refused action capability field_name reason = record {
  action = action;
  status = failed;
  reason = some reason;
  metadata =
      ("external_execution_performed", flag false)
      ∷ ("integration", text "calendar")
      ∷ ("capability", text capability)
      ∷ [];
  failure = some (record {
    category = permanent;
    message = some reason;
    metadata = ("field", text field_name) ∷ [];
  });
}

-- The result for a response: the provider's failure, or what the capability makes of the body.
unfoldable pub answer :
    Action
    → GoogleProviderResponse
    → Dict String Value
    → (Dict String Value → CalendarCapabilityResult)
    → WorkerExecutionResult
unfolding provider_failure_result capability_worker_result
answer action response metadata of_body = elim response.failure [
  | some failure ↦ provider_failure_result action response.status_code metadata failure
  | none ↦ capability_worker_result action response.status_code metadata (of_body response.body)
]
