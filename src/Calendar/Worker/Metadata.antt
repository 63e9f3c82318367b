-- ===== src/Calendar/Worker/Metadata.antt =====
-- integrations/calendar.py: what the calendar worker's results say of the request and the response.
use velox_server.Prelude.{
  String, Bool, true, false, Option, none, some, List, [], ◌∷◌, ◌==◌, nat_eq, string_eq, option_eq,
  is_none, any, if◌then◌else◌,
}
use velox_server.Prelude.Dict
use velox_server.Prelude.Dict.{Dict}
use velox_server.Actions.{Value, null, flag, text, obj, Action, to_fields}
use velox_server.Workers.Executor.{WorkerAccountContext}
use velox_server.Workers.Observation.{context_value, merge_metadata}
use velox_server.Google.{GoogleProviderRequest, GoogleProviderResponse}

abbrev pub events_path : String
events_path = "/calendar/v3/calendars/primary/events"

-- CALENDAR_LIST_EVENTS_CAPABILITY.identifier
abbrev pub list_capability : String
list_capability = "list_calendar_events"

-- _CALENDAR_EVENT_READ_CAPABILITY_IDENTIFIERS
unfoldable pub is_read_capability : String → Bool
is_read_capability s = any (λ k. s == k) ("prepare_meeting" ∷ "prepare_calendar_context" ∷ [])

abbrev pub redacted : String
redacted = "<redacted>"

-- _page_token_redacted_action
unfoldable pub page_token_redacted_action : Action → Action
page_token_redacted_action action =
    if is_none (Dict.get action.payload "page_token")
    then action
    else record action { payload = Dict.put action.payload "page_token" (text redacted) }

-- The query of a request, with its page token hidden.
unfoldable pub redacted_query : Dict String Value → Dict String Value
redacted_query [] = []
redacted_query ((k, v) ∷ query) =
    (k, if k == "pageToken" then text redacted else v) ∷ redacted_query query

-- _calendar_provider_request_metadata
unfoldable pub request_metadata : GoogleProviderRequest → Value
unfolding redacted_query
request_metadata r = obj (
    to_fields (
      ("operation", text r.operation)
      ∷ ("path", text r.path)
      ∷ ("method", text r.method)
      ∷ ("body", elim r.body [ none ↦ null | some body ↦ obj (to_fields body) ])
      ∷ ("query", obj (to_fields (redacted_query r.query)))
      ∷ ("account_context", context_value r.account_context)
      ∷ []))

-- `metadata[key] = value` if the value is one that is passed on.
put_flag : String → Option Value → Dict String Value → Dict String Value
put_flag key (some (flag b)) metadata = Dict.put metadata key (flag b)
put_flag key _ metadata = metadata

put_text : List String → String → Option Value → Dict String Value → Dict String Value
put_text allowed key (some (text s)) metadata =
    if any (λ a. s == a) allowed then Dict.put metadata key (text s) else metadata
put_text allowed key _ metadata = metadata

-- _calendar_provider_response_metadata
unfoldable pub response_metadata : GoogleProviderResponse → Value
unfolding put_flag put_text
response_metadata r =
    let b = Dict.get r.body in
    let adapters : List String =
      "fake_transport" ∷ "fake_provider_composition" ∷ "httpx_transport" ∷ [] in
    obj (
      to_fields (
        put_flag "failed" (b "failed") (
          put_text adapters "adapter" (b "adapter") (
            put_text ("calendar" ∷ []) "integration" (b "integration")
              (put_flag "external_execution_performed" (b "external_execution_performed") [])))))

-- `value is True`
unfoldable pub is_true : Option Value → Bool
is_true (some (flag true)) = true
is_true _ = false

-- CalendarWorkerExecutor._result_metadata; the keys of `extra` are none of the others.
unfoldable pub result_metadata :
    GoogleProviderResponse
    → GoogleProviderRequest
    → String
    → Option WorkerAccountContext
    → Dict String Value
    → Dict String Value
unfolding is_true request_metadata response_metadata
result_metadata response request capability account_context extra =
    (
      "external_execution_performed",
      flag (is_true (Dict.get response.body "external_execution_performed")),
    )
    ∷ ("integration", text "calendar")
    ∷ ("capability", text capability)
    ∷ merge_metadata extra (
        ("account_context_used", context_value account_context)
        ∷ ("provider_request", request_metadata request)
        ∷ ("provider_response", response_metadata response)
        ∷ [])
