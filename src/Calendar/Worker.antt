-- ===== src/Calendar/Worker.antt =====
-- `CalendarWorkerExecutor` of integrations/calendar.py; the results are made in the child modules.
pub mod Metadata
pub mod Results
use Prim.Native.String.{◌++◌ as ◌<>◌}
use velox_server.Prelude.{
  ℕ, String, Bool, true, false, Option, none, some, List, [], ◌∷◌, ◌==◌, nat_eq, string_eq,
  option_eq, not, is_none, map, length, any, option_map, if◌then◌else◌,
}
use velox_server.Prelude.Result.{Result, ok, err}
use velox_server.Prelude.Dict
use velox_server.Prelude.Dict.{Dict}
use velox_server.Prelude.Text.{strip, is_blank}
use velox_server.Actions.{
  Value, null, flag, num, text, arr, obj, Items, no_items, item, Action, of_optional, to_fields,
}
use velox_server.Workers.Executor.{
  WorkerExecutionStatus, succeeded, skipped, failed, permanent, internal, WorkerExecutionFailure,
  WorkerExecutionResult, WorkerAccountContext,
}
use velox_server.Workers.Observation.{context_value, merge_metadata}
use velox_server.Google.{
  GoogleProviderRequest, GoogleProviderFailure, GoogleProviderResponse, GoogleProviderComposition,
}
use velox_server.Google
use velox_server.Calendar.{
  Timestamps, RequestError, CalendarEventListRequest, new_list_request, as_query, CalendarEvent,
  event_value, allowlisted_event,
}
use velox_server.Calendar.Worker.Metadata.{
  events_path, list_capability, is_read_capability, redacted, page_token_redacted_action,
  redacted_query, request_metadata, response_metadata, is_true, result_metadata,
}
use velox_server.Calendar.Worker.Results.{
  CalendarCapabilityResult, fake_adapter, allowlisted, capability_result, allowlisted_events,
  event_items, next_token, page_metadata, page_result, listed, event_list_result,
  provider_failure_result, capability_worker_result, refused, answer,
}

-- The provider's request for a page; `str_int` is `str` of an int.
unfoldable pub list_request :
    (ℕ → String) → CalendarEventListRequest → Option WorkerAccountContext → GoogleProviderRequest
list_request str_int r account_context = record {
  operation = list_capability;
  path = events_path;
  method = "GET";
  body = none;
  query = as_query str_int r;
  account_context = account_context;
}

-- What the metadata of a page says of its request.
unfoldable pub list_extra : CalendarEventListRequest → Dict String Value
list_extra r =
    ("time_min", text r.time_min)
    ∷ ("time_max", text r.time_max)
    ∷ ("max_results", num r.max_results)
    ∷ ("page_token_supplied", flag (not (is_none r.page_token)))
    ∷ []

-- The result for the response to a page's request.
unfoldable pub list_answer :
    Action
    → GoogleProviderRequest
    → CalendarEventListRequest
    → GoogleProviderResponse
    → WorkerExecutionResult
unfolding list_extra result_metadata answer event_list_result
list_answer action request r response =
    answer action response
      (result_metadata response request list_capability request.account_context (list_extra r))
      event_list_result

-- `str_int` is `str` of an int and `quote` is urllib's `quote(..., safe="")`.
module _ (t : Timestamps) (str_int : ℕ → String) (quote : String → String) {W : Type 0}
    (c : GoogleProviderComposition W) where
  -- The result next to the world that the provider leaves.
  answer_list :
      Action
      → GoogleProviderRequest
      → CalendarEventListRequest
      → GoogleProviderResponse × W
      → WorkerExecutionResult × W
  unfolding list_answer
  answer_list action request r (response, w) = (list_answer action request r response, w)

  -- CalendarWorkerExecutor._execute_list_provider_request
  unfoldable pub execute_list : Action → Option WorkerAccountContext → W → WorkerExecutionResult × W
  unfolding refused answer_list list_request
  execute_list action account_context w =
      let get = Dict.get action.payload in
      elim (new_list_request t (get "time_min") (get "time_max") (get "max_results")
        (get "page_token")) [
          | err e ↦
              (refused (page_token_redacted_action action) list_capability e.field e.message, w)
          | ok r ↦
              let request = list_request str_int r account_context in
              answer_list (page_token_redacted_action action) request r
                (Google.execute c request none none w)
        ]

  read_request : String → String → Option WorkerAccountContext → GoogleProviderRequest
  read_request capability event_id account_context = record {
    operation = capability;
    path = events_path <> "/" <> quote event_id;
    method = "GET";
    body = none;
    query = [];
    account_context = account_context;
  }

  answer_read :
      Action
      → GoogleProviderRequest
      → String
      → GoogleProviderResponse × W
      → WorkerExecutionResult × W
  unfolding result_metadata answer capability_result
  answer_read action request event_id (response, w) = (
    answer action response
        (result_metadata response request request.operation request.account_context
          (("calendar_event_id", text event_id) ∷ []))
        (λ body. capability_result body event_id),
    w,
  )

  -- The reading of one event, by the payload's `calendar_event_id`.
  execute_read :
      Action → String → Option Value → Option WorkerAccountContext → W → WorkerExecutionResult × W
  unfolding read_request answer_read refused
  execute_read action capability (some (text s)) account_context w =
      if is_blank s
      then (
        refused action capability "calendar_event_id"
            "calendar meeting context request invalid calendar_event_id",
        w,
      )
      else (let request = read_request capability (strip s) account_context in
          answer_read action request (strip s) (Google.execute c request none none w))
  execute_read action capability _ account_context w = (
    refused action capability "calendar_event_id"
        "calendar meeting context request invalid calendar_event_id",
    w,
  )

  -- `capability or action.type`
  resolved : Option String → String → String
  resolved none type = type
  resolved (some s) type = if s == "" then type else s

  -- CalendarWorkerExecutor.execute
  unfoldable pub execute :
      Action → Option String → Option WorkerAccountContext → W → WorkerExecutionResult × W
  unfolding resolved execute_read execute_list is_read_capability
  execute action capability account_context w =
      let name = resolved capability action.type in
      if name == list_capability
      then execute_list action account_context w
      else if is_read_capability name
      then execute_read action name (Dict.get action.payload "calendar_event_id") account_context w
      else (
        record {
          action = action;
          status = skipped;
          reason = some "calendar executor has no capability for this action type";
          metadata =
              ("external_execution_performed", flag false)
              ∷ ("integration", text "calendar")
              ∷ ("placeholder", flag true)
              ∷ ("skipped", flag true)
              ∷ [];
          failure = none;
        },
        w,
      )
