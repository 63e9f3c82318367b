-- ===== src/Calendar/Walk.antt =====
-- `CalendarEventListOrchestrator` of integrations/calendar.py: the walk over the pages of a listing.
pub mod Terminates
pub mod Slices
pub mod Contract
pub mod Shape
use velox_server.Prelude.{
  ℕ, zero, suc, ◌+◌, String, Bool, true, false, Option, none, some, List, [], ◌∷◌, ◌++◌, ◌==◌,
  nat_eq, string_eq, not, is_none, any, ltb, length, ◌&&◌, ◌⊎◌, inl, inr, if◌then◌else◌,
}
use velox_server.Prelude.Result.{Result, ok, err}
use velox_server.Prelude.Dict
use velox_server.Prelude.Dict.{Dict}
use velox_server.Prelude.Text.{is_blank}
use velox_server.Actions.{
  Value, null, flag, num, text, arr, obj, Items, no_items, item, Fields, Action,
}
use velox_server.Workers.Executor.{
  WorkerExecutionStatus, succeeded, failed, permanent, internal, WorkerExecutionFailure,
  WorkerExecutionResult,
}
use velox_server.Calendar.{
  Timestamps, RequestError, CalendarEventListOrchestrationRequest, new_orchestration_request,
}
use velox_server.Calendar.Worker.Metadata.{page_token_redacted_action}

-- What the walk reads of a page's metadata.
pub record Page : Type 0 where
  pub events : List Fields
  pub skipped_event_count : ℕ
  pub complete : Bool
  pub next_page_token : Option String

-- A tuple of dicts.
dicts : Items → Option (List Fields)
dicts no_items = some []
dicts (item (obj fields) rest) = elim (dicts rest) [ none ↦ none | some ds ↦ some (fields ∷ ds) ]
dicts (item _ rest) = none

unfoldable pub page_events : Option Value → Option (List Fields)
unfolding dicts
page_events (some (arr items)) = dicts items
page_events _ = none

unfoldable pub page_token : Option Value → Option (Option String)
page_token none = some none
page_token (some null) = some none
page_token (some (text s)) = if is_blank s then none else some (some s)
page_token _ = none

-- The tests on the counts and flags, of a page whose events and token are of the right types.
unfoldable pub same_flag : Bool → Bool → Bool
same_flag true b = b
same_flag false b = not b

unfoldable pub checked :
    List Fields
    → Option String
    → Option Value
    → Option Value
    → Option Value
    → Option Value
    → Option Page
unfolding same_flag
checked events token (some (num count)) (some (num skipped)) (some (flag complete))
      (some (flag more)) =
    if count == length events
      && same_flag complete (skipped == 0)
      && same_flag more (not (is_none token))
    then some (record {
      events = events;
      skipped_event_count = skipped;
      complete = complete;
      next_page_token = token;
    })
    else none
checked events token _ _ _ _ = none

unfoldable pub typed :
    Option (List Fields) → Option (Option String) → Dict String Value → Option Page
unfolding checked
typed (some events) (some token) metadata =
    let get = Dict.get metadata in
    checked events token (get "event_count") (get "skipped_event_count") (get "page_complete")
      (get "has_more_pages")
typed _ _ metadata = none

-- The page that a result's metadata describes; `none` is an invalid page result.
unfoldable pub page_of : Dict String Value → Option Page
unfolding typed page_events page_token
page_of metadata =
    typed (page_events (Dict.get metadata "events"))
      (page_token (Dict.get metadata "next_page_token")) metadata

pub data TerminationReason : Type 0 where
  exhausted page_limit repeated_page_token : TerminationReason

unfoldable pub termination_value : TerminationReason → String
termination_value exhausted = "exhausted"
termination_value page_limit = "page_limit"
termination_value repeated_page_token = "repeated_page_token"

-- The variables of the loop.
pub record WalkState : Type 0 where
  pub events : List Fields
  pub pages_fetched : ℕ
  pub skipped_event_count : ℕ
  pub every_page_complete : Bool
  pub seen_page_tokens : List String
  pub page_token : Option String

abbrev pub start : WalkState
start = record {
  events = [];
  pages_fetched = 0;
  skipped_event_count = 0;
  every_page_complete = true;
  seen_page_tokens = [];
  page_token = none;
}

-- CalendarEventListOrchestrator._request_failure, ._page_failure and ._invalid_page_failure
unfoldable pub request_failure : Action → String → String → WorkerExecutionResult
request_failure action field_name reason = record {
  action = action;
  status = failed;
  reason = some reason;
  metadata = [];
  failure = some (record {
    category = permanent;
    message = some reason;
    metadata = ("field", text field_name) ∷ [];
  });
}

-- `page_result.reason or ...`
reason_or : Option String → String → String
reason_or none d = d
reason_or (some s) d = if s == "" then d else s

failure_or : Option WorkerExecutionFailure → String → WorkerExecutionFailure
failure_or (some f) reason = f
failure_or none reason = record { category = internal; message = some reason; metadata = [] }

unfoldable pub page_failure : Action → WorkerExecutionResult → WorkerExecutionResult
unfolding reason_or failure_or
page_failure action r =
    let reason = reason_or r.reason "calendar list orchestration page failed" in
    record {
      action = action;
      status = failed;
      reason = some reason;
      metadata = [];
      failure = some (failure_or r.failure reason);
    }

unfoldable pub invalid_page_failure : Action → WorkerExecutionResult
invalid_page_failure action = record {
  action = action;
  status = failed;
  reason = some "calendar list orchestrator received invalid page result";
  metadata = [];
  failure = some (record {
    category = internal;
    message = some "calendar list orchestrator received invalid page result";
    metadata = [];
  });
}

unfoldable pub dict_items : List Fields → Items
dict_items [] = no_items
dict_items (d ∷ ds) = item (obj d) (dict_items ds)

is_exhausted : TerminationReason → Bool
is_exhausted exhausted = true
is_exhausted _ = false

-- The aggregate that the walk returns.
unfoldable pub aggregate : Action → WalkState → TerminationReason → WorkerExecutionResult
unfolding is_exhausted dict_items termination_value
aggregate action s reason = record {
  action = action;
  status = succeeded;
  reason = some "bounded calendar event list orchestration result";
  metadata =
      ("events", arr (dict_items s.events))
      ∷ ("event_count", num (length s.events))
      ∷ ("pages_fetched", num s.pages_fetched)
      ∷ ("skipped_event_count", num s.skipped_event_count)
      ∷ ("aggregate_complete", flag (is_exhausted reason && s.every_page_complete))
      ∷ ("termination_reason", text (termination_value reason))
      ∷ [];
  failure = none;
}

-- The loop's variables after a page.
unfoldable pub extend : WalkState → Page → WalkState
extend s page = record s {
  events = s.events ++ page.events;
  pages_fetched = s.pages_fetched + 1;
  skipped_event_count = s.skipped_event_count + page.skipped_event_count;
  every_page_complete = s.every_page_complete && page.complete;
}

-- The end of a round: the loop is left, or goes on with a token.
unfoldable pub after_page :
    CalendarEventListOrchestrationRequest
    → WalkState
    → Option String
    → TerminationReason ⊎ WalkState
after_page request s none = inl exhausted
after_page request s (some token) =
    if not (ltb s.pages_fetched request.max_pages)
    then inl page_limit
    else if any (λ seen. token == seen) s.seen_page_tokens
    then inl repeated_page_token
    else inr (record s { seen_page_tokens = token ∷ s.seen_page_tokens; page_token = some token })

-- The payload of the action for one page.
unfoldable pub page_payload :
    CalendarEventListOrchestrationRequest → Option String → Dict String Value
page_payload request token =
    ("time_min", text request.time_min)
    ∷ ("time_max", text request.time_max)
    ∷ ("max_results", num request.max_results)
    ∷ elim token [ none ↦ [] | some s ↦ ("page_token", text s) ∷ [] ]

-- The action for one page.
unfoldable pub page_action : Action → CalendarEventListOrchestrationRequest → Option String → Action
unfolding page_payload
page_action action request token = record action { payload = page_payload request token }

-- `page_executor` is `executor.execute` with the capability and the account context of the walk, on
-- the world that it acts on.
module _ {W : Type 0} (page_executor : Action → W → WorkerExecutionResult × W) where
  -- One round of the loop: the function's result, or the variables of the next round.
  unfoldable pub round_of :
      Action
      → CalendarEventListOrchestrationRequest
      → WalkState
      → WorkerExecutionResult
      → WorkerExecutionResult ⊎ WalkState
  unfolding page_failure invalid_page_failure aggregate extend after_page page_of
  round_of action request s r = elim r.status [
    | succeeded ↦ elim (page_of r.metadata) [
      | none ↦ inl (invalid_page_failure (page_token_redacted_action action))
      | some page ↦
          let s' = extend s page in
          elim (after_page request s' page.next_page_token) [
            | inl reason ↦ inl (aggregate (page_token_redacted_action action) s' reason)
            | inr next ↦ inr next
          ]
    ]
    | _ ↦ inl (page_failure (page_token_redacted_action action) r)
  ]

  -- `while True`, with fuel; `none` is a walk whose fuel ran out.
  unfoldable pub walk :
      ℕ
      → Action
      → CalendarEventListOrchestrationRequest
      → WalkState
      → W
      → Option (WorkerExecutionResult × W)
  unfolding round_of page_action
  walk zero action request s w = none
  walk (suc fuel) action request s w =
      let asked = page_executor (page_action action request s.page_token) w in
      elim (round_of action request s asked.0) [
        | inl result ↦ some (result, asked.1)
        | inr next ↦ walk fuel action request next asked.1
      ]

  -- CalendarEventListOrchestrator.execute
  unfoldable pub execute : Timestamps → Action → W → Option (WorkerExecutionResult × W)
  unfolding request_failure walk
  execute t action w =
      let get = Dict.get action.payload in
      elim (get "page_token") [
        | some v ↦ some (
          request_failure (page_token_redacted_action action) "page_token"
              "calendar list orchestration does not accept page_token",
          w,
        )
        | none ↦
            elim (new_orchestration_request t (get "time_min") (get "time_max") (get "max_results")
              (get "max_pages")) [
                | err e ↦
                    some (request_failure (page_token_redacted_action action) e.field e.message, w)
                | ok request ↦ walk request.max_pages action request start w
              ]
      ]
