-- ===== src/Calendar/Fake.antt =====
-- `FakeCalendarTransportClient` of integrations/calendar.py: a provider that holds the events.
pub mod Page
pub mod Steps
pub mod Listing
use Prim.Native.Char.{code}
use Prim.Native.String.{String, ◌++◌ as ◌<>◌}
use velox_server.Prelude.{
  ℕ, ◌+◌, Bool, true, false, Option, none, some, List, [], ◌∷◌, ◌==◌, nat_eq, string_eq, is_none,
  not, ltb, length, if◌then◌else◌, ◌||◌,
}
use velox_server.Prelude.Slices.{take, drop}
use velox_server.Prelude.Dict
use velox_server.Prelude.Dict.{Dict}
use velox_server.Actions.{Value, null, flag, num, text, arr, obj, of_optional}
use velox_server.Workers.Executor.{permanent}
use velox_server.Google.{
  GoogleCredentials, GoogleProviderRequest, GoogleProviderFailure, GoogleProviderResponse,
  GoogleProviderComposition,
}
use velox_server.Google.Fake
use velox_server.Calendar.{CalendarEvent, event_value}
use velox_server.Calendar.Worker.Metadata.{list_capability, is_read_capability}
use velox_server.Calendar.Worker.Results.{event_items}

-- _FAKE_CALENDAR_PAGE_TOKEN_PREFIX
abbrev pub token_prefix : String
token_prefix = "fake-calendar-page-"

-- s.removeprefix(p), if s.startswith(p)
unfoldable pub without_prefix : String → String → Option String
without_prefix String.[] s = some s
without_prefix (String.◌∷◌ c p) String.[] = none
without_prefix (String.◌∷◌ c p) (String.◌∷◌ d s) =
    let rest = without_prefix p s in if code c == code d then rest else none

-- s.rsplit("/", maxsplit=1)[-1], where `part` is what follows the last slash so far
after_slash : String → String → String
after_slash String.[] part = part
after_slash (String.◌∷◌ c s) part = after_slash s (if code c == b'/' then s else part)

last_segment : String → String
unfolding after_slash
last_segment s = after_slash s s

-- The body that every answer begins with.
abbrev fake_body : Dict String Value → Dict String Value
fake_body rest =
    ("external_execution_performed", flag false)
    ∷ ("integration", text "calendar")
    ∷ ("adapter", text "fake_transport")
    ∷ rest

-- _invalid_page_token_response
unfoldable pub invalid_page_token_response : GoogleProviderResponse
invalid_page_token_response = record {
  status_code = 400;
  body = fake_body (("failed", flag true) ∷ []);
  failure = some (record {
    category = permanent;
    message = "Google Calendar rejected the event request";
    retryable = false;
    provider_status_code = some 400;
    provider_reason = some "invalidRequest";
    metadata = [];
  });
}

-- The token of an offset; `str_int` is `str` of an int.
unfoldable pub page_token : (ℕ → String) → ℕ → String
page_token str_int offset = token_prefix <> str_int offset

-- _page_token_offset; `digits` is `int(s)` of a text that `isdigit`.
unfoldable pub page_token_offset : (String → Option ℕ) → Option Value → ℕ → Option ℕ
page_token_offset digits (some (text s)) count = elim (without_prefix token_prefix s) [
  | none ↦ none
  | some rest ↦ elim (digits rest) [
    | none ↦ none
    | some offset ↦ if ltb count offset then none else some offset
  ]
]
page_token_offset digits _ count = none

-- The response for a page from an offset.
unfoldable pub list_from : (ℕ → String) → ℕ → ℕ → List CalendarEvent → GoogleProviderResponse
unfolding page_token
list_from str_int offset limit ordered =
    let page = take limit (drop offset ordered) in
    let next_offset = offset + length page in
    record {
      status_code = 200;
      body = fake_body (
          ("events", arr (event_items page))
          ∷ ("skipped_event_count", num 0)
          ∷ (
            "next_page_token",
            if ltb next_offset (length ordered)
                then text (page_token str_int next_offset)
                else null,
          )
          ∷ []);
      failure = none;
    }

-- `unquote` is urllib's.
module _ (str_int : ℕ → String) (digits : String → Option ℕ) (unquote : String → String)
    (events : Dict String CalendarEvent) where
  -- `limit`
  limit_of : Option Value → ℕ → ℕ
  limit_of (some (text s)) all = elim (digits s) [ none ↦ all | some n ↦ n ]
  limit_of _ all = all

  -- _default_list_response
  unfoldable pub default_list_response : GoogleProviderRequest → GoogleProviderResponse
  unfolding limit_of page_token_offset list_from invalid_page_token_response
  default_list_response request =
      let ordered = Dict.values events in
      let limit = limit_of (Dict.get request.query "maxResults") (length ordered) in
      elim (Dict.get request.query "pageToken") [
        | none ↦ list_from str_int 0 limit ordered
        | some token ↦ elim (page_token_offset digits (some token) (length ordered)) [
          | none ↦ invalid_page_token_response
          | some offset ↦ list_from str_int offset limit ordered
        ]
      ]

  event_response : Option CalendarEvent → GoogleProviderResponse
  event_response found = record {
    status_code = 200;
    body = fake_body (
        ("found", flag (not (is_none found)))
        ∷ elim found [ none ↦ [] | some e ↦ ("event", event_value e) ∷ [] ]);
    failure = none;
  }

  -- _default_response
  unfoldable pub default_response :
      GoogleProviderRequest → GoogleCredentials → GoogleProviderResponse
  unfolding default_list_response event_response last_segment is_read_capability
  default_response request credentials =
      if request.operation == list_capability
      then default_list_response request
      else if not (is_read_capability request.operation)
      then Fake.default_response "calendar" [] [] request credentials
      else event_response (Dict.get events (unquote (last_segment request.path)))

  -- CalendarProviderComposition with the fake credentials and the fake transport, which keep nothing
  -- between the calls
  unfoldable pub fake_composition :
      Dict String GoogleProviderResponse
      → Dict String GoogleProviderFailure
      → Dict String GoogleProviderFailure
      → GoogleProviderComposition (Unit {0})
  unfolding default_response
  fake_composition responses failures credentials_failures = record {
    service = "calendar";
    credentials_provider = λ principal account w.
        (Fake.get_credentials "calendar" credentials_failures principal account, w);
    transport_client = λ request credentials w.
        (Fake.execute "calendar" responses failures default_response request credentials, w);
  }
