-- ===== src/Calendar.antt =====
-- integrations/calendar.py: the bounded requests for a listing of calendar events, and the events.
pub mod Worker
pub mod Walk
pub mod Bounds
pub mod Fake
use Prim.Native.Char.{code}
use Prim.Native.String.{◌++◌ as ◌<>◌}
use velox_server.Prelude.{
  ℕ, String, Bool, true, false, Option, none, some, List, [], ◌∷◌, ◌++◌, ◌==◌, nat_eq, string_eq,
  not, ◌&&◌, ◌||◌, ltb, option_map, if◌then◌else◌,
}
use velox_server.Prelude.Result.{Result, ok, err, raise_if, ◌>>=◌, ◌>>◌}
use velox_server.Prelude.Dict.{Dict}
use velox_server.Prelude.Text.{strip, is_blank}
use velox_server.Actions
use velox_server.Actions.{
  Value, null, num, text, arr, obj, Items, no_items, item, Fields, field, field_of,
}

-- What CPython decides of a text: `\d` of `re`, and `datetime.fromisoformat`. The latter gives
-- `none` where it raises, and `some none` for a datetime without an offset; a moment is a number
-- that orders it among the others.
pub record Timestamps : Type 0 where
  pub is_digit : ℕ → Bool
  pub fromisoformat : String → Option (Option ℕ)

-- CalendarEventListRequestError
pub record RequestError : Type 0 where
  pub message : String
  pub field : String

pub data Cell : Type 0 where
  digit : Cell
  mark : ℕ → Cell

-- The fixed parts of _RFC3339_TIMESTAMP_PATTERN: date and time, and an offset after its sign.
abbrev date_time : List Cell
date_time =
    digit
    ∷ digit
    ∷ digit
    ∷ digit
    ∷ mark b'-'
    ∷ digit
    ∷ digit
    ∷ mark b'-'
    ∷ digit
    ∷ digit
    ∷ mark b'T'
    ∷ digit
    ∷ digit
    ∷ mark b':'
    ∷ digit
    ∷ digit
    ∷ mark b':'
    ∷ digit
    ∷ digit
    ∷ []

abbrev offset : List Cell
offset = digit ∷ digit ∷ mark b':' ∷ digit ∷ digit ∷ []

module _ (t : Timestamps) where
  fits : Cell → ℕ → Bool
  fits digit c = t.is_digit c
  fits (mark m) c = c == m

  -- The rest of a text after the cells.
  match_cells : List Cell → String → Option String
  unfolding fits
  match_cells [] s = some s
  match_cells (cell ∷ cells) String.[] = none
  match_cells (cell ∷ cells) (String.◌∷◌ c s) =
      let rest = match_cells cells s in if fits cell (code c) then rest else none

  skip_digits : String → String
  skip_digits String.[] = ""
  skip_digits (String.◌∷◌ c s) =
      let rest = skip_digits s in if t.is_digit (code c) then rest else String.◌∷◌ c s

  -- `(?:\.\d+)?`
  skip_fraction : String → Option String
  unfolding skip_digits
  skip_fraction String.[] = some ""
  skip_fraction (String.◌∷◌ c s) =
      if code c == b'.'
      then (elim (match_cells (digit ∷ []) s) [ none ↦ none | some r ↦ some (skip_digits r) ])
      else some (String.◌∷◌ c s)

  -- `(?:Z|[+-]\d{2}:\d{2})` at the end
  is_zone : String → Bool
  is_zone String.[] = false
  is_zone (String.◌∷◌ c s) =
      code c == b'Z' && s == ""
      || (code c == b'+' || code c == b'-')
        && (elim (match_cells offset s) [ none ↦ false | some r ↦ r == "" ])

  -- _RFC3339_TIMESTAMP_PATTERN.fullmatch
  unfoldable pub is_rfc3339 : String → Bool
  unfolding match_cells skip_fraction is_zone
  is_rfc3339 s = elim (match_cells date_time s) [
    | none ↦ false
    | some r ↦ elim (skip_fraction r) [ none ↦ false | some z ↦ is_zone z ]
  ]

  malformed : String → RequestError
  malformed field_name = record {
    message = "calendar list request " <> field_name <> " must be an RFC3339 timestamp";
    field = field_name;
  }

  -- _validated_rfc3339_timestamp, of a value that a payload may lack: the text and its moment
  unfoldable pub validated_timestamp : Option Value → String → Result RequestError (String × ℕ)
  unfolding is_rfc3339 malformed
  validated_timestamp (some (text s)) field_name =
      raise_if (not (is_rfc3339 s)) (malformed field_name) >> elim (t.fromisoformat s) [
        | none ↦ err (malformed field_name)
        | some none ↦ err (record {
          message = "calendar list request " <> field_name <> " must carry an explicit UTC offset";
          field = field_name;
        })
        | some (some moment) ↦ ok (s, moment)
      ]
  validated_timestamp _ field_name = err (malformed field_name)

-- CALENDAR_LIST_MAX_MAX_RESULTS and CALENDAR_LIST_MAX_MAX_PAGES; both minimums are 1.
abbrev pub max_max_results : ℕ
max_max_results = 50

abbrev pub max_max_pages : ℕ
max_max_pages = 10

-- An int between 1 and a maximum, with its two errors. A negative int is no value of the model.
unfoldable pub bounded_int : String → String → ℕ → Option Value → Result RequestError ℕ
bounded_int owner field_name maximum (some (num n)) =
    raise_if (ltb n 1 || ltb maximum n) (record {
      message = owner <> " " <> field_name <> " is outside the allowed range";
      field = field_name;
    })
    >> ok n
bounded_int owner field_name maximum _ =
    err
      (record { message = owner <> " " <> field_name <> " must be an integer"; field = field_name })

-- The page token: absent, or a text that is not blank and not padded.
unfoldable pub valid_token : Option Value → Result RequestError (Option String)
valid_token none = ok none
valid_token (some null) = ok none
valid_token (some (text s)) =
    raise_if (s == "" || not (s == strip s)) (record {
      message = "calendar list request page_token must be a non-blank unpadded string";
      field = "page_token";
    })
    >> ok (some s)
valid_token _ = err (record {
  message = "calendar list request page_token must be a non-blank unpadded string";
  field = "page_token";
})

pub record CalendarEventListRequest : Type 0 where
  pub time_min : String
  pub time_max : String
  pub max_results : ℕ
  pub page_token : Option String

pub record CalendarEventListOrchestrationRequest : Type 0 where
  pub time_min : String
  pub time_max : String
  pub max_results : ℕ
  pub max_pages : ℕ

module _ (t : Timestamps) where
  -- CalendarEventListRequest(...), with `__post_init__`
  unfoldable pub new_list_request :
      (time_min time_max max_results page_token : Option Value)
      → Result RequestError CalendarEventListRequest
  unfolding bounded_int valid_token
  new_list_request time_min time_max max_results page_token =
      validated_timestamp t time_min "time_min" >>= λ start.
      validated_timestamp t time_max "time_max" >>= λ end.
      raise_if (not (ltb start.1 end.1)) (record {
        message = "calendar list request requires time_min earlier than time_max";
        field = "time_min";
      })
      >> (bounded_int "calendar list request" "max_results" max_max_results max_results >>= λ n.
          valid_token page_token >>= λ token.
          ok (record { time_min = start.0; time_max = end.0; max_results = n; page_token = token }))

  -- CalendarEventListOrchestrationRequest(...), with `__post_init__`
  unfoldable pub new_orchestration_request :
      (time_min time_max max_results max_pages : Option Value)
      → Result RequestError CalendarEventListOrchestrationRequest
  unfolding bounded_int
  new_orchestration_request time_min time_max max_results max_pages =
      new_list_request time_min time_max max_results none >>= λ r.
      bounded_int "calendar list orchestration" "max_pages" max_max_pages max_pages >>= λ n.
      ok (record {
        time_min = r.time_min;
        time_max = r.time_max;
        max_results = r.max_results;
        max_pages = n;
      })

-- CalendarEventListRequest.as_query; `str_int` is `str` of an int
unfoldable pub as_query : (ℕ → String) → CalendarEventListRequest → Dict String Value
as_query str_int r =
    ("timeMin", text r.time_min)
    ∷ ("timeMax", text r.time_max)
    ∷ ("maxResults", text (str_int r.max_results))
    ∷ ("singleEvents", text "true")
    ∷ ("orderBy", text "startTime")
    ∷ elim r.page_token [ none ↦ [] | some token ↦ ("pageToken", text token) ∷ [] ]

pub record CalendarEvent : Type 0 where
  pub event_id : String
  pub title : String
  pub start : String
  pub end : String
  pub attendees : List String

unfoldable pub texts : List String → Items
texts [] = no_items
texts (s ∷ ss) = item (text s) (texts ss)

-- The dict of an event's five fields.
unfoldable pub event_fields : CalendarEvent → Fields
unfolding texts
event_fields e = field "event_id" (text e.event_id) (
    field "title" (text e.title) (
      field "start" (text e.start)
        (field "end" (text e.end) (field "attendees" (arr (texts e.attendees)) Actions.end))))

abbrev pub event_value : CalendarEvent → Value
event_value e = obj (event_fields e)

-- all(isinstance(attendee, str) for attendee in attendees), with the texts
unfoldable pub texts_of : Items → Option (List String)
texts_of no_items = some []
texts_of (item (text s) rest) = option_map (λ ss. s ∷ ss) (texts_of rest)
texts_of (item _ rest) = none

unfoldable pub as_text : Option Value → Option String
as_text (some (text s)) = some s
as_text _ = none

unfoldable pub as_texts : Option Value → Option (List String)
unfolding texts_of
as_texts (some (arr xs)) = texts_of xs
as_texts _ = none

infixl 10 ◌>=>◌
unfoldable pub ◌>=>◌ : {A B : Type 0} → Option A → (A → Option B) → Option B
none >=> f = none
some a >=> f = f a

-- The event of five well-typed fields, if its identifier is not blank.
unfoldable pub named_event :
    (event_id title start end : String) → List String → Option CalendarEvent
named_event event_id title start end attendees =
    if is_blank event_id
    then none
    else some (record {
      event_id = event_id;
      title = title;
      start = start;
      end = end;
      attendees = attendees;
    })

-- _allowlisted_calendar_event
unfoldable pub allowlisted_event : Value → Option CalendarEvent
unfolding as_text as_texts ◌>=>◌ named_event
allowlisted_event (obj fields) = as_text (field_of fields "event_id") >=> λ event_id.
    as_text (field_of fields "title") >=> λ title. as_text (field_of fields "start") >=> λ start.
    as_text (field_of fields "end") >=> λ end.
    as_texts (field_of fields "attendees") >=> λ attendees.
    named_event event_id title start end attendees
allowlisted_event _ = none
