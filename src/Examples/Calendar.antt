-- ===== src/Examples/Calendar.antt =====
-- The calendar walk over three events, and the theorems at these.
use Prim.Native.String.{String, ◌++◌ as ◌<>◌, count}
use velox_server.Prelude.{
  ℕ, zero, suc, ◌+◌, ◌*◌, ◌≤◌, true, false, Option, none, some, [], ◌∷◌, ◌≡◌, refl, ap, All, map,
  ◌==◌, string_eq, nat_eq, ltb, ◌&&◌, if◌then◌else◌, length,
}
use velox_server.Prelude.Result.{ok}
use velox_server.Prelude.Dict
use velox_server.Prelude.Dict.{Dict}
use velox_server.Prelude.Slices.{take, drop}
use velox_server.Prelude.Text.{is_blank, is_space}
use velox_server.Prelude.Text.Laws.{is_solid, is_solid-append, strip_of_is_solid}
use velox_server.Actions.{Value, num, text, Action, text_role, field_of}
use velox_server.Workers.Executor.{succeeded, skipped, WorkerExecutionResult, WorkerAccountContext}
use velox_server.Google
use velox_server.Google.Fake
use velox_server.Google.{GoogleProviderComposition}
use velox_server.Calendar.{
  Timestamps, CalendarEvent, CalendarEventListOrchestrationRequest, event_fields,
  new_orchestration_request, new_list_request, validated_timestamp, as_query, allowlisted_event,
  max_max_results, max_max_pages,
}
use velox_server.Calendar.Bounds.{Window, int_of, orchestration_request-ok}
use velox_server.Calendar.Worker
use velox_server.Calendar.Worker.Results.{allowlisted_events}
use velox_server.Calendar.Worker.Metadata.{list_capability, page_token_redacted_action}
use velox_server.Calendar.Walk.{WalkState, aggregate, exhausted, page_limit, execute}
use velox_server.Calendar.Walk.Terminates.{execute_returns}
use velox_server.Calendar.Walk.Contract.{Describes, execute-Describes}
use velox_server.Calendar.Fake.{token_prefix, without_prefix, fake_composition}
use velox_server.Calendar.Fake.Page.{Unpadded}
use velox_server.Calendar.Fake.Listing.{execute_lists}
use velox_server.Examples.Durable.{tallies, count-tally}

-- Three moments of one day.
abbrev clock : Timestamps
clock = record {
  is_digit = λ c. ltb 47 c && ltb c 58;
  fromisoformat = λ s.
      if s == "2026-07-27T09:00:00Z"
      then some (some 9)
      else if s == "2026-07-27T17:30:00+00:00"
      then some (some 17)
      else none;
}

abbrev meeting : String → CalendarEvent
meeting name = record {
  event_id = name;
  title = "Sprint";
  start = "2026-07-27T10:00:00Z";
  end = "2026-07-27T11:00:00Z";
  attendees = "owner@example.com" ∷ [];
}

abbrev meetings : Dict String CalendarEvent
meetings = ("a", meeting "a") ∷ ("b", meeting "b") ∷ ("c", meeting "c") ∷ []

abbrev account : WorkerAccountContext
account = record { principal = some "me"; account_identifier = "home" }

abbrev listing : Action
listing = record {
  id = 5;
  type = "list_calendar_events";
  target = "primary";
  payload =
      ("time_min", text "2026-07-27T09:00:00Z")
      ∷ ("time_max", text "2026-07-27T17:30:00+00:00")
      ∷ ("max_results", num 1)
      ∷ ("max_pages", num 2)
      ∷ [];
  executor_role = text_role "context_preparation";
  created_at = 100;
  metadata = [];
}

abbrev request : CalendarEventListOrchestrationRequest
request = record {
  time_min = "2026-07-27T09:00:00Z";
  time_max = "2026-07-27T17:30:00+00:00";
  max_results = 1;
  max_pages = 2;
}

accepted :
    new_orchestration_request clock
      (some (text "2026-07-27T09:00:00Z"))
      (some (text "2026-07-27T17:30:00+00:00"))
      (some (num 1))
      (some (num 2))
    ≡ ok request
unfolding new_orchestration_request new_list_request validated_timestamp
accepted = refl

orchestration_request-ok_example :
    Window clock
      (some (text "2026-07-27T09:00:00Z"))
      (some (text "2026-07-27T17:30:00+00:00"))
      "2026-07-27T09:00:00Z"
      "2026-07-27T17:30:00+00:00"
    × (((int_of (some (num 1)) ≡ 1) × ((1 ≤ 1) × (1 ≤ max_max_results)))
        × ((int_of (some (num 2)) ≡ 2) × ((1 ≤ 2) × (2 ≤ max_max_pages))))
orchestration_request-ok_example =
    orchestration_request-ok clock (some (text "2026-07-27T09:00:00Z"))
      (some (text "2026-07-27T17:30:00+00:00")) (some (num 1)) (some (num 2)) accepted

-- A page executor that finishes nothing and counts its calls.
abbrev counting : Action → ℕ → WorkerExecutionResult × ℕ
counting action n = (
  record { action = action; status = skipped; reason = none; metadata = []; failure = none },
  n + 1,
)

abbrev Counted : ℕ → ℕ → Type 0
Counted n w = w ≡ n

counted : (n : ℕ) (a : Action) (w : ℕ) → Counted n w → Counted (n + 1) (counting a w).1
counted n a w h = ap (λ k. k + 1) h

execute_returns_example :
    (result : WorkerExecutionResult) × (w' : ℕ) × (n : ℕ) × (execute counting clock listing 0
      ≡ some (result, w'))
    × (n ≤ int_of (Dict.get listing.payload "max_pages"))
    × (n ≤ max_max_pages)
    × Counted n w'
execute_returns_example = execute_returns counting Counted counted clock listing 0 refl

solid : (n : ℕ) → is_solid (tallies.uuid_text n) ≡ true
unfolding is_space
solid zero = refl
solid (suc n) = solid n

tallies-Unpadded : Unpadded tallies.uuid_text
unfolding is_space
tallies-Unpadded n =
    strip_of_is_solid (token_prefix <> tallies.uuid_text n)
      (is_solid-append token_prefix (tallies.uuid_text n) refl (solid n))

read_back : (n : ℕ) → ◌≡◌ {A = Option ℕ} (some (count (tallies.uuid_text n))) (some n)
read_back n = ap some (count-tally n)

abbrev digits : String → Option ℕ
digits s = some (count s)

-- URL quoting that leaves identifiers as they are.
abbrev quote : String → String
quote s = s

not_token : Dict.get listing.payload "page_token" ≡ none
unfolding Dict.get
not_token = refl

listing_accepted :
    new_orchestration_request clock
      (Dict.get listing.payload "time_min")
      (Dict.get listing.payload "time_max")
      (Dict.get listing.payload "max_results")
      (Dict.get listing.payload "max_pages")
    ≡ ok request
unfolding Dict.get
listing_accepted = accepted

meetings-IsNamed : All (λ (e : CalendarEvent). is_blank e.event_id ≡ false) (Dict.values meetings)
unfolding is_blank Dict.values
meetings-IsNamed = (refl, (refl, (refl, tt)))

-- Two pages of one event each: the third event is past the page limit.
execute_lists_example :
    (e : WalkState) × (execute
        (λ a w.
          Worker.execute clock tallies.uuid_text quote
            (fake_composition tallies.uuid_text digits quote meetings [] [] [])
            a
            (some list_capability)
            (some account)
            w)
        clock
        listing
        tt
      ≡ some (
        aggregate (page_token_redacted_action listing) e (
            if ltb (request.max_pages * request.max_results) (length (Dict.values meetings))
            then page_limit
            else exhausted),
        tt,
      ))
    × (e.events
        ≡ map event_fields (take (request.max_pages * request.max_results) (Dict.values meetings)))
    × (e.skipped_event_count ≡ 0)
    × (e.every_page_complete ≡ true)
    × (e.pages_fetched ≤ request.max_pages)
unfolding is_blank
execute_lists_example =
    execute_lists clock tallies.uuid_text digits quote quote read_back tallies-Unpadded meetings
      meetings-IsNamed account "me" refl me_solid home_solid listing request not_token
      listing_accepted
  where
    me_solid : is_blank "me" ≡ false
    me_solid = refl

    home_solid : is_blank "home" ≡ false
    home_solid = refl

-- A provider that answers with one well-formed event and a token for more.
abbrev answering : GoogleProviderComposition (Unit {0})
answering = fake_composition tallies.uuid_text digits quote meetings [] [] []

listing_succeeded :
    (Worker.execute clock tallies.uuid_text quote answering listing
      (some list_capability)
      (some account)
      tt).0.status
    ≡ succeeded
unfolding Worker.execute new_list_request validated_timestamp Dict.get Google.execute
    fake_composition Fake.get_credentials is_blank Fake.execute as_query allowlisted_events take
    drop Dict.values allowlisted_event field_of event_fields
listing_succeeded = refl

execute-Describes_example :
    Describes
      (Worker.execute clock tallies.uuid_text quote answering listing
        (some list_capability)
        (some account)
        tt).0.metadata
execute-Describes_example =
    execute-Describes clock tallies.uuid_text quote answering listing (some account) tt
      listing_succeeded

-- What the walk says of its end, and the number of its events.
abbrev said : Option (WorkerExecutionResult × Unit {0}) → Option Value × Option Value
said none = (none, none)
said (some (r, w)) = (Dict.get r.metadata "termination_reason", Dict.get r.metadata "event_count")

two_of_three :
    said (
      execute
        (λ a w.
          Worker.execute clock tallies.uuid_text quote answering a
            (some list_capability)
            (some account)
            w)
        clock
        listing
        tt)
    ≡ (some (text "page_limit"), some (num 2))
unfolding execute new_orchestration_request Worker.execute new_list_request validated_timestamp
    Dict.get Google.execute fake_composition Fake.get_credentials is_blank Fake.execute as_query
    allowlisted_events take drop Dict.values allowlisted_event field_of event_fields Dict.put
    without_prefix
two_of_three = refl
