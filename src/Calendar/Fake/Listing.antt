-- ===== src/Calendar/Fake/Listing.antt =====
-- The walk over the fake provider lists the events in order, up to the limits of the request.
use velox_server.Prelude.{
  ℕ, ◌*◌, ◌≤◌, ◌<◌, String, true, false, Option, none, some, List, [], ◌≡◌, refl, sym, subst, ◌∙◌,
  arith, All, nat_eq, string_eq, ltb, length, if◌then◌else◌, map,
}
use velox_server.Prelude.Result.{ok}
use velox_server.Prelude.Dict
use velox_server.Prelude.Dict.{Dict}
use velox_server.Prelude.Slices.{take}
use velox_server.Prelude.Text.{is_blank}
use velox_server.Actions.{Value, text, Action}
use velox_server.Workers.Executor.{WorkerExecutionResult, WorkerAccountContext}
use velox_server.Google.{GoogleProviderRequest, GoogleProviderResponse, GoogleProviderComposition}
use velox_server.Google
use velox_server.Google.Fake
use velox_server.Calendar.{
  Timestamps, CalendarEventListRequest, CalendarEventListOrchestrationRequest, CalendarEvent,
  event_fields, as_query, new_list_request, new_orchestration_request, valid_token,
  validated_timestamp, max_max_results,
}
use velox_server.Calendar.Bounds.{page_request-ok, validated-text, orchestration_request-ok}
use velox_server.Calendar.Worker
use velox_server.Calendar.Worker.Metadata.{list_capability, page_token_redacted_action}
use velox_server.Calendar.Worker.{list_answer, list_request}
use velox_server.Calendar.Walk.{
  WalkState, start, exhausted, page_limit, aggregate, page_action, execute,
}
use velox_server.Calendar.Walk.Contract.{IsNamed, execute_answered}
use velox_server.Calendar.Walk.Terminates.{execute_accepted}
use velox_server.Calendar.Fake.{list_from, default_list_response, fake_composition}
use velox_server.Calendar.Fake.Page.{
  Unpadded, page_token_offset-page_token, valid_token-page_token, list_answer-succeeded,
  page_of-list_from,
}
use velox_server.Calendar.Walk.Slices.{Reads, PageServer, Lists, walk-Lists}

module _ (t : Timestamps) (str_int : ℕ → String) (digits : String → Option ℕ)
    (quote unquote : String → String) (read_back : (n : ℕ) → digits (str_int n) ≡ some n)
    (unpadded : Unpadded str_int) (events : Dict String CalendarEvent)
    (named : All IsNamed (Dict.values events)) (context : WorkerAccountContext) (principal : String)
    (known : context.principal ≡ some principal) (solid : is_blank principal ≡ false)
    (account_solid : is_blank context.account_identifier ≡ false) where
  abbrev provider : GoogleProviderComposition (Unit {0})
  provider = fake_composition str_int digits unquote events [] [] []

  abbrev page_executor : Action → Unit {0} → WorkerExecutionResult × Unit {0}
  page_executor a w =
      Worker.execute t str_int quote provider a (some list_capability) (some context) w

  provider-list :
      (r : CalendarEventListRequest)
      → Google.execute provider (list_request str_int r (some context)) none none tt ≡ (
        default_list_response str_int digits unquote events (list_request str_int r (some context)),
        tt,
      )
  unfolding Google.execute fake_composition Fake.get_credentials Fake.execute list_request Dict.get
  provider-list r = rw known (rw solid (rw account_solid refl))

  abbrev ordered : List CalendarEvent
  ordered = Dict.values events

  -- The request for a page.
  abbrev page_request :
      CalendarEventListOrchestrationRequest → Option String → CalendarEventListRequest
  page_request q token = record {
    time_min = q.time_min;
    time_max = q.time_max;
    max_results = q.max_results;
    page_token = token;
  }

  default-list_from :
      (q : CalendarEventListOrchestrationRequest) (token : Option String) (offset : ℕ)
      → Reads str_int token offset
      → offset ≤ length ordered
      → default_list_response str_int digits unquote events
          (list_request str_int (page_request q token) (some context))
        ≡ list_from str_int offset q.max_results ordered
  unfolding default_list_response list_request as_query Dict.get
  default-list_from q none offset h le = rw (read_back q.max_results) (rw h refl)
  default-list_from q (some s) offset h le =
      rw (h, default_list_response)
        (rw (page_token_offset-page_token str_int digits read_back offset (length ordered) le)
          (rw (read_back q.max_results) refl))

  -- What an accepted request satisfies.
  record Accepted (q : CalendarEventListOrchestrationRequest) : Type 0 where
    first : ℕ
    last : ℕ
    first_read : validated_timestamp t (some (text q.time_min)) "time_min" ≡ ok (q.time_min, first)
    last_read : validated_timestamp t (some (text q.time_max)) "time_max" ≡ ok (q.time_max, last)
    in_order : first < last
    some_results : 1 ≤ q.max_results
    few_results : q.max_results ≤ max_max_results

  Reads-valid_token :
      (token : Option String) (offset : ℕ)
      → Reads str_int token offset
      → valid_token (elim token [ none ↦ none | some s ↦ some (text s) ]) ≡ ok token
  unfolding valid_token
  Reads-valid_token none offset h = refl
  Reads-valid_token (some s) offset h = rw h (valid_token-page_token str_int unpadded offset)

  module _ (action : Action) (q : CalendarEventListOrchestrationRequest)
      (accepted : Accepted q) where
    page_request-accepted :
        (token : Option String) (offset : ℕ)
        → Reads str_int token offset
        → (let get = Dict.get (page_action action q token).payload in
            new_list_request t
              (get "time_min")
              (get "time_max")
              (get "max_results")
              (get "page_token"))
          ≡ ok (page_request q token)
    unfolding page_action Dict.get
    page_request-accepted none offset h =
        page_request-ok t q.time_min q.time_max q.max_results accepted.first accepted.last none none
          accepted.first_read accepted.last_read accepted.in_order accepted.some_results
          accepted.few_results (Reads-valid_token none offset h)
    page_request-accepted (some s) offset h =
        page_request-ok t q.time_min q.time_max q.max_results accepted.first accepted.last
          (some (text s)) (some s) accepted.first_read accepted.last_read accepted.in_order
          accepted.some_results accepted.few_results (Reads-valid_token (some s) offset h)

    -- The answer to the page at an offset.
    abbrev page_answer : Option String → ℕ → WorkerExecutionResult
    page_answer token offset =
        list_answer (page_token_redacted_action (page_action action q token))
          (list_request str_int (page_request q token) (some context)) (page_request q token)
          (list_from str_int offset q.max_results ordered)

    page_executor-page_answer :
        (token : Option String) (offset : ℕ)
        → Reads str_int token offset
        → offset ≤ length ordered
        → page_executor (page_action action q token) tt ≡ (page_answer token offset, tt)
    page_executor-page_answer token offset h le =
        execute_answered t str_int quote provider (page_action action q token) (some context) tt
          (page_request-accepted token offset h)
        ∙ rw (provider-list (page_request q token))
            (rw (default-list_from q token offset h le) refl)

    -- The fake provider serves the slices of its events.
    server : PageServer page_executor str_int ordered action q
    server = record {
      page_answer = page_answer;
      answered = λ w. page_executor-page_answer;
      succeeds = λ token offset.
          list_answer-succeeded str_int unpadded
            (page_token_redacted_action (page_action action q token))
            (list_request str_int (page_request q token) (some context)) (page_request q token)
            offset q.max_results ordered named;
      describes = λ token offset.
          page_of-list_from str_int unpadded
            (page_token_redacted_action (page_action action q token))
            (list_request str_int (page_request q token) (some context)) (page_request q token)
            offset q.max_results ordered named;
    }

  Accepted-ok :
      (time_min time_max max_results max_pages : Option Value)
      {q : CalendarEventListOrchestrationRequest}
      → new_orchestration_request t time_min time_max max_results max_pages ≡ ok q
      → Accepted q × (1 ≤ q.max_pages)
  Accepted-ok time_min time_max max_results max_pages {q} h =
      let bounds = orchestration_request-ok t time_min time_max max_results max_pages h in
      let ((first, (last, (p, (r, lt)))), ((_, (lo, hi)), (_, (some_pages, _)))) = bounds in
      (
        record {
          first = first;
          last = last;
          first_read =
              subst (λ v. validated_timestamp t v "time_min" ≡ ok (q.time_min, first))
                (validated-text t time_min "time_min" p) p;
          last_read =
              subst (λ v. validated_timestamp t v "time_max" ≡ ok (q.time_max, last))
                (validated-text t time_max "time_max" r) r;
          in_order = lt;
          some_results = lo;
          few_results = hi;
        },
        some_pages,
      )

  -- Over the fake provider without failures, for an account context with a principal and an account
  -- that are not blank and for events whose ids are not blank, an accepted walk that starts without a
  -- page token succeeds and lists the provider's events in order, the first
  -- `max_pages * max_results` of them, each once and none skipped. It ends because of the page limit
  -- exactly when there are more events than that, and else because the listing is exhausted.
  pub execute_lists :
      (action : Action) (q : CalendarEventListOrchestrationRequest)
      → Dict.get action.payload "page_token" ≡ none
      → new_orchestration_request t
          (Dict.get action.payload "time_min")
          (Dict.get action.payload "time_max")
          (Dict.get action.payload "max_results")
          (Dict.get action.payload "max_pages")
        ≡ ok q
      → (e : WalkState) × (execute page_executor t action tt
          ≡ some (
            aggregate (page_token_redacted_action action) e (
                if ltb (q.max_pages * q.max_results) (length ordered)
                then page_limit
                else exhausted),
            tt,
          ))
        × (e.events ≡ map event_fields (take (q.max_pages * q.max_results) ordered))
        × (e.skipped_event_count ≡ 0)
        × (e.every_page_complete ≡ true)
        × (e.pages_fetched ≤ q.max_pages)
  unfolding take
  execute_lists action q p h =
      let (accepted, some_pages) =
        Accepted-ok (Dict.get action.payload "time_min") (Dict.get action.payload "time_max")
          (Dict.get action.payload "max_results") (Dict.get action.payload "max_pages") h in
      let served = server action q accepted in
      subst
        (λ walked.
          Lists str_int digits read_back ordered page_executor action q accepted.some_results served
            tt walked (q.max_pages * q.max_results))
        (sym (execute_accepted page_executor t action tt p h))
        (walk-Lists str_int digits read_back ordered page_executor action q accepted.some_results
          served tt q.max_pages start 0 (q.max_pages * q.max_results)
          (record {
            reads = refl;
            read_events = refl;
            none_skipped = refl;
            all_complete = refl;
            seen = tt;
            inside = omega arith;
          })
          (omega arith) (omega arith) (omega arith))
