-- ===== src/Calendar/Walk/Contract.antt =====
-- A listing that succeeds is a page that the walk accepts, whatever the provider answered.
use velox_server.Prelude.{
  ℕ, String, false, Option, none, some, List, [], ◌∷◌, ◌≡◌, refl, arith, All, string_eq, subst, sym,
}
use velox_server.Prelude.Result.{Result, ok, err}
use velox_server.Prelude.Dict
use velox_server.Prelude.Dict.{Dict}
use velox_server.Prelude.Text.{is_blank}
use velox_server.Actions.{Value, num, arr, obj, text, Items, no_items, item, field_of, Action}
use velox_server.Workers.Executor.{
  WorkerExecutionStatus, succeeded, skipped, failed, WorkerExecutionResult, WorkerAccountContext,
}
use velox_server.Workers.Observation.{merge_metadata}
use velox_server.Google.{
  GoogleProviderFailure, GoogleProviderRequest, GoogleProviderResponse, GoogleProviderComposition,
}
use velox_server.Google
use velox_server.Calendar.{
  Timestamps, RequestError, CalendarEventListRequest, new_list_request, CalendarEvent,
  allowlisted_event, as_text, as_texts, ◌>=>◌, named_event,
}
use velox_server.Calendar.Worker.Metadata.{
  list_capability, result_metadata, page_token_redacted_action,
}
use velox_server.Calendar.Worker.Results.{
  answer, event_list_result, listed, page_result, next_token, CalendarCapabilityResult,
  provider_failure_result, capability_worker_result, page_metadata, fake_adapter,
  allowlisted_events, refused,
}
use velox_server.Calendar.Worker.{list_answer, list_extra, execute_list, execute, list_request}
use velox_server.Calendar.Walk.{page_of}
use velox_server.Calendar.Walk.Shape.{IsToken, page_with, page_of-page_metadata}

-- The event of an allowlisted value has an identifier that is not blank.
abbrev pub IsNamed : CalendarEvent → Type 0
IsNamed e = is_blank e.event_id ≡ false

>=>-some :
    {A B : Type 0} (m : Option A) (f : A → Option B) {b : B}
    → (m >=> f) ≡ some b
    → (a : A) × (m ≡ some a) × (f a ≡ some b)
unfolding ◌>=>◌
>=>-some none f h = cc
>=>-some (some a) f h = (a, refl, h)

named_event-IsNamed :
    (event_id title start finish : String) (attendees : List String) {e : CalendarEvent}
    → named_event event_id title start finish attendees ≡ some e
    → IsNamed e
unfolding named_event
named_event-IsNamed event_id title start finish attendees h = ground arith

allowlisted_event-IsNamed :
    (v : Value) {e : CalendarEvent} → allowlisted_event v ≡ some e → IsNamed e
unfolding allowlisted_event
allowlisted_event-IsNamed (obj fields) {e} h =
    let (event_id, _, h1) = >=>-some (as_text (field_of fields "event_id")) _ h in
    let (title, _, h2) = >=>-some (as_text (field_of fields "title")) _ h1 in
    let (start, _, h3) = >=>-some (as_text (field_of fields "start")) _ h2 in
    let (finish, _, h4) = >=>-some (as_text (field_of fields "end")) _ h3 in
    let (attendees, _, h5) = >=>-some (as_texts (field_of fields "attendees")) _ h4 in
    named_event-IsNamed event_id title start finish attendees h5
allowlisted_event-IsNamed v h = absurd (ground arith)

allowlisted_events-IsNamed :
    (items : Items) (es : List CalendarEvent) → allowlisted_events items ≡ some es → All IsNamed es
unfolding allowlisted_events
allowlisted_events-IsNamed no_items [] h = tt
allowlisted_events-IsNamed no_items (e ∷ es) h = absurd (ground arith)
allowlisted_events-IsNamed (item v rest) es h =
    parts (allowlisted_event v) (allowlisted_events rest) refl refl h
      (allowlisted_events-IsNamed rest)
  where
    parts :
        (x : Option CalendarEvent) (ys : Option (List CalendarEvent))
        → allowlisted_event v ≡ x
        → allowlisted_events rest ≡ ys
        → allowlisted_events (item v rest) ≡ some es
        → ((ys : List CalendarEvent) → allowlisted_events rest ≡ some ys → All IsNamed ys)
        → All IsNamed es
    parts none ys p q h ih = absurd (ground arith)
    parts (some x) none p q h ih = absurd (ground arith)
    parts (some x) (some ys) p q h ih =
        let e : x ∷ ys ≡ es = ground arith in
        subst (All IsNamed) e (allowlisted_event-IsNamed v p, ih ys q)

next_token-IsToken :
    (v : Option Value) (token : Option String) → next_token v ≡ some token → IsToken token
unfolding next_token
next_token-IsToken v none h = tt
next_token-IsToken none (some s) h = absurd (ground arith)
next_token-IsToken (some (text s)) (some u) h = ground arith
next_token-IsToken (some v) (some u) h = absurd (ground arith)

-- What the metadata of a listing result describes: events that are well formed and named.
abbrev pub Describes : Dict String Value → Type 0
Describes metadata =
    (es : List CalendarEvent) × (skipped : ℕ) × (token : Option String) × All IsNamed es
    × (page_of metadata ≡ some (page_with es skipped token))

-- A page result that succeeded has the metadata of its parts.
page_result-succeeded :
    (events : Option (List CalendarEvent)) (count : Option Value) (token : Option (Option String))
    (adapter : Dict String Value)
    → (page_result events count token adapter).status ≡ succeeded
    → (es : List CalendarEvent) × (k : ℕ) × (s : Option String) × (events ≡ some es)
      × (token ≡ some s)
      × ((page_result events count token adapter).metadata ≡ page_metadata es k s adapter)
unfolding page_result
page_result-succeeded (some es) (some (num k)) (some s) adapter h = (es, k, s, refl, refl, refl)
page_result-succeeded none count token adapter h = absurd (ground arith)
page_result-succeeded (some es) none token adapter h = absurd (ground arith)
page_result-succeeded (some es) (some (num k)) none adapter h = absurd (ground arith)
page_result-succeeded (some es) (some v) token adapter h = absurd (ground arith)

-- An answer that succeeded has the metadata of the capability's result over the other.
answer-succeeded :
    (action : Action) (response : GoogleProviderResponse) (metadata : Dict String Value)
    (of_body : Dict String Value → CalendarCapabilityResult)
    → (answer action response metadata of_body).status ≡ succeeded
    → ((of_body response.body).status ≡ succeeded)
      × ((answer action response metadata of_body).metadata
          ≡ merge_metadata metadata (of_body response.body).metadata)
unfolding answer provider_failure_result capability_worker_result
answer-succeeded action response metadata of_body h =
    parts response.failure (of_body response.body).status refl refl
  where
    parts :
        (failure : Option GoogleProviderFailure) (status : WorkerExecutionStatus)
        → response.failure ≡ failure
        → (of_body response.body).status ≡ status
        → ((of_body response.body).status ≡ succeeded)
          × ((answer action response metadata of_body).metadata
              ≡ merge_metadata metadata (of_body response.body).metadata)
    parts (some f) status p q = absurd (ground arith)
    parts none succeeded p q = ground arith
    parts none skipped p q = absurd (ground arith)
    parts none failed p q = absurd (ground arith)

listed-IsNamed : (v : Option Value) (es : List CalendarEvent) → listed v ≡ some es → All IsNamed es
unfolding listed
listed-IsNamed (some (arr items)) es h = allowlisted_events-IsNamed items es h
listed-IsNamed none es h = absurd (ground arith)
listed-IsNamed (some v) es h = absurd (ground arith)

module _ (action : Action) (request : GoogleProviderRequest) (r : CalendarEventListRequest)
    (response : GoogleProviderResponse) where
  pub list_answer-Describes :
      (list_answer action request r response).status ≡ succeeded
      → Describes (list_answer action request r response).metadata
  unfolding list_answer event_list_result
  list_answer-Describes h =
      let (done, made) =
        answer-succeeded action response
          (result_metadata response request list_capability request.account_context (list_extra r))
          event_list_result h in
      let (es, k, s, p, q, m) =
        page_result-succeeded (listed (Dict.get response.body "events"))
          (Dict.get response.body "skipped_event_count")
          (next_token (Dict.get response.body "next_page_token"))
          (fake_adapter (Dict.get response.body "adapter")) done in
      (
        es,
        k,
        s,
        listed-IsNamed _ es p,
        rw (made, m)
            (page_of-page_metadata response request request.account_context r es k s
              (Dict.get response.body "adapter") (next_token-IsToken _ s q)),
      )

module _ (t : Timestamps) (str_int : ℕ → String) (quote : String → String) {W : Type 0}
    (c : GoogleProviderComposition W) where
  -- A page request that is refused, and one that the provider answers.
  pub execute-refused :
      (action : Action) (account_context : Option WorkerAccountContext) (w : W) {e : RequestError}
      → new_list_request t
          (Dict.get action.payload "time_min")
          (Dict.get action.payload "time_max")
          (Dict.get action.payload "max_results")
          (Dict.get action.payload "page_token")
        ≡ err e
      → execute t str_int quote c action (some list_capability) account_context w
        ≡ (refused (page_token_redacted_action action) list_capability e.field e.message, w)
  unfolding execute execute_list
  execute-refused action account_context w p = rw (p, execute_list) refl

  pub execute_answered :
      (action : Action) (account_context : Option WorkerAccountContext) (w : W)
      {r : CalendarEventListRequest}
      → new_list_request t
          (Dict.get action.payload "time_min")
          (Dict.get action.payload "time_max")
          (Dict.get action.payload "max_results")
          (Dict.get action.payload "page_token")
        ≡ ok r
      → execute t str_int quote c action (some list_capability) account_context w ≡ (
        list_answer
            (page_token_redacted_action action)
            (list_request str_int r account_context)
            r
            (Google.execute c (list_request str_int r account_context) none none w).0,
        (Google.execute c (list_request str_int r account_context) none none w).1,
      )
  unfolding execute execute_list
  execute_answered action account_context w p = rw (p, execute_list) refl

  -- A listing that the calendar worker reports as succeeded carries a page that the walk accepts,
  -- of events that are well formed and whose identifiers are not blank, whatever the provider's
  -- response was.
  pub execute-Describes :
      (action : Action) (account_context : Option WorkerAccountContext) (w : W)
      → (execute t str_int quote c action (some list_capability) account_context w).0.status
        ≡ succeeded
      → Describes
          (execute t str_int quote c action (some list_capability) account_context w).0.metadata
  unfolding refused
  execute-Describes action account_context w h =
      by_request
        (new_list_request t (Dict.get action.payload "time_min")
          (Dict.get action.payload "time_max") (Dict.get action.payload "max_results")
          (Dict.get action.payload "page_token"))
        refl
    where
      Sound : WorkerExecutionResult × W → Type 0
      Sound x = x.0.status ≡ succeeded → Describes x.0.metadata

      by_request :
          (x : Result RequestError CalendarEventListRequest)
          → new_list_request t
              (Dict.get action.payload "time_min")
              (Dict.get action.payload "time_max")
              (Dict.get action.payload "max_results")
              (Dict.get action.payload "page_token")
            ≡ x
          → Describes
              (execute t str_int quote c action (some list_capability) account_context w).0.metadata
      by_request (err e) p =
          subst Sound (sym (execute-refused action account_context w p))
            (λ q. absurd (ground arith)) h
      by_request (ok r) p =
          subst Sound (sym (execute_answered action account_context w p))
            (list_answer-Describes _ _ r _) h
