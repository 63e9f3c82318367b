-- ===== src/Calendar/Walk/Shape.antt =====
-- The worker's listing result and the walk's page agree: what the one writes, the other accepts.
use velox_server.Prelude.{
  ℕ, String, false, Option, none, some, List, [], ◌∷◌, map, length, suc, ap, ◌≡◌, refl, arith, ◌==◌,
  nat_eq, string_eq, is_none, not, Bool-cases, inl, inr,
}
use velox_server.Prelude.Dict
use velox_server.Prelude.Dict.{Dict}
use velox_server.Prelude.Text.{is_blank}
use velox_server.Actions.{Value, null, flag, num, text, arr}
use velox_server.Workers.Executor.{WorkerAccountContext}
use velox_server.Workers.Observation.{merge_metadata}
use velox_server.Google.{GoogleProviderRequest, GoogleProviderResponse}
use velox_server.Calendar.{CalendarEventListRequest, CalendarEvent, event_fields}
use velox_server.Calendar.Worker.Metadata.{list_capability, result_metadata}
use velox_server.Calendar.Worker.Results.{page_metadata, fake_adapter, event_items}
use velox_server.Calendar.Worker.{list_extra}
use velox_server.Calendar.Walk.{Page, page_of, page_events, page_token, typed, checked, same_flag}

pub page_events-event_items :
    (es : List CalendarEvent)
    → page_events (some (arr (event_items es))) ≡ some (map event_fields es)
unfolding page_events event_items
page_events-event_items [] = refl
page_events-event_items (e ∷ es) = rw (page_events-event_items es) refl

-- A page token, absent or not blank.
abbrev pub IsToken : Option String → Type 0
IsToken none = Unit
IsToken (some s) = is_blank s ≡ false

length-map : (es : List CalendarEvent) → length (map event_fields es) ≡ length es
length-map [] = refl
length-map (e ∷ es) = ap suc (length-map es)

-- The page that a listing of these events makes.
abbrev pub page_with : List CalendarEvent → ℕ → Option String → Page
page_with es skipped token = record {
  events = map event_fields es;
  skipped_event_count = skipped;
  complete = skipped == 0;
  next_page_token = token;
}

checked_lem :
    (es : List CalendarEvent) (skipped : ℕ) (token : Option String)
    → checked
        (map event_fields es)
        token
        (some (num (length es)))
        (some (num skipped))
        (some (flag (skipped == 0)))
        (some (flag (not (is_none token))))
      ≡ some (page_with es skipped token)
unfolding checked same_flag
checked_lem es skipped none = ground (arith, length-map es)
checked_lem es skipped (some s) = ground (arith, length-map es)

module _ (response : GoogleProviderResponse) (request : GoogleProviderRequest)
    (account_context : Option WorkerAccountContext) (r : CalendarEventListRequest) where
  abbrev base : Dict String Value
  base = result_metadata response request list_capability account_context (list_extra r)

  -- The metadata with the entries of a page put over the base, an adapter's entry after them.
  plain :
      (es : List CalendarEvent) (skipped : ℕ) (token : Option String)
      → IsToken token
      → page_of (merge_metadata base (page_metadata es skipped token []))
        ≡ some (page_with es skipped token)
  unfolding page_of page_token typed merge_metadata result_metadata list_extra page_metadata
      Dict.get Dict.put
  plain es skipped none h = rw (page_events-event_items es) (checked_lem es skipped none)
  plain es skipped (some s) h =
      rw (page_events-event_items es) (rw h (checked_lem es skipped (some s)))

  adapted :
      (es : List CalendarEvent) (skipped : ℕ) (token : Option String) (s : String)
      → IsToken token
      → page_of (merge_metadata base (page_metadata es skipped token (("adapter", text s) ∷ [])))
        ≡ some (page_with es skipped token)
  unfolding page_of page_token typed merge_metadata result_metadata list_extra page_metadata
      Dict.get Dict.put
  adapted es skipped none s h = rw (page_events-event_items es) (checked_lem es skipped none)
  adapted es skipped (some token) s h =
      rw (page_events-event_items es) (rw h (checked_lem es skipped (some token)))

  pub page_of-page_metadata :
      (es : List CalendarEvent) (skipped : ℕ) (token : Option String) (adapter : Option Value)
      → IsToken token
      → page_of (merge_metadata base (page_metadata es skipped token (fake_adapter adapter)))
        ≡ some (page_with es skipped token)
  unfolding fake_adapter
  page_of-page_metadata es skipped token none h = plain es skipped token h
  page_of-page_metadata es skipped token (some (text s)) h =
      elim (Bool-cases (s == "fake_transport")) [
        | inl fake ↦ rw fake (adapted es skipped token s h)
        | inr other ↦ rw other (plain es skipped token h)
      ]
  page_of-page_metadata es skipped token (some null) h = plain es skipped token h
  page_of-page_metadata es skipped token (some v) h = plain es skipped token h
