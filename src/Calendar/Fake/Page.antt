-- ===== src/Calendar/Fake/Page.antt =====
-- One page of the fake provider, as the walk reads it.
use Prim.Native.Char.{code}
use Prim.Native.String.{String, ◌++◌ as ◌<>◌}
use package.text.Mathlib.TextLemmas.{nil-append, cons-append, append_cancel_left, append-eq-nil_iff}
use velox_server.Prelude.{
  ℕ, ◌+◌, ◌≤◌, false, Option, none, some, List, [], ◌∷◌, ◌≡◌, refl, ap, sym, ◌∙◌, arith, zero, suc,
  Bool-cases, inl, inr, All, nat_eq, string_eq, ltb, length, if◌then◌else◌,
}
use velox_server.Prelude.Result.{ok}
use velox_server.Prelude.Dict
use velox_server.Prelude.Dict.{Dict}
use velox_server.Prelude.Slices.{take, drop}
use velox_server.Prelude.Text.{is_blank, strip}
use velox_server.Actions.{text, field_of, Action}
use velox_server.Workers.Executor.{succeeded}
use velox_server.Workers.Observation.{merge_metadata}
use velox_server.Google.{GoogleProviderRequest}
use velox_server.Calendar.{
  CalendarEventListRequest, CalendarEvent, event_value, event_fields, allowlisted_event, texts,
  texts_of, valid_token,
}
use velox_server.Calendar.Worker.Metadata.{list_capability, result_metadata}
use velox_server.Calendar.Worker.Results.{
  allowlisted_events, event_items, answer, event_list_result, listed, page_result, next_token,
  page_metadata, fake_adapter,
}
use velox_server.Calendar.Worker.{list_answer, list_extra}
use velox_server.Calendar.Walk.{page_of}
use velox_server.Calendar.Walk.Shape.{IsToken, page_with, page_of-page_metadata}
use velox_server.Calendar.Walk.Contract.{IsNamed}
use velox_server.Calendar.Fake.{
  token_prefix, without_prefix, page_token, page_token_offset, list_from,
}

texts_of-texts : (ss : List String) → texts_of (texts ss) ≡ some ss
unfolding texts_of texts
texts_of-texts [] = refl
texts_of-texts (s ∷ ss) = rw (texts_of-texts ss) refl

-- The dict of a named event is read back as the event.
allowlisted_event-event_value :
    (e : CalendarEvent) → IsNamed e → allowlisted_event (event_value e) ≡ some e
unfolding allowlisted_event event_fields field_of
allowlisted_event-event_value e h = rw (texts_of-texts e.attendees) (rw h refl)

allowlisted_events-event_items :
    (es : List CalendarEvent) → All IsNamed es → allowlisted_events (event_items es) ≡ some es
unfolding allowlisted_events event_items
allowlisted_events-event_items [] h = refl
allowlisted_events-event_items (e ∷ es) h =
    rw (allowlisted_event-event_value e h.0, allowlisted_events)
      (rw (allowlisted_events-event_items es h.1) refl)

All-take : (n : ℕ) (es : List CalendarEvent) → All IsNamed es → All IsNamed (take n es)
unfolding take
All-take zero es h = tt
All-take (suc n) [] h = tt
All-take (suc n) (e ∷ es) h = (h.0, All-take n es h.1)

All-drop : (n : ℕ) (es : List CalendarEvent) → All IsNamed es → All IsNamed (drop n es)
unfolding drop
All-drop zero es h = h
All-drop (suc n) [] h = tt
All-drop (suc n) (e ∷ es) h = All-drop n es h.1

without_prefix-append : (p s : String) → without_prefix p (p <> s) ≡ some s
unfolding without_prefix
without_prefix-append String.[] s = rw (nil-append s) refl
without_prefix-append (String.◌∷◌ c p) s =
    rw (cons-append c p s)
      (rw ((nat_eq.eqb_iff (code c) (code c)).1 refl) (without_prefix-append p s))

-- The prefix makes a token's text begin with no space, and it is not blank.
abbrev pub Unpadded : (ℕ → String) → Type 0
Unpadded str_int = (n : ℕ) → strip (token_prefix <> str_int n) ≡ token_prefix <> str_int n

-- A token says its offset.
pub page_token_inj :
    (str_int : ℕ → String) (digits : String → Option ℕ)
    → ((n : ℕ) → digits (str_int n) ≡ some n)
    → (m n : ℕ) → page_token str_int m ≡ page_token str_int n
    → m ≡ n
unfolding page_token
page_token_inj str_int digits read_back m n h =
    let e = ap digits (append_cancel_left token_prefix (str_int m) (str_int n) h) in
    let e' = sym (read_back m) ∙ (e ∙ read_back n) in cc

pub page_token_offset-page_token :
    (str_int : ℕ → String) (digits : String → Option ℕ)
    → ((n : ℕ) → digits (str_int n) ≡ some n)
    → (offset count : ℕ) → offset ≤ count
    → page_token_offset digits (some (text (page_token str_int offset))) count ≡ some offset
unfolding page_token_offset page_token
page_token_offset-page_token str_int digits read_back offset count h =
    rw (without_prefix-append token_prefix (str_int offset), page_token_offset)
      (rw (read_back offset) (ground arith))

page_token-not_blank :
    (str_int : ℕ → String) → Unpadded str_int → (n : ℕ) → is_blank (page_token str_int n) ≡ false
unfolding is_blank page_token
page_token-not_blank str_int unpadded n = elim (Bool-cases (is_blank (page_token str_int n))) [
  | inr named ↦ named
  | inl blank ↦
      let e = sym (unpadded n) ∙ (string_eq.eqb_iff (strip (page_token str_int n)) "").0 blank in
      let e' = (append-eq-nil_iff.0 e).0 in cc
]

pub valid_token-page_token :
    (str_int : ℕ → String)
    → Unpadded str_int
    → (n : ℕ) → valid_token (some (text (page_token str_int n))) ≡ ok (some (page_token str_int n))
unfolding valid_token is_blank page_token
valid_token-page_token str_int unpadded n = rw (unpadded n) (
    rw ((string_eq.eqb_iff (page_token str_int n) (page_token str_int n)).1 refl)
      (rw (← unpadded n) (rw (page_token-not_blank str_int unpadded n) refl)))

-- The token of the page that follows, if any event is left.
unfoldable pub following : (ℕ → String) → ℕ → ℕ → Option String
following str_int offset count = if ltb offset count then some (page_token str_int offset) else none

module _ (str_int : ℕ → String) (unpadded : Unpadded str_int) (action : Action)
    (request : GoogleProviderRequest) (r : CalendarEventListRequest) (offset limit : ℕ)
    (ordered : List CalendarEvent) (named : All IsNamed ordered) where
  abbrev shown : List CalendarEvent
  shown = take limit (drop offset ordered)

  abbrev after : Option String
  after = following str_int (offset + length shown) (length ordered)

  after-IsToken : IsToken after
  unfolding following
  after-IsToken = elim (Bool-cases (ltb (offset + length shown) (length ordered))) [
    | inl more ↦ rw more (page_token-not_blank str_int unpadded _)
    | inr last ↦ rw last tt
  ]

  -- The page that is listed succeeds, and the walk reads its events and its token.
  list_answer-list_from :
      (list_answer action request r (list_from str_int offset limit ordered) ≡ record {
        action = action;
        status = succeeded;
        reason = some "calendar event list provider result";
        metadata =
            merge_metadata
              (result_metadata
                (list_from str_int offset limit ordered)
                request
                list_capability
                request.account_context
                (list_extra r))
              (page_metadata shown 0 after (fake_adapter (some (text "fake_transport"))));
        failure = none;
      })
  unfolding list_answer answer event_list_result listed page_result next_token list_from following
      Dict.get
  list_answer-list_from = elim (Bool-cases (ltb (offset + length shown) (length ordered))) [
    | inl more ↦ rw more (
        rw
          (allowlisted_events-event_items shown
            (All-take limit (drop offset ordered) (All-drop offset ordered named)))
          (rw (page_token-not_blank str_int unpadded (offset + length shown)) refl))
    | inr last ↦ rw last (
        rw
          (allowlisted_events-event_items shown
            (All-take limit (drop offset ordered) (All-drop offset ordered named)))
          refl)
  ]

  pub list_answer-succeeded :
      (list_answer action request r (list_from str_int offset limit ordered)).status ≡ succeeded
  list_answer-succeeded = rw list_answer-list_from refl

  -- The walk reads the events of the page and its token, and nothing is skipped.
  pub page_of-list_from :
      page_of (list_answer action request r (list_from str_int offset limit ordered)).metadata
      ≡ some (page_with shown 0 after)
  page_of-list_from = rw list_answer-list_from (
      page_of-page_metadata (list_from str_int offset limit ordered) request request.account_context
        r shown 0 after (some (text "fake_transport")) after-IsToken)
