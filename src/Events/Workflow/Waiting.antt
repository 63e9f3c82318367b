-- ===== src/Events/Workflow/Waiting.antt =====
-- The stored events that are not processed, and what a new lifecycle state does to their list.
use velox_server.Prelude.{
  Bool, true, false, Option, none, some, or_else, not, ◌==◌, ==_iff, nat_eq, List, [], ◌∷◌, ◌++◌,
  keep, All, All-append, ◌≡◌, ◌≢◌, refl, sym, subst, ap, ◌∙◌, inl, inr, arith, Bool-cases,
  if◌then◌else◌, String,
}
use velox_server.Prelude.Result.{ok, err}
use velox_server.Prelude.Dict
use velox_server.Prelude.Dict.{Dict}
use velox_server.Actions.{Uuid, Instant}
use velox_server.Events.{
  UniversalEvent, EventLifecycleState, new_event_state, EventStatus, pending, processing, processed,
  failed, invalid_event_transition, event_transition, get_event, mark_processed,
}
use velox_server.Lifecycle.{normalize_blank_reason}
use velox_server.Events.Workflow.{WorkflowState, set_event_state}

abbrev pub is_done : Option EventLifecycleState → Bool
is_done none = false
is_done (some s) = elim s.status [ processed ↦ true | _ ↦ false ]

-- The event is not processed.
abbrev pub awaits : Dict Uuid EventLifecycleState → UniversalEvent → Bool
awaits states e = not (is_done (Dict.get states e.id))

abbrev pub Distinct : List UniversalEvent → Type 0
Distinct [] = Unit
Distinct (e ∷ es) = All (λ d. d.id ≢ e.id) es × Distinct es

-- No two stored events have one id, and the inbox holds those that are not processed.
pub record Consistent (s : WorkflowState) : Type 0 where
  pub distinct : Distinct s.events
  pub waiting : s.inbox ≡ keep (awaits s.states) s.events

keep_agree :
    (p q : UniversalEvent → Bool) (es : List UniversalEvent)
    → All (λ e. p e ≡ q e) es
    → keep p es ≡ keep q es
keep_agree p q [] h = refl
keep_agree p q (e ∷ es) (h, hs) = rw (h, keep_agree p q es hs) refl

keep-append :
    (p : UniversalEvent → Bool) (es : List UniversalEvent) (d : UniversalEvent)
    → keep p (es ++ d ∷ []) ≡ keep p es ++ (if p d then d ∷ [] else [])
keep-append p [] d = ground arith
keep-append p (e ∷ es) d = let rest = keep-append p es d in ground arith

pub get_event-All :
    (es : List UniversalEvent) (i : Uuid) → get_event es i ≡ none → All (λ e. e.id ≢ i) es
unfolding get_event
get_event-All [] i h = tt
get_event-All (e ∷ es) i h = (ground arith, get_event-All es i (ground arith))

pub Distinct-append :
    (es : List UniversalEvent) (d : UniversalEvent)
    → Distinct es
    → All (λ e. e.id ≢ d.id) es
    → Distinct (es ++ d ∷ [])
Distinct-append [] d h a = (tt, tt)
Distinct-append (e ∷ es) d (h, hs) (a, others) =
    (All-append (λ x. x.id ≢ e.id) es (d ∷ []) h (ground arith, tt), Distinct-append es d hs others)

-- A new state of the id `i` leaves every event with another id as it was.
awaits_other :
    (states : Dict Uuid EventLifecycleState) (i : Uuid) (state : EventLifecycleState)
    (e : UniversalEvent)
    → e.id ≢ i
    → awaits (Dict.put states i state) e ≡ awaits states e
awaits_other states i state e h =
    rw (Dict.get-put states i e.id state) (ground (arith, ==_iff i e.id))

awaits_others :
    (states : Dict Uuid EventLifecycleState) (i : Uuid) (state : EventLifecycleState)
    (es : List UniversalEvent)
    → All (λ e. e.id ≢ i) es
    → All (λ e. awaits (Dict.put states i state) e ≡ awaits states e) es
awaits_others states i state [] h = tt
awaits_others states i state (e ∷ es) (h, hs) =
    (awaits_other states i state e h, awaits_others states i state es hs)

-- A state that is as processed as the one before changes nothing.
awaits_same :
    (states : Dict Uuid EventLifecycleState) (i : Uuid) (state : EventLifecycleState)
    (es : List UniversalEvent)
    → is_done (some state) ≡ is_done (Dict.get states i)
    → All (λ e. awaits (Dict.put states i state) e ≡ awaits states e) es
awaits_same states i state [] h = tt
awaits_same states i state (e ∷ es) h = (
  elim (Bool-cases (i == e.id)) [
    | inl here ↦
        rw (Dict.get-put states i e.id state)
          (rw here (ap not (h ∙ ap (λ j. is_done (Dict.get states j)) ((==_iff i e.id).0 here))))
    | inr elsewhere ↦ rw (Dict.get-put states i e.id state) (rw elsewhere refl)
  ],
  awaits_same states i state es h,
)

-- Processing the id `i` takes its event out of the list of those that wait.
processed_leaves :
    (states : Dict Uuid EventLifecycleState) (i : Uuid) (state : EventLifecycleState)
    (es : List UniversalEvent)
    → Distinct es
    → is_done (some state) ≡ true
    → is_done (Dict.get states i) ≡ false
    → mark_processed (keep (awaits states) es) i ≡ keep (awaits (Dict.put states i state)) es
unfolding mark_processed
processed_leaves states i state [] h done open_before = refl
processed_leaves states i state (e ∷ es) (h, hs) done open_before = elim (Bool-cases (i == e.id)) [
  | inl here ↦
      let same = (==_iff i e.id).0 here in
      let others =
        keep_agree (awaits (Dict.put states i state)) (awaits states) es
          (awaits_others states i state es (subst (λ j. All (λ d. d.id ≢ j) es) (sym same) h)) in
      let was : awaits states e ≡ true =
        ap not (ap (λ j. is_done (Dict.get states j)) (sym same) ∙ open_before) in
      let is : awaits (Dict.put states i state) e ≡ false =
        rw (Dict.get-put states i e.id state) (rw here (ap not done)) in
      rw (was, is) (rw ((==_iff e.id i).1 (sym same)) (sym others))
  | inr elsewhere ↦
      let apart : e.id == i ≡ false = ground arith in
      let rest = processed_leaves states i state es hs done open_before in
      let agree = awaits_other states i state e (ground (arith, ==_iff e.id i)) in
      rw agree (elim (Bool-cases (awaits states e)) [
        | inl waits ↦ rw waits (rw apart (ap (λ xs. e ∷ xs) rest))
        | inr gone ↦ rw gone rest
      ])
]

pub set_open :
    (s : WorkflowState) (i : Uuid) (state : EventLifecycleState)
    → is_done (some state) ≡ false
    → is_done (Dict.get s.states i) ≡ false
    → Consistent s
    → Consistent (set_event_state s i state)
unfolding set_event_state
set_open s i state is was h = record {
  distinct = h.distinct;
  waiting =
      h.waiting
      ∙ sym (
          keep_agree (awaits (Dict.put s.states i state)) (awaits s.states) s.events
            (awaits_same s.states i state s.events (is ∙ sym was)));
}

pub set_done :
    (s : WorkflowState) (i : Uuid) (state : EventLifecycleState)
    → is_done (some state) ≡ true
    → is_done (Dict.get s.states i) ≡ false
    → Consistent s
    → Consistent (record (set_event_state s i state) { inbox = mark_processed s.inbox i })
unfolding set_event_state
set_done s i state is was h = record {
  distinct = h.distinct;
  waiting =
      ap (λ xs. mark_processed xs i) h.waiting
      ∙ processed_leaves s.states i state s.events h.distinct is was;
}

-- Processing starts from a state that is not processed.
pub starts :
    (i : Uuid) (now : Instant) (found : Option EventLifecycleState) {running : EventLifecycleState}
    → event_transition (or_else found (new_event_state i pending now)) processing none now
      ≡ ok running
    → (is_done found ≡ false) × (running.status ≡ processing)
unfolding event_transition
starts i now none h = ground arith
starts i now (some state) h = ground arith

pub conflicts :
    (i : Uuid) (now : Instant) (found : Option EventLifecycleState)
    → is_done found ≡ true
    → event_transition (or_else found (new_event_state i pending now)) processing none now
      ≡ err (invalid_event_transition processed processing)
unfolding event_transition
conflicts i now none h = cc
conflicts i now (some state) h = ground arith

abbrev pub ended : EventLifecycleState → EventStatus → Option String → Instant → EventLifecycleState
ended running status reason now = record running {
  status = status;
  reason = normalize_blank_reason reason;
  updated_at = now;
}

pub fails :
    (running : EventLifecycleState) (message : String) (now : Instant)
    → running.status ≡ processing
    → event_transition running failed (some message) now
      ≡ ok (ended running failed (some message) now)
unfolding event_transition
fails running message now h = ground arith

pub completes :
    (running : EventLifecycleState) (now : Instant)
    → running.status ≡ processing
    → event_transition running processed none now ≡ ok (ended running processed none now)
unfolding event_transition
completes running now h = ground arith

-- A new event that is not processed joins the list of those that wait.
pub new_waits :
    (states : Dict Uuid EventLifecycleState) (state : EventLifecycleState) (event : UniversalEvent)
    (es : List UniversalEvent)
    → All (λ e. e.id ≢ event.id) es
    → is_done (some state) ≡ false
    → {inbox : List UniversalEvent} → inbox ≡ keep (awaits states) es
    → inbox ++ event ∷ [] ≡ keep (awaits (Dict.put states event.id state)) (es ++ event ∷ [])
new_waits states state event es fresh is e =
    let waits : awaits (Dict.put states event.id state) event ≡ true =
      rw (Dict.get-put_self states event.id state) (ap not is) in
    let others =
      keep_agree (awaits (Dict.put states event.id state)) (awaits states) es
        (awaits_others states event.id state es fresh) in
    rw (keep-append (awaits (Dict.put states event.id state)) es event) (rw (waits, others, e) refl)
