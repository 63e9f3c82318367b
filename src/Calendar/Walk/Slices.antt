-- ===== src/Calendar/Walk/Slices.antt =====
-- The walk over a provider whose pages are the slices of one list.
use velox_server.Prelude.{
  ℕ, ◌+◌, ◌*◌, ◌≤◌, ◌<◌, String, true, Option, none, some, List, ◌∷◌, ◌≡◌, refl, ap, sym, subst,
  ◌∙◌, arith, zero, suc, inl, inr, All, All-map, nat_eq, string_eq, ltb, length, if◌then◌else◌, map,
}
use native.Mathlib.Decide.{dec_lt}
use velox_server.Prelude.Slices.{take, take_all}
use velox_server.Actions.{Action}
use velox_server.Workers.Executor.{succeeded, WorkerExecutionResult}
use velox_server.Calendar.{CalendarEventListOrchestrationRequest, CalendarEvent, event_fields}
use velox_server.Calendar.Worker.Metadata.{page_token_redacted_action}
use velox_server.Calendar.Walk.{
  WalkState, Page, page_of, extend, TerminationReason, exhausted, page_limit, after_page, aggregate,
  page_action, round_of, walk,
}
use velox_server.Calendar.Walk.Shape.{page_with}
use velox_server.Calendar.Walk.Terminates.{round_of-page, walk-inl, walk-inr}
use velox_server.Calendar.Fake.{page_token}
use velox_server.Calendar.Fake.Steps.{
  chunk, next, next_last, next_middle, events-extend, SeenUpTo, not_seen,
}

-- The limit that is left falls by a page.
suc_mul : (f n : ℕ) → suc f * n ≡ n + f * n
suc_mul f n = grind arith

-- The token that stands for an offset; none stands for the first page.
abbrev pub Reads : (ℕ → String) → Option String → ℕ → Type 0
Reads str_int none offset = ◌≡◌ {A = ℕ} offset 0
Reads str_int (some s) offset = s ≡ page_token str_int offset

-- A page executor that answers, for a token that stands for an offset, with the slice from there.
pub record PageServer {W : Type 0} (page_executor : Action → W → WorkerExecutionResult × W)
    (str_int : ℕ → String) (ordered : List CalendarEvent) (action : Action)
    (q : CalendarEventListOrchestrationRequest) : Type 0 where
  pub page_answer : Option String → ℕ → WorkerExecutionResult
  pub answered :
      (w : W) (token : Option String) (offset : ℕ)
      → Reads str_int token offset
      → offset ≤ length ordered
      → page_executor (page_action action q token) w ≡ (page_answer token offset, w)
  pub succeeds :
      (token : Option String) (offset : ℕ) → (page_answer token offset).status ≡ succeeded
  pub describes :
      (token : Option String) (offset : ℕ)
      → page_of (page_answer token offset).metadata
        ≡ some (
            page_with
              (chunk str_int ordered offset q.max_results)
              0
              (next str_int ordered offset q.max_results))

module _ (str_int : ℕ → String) (digits : String → Option ℕ)
    (read_back : (n : ℕ) → digits (str_int n) ≡ some n) (ordered : List CalendarEvent) {W : Type 0}
    (page_executor : Action → W → WorkerExecutionResult × W) (action : Action)
    (q : CalendarEventListOrchestrationRequest) (some_results : 1 ≤ q.max_results)
    (server : PageServer page_executor str_int ordered action q) (w : W) where
  -- The page at an offset, and the loop's variables after it.
  abbrev pub page_at : ℕ → Page
  page_at offset =
      page_with (chunk str_int ordered offset q.max_results) 0
        (next str_int ordered offset q.max_results)

  round_of-page_answer :
      (s : WalkState) (offset : ℕ)
      → round_of page_executor action q s (server.page_answer s.page_token offset)
        ≡ (elim (after_page q (extend s (page_at offset)) (page_at offset).next_page_token) [
          | inl reason ↦
              inl (aggregate (page_token_redacted_action action) (extend s (page_at offset)) reason)
          | inr state ↦ inr state
        ])
  round_of-page_answer s offset =
      round_of-page page_executor action q s (server.page_answer s.page_token offset)
        (page_at offset) (server.succeeds s.page_token offset)
        (server.describes s.page_token offset)

  -- The walk at an offset: it has read the events before it.
  pub record Along (s : WalkState) (offset : ℕ) : Type 0 where
    pub reads : Reads str_int s.page_token offset
    pub read_events : s.events ≡ map event_fields (take offset ordered)
    pub none_skipped : s.skipped_event_count ≡ 0
    pub all_complete : s.every_page_complete ≡ true
    pub seen : All (SeenUpTo str_int offset) s.seen_page_tokens
    pub inside : offset ≤ length ordered

  -- Why the walk ends, when it may list so many events.
  abbrev pub reason_for : ℕ → TerminationReason
  reason_for total = if ltb total (length ordered) then page_limit else exhausted

  -- The walk lists the first `total` events, or all.
  abbrev pub Lists : Option (WorkerExecutionResult × W) → ℕ → Type 0
  Lists walked total =
      (e : WalkState) × (walked
        ≡ some (aggregate (page_token_redacted_action action) e (reason_for total), w))
      × (e.events ≡ map event_fields (take total ordered))
      × (e.skipped_event_count ≡ 0)
      × (e.every_page_complete ≡ true)
      × (e.pages_fetched ≤ q.max_pages)

  -- A round that ends the walk.
  ends :
      (fuel : ℕ) (s : WalkState) (offset total : ℕ) (reason : TerminationReason)
      → Along s offset
      → after_page q (extend s (page_at offset)) (page_at offset).next_page_token ≡ inl reason
      → reason_for total ≡ reason
      → map event_fields (take (offset + q.max_results) ordered)
        ≡ map event_fields (take total ordered)
      → s.pages_fetched < q.max_pages
      → Lists (walk page_executor (suc fuel) action q s w) total
  unfolding extend
  ends fuel s offset total reason a p r e below =
      let answered = server.answered w s.page_token offset a.reads a.inside in
      let rounded : round_of page_executor action q s
            (page_executor (page_action action q s.page_token) w).0
          ≡ inl (
              aggregate (page_token_redacted_action action) (extend s (page_at offset))
                (reason_for total)) =
        rw answered (round_of-page_answer s offset ∙ rw p (rw r refl)) in
      (
        extend s (page_at offset),
        walk-inl page_executor fuel action q s w rounded
            ∙ ap
                (λ (x : WorkerExecutionResult × W). some (
                  aggregate (page_token_redacted_action action) (extend s (page_at offset))
                      (reason_for total),
                  x.1,
                ))
                answered,
        rw a.read_events (events-extend str_int ordered offset q.max_results ∙ e),
        rw a.none_skipped refl,
        rw a.all_complete refl,
        omega arith,
      )

  -- The variables of the loop after a page that is followed by another.
  abbrev forward : WalkState → ℕ → WalkState
  forward s offset = record (extend s (page_at offset)) {
    seen_page_tokens = page_token str_int (offset + q.max_results) ∷ s.seen_page_tokens;
    page_token = some (page_token str_int (offset + q.max_results));
  }

  forward-Along :
      (s : WalkState) (offset : ℕ)
      → Along s offset
      → offset + q.max_results < length ordered
      → Along (forward s offset) (offset + q.max_results)
  unfolding extend
  forward-Along s offset a h = record {
    reads = refl;
    read_events = rw a.read_events (events-extend str_int ordered offset q.max_results);
    none_skipped = rw a.none_skipped refl;
    all_complete = rw a.all_complete refl;
    seen = (
      (offset + q.max_results, refl, omega arith),
      All-map (SeenUpTo str_int offset) (SeenUpTo str_int (offset + q.max_results))
          s.seen_page_tokens (λ u k. (k.0, k.1, omega (arith, k.2))) a.seen,
    );
    inside = omega arith;
  }

  -- A page that is followed by another, below the limit: the loop goes on.
  goes_on :
      (s : WalkState) (offset : ℕ)
      → Along s offset
      → offset + q.max_results < length ordered
      → s.pages_fetched + 1 < q.max_pages
      → after_page q (extend s (page_at offset)) (page_at offset).next_page_token
        ≡ inr (forward s offset)
  unfolding after_page extend
  goes_on s offset a h below = rw (next_middle str_int ordered offset q.max_results h) (
      rw
        (not_seen str_int digits read_back offset (offset + q.max_results) s.seen_page_tokens a.seen
          (omega arith))
        (ground arith))

  -- The last page, and the last page that the limit allows.
  exhausts :
      (s : WalkState) (offset : ℕ)
      → Along s offset
      → length ordered ≤ offset + q.max_results
      → after_page q (extend s (page_at offset)) (page_at offset).next_page_token ≡ inl exhausted
  unfolding after_page
  exhausts s offset a h = rw (next_last str_int ordered offset q.max_results a.inside h) refl

  limits :
      (s : WalkState) (offset : ℕ)
      → offset + q.max_results < length ordered
      → q.max_pages ≤ s.pages_fetched + 1
      → after_page q (extend s (page_at offset)) (page_at offset).next_page_token ≡ inl page_limit
  unfolding after_page extend
  limits s offset h k = rw (next_middle str_int ordered offset q.max_results h) (ground arith)

  last_round :
      (fuel : ℕ) (s : WalkState) (offset total : ℕ)
      → Along s offset
      → length ordered ≤ offset + q.max_results
      → offset + q.max_results ≤ total
      → s.pages_fetched < q.max_pages
      → Lists (walk page_executor (suc fuel) action q s w) total
  last_round fuel s offset total a h k below =
      ends fuel s offset total exhausted a (exhausts s offset a h) (ground arith)
        (ap (map event_fields) (
          take_all (offset + q.max_results) ordered h ∙ sym (take_all total ordered (omega arith))))
        below

  pub walk-Lists :
      (fuel : ℕ) (s : WalkState) (offset total : ℕ)
      → Along s offset
      → fuel + s.pages_fetched ≡ q.max_pages
      → offset + fuel * q.max_results ≡ total
      → 0 < fuel
      → Lists (walk page_executor fuel action q s w) total
  unfolding extend
  walk-Lists zero s offset total a e l h = absurd (omega arith)
  walk-Lists (suc zero) s offset total a e l h =
      let whole : offset + q.max_results ≡ total = omega (arith, suc_mul 0 q.max_results) in
      elim (dec_lt (offset + q.max_results) (length ordered)) [
        | yes more ↦
            ends 0 s offset total page_limit a (limits s offset more (omega arith)) (ground arith)
              (ap (λ k. map event_fields (take k ordered)) whole) (omega arith)
        | no last ↦ last_round 0 s offset total a (omega arith) (omega arith) (omega arith)
      ]
  walk-Lists (suc (suc fuel)) s offset total a e l h =
      elim (dec_lt (offset + q.max_results) (length ordered)) [
        | no last ↦
            last_round (suc fuel) s offset total a (omega arith)
              (omega (arith, suc_mul (suc fuel) q.max_results)) (omega arith)
        | yes more ↦
            let answered = server.answered w s.page_token offset a.reads a.inside in
            let on : round_of page_executor action q s
                  (page_executor (page_action action q s.page_token) w).0
                ≡ inr (forward s offset) =
              rw answered
                (round_of-page_answer s offset ∙ rw (goes_on s offset a more (omega arith)) refl) in
            subst (λ walked. Lists walked total)
              (sym (
                walk-inr page_executor (suc fuel) action q s w on
                ∙ ap
                    (λ (x : WorkerExecutionResult × W).
                      walk page_executor (suc fuel) action q (forward s offset) x.1)
                    answered))
              (walk-Lists (suc fuel) (forward s offset) (offset + q.max_results) total
                (forward-Along s offset a more) (omega arith)
                (omega (arith, suc_mul (suc fuel) q.max_results)) (omega arith))
      ]
