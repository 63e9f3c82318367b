-- ===== src/Calendar/Walk/Terminates.antt =====
-- `while True` ends: the walk asks for a bounded number of pages, whatever the provider answers.
use velox_server.Prelude.{
  ℕ, zero, suc, ◌+◌, ◌≤◌, ◌<◌, String, Option, none, some, ◌≡◌, refl, ◌∙◌, ◌⊎◌, inl, inr, arith,
  string_eq,
}
use velox_server.Prelude.Result.{Result, ok, err}
use velox_server.Prelude.Dict
use velox_server.Actions.{Value, Action}
use velox_server.Workers.Executor.{
  WorkerExecutionStatus, succeeded, skipped, failed, WorkerExecutionResult,
}
use velox_server.Calendar.{
  Timestamps, RequestError, CalendarEventListOrchestrationRequest, new_orchestration_request,
  max_max_pages,
}
use velox_server.Calendar.Bounds.{int_of, orchestration_request-ok}
use velox_server.Calendar.Worker.Metadata.{page_token_redacted_action}
use velox_server.Calendar.Walk.{
  WalkState, aggregate, start, Page, page_of, extend, TerminationReason, after_page, page_action,
  round_of, request_failure, walk, execute,
}

-- A loop that goes on has fetched one page more, and fewer than the limit.
after_page-inr :
    (request : CalendarEventListOrchestrationRequest) (s : WalkState) (token : Option String)
    {next : WalkState}
    → after_page request s token ≡ inr next
    → (next.pages_fetched ≡ s.pages_fetched) × (s.pages_fetched < request.max_pages)
unfolding after_page
after_page-inr request s none h = absurd (ground arith)
after_page-inr request s (some token) h = ground arith

module _ {W : Type 0} (page_executor : Action → W → WorkerExecutionResult × W) where
  round_of-inr :
      (action : Action) (request : CalendarEventListOrchestrationRequest) (s : WalkState)
      (r : WorkerExecutionResult) {next : WalkState}
      → round_of page_executor action request s r ≡ inr next
      → (next.pages_fetched ≡ s.pages_fetched + 1) × (next.pages_fetched < request.max_pages)
  unfolding round_of extend
  round_of-inr action request s r {next} h = parts r.status (page_of r.metadata) refl refl h
    where
      left :
          (page : Page) (x : TerminationReason ⊎ WalkState)
          → r.status ≡ succeeded
          → page_of r.metadata ≡ some page
          → after_page request (extend s page) page.next_page_token ≡ x
          → round_of page_executor action request s r ≡ inr next
          → (next.pages_fetched ≡ s.pages_fetched + 1) × (next.pages_fetched < request.max_pages)
      left page (inl reason) p q u h = absurd (ground arith)
      left page (inr other) p q u h =
          let e : other ≡ next = ground arith in
          ground (arith, after_page-inr request (extend s page) page.next_page_token u)

      parts :
          (status : WorkerExecutionStatus) (page : Option Page)
          → r.status ≡ status
          → page_of r.metadata ≡ page
          → round_of page_executor action request s r ≡ inr next
          → (next.pages_fetched ≡ s.pages_fetched + 1) × (next.pages_fetched < request.max_pages)
      parts succeeded none p q h = absurd (ground arith)
      parts succeeded (some page) p q h =
          left page (after_page request (extend s page) page.next_page_token) p q refl h
      parts skipped page p q h = absurd (ground arith)
      parts failed page p q h = absurd (ground arith)

  -- A round whose page is accepted goes by the page's token.
  pub round_of-page :
      (action : Action) (request : CalendarEventListOrchestrationRequest) (s : WalkState)
      (r : WorkerExecutionResult) (page : Page)
      → r.status ≡ succeeded
      → page_of r.metadata ≡ some page
      → round_of page_executor action request s r
        ≡ (elim (after_page request (extend s page) page.next_page_token) [
          | inl reason ↦ inl (aggregate (page_token_redacted_action action) (extend s page) reason)
          | inr state ↦ inr state
        ])
  unfolding round_of
  round_of-page action request s r page p q = ground arith

  pub walk-inl :
      (fuel : ℕ) (action : Action) (request : CalendarEventListOrchestrationRequest) (s : WalkState)
      (w : W) {result : WorkerExecutionResult}
      → round_of page_executor action request s
          (page_executor (page_action action request s.page_token) w).0
        ≡ inl result
      → walk page_executor (suc fuel) action request s w
        ≡ some (result, (page_executor (page_action action request s.page_token) w).1)
  unfolding walk
  walk-inl fuel action request s w p = rw (p, walk) refl

  pub walk-inr :
      (fuel : ℕ) (action : Action) (request : CalendarEventListOrchestrationRequest) (s : WalkState)
      (w : W) {next : WalkState}
      → round_of page_executor action request s
          (page_executor (page_action action request s.page_token) w).0
        ≡ inr next
      → walk page_executor (suc fuel) action request s w
        ≡ walk page_executor fuel action request next
            (page_executor (page_action action request s.page_token) w).1
  unfolding walk
  walk-inr fuel action request s w p = rw (p, walk) refl

  -- A request that is accepted is walked on as much fuel as it allows pages.
  pub execute_accepted :
      (t : Timestamps) (action : Action) (w : W) {request : CalendarEventListOrchestrationRequest}
      → Dict.get action.payload "page_token" ≡ none
      → new_orchestration_request t
          (Dict.get action.payload "time_min")
          (Dict.get action.payload "time_max")
          (Dict.get action.payload "max_results")
          (Dict.get action.payload "max_pages")
        ≡ ok request
      → execute page_executor t action w
        ≡ walk page_executor request.max_pages action request start w
  unfolding execute
  execute_accepted t action w p q = rw (p, execute) (rw q refl)

  module _ (P : ℕ → W → Type 0)
      (kept : (n : ℕ) (a : Action) (w : W) → P n w → P (n + 1) (page_executor a w).1) where
    abbrev Ends : ℕ → Action → CalendarEventListOrchestrationRequest → WalkState → W → Type 0
    Ends fuel action request s w =
        (result : WorkerExecutionResult) × (w' : W) × (n : ℕ) × (walk page_executor fuel action
            request s w
          ≡ some (result, w'))
        × (n ≤ request.max_pages)
        × P n w'

    -- One round, if the rest of the walk ends.
    round-Ends :
        (fuel : ℕ) (action : Action) (request : CalendarEventListOrchestrationRequest)
        (s : WalkState) (w : W)
        → s.pages_fetched < request.max_pages
        → P s.pages_fetched w
        → ((next : WalkState) (w' : W)
            → next.pages_fetched ≡ s.pages_fetched + 1
            → next.pages_fetched < request.max_pages
            → P (s.pages_fetched + 1) w'
            → Ends fuel action request next w')
        → (x : WorkerExecutionResult ⊎ WalkState)
        → round_of page_executor action request s
            (page_executor (page_action action request s.page_token) w).0
          ≡ x
        → Ends (suc fuel) action request s w
    unfolding walk
    round-Ends fuel action request s w below h rest (inl result) p = (
      result,
      (page_executor (page_action action request s.page_token) w).1,
      s.pages_fetched + 1,
      walk-inl fuel action request s w p,
      omega arith,
      kept _ _ _ h,
    )
    round-Ends fuel action request s w below h rest (inr next) p =
        let bounds =
          round_of-inr action request s
            (page_executor (page_action action request s.page_token) w).0 p in
        let (result, w', n, q, k, fact) = rest next _ bounds.0 bounds.1 (kept _ _ _ h) in
        (result, w', n, walk-inr fuel action request s w p ∙ q, k, fact)

    -- The walk on enough fuel returns, after at most as many pages as the request allows.
    walk_returns :
        (fuel : ℕ) (action : Action) (request : CalendarEventListOrchestrationRequest)
        (s : WalkState) (w : W)
        → request.max_pages ≤ fuel + s.pages_fetched
        → s.pages_fetched < request.max_pages
        → P s.pages_fetched w
        → Ends fuel action request s w
    walk_returns zero action request s w enough below h = absurd (omega arith)
    walk_returns (suc fuel) action request s w enough below h =
        round-Ends fuel action request s w below h
          (λ next w' e b k. walk_returns fuel action request next w' (omega arith) b (rw e k)) _
          refl

    -- Whatever the pages are, the walk returns a result; and the page executor is called at most
    -- ten times, and no more often than the payload's page limit says. `P n w` stands for any fact
    -- that n calls of the page executor bring about in the world.
    pub execute_returns :
        (t : Timestamps) (action : Action) (w : W)
        → P 0 w
        → (result : WorkerExecutionResult) × (w' : W) × (n : ℕ) × (execute page_executor t action w
            ≡ some (result, w'))
          × (n ≤ int_of (Dict.get action.payload "max_pages"))
          × (n ≤ max_max_pages)
          × P n w'
    unfolding execute
    execute_returns t action w h = by_request (Dict.get action.payload "page_token") _ refl refl
      where
        Returns : Type 0
        Returns =
            (result : WorkerExecutionResult) × (w' : W) × (n : ℕ) × (execute page_executor t action
                w
              ≡ some (result, w'))
            × (n ≤ int_of (Dict.get action.payload "max_pages"))
            × (n ≤ max_max_pages)
            × P n w'

        by_request :
            (token : Option Value) (x : Result RequestError CalendarEventListOrchestrationRequest)
            → Dict.get action.payload "page_token" ≡ token
            → new_orchestration_request t
                (Dict.get action.payload "time_min")
                (Dict.get action.payload "time_max")
                (Dict.get action.payload "max_results")
                (Dict.get action.payload "max_pages")
              ≡ x
            → Returns
        by_request (some v) x p q = (
          request_failure (page_token_redacted_action action) "page_token"
              "calendar list orchestration does not accept page_token",
          w,
          0,
          rw (p, execute) refl,
          omega arith,
          omega arith,
          h,
        )
        by_request none (err e) p q = (
          request_failure (page_token_redacted_action action) e.field e.message,
          w,
          0,
          rw (p, execute) (rw q refl),
          omega arith,
          omega arith,
          h,
        )
        by_request none (ok request) p q =
            let bounds = (orchestration_request-ok t _ _ _ _ q).1.1 in
            let (result, w', n, r, k, fact) =
              walk_returns request.max_pages action request start w (omega arith) (omega arith) h in
            (result, w', n, execute_accepted t action w p q ∙ r, omega arith, omega arith, fact)
