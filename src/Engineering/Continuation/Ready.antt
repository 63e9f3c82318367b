-- ===== src/Engineering/Continuation/Ready.antt =====
-- The control plane on which the worker runtime processes a claimed action.
use velox_server.Prelude.{
  Bool, true, false, not, subst, Option, none, some, List, [], ◌∷◌, ◌++◌, ◌≡◌, refl, sym, ◌∙◌, ◌⊎◌,
  inl, inr, arith, nat_eq, ◌==◌, ==_iff, Bool-cases,
}
use velox_server.Prelude.Result.{Result, ok, err, raise_if, ◌>>=◌, ◌>>◌}
use velox_server.Actions.{Uuid, Instant, Action}
use velox_server.Lifecycle.{queued, approved, ActionLifecycleState, new_state, no_metadata}
use velox_server.ControlPlane.{ControlPlane, get_state, set_state, enqueue, get_state-set_state}
use velox_server.ControlPlane.Queue
use velox_server.Workers.Runtime.{WorkerState}
use velox_server.Engineering.{RunRepository}
use velox_server.Engineering.Recovery.{is_canonical_action}
use velox_server.Engineering.Control.{Inspector}
use velox_server.Engineering.Continuation.{
  not_approved, not_canonical, conflicting, Runtime, check, ready, may_continue, needs_state,
  with_state, with_action, conflicts, require_canonical_action,
}

-- An action whose lifecycle is open: it has none, or it is queued or approved.
abbrev pub Open : Option ActionLifecycleState → Type 0
Open l =
    (l ≡ none)
    ⊎ ((state : ActionLifecycleState) × (l ≡ some state)
        × ((state.status ≡ queued) ⊎ (state.status ≡ approved)))

-- An action that is in the queue already is canonical and is the claimed one; else the claimed one
-- joins the queue.
abbrev pub Joined : Option Action → Action → List Action → List Action → Type 0
Joined found a q q' =
    ((found ≡ none) × (q' ≡ q ++ a ∷ []))
    ⊎ ((b : Action) × (found ≡ some b)
        × (is_canonical_action b ≡ true)
        × (conflicts b a ≡ false)
        × (q' ≡ q))

-- What is true of a control plane that is made ready for a claimed action, and was true before.
pub record Reached (i : Uuid) (a : Action) (c c' : ControlPlane) : Type 0 where
  pub lifecycle : Open (get_state c i)
  pub joined : Joined (Queue.find c.queue i) a c.queue c'.queue
  pub is_approved :
      (state : ActionLifecycleState) × (get_state c' i ≡ some state) × (state.status ≡ approved)
  pub others : (j : Uuid) → (i == j) ≡ false → get_state c' j ≡ get_state c j
  pub same_pending : c'.pending ≡ c.pending

Open-may_continue : (l : Option ActionLifecycleState) → may_continue l ≡ true → Open l
unfolding may_continue
Open-may_continue none h = inl refl
Open-may_continue (some state) h = inr (state, refl, ground arith)

-- What a guard and a last step let through.
guard_passed :
    {E A : Type 0} (b : Bool) (e : E) (k : Result E A) (x : A)
    → (raise_if b e >> k) ≡ ok x
    → (b ≡ false) × (k ≡ ok x)
guard_passed false e k x h = (refl, h)
guard_passed true e k x h = cc

last_passed :
    {E A B : Type 0} (r : Result E A) (f : A → B) (y : B)
    → (r >>= λ x. ok (f x)) ≡ ok y
    → (x : A) × (r ≡ ok x) × (f x ≡ y)
last_passed (ok x) f y h = (x, refl, cc)
last_passed (err e) f y h = cc

raise_if_passed : {E : Type 0} (b : Bool) (e : E) → raise_if b e ≡ ok tt → b ≡ false
raise_if_passed false e h = refl
raise_if_passed true e h = cc

unnegated : (b : Bool) → not b ≡ false → b ≡ true
unnegated true h = refl
unnegated false h = ground (arith, h)

-- The state that a durable approval gives.
abbrev durable_state : Instant → ActionLifecycleState
durable_state now =
    new_state approved none
      (record no_metadata { approval_required = some true; durable_recovery = some true }) now

module _ (i : Uuid) (now : Instant) (c : ControlPlane) where
  set_durable :
      (state : ActionLifecycleState) × (get_state (set_state c i (durable_state now)) i
        ≡ some state)
      × (state.status ≡ approved)
  unfolding new_state
  set_durable = (
    durable_state now,
    ground (arith, get_state-set_state c i i (durable_state now), ==_iff i i),
    refl,
  )

  with_state_approves :
      (l : Option ActionLifecycleState)
      → Open l
      → get_state c i ≡ l
      → (state : ActionLifecycleState) × (get_state (with_state l i now c) i ≡ some state)
        × (state.status ≡ approved)
  unfolding with_state needs_state
  with_state_approves l (inl e) p = rw e set_durable
  with_state_approves l (inr (state, e, inl q)) p = rw e (rw q set_durable)
  with_state_approves l (inr (state, e, inr q)) p = rw e (rw q (state, p ∙ e, q))

  with_state_others :
      (l : Option ActionLifecycleState) (j : Uuid)
      → (i == j) ≡ false
      → get_state (with_state l i now c) j ≡ get_state c j
  unfolding with_state
  with_state_others l j h = elim (Bool-cases (needs_state l)) [
    | inl needs ↦ rw needs (rw (get_state-set_state c i j (durable_state now)) (rw h refl))
    | inr has ↦ rw has refl
  ]

  with_state_queue :
      (l : Option ActionLifecycleState)
      → ((with_state l i now c).queue ≡ c.queue) × ((with_state l i now c).pending ≡ c.pending)
  unfolding with_state set_state
  with_state_queue l = elim (Bool-cases (needs_state l)) [
    | inl needs ↦ rw needs (refl, refl)
    | inr has ↦ rw has (refl, refl)
  ]

module _ {S : Type 0} (runtime : Runtime S) (repository : RunRepository S)
    (reviewer : Option Inspector) (i : Uuid) (now : Instant) (a : Action) (w : WorkerState) where
  -- The action of the queue, if there is one, passes its tests, and the claimed action is queued.
  Plane : Option Action → ControlPlane → Type 0
  Plane found c =
      Joined found a w.queue c.queue
      × ((c.pending ≡ w.pending) × ((j : Uuid) → get_state c j ≡ get_state w.plane j))

  with_action_joins :
      (found : Option Action) (c : ControlPlane)
      → require_canonical_action found ≡ ok tt
      → with_action found a w.plane ≡ ok c
      → Plane found c
  unfolding Plane require_canonical_action with_action enqueue Queue.enqueue get_state
  with_action_joins none c canonical h =
      let same : enqueue w.plane a ≡ c = cc in
      subst (λ x. Plane none x) same (inl (refl, refl), (refl, λ j. refl))
  with_action_joins (some b) c canonical h =
      let (apart, kept) = guard_passed (conflicts b a) conflicting (ok w.plane) c h in
      let same : w.plane ≡ c = cc in
      let is = unnegated (is_canonical_action b) (raise_if_passed _ not_canonical canonical) in
      subst (λ x. Plane (some b) x) same (inr (b, refl, is, apart, refl), (refl, λ j. refl))

  pub ready-Reached :
      (c : ControlPlane)
      → check runtime repository reviewer i w ≡ ok tt
      → ready runtime repository reviewer i now a w ≡ ok c
      → Reached i a w.plane c
  unfolding check ready Plane
  ready-Reached c k r =
      let found = Queue.find w.queue i in
      let l = get_state w.plane i in
      let (open_state, canonical) = guard_passed (not (may_continue l)) not_approved _ tt k in
      let (c0, joined, same) = last_passed (with_action found a w.plane) (with_state l i now) c r in
      let (in_queue, (pending, states)) = with_action_joins found c0 canonical joined in
      let is_open = Open-may_continue l (unnegated (may_continue l) open_state) in
      let (queue, held) = with_state_queue i now c0 l in
      subst (λ x. Reached i a w.plane x) same
        (record {
          lifecycle = is_open;
          joined = subst (λ (q : List Action). Joined found a w.queue q) (sym queue) in_queue;
          is_approved = with_state_approves i now c0 l is_open (states i);
          others = λ j h. with_state_others i now c0 l j h ∙ states j;
          same_pending = held ∙ pending;
        })
