-- ===== src/Workers/Runtime/Credit.antt =====
-- The credit of an action and of a queue: how many executions are left, and what one costs.
use velox_server.Prelude.{
  ℕ, ◌+◌, ◌-◌, ◌*◌, ◌≤◌, ◌<◌, true, Option, none, some, List, [], ◌∷◌, ◌++◌, ◌≡◌, refl, inl, inr,
  arith, if◌then◌else◌, Bool-cases, ap, length, ◌==◌, nat_eq, subst, ◌∙◌, ==_iff,
}
use native.Mathlib.Nat.{le_trans, le-add_left}
use velox_server.Actions.{Uuid, Action}
use velox_server.Lifecycle.{ActionLifecycleState}
use velox_server.ControlPlane.{
  ControlPlane, get_state, set_state, enqueue, get_state-set_state, get_state-enqueue,
}
use velox_server.ControlPlane.Queue
use velox_server.Workers.Runtime.{RuntimeConfig, Reading, retry_count}
use velox_server.Workers.Runtime.Outcome.{
  final_state, final_plane, retries, settled_state, retried_state, running_state,
}

module _ (config : RuntimeConfig) where
  -- How often an action in this state can still be executed.
  abbrev pub credit : Option ActionLifecycleState → ℕ
  credit none = config.max_transient_retries + 1
  credit (some state) = config.max_transient_retries - retry_count state.metadata + 1

  unfoldable pub total_credit : ControlPlane → List Action → ℕ
  total_credit c [] = 0
  total_credit c (a ∷ q) = credit (get_state c a.id) + total_credit c q

  pub total_credit-append :
      (c : ControlPlane) (q r : List Action)
      → total_credit c (q ++ r) ≡ total_credit c q + total_credit c r
  unfolding total_credit
  total_credit-append c [] r = omega arith
  total_credit-append c (a ∷ q) r = omega (arith, total_credit-append c q r)

  pub total_credit_mono :
      (c c' : ControlPlane) (q : List Action)
      → ((i : Uuid) → credit (get_state c' i) ≤ credit (get_state c i))
      → total_credit c' q ≤ total_credit c q
  unfolding total_credit
  total_credit_mono c c' [] h = omega arith
  total_credit_mono c c' (a ∷ q) h = omega (arith, h a.id, total_credit_mono c c' q h)

  credit-le : (o : Option ActionLifecycleState) → credit o ≤ config.max_transient_retries + 1
  credit-le none = omega arith
  credit-le (some state) = omega arith

  pub total_credit-le :
      (c : ControlPlane) (q : List Action)
      → total_credit c q ≤ (config.max_transient_retries + 1) * length q
  unfolding total_credit
  total_credit-le c [] = omega arith
  total_credit-le c (a ∷ q) = grind (arith, total_credit-le c q, credit-le (get_state c a.id))

  -- The credit of a queue after an execution, with the action put back or not.
  module _ (c c' : ControlPlane) where
    spends_again :
        (action : Action)
        → ((i : Uuid) → credit (get_state c' i) ≤ credit (get_state c i))
        → c'.queue ≡ c.queue ++ action ∷ []
        → credit (get_state c' action.id) + 1 ≤ credit (get_state c action.id)
        → total_credit c' c'.queue + 1 ≤ credit (get_state c action.id) + total_credit c c.queue
    unfolding total_credit
    spends_again action mono e less = omega (
      arith,
      ap (total_credit c') e,
      total_credit-append c' c.queue (action ∷ []),
      total_credit_mono c c' c.queue mono,
    )

    spends_last :
        (k : ℕ)
        → ((i : Uuid) → credit (get_state c' i) ≤ credit (get_state c i))
        → c'.queue ≡ c.queue
        → 1 ≤ k
        → total_credit c' c'.queue + 1 ≤ k + total_credit c c.queue
    spends_last k mono e one =
        omega (arith, ap (total_credit c') e, total_credit_mono c c' c.queue mono)

  module _ (reading : Reading) (action : Action) (state : ActionLifecycleState)
      (c : ControlPlane) where
    get_state-final_plane :
        (i : Uuid)
        → get_state (final_plane config reading action state c) i ≡ (
            if action.id == i
            then some (final_state config reading action state)
            else get_state c i)
    get_state-final_plane i =
        let run = running_state config reading action state in
        let end = settled_state config reading action state in
        let c₁ = set_state c action.id run in
        let c₂ = set_state c₁ action.id end in
        let again = retried_state config reading action state in
        elim (Bool-cases (retries config reading action state)) [
          | inl may ↦ rw may (
              ground (
                arith,
                get_state-enqueue (set_state c₂ action.id again) action i,
                get_state-set_state c₂ action.id i again,
                get_state-set_state c₁ action.id i end,
                get_state-set_state c action.id i run,
              ))
          | inr done ↦ rw done (
              ground (
                arith,
                get_state-set_state c₁ action.id i end,
                get_state-set_state c action.id i run,
              ))
        ]

    queue-final_plane :
        (final_plane config reading action state c).queue
        ≡ (if retries config reading action state then c.queue ++ action ∷ [] else c.queue)
    unfolding set_state enqueue Queue.enqueue
    queue-final_plane = ground arith

    retries-lt :
        retries config reading action state ≡ true
        → retry_count state.metadata < config.max_transient_retries
    unfolding retries
    retries-lt may = ground arith

    -- A retry counts, so it uses up credit; the count never goes back.
    retry_has_credit :
        retries config reading action state ≡ true
        → credit (some (final_state config reading action state)) + 1 ≤ credit (some state)
    unfolding retry_count
    retry_has_credit may = rw may (omega (arith, retries-lt may))

    final-credit-le : credit (some (final_state config reading action state)) ≤ credit (some state)
    unfolding retry_count
    final-credit-le = elim (Bool-cases (retries config reading action state)) [
      | inl may ↦ rw may (omega arith)
      | inr done ↦ rw done (omega arith)
    ]

    final_plane-credit-le :
        credit (some state) ≤ credit (get_state c action.id)
        → (i : Uuid)
        → credit (get_state (final_plane config reading action state c) i) ≤ credit (get_state c i)
    final_plane-credit-le known i =
        rw (get_state-final_plane i) (elim (Bool-cases (action.id == i)) [
          | inl same ↦ rw same (
              subst
                (λ (j : Uuid).
                  credit (some (final_state config reading action state)) ≤ credit (get_state c j))
                ((==_iff action.id i).0 same) (le_trans final-credit-le known))
          | inr other ↦ rw other (omega arith)
        ])

    final_plane-credit :
        credit (get_state (final_plane config reading action state c) action.id)
        ≡ credit (some (final_state config reading action state))
    final_plane-credit =
        ap credit {y = some (final_state config reading action state)}
          (get_state-final_plane action.id ∙ rw ((==_iff action.id action.id).1 refl) refl)

    -- What the execution of an action costs.
    pub final_plane-spends :
        credit (some state) ≤ credit (get_state c action.id)
        → total_credit
              (final_plane config reading action state c)
              (final_plane config reading action state c).queue
            + 1
          ≤ credit (get_state c action.id) + total_credit c c.queue
    final_plane-spends known = elim (Bool-cases (retries config reading action state)) [
      | inl may ↦
          spends_again c (final_plane config reading action state c) action
            (final_plane-credit-le known) (queue-final_plane ∙ rw may refl)
            (omega (arith, final_plane-credit, retry_has_credit may))
      | inr done ↦
          spends_last c (final_plane config reading action state c) (credit (get_state c action.id))
            (final_plane-credit-le known) (queue-final_plane ∙ rw done refl)
            (le_trans (le-add_left 1 (config.max_transient_retries - retry_count state.metadata))
              known)
    ]
