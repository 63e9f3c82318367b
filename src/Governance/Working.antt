-- ===== src/Governance/Working.antt =====
-- The worker's steps keep the invariant, and execute only granted actions.
use velox_server.Prelude.{
  true, false, Option, none, some, is_none, List, [], ◌∷◌, ◌++◌, ◌≡◌, refl, All, All-append,
  Bool-cases, inl, inr, ◌⊎◌, subst, sym,
}
use velox_server.Actions.{Uuid, Action}
use velox_server.Lifecycle.{ActionLifecycleState}
use velox_server.ControlPlane.{ControlPlane, get_state, set_state}
use velox_server.Workers.Observation.{WorkerExecutionObservation, start, finish}
use velox_server.Workers.Runtime.{
  RuntimeConfig, Reading, WorkerState, WorkerProcessingResult, process_next, process_action,
  is_held,
}
use velox_server.Workers.Runtime.Gate.{may_run, cleared}
use velox_server.Workers.Runtime.Outcome.{
  observed, final_plane, retries, retried_state, settled_state, running_state,
}
use velox_server.Workers.Runtime.Safety.{
  claim, Targeted, Executed, Waited, process_next_cases, process_action_cases,
}
use velox_server.Governance.Invariant.{
  Known, Governed, set_state_knows, set_state-Governed, queue-Governed, enqueue-Governed,
}

All-split :
    (P : Action → Type 0) (xs ys : List Action) {y : Action}
    → All P (xs ++ y ∷ ys)
    → P y × All P (xs ++ ys)
All-split P [] ys h = h
All-split P (x ∷ xs) ys h = let (now, rest) = All-split P xs ys h.1 in (now, (h.0, rest))

module _ (P : Uuid → Type 0) where
  -- The id of every observed execution was granted.
  abbrev pub Observed : List WorkerExecutionObservation → Type 0
  Observed os = All (λ o. P o.action_id) os

  -- A known id that may run was granted.
  Known-runnable :
      (c : ControlPlane) (i : Uuid)
      → Governed P c
      → Known c i
      → may_run (get_state c i) ≡ true
      → P i
  Known-runnable c i g known runs = by_state (get_state c i) refl known runs
    where
      by_state :
          (found : Option ActionLifecycleState)
          → get_state c i ≡ found
          → is_none found ≡ false
          → may_run found ≡ true
          → P i
      by_state none e k m = cc
      by_state (some state) e k m = g.runnable i state e m

  abbrev pub Sound : WorkerState → Type 0
  Sound s = Governed P s.plane × Observed s.observations

  module _ (config : RuntimeConfig) (reading : Reading) (action : Action) where
    final_plane-Governed :
        (state : ActionLifecycleState) (c : ControlPlane)
        → P action.id
        → Governed P c
        → Governed P (final_plane config reading action state c)
    final_plane-Governed state c p g =
        let running = running_state config reading action state in
        let settled = settled_state config reading action state in
        let retried = retried_state config reading action state in
        let c1 = set_state c action.id running in
        let c2 = set_state c1 action.id settled in
        let c3 = set_state c2 action.id retried in
        let g2 =
          set_state-Governed P c1 action.id settled (λ r. p)
            (set_state-Governed P c action.id running (λ r. p) g) in
        let g3 =
          enqueue-Governed P c3 action (set_state_knows c2 action.id retried)
            (set_state-Governed P c2 action.id retried (λ r. p) g2) in
        elim (Bool-cases (retries config reading action state)) [
          | inl may ↦ rw may g3
          | inr done ↦ rw done g2
        ]

    observed-granted : P action.id → P (observed config reading action).action_id
    unfolding observed start finish
    observed-granted p = p

    Executed-Sound :
        (s s' : WorkerState) (r : WorkerProcessingResult)
        → Known s.plane action.id
        → Sound s
        → Executed config reading action s s' r
        → Sound s'
    Executed-Sound s s' r known (g, o) e =
        let p = Known-runnable s.plane action.id g known e.permitted in
        let state = cleared (get_state s.plane action.id) reading.now in
        (
          subst (λ c. Governed P c) (sym e.plane_after) (final_plane-Governed state s.plane p g),
          subst (λ os. Observed os) (sym e.observed_once)
              (All-append (λ o. P o.action_id) s.observations (observed config reading action ∷ [])
                o (observed-granted p, tt)),
        )

    Waited-Sound :
        (s s' : WorkerState) (r : WorkerProcessingResult)
        → Known s.plane action.id
        → Sound s
        → Waited action s s' r
        → Sound s'
    Waited-Sound s s' r known (g, o) w =
        subst (λ x. Sound x) (sym w.after)
          (elim (Bool-cases (is_held (get_state s.plane action.id))) [
            | inl held ↦ rw held (enqueue-Governed P s.plane action known g, o)
            | inr dropped ↦ rw dropped (g, o)
          ])

    -- A claim from a queue of known actions, and what becomes of it, keep the invariant.
    claimed-Sound :
        (s s' : WorkerState) (q : List Action) (r : WorkerProcessingResult)
        → Known s.plane action.id × All (λ a. Known s.plane a.id) q
        → Sound s
        → Executed config reading action (claim s q) s' r ⊎ Waited action (claim s q) s' r
        → Sound s'
    unfolding get_state
    claimed-Sound s s' q r (known, k) (g, o) (inl e) =
        Executed-Sound (claim s q) s' r known (queue-Governed P s.plane q k g, o) e
    claimed-Sound s s' q r (known, k) (g, o) (inr w) =
        Waited-Sound (claim s q) s' r known (queue-Governed P s.plane q k g, o) w

  module _ (config : RuntimeConfig) (reading : Reading) (s : WorkerState) where
    pub process_next-Sound : Sound s → Sound (process_next config reading s).1
    process_next-Sound sound =
        let (r, s', run, cases) = process_next_cases config reading s in
        subst (λ x. Sound x.1) (sym run) (by_case r s' cases)
      where
        by_case :
            (r : WorkerProcessingResult) (s' : WorkerState)
            → (s.queue ≡ []) × (r.processed ≡ false) × (s' ≡ s)
              ⊎ ((action : Action) × (q : List Action) × (s.queue ≡ action ∷ q)
                  × (Executed config reading action (claim s q) s' r
                      ⊎ Waited action (claim s q) s' r))
            → Sound s'
        by_case r s' (inl (e, p, same)) = subst (λ x. Sound x) (sym same) sound
        by_case r s' (inr (action, q, e, cases)) =
            claimed-Sound config reading action s s' q r
              (subst (λ xs. All (λ a. Known s.plane a.id) xs) e sound.0.known) sound cases

    pub process_action-Sound : (i : Uuid) → Sound s → Sound (process_action config reading i s).1
    process_action-Sound i sound =
        let (r, s', run, cases) = process_action_cases config reading i s in
        subst (λ x. Sound x.1) (sym run) (by_case r s' cases)
      where
        by_case :
            (r : WorkerProcessingResult) (s' : WorkerState)
            → Targeted config reading i s s' r
            → Sound s'
        by_case r s' (inl (e, p, same)) = subst (λ x. Sound x) (sym same) sound
        by_case r s' (inr (inl (action, e, held, p, same))) = subst (λ x. Sound x) (sym same) sound
        by_case r s' (inr (inr (action, before, after, split, same, distinct, cases))) =
            claimed-Sound config reading action s s' (before ++ after) r
              (All-split (λ a. Known s.plane a.id) before after
                (subst (λ xs. All (λ a. Known s.plane a.id) xs) split sound.0.known))
              sound cases
