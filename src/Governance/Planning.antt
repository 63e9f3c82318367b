-- ===== src/Governance/Planning.antt =====
-- Planning keeps the invariant: what the permission engine does not allow stays out of the queue.
use velox_server.Prelude.{
  true, some, List, [], ◌∷◌, ◌++◌, ◌≡◌, refl, arith, All, All-map, Bool-cases, inl, inr, subst, ◌∙◌,
  map, nat_eq, ==_iff,
}
use velox_server.Actions.{Uuid, Instant, Action}
use velox_server.Lifecycle.{PermissionStatus, allowed, requires_approval, denied, awaits_approval}
use velox_server.ControlPlane.{ControlPlane, get_state, set_state, add_pending}
use velox_server.Permission.{
  EngineOutcome, queueable_actions, is_allowed, apply_permission_metadata, hold,
}
use velox_server.Permission.Evaluation.{
  decision_for, evaluation_of, evaluated, evaluated_state, evaluated_plane, evaluated_planes,
}
use velox_server.Workers.Runtime.Gate.{may_run}
use velox_server.Governance.{Granted}
use velox_server.Governance.Invariant.{
  Known, Governed, set_state_knows, set_state-Known, set_state-Governed, add_pending-Governed,
}

pub Granted-weaken : (new ids : List Uuid) (i : Uuid) → Granted ids i → Granted (new ++ ids) i
Granted-weaken [] ids i g = g
Granted-weaken (j ∷ new) ids i g = let later = Granted-weaken new ids i g in ground arith

module _ (engine : Action → Instant → EngineOutcome) (now : Instant) where
  -- The ids of the queueable actions of a plan.
  abbrev pub queued_from : List Action → List Action
  queued_from actions = queueable_actions (map (evaluation_of engine now) actions)

  abbrev pub Allowed : Action → Type 0
  Allowed a = is_allowed (evaluation_of engine now a) ≡ true

  evaluated_runs :
      (status : PermissionStatus) (a : Action)
      → (decision_for engine now a).status ≡ status
      → may_run (some (evaluated_state (decision_for engine now a) now)) ≡ true
      → Allowed a
  unfolding evaluated_state is_allowed awaits_approval
  evaluated_runs allowed a h m = rw h refl
  evaluated_runs requires_approval a h m =
      let runs : may_run (some (evaluated requires_approval (decision_for engine now a).reason now))
          ≡ true =
        subst (λ st. may_run (some (evaluated st (decision_for engine now a).reason now)) ≡ true) h
          m in
      cc
  evaluated_runs denied a h m =
      let runs : may_run (some (evaluated denied (decision_for engine now a).reason now)) ≡ true =
        subst (λ st. may_run (some (evaluated st (decision_for engine now a).reason now)) ≡ true) h
          m in
      cc

  hold-Known :
      (status : PermissionStatus) (c : ControlPlane) (a : Action) (i : Uuid)
      → Known c i
      → Known (hold status c a) i
  unfolding hold get_state add_pending
  hold-Known allowed c a i k = k
  hold-Known requires_approval c a i k = k
  hold-Known denied c a i k = k

  hold_queue :
      (status : PermissionStatus) (c : ControlPlane) (a : Action)
      → (hold status c a).queue ≡ c.queue
  unfolding hold add_pending
  hold_queue allowed c a = refl
  hold_queue requires_approval c a = refl
  hold_queue denied c a = refl

  module _ (P : Uuid → Type 0) where
    hold-Governed :
        (status : PermissionStatus) (c : ControlPlane) (a : Action)
        → Governed P c
        → Governed P (hold status c a)
    unfolding hold
    hold-Governed allowed c a g = g
    hold-Governed requires_approval c a g = add_pending-Governed P c a g
    hold-Governed denied c a g = g

    pub evaluated_planes-Governed :
        (actions : List Action) (c : ControlPlane)
        → All (λ a. Allowed a → P a.id) actions
        → Governed P c
        → Governed P (evaluated_planes engine now actions c)
    evaluated_planes-Governed [] c h g = g
    evaluated_planes-Governed (a ∷ more) c (h, hs) g =
        evaluated_planes-Governed more (evaluated_plane engine now a c) hs (
          hold-Governed (decision_for engine now a).status
            (set_state c a.id (evaluated_state (decision_for engine now a) now))
            (apply_permission_metadata a (decision_for engine now a))
            (set_state-Governed P c a.id (evaluated_state (decision_for engine now a) now)
              (λ runs. h (evaluated_runs (decision_for engine now a).status a refl runs)) g))

  evaluated_plane-Known :
      (a : Action) (c : ControlPlane) (i : Uuid)
      → Known c i
      → Known (evaluated_plane engine now a c) i
  evaluated_plane-Known a c i k =
      hold-Known (decision_for engine now a).status
        (set_state c a.id (evaluated_state (decision_for engine now a) now))
        (apply_permission_metadata a (decision_for engine now a)) i
        (set_state-Known c a.id (evaluated_state (decision_for engine now a) now) i k)

  evaluated_planes-Known :
      (actions : List Action) (c : ControlPlane) (i : Uuid)
      → Known c i
      → Known (evaluated_planes engine now actions c) i
  evaluated_planes-Known [] c i k = k
  evaluated_planes-Known (a ∷ more) c i k =
      evaluated_planes-Known more (evaluated_plane engine now a c) i (evaluated_plane-Known a c i k)

  pub evaluated_plane_knows :
      (a : Action) (c : ControlPlane) → Known (evaluated_plane engine now a c) a.id
  evaluated_plane_knows a c =
      hold-Known (decision_for engine now a).status
        (set_state c a.id (evaluated_state (decision_for engine now a) now))
        (apply_permission_metadata a (decision_for engine now a)) a.id
        (set_state_knows c a.id (evaluated_state (decision_for engine now a) now))

  -- Every queueable action of a plan is known after the evaluation.
  pub queued_from-Known :
      (actions : List Action) (c : ControlPlane)
      → All (λ a. Known (evaluated_planes engine now actions c) a.id) (queued_from actions)
  unfolding queueable_actions apply_permission_metadata
  queued_from-Known [] c = tt
  queued_from-Known (a ∷ more) c =
      let rest = queued_from-Known more (evaluated_plane engine now a c) in
      elim (Bool-cases (is_allowed (evaluation_of engine now a))) [
        | inl passes ↦ rw passes (
          evaluated_planes-Known more (evaluated_plane engine now a c) a.id
              (evaluated_plane_knows a c),
          rest,
        )
        | inr stays ↦ rw stays rest
      ]

  abbrev granted_by : List Action → List Uuid → List Uuid
  granted_by actions ids = map (λ b. b.id) (queued_from actions) ++ ids

  Granted-later :
      (a : Action) (more : List Action) (ids : List Uuid) (i : Uuid)
      → Granted (granted_by more ids) i
      → Granted (granted_by (a ∷ more) ids) i
  unfolding queueable_actions apply_permission_metadata
  Granted-later a more ids i g = elim (Bool-cases (is_allowed (evaluation_of engine now a))) [
    | inl passes ↦ rw passes (Granted-weaken (a.id ∷ []) (granted_by more ids) i g)
    | inr stays ↦ rw stays g
  ]

  -- The id of an allowed action of a plan is among the ids that the plan grants.
  pub Allowed-Granted :
      (actions : List Action) (ids : List Uuid)
      → All (λ a. Allowed a → Granted (map (λ b. b.id) (queued_from actions) ++ ids) a.id) actions
  unfolding queueable_actions apply_permission_metadata
  Allowed-Granted [] ids = tt
  Allowed-Granted (a ∷ more) ids =
      let rest = Allowed-Granted more ids in
      (
        λ h. rw h (ground (arith, ==_iff a.id a.id)),
        All-map (λ b. Allowed b → Granted (granted_by more ids) b.id)
            (λ b. Allowed b → Granted (granted_by (a ∷ more) ids) b.id) more
            (λ b f h. Granted-later a more ids b.id (f h)) rest,
      )

  pub evaluated_planes_queue :
      (actions : List Action) (c : ControlPlane)
      → (evaluated_planes engine now actions c).queue ≡ c.queue
  evaluated_planes_queue [] c = refl
  evaluated_planes_queue (a ∷ more) c =
      evaluated_planes_queue more (evaluated_plane engine now a c)
      ∙ hold_queue (decision_for engine now a).status
          (set_state c a.id (evaluated_state (decision_for engine now a) now))
          (apply_permission_metadata a (decision_for engine now a))
      ∙ unfold set_state in refl
