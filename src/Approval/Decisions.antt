-- ===== src/Approval/Decisions.antt =====
-- Approval decisions are atomic, and a decided action cannot be decided again.
use velox_server.Prelude.{
  String, none, some, ◌≡◌, refl, ◌⊎◌, inl, inr, arith, nat_eq, ◌∙◌, ==_iff, subst, sym, ap,
}
use velox_server.Prelude.Result.{Result, ok, err}
use velox_server.Prelude.Dict
use velox_server.Actions.{Uuid, Instant, Action}
use velox_server.Lifecycle.{
  queued, approved, rejected, ActionLifecycleState, no_metadata, TransitionError, transition,
}
use velox_server.ControlPlane.{ControlPlane, set_state, get_pending, remove_pending, enqueue}
use velox_server.Approval.{
  ApprovalError, not_pending, refused, ApprovalHooks, resolve_pending_action, held_state,
  approve_pending_action, reject_pending_action,
}

-- The effect of an approval: the action is approved, leaves the registry and joins the queue.
pub record Approved (hooks : ApprovalHooks) (i : Uuid) (now : Instant) (c c' : ControlPlane)
    (state : ActionLifecycleState) : Type 0 where
  pub action : Action
  pub awaited : resolve_pending_action hooks i c ≡ ok action
  pub recorded : hooks.record_approved action ≡ ok tt
  pub was_queued : (held_state c i now).status ≡ queued
  pub now_approved : state.status ≡ approved
  pub kept_metadata : state.metadata ≡ (held_state c i now).metadata
  pub plane_after : c' ≡ enqueue (remove_pending (set_state c i state) i) action

pub record Rejected (hooks : ApprovalHooks) (i : Uuid) (now : Instant) (c c' : ControlPlane)
    (state : ActionLifecycleState) : Type 0 where
  pub action : Action
  pub awaited : resolve_pending_action hooks i c ≡ ok action
  pub recorded : hooks.record_rejected action ≡ ok tt
  pub was_queued : (held_state c i now).status ≡ queued
  pub now_rejected : state.status ≡ rejected
  pub same_queue : c'.queue ≡ c.queue
  pub plane_after : c' ≡ remove_pending (set_state c i state) i

transition-approved :
    (s : ActionLifecycleState) (now : Instant) {u : ActionLifecycleState}
    → transition s approved none no_metadata now ≡ ok u
    → (s.status ≡ queued) × (u.status ≡ approved) × (u.metadata ≡ s.metadata)
unfolding transition
transition-approved s now h = ground arith

transition-rejected :
    (s : ActionLifecycleState) (reason : String) (now : Instant) {u : ActionLifecycleState}
    → transition s rejected (some reason) no_metadata now ≡ ok u
    → (s.status ≡ queued) × (u.status ≡ rejected)
unfolding transition
transition-rejected s reason now h = ground arith

module _ (hooks : ApprovalHooks) (i : Uuid) (now : Instant) (c : ControlPlane) where
  abbrev pub ApproveOutcome : Type 0
  ApproveOutcome =
      (r : Result ApprovalError ActionLifecycleState) × (c' : ControlPlane)
      × (approve_pending_action hooks i now c ≡ (r, c'))
      × (((e : ApprovalError) × (r ≡ err e) × (c' ≡ c))
          ⊎ ((state : ActionLifecycleState) × (r ≡ ok state) × Approved hooks i now c c' state))

  -- An approval either raises and leaves the control plane as it was, or moves the held action from
  -- the registry to the end of the queue and its lifecycle from QUEUED to APPROVED.
  pub approve_atomic : ApproveOutcome
  unfolding approve_pending_action
  approve_atomic = by_action (resolve_pending_action hooks i c) refl
    where
      by_record :
          (action : Action) (state : ActionLifecycleState)
          → resolve_pending_action hooks i c ≡ ok action
          → transition (held_state c i now) approved none no_metadata now ≡ ok state
          → (recorded : Result ApprovalError (Unit {0})) → hooks.record_approved action ≡ recorded
          → ApproveOutcome
      by_record action state p q (err e) w =
          (err e, c, rw p (rw q (rw w refl)), inl (e, refl, refl))
      by_record action state p q (ok u) w =
          let (was, is, kept) = transition-approved (held_state c i now) now q in
          (
            ok state,
            enqueue (remove_pending (set_state c i state) i) action,
            rw p (rw q (rw w refl)),
            inr (
              state,
              refl,
              record {
                action = action;
                awaited = p;
                recorded = w;
                was_queued = was;
                now_approved = is;
                kept_metadata = kept;
                plane_after = refl;
              },
            ),
          )

      by_state :
          (action : Action)
          → resolve_pending_action hooks i c ≡ ok action
          → (next : Result TransitionError ActionLifecycleState)
          → transition (held_state c i now) approved none no_metadata now ≡ next
          → ApproveOutcome
      by_state action p (err e) q =
          (err (refused e), c, rw p (rw q refl), inl (refused e, refl, refl))
      by_state action p (ok state) q =
          by_record action state p q (hooks.record_approved action) refl

      by_action :
          (found : Result ApprovalError Action)
          → resolve_pending_action hooks i c ≡ found
          → ApproveOutcome
      by_action (err e) p = (err e, c, rw p refl, inl (e, refl, refl))
      by_action (ok action) p =
          by_state action p (transition (held_state c i now) approved none no_metadata now) refl

module _ (hooks : ApprovalHooks) (i : Uuid) (reason : String) (now : Instant)
    (c : ControlPlane) where
  abbrev pub RejectOutcome : Type 0
  RejectOutcome =
      (r : Result ApprovalError ActionLifecycleState) × (c' : ControlPlane) × (reject_pending_action
          hooks i reason now c
        ≡ (r, c'))
      × (((e : ApprovalError) × (r ≡ err e) × (c' ≡ c))
          ⊎ ((state : ActionLifecycleState) × (r ≡ ok state) × Rejected hooks i now c c' state))

  -- A rejection either raises and leaves the control plane as it was. Or an action is held or
  -- recovered under the id, the recorder took its rejection, and its lifecycle moves from QUEUED to
  -- REJECTED; it is taken off the registry, and the queue stays as it was.
  pub reject_atomic : RejectOutcome
  unfolding reject_pending_action
  reject_atomic = by_action (resolve_pending_action hooks i c) refl
    where
      by_record :
          (action : Action) (state : ActionLifecycleState)
          → resolve_pending_action hooks i c ≡ ok action
          → transition (held_state c i now) rejected (some reason) no_metadata now ≡ ok state
          → (recorded : Result ApprovalError (Unit {0})) → hooks.record_rejected action ≡ recorded
          → RejectOutcome
      by_record action state p q (err e) w =
          (err e, c, rw p (rw q (rw w refl)), inl (e, refl, refl))
      by_record action state p q (ok u) w =
          let (was, is) = transition-rejected (held_state c i now) reason now q in
          (
            ok state,
            remove_pending (set_state c i state) i,
            rw p (rw q (rw w refl)),
            inr (
              state,
              refl,
              record {
                action = action;
                awaited = p;
                recorded = w;
                was_queued = was;
                now_rejected = is;
                same_queue = unfold remove_pending set_state in refl;
                plane_after = refl;
              },
            ),
          )

      by_state :
          (action : Action)
          → resolve_pending_action hooks i c ≡ ok action
          → (next : Result TransitionError ActionLifecycleState)
          → transition (held_state c i now) rejected (some reason) no_metadata now ≡ next
          → RejectOutcome
      by_state action p (err e) q =
          (err (refused e), c, rw p (rw q refl), inl (refused e, refl, refl))
      by_state action p (ok state) q =
          by_record action state p q (hooks.record_rejected action) refl

      by_action :
          (found : Result ApprovalError Action)
          → resolve_pending_action hooks i c ≡ found
          → RejectOutcome
      by_action (err e) p = (err e, c, rw p refl, inl (e, refl, refl))
      by_action (ok action) p =
          by_state action p (transition (held_state c i now) rejected (some reason) no_metadata now)
            refl

-- Nothing awaits approval under the id.
abbrev pub Decided : ControlPlane → Uuid → Type 0
Decided c i = get_pending c i ≡ none

removed-Decided : (c : ControlPlane) (i : Uuid) → Decided (remove_pending c i) i
unfolding get_pending remove_pending
removed-Decided c i = Dict.get-remove c.pending i i ∙ rw ((==_iff i i).1 refl) refl

module _ (hooks : ApprovalHooks) (i : Uuid) (now : Instant) (c : ControlPlane) where
  resolve_Decided :
      hooks.recover_pending i ≡ ok none
      → Decided c i
      → resolve_pending_action hooks i c ≡ err not_pending
  unfolding resolve_pending_action
  resolve_Decided unrecovered gone = rw (gone, resolve_pending_action) (rw unrecovered refl)

  -- Where nothing can be recovered, an id that was decided cannot be decided again: both calls
  -- raise and change nothing.
  Decided-is_final :
      hooks.recover_pending i ≡ ok none
      → Decided c i
      → (reason : String)
      → (approve_pending_action hooks i now c ≡ (err not_pending, c))
        × (reject_pending_action hooks i reason now c ≡ (err not_pending, c))
  unfolding approve_pending_action reject_pending_action
  Decided-is_final unrecovered gone reason =
      (rw (resolve_Decided unrecovered gone) refl, rw (resolve_Decided unrecovered gone) refl)

-- After a call that approved or rejected an id under which nothing can be recovered, the id can be
-- neither approved nor rejected: both calls raise and leave the control plane as it is.
pub decide_once :
    (hooks : ApprovalHooks) (i : Uuid) (now later : Instant) (why reason : String)
    (c c' : ControlPlane) (state : ActionLifecycleState)
    → hooks.recover_pending i ≡ ok none
    → (approve_pending_action hooks i now c ≡ (ok state, c'))
      ⊎ (reject_pending_action hooks i why now c ≡ (ok state, c'))
    → (approve_pending_action hooks i later c' ≡ (err not_pending, c'))
      × (reject_pending_action hooks i reason later c' ≡ (err not_pending, c'))
decide_once hooks i now later why reason c c' state unrecovered (inl call) =
    let (r, plane, run, cases) = approve_atomic hooks i now c in
    let answer : r ≡ ok state = ap (λ x. x.0) (sym run ∙ call) in
    let same : plane ≡ c' = ap (λ x. x.1) (sym run ∙ call) in
    elim cases [
      | inl (e, raised, kept) ↦ cc
      | inr (next, given, a) ↦
          Decided-is_final hooks i later c' unrecovered
            (subst (λ (x : ControlPlane). Decided x i) (sym a.plane_after ∙ same)
              (unfold enqueue get_pending in removed-Decided (set_state c i next) i))
            reason
    ]
decide_once hooks i now later why reason c c' state unrecovered (inr call) =
    let (r, plane, run, cases) = reject_atomic hooks i why now c in
    let answer : r ≡ ok state = ap (λ x. x.0) (sym run ∙ call) in
    let same : plane ≡ c' = ap (λ x. x.1) (sym run ∙ call) in
    elim cases [
      | inl (e, raised, kept) ↦ cc
      | inr (next, given, a) ↦
          Decided-is_final hooks i later c' unrecovered
            (subst (λ (x : ControlPlane). Decided x i) (sym a.plane_after ∙ same)
              (removed-Decided (set_state c i next) i))
            reason
    ]
