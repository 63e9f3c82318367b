-- ===== src/Governance/Trace.antt =====
-- Every history of calls of the server: what was executed had been granted.
use velox_server.Prelude.{
  String, Option, some, List, [], ◌∷◌, ◌++◌, ◌≡◌, refl, All, All-append, All-map, subst, sym, inl,
  inr, ◌⊎◌, arith, nat_eq, map, ==_iff,
}
use velox_server.Prelude.Result.{Result, ok, err}
use velox_server.Prelude.Dict
use velox_server.ControlPlane.Queue.{enqueue_many-eq-append}
use velox_server.Actions.{Uuid, Instant, Action}
use velox_server.ControlPlane.{ControlPlane, get_state, set_state, get_pending, remove_pending}
use velox_server.ControlPlane.Queue
use velox_server.Permission.{is_allowed, apply_permission_metadata}
use velox_server.Lifecycle.{ActionLifecycleState, PermissionStatus}
use velox_server.Delegation.{TaskDelegationRequest, TaskDelegationResult, action_for}
use velox_server.Delegation.Governed.{Delegated, Settled, delegate_cases}
use velox_server.Permission.Evaluation.{
  evaluation_of, evaluated_plane, decision_for, evaluate_lem, evaluated_planes,
}
use velox_server.Approval.{ApprovalError, ApprovalHooks, resolve_pending_action}
use velox_server.Approval.Decisions.{Approved, Rejected, approve_atomic, reject_atomic}
use velox_server.Governance.{
  Server, Call, plan, approve, reject, work, work_on, delegate_task, queued_ids, System, step, run,
  started, Granted, with_plane, approved_ids, resume, worker_runtime, resumed_ids,
}
use velox_server.Governance.Invariant.{
  Known, set_state_knows, set_state-Governed, queue-Governed, enqueue-Governed,
  remove_pending-Governed, Governed-weaken,
}
use velox_server.Governance.Planning.{
  evaluated_plane_knows, queued_from, queued_from-Known, Allowed-Granted, evaluated_planes-Governed,
  Granted-weaken,
}
use velox_server.Workers.Runtime.{Reading}
use velox_server.Engineering.Continuation.Claimed.{RefusedBefore, ReachedRuntime, execute_cases}
use velox_server.Governance.Resuming.{ClaimsOwnId, claim_id_lem, Reached-Governed, finished-Sound}
use velox_server.Governance.Working.{Sound, process_next-Sound, process_action-Sound}

-- A recovered action has the id it was recovered for.
abbrev pub RecoversOwnId : (Instant → ApprovalHooks) → Type 0
RecoversOwnId hooks =
    (now : Instant) (i : Uuid) (a : Action) → (hooks now).recover_pending i ≡ ok (some a) → a.id ≡ i

-- The invariant of the server, with the log of granted ids as the predicate.
abbrev pub SoundSystem : System → Type 0
SoundSystem s = Sound (Granted s.granted) s.worker

module _ (server : Server) (s : System) where
  weaken-Sound : (ids : List Uuid) → SoundSystem s → Sound (Granted (ids ++ s.granted)) s.worker
  weaken-Sound ids (g, o) = (
    Governed-weaken (Granted s.granted) s.plane (Granted (ids ++ s.granted))
        (Granted-weaken ids s.granted) g,
    All-map (λ o. Granted s.granted o.action_id) (λ o. Granted (ids ++ s.granted) o.action_id)
        s.observations (λ o. Granted-weaken ids s.granted o.action_id) o,
  )

  plan-Sound :
      (actions : List Action) (now : Instant)
      → SoundSystem s
      → SoundSystem (step server (plan actions now) s)
  unfolding step
  plan-Sound actions now sound =
      let c' = evaluated_planes server.engine now actions s.plane in
      let q = queued_from server.engine now actions in
      let ids = map (λ (a : Action). a.id) q in
      let (g, o) = weaken-Sound ids sound in
      let g' =
        evaluated_planes-Governed server.engine now (Granted (ids ++ s.granted)) actions s.plane
          (Allowed-Granted server.engine now actions s.granted) g in
      let known =
        subst (λ xs. All (λ a. Known c' a.id) xs) (sym (enqueue_many-eq-append c'.queue q))
          (All-append (λ a. Known c' a.id) c'.queue q g'.known
            (queued_from-Known server.engine now actions s.plane)) in
      rw (evaluate_lem server.engine now actions s.plane)
        (queue-Governed (Granted (ids ++ s.granted)) c' (Queue.enqueue_many c'.queue q) known g', o)

  delegated_by :
      (a : Action) (now : Instant) (status : PermissionStatus)
      → (decision_for server.engine now a).status ≡ status
      → (r : TaskDelegationResult) (c' : ControlPlane)
      → Settled status
          (evaluation_of server.engine now a).action
          (evaluated_plane server.engine now a s.plane)
          r
          c'
      → SoundSystem s
      → SoundSystem (with_plane s c' (queued_ids a.id r.status))
  unfolding with_plane queued_ids is_allowed apply_permission_metadata
  delegated_by a now status e r c' (inl (given, answer, after)) sound =
      let (g, o) = weaken-Sound (a.id ∷ []) sound in
      rw (answer, after)
        (
          enqueue-Governed (Granted (a.id ∷ s.granted))
              (evaluated_plane server.engine now a s.plane)
              (evaluation_of server.engine now a).action
              (evaluated_plane_knows server.engine now a s.plane)
              (evaluated_planes-Governed server.engine now (Granted (a.id ∷ s.granted)) (a ∷ [])
                s.plane ((λ h. ground (arith, ==_iff a.id a.id)), tt) g),
          o,
        )
  delegated_by a now status e r c' (inr (inl (given, answer, after))) (g, o) =
      rw (answer, after)
        (
          evaluated_planes-Governed server.engine now (Granted s.granted) (a ∷ []) s.plane
              ((λ h. ground (arith, e, given)), tt) g,
          o,
        )
  delegated_by a now status e r c' (inr (inr (given, answer, after))) (g, o) =
      rw (answer, after)
        (
          evaluated_planes-Governed server.engine now (Granted s.granted) (a ∷ []) s.plane
              ((λ h. ground (arith, e, given)), tt) g,
          o,
        )

  delegate-Sound :
      (q : TaskDelegationRequest) (i : Uuid) (now : Instant)
      → SoundSystem s
      → SoundSystem (step server (delegate_task q i now) s)
  unfolding step action_for
  delegate-Sound q i now sound =
      let (r, c', e, cases) =
        delegate_cases server.engine server.config.casefold server.config.registry q i now
          s.plane in
      rw e (by_case r c' cases)
    where
      by_case :
          (r : TaskDelegationResult) (c' : ControlPlane)
          → Delegated server.engine server.config.casefold server.config.registry q i now s.plane r
              c'
          → SoundSystem (with_plane s c' (queued_ids i r.status))
      by_case r c' (inl (unrouted, rejected, same)) = rw (rejected, same) sound
      by_case r c' (inr (routed, permission, settled)) =
          delegated_by (action_for q i now) now
            (decision_for server.engine now (action_for q i now)).status refl r c' settled sound

  resolved_id :
      RecoversOwnId server.hooks
      → (now : Instant) (i : Uuid) (action : Action) → SoundSystem s
      → resolve_pending_action (server.hooks now) i s.plane ≡ ok action
      → action.id ≡ i
  unfolding resolve_pending_action
  resolved_id own now i action (g, o) e =
      by_held (get_pending s.plane i) refl ((server.hooks now).recover_pending i) refl
    where
      by_held :
          (held : Option Action)
          → get_pending s.plane i ≡ held
          → (recovered : Result ApprovalError (Option Action))
          → (server.hooks now).recover_pending i ≡ recovered
          → action.id ≡ i
      by_held held p recovered r = ground (arith, g.keyed i action, own now i action)

  approve-Sound :
      RecoversOwnId server.hooks
      → (i : Uuid) (now : Instant) → SoundSystem s
      → SoundSystem (step server (approve i now) s)
  unfolding step
  approve-Sound own i now sound =
      let (r, c', e, cases) = approve_atomic (server.hooks now) i now s.plane in
      rw e (by_case r c' cases)
    where
      by_case :
          (r : Result ApprovalError ActionLifecycleState) (c' : ControlPlane)
          → ((e : ApprovalError) × (r ≡ err e) × (c' ≡ s.plane))
            ⊎ ((state : ActionLifecycleState) × (r ≡ ok state)
                × Approved (server.hooks now) i now s.plane c' state)
          → SoundSystem (with_plane s c' (approved_ids i r))
      by_case r c' (inl (e, failed, same)) = rw (failed, same) sound
      by_case r c' (inr (state, done, a)) =
          let P = Granted (i ∷ s.granted) in
          let (g, o) = weaken-Sound (i ∷ []) sound in
          let c1 = set_state s.plane i state in
          let mine = resolved_id own now i a.action sound a.awaited in
          let g' =
            remove_pending-Governed P c1 i
              (set_state-Governed P s.plane i state (λ runs. ground (arith, ==_iff i i)) g) in
          rw (done, a.plane_after)
            (
              enqueue-Governed P (remove_pending c1 i) a.action
                  (rw mine (unfold remove_pending get_state in set_state_knows s.plane i state)) g',
              o,
            )

  reject-Sound :
      (i : Uuid) (reason : String) (now : Instant)
      → SoundSystem s
      → SoundSystem (step server (reject i reason now) s)
  unfolding step
  reject-Sound i reason now sound =
      let (r, c', e, cases) = reject_atomic (server.hooks now) i reason now s.plane in
      rw e (by_case r c' cases)
    where
      by_case :
          (r : Result ApprovalError ActionLifecycleState) (c' : ControlPlane)
          → ((e : ApprovalError) × (r ≡ err e) × (c' ≡ s.plane))
            ⊎ ((state : ActionLifecycleState) × (r ≡ ok state)
                × Rejected (server.hooks now) i now s.plane c' state)
          → SoundSystem (with_plane s c' [])
      by_case r c' (inl (e, failed, same)) = rw same sound
      by_case r c' (inr (state, done, a)) = rw a.plane_after (
        remove_pending-Governed (Granted s.granted) (set_state s.plane i state) i (
            set_state-Governed (Granted s.granted) s.plane i state
              (λ runs. let refused = a.now_rejected in ground arith) sound.0),
        sound.1,
      )

  resume-Sound :
      ClaimsOwnId server.repository
      → (i claim_id : Uuid) (now : Instant) (reading : Reading) → SoundSystem s
      → SoundSystem (step server (resume i claim_id now reading) s)
  unfolding step resumed_ids
  resume-Sound own i claim_id now reading sound = by_case (
      execute_cases (worker_runtime server.config reading) (server.repository now) server.reviewer i
        claim_id now s.worker tt)
    where
      by_case :
          RefusedBefore
              (worker_runtime server.config reading)
              (server.repository now)
              server.reviewer
              i
              claim_id
              now
              s.worker
              tt
            ⊎ ReachedRuntime
                (worker_runtime server.config reading)
                (server.repository now)
                server.reviewer
                i
                claim_id
                now
                s.worker
                tt
          → SoundSystem (step server (resume i claim_id now reading) s)
      by_case (inl (e, u, ran)) = rw (ran, step) (weaken-Sound _ sound)
      by_case (inr (a, u, c, claim, checked, reached, ran)) =
          let P = Granted (i ∷ s.granted) in
          let (g, o) = weaken-Sound (i ∷ []) sound in
          let mine =
            claim_id_lem (server.repository now) i claim_id now (own now i claim_id) tt u a claim in
          rw (ran, checked, claim, step)
            (finished-Sound P server.config reading server.reviewer i
              (record s.worker { plane = c })
              (Reached-Governed P i a s.plane c (ground (arith, ==_iff i i)) mine reached g, o))

step-Sound :
    (server : Server) (call : Call) (s : System)
    → RecoversOwnId server.hooks
    → ClaimsOwnId server.repository
    → SoundSystem s
    → SoundSystem (step server call s)
unfolding step
step-Sound server (plan actions now) s own claims sound = plan-Sound server s actions now sound
step-Sound server (delegate_task q i now) s own claims sound = delegate-Sound server s q i now sound
step-Sound server (approve i now) s own claims sound = approve-Sound server s own i now sound
step-Sound server (reject i reason now) s own claims sound =
    reject-Sound server s i reason now sound
step-Sound server (work reading) s own claims sound =
    process_next-Sound (Granted s.granted) server.config reading s.worker sound
step-Sound server (work_on i reading) s own claims sound =
    process_action-Sound (Granted s.granted) server.config reading s.worker i sound
step-Sound server (resume i claim_id now reading) s own claims sound =
    resume-Sound server s claims i claim_id now reading sound

run-Sound :
    (server : Server) (calls : List Call) (s : System)
    → RecoversOwnId server.hooks
    → ClaimsOwnId server.repository
    → SoundSystem s
    → SoundSystem (run server calls s)
unfolding run
run-Sound server [] s own claims sound = sound
run-Sound server (call ∷ calls) s own claims sound =
    run-Sound server calls (step server call s) own claims
      (step-Sound server call s own claims sound)

started-Sound : SoundSystem started
unfolding get_state get_pending Dict.get
started-Sound = (record { runnable = λ i state e m. cc; known = tt; keyed = λ i a e. cc }, tt)

-- Whatever calls a freshly started server gets, in whatever order and at whatever times, the id of
-- every execution that its in-memory observer recorded is in the log of granted ids: the permission
-- engine allowed an action with it, an operator approved it, or a continuation that passed its
-- checks got a durable claim of it from the run repository. This holds for every engine, registry,
-- executor and run repository, if the recovery of pending actions, where there is one, gives an
-- action back under its own id, and a claim of the repository is one of the id it was asked for.
pub executions_granted :
    (server : Server) (calls : List Call)
    → RecoversOwnId server.hooks
    → ClaimsOwnId server.repository
    → All
        (λ o. Granted (run server calls started).granted o.action_id)
        (run server calls started).observations
executions_granted server calls own claims =
    (run-Sound server calls started own claims started-Sound).1
