-- ===== src/Governance/Resuming.antt =====
-- The continuation of a durably approved action keeps the invariant.
use velox_server.Prelude.{
  Option, none, some, [], ◌∷◌, ◌≡◌, refl, sym, ◌∙◌, ap, subst, All, All-append, All-map, inl, inr,
  nat_eq, ◌==◌, ==_iff, Bool-cases,
}
use velox_server.Prelude.Result.{Result, ok, err, continue}
use velox_server.Actions.{Uuid, Instant, Action}
use velox_server.Lifecycle.{TransitionError}
use velox_server.ControlPlane.{ControlPlane, get_pending}
use velox_server.Runs.{RunError, RunState, ActionClaim}
use velox_server.Workers.Runtime.{
  RuntimeConfig, Reading, WorkerState, WorkerProcessingResult, process_action,
}
use velox_server.Engineering.{RunRepository}
use velox_server.Engineering.Control.{Inspector}
use velox_server.Engineering.Recovery
use velox_server.Engineering.Recovery.{
  RecoveryError, claim_unavailable, not_claimed, reported, claimed_action, claim_found,
  recovered_action, require_canonical,
}
use velox_server.Engineering.Continuation
use velox_server.Engineering.Continuation.Ready.{Reached, Joined}
use velox_server.ControlPlane.Queue
use velox_server.Governance.{worker_runtime, from_worker}
use velox_server.Governance.Invariant.{Known, Governed}
use velox_server.Governance.Working.{Sound, process_action-Sound}

-- A claim is one of the action that it was asked for.
abbrev pub ClaimsOwnId : {S : Type 0} → (Instant → RunRepository S) → Type 0
ClaimsOwnId {S} repository =
    (now : Instant) (i claim_id : Uuid) (store store' : S) (c : ActionClaim)
    → (repository now).claim_approved i claim_id now store ≡ (ok c, store')
    → c.action_id ≡ i

module _ {S : Type 0} (repository : RunRepository S) (i claim_id : Uuid) (now : Instant)
    (own : (store store' : S) (c : ActionClaim)
      → repository.claim_approved i claim_id now store ≡ (ok c, store')
      → c.action_id ≡ i) where
  answer_id :
      (store store' : S) (a : Action) (r : Result RunError ActionClaim × S)
      → repository.claim_approved i claim_id now store ≡ r
      → continue (reported not_claimed r) (λ c store. (ok (claimed_action repository now c), store))
        ≡ (ok a, store')
      → a.id ≡ i
  unfolding reported claimed_action recovered_action
  answer_id store store' a (err e, after) p h = let failed = ap (λ x. x.0) h in cc
  answer_id store store' a (ok c, after) p h =
      let answered = ap (λ x. x.0) h in
      let same : claimed_action repository now c ≡ a = cc in
      ap (λ (x : Action). x.id) (sym same) ∙ own store after c p

  found_id :
      (found : Option RunState) (store store' : S) (a : Action)
      → claim_found repository i claim_id now found store ≡ (ok a, store')
      → a.id ≡ i
  unfolding claim_found
  found_id none store store' a h = let failed = ap (λ x. x.0) h in cc
  found_id (some s) store store' a h = by_route (require_canonical s) h
    where
      by_route :
          (q : Result RecoveryError (Unit {0}))
          → continue
              (q, store)
              (λ _ store.
                continue
                  (reported not_claimed (repository.claim_approved i claim_id now store))
                  λ c store. (ok (claimed_action repository now c), store))
            ≡ (ok a, store')
          → a.id ≡ i
      by_route (err e) h = let failed = ap (λ x. x.0) h in cc
      by_route (ok u) h =
          answer_id store store' a (repository.claim_approved i claim_id now store) refl h

  pub claim_id_lem :
      (store store' : S) (a : Action)
      → Recovery.claim repository i claim_id now store ≡ (ok a, store')
      → a.id ≡ i
  unfolding Recovery.claim reported
  claim_id_lem store store' a h = by_get (repository.get i store) h
    where
      by_get :
          (found : Result RunError (Option RunState))
          → continue
              (reported claim_unavailable (found, store))
              (λ found store. claim_found repository i claim_id now found store)
            ≡ (ok a, store')
          → a.id ≡ i
      by_get (err e) h = let failed = ap (λ x. x.0) h in cc
      by_get (ok found) h = found_id found store store' a h

module _ (P : Uuid → Type 0) (i : Uuid) (a : Action) (c c' : ControlPlane) where
  Reached-Known : Reached i a c c' → (j : Uuid) → Known c j → Known c' j
  Reached-Known r j k = elim (Bool-cases (i == j)) [
    | inl same ↦
        let (state, known, e) = r.is_approved in
        subst (λ x. Known c' x) ((==_iff i j).0 same) (rw known refl)
    | inr apart ↦ rw (r.others j apart) k
  ]

  pub Reached-Governed : P i → a.id ≡ i → Reached i a c c' → Governed P c → Governed P c'
  Reached-Governed p own r g = record {
    runnable = λ j state e runs. elim (Bool-cases (i == j)) [
      | inl same ↦ subst P ((==_iff i j).0 same) p
      | inr apart ↦ g.runnable j state (sym (r.others j apart) ∙ e) runs
    ];
    known = queued r.joined;
    keyed = unfold get_pending in λ j b e. g.keyed j b (rw (sym r.same_pending) e);
  }
    where
      kept : All (λ b. Known c' b.id) c.queue
      kept =
          All-map (λ b. Known c b.id) (λ b. Known c' b.id) c.queue (λ b k. Reached-Known r b.id k)
            g.known

      claimed_known : Known c' a.id
      claimed_known =
          let (state, known, e) = r.is_approved in subst (λ x. Known c' x) (sym own) (rw known refl)

      queued : Joined (Queue.find c.queue i) a c.queue c'.queue → All (λ b. Known c' b.id) c'.queue
      queued (inl (e, q)) =
          subst (λ bs. All (λ b. Known c' b.id) bs) (sym q)
            (All-append (λ b. Known c' b.id) c.queue (a ∷ []) kept (claimed_known, tt))
      queued (inr (b, e, canonical, apart, q)) =
          subst (λ bs. All (λ b. Known c' b.id) bs) (sym q) kept

module _ (P : Uuid → Type 0) (config : RuntimeConfig) (reading : Reading)
    (reviewer : Option Inspector) (i : Uuid) where
  -- What the continuation makes of the runtime's outcome leaves the worker's state.
  finished_worker :
      (w : WorkerState)
      → (Continuation.finish reviewer i (worker_runtime config reading i (w, tt))).1.0
        ≡ (process_action config reading i w).1
  unfolding Continuation.finish worker_runtime from_worker
  finished_worker w = by_result (process_action config reading i w)
    where
      by_result :
          (r : Result TransitionError WorkerProcessingResult × WorkerState)
          → (Continuation.finish reviewer i (from_worker r)).1.0 ≡ r.1
      by_result (ok r, after) = refl
      by_result (err e, after) = refl

  pub finished-Sound :
      (w : WorkerState)
      → Sound P w
      → Sound P (Continuation.finish reviewer i (worker_runtime config reading i (w, tt))).1.0
  finished-Sound w sound =
      subst (λ x. Sound P x) (sym (finished_worker w))
        (process_action-Sound P config reading w i sound)
