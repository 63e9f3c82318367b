-- ===== src/Engineering/Continuation/Claimed.antt =====
-- The worker runtime is reached only with a durable claim.
use velox_server.Prelude.{◌≡◌, refl, ◌⊎◌, inl, inr, Option}
use velox_server.Prelude.Result.{Result, ok, err}
use velox_server.Actions.{Uuid, Instant, Action}
use velox_server.ControlPlane.{ControlPlane}
use velox_server.Workers.Runtime.{WorkerState}
use velox_server.Engineering.{RunRepository}
use velox_server.Engineering.Recovery
use velox_server.Engineering.Recovery.{RecoveryError}
use velox_server.Engineering.Control.{Inspector}
use velox_server.Engineering.Continuation.{
  ContinuationError, Runtime, check, ready, claim_error, claimed, run_claimed, finish, execute,
}
use velox_server.Engineering.Continuation.Ready.{Reached, ready-Reached}

module _ {S : Type 0} (runtime : Runtime S) (repository : RunRepository S)
    (reviewer : Option Inspector) (i claim_id : Uuid) (now : Instant) (w : WorkerState)
    (store : S) where
  -- The runtime was called for a claimed action, and the call answers what is made of its outcome.
  abbrev pub ReachedRuntime : Type 0
  ReachedRuntime =
      (a : Action) × (store' : S) × (c : ControlPlane) × (Recovery.claim repository i claim_id now
          store
        ≡ (ok a, store'))
      × (check runtime repository reviewer i w ≡ ok tt)
      × Reached i a w.plane c
      × (execute runtime repository reviewer i claim_id now (w, store)
          ≡ finish reviewer i (runtime i (record w { plane = c }, store')))

  abbrev pub RefusedBefore : Type 0
  RefusedBefore =
      (e : ContinuationError) × (store' : S) × (execute runtime repository reviewer i claim_id now
          (w, store)
        ≡ (err e, (w, store')))

  -- Either the call raises before the runtime is reached, and the queue, the lifecycle states and
  -- the observations are what they were. Or the action has no lifecycle state, or a queued or an
  -- approved one; an action of its id that is in the queue is a canonical one with the claimed
  -- target and objective; and the repository gave the durable claim of the action. Then the outcome
  -- is that of the runtime on the store after the claim and on a control plane where the claimed
  -- action is in the queue and APPROVED, and which is otherwise what it was.
  pub execute_cases : RefusedBefore ⊎ ReachedRuntime
  unfolding execute run_claimed claimed
  execute_cases =
      by_check (check runtime repository reviewer i w) refl
        (Recovery.claim repository i claim_id now store) refl
    where
      by_ready :
          (a : Action) (store' : S) (r : Result ContinuationError ControlPlane)
          → check runtime repository reviewer i w ≡ ok tt
          → Recovery.claim repository i claim_id now store ≡ (ok a, store')
          → ready runtime repository reviewer i now a w ≡ r
          → RefusedBefore ⊎ ReachedRuntime
      by_ready a store' (err e) p q x = inl (e, store', rw p (rw q (rw x refl)))
      by_ready a store' (ok c) p q x = inr (
        a,
        store',
        c,
        q,
        p,
        ready-Reached runtime repository reviewer i now a w c p x,
        rw p (rw q (rw x refl)),
      )

      by_check :
          (k : Result ContinuationError (Unit {0}))
          → check runtime repository reviewer i w ≡ k
          → (r : Result RecoveryError Action × S)
          → Recovery.claim repository i claim_id now store ≡ r
          → RefusedBefore ⊎ ReachedRuntime
      by_check (err e) p r q = inl (e, store, rw p refl)
      by_check (ok tt) p (err e, store') q = inl (claim_error e, store', rw p (rw q refl))
      by_check (ok tt) p (ok a, store') q =
          by_ready a store' (ready runtime repository reviewer i now a w) p q refl
