-- ===== src/Engineering/Observer/Attempts.antt =====
-- The attempts of a claimed run: its first start and its last result are recorded.
use velox_server.Prelude.{
  ℕ, String, true, false, Option, none, some, is_none, string_eq, option_eq, nat_eq, List, [], ◌∷◌,
  ◌≡◌, refl,
}
use velox_server.Prelude.Result.{ok, Step, continue}
use velox_server.Prelude.Dict
use velox_server.Prelude.Dict.{Dict}
use velox_server.Actions.{Uuid, Instant, Value, Action}
use velox_server.Workers.Executor.{WorkerExecutionStatus, WorkerExecutionFailure}
use velox_server.Workers.Resolve.{WorkerExecutorResolution}
use velox_server.Workers.Observation
use velox_server.Workers.Observation.{WorkerExecutionObservation, execution_status_value}
use velox_server.Runs.{RunState}
use velox_server.Runs.Memory.{Runs}
use velox_server.Engineering.{memory_repository}
use velox_server.Engineering.Observer.{
  ObserverError, is_canonical_route, external_performed, start, finish,
}
use velox_server.Engineering.Observer.Steps.{
  Own, Ended, first_start, Ended-same_claim, start_lem, record_finished_lem,
}

-- One attempt to execute an action: what the runtime tells its observer.
pub record Attempt : Type 0 where
  pub execution_id : Uuid
  pub started_at : Instant
  pub status : WorkerExecutionStatus
  pub metadata : Dict String Value
  pub reason : Option String
  pub failure : Option WorkerExecutionFailure
  pub duration : ℕ
  pub finished_at : Instant

pub last_of : Attempt → List Attempt → Attempt
last_of a [] = a
last_of a (b ∷ rest) = last_of b rest

module _ (action : Action) (resolution : WorkerExecutorResolution) where
  -- A start and, with its observation, a finish.
  abbrev pub observe : Attempt → Step Runs ObserverError WorkerExecutionObservation
  observe a store =
      continue (start memory_repository action resolution a.execution_id a.started_at store)
        λ observation store.
          finish memory_repository observation a.status a.metadata a.reason a.failure a.duration
            a.finished_at store

  -- The attempts one after another, up to an error.
  pub observe_all : List Attempt → Step Runs ObserverError (Unit {0})
  observe_all [] store = (ok tt, store)
  observe_all (a ∷ rest) store = continue (observe a store) λ _ store. observe_all rest store

  module _
      (canonical : is_canonical_route resolution.requested_role resolution.requested_capability
        ≡ true) where
    -- An attempt on a run that may have been started by an earlier one.
    observe_lem :
        (a : Attempt) (m : Runs) (s : RunState) (t : Option Instant)
        → Dict.get m action.id ≡ some s
        → Own action s
        → is_none s.claim_id ≡ false
        → s.execution_started_at ≡ t
        → (t ≡ none → s.execution_status ≡ none)
        → (o : WorkerExecutionObservation) × (m' : Runs) × (observe a m ≡ (ok o, m'))
          × Ended action s
              (first_start t a.started_at)
              (execution_status_value a.status)
              a.finished_at
              m'
    unfolding finish Observation.start Observation.finish
    observe_lem a m s t p own claimed started fresh =
        let (m1, e1, c) =
          start_lem action resolution canonical a.execution_id a.started_at m s t p own claimed
            started fresh in
        let o =
          Observation.finish (Observation.start action resolution a.execution_id a.started_at)
            a.status a.metadata a.reason a.failure a.duration a.finished_at in
        let (m2, e2, ended) =
          record_finished_lem action o a.status (external_performed a.metadata) a.finished_at
            a.finished_at m1 c.run (first_start t a.started_at) refl c.known c.own c.started in
        (o, m2, rw e1 (rw canonical e2), Ended-same_claim action s c.run _ _ _ m2 c.claim ended)

    observe_all_lem :
        (a : Attempt) (rest : List Attempt) (m : Runs) (s : RunState) (t : Option Instant)
        → Dict.get m action.id ≡ some s
        → Own action s
        → is_none s.claim_id ≡ false
        → s.execution_started_at ≡ t
        → (t ≡ none → s.execution_status ≡ none)
        → (m' : Runs) × (observe_all (a ∷ rest) m ≡ (ok tt, m'))
          × Ended action s
              (first_start t a.started_at)
              (execution_status_value (last_of a rest).status)
              (last_of a rest).finished_at
              m'
    unfolding observe_all last_of
    observe_all_lem a [] m s t p own claimed started fresh =
        let (o, m1, e1, ended) = observe_lem a m s t p own claimed started fresh in
        (m1, rw e1 refl, ended)
    observe_all_lem a (b ∷ rest) m s t p own claimed started fresh =
        let (o, m1, e1, ended) = observe_lem a m s t p own claimed started fresh in
        let c = ended.continues in
        let (m2, e2, ended') =
          observe_all_lem b rest m1 c.run (some (first_start t a.started_at)) c.known c.own
            (rw c.claim claimed) c.started (λ e. cc) in
        (m2, rw e1 e2, Ended-same_claim action s c.run _ _ _ m2 c.claim ended')

    -- The attempts of a claimed run that has neither a start nor a result, over the in-memory
    -- repository, all succeed, and they leave the run with its identity and its claim, with the start
    -- of the first attempt, and with the status and the end of the last one.
    pub observe_all-Ended :
        (a : Attempt) (rest : List Attempt) (m : Runs) (s : RunState)
        → Dict.get m action.id ≡ some s
        → Own action s
        → is_none s.claim_id ≡ false
        → s.execution_started_at ≡ none
        → s.execution_status ≡ none
        → (m' : Runs) × (observe_all (a ∷ rest) m ≡ (ok tt, m'))
          × Ended action s a.started_at
              (execution_status_value (last_of a rest).status)
              (last_of a rest).finished_at
              m'
    observe_all-Ended a rest m s p own claimed unstarted unfinished =
        observe_all_lem a rest m s none p own claimed unstarted (λ _. unfinished)
