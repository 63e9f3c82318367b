-- ===== src/Engineering/Observer/Steps.antt =====
-- What one start and one finish leave in the in-memory repository.
use velox_server.Prelude.{
  String, Bool, true, false, Option, none, some, is_none, string_eq, option_eq, nat_eq, ◌≡◌, refl,
  ◌∙◌,
}
use velox_server.Prelude.Result.{ok}
use velox_server.Prelude.Dict
use velox_server.Prelude.Dict.{Dict}
use velox_server.Actions.{Uuid, Instant, Action, role_value, software_engineering}
use velox_server.Workers.Executor.{WorkerExecutionStatus}
use velox_server.Workers.Resolve.{WorkerExecutorResolution}
use velox_server.Workers.Observation
use velox_server.Workers.Observation.{WorkerExecutionObservation, execution_status_value}
use velox_server.Runs.{
  RunState, prefer, require_same_identity, require_compatible_objective, normalize_objective,
}
use velox_server.Runs.Memory
use velox_server.Runs.Memory.{Runs, revise_ok, register_known}
use velox_server.Engineering.{memory_repository, implement_capability}
use velox_server.Engineering.Observer.{
  is_canonical_route, start_registration, reported, mark_started, record_finished, start,
}

-- No objective conflicts with none.
no_conflict :
    (o : Option String) (s : RunState)
    → s.pending_objective ≡ o
    → require_compatible_objective s none ≡ ok tt
unfolding require_compatible_objective
no_conflict none s p = rw p refl
no_conflict (some v) s p = rw p refl

no_objective : normalize_objective none ≡ ok none
unfolding normalize_objective
no_objective = refl

-- The first of two starts.
abbrev pub first_start : Option Instant → Instant → Instant
first_start none now = now
first_start (some t) now = t

module _ (action : Action) where
  -- The run is that of the action.
  pub record Own (s : RunState) : Type 0 where
    pub target : s.target ≡ action.target
    pub executor_role : s.executor_role ≡ role_value software_engineering
    pub capability : s.capability ≡ implement_capability

  registered : Instant → RunState → RunState
  registered now s = record s {
    delegation_status = prefer none s.delegation_status;
    pending_objective = prefer s.pending_objective none;
    approval_status = prefer none s.approval_status;
    updated_at = some now;
  }

  Own-registered : (now : Instant) (s : RunState) → Own s → Own (registered now s)
  unfolding registered
  Own-registered now s own = record {
    target = own.target;
    executor_role = own.executor_role;
    capability = own.capability;
  }

  Own-require_same_identity :
      (s : RunState)
      → Own s
      → require_same_identity s action.target (role_value software_engineering) implement_capability
        ≡ ok tt
  unfolding require_same_identity
  Own-require_same_identity s own = rw ((string_eq.eqb_iff s.target action.target).1 own.target) (
      rw ((string_eq.eqb_iff s.executor_role (role_value software_engineering)).1 own.executor_role)
        (rw ((string_eq.eqb_iff s.capability implement_capability).1 own.capability) refl))

  reregistered-registered :
      (now : Instant) (s : RunState)
      → Own s
      → Memory.reregistered (start_registration action) none now s ≡ ok (registered now s)
  unfolding Memory.reregistered start_registration registered
  reregistered-registered now s own =
      rw (Own-require_same_identity s own) (rw (no_conflict s.pending_objective s refl) refl)

  -- What a run `s` keeps in the store `m`: its identity and its claim.
  pub record Continues (s : RunState) (started_at : Option Instant) (m : Runs) : Type 0 where
    pub run : RunState
    pub known : Dict.get m action.id ≡ some run
    pub own : Own run
    pub claim : run.claim_id ≡ s.claim_id
    pub started : run.execution_started_at ≡ started_at

  record_started :
      (started_at now : Instant) (m : Runs) (s : RunState)
      → Dict.get m action.id ≡ some s
      → is_none s.claim_id ≡ false
      → s.execution_status ≡ none
      → Memory.record_execution_started action.id started_at now m ≡ (
        ok (record s { execution_started_at = some started_at; updated_at = some now }),
        Dict.put m action.id
            (record s { execution_started_at = some started_at; updated_at = some now }),
      )
  unfolding Memory.record_execution_started Memory.starting
  record_started started_at now m s p claimed unfinished =
      revise_ok (Memory.starting started_at now) action.id m s _ p (rw claimed (rw unfinished refl))

  mark_started_lem :
      (o : WorkerExecutionObservation) (now : Instant) (m : Runs) (s : RunState)
      (t : Option Instant)
      → Dict.get m action.id ≡ some s
      → Own s
      → is_none s.claim_id ≡ false
      → s.execution_started_at ≡ t
      → (t ≡ none → s.execution_status ≡ none)
      → (m' : Runs) × (mark_started memory_repository o action.id now (ok s, m) ≡ (ok o, m'))
        × Continues s (some (first_start t o.started_at)) m'
  unfolding mark_started reported
  mark_started_lem o now m s (some t) p own claimed started fresh = (
    m,
    rw claimed (rw started refl),
    record { run = s; known = p; own = own; claim = refl; started = started },
  )
  mark_started_lem o now m s none p own claimed started fresh =
      let s' = record s { execution_started_at = some o.started_at; updated_at = some now } in
      let marked : Memory.record_execution_started action.id o.started_at now m
          ≡ (ok s', Dict.put m action.id s') =
        record_started o.started_at now m s p claimed (fresh refl) in
      (
        Dict.put m action.id s',
        rw claimed (rw started (rw marked refl)),
        record {
          run = s';
          known = Dict.get-put_self m action.id s';
          own = record {
            target = own.target;
            executor_role = own.executor_role;
            capability = own.capability;
          };
          claim = refl;
          started = refl;
        },
      )

  -- What a finish leaves in the store.
  pub record Ended (s : RunState) (started_at : Instant) (outcome : String) (end : Instant)
      (m : Runs) : Type 0 where
    pub continues : Continues s (some started_at) m
    pub status : continues.run.execution_status ≡ some outcome
    pub finished : continues.run.execution_finished_at ≡ some end

  -- An end of a run with the same claim is one of the run.
  pub Ended-same_claim :
      (s s' : RunState) (t : Instant) (outcome : String) (end : Instant) (m : Runs)
      → s'.claim_id ≡ s.claim_id
      → Ended s' t outcome end m
      → Ended s t outcome end m
  Ended-same_claim s s' t outcome end m q ended = record {
    continues = record {
      run = ended.continues.run;
      known = ended.continues.known;
      own = ended.continues.own;
      claim = ended.continues.claim ∙ q;
      started = ended.continues.started;
    };
    status = ended.status;
    finished = ended.finished;
  }

  pub record_finished_lem :
      (o : WorkerExecutionObservation) (status : WorkerExecutionStatus) (external : Bool)
      (now finished_at : Instant) (m : Runs) (s : RunState) (t : Instant)
      → o.action_id ≡ action.id
      → Dict.get m action.id ≡ some s
      → Own s
      → s.execution_started_at ≡ some t
      → (m' : Runs) × (record_finished memory_repository o status external now (some finished_at) m
          ≡ (ok o, m'))
        × Ended s t (execution_status_value status) finished_at m'
  unfolding record_finished reported Memory.record_execution
  record_finished_lem o status external now finished_at m s t i p own started =
      let s' = Memory.executed (execution_status_value status) finished_at external now s in
      (
        Dict.put m action.id s',
        rw i (
            rw
              (revise_ok
                (λ s.
                  ok (Memory.executed (execution_status_value status) finished_at external now s))
                action.id m s s' p refl)
              refl),
        record {
          continues = record {
            run = s';
            known = Dict.get-put_self m action.id s';
            own = record {
              target = own.target;
              executor_role = own.executor_role;
              capability = own.capability;
            };
            claim = refl;
            started = started;
          };
          status = refl;
          finished = refl;
        },
      )

  module _ (resolution : WorkerExecutorResolution)
      (canonical : is_canonical_route resolution.requested_role resolution.requested_capability
        ≡ true) where
    pub start_lem :
        (execution_id : Uuid) (now : Instant) (m : Runs) (s : RunState) (t : Option Instant)
        → Dict.get m action.id ≡ some s
        → Own s
        → is_none s.claim_id ≡ false
        → s.execution_started_at ≡ t
        → (t ≡ none → s.execution_status ≡ none)
        → (m' : Runs) × (start memory_repository action resolution execution_id now m
            ≡ (ok (Observation.start action resolution execution_id now), m'))
          × Continues s (some (first_start t now)) m'
    unfolding start start_registration Observation.start registered
    start_lem execution_id now m s t p own claimed started fresh =
        let s1 = registered now s in
        let m1 = Dict.put m action.id s1 in
        let known : Memory.register_action (start_registration action) now m ≡ (ok s1, m1) =
          register_known (start_registration action) none now m s s1 no_objective p
            (reregistered-registered now s own) in
        let (m', e, c) =
          mark_started_lem (Observation.start action resolution execution_id now) now m1 s1 t
            (Dict.get-put_self m action.id s1) (Own-registered now s own) claimed started fresh in
        (
          m',
          rw canonical (rw known e),
          record {
            run = c.run;
            known = c.known;
            own = c.own;
            claim = c.claim;
            started = c.started;
          },
        )
