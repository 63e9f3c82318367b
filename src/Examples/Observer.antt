-- ===== src/Examples/Observer.antt =====
-- The durable execution observer on a run with two attempts, and the theorem at this run.
use velox_server.Prelude.{true, some, none, [], ◌∷◌, ◌≡◌, refl, string_eq, option_eq, nat_eq}
use velox_server.Prelude.Result.{ok}
use velox_server.Prelude.Dict
use velox_server.Actions.{Action, flag, text_role, role_value}
use velox_server.Workers.Executor.{succeeded, failed, no_op_executor}
use velox_server.Workers.Observation.{execution_status_value}
use velox_server.Workers.Resolve.{WorkerExecutorResolution, capability_route}
use velox_server.Runs.{RunState}
use velox_server.Runs.Memory.{Runs}
use velox_server.Engineering.Observer.{is_canonical_route}
use velox_server.Engineering.Observer.Steps.{Ended}
use velox_server.Engineering.Observer.Attempts.{Attempt, observe_all, last_of, observe_all-Ended}
use velox_server.Examples.Durable.{started_run}

abbrev task : Action
task = record {
  id = 4;
  type = "delegate_task";
  target = "velox";
  payload = [];
  executor_role = text_role "software_engineering";
  created_at = 1;
  metadata = [];
}

abbrev route : WorkerExecutorResolution
route = record {
  executor = no_op_executor;
  requested_role = some "software_engineering";
  registered = true;
  requested_capability = some "code.implement";
  requested_provider = none;
  matched_provider = none;
  requested_account_context = none;
  matched_account_context = none;
  routing_reason = capability_route;
}

route_is_canonical : is_canonical_route route.requested_role route.requested_capability ≡ true
unfolding is_canonical_route
route_is_canonical = refl

-- A failed attempt and one that succeeds.
abbrev failing : Attempt
failing = record {
  execution_id = 21;
  started_at = 6;
  status = failed;
  metadata = [];
  reason = some "transient";
  failure = none;
  duration = 2;
  finished_at = 8;
}

abbrev succeeding : Attempt
succeeding = record {
  execution_id = 22;
  started_at = 9;
  status = succeeded;
  metadata = ("external_execution_performed", flag true) ∷ [];
  reason = none;
  failure = none;
  duration = 3;
  finished_at = 12;
}

abbrev claimed_run : RunState
claimed_run = record started_run { execution_started_at = none }

abbrev claimed_runs : Runs
claimed_runs = (4, claimed_run) ∷ []

observe_all-Ended_example :
    (m' : Runs) × (observe_all task route (failing ∷ succeeding ∷ []) claimed_runs ≡ (ok tt, m'))
    × Ended task claimed_run 6
        (execution_status_value (last_of failing (succeeding ∷ [])).status)
        (last_of failing (succeeding ∷ [])).finished_at
        m'
unfolding Dict.get role_value
observe_all-Ended_example =
    observe_all-Ended task route route_is_canonical failing (succeeding ∷ []) claimed_runs
      claimed_run refl (record { target = refl; executor_role = refl; capability = refl }) refl refl
      refl
