-- ===== src/Examples/Witnesses.antt =====
-- The theorems at concrete inputs, and runs of the example server.
use velox_server.Workers.Executor.{normalize_role, normalize_identifier}
use velox_server.Prelude.Text.{strip}
use velox_server.Prelude.Dict
use velox_server.Prelude.{
  ◌+◌, ◌*◌, ◌≤◌, ◌≡◌, refl, ◌≢◌, ◌⊎◌, inl, inr, arith, some, none, is_none, true, List, [], ◌∷◌,
  ◌++◌, All, length, ◌==◌, nat_eq, Option, map, ap, sym, String,
}
use velox_server.Prelude.Result.{Result, ok, err}
use velox_server.Lifecycle.Transitions.{
  transition_accepts, transition_result, IsTerminal-stuck, ◌⟶◌, here,
}
use velox_server.ControlPlane.{
  get_pending, get_state, ControlPlane, remove_pending, set_state, enqueue,
}
use velox_server.ControlPlane.Queue
use velox_server.ControlPlane.Queue.{remove_splits}
use velox_server.Permission.{evaluate, base_engine, approval_metadata}
use velox_server.Permission.Evaluation.{evaluate_gates, evaluation_of, evaluated_plane, Gated}
use velox_server.Approval.{no_hooks, not_pending, approve_pending_action, reject_pending_action}
use velox_server.Approval.Decisions.{
  approve_atomic, ApproveOutcome, reject_atomic, RejectOutcome, decide_once,
}
use velox_server.Workers.Registry.Atomic.{
  Admissible, entries, register_manifest_atomic, register_manifest_complete,
}
use velox_server.Workers.Resolve.{
  capability_for_action, request_of, provider_for_action, account_context_for_action,
  resolve_capability_route, matches, resolve,
}
use velox_server.Workers.Resolve.Unique.{Routed, resolve_unique}
use velox_server.Workers.Runtime.Safety.{Next, Targeted, process_next_cases, process_action_cases}
use velox_server.Workers.Runtime.Retries.{invoke_bounded}
use velox_server.Workers.Runtime.{
  WorkerState, WorkerProcessingResult, process_next, process_action, execute_approved,
  processed_result, failure_for_result,
}
use velox_server.Workers.Invocation.{WorkerInvocationResult, invoke}
use velox_server.Workers.Runtime.Outcome.{
  execution, observed, final_state, final_plane, execute_approved_lem,
}
use velox_server.Lifecycle.{
  queued, approved, rejected, completed, no_metadata, transition, ActionLifecycleState, merge,
  valid_transition, takes_reason,
}
use velox_server.Workers.Registry.{
  check_capabilities, check_capability, is_registered, validate, register_manifest, RegistryError,
}
use velox_server.Actions.{Action}
use velox_server.Governance.{Server, Call, resume, step, run, started, Granted}
use velox_server.Governance.Resuming.{ClaimsOwnId}
use velox_server.Runs.{RunState, RunError, run_missing, ActionClaim}
use velox_server.Runs.Memory
use velox_server.Runs.Memory.{Runs}
use velox_server.Examples.Engineering.{approved_runs}
use velox_server.Governance.Trace.{RecoversOwnId, executions_granted}
use velox_server.Examples.{
  mail, deploy, same_case, gmail, no_routes, route_of_mail, reader, unreachable, config_with,
  server, frozen, reading, history, state_in, plane, workers,
}

no_hooks-RecoversOwnId : RecoversOwnId (λ now. no_hooks)
no_hooks-RecoversOwnId now i a e = cc

frozen-ClaimsOwnId : (m : Runs) → ClaimsOwnId (λ now. frozen m)
unfolding Memory.claim_approved
frozen-ClaimsOwnId m now i claim_id store store' c e = by_run (Dict.get m i) refl
  where
    answer : (Memory.claim_approved i claim_id now m).0 ≡ ok c
    answer = ap (λ x. x.0) e

    by_run : (o : Option RunState) → Dict.get m i ≡ o → c.action_id ≡ i
    by_run none p =
        let missing : Memory.claim_approved i claim_id now m ≡ (err run_missing, m) =
          rw (p, Memory.claim_approved) refl in
        let failed = ap (λ x. x.0) missing in cc
    by_run (some s) p = by_claim (Memory.claiming claim_id now s) refl
      where
        by_claim :
            (r : Result RunError (String × RunState))
            → Memory.claiming claim_id now s ≡ r
            → c.action_id ≡ i
        by_claim (err x) q =
            let refused : Memory.claim_approved i claim_id now m ≡ (err x, m) =
              rw (p, Memory.claim_approved) (rw q refl) in
            let failed = ap (λ x. x.0) refused in cc
        by_claim (ok (objective, after)) q =
            let claim : ActionClaim = record {
              action_id = i;
              claim_id = claim_id;
              target = s.target;
              objective = objective;
              claimed_at = now;
            } in
            let given : Memory.claim_approved i claim_id now m ≡ (ok claim, Dict.put m i after) =
              rw (p, Memory.claim_approved) (rw q refl) in
            let answered = ap (λ x. x.0) given in
            let same : claim ≡ c = cc in ap (λ (x : ActionClaim). x.action_id) (sym same)

-- A server whose run repository holds an approved run.
abbrev resuming : Server
resuming = record server { repository = λ now. frozen approved_runs }

abbrev resuming_history : List Call
resuming_history = resume 4 9 240 reading ∷ history

executions_granted_example :
    All
      (λ o. Granted (run resuming resuming_history started).granted o.action_id)
      (run resuming resuming_history started).observations
executions_granted_example =
    executions_granted resuming resuming_history no_hooks-RecoversOwnId
      (frozen-ClaimsOwnId approved_runs)

-- The continuation executes the approved action.
resumed_id :
    map (λ o. o.action_id) (step resuming (resume 4 9 240 reading) started).observations ≡ 4 ∷ []
unfolding step velox_server.Engineering.Continuation.execute get_state Dict.get Queue.find
    velox_server.Engineering.Recovery.claim Memory.claim_approved Memory.claiming
    velox_server.Runs.is_approved velox_server.Runs.normalize_required_objective
    velox_server.Prelude.Text.is_blank process_action set_state enqueue Queue.enqueue Dict.put
    velox_server.Lifecycle.new_state Queue.remove
    velox_server.Workers.Runtime.process_dequeued_action execute_approved transition
    velox_server.Workers.Runtime.settle velox_server.Workers.Resolve.execute resolve normalize_role
    capability_for_action request_of normalize_identifier provider_for_action
    account_context_for_action resolve_capability_route Dict.values matches
    velox_server.Workers.Executor.no_op_executor velox_server.Workers.Observation.start
    velox_server.Workers.Observation.finish strip velox_server.Workers.Runtime.maybe_retry
    velox_server.Workers.Runtime.is_transient
resumed_id = refl

process_next_cases_example :
    (r : WorkerProcessingResult) × (s' : WorkerState) × (process_next
        (config_with reader)
        reading
        workers
      ≡ (ok r, s'))
    × Next (config_with reader) reading workers s' r
process_next_cases_example = process_next_cases (config_with reader) reading workers

process_action_cases_example :
    (r : WorkerProcessingResult) × (s' : WorkerState) × (process_action
        (config_with reader)
        reading
        7
        workers
      ≡ (ok r, s'))
    × Targeted (config_with reader) reading 7 workers s' r
process_action_cases_example = process_action_cases (config_with reader) reading 7 workers

invoke_bounded_example :
    (r : WorkerInvocationResult) × (s' : WorkerState) × (invoke
        (config_with unreachable)
        (λ n. reading)
        10
        workers
      ≡ (ok r, s'))
    × (r.processed_count ≤ (1 + 1) * 1)
    × (r.queue_empty ≡ (length s'.queue == 0))
invoke_bounded_example =
    invoke_bounded (config_with unreachable) (λ n. reading) 10 workers (omega arith)

approve_atomic_example : ApproveOutcome no_hooks 8 250 plane
approve_atomic_example = approve_atomic no_hooks 8 250 plane

reject_atomic_example : RejectOutcome no_hooks 8 "not now" 250 plane
reject_atomic_example = reject_atomic no_hooks 8 "not now" 250 plane

abbrev approved_state : ActionLifecycleState
approved_state = record (state_in approved approval_metadata) { updated_at = 250 }

abbrev approved_plane : ControlPlane
approved_plane = enqueue (remove_pending (set_state plane 8 approved_state) 8) deploy

deploy_approved : approve_pending_action no_hooks 8 250 plane ≡ (ok approved_state, approved_plane)
unfolding approve_pending_action get_pending Dict.get get_state transition
deploy_approved = refl

decide_once_example :
    (approve_pending_action no_hooks 8 300 approved_plane ≡ (err not_pending, approved_plane))
    × (reject_pending_action no_hooks 8 "too late" 300 approved_plane
        ≡ (err not_pending, approved_plane))
decide_once_example =
    decide_once no_hooks 8 250 300 "no" "too late" plane approved_plane approved_state refl
      (inl deploy_approved)

evaluate_gates_example :
    (evaluate base_engine (deploy ∷ []) 150 plane ≡ (
      ok (evaluation_of base_engine 150 deploy ∷ []),
      evaluated_plane base_engine 150 deploy plane,
    ))
    × Gated base_engine 150 deploy plane (evaluated_plane base_engine 150 deploy plane)
evaluate_gates_example = evaluate_gates base_engine 150 deploy plane

register_manifest_atomic_example :
    (register_manifest same_case no_routes gmail
      ≡ (ok tt, record no_routes { registrations = entries gmail }))
    ⊎ ((e : RegistryError) × (register_manifest same_case no_routes gmail ≡ (err e, no_routes)))
register_manifest_atomic_example = register_manifest_atomic same_case no_routes gmail

gmail-Admissible : Admissible same_case no_routes gmail
unfolding validate check_capabilities check_capability normalize_identifier strip is_registered
    Dict.get
gmail-Admissible = record { valid = refl; named = refl; untaken = refl }

register_manifest_complete_example :
    register_manifest same_case no_routes gmail
    ≡ (ok tt, record no_routes { registrations = entries gmail })
register_manifest_complete_example =
    register_manifest_complete same_case no_routes gmail gmail-Admissible

mail_registered : (resolve same_case (route_of_mail reader) mail).registered ≡ true
unfolding resolve normalize_role strip capability_for_action Dict.get request_of provider_for_action
    account_context_for_action normalize_identifier resolve_capability_route Dict.values matches
mail_registered = refl

resolve_unique_example :
    Routed same_case (route_of_mail reader) mail (resolve same_case (route_of_mail reader) mail)
resolve_unique_example = resolve_unique same_case (route_of_mail reader) mail mail_registered

approve_held :
    transition (state_in queued approval_metadata) approved none no_metadata 250 ≡ ok approved_state
unfolding transition
approve_held = refl

found_deploy : Queue.find (mail ∷ deploy ∷ []) 8 ≡ some deploy
unfolding Queue.find
found_deploy = refl

transition_accepts_example :
    (u : ActionLifecycleState) × (transition
        (state_in queued approval_metadata)
        rejected
        (some "no")
        no_metadata
        250
      ≡ ok u)
transition_accepts_example =
    transition_accepts (state_in queued approval_metadata) rejected (some "no") no_metadata 250
      ◌⟶◌.reject (inr (inr (inl refl)))

transition_result_example :
    (queued ⟶ approved)
    × (approved_state.status ≡ approved)
    × (approved_state.created_at ≡ (state_in queued approval_metadata).created_at)
    × (approved_state.updated_at ≡ 250)
    × (approved_state.metadata ≡ merge approval_metadata no_metadata)
    × ((is_none approved_state.reason ≡ true) ⊎ (takes_reason approved ≡ true))
transition_result_example =
    transition_result (state_in queued approval_metadata) approved none no_metadata 250
      {u = approved_state} approve_held

IsTerminal-stuck_example : completed ≡ completed
IsTerminal-stuck_example = IsTerminal-stuck {s = completed} {t = completed} here (inl refl)

remove_splits_example :
    (before after : List Action) × (mail ∷ deploy ∷ [] ≡ before ++ deploy ∷ after)
    × (Queue.remove (mail ∷ deploy ∷ []) 8 ≡ (some deploy, before ++ after))
    × All (λ b. b.id ≢ 8) before
    × (deploy.id ≡ 8)
remove_splits_example = remove_splits (mail ∷ deploy ∷ []) 8 {a = deploy} found_deploy

execute_approved_lem_example :
    execute_approved (config_with unreachable) reading mail (state_in approved no_metadata) workers
    ≡ (
      ok (
          processed_result
            (execution (config_with unreachable) reading mail)
            (final_state (config_with unreachable) reading mail (state_in approved no_metadata))
            (observed (config_with unreachable) reading mail)
            (failure_for_result (execution (config_with unreachable) reading mail))),
      record workers {
        plane =
            final_plane
              (config_with unreachable)
              reading
              mail
              (state_in approved no_metadata)
              plane;
        observations = [] ++ observed (config_with unreachable) reading mail ∷ [];
      },
    )
execute_approved_lem_example =
    execute_approved_lem (config_with unreachable) reading mail (state_in approved no_metadata)
      workers refl
