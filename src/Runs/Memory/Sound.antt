-- ===== src/Runs/Memory/Sound.antt =====
-- What every run state of a repository satisfies, whatever the calls and their answers.
use velox_server.Prelude.{
  String, Option, none, some, nat_eq, option_eq, ◌≡◌, refl, arith, List, [], ◌∷◌,
}
use velox_server.Prelude.Result.{Result, ok, err}
use velox_server.Prelude.Dict
use velox_server.Actions.{Uuid, Instant}
use velox_server.Runs.{RunState, RunError, Registration, new_run, normalize_objective}
use velox_server.Runs.Memory
use velox_server.Runs.Memory.{Runs, revise, revise_ok, revise_err, revise-none}
use velox_server.Runs.Memory.Calls.{
  RunCall, find, register, approve, reject, claim, start, release, abandon, execute, dispose,
  promote, call_memory, calls_memory, answer-state, run_state, action_claim,
}
use velox_server.Runs.Memory.Changes.{
  AllSound, AllAdmissible, rejecting-Sound, Admissible, releasing-Sound, starting-Sound,
  revise-AllSound, new_run-Sound, Meets, unchanged, reregistered-Sound, Sound, abandoning-Sound,
  claiming-Sound, put-AllSound, approving-Sound,
}

module _ (m : Runs) (h : AllSound m) where
  register_action-AllSound :
      (r : Registration) (now : Instant)
      → Admissible (register r now) m
      → AllSound (Memory.register_action r now m).1
  unfolding Memory.register_action Admissible AllSound
  register_action-AllSound r now admissible = by_objective (normalize_objective r.objective) refl
    where
      by_run :
          (objective : Option String) (o : Option RunState)
          → normalize_objective r.objective ≡ ok objective
          → Dict.get m r.action_id ≡ o
          → AllSound (Memory.register_action r now m).1
      by_run objective none p q =
          rw (p, Memory.register_action)
            (rw q (
              put-AllSound m r.action_id (new_run r objective now) h
                (new_run-Sound r objective now)))
      by_run objective (some s) p q =
          rw (p, Memory.register_action)
            (rw q (
              revise-AllSound (Memory.reregistered r objective now) r.action_id m h
                λ s q sound. reregistered-Sound s sound r objective now (admissible s q)))

      by_objective :
          (o : Result RunError (Option String))
          → normalize_objective r.objective ≡ o
          → AllSound (Memory.register_action r now m).1
      by_objective (err e) p = rw (p, Memory.register_action) h
      by_objective (ok objective) p = by_run objective (Dict.get m r.action_id) p refl

  claim_approved-AllSound :
      (i claim_id : Uuid) (now : Instant) → AllSound (Memory.claim_approved i claim_id now m).1
  unfolding Memory.claim_approved AllSound
  claim_approved-AllSound i claim_id now = by_run (Dict.get m i) refl
    where
      by_claim :
          (s : RunState) (r : Result RunError (String × RunState))
          → Dict.get m i ≡ some s
          → Memory.claiming claim_id now s ≡ r
          → Meets (λ (x : String × RunState). Sound x.1) r
          → AllSound (Memory.claim_approved i claim_id now m).1
      by_claim s (err e) p q sound = rw (p, Memory.claim_approved) (rw q h)
      by_claim s (ok (objective, s')) p q sound =
          rw (p, Memory.claim_approved) (rw q (put-AllSound m i s' h sound))

      by_run :
          (o : Option RunState)
          → Dict.get m i ≡ o
          → AllSound (Memory.claim_approved i claim_id now m).1
      by_run none p = rw (p, Memory.claim_approved) h
      by_run (some s) p =
          by_claim s (Memory.claiming claim_id now s) p refl
            (claiming-Sound s (h i s p) claim_id now)

  -- Every call keeps all runs sound: a claimed run is approved, a started run is claimed, a claim
  -- has its time, and a claim that is given up had started. A registration must not pass an approval status for a claimed run.
  pub call_memory-AllSound : (c : RunCall) → Admissible c m → AllSound (call_memory c m).1
  unfolding call_memory Memory.record_approval Memory.record_rejection
      Memory.record_execution_started Memory.release_unstarted_claim Memory.abandon_started_claim
      Memory.record_execution Memory.record_disposition Memory.record_promotion Memory.executed
      Memory.disposed Memory.promoted
  call_memory-AllSound (find i) a = h
  call_memory-AllSound (register r now) a =
      rw (answer-state run_state (Memory.register_action r now m))
        (register_action-AllSound r now a)
  call_memory-AllSound (approve i objective at now) a =
      rw (answer-state run_state (revise (Memory.approving objective at now) i m)) (
        revise-AllSound (Memory.approving objective at now) i m h
          λ s p sound. approving-Sound s sound objective at now)
  call_memory-AllSound (reject i at now) a =
      rw (answer-state run_state (revise (Memory.rejecting at now) i m)) (
        revise-AllSound (Memory.rejecting at now) i m h λ s p sound. rejecting-Sound s sound at now)
  call_memory-AllSound (claim i claim_id now) a =
      rw (answer-state action_claim (Memory.claim_approved i claim_id now m))
        (claim_approved-AllSound i claim_id now)
  call_memory-AllSound (start i at now) a =
      rw (answer-state run_state (revise (Memory.starting at now) i m))
        (revise-AllSound (Memory.starting at now) i m h λ s p sound. starting-Sound s sound at now)
  call_memory-AllSound (release i expected at) a =
      rw (answer-state run_state (revise (Memory.releasing expected at) i m)) (
        revise-AllSound (Memory.releasing expected at) i m h
          λ s p sound. releasing-Sound s sound expected at)
  call_memory-AllSound (abandon i expected at) a =
      rw (answer-state run_state (revise (Memory.abandoning expected at) i m)) (
        revise-AllSound (Memory.abandoning expected at) i m h
          λ s p sound. abandoning-Sound s sound expected at)
  call_memory-AllSound (execute i status at external now) a =
      rw (answer-state run_state (revise (λ s. ok (Memory.executed status at external now s)) i m))
        (revise-AllSound (λ s. ok (Memory.executed status at external now s)) i m h
          λ s p sound.
            unchanged s (Memory.executed status at external now s) refl refl refl refl refl sound)
  call_memory-AllSound (dispose d now) a =
      rw (answer-state run_state (revise (λ s. ok (Memory.disposed d now s)) d.action_id m)) (
        revise-AllSound (λ s. ok (Memory.disposed d now s)) d.action_id m h
          λ s p sound. unchanged s (Memory.disposed d now s) refl refl refl refl refl sound)
  call_memory-AllSound (promote p now) a =
      rw (answer-state run_state (revise (λ s. ok (Memory.promoted p now s)) p.action_id m)) (
        revise-AllSound (λ s. ok (Memory.promoted p now s)) p.action_id m h
          λ s q sound. unchanged s (Memory.promoted p now s) refl refl refl refl refl sound)

pub empty-AllSound : AllSound []
unfolding AllSound Dict.get
empty-AllSound i s p = ground (arith, p)

-- Whatever is called on a repository of sound runs, a new one for example, in whatever order and
-- with whatever answers, every run stays sound, as long as no registration passes an approval
-- status for a run that is claimed.
pub calls_memory-AllSound :
    (cs : List RunCall) (m : Runs) → AllSound m → AllAdmissible cs m → AllSound (calls_memory cs m)
unfolding calls_memory AllAdmissible
calls_memory-AllSound [] m h a = h
calls_memory-AllSound (c ∷ cs) m h (a, as') =
    calls_memory-AllSound cs (call_memory c m).1 (call_memory-AllSound m h c a) as'
