-- ===== src/Runs/Memory/Calls.antt =====
-- The operations of a run repository as calls, and what each answers: all that change its state, and
-- the lookup of one run.
use velox_server.Prelude.{◌≡◌, refl, String, Bool, Option, nat_eq, List, [], ◌∷◌}
use velox_server.Prelude.Result.{Result, ok, err, Step}
use velox_server.Prelude.Dict
use velox_server.Actions.{Uuid, Instant}
use velox_server.Runs.{
  ActionClaim, RunState, RunError, Registration, DispositionRecord, PromotionRecord,
}
use velox_server.Runs.Memory
use velox_server.Runs.Memory.{Runs}

pub data RunCall : Type 0 where
  find : Uuid → RunCall
  register : Registration → Instant → RunCall
  approve : Uuid → String → Instant → Instant → RunCall
  reject : Uuid → Instant → Instant → RunCall
  claim : Uuid → Uuid → Instant → RunCall
  start : Uuid → Instant → Instant → RunCall
  release : Uuid → Instant → Instant → RunCall
  abandon : Uuid → Instant → Instant → RunCall
  execute : Uuid → String → Instant → Bool → Instant → RunCall
  dispose : DispositionRecord → Instant → RunCall
  promote : PromotionRecord → Instant → RunCall

pub data Answer : Type 0 where
  found_run : Option RunState → Answer
  run_state : RunState → Answer
  action_claim : ActionClaim → Answer

abbrev pub answer :
    {A S : Type 0} → (A → Answer) → Result RunError A × S → Result RunError Answer × S
answer f (ok a, s) = (ok (f a), s)
answer f (err e, s) = (err e, s)

pub answer-state :
    {A S : Type 0} (f : A → Answer) (x : Result RunError A × S) → (answer f x).1 ≡ x.1
answer-state f (ok a, s) = refl
answer-state f (err e, s) = refl

unfoldable pub call_memory : RunCall → Step Runs RunError Answer
unfolding Memory.register_action Memory.record_approval Memory.record_rejection
    Memory.claim_approved Memory.record_execution_started Memory.release_unstarted_claim
    Memory.abandon_started_claim Memory.record_execution Memory.record_disposition
    Memory.record_promotion
call_memory (find i) m = (ok (found_run (Dict.get m i)), m)
call_memory (register r now) m = answer run_state (Memory.register_action r now m)
call_memory (approve i objective at now) m =
    answer run_state (Memory.record_approval i objective at now m)
call_memory (reject i at now) m = answer run_state (Memory.record_rejection i at now m)
call_memory (claim i claim_id now) m = answer action_claim (Memory.claim_approved i claim_id now m)
call_memory (start i at now) m = answer run_state (Memory.record_execution_started i at now m)
call_memory (release i expected at) m =
    answer run_state (Memory.release_unstarted_claim i expected at m)
call_memory (abandon i expected at) m =
    answer run_state (Memory.abandon_started_claim i expected at m)
call_memory (execute i status at external now) m =
    answer run_state (Memory.record_execution i status at external now m)
call_memory (dispose d now) m = answer run_state (Memory.record_disposition d now m)
call_memory (promote p now) m = answer run_state (Memory.record_promotion p now m)

unfoldable pub calls_memory : List RunCall → Runs → Runs
unfolding call_memory
calls_memory [] m = m
calls_memory (c ∷ cs) m = calls_memory cs (call_memory c m).1

-- The answers of a sequence of calls.
unfoldable pub answers_memory : List RunCall → Runs → List (Result RunError Answer)
unfolding call_memory
answers_memory [] m = []
answers_memory (c ∷ cs) m = (call_memory c m).0 ∷ answers_memory cs (call_memory c m).1
