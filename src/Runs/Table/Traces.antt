-- ===== src/Runs/Table/Traces.antt =====
-- Whole sequences of calls on the SQLite repository against the in-memory one.
use velox_server.Prelude.{List, [], ◌∷◌, ◌≡◌, refl, ap, Option, nat_eq}
use velox_server.Prelude.Result.{Result, ok, err, Step}
use velox_server.Runs.{RunState, RunError}
use velox_server.Runs.Memory.{Runs}
use velox_server.Runs.Memory.Calls.{
  RunCall, find, register, approve, reject, claim, start, release, abandon, execute, dispose,
  promote, Answer, found_run, run_state, action_claim, answer, call_memory, calls_memory,
  answers_memory,
}
use velox_server.Runs.Memory.Changes.{AllSound, AllAdmissible}
use velox_server.Runs.Memory.Sound.{call_memory-AllSound}
use velox_server.Runs.Table.{Codec, Table}
use velox_server.Runs.Table.Statements
use velox_server.Runs.Table.Operations
use velox_server.Runs.Table.Represents.{Represents, Refines, find_lem}
use velox_server.Runs.Table.Refine.{
  register_action_lem, record_approval_lem, record_rejection_lem, record_execution_started_lem,
  record_execution_lem, record_disposition_lem, record_promotion_lem,
}
use velox_server.Runs.Table.Decides.{Agree}
use velox_server.Runs.Table.Settling.{
  claim_approved_lem, release_unstarted_claim_lem, abandon_started_claim_lem,
}

unfoldable pub looked_up :
    Result RunError (Option RunState) → Table → Result RunError Answer × Table
looked_up (ok o) t = (ok (found_run o), t)
looked_up (err e) t = (err e, t)

result_map : {A B : Type 0} → (A → B) → Result RunError A → Result RunError B
result_map f (ok a) = ok (f a)
result_map f (err e) = err e

-- What the two repositories answer to one call. A release or an abandon that both refuse may be
-- refused with different errors; any other call has the same answer or error in both.
abbrev pub SameAnswer : RunCall → Result RunError Answer → Result RunError Answer → Type 0
SameAnswer (release i expected at) x y = Agree x y
SameAnswer (abandon i expected at) x y = Agree x y
SameAnswer _ x y = x ≡ y

module _ (codec : Codec) where
  unfoldable pub call_table : RunCall → Step Table RunError Answer
  unfolding Operations.find Operations.register_action Operations.record_approval
      Operations.record_rejection Statements.claim_approved Operations.record_execution_started
      Operations.release_unstarted_claim Operations.abandon_started_claim
      Operations.record_execution Operations.record_disposition Operations.record_promotion
  call_table (find i) t = looked_up (Operations.find codec i t) t
  call_table (register r now) t = answer run_state (Operations.register_action codec r now t)
  call_table (approve i objective at now) t =
      answer run_state (Operations.record_approval codec i objective at now t)
  call_table (reject i at now) t = answer run_state (Operations.record_rejection codec i at now t)
  call_table (claim i claim_id now) t =
      answer action_claim (Statements.claim_approved codec i claim_id now t)
  call_table (start i at now) t =
      answer run_state (Operations.record_execution_started codec i at now t)
  call_table (release i expected at) t =
      answer run_state (Operations.release_unstarted_claim codec i expected at t)
  call_table (abandon i expected at) t =
      answer run_state (Operations.abandon_started_claim codec i expected at t)
  call_table (execute i status at external now) t =
      answer run_state (Operations.record_execution codec i status at external now t)
  call_table (dispose d now) t = answer run_state (Operations.record_disposition codec d now t)
  call_table (promote p now) t = answer run_state (Operations.record_promotion codec p now t)

  unfoldable pub calls_table : List RunCall → Table → Table
  unfolding call_table
  calls_table [] t = t
  calls_table (c ∷ cs) t = calls_table cs (call_table c t).1

  unfoldable pub answers_table : List RunCall → Table → List (Result RunError Answer)
  unfolding call_table
  answers_table [] t = []
  answers_table (c ∷ cs) t = (call_table c t).0 ∷ answers_table cs (call_table c t).1

  abbrev Follows : {A : Type 0} → Result RunError A × Table → Result RunError A × Runs → Type 0
  Follows x y = Agree x.0 y.0 × Represents codec x.1 y.1

  answered :
      {A : Type 0} (f : A → Answer) (x : Result RunError A × Table) (y : Result RunError A × Runs)
      → Follows x y
      → Follows (answer f x) (answer f y)
  answered f (ok a, t) (ok b, m) (p, h) = (ap f p, h)
  answered f (err e, t) (err e', m) (p, h) = (tt, h)
  answered f (ok a, t) (err e, m) (p, h) = elim p [ ]
  answered f (err e, t) (ok a, m) (p, h) = elim p [ ]

  exactly :
      {A : Type 0} (f : A → Answer) (x : Result RunError A × Table) (y : Result RunError A × Runs)
      → Refines codec x y
      → ((answer f x).0 ≡ (answer f y).0) × Represents codec (answer f x).1 (answer f y).1
  unfolding result_map
  exactly f (ok a, t) (ok b, m) (p, h) = (ap (result_map f) p, h)
  exactly f (err e, t) (err e', m) (p, h) = (ap (result_map f) p, h)
  exactly f (ok a, t) (err e, m) (p, h) = cc
  exactly f (err e, t) (ok a, m) (p, h) = cc

  module _ (t : Table) (m : Runs) (h : Represents codec t m) where
    -- One call on a table that stands for sound runs: the answers are the same, and the table stands
    -- for the runs after it.
    call_refines :
        (c : RunCall)
        → AllSound m
        → SameAnswer c (call_table c t).0 (call_memory c m).0
          × Represents codec (call_table c t).1 (call_memory c m).1
    unfolding call_table call_memory looked_up
    call_refines (find i) sound = rw (find_lem codec t m i h, Operations.find) (refl, h)
    call_refines (register r now) sound =
        exactly run_state _ _ (register_action_lem codec t m h r now)
    call_refines (approve i objective at now) sound =
        exactly run_state _ _ (record_approval_lem codec t m h i objective at now)
    call_refines (reject i at now) sound =
        exactly run_state _ _ (record_rejection_lem codec t m h i at now)
    call_refines (claim i claim_id now) sound =
        exactly action_claim _ _ (claim_approved_lem codec t m i h claim_id now)
    call_refines (start i at now) sound =
        exactly run_state _ _ (record_execution_started_lem codec t m h i at now)
    call_refines (release i expected at) sound =
        answered run_state _ _ (release_unstarted_claim_lem codec t m h i expected at sound)
    call_refines (abandon i expected at) sound =
        answered run_state _ _ (abandon_started_claim_lem codec t m h i expected at)
    call_refines (execute i status at external now) sound =
        exactly run_state _ _ (record_execution_lem codec t m h i status at external now)
    call_refines (dispose d now) sound =
        exactly run_state _ _ (record_disposition_lem codec t m h d now)
    call_refines (promote p now) sound =
        exactly run_state _ _ (record_promotion_lem codec t m h p now)

  -- The answers of two sequences, one by one.
  abbrev pub SameAnswers :
      List RunCall → List (Result RunError Answer) → List (Result RunError Answer) → Type 0
  SameAnswers [] [] [] = Unit
  SameAnswers (c ∷ cs) (x ∷ xs) (y ∷ ys) = SameAnswer c x y × SameAnswers cs xs ys
  SameAnswers _ _ _ = ⊥

  -- A sequence of calls that look up, register or change runs, on the SQLite repository and on the
  -- in-memory one: call by call, both give the same answer or raise the same error, but for a release
  -- and an abandon, which both accept with the same answer or both refuse, with errors that may
  -- differ. The table that the sequence ends in stands for the runs in memory. At the start the
  -- table stands for sound runs, and no registration passes an approval status for a claimed run.
  pub calls_refine :
      (cs : List RunCall) (t : Table) (m : Runs)
      → Represents codec t m
      → AllSound m
      → AllAdmissible cs m
      → SameAnswers cs (answers_table cs t) (answers_memory cs m)
        × Represents codec (calls_table cs t) (calls_memory cs m)
  unfolding calls_table answers_table calls_memory answers_memory AllAdmissible
  calls_refine [] t m h sound a = (tt, h)
  calls_refine (c ∷ cs) t m h sound (a, as') =
      let one = call_refines t m h c sound in
      let rest =
        calls_refine cs (call_table c t).1 (call_memory c m).1 one.1
          (call_memory-AllSound m sound c a) as' in
      ((one.0, rest.0), rest.1)
