-- ===== src/Examples/Durable.antt =====
-- The run repositories and the services over them, on concrete runs.
use Prim.Native.String.{count}
use Prim.Native.String.count
use velox_server.Prelude.{
  option_map, ℕ, zero, suc, String, false, none, some, List, [], ◌∷◌, ◌≡◌, refl, ap, ◌∙◌, ◌≤◌, ◌+◌,
  arith, is_none, nat_eq, string_eq,
}
use velox_server.Prelude.Result.{ok, err}
use velox_server.Prelude.Dict
use velox_server.Prelude.Text.{is_blank}
use velox_server.Actions.{Uuid}
use velox_server.Runs
use velox_server.Runs.{RunState, RunError, Registration, run_missing, has_claim}
use velox_server.Runs.Memory
use velox_server.Runs.Memory.{Runs}
use velox_server.Runs.Memory.Calls.{
  RunCall, register, approve, claim, start, release, abandon, calls_memory, answers_memory,
}
use velox_server.Runs.Memory.Changes.{AllSound, Admissible, AllAdmissible}
use velox_server.Runs.Memory.Sound.{empty-AllSound, calls_memory-AllSound}
use velox_server.Runs.Memory.Started.{IsStarted, started_is_final}
use velox_server.Runs.Table.{
  approval_of, approval_value, resolution_of, resolution_value, Codec, Table, Row, state_from_row,
}
use velox_server.Runs.Table.Rows.{row_of, state_from_row-row_of}
use velox_server.Runs.Table.Represents.{Represents}
use velox_server.Runs.Table.Traces.{SameAnswers, answers_table, calls_table, calls_refine}
use velox_server.Runs.Table.Claims.{
  Statement, insert_run, assign_run, claim_run, release_run, count_claims, count_releases,
  execute_schedule, held,
}
use velox_server.Runs.Table.Statements.{approving, rejecting}
use velox_server.Runs.Table.Claims.Exclusive.{claims_balance, claims_exclusive}

-- Numbers as tallies: a way to write ids and times as texts that can be read back.
abbrev tally : ℕ → String
tally zero = ""
tally (suc n) = String.◌∷◌ "I" (tally n)

pub count-tally : (n : ℕ) → count (tally n) ≡ n
count-tally zero = count.nil
count-tally (suc n) = (λ i. count.cons "I" (tally n) i) ∙ ap suc (count-tally n)

abbrev pub tallies : Codec
tallies = record {
  uuid_text = tally;
  parse_uuid = λ s. some (count s);
  isoformat = tally;
  fromisoformat = λ s. some (count s);
  parse_uuid-uuid_text = λ n. ap some (count-tally n);
  fromisoformat-isoformat = λ n. ap some (count-tally n);
}

abbrev pub registration : Registration
registration = record {
  action_id = 4;
  target = "velox";
  executor_role = "software_engineering";
  capability = "code.implement";
  delegation_status = some "awaiting_approval";
  objective = some " add a test ";
  approval_status = some Runs.awaiting_approval;
}

-- A run that is registered, approved, claimed, released, claimed again, started and given up.
abbrev pub calls : List RunCall
calls =
    register registration 1
    ∷ approve 4 "add a test" 2 2
    ∷ claim 4 9 3
    ∷ release 4 3 4
    ∷ claim 4 10 5
    ∷ start 4 6 6
    ∷ abandon 4 6 7
    ∷ []

nothing_claimed :
    (s : RunState)
    → Dict.get {K = Uuid} {V = RunState} [] 4 ≡ some s
    → is_none s.claim_id ≡ false
    → some Runs.awaiting_approval ≡ none
unfolding Dict.get
nothing_claimed s p h = ground (arith, p)

calls-Admissible : AllAdmissible calls []
unfolding AllAdmissible Admissible
calls-Admissible = (nothing_claimed, (tt, (tt, (tt, (tt, (tt, (tt, tt)))))))

pub empty-Represents : Represents tallies [] []
unfolding Represents Dict.get
empty-Represents i = refl

calls_refine_example :
    SameAnswers tallies calls (answers_table tallies calls []) (answers_memory calls [])
    × Represents tallies (calls_table tallies calls []) (calls_memory calls [])
calls_refine_example =
    calls_refine tallies calls [] [] empty-Represents empty-AllSound calls-Admissible

calls_memory-AllSound_example : AllSound (calls_memory calls [])
calls_memory-AllSound_example = calls_memory-AllSound calls [] empty-AllSound calls-Admissible

-- Two processes claim the approved run; one of them has the claim.
abbrev schedule : List Statement
schedule =
    insert_run registration (some "add a test") 1
    ∷ assign_run 4 (approving "add a test" 2 2)
    ∷ claim_run 4 9 3
    ∷ claim_run 4 10 3
    ∷ release_run 4 3 4
    ∷ claim_run 4 10 5
    ∷ []

claims_exclusive_example :
    count_claims tallies 4 schedule [] ≤ count_releases tallies 4 schedule [] + 1
claims_exclusive_example = claims_exclusive tallies 4 schedule []

claims_balance_example :
    held tallies 4 [] + count_claims tallies 4 schedule []
    ≡ count_releases tallies 4 schedule [] + held tallies 4 (execute_schedule tallies schedule [])
claims_balance_example = claims_balance tallies 4 schedule []

one_of_two : count_claims tallies 4 schedule [] ≡ 2
unfolding count_claims Dict.get Dict.put approval_of approval_value is_blank resolution_of
    resolution_value
one_of_two = refl

-- A run whose worker has started.
abbrev started_calls : List RunCall
started_calls =
    register registration 1 ∷ approve 4 "add a test" 2 2 ∷ claim 4 9 3 ∷ start 4 6 6 ∷ []

abbrev started_runs : Runs
started_runs = calls_memory started_calls []

abbrev pub started_run : RunState
started_run = record {
  action_id = 4;
  executor_role = "software_engineering";
  capability = "code.implement";
  target = "velox";
  delegation_status = some "awaiting_approval";
  pending_objective = some "add a test";
  approval_status = some Runs.approved;
  approved_at = some 2;
  rejected_at = none;
  claim_id = some 9;
  claimed_at = some 3;
  execution_started_at = some 6;
  claim_resolution = none;
  claim_reconciled_at = none;
  execution_status = none;
  execution_finished_at = none;
  external_execution_performed = none;
  disposition = none;
  disposition_succeeded = none;
  worktree_present = none;
  branch_present = none;
  canonical_unchanged = none;
  promotion_commit_sha = none;
  pull_request_number = none;
  pull_request_url = none;
  promotion_base_branch = none;
  promotion_head_branch = none;
  promotion_finished_at = none;
  created_at = some 1;
  updated_at = some 6;
}

started_runs-IsStarted : IsStarted 4 started_runs
unfolding IsStarted calls_memory Dict.get Runs.normalize_objective is_blank Dict.put
    Runs.normalize_required_objective Runs.require_compatible_objective Runs.new_run
    Runs.is_rejected Memory.claiming Runs.is_approved
started_runs-IsStarted = (started_run, (refl, record { started = refl; held = refl }))

started_is_final_example :
    (e : RunError) × (Memory.claim_approved 4 11 20
        (calls_memory (abandon 4 6 7 ∷ release 4 7 8 ∷ []) started_runs)
      ≡ (err e, calls_memory (abandon 4 6 7 ∷ release 4 7 8 ∷ []) started_runs))
started_is_final_example =
    started_is_final (abandon 4 6 7 ∷ release 4 7 8 ∷ []) started_runs 4 11 20
      started_runs-IsStarted

state_from_row-row_of_example : state_from_row tallies (row_of tallies started_run) ≡ ok started_run
state_from_row-row_of_example = state_from_row-row_of tallies started_run

-- The check of a rejection and its UPDATE are two transactions: with a claim in between, the run
-- is rejected and claimed at once.
abbrev raced : Table
raced =
    execute_schedule tallies
      (insert_run registration (some "add a test") 1
        ∷ assign_run 4 (approving "add a test" 2 2)
        ∷ claim_run 4 9 3
        ∷ assign_run 4 (rejecting 4 4)
        ∷ [])
      []

raced_is_claimed : held tallies 4 raced ≡ 1
unfolding held execute_schedule Dict.get Dict.put approval_of approval_value is_blank
raced_is_claimed = refl

raced_is_rejected :
    option_map (λ (row : Row). row.approval_status) (Dict.get raced "IIII") ≡ some (some "rejected")
unfolding execute_schedule Dict.get Dict.put approval_of approval_value is_blank
raced_is_rejected = refl
