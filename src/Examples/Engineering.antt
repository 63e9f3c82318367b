-- ===== src/Examples/Engineering.antt =====
-- The software-engineering services on a concrete run, host and publisher.
use velox_server.Prelude.{
  ℕ, String, Bool, true, false, Option, none, some, List, [], ◌∷◌, ◌≡◌, refl, nat_eq, string_eq,
  option_eq, ◌==◌, ◌&&◌, ◌+◌, if◌then◌else◌, ◌⊎◌,
}
use velox_server.Prelude.Result.{Result, ok, err}
use velox_server.Prelude.Dict
use velox_server.Prelude.Text.{strip, is_blank}
use velox_server.Actions.{Uuid, flag, identifier, obj, field, end}
use velox_server.Delegation.{awaiting_approval, TaskDelegationResult}
use velox_server.Workers.Resolve.{capability_route}
use velox_server.Runs.{RunState, keep, is_approved, is_abandoned}
use velox_server.Runs.Memory
use velox_server.Runs.Memory.{Runs}
use velox_server.Runs.Memory.Changes.{Sound}
use velox_server.Engineering.Control.{abandon, reconcile, state_token, Inspector}
use velox_server.Engineering.Control.Reconcile.{Outcome, reconcile_decides}
use velox_server.Engineering.Recovery.{
  register_delegation, recover_pending, record_approved, record_rejected, recovered_action, claim,
  not_claimed,
}
use velox_server.Engineering.Recovery.Stored.{approved_task_survives}
use velox_server.Engineering.{memory_repository, is_canonical_state, sqlite_repository}
use velox_server.Engineering.Recovery.Durable.{rejected_task_withdrawn}
use velox_server.Engineering.Disposition.{Disposer}
use velox_server.Engineering.Workspace.{Host, ProcessResult, Workspace}
use velox_server.Engineering.Publication.{
  Settings, PromotionResult, PromotionError, Publisher, Reviewer,
}
use velox_server.Engineering.Promotion.{promote, promote_run, configured, is_successful, is_kept}
use velox_server.Engineering.Promotion.Guarded.{promote_cases}
use velox_server.Engineering.Promotion.Once.{promote_once, reported_again}
use velox_server.Engineering.Continuation.{WorkerError, transition_error, Runtime}
use velox_server.Engineering.Continuation.Claimed.{execute_cases, RefusedBefore, ReachedRuntime}
use velox_server.Lifecycle.{TransitionError}
use velox_server.Workers.Runtime.{WorkerState, WorkerProcessingResult, process_action}
use velox_server.Examples.{config_with, reader, reading}
use velox_server.Examples.Durable.{tallies, started_run, empty-Represents}

abbrev delegated : TaskDelegationResult
delegated = record {
  action_id = 4;
  status = awaiting_approval;
  permission_status = none;
  routing_reason = capability_route;
}

unknown : Dict.get {K = Uuid} {V = RunState} [] 4 ≡ none
unfolding Dict.get
unknown = refl

solid : is_blank " add a test " ≡ false
unfolding is_blank
solid = refl

rejected_task_withdrawn_example :
    let registered =
      (register_delegation memory_repository " add a test " "velox" delegated 1 []).1 in
    let action =
      recovered_action 4 "velox" (strip " add a test ") (obj (field "pending" (flag true) end)) 2 in
    let decided = record_rejected memory_repository action 3 registered in
    (decided.0 ≡ ok tt)
    × ((recover_pending memory_repository 4 4 decided.1 ≡ (ok none, decided.1))
        × (claim memory_repository 4 9 4 decided.1 ≡ (err not_claimed, decided.1)))
rejected_task_withdrawn_example =
    rejected_task_withdrawn [] " add a test " "velox" delegated 1 2 3 4 9 unknown solid refl

approved_task_survives_example :
    let repository = sqlite_repository tallies in
    let registered = register_delegation repository " add a test " "velox" delegated 1 [] in
    let action =
      recovered_action 4 "velox" (strip " add a test ") (obj (field "pending" (flag true) end)) 2 in
    let decided = record_approved repository action 3 registered.1 in
    (registered.0 ≡ ok delegated)
    × ((recover_pending repository 4 2 registered.1).0 ≡ ok (some action))
    × (decided.0 ≡ ok tt)
    × ((claim repository 4 9 4 decided.1).0
        ≡ ok (
            recovered_action 4 "velox"
              (strip " add a test ")
              (obj (field "claim_id" (identifier 9) end))
              4))
approved_task_survives_example =
    approved_task_survives tallies [] [] " add a test " "velox" delegated 1 2 3 4 9 empty-Represents
      unknown solid refl

-- A digest that keeps its text.
abbrev plain : String → String
plain s = s

abbrev no_worktree : Inspector
no_worktree i = none

started_run-Sound : Sound started_run
unfolding is_approved is_abandoned
started_run-Sound = record {
  claimed_approved = λ p. refl;
  started_claimed = λ p. refl;
  claim_timed = refl;
  abandoned_started = λ p. refl;
}

started_known : Dict.get {K = Uuid} {V = RunState} ((4, started_run) ∷ []) 4 ≡ some started_run
unfolding Dict.get
started_known = refl

started_canonical : is_canonical_state started_run ≡ true
unfolding is_canonical_state
started_canonical = refl

started_token : state_token tallies plain started_run ≡ ok "IIII|IIIIII|IIIIIIIII|IIIIII||"
unfolding state_token
started_token = refl

reconcile_decides_example :
    Outcome tallies plain (some no_worktree) true ((4, started_run) ∷ []) 4 8 started_run abandon (
      reconcile tallies plain memory_repository
        (some no_worktree)
        4
        abandon
        "IIII|IIIIII|IIIIIIIII|IIIIII||"
        true
        8
        ((4, started_run) ∷ []))
reconcile_decides_example =
    reconcile_decides tallies plain (some no_worktree) true ((4, started_run) ∷ []) 4 8 started_run
      abandon "IIII|IIIIII|IIIIIIIII|IIIIII||" started_known started_canonical started_run-Sound
      started_token

-- A run that finished and whose work product was kept.
abbrev kept_run : RunState
kept_run = record started_run {
  pending_objective = none;
  execution_status = some "succeeded";
  execution_finished_at = some 7;
  external_execution_performed = some true;
  disposition = some keep;
  disposition_succeeded = some true;
  worktree_present = some true;
  branch_present = some true;
  canonical_unchanged = some true;
}

abbrev kept_runs : Runs
kept_runs = (4, kept_run) ∷ []

abbrev keeper : Disposer ℕ
keeper i d w = (
  ok (record {
    action_id = i;
    disposition = d;
    worktree_path = "/w/se-IIII";
    branch = "velox/se-IIII";
    worktree_present = true;
    branch_present = true;
    canonical_unchanged = true;
  }),
  w,
)

-- A host on which the worktree of the run has one commit with the action's trailer, and whose
-- remote has the base and, after the push, the branch. The world counts the processes.
abbrev printed : String → ℕ → Option ProcessResult × ℕ
printed s w = (some (record { returncode = some 0; stdout = s; timed_out = false }), w + 1)

abbrev first_is : List String → String → Bool
first_is [] s = false
first_is (x ∷ xs) s = x == s

abbrev last_is : List String → String → Bool
last_is [] s = false
last_is (x ∷ []) s = x == s
last_is (x ∷ y ∷ ys) s = last_is (y ∷ ys) s

abbrev git_answers : List String → String → ℕ → Option ProcessResult × ℕ
git_answers arguments cwd w =
    if first_is arguments "symbolic-ref"
    then printed "main\n" w
    else if first_is arguments "rev-list"
    then printed "1\n" w
    else if first_is arguments "show"
    then printed "VELOX: promote\n\nVELOX-Action: IIII\n" w
    else if first_is arguments "ls-remote"
    then (if last_is arguments "refs/heads/main"
        then printed "abc\trefs/heads/main\n" w
        else printed "def\trefs/heads/velox/se-IIII\n" w)
    else if first_is arguments "rev-parse"
    then (if last_is arguments "--show-toplevel"
        then printed "/repo\n" w
        else if last_is arguments "HEAD" && cwd == "/repo"
        then printed "abc\n" w
        else if last_is arguments "def^"
        then printed "abc\n" w
        else printed "def\n" w)
    else printed "" w

abbrev run_script : List String → String → ℕ → Option ProcessResult × ℕ
run_script [] cwd w = (none, w)
run_script (program ∷ arguments) cwd w = git_answers arguments cwd w

abbrev host : Host ℕ
host = record {
  run = run_script;
  is_dir = λ p w. true;
  exists = λ p w. true;
  resolve = λ p w. p;
  is_absolute = λ p. true;
  parents = λ p. [];
  parent = λ p. "/";
  name = λ p. "repo";
  child = λ p n. n;
  make_directories = λ p w. w;
}

abbrev reviewer : Reviewer ℕ
reviewer i w = (
  ok (record {
    action_id = i;
    worktree_path = "se-IIII";
    branch = "velox/se-IIII";
    changed_files = [];
    untracked_files = [];
    diff_stat = "";
    diff = "";
    diff_truncated = false;
    dirty = false;
    canonical_clean = true;
    canonical_unchanged = true;
  }),
  w,
)

abbrev publisher : Publisher ℕ
publisher root base head title body w = (
  some (record {
    number = 12;
    url = "https://example/12";
    base_branch = base;
    head_branch = head;
    created = true;
  }),
  w + 1,
)

abbrev settings : Settings ℕ
settings = record {
  workspace = some (record { root = "/repo"; worktrees_root = some "/w"; git = "git" });
  work_products = some reviewer;
  publisher = some publisher;
  enabled = true;
  remote = "origin";
  base_branch = "main";
  author_name = "velox";
  author_email = "velox@example";
}

abbrev published : PromotionResult
published = record {
  action_id = 4;
  commit_sha = "def";
  pull_request_number = 12;
  pull_request_url = "https://example/12";
  base_branch = "main";
  head_branch = "velox/se-IIII";
  pull_request_created = true;
}

abbrev promoted_runs : Runs
promoted_runs =
    (promote host tallies.uuid_text memory_repository settings 4 "title" "body" 9
      (kept_runs, 0)).1.0

abbrev processes : ℕ
processes =
    (promote host tallies.uuid_text memory_repository settings 4 "title" "body" 9
      (kept_runs, 0)).1.1

first_promotion :
    promote host tallies.uuid_text memory_repository settings 4 "title" "body" 9 (kept_runs, 0)
    ≡ (ok published, (promoted_runs, processes))
unfolding promote Dict.get Memory.record_promotion
first_promotion = refl

promote_once_example :
    promote host tallies.uuid_text memory_repository settings 4 "again" "" 10 (promoted_runs, 50)
    ≡ (ok (reported_again published), (promoted_runs, 50))
promote_once_example =
    promote_once host tallies.uuid_text settings 4 kept_runs promoted_runs 0 processes published
      "title" "again" "body" "" 9 10 50 first_promotion

promote_cases_example :
    ((e : PromotionError) × (promote host tallies.uuid_text memory_repository settings 4 "title"
          "body" 9
          (kept_runs, 0)
        ≡ (err e, (kept_runs, 0))))
    ⊎ ((s : RunState) × ((c : Workspace × (Reviewer ℕ × Publisher ℕ)) × ((settings.enabled ≡ true)
            × ((memory_repository.get 4 kept_runs ≡ ok (some s))
                × ((is_canonical_state s ≡ true)
                    × ((is_successful s ≡ true)
                        × ((is_kept s ≡ true)
                            × ((configured settings ≡ ok c)
                                × (promote host tallies.uuid_text memory_repository settings 4
                                      "title" "body" 9
                                      (kept_runs, 0)
                                    ≡ promote_run host tallies.uuid_text memory_repository settings
                                        c.0 c.1.0 c.1.1 4 "title" "body" 9 s
                                        (kept_runs, 0))))))))))
promote_cases_example =
    promote_cases host tallies.uuid_text memory_repository settings 4 "title" "body" 9 kept_runs 0

-- The runtime, whose observer keeps its observations in memory.
abbrev runtime : Runtime Runs
runtime i (w, store) = with_store store (process_action (config_with reader) reading i w)
  where
    with_store :
        Runs
        → Result TransitionError WorkerProcessingResult × WorkerState
        → Result WorkerError WorkerProcessingResult × (WorkerState × Runs)
    with_store store (ok r, w) = (ok r, (w, store))
    with_store store (err e, w) = (err (transition_error e), (w, store))

-- A run that its operator approved.
abbrev pub approved_runs : Runs
approved_runs =
    (4, record started_run { claim_id = none; claimed_at = none; execution_started_at = none }) ∷ []

abbrev idle : WorkerState
idle = record { plane = record { queue = []; lifecycle = []; pending = [] }; observations = [] }

execute_cases_example :
    RefusedBefore runtime memory_repository none 4 9 20 idle approved_runs
    ⊎ ReachedRuntime runtime memory_repository none 4 9 20 idle approved_runs
execute_cases_example = execute_cases runtime memory_repository none 4 9 20 idle approved_runs
