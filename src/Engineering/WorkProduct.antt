-- ===== src/Engineering/WorkProduct.antt =====
-- integrations/software_engineering_work_product.py: the review of an action's worktree, and what
-- KEEP and DISCARD do to it.
use Prim.Native.String.{◌++◌}
use Prim.Native.String
use text.Mathlib.Text.{starts_with}
use velox_server.Prelude.{
  ℕ, String, Bool, true, false, Option, none, some, not, ◌&&◌, ◌||◌, ◌==◌, string_eq, nat_eq,
  option_eq, List, [], ◌∷◌, ◌++◌ as ◌+++◌, if◌then◌else◌, any, ltb,
}
use velox_server.Prelude.Result.{Result, ok, err, raise_if, ◌>>◌, Step, continue}
use velox_server.Prelude.Text.{strip, is_blank}
use velox_server.Prelude.Text.Lines.{splitlines, drop_chars, take_chars}
use velox_server.Actions.{Uuid}
use velox_server.Runs.{WorkProductDisposition, keep, discard, DispositionRecord}
use velox_server.Engineering.{WorkProductReview}
use velox_server.Engineering.Workspace.{
  Host, IsolatedWorktree, Workspace, WorkspaceError, process_failed, changed_files, run_git,
  validate, expected_worktree, status,
}

-- WorkProductIdentityError, by its message; `git_raised` is the WorkspaceUnavailableError of a
-- git that cannot be started, which no handler here turns into one.
pub data IdentityError : Type 0 where
  git_failed workspace_unavailable no_worktree overlaps not_main not_registered : IdentityError
  not_own_checkout worktree_status canonical_status has_commits : IdentityError
  git_raised : WorkspaceError → IdentityError

-- WorkProductDispositionResult
pub record DispositionResult : Type 0 where
  pub action_id : Uuid
  pub disposition : WorkProductDisposition
  pub worktree_path : String
  pub branch : String
  pub worktree_present : Bool
  pub branch_present : Bool
  pub canonical_unchanged : Bool

-- remaining
unfoldable pub remaining : DispositionResult → List String
remaining r = elim r.disposition [
  | keep ↦ []
  | discard ↦
      (if r.worktree_present then "worktree" ∷ [] else [])
      +++ (if r.branch_present then "branch" ∷ [] else [])
]

is_empty : List String → Bool
is_empty [] = true
is_empty (x ∷ xs) = false

-- succeeded
unfoldable pub succeeded : DispositionResult → Bool
unfolding remaining is_empty
succeeded r = is_empty (remaining r) && r.canonical_unchanged

-- What `record_disposition` takes of a result.
unfoldable pub record_of : DispositionResult → DispositionRecord
unfolding succeeded
record_of r = record {
  action_id = r.action_id;
  disposition = r.disposition;
  succeeded = succeeded r;
  worktree_present = r.worktree_present;
  branch_present = r.branch_present;
  canonical_unchanged = r.canonical_unchanged;
}

-- _clip
unfoldable pub clip : String → ℕ → String × Bool
unfolding take_chars
clip text limit =
    if ltb limit (String.count text) then (take_chars limit text, true) else (text, false)

-- _registered_worktrees: the entries so far, and the path and branch that are being read.
unfoldable pub registered_from :
    Option String → Option String → List String → List (String × Option String)
unfolding drop_chars
registered_from path branch [] = []
registered_from path branch (line ∷ lines) =
    let opened = registered_from (some (drop_chars 9 line)) none lines in
    let branched = registered_from path (some (drop_chars 7 line)) lines in
    let closed = registered_from none none lines in
    let skipped = registered_from path branch lines in
    if starts_with line "worktree "
    then opened
    else if starts_with line "branch "
    then branched
    else if line == ""
    then elim path [ none ↦ skipped | some p ↦ (p, branch) ∷ closed ]
    else skipped

unfoldable pub registered_worktrees : String → List (String × Option String)
unfolding registered_from splitlines
registered_worktrees porcelain = registered_from none none (splitlines porcelain +++ "" ∷ [])

-- The lines that name untracked files, without their mark.
unfoldable pub untracked_lines : List String → List String
unfolding drop_chars
untracked_lines [] = []
untracked_lines (line ∷ lines) =
    let rest = untracked_lines lines in
    if starts_with line "?? " then drop_chars 3 line ∷ rest else rest

module _ {W : Type 0} (host : Host W) (uuid_text : Uuid → String) (workspace : Workspace) where
  -- Another exception of the workspace, as the caller sees it.
  unfoldable pub instead :
      {A : Type 0} → IdentityError → Result WorkspaceError A × W → Result IdentityError A × W
  instead e (ok a, w) = (ok a, w)
  instead e (err _, w) = (err e, w)

  unfoldable pub raising : {A : Type 0} → Result WorkspaceError A × W → Result IdentityError A × W
  raising (ok a, w) = (ok a, w)
  raising (err e, w) = (err (git_raised e), w)

  -- _git
  unfoldable pub git : List String → String → Step W IdentityError String
  unfolding run_git process_failed raising
  git arguments cwd w =
      continue (raising (run_git host uuid_text workspace arguments cwd w))
        λ r w. continue (raise_if (process_failed r) git_failed, w) λ _ w. (ok r.stdout, w)

  -- _branch_exists
  unfoldable pub branch_exists : String → String → Step W IdentityError Bool
  unfolding run_git process_failed raising
  branch_exists root branch w =
      continue
        (raising (
          run_git host uuid_text workspace
            ("rev-parse" ∷ "--verify" ∷ "--quiet" ∷ ("refs/heads/" ++ branch) ∷ []) root w))
        λ r w. (ok (not (process_failed r)), w)

  -- The branches under which the derived path is registered, after the main worktree.
  unfoldable pub branches_at : String → List (String × Option String) → W → List (Option String)
  branches_at derived [] w = []
  branches_at derived ((path, branch) ∷ entries) w =
      let rest = branches_at derived entries w in
      if host.resolve path w == derived then branch ∷ rest else rest

  unfoldable pub is_only : List (Option String) → String → Bool
  is_only (some b ∷ []) branch = b == branch
  is_only _ branch = false

  -- The registry test of `_verified`.
  unfoldable pub check_entries :
      String → String → String → List (String × Option String) → W → Result IdentityError (Unit {0})
  unfolding branches_at is_only
  check_entries canonical derived branch [] w = err not_main
  check_entries canonical derived branch ((path, b) ∷ entries) w =
      raise_if (not (host.resolve path w == canonical)) not_main
      >> raise_if (not (is_only (branches_at derived entries w) ("refs/heads/" ++ branch)))
          not_registered

  -- _verified
  unfoldable pub verified : Uuid → Step W IdentityError (String × (IsolatedWorktree × String))
  unfolding validate status expected_worktree git check_entries registered_worktrees instead
  verified i w =
      continue (instead workspace_unavailable (validate host uuid_text workspace w)) λ root w.
        continue (instead workspace_unavailable (status host uuid_text workspace root w))
          λ canonical_before w.
            let worktree = expected_worktree host uuid_text workspace i in
            continue (raise_if (not (host.is_dir worktree.path w)) no_worktree, w)
              λ _ w.
                let canonical = host.resolve root w in
                let derived = host.resolve worktree.path w in
                continue
                  (
                    raise_if
                        (derived == canonical || any (λ p. p == canonical) (host.parents derived))
                        overlaps,
                    w,
                  )
                  λ _ w.
                    continue (git ("worktree" ∷ "list" ∷ "--porcelain" ∷ []) root w) λ listing w.
                      continue
                        (
                          check_entries canonical derived worktree.branch
                              (registered_worktrees listing) w,
                          w,
                        )
                        λ _ w.
                          continue (git ("rev-parse" ∷ "--show-toplevel" ∷ []) worktree.path w)
                            λ top w.
                              continue
                                (
                                  raise_if (not (host.resolve (strip top) w == derived))
                                      not_own_checkout,
                                  w,
                                )
                                λ _ w. (ok (root, (worktree, canonical_before)), w)

  -- review; `diff_limit` and the limit of the statistics bound what it returns.
  unfoldable pub review : ℕ → Uuid → Step W IdentityError WorkProductReview
  unfolding verified status git clip changed_files untracked_lines splitlines is_blank instead
  review diff_limit i w = continue (verified i w) λ v w.
      let root = v.0 in
      let worktree = v.1.0 in
      continue (instead worktree_status (status host uuid_text workspace worktree.path w))
        λ porcelain w.
          continue
            (git
              ("diff" ∷ "--no-ext-diff" ∷ "--no-textconv" ∷ "--no-color" ∷ "--stat" ∷ "HEAD" ∷ [])
              worktree.path w)
            λ stat w.
              continue
                (git ("diff" ∷ "--no-ext-diff" ∷ "--no-textconv" ∷ "--no-color" ∷ "HEAD" ∷ [])
                  worktree.path w)
                λ diff w.
                  continue (instead canonical_status (status host uuid_text workspace root w))
                    λ canonical_after w. (
                      ok (record {
                        action_id = i;
                        worktree_path = worktree.path;
                        branch = worktree.branch;
                        changed_files = changed_files porcelain;
                        untracked_files = untracked_lines (splitlines porcelain);
                        diff_stat = (clip stat 4000).0;
                        diff = (clip diff diff_limit).0;
                        diff_truncated = (clip diff diff_limit).1;
                        dirty = not (is_blank porcelain);
                        canonical_clean = is_blank canonical_after;
                        canonical_unchanged = canonical_after == v.1.1;
                      }),
                      w,
                    )

  -- `canonical_after == canonical_before`, where a status that cannot be read is `None`.
  unfoldable pub same_status : Result WorkspaceError String → String → Bool
  same_status (ok after) before = after == before
  same_status (err e) before = false

  -- DISCARD: the branch must have no commits of its own; the worktree is removed, then the
  -- branch if the worktree is gone.
  unfoldable pub remove_branch : Bool → String → String → Step W IdentityError (Unit {0})
  unfolding run_git raising
  remove_branch true branch root w = (ok tt, w)
  remove_branch false branch root w =
      continue (raising (run_git host uuid_text workspace ("branch" ∷ "-D" ∷ branch ∷ []) root w))
        λ _ w. (ok tt, w)

  unfoldable pub discard_worktree :
      Uuid → String → IsolatedWorktree → String → Step W IdentityError DispositionResult
  unfolding git run_git raising remove_branch status same_status branch_exists
  discard_worktree i root worktree canonical_before w =
      continue (git ("rev-list" ∷ "--count" ∷ ("HEAD..refs/heads/" ++ worktree.branch) ∷ []) root w)
        λ count w.
          continue (raise_if (not (strip count == "0")) has_commits, w)
            λ _ w.
              continue
                (raising (
                  run_git host uuid_text workspace
                    ("worktree" ∷ "remove" ∷ "--force" ∷ worktree.path ∷ []) root w))
                λ _ w.
                  let present = host.exists worktree.path w in
                  continue (remove_branch present worktree.branch root w) λ _ w.
                    let (after, w) = status host uuid_text workspace root w in
                    continue (branch_exists root worktree.branch w) λ branch_present w. (
                      ok (record {
                        action_id = i;
                        disposition = discard;
                        worktree_path = worktree.path;
                        branch = worktree.branch;
                        worktree_present = present;
                        branch_present = branch_present;
                        canonical_unchanged = same_status after canonical_before;
                      }),
                      w,
                    )

  -- apply
  unfoldable pub apply : Uuid → WorkProductDisposition → Step W IdentityError DispositionResult
  unfolding verified discard_worktree
  apply i disposition w = continue (verified i w) λ v w. elim disposition [
    | keep ↦ (
      ok (record {
        action_id = i;
        disposition = keep;
        worktree_path = v.1.0.path;
        branch = v.1.0.branch;
        worktree_present = true;
        branch_present = true;
        canonical_unchanged = true;
      }),
      w,
    )
    | discard ↦ discard_worktree i v.0 v.1.0 v.1.1 w
  ]
