-- ===== src/Engineering/Workspace.antt =====
-- `TrustedGitWorkspace` of integrations/software_engineering.py. Processes and the file system
-- are Python's: a `Host` is what `ProcessRunner.run` and `pathlib` answer on a world of type `W`.
use Prim.Native.String.{◌++◌}
use Prim.Native.String
use velox_server.Prelude.{
  ℕ, String, Bool, Option, none, some, or_else, not, ◌||◌, ◌==◌, string_eq, nat_eq, option_eq, List,
  [], ◌∷◌, if◌then◌else◌, ltb,
}
use velox_server.Prelude.Result.{Result, ok, err, raise_if, Step, continue}
use velox_server.Prelude.Text.{strip}
use velox_server.Prelude.Text.Lines.{splitlines, drop_chars, last_part}
use velox_server.Actions.{Uuid}

-- ProcessResult; the return code of a process that timed out is `none`.
pub record ProcessResult : Type 0 where
  pub returncode : Option ℕ
  pub stdout : String
  pub timed_out : Bool

-- `run argv cwd`: `none` is ExecutableNotFoundError. `parents` is `Path.parents`.
pub record Host (W : Type 0) : Type 0 where
  pub run : List String → String → W → Option ProcessResult × W
  pub is_dir : String → W → Bool
  pub exists : String → W → Bool
  pub resolve : String → W → String
  pub is_absolute : String → Bool
  pub parents : String → List String
  pub parent : String → String
  pub name : String → String
  pub child : String → String → String
  pub make_directories : String → W → W

-- IsolatedWorktree
pub record IsolatedWorktree : Type 0 where
  pub path : String
  pub branch : String

-- The configuration of a TrustedGitWorkspace.
pub record Workspace : Type 0 where
  pub root : String
  pub worktrees_root : Option String
  pub git : String

-- WorkspaceUnavailableError, by its message.
pub data WorkspaceError : Type 0 where
  git_missing no_workspace not_a_repository not_the_root : WorkspaceError
  worktree_exists worktree_refused status_unavailable : WorkspaceError

-- `result.returncode != 0 or result.timed_out`
unfoldable pub process_failed : ProcessResult → Bool
process_failed r = not (r.returncode == some 0) || r.timed_out

-- TrustedGitWorkspace.changed_files
unfoldable pub changed_file : String → List String → List String
unfolding drop_chars last_part
changed_file line files =
    if ltb 3 (String.count line) then last_part (drop_chars 3 line) " -> " ∷ files else files

unfoldable pub changed_lines : List String → List String
unfolding changed_file
changed_lines [] = []
changed_lines (line ∷ lines) = changed_file line (changed_lines lines)

unfoldable pub changed_files : String → List String
unfolding changed_lines splitlines
changed_files status = changed_lines (splitlines status)

module _ {W : Type 0} (host : Host W) (uuid_text : Uuid → String) (workspace : Workspace) where
  started : Option ProcessResult × W → Result WorkspaceError ProcessResult × W
  started (none, w) = (err git_missing, w)
  started (some r, w) = (ok r, w)

  -- run_git
  unfoldable pub run_git : List String → String → Step W WorkspaceError ProcessResult
  unfolding started
  run_git arguments cwd w = started (host.run (workspace.git ∷ arguments) cwd w)

  -- validate
  unfoldable pub validate : Step W WorkspaceError String
  unfolding run_git process_failed
  validate w =
      continue
        (
          raise_if (not (host.is_absolute workspace.root) || not (host.is_dir workspace.root w))
              no_workspace,
          w,
        )
        λ _ w. continue (run_git ("rev-parse" ∷ "--show-toplevel" ∷ []) workspace.root w) λ r w.
          continue (raise_if (process_failed r) not_a_repository, w)
            λ _ w.
              continue
                (
                  raise_if (not (host.resolve (strip r.stdout) w == host.resolve workspace.root w))
                      not_the_root,
                  w,
                )
                λ _ w. (ok workspace.root, w)

  -- worktrees_root
  unfoldable pub worktrees_root : String
  worktrees_root = or_else workspace.worktrees_root (
      host.child (host.parent workspace.root)
        ("." ++ host.name workspace.root ++ "-velox-worktrees"))

  -- expected_worktree
  unfoldable pub expected_worktree : Uuid → IsolatedWorktree
  unfolding worktrees_root
  expected_worktree i = record {
    path = host.child worktrees_root ("se-" ++ uuid_text i);
    branch = "velox/se-" ++ uuid_text i;
  }

  -- create_worktree
  unfoldable pub create_worktree : Uuid → Step W WorkspaceError IsolatedWorktree
  unfolding validate expected_worktree run_git process_failed
  create_worktree i w = continue (validate w) λ root w.
      let worktree = expected_worktree i in
      continue (raise_if (host.exists worktree.path w) worktree_exists, w)
        λ _ w.
          continue
            (run_git ("worktree" ∷ "add" ∷ "-b" ∷ worktree.branch ∷ worktree.path ∷ "HEAD" ∷ [])
              root (host.make_directories (host.parent worktree.path) w))
            λ r w.
              continue (raise_if (process_failed r) worktree_refused, w) λ _ w. (ok worktree, w)

  -- status
  unfoldable pub status : String → Step W WorkspaceError String
  unfolding run_git process_failed
  status path w =
      continue (run_git ("status" ∷ "--porcelain=v1" ∷ "--untracked-files=all" ∷ []) path w)
        λ r w. continue (raise_if (process_failed r) status_unavailable, w) λ _ w. (ok r.stdout, w)
