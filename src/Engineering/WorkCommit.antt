-- ===== src/Engineering/WorkCommit.antt =====
-- integrations/software_engineering_promotion.py: the commit of a kept work product, up to the push.
use Prim.Native.String.{◌++◌}
use text.Mathlib.Text.{starts_with}
use velox_server.Prelude.{
  String, Bool, some, not, ◌||◌, ◌==◌, string_eq, nat_eq, option_eq, [], ◌∷◌, any, if◌then◌else◌,
}
use velox_server.Prelude.Result.{ok, raise_if, Step, continue}
use velox_server.Prelude.Text.{strip}
use velox_server.Prelude.Text.Lines.{splitlines, first_word}
use velox_server.Actions.{Uuid}
use velox_server.Engineering.Workspace.{
  Host, Workspace, process_failed, run_git, validate, expected_worktree,
}
use velox_server.Engineering.Publication.{
  PromotionError, Reviewer, Settings, raising, instead, git, is_clean, unverifiable,
  canonical_changed, wrong_branch, canonical_dirty, bad_remote, bad_base, remote_moved,
  unexpected_history, not_direct, no_trailer, branch_moved, worktree_dirty, mixed_changes,
  nothing_to_promote, not_staged, no_staged_diff, commit_failed,
}

module _ {W : Type 0} (host : Host W) (uuid_text : Uuid → String) (settings : Settings W)
    (workspace : Workspace) where
  unfoldable pub trailer : Uuid → String
  trailer i = "VELOX-Action: " ++ uuid_text i

  -- _verify_commit
  unfoldable pub verify_commit :
      Uuid → String → String → String → String → String → Step W PromotionError (Unit {0})
  unfolding git is_clean trailer splitlines
  verify_commit i root worktree_path branch canonical_head commit_sha w =
      continue
        (git host uuid_text workspace
          ("rev-list" ∷ "--count" ∷ (canonical_head ++ ".." ++ commit_sha) ∷ []) root w)
        λ count w.
          continue (raise_if (not (count == "1")) unexpected_history, w)
            λ _ w.
              continue
                (git host uuid_text workspace ("rev-parse" ∷ (commit_sha ++ "^") ∷ []) root w)
                λ parent w.
                  continue (raise_if (not (parent == canonical_head)) not_direct, w)
                    λ _ w.
                      continue
                        (git host uuid_text workspace
                          ("show" ∷ "-s" ∷ "--format=%B" ∷ commit_sha ∷ []) root w)
                        λ message w.
                          continue
                            (
                              raise_if
                                  (not (any (λ line. strip line == trailer i) (splitlines message)))
                                  no_trailer,
                              w,
                            )
                            λ _ w.
                              continue
                                (git host uuid_text workspace ("rev-parse" ∷ branch ∷ []) root w)
                                λ head w.
                                  continue (raise_if (not (head == commit_sha)) branch_moved, w)
                                    λ _ w.
                                      continue (is_clean host uuid_text workspace worktree_path w)
                                        λ clean w. (raise_if (not clean) worktree_dirty, w)

  -- The commit of the worktree's changes, by `_create_or_recover_commit`.
  unfoldable pub create_commit : Uuid → String → Step W PromotionError String
  unfolding run_git process_failed raising git trailer
  create_commit i worktree_path w =
      continue (raising (run_git host uuid_text workspace ("add" ∷ "--all" ∷ []) worktree_path w))
        λ added w.
          continue (raise_if (process_failed added) not_staged, w)
            λ _ w.
              continue
                (raising (
                  run_git host uuid_text workspace ("diff" ∷ "--cached" ∷ "--quiet" ∷ [])
                    worktree_path w))
                λ staged w.
                  continue
                    (
                      raise_if
                          (staged.timed_out
                            || not (staged.returncode == some 0 || staged.returncode == some 1))
                          no_staged_diff,
                      w,
                    )
                    λ _ w.
                      continue (raise_if (staged.returncode == some 0) nothing_to_promote, w)
                        λ _ w.
                          continue
                            (raising (
                              run_git host uuid_text workspace
                                ("-c"
                                  ∷ ("user.name=" ++ settings.author_name)
                                  ∷ "-c"
                                  ∷ ("user.email=" ++ settings.author_email)
                                  ∷ "commit"
                                  ∷ "--no-verify"
                                  ∷ "-m"
                                  ∷ ("VELOX: promote software engineering action " ++ uuid_text i)
                                  ∷ "-m"
                                  ∷ trailer i
                                  ∷ [])
                                worktree_path w))
                            λ committed w.
                              continue (raise_if (process_failed committed) commit_failed, w)
                                λ _ w.
                                  git host uuid_text workspace ("rev-parse" ∷ "HEAD" ∷ [])
                                    worktree_path w

  -- _create_or_recover_commit
  unfoldable pub create_or_recover_commit :
      Uuid → String → String → String → String → Bool → Step W PromotionError String
  unfolding git verify_commit create_commit
  create_or_recover_commit i root worktree_path branch canonical_head dirty w =
      continue (git host uuid_text workspace ("rev-parse" ∷ "HEAD" ∷ []) worktree_path w) λ head w.
        if not (head == canonical_head)
        then (continue (raise_if dirty mixed_changes, w)
            λ _ w.
              continue (verify_commit i root worktree_path branch canonical_head head w)
                λ _ w. (ok head, w))
        else (continue (raise_if (not dirty) nothing_to_promote, w)
            λ _ w. continue (create_commit i worktree_path w) λ commit_sha w.
              continue (verify_commit i root worktree_path branch canonical_head commit_sha w)
                λ _ w. (ok commit_sha, w))

  -- A configured name that git would take for an option, or an empty one.
  unfoldable pub is_option : String → Bool
  is_option name = name == "" || starts_with name "-"

  -- The checks of `promote` on the canonical checkout and its remote, up to the commit: the
  -- canonical head and the commit.
  unfoldable pub commit_work_product :
      Reviewer W → Uuid → Step W PromotionError (String × (String × String))
  unfolding validate instead expected_worktree git is_clean is_option first_word
      create_or_recover_commit
  commit_work_product review i w =
      let expected = expected_worktree host uuid_text workspace i in
      continue (instead unverifiable (validate host uuid_text workspace w)) λ root w.
        continue (instead unverifiable (review i w)) λ reviewed w.
          continue
            (
              raise_if (not reviewed.canonical_clean || not reviewed.canonical_unchanged)
                  canonical_changed,
              w,
            )
            λ _ w.
              continue
                (git host uuid_text workspace ("symbolic-ref" ∷ "--quiet" ∷ "--short" ∷ "HEAD" ∷ [])
                  root w)
                λ current w.
                  continue (raise_if (not (current == settings.base_branch)) wrong_branch, w)
                    λ _ w. continue (is_clean host uuid_text workspace root w) λ clean w.
                      continue (raise_if (not clean) canonical_dirty, w)
                        λ _ w.
                          continue (raise_if (is_option settings.remote) bad_remote, w)
                            λ _ w.
                              continue (raise_if (is_option settings.base_branch) bad_base, w)
                                λ _ w.
                                  continue
                                    (git host uuid_text workspace
                                      ("remote" ∷ "get-url" ∷ settings.remote ∷ []) root w)
                                    λ _ w.
                                      continue
                                        (git host uuid_text workspace ("rev-parse" ∷ "HEAD" ∷ [])
                                          root w)
                                        λ canonical_head w.
                                          continue
                                            (git host uuid_text workspace
                                              ("ls-remote"
                                                ∷ "--heads"
                                                ∷ settings.remote
                                                ∷ ("refs/heads/" ++ settings.base_branch)
                                                ∷ [])
                                              root w)
                                            λ remote_base w.
                                              continue
                                                (
                                                  raise_if
                                                      (not (
                                                        first_word remote_base
                                                        == some canonical_head))
                                                      remote_moved,
                                                  w,
                                                )
                                                λ _ w.
                                                  continue
                                                    (create_or_recover_commit i root expected.path
                                                      expected.branch canonical_head reviewed.dirty
                                                      w)
                                                    λ commit_sha w.
                                                      (ok (root, (canonical_head, commit_sha)), w)
