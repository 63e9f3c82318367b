-- ===== src/Engineering/Promotion.antt =====
-- integrations/software_engineering_promotion.py: one kept work product is committed, pushed and
-- published as a pull request.
pub mod Guarded
pub mod Trusted
pub mod Once
use Prim.Native.String.{◌++◌}
use text.Mathlib.Text.{starts_with}
use velox_server.Prelude.{
  ℕ, String, Bool, true, false, Option, none, some, or_else, is_none, not, ◌&&◌, ◌||◌, ◌==◌,
  string_eq, nat_eq, option_eq, List, [], ◌∷◌, any, if◌then◌else◌,
}
use velox_server.Prelude.Result.{Result, ok, err, raise_if, ◌>>=◌, ◌>>◌, Step, continue}
use velox_server.Prelude.Text.{strip, is_blank}
use velox_server.Prelude.Text.Lines.{splitlines, first_word}
use velox_server.Actions.{Uuid, Instant}
use velox_server.Runs.{WorkProductDisposition, keep, RunState, RunError, PromotionRecord}
use velox_server.Engineering.{RunRepository, is_canonical_state, WorkProductReview}
use velox_server.Engineering.Control.{is_keep}
use velox_server.Engineering.Workspace.{
  ProcessResult, Host, IsolatedWorktree, Workspace, WorkspaceError, process_failed, run_git,
  validate, expected_worktree, status,
}
use velox_server.Engineering.Publication.{
  PromotionError, Publication, Publisher, Reviewer, Settings, PromotionResult, raising, instead,
  published, git, is_clean, not_found, bad_route, not_successful, not_kept, disabled, unavailable,
  incomplete, identity_mismatch, unverifiable, canonical_changed, wrong_branch, canonical_dirty,
  bad_remote, bad_base, remote_moved, git_failed, unexpected_history, not_direct, no_trailer,
  branch_moved, worktree_dirty, mixed_changes, nothing_to_promote, not_staged, no_staged_diff,
  commit_failed, changed_before_push, push_failed, remote_unverified, publication_failed,
  foreign_pull_request, workspace_raised, repository_raised,
}
use velox_server.Engineering.WorkCommit.{
  trailer, verify_commit, create_commit, create_or_recover_commit, is_option, commit_work_product,
}
use velox_server.Engineering.WorkProduct.{IdentityError}

is_true : Option Bool → Bool
is_true (some true) = true
is_true _ = false

-- The test of an execution that succeeded, and of a work product that was kept.
unfoldable pub is_successful : RunState → Bool
is_successful s = s.execution_status == some "succeeded" && not (is_none s.execution_finished_at)

unfoldable pub is_kept : RunState → Bool
unfolding is_keep is_true
is_kept s =
    is_keep s.disposition
    && is_true s.disposition_succeeded
    && is_true s.worktree_present
    && is_true s.branch_present
    && is_true s.canonical_unchanged

-- _verify_action, of what `get` found
unfoldable pub verify_action : Option RunState → Result PromotionError RunState
unfolding is_canonical_state is_successful is_kept
verify_action none = err not_found
verify_action (some s) = do
  raise_if (not (is_canonical_state s)) bad_route
  raise_if (not (is_successful s)) not_successful
  raise_if (not (is_kept s)) not_kept
  ok s

-- `any(value is not None …)` and `all(value is not None …)` of the promotion values.
unfoldable pub promotion_begun : RunState → Bool
promotion_begun s =
    not (is_none s.promotion_commit_sha)
    || not (is_none s.pull_request_number)
    || not (is_none s.pull_request_url)
    || not (is_none s.promotion_base_branch)
    || not (is_none s.promotion_head_branch)
    || not (is_none s.promotion_finished_at)

unfoldable pub promotion_complete : RunState → Bool
promotion_complete s =
    not (is_none s.promotion_commit_sha)
    && not (is_none s.pull_request_number)
    && not (is_none s.pull_request_url)
    && not (is_none s.promotion_base_branch)
    && not (is_none s.promotion_head_branch)
    && not (is_none s.promotion_finished_at)

-- The answer for a run that has been promoted.
unfoldable pub recorded_result : Uuid → RunState → PromotionResult
recorded_result i s = record {
  action_id = i;
  commit_sha = or_else s.promotion_commit_sha "";
  pull_request_number = or_else s.pull_request_number 0;
  pull_request_url = or_else s.pull_request_url "";
  base_branch = or_else s.promotion_base_branch "";
  head_branch = or_else s.promotion_head_branch "";
  pull_request_created = false;
}

unfoldable pub recorded_promotion :
    String → String → Uuid → RunState → Result PromotionError PromotionResult
unfolding promotion_complete recorded_result
recorded_promotion base_branch branch i s = do
  raise_if (not (promotion_complete s)) incomplete
  raise_if
      (not (s.promotion_base_branch == some base_branch)
        || not (s.promotion_head_branch == some branch))
      identity_mismatch
  ok (recorded_result i s)

module _ {W : Type 0} (host : Host W) (uuid_text : Uuid → String) (settings : Settings W)
    (workspace : Workspace) where
  -- The push by `promote`, and the proof that the remote branch is the commit.
  unfoldable pub push_commit : String → String → String → String → Step W PromotionError (Unit {0})
  unfolding git is_clean run_git process_failed raising first_word
  push_commit root canonical_head commit_sha branch w =
      continue (git host uuid_text workspace ("rev-parse" ∷ "HEAD" ∷ []) root w) λ head w.
        continue (raise_if (not (head == canonical_head)) changed_before_push, w)
          λ _ w. continue (is_clean host uuid_text workspace root w) λ clean w.
            continue (raise_if (not clean) changed_before_push, w)
              λ _ w.
                continue
                  (raising (
                    run_git host uuid_text workspace
                      ("push"
                        ∷ "--porcelain"
                        ∷ settings.remote
                        ∷ ("refs/heads/" ++ branch ++ ":refs/heads/" ++ branch)
                        ∷ [])
                      root w))
                  λ pushed w.
                    continue (raise_if (process_failed pushed) push_failed, w)
                      λ _ w.
                        continue
                          (git host uuid_text workspace
                            ("ls-remote"
                              ∷ "--heads"
                              ∷ settings.remote
                              ∷ ("refs/heads/" ++ branch)
                              ∷ [])
                            root w)
                          λ remote_head w. (
                            raise_if (not (first_word remote_head == some commit_sha))
                                remote_unverified,
                            w,
                          )

  -- The identity test on a publication.
  unfoldable pub check_publication : String → Publication → Result PromotionError Publication
  check_publication branch p = do
    raise_if (not (p.base_branch == settings.base_branch) || not (p.head_branch == branch))
        foreign_pull_request
    ok p

  -- The push and the publication by `promote`, after the commit.
  unfoldable pub publish_commit :
      Publisher W
      → String
      → String
      → String
      → String
      → String
      → String
      → Step W PromotionError Publication
  unfolding push_commit published check_publication
  publish_commit publish root canonical_head commit_sha branch title body w =
      continue (push_commit root canonical_head commit_sha branch w) λ _ w.
        continue (published (publish root settings.base_branch branch title body w))
          λ p w. (check_publication branch p, w)

  -- The record and the answer of a publication.
  unfoldable pub record_of : Uuid → String → Publication → Instant → PromotionRecord
  record_of i commit_sha p now = record {
    action_id = i;
    commit_sha = commit_sha;
    pull_request_number = p.number;
    pull_request_url = p.url;
    base_branch = p.base_branch;
    head_branch = p.head_branch;
    finished_at = now;
  }

  unfoldable pub result_of : Uuid → String → Publication → PromotionResult
  result_of i commit_sha p = record {
    action_id = i;
    commit_sha = commit_sha;
    pull_request_number = p.number;
    pull_request_url = p.url;
    base_branch = p.base_branch;
    head_branch = p.head_branch;
    pull_request_created = p.created;
  }

  -- Commit, push and publication, up to the record.
  unfoldable pub publish_work_product :
      Reviewer W
      → Publisher W
      → Uuid
      → String
      → String
      → Step W PromotionError (String × Publication)
  unfolding commit_work_product publish_commit expected_worktree
  publish_work_product review publish i title body w =
      continue (commit_work_product host uuid_text settings workspace review i w) λ c w.
        continue
          (publish_commit publish c.0 c.1.0 c.1.1
            (expected_worktree host uuid_text workspace i).branch title body w)
          λ p w. (ok (c.1.1, p), w)

-- The workspace, the work products and the publisher, where all three are configured.
unfoldable pub configured :
    {W : Type 0} → Settings W → Result PromotionError (Workspace × (Reviewer W × Publisher W))
configured settings = elim settings.workspace [
  | none ↦ err unavailable
  | some workspace ↦ elim settings.work_products [
    | none ↦ err unavailable
    | some review ↦ elim settings.publisher [
      | none ↦ err unavailable
      | some publish ↦ ok (workspace, (review, publish))
    ]
  ]
]

module _ {S W : Type 0} (host : Host W) (uuid_text : Uuid → String) (repository : RunRepository S)
    (settings : Settings W) where
  unfoldable pub reported : {A : Type 0} → Result RunError A × S → Result PromotionError A × S
  reported (ok a, store) = (ok a, store)
  reported (err e, store) = (err (repository_raised e), store)

  -- The record of a publication, the last thing that `promote` does.
  unfoldable pub record_publication :
      Workspace
      → Uuid
      → Instant
      → Result PromotionError (String × Publication) × W
      → S
      → Result PromotionError PromotionResult × (S × W)
  unfolding reported record_of result_of
  record_publication workspace i now (err e, w) store = (err e, (store, w))
  record_publication workspace i now (ok (commit_sha, p), w) store =
      let (answer, store') = reported (
        repository.record_promotion (record_of host uuid_text settings workspace i commit_sha p now)
          now store) in
      (answer >> ok (result_of host uuid_text settings workspace i commit_sha p), (store', w))

  -- promote, of a run that may be promoted
  unfoldable pub promote_run :
      Workspace
      → Reviewer W
      → Publisher W
      → Uuid
      → String
      → String
      → Instant
      → RunState
      → Step (S × W) PromotionError PromotionResult
  unfolding promotion_begun recorded_promotion publish_work_product record_publication
  promote_run workspace review publish i title body now s (store, w) =
      if promotion_begun s
      then (
        recorded_promotion settings.base_branch
            (expected_worktree host uuid_text workspace i).branch i s,
        (store, w),
      )
      else record_publication workspace i now
          (publish_work_product host uuid_text settings workspace review publish i title body w)
          store

  -- promote
  unfoldable pub promote :
      Uuid → String → String → Instant → Step (S × W) PromotionError PromotionResult
  unfolding verify_action configured promote_run reported
  promote i title body now (store, w) =
      continue (raise_if (not settings.enabled) disabled, (store, w))
        λ _ x.
          continue ((reported (repository.get i store, store)).0 >>= verify_action, (store, w))
            λ s x.
              continue (configured settings, (store, w))
                λ c x. promote_run c.0 c.1.0 c.1.1 i title body now s (store, w)
