-- ===== src/Engineering/Publication.antt =====
-- integrations/software_engineering_promotion.py and pull_request.py: what a promotion takes, answers
-- and raises, and its calls of git.
use velox_server.Prelude.{ℕ, String, Bool, Option, none, some, string_eq, nat_eq, option_eq, List}
use velox_server.Prelude.Result.{Result, ok, err, raise_if, Step, continue}
use velox_server.Prelude.Text.{strip, is_blank}
use velox_server.Actions.{Uuid}
use velox_server.Runs.{RunError}
use velox_server.Engineering.{WorkProductReview}
use velox_server.Engineering.Workspace.{
  Host, Workspace, WorkspaceError, process_failed, run_git, status,
}
use velox_server.Engineering.WorkProduct.{IdentityError}

-- The three exceptions of the module by their messages; the last three are exceptions of the
-- repository, the workspace and the publisher's caller that `promote` lets through.
pub data PromotionError : Type 0 where
  not_found bad_route not_successful not_kept disabled unavailable incomplete : PromotionError
  identity_mismatch unverifiable canonical_changed wrong_branch canonical_dirty : PromotionError
  bad_remote bad_base remote_moved git_failed unexpected_history not_direct no_trailer :
      PromotionError
  branch_moved worktree_dirty mixed_changes nothing_to_promote not_staged no_staged_diff :
      PromotionError
  commit_failed changed_before_push push_failed remote_unverified publication_failed :
      PromotionError
  foreign_pull_request : PromotionError
  workspace_raised : WorkspaceError → PromotionError
  repository_raised : RunError → PromotionError

-- PullRequestPublication
pub record Publication : Type 0 where
  pub number : ℕ
  pub url : String
  pub base_branch : String
  pub head_branch : String
  pub created : Bool

-- `publish root base head title body`: `none` is PullRequestPublicationError.
abbrev pub Publisher : Type 0 → Type 0
Publisher W = String → String → String → String → String → W → Option Publication × W

-- `review` of the work-product service.
abbrev pub Reviewer : Type 0 → Type 0
Reviewer W = Uuid → Step W IdentityError WorkProductReview

-- The configuration of SoftwareEngineeringPromotionService, less its repository.
pub record Settings (W : Type 0) : Type 0 where
  pub workspace : Option Workspace
  pub work_products : Option (Reviewer W)
  pub publisher : Option (Publisher W)
  pub enabled : Bool
  pub remote : String
  pub base_branch : String
  pub author_name : String
  pub author_email : String

-- SoftwareEngineeringPromotionResult
pub record PromotionResult : Type 0 where
  pub action_id : Uuid
  pub commit_sha : String
  pub pull_request_number : ℕ
  pub pull_request_url : String
  pub base_branch : String
  pub head_branch : String
  pub pull_request_created : Bool

unfoldable pub raising : {A W : Type 0} → Result WorkspaceError A × W → Result PromotionError A × W
raising (ok a, w) = (ok a, w)
raising (err e, w) = (err (workspace_raised e), w)

unfoldable pub instead :
    {A E W : Type 0} → PromotionError → Result E A × W → Result PromotionError A × W
instead e (ok a, w) = (ok a, w)
instead e (err _, w) = (err e, w)

unfoldable pub published :
    {W : Type 0} → Option Publication × W → Result PromotionError Publication × W
published (none, w) = (err publication_failed, w)
published (some p, w) = (ok p, w)

module _ {W : Type 0} (host : Host W) (uuid_text : Uuid → String) (workspace : Workspace) where
  -- _git
  unfoldable pub git : List String → String → Step W PromotionError String
  unfolding run_git process_failed raising
  git arguments cwd w =
      continue (raising (run_git host uuid_text workspace arguments cwd w))
        λ r w. continue (raise_if (process_failed r) git_failed, w) λ _ w. (ok (strip r.stdout), w)

  -- Whether `status` of a checkout is empty.
  unfoldable pub is_clean : String → Step W PromotionError Bool
  unfolding status raising is_blank
  is_clean path w =
      continue (raising (status host uuid_text workspace path w))
        λ porcelain w. (ok (is_blank porcelain), w)
