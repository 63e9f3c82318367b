-- ===== src/Examples/Schema.antt =====
-- A database of the first version whose migration broke off after one column.
use velox_server.Prelude.{some, [], ◌∷◌}
use velox_server.Runs.Table.Schema.{Database}

abbrev broken_off : Database
broken_off = record {
  version = some 1;
  columns = some (
      "action_id" ∷ "executor_role" ∷ "capability" ∷ "target" ∷ "delegation_status"
      ∷ "execution_status" ∷ "execution_finished_at" ∷ "external_execution_performed"
      ∷ "disposition" ∷ "disposition_succeeded" ∷ "worktree_present" ∷ "branch_present"
      ∷ "canonical_unchanged" ∷ "promotion_commit_sha" ∷ "pull_request_number" ∷ "pull_request_url"
      ∷ "promotion_base_branch" ∷ "promotion_head_branch" ∷ "promotion_finished_at" ∷ "created_at"
      ∷ "updated_at" ∷ "pending_objective" ∷ []);
}
