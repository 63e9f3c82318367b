-- ===== src/Runs/Table/Claims.antt =====
-- Exclusive claims. Processes share the database, and SQLite runs their statements one after
-- the other in some order: a schedule. Between the check of an operation and its UPDATE the
-- statements of others may come, so an assignment is a statement of its own here.
pub mod Exclusive
use velox_server.Prelude.{
  ℕ, String, Bool, true, false, Option, none, some, is_none, ◌==◌, string_eq, nat_eq, List, [], ◌∷◌,
  ◌+◌, ◌≤◌, ◌&&◌, ◌≡◌, refl, sym, ap, ◌∙◌, ◌⊎◌, inl, inr, arith, if◌then◌else◌, Bool-cases, subst,
}
use velox_server.Prelude.Result.{Result, ok, err}
use velox_server.Prelude.Dict
use velox_server.Actions.{Uuid, Instant}
use velox_server.Runs.{
  ActionClaim, RunState, RunError, Registration, claim_not_released, claim_not_abandoned,
  run_missing,
}
use velox_server.Runs.Table.{Codec, Row, Table, state_from_row}
use velox_server.Runs.Table.Statements
use velox_server.Runs.Table.Statements.{
  Assignments, registering, approving, rejecting, starting, executing, disposing, promoting, assign,
  update_where, one_row, update, new_row, insert, check_claim, commit, claim_row, claim_approved,
  is_claimable, set_claimed, is_releasable, set_released, is_abandonable, set_abandoned,
}
use velox_server.Runs.Table.Represents.{same_uuid}

-- The statements by which any process changes the table.
pub data Statement : Type 0 where
  insert_run : Registration → Option String → Instant → Statement
  assign_run : Uuid → Assignments → Statement
  claim_run : Uuid → Uuid → Instant → Statement
  release_run : Uuid → Instant → Instant → Statement
  abandon_run : Uuid → Instant → Instant → Statement

abbrev pub succeeded : {A : Type 0} → Result RunError A → ℕ
succeeded (ok a) = 1
succeeded (err e) = 0

-- Whether an INSERT succeeded, as 1 or 0, and the table after it.
unfoldable pub inserted : Table → Option Table → ℕ × Table
inserted t none = (0, t)
inserted t (some t') = (1, t')

abbrev pub row_held : Option Row → ℕ
row_held none = 0
row_held (some row) = if is_none row.claim_id then 0 else 1

module _ (codec : Codec) where
  -- Whether the statement succeeded, as 1 or 0, and the table after it.
  unfoldable pub execute_statement : Statement → Table → ℕ × Table
  unfolding insert update claim_approved Statements.release Statements.abandon inserted
  execute_statement (insert_run r objective now) t = inserted t (insert codec r objective now t)
  execute_statement (assign_run i a) t = let x = update codec i a t in (succeeded x.0, x.1)
  execute_statement (claim_run i claim_id now) t =
      let x = claim_approved codec i claim_id now t in (succeeded x.0, x.1)
  execute_statement (release_run i expected at) t =
      let x = Statements.release codec i expected at t in (succeeded x.0, x.1)
  execute_statement (abandon_run i expected at) t =
      let x = Statements.abandon codec i expected at t in (succeeded x.0, x.1)

  unfoldable pub execute_schedule : List Statement → Table → Table
  unfolding execute_statement
  execute_schedule [] t = t
  execute_schedule (x ∷ xs) t = execute_schedule xs (execute_statement x t).1

  -- The successful claims of an action among the statements, and its successful releases.
  unfoldable pub claims_of : Uuid → Statement → Table → ℕ
  unfolding execute_statement
  claims_of i (claim_run j claim_id now) t =
      if j == i then (execute_statement (claim_run j claim_id now) t).0 else 0
  claims_of i _ t = 0

  unfoldable pub releases_of : Uuid → Statement → Table → ℕ
  unfolding execute_statement
  releases_of i (release_run j expected at) t =
      if j == i then (execute_statement (release_run j expected at) t).0 else 0
  releases_of i _ t = 0

  unfoldable pub count_claims : Uuid → List Statement → Table → ℕ
  unfolding claims_of execute_statement
  count_claims i [] t = 0
  count_claims i (x ∷ xs) t = claims_of i x t + count_claims i xs (execute_statement x t).1

  unfoldable pub count_releases : Uuid → List Statement → Table → ℕ
  unfolding releases_of execute_statement
  count_releases i [] t = 0
  count_releases i (x ∷ xs) t = releases_of i x t + count_releases i xs (execute_statement x t).1

  -- 1 where the action has a claim.
  unfoldable pub held : Uuid → Table → ℕ
  held i t = row_held (Dict.get t (codec.uuid_text i))
