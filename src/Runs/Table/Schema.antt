-- ===== src/Runs/Table/Schema.antt =====
-- `SqliteSoftwareEngineeringRunRepository.__init__`: the schema is created, or brought to the current
-- version. Of the database, the recorded version and the columns of the table are modelled.
pub mod Opens
use velox_server.Prelude.{
  ℕ, String, Bool, Option, none, some, List, [], ◌∷◌, ◌++◌, any, not, ◌==◌, nat_eq, string_eq,
  if◌then◌else◌,
}
use velox_server.Prelude.Result.{Result, ok, err, Step, continue}

-- The row of velox_schema, and the columns of software_engineering_runs; none is a missing one.
pub record Database : Type 0 where
  pub version : Option ℕ
  pub columns : Option (List String)

-- SoftwareEngineeringRunStateError by its message
pub data SchemaError : Type 0 where
  relative_path unsupported_version unavailable : SchemaError

-- _SCHEMA_VERSION
abbrev pub schema_version : ℕ
schema_version = 3

-- The columns that CREATE TABLE names.
abbrev pub v3_columns : List String
v3_columns =
    "action_id" ∷ "executor_role" ∷ "capability" ∷ "target" ∷ "delegation_status"
    ∷ "pending_objective" ∷ "approval_status" ∷ "approved_at" ∷ "rejected_at" ∷ "claim_id"
    ∷ "claimed_at" ∷ "execution_started_at" ∷ "claim_resolution" ∷ "claim_reconciled_at"
    ∷ "execution_status" ∷ "execution_finished_at" ∷ "external_execution_performed" ∷ "disposition"
    ∷ "disposition_succeeded" ∷ "worktree_present" ∷ "branch_present" ∷ "canonical_unchanged"
    ∷ "promotion_commit_sha" ∷ "pull_request_number" ∷ "pull_request_url" ∷ "promotion_base_branch"
    ∷ "promotion_head_branch" ∷ "promotion_finished_at" ∷ "created_at" ∷ "updated_at" ∷ []

-- The `additions` of the two migrations.
abbrev pub v2_additions : List String
v2_additions =
    "pending_objective" ∷ "approval_status" ∷ "approved_at" ∷ "rejected_at" ∷ "claim_id"
    ∷ "claimed_at" ∷ "execution_started_at" ∷ []

abbrev pub v3_additions : List String
v3_additions = "claim_resolution" ∷ "claim_reconciled_at" ∷ []

-- `name in columns`
unfoldable pub has : List String → String → Bool
has columns name = any (λ c. name == c) columns

-- The loop over the additions: ALTER TABLE ADD COLUMN for each name that was not there before it.
unfoldable pub add_missing : List String → List String → List String → List String
add_missing known [] columns = columns
add_missing known (name ∷ names) columns =
    add_missing known names (if has known name then columns else columns ++ name ∷ [])

-- _migrate_v1_to_v2 and _migrate_v2_to_v3 by their additions. Without the table there is no column
-- to be found, and the first ALTER TABLE is an error.
unfoldable pub migrate : List String → Step Database SchemaError (Unit {0})
migrate additions db = elim db.columns [
  | none ↦ (err unavailable, db)
  | some columns ↦ (ok tt, record db { columns = some (add_missing columns additions columns) })
]

-- _create_v3_table: CREATE TABLE IF NOT EXISTS
unfoldable pub create_v3_table : Database → Database
create_v3_table db = elim db.columns [
  | none ↦ record db { columns = some v3_columns }
  | some columns ↦ db
]

unfoldable pub set_version : Database → Result SchemaError (Unit {0}) × Database
set_version db = (ok tt, record db { version = some schema_version })

-- The schema of a database whose version is recorded, or that is new.
unfoldable pub bring_up : Option ℕ → Step Database SchemaError (Unit {0})
unfolding create_v3_table set_version
bring_up none db = set_version (create_v3_table db)
bring_up (some version) db =
    if version == 1
    then (continue (migrate v2_additions db)
        λ _ db. continue (migrate v3_additions db) λ _ db. set_version db)
    else if version == 2
    then (continue (migrate v3_additions db) λ _ db. set_version db)
    else if version == schema_version
    then (ok tt, create_v3_table db)
    else (err unsupported_version, db)

-- __init__, of a path that is absolute or not
unfoldable pub open_database : Bool → Step Database SchemaError (Unit {0})
unfolding bring_up
open_database is_absolute db =
    if not is_absolute then (err relative_path, db) else bring_up db.version db
