-- ===== src/Runs/Table/Schema/Opens.antt =====
-- A database of any known version is opened with all columns of the current one.
use velox_server.Prelude.{
  ℕ, ◌≤◌, if◌then◌else◌, String, true, Option, none, some, List, [], ◌++◌, keep, All, ◌≡◌, or_else,
  not, ◌==◌, nat_eq,
}
use velox_server.Prelude.Result.{ok}
use velox_server.Runs.Table.Schema.{
  Database, schema_version, v3_columns, v2_additions, v3_additions, has, open_database,
}

-- The columns are all there.
abbrev pub Has : List String → List String → Type 0
Has columns names = All (λ name. has columns name ≡ true) names

-- The columns of the table are those before the migration and, at the end, the missing ones.
unfoldable pub missing : List String → List String → List String
missing columns names = keep (λ n. not (has columns n)) names

-- What a version's table must have. Also a migration that was interrupted leaves such a table, since
-- it records the version at its end.
abbrev pub v1_columns : List String
v1_columns = missing (v2_additions ++ v3_additions) v3_columns

abbrev pub v2_columns : List String
v2_columns = missing v3_additions v3_columns

abbrev pub needed : ℕ → List String
needed version =
    if version == 1 then v1_columns else if version == 2 then v2_columns else v3_columns

-- A new database, one with a table of a known version, or one whose table is missing at version 3.
abbrev pub IsKnown : Option ℕ → Option (List String) → Type 0
IsKnown none none = Unit
IsKnown none (some columns) = Has columns v3_columns
IsKnown (some version) none = version ≡ schema_version
IsKnown (some version) (some columns) =
    (1 ≤ version) × (version ≤ schema_version) × Has columns (needed version)

abbrev migrated : List String → List String → List String
migrated columns names = columns ++ missing columns names

-- What opening comes to: the current version, with all its columns. The columns that were there are
-- the first ones, in their order, and opening the database again changes nothing.
abbrev pub Opened : Database → Type 0
Opened db =
    (columns : List String) × (added : List String) × (open_database true db
      ≡ (ok tt, record { version = some schema_version; columns = some columns }))
    × Has columns v3_columns
    × (columns ≡ or_else db.columns [] ++ added)
    × (open_database true (record { version = some schema_version; columns = some columns })
        ≡ (ok tt, record { version = some schema_version; columns = some columns }))
