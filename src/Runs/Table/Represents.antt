-- ===== src/Runs/Table/Represents.antt =====
-- A table that stands for a store of run states.
use velox_server.Prelude.{
  Bool, true, false, Option, none, some, option_map, ◌==◌, string_eq, nat_eq, option_eq, ◌≡◌, refl,
  ap, ◌∙◌, arith, if◌then◌else◌,
}
use velox_server.Prelude.Result.{Result, ok, err, ◌>>=◌}
use velox_server.Prelude.Dict
use velox_server.Actions.{Uuid}
use velox_server.Runs.{RunState, RunError, run_missing}
use velox_server.Runs.Memory.{Runs}
use velox_server.Runs.Table.{Codec, Table, state_from_row}
use velox_server.Runs.Table.Rows.{row_of, state_from_row-row_of}
use velox_server.Runs.Table.Statements.{Assignments, assign, update, update_where, one_row}
use velox_server.Runs.Table.Operations.{find, present, require}

module _ (codec : Codec) where
  uuid_text_injective : (i j : Uuid) → codec.uuid_text i ≡ codec.uuid_text j → i ≡ j
  uuid_text_injective i j h =
      ground
        (arith, codec.parse_uuid-uuid_text i, codec.parse_uuid-uuid_text j, ap codec.parse_uuid h)

  pub same_uuid : (i j : Uuid) → (codec.uuid_text i == codec.uuid_text j) ≡ (i == j)
  same_uuid i j = ground (
    arith,
    uuid_text_injective i j,
    ap codec.uuid_text,
    string_eq.eqb_iff (codec.uuid_text i) (codec.uuid_text j),
  )

  -- The table has a row for exactly the known runs, and it is the row of the run.
  unfoldable pub Represents : Table → Runs → Type 0
  Represents t m =
      (i : Uuid) → Dict.get t (codec.uuid_text i) ≡ option_map (row_of codec) (Dict.get m i)

  pub put-Represents :
      (t : Table) (m : Runs) (i : Uuid) (s : RunState)
      → Represents t m
      → Represents (Dict.put t (codec.uuid_text i) (row_of codec s)) (Dict.put m i s)
  unfolding Represents
  put-Represents t m i s h j =
      Dict.get-put t (codec.uuid_text i) (codec.uuid_text j) (row_of codec s)
      ∙ rw (same_uuid i j, Dict.get-put m i j s, h j) (chosen (i == j))
    where
      chosen :
          (b : Bool)
          → (if b then some (row_of codec s) else option_map (row_of codec) (Dict.get m j))
            ≡ option_map (row_of codec) (if b then some s else Dict.get m j)
      chosen true = refl
      chosen false = refl

  pub find_lem :
      (t : Table) (m : Runs) (i : Uuid) → Represents t m → find codec i t ≡ ok (Dict.get m i)
  unfolding find Represents
  find_lem t m i h = rw (h i, find) (found (Dict.get m i))
    where
      found :
          (o : Option RunState)
          → elim (option_map (row_of codec) o) [
            | none ↦ ok none
            | some row ↦ state_from_row codec row >>= λ s. ok (some s)
          ]
            ≡ ok o
      found none = refl
      found (some s) = rw (state_from_row-row_of codec s) refl

  pub require_lem :
      (t : Table) (m : Runs) (i : Uuid)
      → Represents t m
      → require codec i t ≡ elim (Dict.get m i) [ none ↦ err run_missing | some s ↦ ok s ]
  unfolding require present
  require_lem t m i h = rw (find_lem t m i h, require) (found (Dict.get m i))
    where
      found :
          (o : Option RunState)
          → (ok o >>= present codec) ≡ elim o [ none ↦ err run_missing | some s ↦ ok s ]
      found none = refl
      found (some s) = refl

  -- The answers are the same and the table stands for the store after them.
  abbrev pub Refines : {A : Type 0} → Result RunError A × Table → Result RunError A × Runs → Type 0
  Refines x y = (x.0 ≡ y.0) × Represents x.1 y.1

  pub update_lem :
      (t : Table) (m : Runs) (i : Uuid) (a : Assignments) (s s' : RunState)
      → Represents t m
      → Dict.get m i ≡ some s
      → assign codec a (row_of codec s) ≡ row_of codec s'
      → update codec i a t ≡ (ok tt, Dict.put t (codec.uuid_text i) (row_of codec s'))
  unfolding update one_row Represents
  update_lem t m i a s s' h p q =
      rw (h i ∙ ap (option_map (row_of codec)) p, update, update_where) (rw q refl)

  pub require-put :
      (t : Table) (m : Runs) (i : Uuid) (s : RunState)
      → Represents t m
      → require codec i (Dict.put t (codec.uuid_text i) (row_of codec s)) ≡ ok s
  require-put t m i s h =
      require_lem (Dict.put t (codec.uuid_text i) (row_of codec s)) (Dict.put m i s) i
        (put-Represents t m i s h)
      ∙ rw (Dict.get-put_self m i s) refl
