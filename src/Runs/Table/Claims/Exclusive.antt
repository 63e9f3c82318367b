-- ===== src/Runs/Table/Claims/Exclusive.antt =====
-- However the statements of the processes interleave, an action has one claim at a time.
use velox_server.Prelude.{
  ℕ, String, Bool, true, false, Option, none, some, is_none, ◌==◌, string_eq, nat_eq, List, [], ◌∷◌,
  ◌+◌, ◌≤◌, ◌≡◌, refl, ap, ◌∙◌, ◌⊎◌, inl, inr, arith, if◌then◌else◌, Bool-cases, subst,
}
use velox_server.Prelude.Result.{Result, ok, err}
use velox_server.Prelude.Dict
use velox_server.Actions.{Uuid, Instant}
use velox_server.Runs.{ActionClaim, RunState, RunError, Registration, run_missing}
use velox_server.Runs.Table.{Codec, Row, Table, state_from_row}
use velox_server.Runs.Table.Statements
use velox_server.Runs.Table.Statements.{
  Assignments, registering, approving, rejecting, starting, executing, disposing, promoting, assign,
  update_where, one_row, update, new_row, insert, check_claim, commit, claim_row, claim_approved,
  is_claimable, set_claimed, is_releasable, set_released, is_abandonable, set_abandoned,
}
use velox_server.Runs.Table.Represents.{same_uuid}
use velox_server.Runs.Table.Claims.{
  Statement, insert_run, assign_run, claim_run, release_run, abandon_run, succeeded, inserted,
  execute_statement, execute_schedule, claims_of, releases_of, count_claims, count_releases,
  row_held, held,
}

module _ (codec : Codec) where
  held_put :
      (i j : Uuid) (t : Table) (row : Row)
      → held codec i (Dict.put t (codec.uuid_text j) row)
        ≡ (if j == i then row_held (some row) else held codec i t)
  unfolding held
  held_put i j t row =
      ap row_held (Dict.get-put t (codec.uuid_text j) (codec.uuid_text i) row)
      ∙ rw (same_uuid codec j i) (chosen (j == i))
    where
      chosen :
          (b : Bool)
          → row_held (if b then some row else Dict.get t (codec.uuid_text i))
            ≡ (if b then row_held (some row) else row_held (Dict.get t (codec.uuid_text i)))
      chosen true = refl
      chosen false = refl

  update_where_cases :
      (test : Row → Bool) (set : Row → Row) (j : Uuid) (t : Table)
      → (update_where codec test set j t ≡ (0, t))
        ⊎ ((row : Row) × ((Dict.get t (codec.uuid_text j) ≡ some row)
              × ((test row ≡ true)
                  × (update_where codec test set j t
                      ≡ (1, Dict.put t (codec.uuid_text j) (set row))))))
  unfolding update_where
  update_where_cases test set j t = by_row (Dict.get t (codec.uuid_text j)) refl
    where
      Goal : Type 0
      Goal =
          (update_where codec test set j t ≡ (0, t))
          ⊎ ((row : Row) × ((Dict.get t (codec.uuid_text j) ≡ some row)
                × ((test row ≡ true)
                    × (update_where codec test set j t
                        ≡ (1, Dict.put t (codec.uuid_text j) (set row))))))

      by_test :
          (row : Row) → Dict.get t (codec.uuid_text j) ≡ some row → (b : Bool) → test row ≡ b → Goal
      by_test row p true q = inr (row, (p, (q, rw (p, update_where) (rw q refl))))
      by_test row p false q = inl (rw (p, update_where) (rw q refl))

      by_row : (o : Option Row) → Dict.get t (codec.uuid_text j) ≡ o → Goal
      by_row none p = inl (rw (p, update_where) refl)
      by_row (some row) p = by_test row p (test row) refl

  -- A put of a row under a key that has a row changes what the key holds, and nothing else.
  moved :
      (i j : Uuid) (t : Table) (row row' : Row) (won freed : ℕ)
      → Dict.get t (codec.uuid_text j) ≡ some row
      → row_held (some row) + won ≡ freed + row_held (some row')
      → held codec i t + (if j == i then won else 0)
        ≡ (if j == i then freed else 0) + held codec i (Dict.put t (codec.uuid_text j) row')
  unfolding held
  moved i j t row row' won freed p q = elim (Bool-cases (j == i)) [
    | inl e ↦ rw (held_put i j t row') (
        rw e (
          subst
            (λ (k : Uuid).
              row_held (Dict.get t (codec.uuid_text k)) + won ≡ freed + row_held (some row'))
            ((nat_eq.eqb_iff j i).0 e) (rw p q)))
    | inr e ↦ rw (held_put i j t row') (rw e (omega arith))
  ]

  -- A put that leaves what the key holds as it is changes nothing that is held.
  held_put_same :
      (i j : Uuid) (t : Table) (row : Row)
      → row_held (some row) ≡ row_held (Dict.get t (codec.uuid_text j))
      → held codec i (Dict.put t (codec.uuid_text j) row) ≡ held codec i t
  unfolding held
  held_put_same i j t row p = elim (Bool-cases (j == i)) [
    | inl e ↦
        held_put i j t row
        ∙ rw e (
            p
            ∙ ap (λ (k : Uuid). row_held (Dict.get t (codec.uuid_text k)))
                ((nat_eq.eqb_iff j i).0 e))
    | inr e ↦ held_put i j t row ∙ rw e refl
  ]

  insert-held :
      (i : Uuid) (r : Registration) (objective : Option String) (now : Instant) (t : Table)
      → held codec i (inserted t (insert codec r objective now t)).1 ≡ held codec i t
  unfolding insert inserted new_row
  insert-held i r objective now t = by_row (Dict.get t (codec.uuid_text r.action_id)) refl
    where
      by_row :
          (o : Option Row)
          → Dict.get t (codec.uuid_text r.action_id) ≡ o
          → held codec i (inserted t (insert codec r objective now t)).1 ≡ held codec i t
      by_row (some row) p = rw (p, insert) refl
      by_row none p =
          rw (p, insert) (held_put_same i r.action_id t (new_row codec r objective now) (rw p refl))

  assign-claim_id : (a : Assignments) (row : Row) → (assign codec a row).claim_id ≡ row.claim_id
  unfolding assign
  assign-claim_id (registering r objective pending now) row = refl
  assign-claim_id (approving objective at now) row = refl
  assign-claim_id (rejecting at now) row = refl
  assign-claim_id (starting at now) row = refl
  assign-claim_id (executing status at external now) row = refl
  assign-claim_id (disposing d now) row = refl
  assign-claim_id (promoting p now) row = refl

  -- An UPDATE that leaves the claim alone.
  update_where-held :
      (i j : Uuid) (test : Row → Bool) (set : Row → Row) (t : Table)
      → ((row : Row) → test row ≡ true → is_none (set row).claim_id ≡ is_none row.claim_id)
      → held codec i (update_where codec test set j t).1 ≡ held codec i t
  update_where-held i j test set t keeps = elim (update_where_cases test set j t) [
    | inl same ↦ rw same refl
    | inr (row, (p, (q, changed))) ↦
        rw changed (held_put_same i j t (set row) (rw p (rw (keeps row q) refl)))
  ]

  claimable_free : (row : Row) → is_claimable codec row ≡ true → is_none row.claim_id ≡ true
  unfolding is_claimable
  claimable_free row p = ground (arith, p)

  releasable_held :
      (expected : Instant) (row : Row)
      → is_releasable codec expected row ≡ true
      → is_none row.claim_id ≡ false
  unfolding is_releasable
  releasable_held expected row p = ground (arith, p)

  release-held :
      (i j : Uuid) (expected at : Instant) (t : Table)
      → held codec i t
        ≡ (if j == i then (execute_statement codec (release_run j expected at) t).0 else 0)
          + held codec i (execute_statement codec (release_run j expected at) t).1
  unfolding execute_statement Statements.release one_row set_released
  release-held i j expected at t =
      elim (update_where_cases (is_releasable codec expected) (set_released codec at) j t) [
        | inl same ↦ rw same (ground arith)
        | inr (row, (p, (q, changed))) ↦ rw changed (
            ground (
              arith,
              moved i j t row (set_released codec at row) 0 1 p
                  (rw (releasable_held expected row q) refl),
            ))
      ]

  abbrev Committed : Uuid → Uuid → Table → Result RunError ActionClaim × Table → Type 0
  Committed i j t x = held codec i t + (if j == i then succeeded x.0 else 0) ≡ held codec i x.1

  claim_row-held :
      (i j claim_id : Uuid) (now : Instant) (s : RunState) (objective : String) (t : Table)
      → Committed i j t (claim_row codec claim_id now s objective j t)
  unfolding claim_row commit one_row set_claimed
  claim_row-held i j claim_id now s objective t =
      elim (update_where_cases (is_claimable codec) (set_claimed codec claim_id now) j t) [
        | inl same ↦ rw same (ground arith)
        | inr (row, (p, (q, changed))) ↦ rw changed (
            ground (
              arith,
              moved i j t row (set_claimed codec claim_id now row) 1 0 p
                  (rw (claimable_free row q) refl),
            ))
      ]

  claim_approved-held :
      (i j claim_id : Uuid) (now : Instant) (t : Table)
      → Committed i j t (claim_approved codec j claim_id now t)
  unfolding claim_approved
  claim_approved-held i j claim_id now t = by_row (Dict.get t (codec.uuid_text j)) refl
    where
      refused : (e : RunError) → Committed i j t (err e, t)
      refused e = ground arith

      by_state :
          (row : Row) (r : Result RunError RunState)
          → Dict.get t (codec.uuid_text j) ≡ some row
          → state_from_row codec row ≡ r
          → Committed i j t (claim_approved codec j claim_id now t)
      by_state row (err e) p q = rw (p, claim_approved) (rw q (refused e))
      by_state row (ok s) p q = rw (p, claim_approved) (rw q (by_check (check_claim codec s) refl))
        where
          by_check :
              (objective : Result RunError String)
              → check_claim codec s ≡ objective
              → Committed i j t (elim objective [
                | err e ↦ (err e, t)
                | ok objective ↦ claim_row codec claim_id now s objective j t
              ])
          by_check (err e) r = refused e
          by_check (ok objective) r = claim_row-held i j claim_id now s objective t

      by_row :
          (o : Option Row)
          → Dict.get t (codec.uuid_text j) ≡ o
          → Committed i j t (claim_approved codec j claim_id now t)
      by_row none p = rw (p, claim_approved) (refused run_missing)
      by_row (some row) p = by_state row (state_from_row codec row) p refl

  statement-held :
      (i : Uuid) (x : Statement) (t : Table)
      → held codec i t + claims_of codec i x t
        ≡ releases_of codec i x t + held codec i (execute_statement codec x t).1
  unfolding claims_of releases_of execute_statement update Statements.abandon one_row set_abandoned
  statement-held i (insert_run r objective now) t = omega (arith, insert-held i r objective now t)
  statement-held i (assign_run j a) t = omega (
    arith,
    update_where-held i j (λ row. true) (assign codec a) t
        λ row _. ap is_none (assign-claim_id a row),
  )
  statement-held i (claim_run j claim_id now) t =
      omega (arith, claim_approved-held i j claim_id now t)
  statement-held i (release_run j expected at) t = omega (arith, release-held i j expected at t)
  statement-held i (abandon_run j expected at) t = omega (
    arith,
    update_where-held i j (is_abandonable codec expected) (set_abandoned codec at) t λ row _. refl,
  )

  -- However the statements of the processes interleave: what was held at the start and the
  -- successful claims of an action are together its successful releases and what is held at the
  -- end.
  pub claims_balance :
      (i : Uuid) (xs : List Statement) (t : Table)
      → held codec i t + count_claims codec i xs t
        ≡ count_releases codec i xs t + held codec i (execute_schedule codec xs t)
  unfolding count_claims count_releases execute_schedule
  claims_balance i [] t = omega arith
  claims_balance i (x ∷ xs) t =
      omega (arith, statement-held i x t, claims_balance i xs (execute_statement codec x t).1)

  held_le_one : (i : Uuid) (t : Table) → held codec i t ≤ 1
  unfolding held
  held_le_one i t = bounded (Dict.get t (codec.uuid_text i))
    where
      bounded : (o : Option Row) → row_held o ≤ 1
      bounded none = omega arith
      bounded (some row) = ground arith

  -- However the statements interleave, the successful claims of an action outnumber its
  -- successful releases by at most one: no two processes hold a claim of it at once.
  pub claims_exclusive :
      (i : Uuid) (xs : List Statement) (t : Table)
      → count_claims codec i xs t ≤ count_releases codec i xs t + 1
  claims_exclusive i xs t =
      omega (arith, claims_balance i xs t, held_le_one i (execute_schedule codec xs t))
