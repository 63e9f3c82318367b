-- ===== src/Runs/Table/Settling.antt =====
-- The claim and its two reconciliations: the one statement of the SQLite repository against the
-- guards and the write of the in-memory one.
use velox_server.Prelude.{
  String, Bool, true, false, Option, none, some, option_map, is_none, not, ◌&&◌, ◌==◌, string_eq,
  nat_eq, option_eq, ◌≡◌, refl, ap, subst, ◌∙◌, arith, if◌then◌else◌, inl, inr,
}
use velox_server.Prelude.Result.{Result, ok, err, raise_if, ◌>>=◌, ◌>>◌, continue}
use velox_server.Prelude.Dict
use velox_server.Actions.{Uuid, Instant}
use velox_server.Runs.{
  ApprovalStatus, awaiting_approval, approved, rejected, RunState, RunError, not_durably_approved,
  has_result, has_claim, no_claim, already_started, never_started, state_changed,
  claim_not_released, claim_not_abandoned, normalize_required_objective, is_approved,
}
use velox_server.Runs.Memory
use velox_server.Runs.Memory.{Runs, revise, revise_ok, revise_err, revise-none}
use velox_server.Runs.Memory.Changes.{AllSound}
use velox_server.Runs.Table.{Codec, Row, Table, approval_value}
use velox_server.Runs.Table.Rows.{row_of, state_from_row-row_of}
use velox_server.Runs.Table.Statements
use velox_server.Runs.Table.Statements.{
  update_where, one_row, is_claimable, set_claimed, check_claim, claim_row, commit, is_releasable,
  set_released, is_abandonable, set_abandoned, release, abandon,
}
use velox_server.Runs.Table.Operations
use velox_server.Runs.Table.Operations.{require}
use velox_server.Runs.Table.Represents.{Represents, put-Represents, Refines, require-put}
use velox_server.Runs.Table.Decides.{not-not, guarded, Decides, settled, passed, Agree}

is_none-map : {A B : Type 0} (f : A → B) (o : Option A) → is_none (option_map f o) ≡ is_none o
is_none-map f none = refl
is_none-map f (some a) = refl

approved_text :
    (a : Option ApprovalStatus)
    → (option_map approval_value a == some (approval_value approved)) ≡ is_approved a
unfolding approval_value is_approved
approved_text none = refl
approved_text (some awaiting_approval) = refl
approved_text (some approved) = refl
approved_text (some rejected) = refl

module _ (codec : Codec) where
  claiming_lem :
      (claim_id : Uuid) (now : Instant) (s : RunState)
      → Memory.claiming claim_id now s
        ≡ (check_claim codec s >>= λ objective. ok (objective, Memory.claimed claim_id now s))
  unfolding Memory.claiming check_claim
  claiming_lem claim_id now s =
      guarded (not (is_approved s.approval_status)) (not (is_none s.execution_status))
        (not (is_none s.claim_id)) not_durably_approved has_result has_claim
        (normalize_required_objective s.pending_objective) _

  is_claimable_lem :
      (s : RunState) (objective : String)
      → check_claim codec s ≡ ok objective
      → is_claimable codec (row_of codec s) ≡ true
  unfolding check_claim is_claimable row_of
  is_claimable_lem s objective h =
      rw (approved_text s.approval_status, is_none-map codec.uuid_text s.claim_id)
        (passed (is_approved s.approval_status) (is_none s.execution_status) (is_none s.claim_id)
          not_durably_approved has_result has_claim
          (normalize_required_objective s.pending_objective) objective h)

  set_claimed_lem :
      (claim_id : Uuid) (now : Instant) (s : RunState)
      → set_claimed codec claim_id now (row_of codec s)
        ≡ row_of codec (Memory.claimed claim_id now s)
  unfolding set_claimed row_of Memory.claimed
  set_claimed_lem claim_id now s = refl

  isoformat_same :
      (u : Option Instant) (e : Instant)
      → (option_map codec.isoformat u == some (codec.isoformat e)) ≡ (u == some e)
  isoformat_same none e = refl
  isoformat_same (some u) e = ground (
    arith,
    ap codec.fromisoformat,
    codec.fromisoformat-isoformat u,
    codec.fromisoformat-isoformat e,
    ap codec.isoformat,
    string_eq.eqb_iff (codec.isoformat u) (codec.isoformat e),
    nat_eq.eqb_iff u e,
  )

  module _ (t : Table) (m : Runs) (i : Uuid) (h : Represents codec t m) where
    update_where_lem :
        (test : Row → Bool) (set : Row → Row) (s : RunState) (b : Bool)
        → Dict.get m i ≡ some s
        → test (row_of codec s) ≡ b
        → update_where codec test set i t
          ≡ (if b then (1, Dict.put t (codec.uuid_text i) (set (row_of codec s))) else (0, t))
    unfolding update_where Represents
    update_where_lem test set s b p q =
        rw (h i ∙ ap (option_map (row_of codec)) p, update_where) (rw q refl)

    claim_row_lem :
        (claim_id : Uuid) (now : Instant) (s : RunState) (objective : String)
        → Dict.get m i ≡ some s
        → check_claim codec s ≡ ok objective
        → claim_row codec claim_id now s objective i t ≡ (
          ok (record {
            action_id = i;
            claim_id = claim_id;
            target = s.target;
            objective = objective;
            claimed_at = now;
          }),
          Dict.put t (codec.uuid_text i) (row_of codec (Memory.claimed claim_id now s)),
        )
    unfolding claim_row one_row commit
    claim_row_lem claim_id now s objective p q =
        rw
          (
            update_where_lem (is_claimable codec) (set_claimed codec claim_id now) s true p
                (is_claimable_lem s objective q),
            claim_row,
          )
          (rw (set_claimed_lem claim_id now s) refl)

    -- claim_approved of the SQLite repository answers and changes the table as that of the
    -- in-memory one.
    pub claim_approved_lem :
        (claim_id : Uuid) (now : Instant)
        → Refines codec
            (Statements.claim_approved codec i claim_id now t)
            (Memory.claim_approved i claim_id now m)
    unfolding Statements.claim_approved Memory.claim_approved Represents
    claim_approved_lem claim_id now = by_run (Dict.get m i) refl
      where
        by_check :
            (s : RunState) (objective : Result RunError String)
            → Dict.get m i ≡ some s
            → check_claim codec s ≡ objective
            → Refines codec
                (Statements.claim_approved codec i claim_id now t)
                (Memory.claim_approved i claim_id now m)
        by_check s (err e) p q =
            rw (h i ∙ ap (option_map (row_of codec)) p, Statements.claim_approved)
              (rw (p, Memory.claim_approved)
                (rw (state_from_row-row_of codec s, claiming_lem claim_id now s) (rw q (refl, h))))
        by_check s (ok objective) p q =
            rw (h i ∙ ap (option_map (row_of codec)) p, Statements.claim_approved)
              (rw (p, Memory.claim_approved)
                (rw (state_from_row-row_of codec s, claiming_lem claim_id now s)
                  (rw q (
                    rw (claim_row_lem claim_id now s objective p q)
                      (refl, put-Represents codec t m i (Memory.claimed claim_id now s) h)))))

        by_run :
            (o : Option RunState)
            → Dict.get m i ≡ o
            → Refines codec
                (Statements.claim_approved codec i claim_id now t)
                (Memory.claim_approved i claim_id now m)
        by_run none p =
            rw (h i ∙ ap (option_map (row_of codec)) p, Statements.claim_approved)
              (rw (p, Memory.claim_approved) (refl, h))
        by_run (some s) p = by_check s (check_claim codec s) p refl

    settled_row :
        (test : Row → Bool) (set : Row → Row) (e : RunError) (s s' : RunState)
        → Dict.get m i ≡ some s
        → test (row_of codec s) ≡ true
        → set (row_of codec s) ≡ row_of codec s'
        → continue
            (one_row codec (update_where codec test set i t) e)
            (λ _ t. (require codec i t, t))
          ≡ (ok s', Dict.put t (codec.uuid_text i) (row_of codec s'))
    unfolding one_row
    settled_row test set e s s' p q r =
        rw (update_where_lem test set s true p q) (rw r (rw (require-put codec t m i s' h) refl))

    unsettled_row :
        (test : Row → Bool) (set : Row → Row) (e : RunError) (s : RunState)
        → Dict.get m i ≡ some s
        → test (row_of codec s) ≡ false
        → continue
            (one_row codec (update_where codec test set i t) e)
            (λ _ t. (require codec i t, t))
          ≡ (err e, t)
    unfolding one_row
    unsettled_row test set e s p q = rw (update_where_lem test set s false p q) refl

    missing_row :
        (test : Row → Bool) (set : Row → Row) (e : RunError)
        → Dict.get m i ≡ none
        → continue
            (one_row codec (update_where codec test set i t) e)
            (λ _ t. (require codec i t, t))
          ≡ (err e, t)
    unfolding one_row Represents update_where
    missing_row test set e p = rw (h i ∙ ap (option_map (row_of codec)) p, update_where) refl

    -- A reconciliation is one conditional UPDATE; the change of the state has the same condition.
    settle_lem :
        (test : Row → Bool) (set : Row → Row) (e : RunError)
        (change : RunState → Result RunError RunState) (next : RunState → RunState)
        → ((s : RunState)
            → Dict.get m i ≡ some s
            → Decides (test (row_of codec s)) (change s) (next s))
        → ((s : RunState) → set (row_of codec s) ≡ row_of codec (next s))
        → let done =
            continue
              (one_row codec (update_where codec test set i t) e)
              (λ _ t. (require codec i t, t)) in
          Agree done.0 (revise change i m).0 × Represents codec done.1 (revise change i m).1
    settle_lem test set e change next cases sets = by_run (Dict.get m i) refl
      where
        Goal : Type 0
        Goal =
            let done =
              continue (one_row codec (update_where codec test set i t) e)
                (λ _ t. (require codec i t, t)) in
            Agree done.0 (revise change i m).0 × Represents codec done.1 (revise change i m).1

        by_case :
            (s : RunState)
            → Dict.get m i ≡ some s
            → Decides (test (row_of codec s)) (change s) (next s)
            → Goal
        by_case s p (inl (q, r)) =
            rw (settled_row test set e s (next s) p q (sets s), revise_ok change i m s (next s) p r)
              (refl, put-Represents codec t m i (next s) h)
        by_case s p (inr (q, (x, r))) =
            rw (unsettled_row test set e s p q, revise_err change i m s x p r) (tt, h)

        by_run : (o : Option RunState) → Dict.get m i ≡ o → Goal
        by_run none p = rw (missing_row test set e p, revise-none change i m p) (tt, h)
        by_run (some s) p = by_case s p (cases s p)

  releasing_cases :
      (expected reconciled_at : Instant) (s : RunState)
      → (is_none s.claim_id ≡ false → is_approved s.approval_status ≡ true)
      → Decides
          (is_releasable codec expected (row_of codec s))
          (Memory.releasing expected reconciled_at s)
          (Memory.released reconciled_at s)
  unfolding is_releasable row_of Memory.releasing
  releasing_cases expected reconciled_at s held =
      rw
        (
          approved_text s.approval_status,
          is_none-map codec.uuid_text s.claim_id,
          is_none-map codec.isoformat s.execution_started_at,
          isoformat_same s.updated_at expected,
        )
        (settled (is_approved s.approval_status) (is_none s.claim_id)
          (is_none s.execution_started_at) (is_none s.execution_status)
          (s.updated_at == some expected) state_changed no_claim already_started has_result
          (Memory.released reconciled_at s) held)

  abandoning_cases :
      (expected reconciled_at : Instant) (s : RunState)
      → Decides
          (is_abandonable codec expected (row_of codec s))
          (Memory.abandoning expected reconciled_at s)
          (Memory.abandoned reconciled_at s)
  unfolding is_abandonable row_of Memory.abandoning
  abandoning_cases expected reconciled_at s =
      rw
        (
          is_none-map codec.uuid_text s.claim_id,
          is_none-map codec.isoformat s.execution_started_at,
          isoformat_same s.updated_at expected,
        )
        (subst
          (λ x.
            Decides
              (not (is_none s.claim_id)
                && not (is_none s.execution_started_at)
                && is_none s.execution_status
                && (s.updated_at == some expected))
              (raise_if (not (s.updated_at == some expected)) state_changed
                >> (raise_if (is_none s.claim_id) no_claim
                    >> (raise_if x never_started
                        >> (raise_if (not (is_none s.execution_status)) has_result
                            >> ok (Memory.abandoned reconciled_at s)))))
              (Memory.abandoned reconciled_at s))
          (not-not (is_none s.execution_started_at))
          (settled true (is_none s.claim_id) (not (is_none s.execution_started_at))
            (is_none s.execution_status) (s.updated_at == some expected) state_changed no_claim
            never_started has_result (Memory.abandoned reconciled_at s) λ _. refl))

  set_released_lem :
      (at : Instant) (s : RunState)
      → set_released codec at (row_of codec s) ≡ row_of codec (Memory.released at s)
  unfolding set_released row_of Memory.released
  set_released_lem at s = refl

  set_abandoned_lem :
      (at : Instant) (s : RunState)
      → set_abandoned codec at (row_of codec s) ≡ row_of codec (Memory.abandoned at s)
  unfolding set_abandoned row_of Memory.abandoned
  set_abandoned_lem at s = refl

  module _ (t : Table) (m : Runs) (h : Represents codec t m) where
    -- Where the runs are sound, release_unstarted_claim of the SQLite repository releases
    -- what that of the in-memory one releases, with the same answer, and refuses the rest.
    pub release_unstarted_claim_lem :
        (i : Uuid) (expected reconciled_at : Instant)
        → AllSound m
        → let done = Operations.release_unstarted_claim codec i expected reconciled_at t in
          let spec = Memory.release_unstarted_claim i expected reconciled_at m in
          Agree done.0 spec.0 × Represents codec done.1 spec.1
    unfolding Operations.release_unstarted_claim Memory.release_unstarted_claim release AllSound
    release_unstarted_claim_lem i expected reconciled_at held =
        settle_lem t m i h (is_releasable codec expected) (set_released codec reconciled_at)
          claim_not_released (Memory.releasing expected reconciled_at)
          (Memory.released reconciled_at)
          (λ s p. releasing_cases expected reconciled_at s ((held i s p).claimed_approved))
          (set_released_lem reconciled_at)

    pub abandon_started_claim_lem :
        (i : Uuid) (expected reconciled_at : Instant)
        → let done = Operations.abandon_started_claim codec i expected reconciled_at t in
          let spec = Memory.abandon_started_claim i expected reconciled_at m in
          Agree done.0 spec.0 × Represents codec done.1 spec.1
    unfolding Operations.abandon_started_claim Memory.abandon_started_claim abandon
    abandon_started_claim_lem i expected reconciled_at =
        settle_lem t m i h (is_abandonable codec expected) (set_abandoned codec reconciled_at)
          claim_not_abandoned (Memory.abandoning expected reconciled_at)
          (Memory.abandoned reconciled_at) (λ s p. abandoning_cases expected reconciled_at s)
          (set_abandoned_lem reconciled_at)
