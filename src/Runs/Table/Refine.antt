-- ===== src/Runs/Table/Refine.antt =====
-- Each operation of the SQLite repository is the operation of the in-memory one, on the store
-- that the table stands for.
use velox_server.Prelude.{
  String, Bool, Option, none, some, option_map, string_eq, nat_eq, option_eq, ◌≡◌, refl, ap, ◌∙◌,
}
use velox_server.Prelude.Result.{Result, ok, err}
use velox_server.Prelude.Dict
use velox_server.Actions.{Uuid, Instant}
use velox_server.Runs.{
  RunState, RunError, Registration, DispositionRecord, PromotionRecord, new_run, run_missing,
  normalize_objective,
}
use velox_server.Runs.Memory
use velox_server.Runs.Memory.{Runs, revise, revise_ok, revise_err, revise-none}
use velox_server.Runs.Table.{Codec, Table}
use velox_server.Runs.Table.Rows.{row_of}
use velox_server.Runs.Table.Statements.{
  Assignments, executing, disposing, promoting, assign, insert, new_row,
}
use velox_server.Runs.Table.Operations.{
  find, present, require, check_and_update, check_registration, check_approval, check_rejection,
  check_start, register_found, insert_or_check,
}
use velox_server.Runs.Table.Operations
use velox_server.Runs.Table.Represents.{
  Represents, find_lem, require_lem, put-Represents, Refines, update_lem, require-put,
}
use velox_server.Runs.Table.Guards.{
  Matches, registration-Matches, approval-Matches, rejection-Matches, start-Matches,
  execution-Matches, disposition-Matches, promotion-Matches,
}

module _ (codec : Codec) where
  checked :
      (check : RunState → Result RunError Assignments) (i : Uuid) (t : Table) (m : Runs)
      (s s' : RunState) (a : Assignments)
      → Represents codec t m
      → Dict.get m i ≡ some s
      → check s ≡ ok a
      → assign codec a (row_of codec s) ≡ row_of codec s'
      → check_and_update codec check i t ≡ (ok s', Dict.put t (codec.uuid_text i) (row_of codec s'))
  unfolding check_and_update
  checked check i t m s s' a h p q e =
      rw (require_lem codec t m i h, check_and_update)
        (rw p (
          rw q (rw (update_lem codec t m i a s s' h p e) (rw (require-put codec t m i s' h) refl))))

  refused :
      (check : RunState → Result RunError Assignments) (i : Uuid) (t : Table) (m : Runs)
      (s : RunState) (e : RunError)
      → Represents codec t m
      → Dict.get m i ≡ some s
      → check s ≡ err e
      → check_and_update codec check i t ≡ (err e, t)
  unfolding check_and_update
  refused check i t m s e h p q =
      rw (require_lem codec t m i h, check_and_update) (rw p (rw q refl))

  unknown :
      (check : RunState → Result RunError Assignments) (i : Uuid) (t : Table) (m : Runs)
      → Represents codec t m
      → Dict.get m i ≡ none
      → check_and_update codec check i t ≡ (err run_missing, t)
  unfolding check_and_update
  unknown check i t m h p = rw (require_lem codec t m i h, check_and_update) (rw p refl)

  -- An operation that checks and updates is the change of the state.
  pub check_and_update_lem :
      (check : RunState → Result RunError Assignments)
      (change : RunState → Result RunError RunState) (i : Uuid) (t : Table) (m : Runs)
      → ((s : RunState) → Matches codec (check s) (change s) s)
      → Represents codec t m
      → Refines codec (check_and_update codec check i t) (revise change i m)
  check_and_update_lem check change i t m f h = by_run (Dict.get m i) refl
    where
      by_check :
          (s : RunState) (a : Result RunError Assignments) (b : Result RunError RunState)
          → Dict.get m i ≡ some s
          → check s ≡ a
          → change s ≡ b
          → Matches codec a b s
          → Refines codec (check_and_update codec check i t) (revise change i m)
      by_check s (ok a) (ok s') p q r e =
          rw (checked check i t m s s' a h p q e, revise_ok change i m s s' p r)
            (refl, put-Represents codec t m i s' h)
      by_check s (ok a) (err b) p q r e = elim e [ ]
      by_check s (err a) (ok s') p q r e = elim e [ ]
      by_check s (err a) (err b) p q r e =
          rw (refused check i t m s a h p q, revise_err change i m s b p r) (ap err e, h)

      by_run :
          (o : Option RunState)
          → Dict.get m i ≡ o
          → Refines codec (check_and_update codec check i t) (revise change i m)
      by_run none p = rw (unknown check i t m h p, revise-none change i m p) (refl, h)
      by_run (some s) p = by_check s (check s) (change s) p refl refl (f s)

  module _ (t : Table) (m : Runs) (h : Represents codec t m) where
    found_registration :
        (r : Registration) (objective : Option String) (now : Instant) (s : RunState)
        → Dict.get m r.action_id ≡ some s
        → register_found codec r objective now (some s) t
          ≡ check_and_update codec (check_registration codec r objective now) r.action_id t
    unfolding register_found check_and_update
    found_registration r objective now s p =
        rw (require_lem codec t m r.action_id h, check_and_update) (rw p refl)

    new_row_lem :
        (r : Registration) (objective : Option String) (now : Instant)
        → new_row codec r objective now ≡ row_of codec (new_run r objective now)
    unfolding new_row row_of new_run
    new_row_lem r objective now = refl

    new_registration :
        (r : Registration) (objective : Option String) (now : Instant)
        → Dict.get m r.action_id ≡ none
        → register_found codec r objective now none t ≡ (
          ok (new_run r objective now),
          Dict.put t (codec.uuid_text r.action_id) (row_of codec (new_run r objective now)),
        )
    unfolding register_found insert_or_check insert Represents
    new_registration r objective now p =
        rw (h r.action_id ∙ ap (option_map (row_of codec)) p, insert_or_check, insert)
          (rw (new_row_lem r objective now)
            (rw (require-put codec t m r.action_id (new_run r objective now) h) refl))

    -- register_action of the SQLite repository answers and changes the table as that of the
    -- in-memory one: a new run, an update of a known one, or the same refusal.
    pub register_action_lem :
        (r : Registration) (now : Instant)
        → Refines codec (Operations.register_action codec r now t) (Memory.register_action r now m)
    unfolding Operations.register_action Memory.register_action
    register_action_lem r now = by_objective (normalize_objective r.objective) refl
      where
        by_run :
            (objective : Option String) (o : Option RunState)
            → Dict.get m r.action_id ≡ o
            → Refines codec (register_found codec r objective now o t) (elim o [
              | some current ↦ revise (Memory.reregistered r objective now) r.action_id m
              | none ↦
                  (ok (new_run r objective now), Dict.put m r.action_id (new_run r objective now))
            ])
        by_run objective none p =
            rw (new_registration r objective now p)
              (refl, put-Represents codec t m r.action_id (new_run r objective now) h)
        by_run objective (some s) p = rw (found_registration r objective now s p) (
            check_and_update_lem (check_registration codec r objective now)
              (Memory.reregistered r objective now) r.action_id t m
              (λ s. registration-Matches codec s r objective now) h)

        by_objective :
            (o : Result RunError (Option String))
            → normalize_objective r.objective ≡ o
            → Refines codec
                (Operations.register_action codec r now t)
                (Memory.register_action r now m)
        by_objective (err e) p =
            rw (p, Operations.register_action, Memory.register_action) (refl, h)
        by_objective (ok objective) p =
            rw (p, Operations.register_action, Memory.register_action)
              (rw (find_lem codec t m r.action_id h)
                (by_run objective (Dict.get m r.action_id) refl))

    pub record_approval_lem :
        (i : Uuid) (objective : String) (approved_at now : Instant)
        → Refines codec
            (Operations.record_approval codec i objective approved_at now t)
            (Memory.record_approval i objective approved_at now m)
    unfolding Operations.record_approval Memory.record_approval
    record_approval_lem i objective approved_at now =
        check_and_update_lem (check_approval codec objective approved_at now)
          (Memory.approving objective approved_at now) i t m
          (λ s. approval-Matches codec s objective approved_at now) h

    pub record_rejection_lem :
        (i : Uuid) (rejected_at now : Instant)
        → Refines codec
            (Operations.record_rejection codec i rejected_at now t)
            (Memory.record_rejection i rejected_at now m)
    unfolding Operations.record_rejection Memory.record_rejection
    record_rejection_lem i rejected_at now =
        check_and_update_lem (check_rejection codec rejected_at now)
          (Memory.rejecting rejected_at now) i t m (λ s. rejection-Matches codec s rejected_at now)
          h

    pub record_execution_started_lem :
        (i : Uuid) (started_at now : Instant)
        → Refines codec
            (Operations.record_execution_started codec i started_at now t)
            (Memory.record_execution_started i started_at now m)
    unfolding Operations.record_execution_started Memory.record_execution_started
    record_execution_started_lem i started_at now =
        check_and_update_lem (check_start codec started_at now) (Memory.starting started_at now) i t
          m (λ s. start-Matches codec s started_at now) h

    pub record_execution_lem :
        (i : Uuid) (status : String) (finished_at : Instant) (external : Bool) (now : Instant)
        → Refines codec
            (Operations.record_execution codec i status finished_at external now t)
            (Memory.record_execution i status finished_at external now m)
    unfolding Operations.record_execution Memory.record_execution
    record_execution_lem i status finished_at external now =
        check_and_update_lem (λ s. ok (executing status finished_at external now))
          (λ s. ok (Memory.executed status finished_at external now s)) i t m
          (λ s. execution-Matches codec s status finished_at external now) h

    pub record_disposition_lem :
        (d : DispositionRecord) (now : Instant)
        → Refines codec
            (Operations.record_disposition codec d now t)
            (Memory.record_disposition d now m)
    unfolding Operations.record_disposition Memory.record_disposition
    record_disposition_lem d now =
        check_and_update_lem (λ s. ok (disposing d now)) (λ s. ok (Memory.disposed d now s))
          d.action_id t m (λ s. disposition-Matches codec s d now) h

    pub record_promotion_lem :
        (p : PromotionRecord) (now : Instant)
        → Refines codec
            (Operations.record_promotion codec p now t)
            (Memory.record_promotion p now m)
    unfolding Operations.record_promotion Memory.record_promotion
    record_promotion_lem p now =
        check_and_update_lem (λ s. ok (promoting p now)) (λ s. ok (Memory.promoted p now s))
          p.action_id t m (λ s. promotion-Matches codec s p now) h
