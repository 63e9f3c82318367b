-- ===== src/Runs/Table/Guards.antt =====
-- The guards and assignments of each operation of the SQLite repository against the changes of
-- the in-memory one.
use velox_server.Prelude.{
  String, Bool, Option, none, some, option_map, is_none, not, ◌&&◌, ◌||◌, string_eq, nat_eq,
  option_eq, ◌≡◌, refl, if◌then◌else◌,
}
use velox_server.Prelude.Result.{Result, ok, err, raise_if, ◌>>=◌}
use velox_server.Actions.{Instant}
use velox_server.Runs.{
  RunState, RunError, Registration, DispositionRecord, PromotionRecord, prefer,
  rejected_not_approvable, claimed_not_rejectable, no_claim, has_result,
  normalize_required_objective, require_compatible_objective, require_same_identity, is_rejected,
}
use velox_server.Runs.Memory
use velox_server.Runs.Memory.{Runs, revise, revise_ok, revise_err, revise-none}
use velox_server.Runs.Table.{Codec, approval_value}
use velox_server.Runs.Table.Rows.{row_of}
use velox_server.Runs.Table.Statements.{Assignments, executing, disposing, promoting, assign}
use velox_server.Runs.Table.Operations.{
  check_registration, check_approval, check_rejection, check_start,
}

module _ (codec : Codec) where
  -- The guards of an operation and the change that they allow: the same errors, and assignments
  -- that make the row of the old state the row of the new one.
  abbrev pub Matches : Result RunError Assignments → Result RunError RunState → RunState → Type 0
  Matches (ok a) (ok s') s = assign codec a (row_of codec s) ≡ row_of codec s'
  Matches (err e) (err e') s = e ≡ e'
  Matches _ _ s = ⊥

  Matches-bind :
      {A : Type 0} (g : Result RunError A) (k : A → Result RunError Assignments)
      (h : A → Result RunError RunState) (s : RunState)
      → ((a : A) → Matches (k a) (h a) s)
      → Matches (g >>= k) (g >>= h) s
  Matches-bind (ok a) k h s f = f a
  Matches-bind (err e) k h s f = refl

  map-prefer :
      {A B : Type 0} (f : A → B) (new old : Option A)
      → prefer (option_map f new) (option_map f old) ≡ option_map f (prefer new old)
  map-prefer f none old = refl
  map-prefer f (some a) old = refl

  keeps_pending :
      (objective pending : Option String)
      → (if not (is_none objective) && is_none pending then objective else pending)
        ≡ prefer pending objective
  keeps_pending none none = refl
  keeps_pending none (some p) = refl
  keeps_pending (some o) none = refl
  keeps_pending (some o) (some p) = refl

  module _ (s : RunState) where
    pub registration-Matches :
        (r : Registration) (objective : Option String) (now : Instant)
        → Matches
            (check_registration codec r objective now s)
            (Memory.reregistered r objective now s)
            s
    unfolding check_registration Memory.reregistered assign row_of
    registration-Matches r objective now =
        Matches-bind (require_same_identity s r.target r.executor_role r.capability) _ _ s λ _.
          Matches-bind (require_compatible_objective s objective) _ _ s λ _.
            rw
              (
                keeps_pending objective s.pending_objective,
                map-prefer approval_value r.approval_status s.approval_status,
              )
              refl

    pub approval-Matches :
        (objective : String) (approved_at now : Instant)
        → Matches
            (check_approval codec objective approved_at now s)
            (Memory.approving objective approved_at now s)
            s
    unfolding check_approval Memory.approving assign row_of
    approval-Matches objective approved_at now =
        Matches-bind (normalize_required_objective (some objective)) _ _ s λ x.
          Matches-bind (require_compatible_objective s (some x)) _ _ s λ _.
            Matches-bind (raise_if (is_rejected s.approval_status) rejected_not_approvable) _ _ s
              λ _. refl

    pub rejection-Matches :
        (rejected_at now : Instant)
        → Matches (check_rejection codec rejected_at now s) (Memory.rejecting rejected_at now s) s
    unfolding check_rejection Memory.rejecting assign row_of
    rejection-Matches rejected_at now =
        Matches-bind
          (raise_if (not (is_none s.claim_id) || not (is_none s.execution_status))
            claimed_not_rejectable)
          _ _ s λ _. refl

    pub start-Matches :
        (started_at now : Instant)
        → Matches (check_start codec started_at now s) (Memory.starting started_at now s) s
    unfolding check_start Memory.starting assign row_of
    start-Matches started_at now =
        Matches-bind (raise_if (is_none s.claim_id) no_claim) _ _ s
          λ _. Matches-bind (raise_if (not (is_none s.execution_status)) has_result) _ _ s λ _. refl

    pub execution-Matches :
        (status : String) (finished_at : Instant) (external : Bool) (now : Instant)
        → Matches
            (ok (executing status finished_at external now))
            (ok (Memory.executed status finished_at external now s))
            s
    unfolding Memory.executed assign row_of
    execution-Matches status finished_at external now = refl

    pub disposition-Matches :
        (d : DispositionRecord) (now : Instant)
        → Matches (ok (disposing d now)) (ok (Memory.disposed d now s)) s
    unfolding Memory.disposed assign row_of
    disposition-Matches d now = refl

    pub promotion-Matches :
        (p : PromotionRecord) (now : Instant)
        → Matches (ok (promoting p now)) (ok (Memory.promoted p now s)) s
    unfolding Memory.promoted assign row_of
    promotion-Matches p now = refl
