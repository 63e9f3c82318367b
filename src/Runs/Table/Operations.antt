-- ===== src/Runs/Table/Operations.antt =====
-- The operations of the run repository: each reads, checks, and then runs its statement.
use Prim.Native.Nat.{Ordering}
use Prim.Native.String.{compare}
use velox_server.Prelude.{
  String, Bool, true, false, Option, none, some, is_none, not, ◌&&◌, ◌||◌, ◌==◌, string_eq,
  option_eq, List, [], ◌∷◌, keep, if◌then◌else◌,
}
use velox_server.Prelude.Result.{Result, ok, err, raise_if, ◌>>=◌, ◌>>◌, Step, continue}
use velox_server.Prelude.Dict
use velox_server.Actions.{Uuid, Instant}
use velox_server.Runs.{
  awaiting_approval, RunState, RunError, run_missing, rejected_not_approvable,
  claimed_not_rejectable, has_result, no_claim, not_registered, normalize_objective,
  normalize_required_objective, require_compatible_objective, require_same_identity, is_rejected,
  Registration, DispositionRecord, PromotionRecord,
}
use velox_server.Runs.Table.{Codec, Row, Table, approval_value, state_from_row}
use velox_server.Runs.Table.Statements.{
  Assignments, registering, approving, rejecting, starting, executing, disposing, promoting, update,
  insert, release, abandon,
}

module _ (codec : Codec) where
  -- get
  unfoldable pub find : Uuid → Table → Result RunError (Option RunState)
  unfolding state_from_row
  find i t = elim (Dict.get t (codec.uuid_text i)) [
    | none ↦ ok none
    | some row ↦ state_from_row codec row >>= λ s. ok (some s)
  ]

  unfoldable pub present : Option RunState → Result RunError RunState
  present none = err run_missing
  present (some s) = ok s

  -- _require
  unfoldable pub require : Uuid → Table → Result RunError RunState
  unfolding find present
  require i t = find i t >>= present

  -- What an operation of more than one transaction does: it reads and checks the state, writes,
  -- and reads again. The transactions of others may come in between.
  unfoldable pub check_and_update :
      (RunState → Result RunError Assignments) → Uuid → Step Table RunError RunState
  unfolding require update
  check_and_update check i t =
      continue (require i t >>= check, t)
        λ a t. continue (update codec i a t) λ _ t. (require i t, t)

  -- The guards of each operation, and what it then assigns.
  unfoldable pub check_registration :
      Registration → Option String → Instant → RunState → Result RunError Assignments
  unfolding require_same_identity require_compatible_objective
  check_registration r objective now s = do
    require_same_identity s r.target r.executor_role r.capability
    require_compatible_objective s objective
    ok (registering r objective s.pending_objective now)

  unfoldable pub check_approval :
      String → Instant → Instant → RunState → Result RunError Assignments
  unfolding normalize_required_objective require_compatible_objective is_rejected
  check_approval objective approved_at now s = do
    normalized ← normalize_required_objective (some objective)
    require_compatible_objective s (some normalized)
    raise_if (is_rejected s.approval_status) rejected_not_approvable
    ok (approving normalized approved_at now)

  unfoldable pub check_rejection : Instant → Instant → RunState → Result RunError Assignments
  check_rejection rejected_at now s = do
    raise_if (not (is_none s.claim_id) || not (is_none s.execution_status)) claimed_not_rejectable
    ok (rejecting rejected_at now)

  unfoldable pub check_start : Instant → Instant → RunState → Result RunError Assignments
  check_start started_at now s = do
    raise_if (is_none s.claim_id) no_claim
    raise_if (not (is_none s.execution_status)) has_result
    ok (starting started_at now)

  -- The INSERT of a new registration; where the key is taken, the state under it is checked.
  unfoldable pub insert_or_check :
      Registration → Option String → Instant → Step Table RunError (Unit {0})
  unfolding insert find require_same_identity require_compatible_objective
  insert_or_check r objective now t = elim (insert codec r objective now t) [
    | some t' ↦ (ok tt, t')
    | none ↦ elim (find r.action_id t) [
      | err e ↦ (err e, t)
      | ok none ↦ (err not_registered, t)
      | ok (some current) ↦ (
        require_same_identity current r.target r.executor_role r.capability
            >> require_compatible_objective current objective,
        t,
      )
    ]
  ]

  unfoldable pub register_found :
      Registration → Option String → Instant → Option RunState → Step Table RunError RunState
  unfolding check_registration insert_or_check update require
  register_found r objective now (some current) t =
      continue (check_registration r objective now current, t)
        λ a t. continue (update codec r.action_id a t) λ _ t. (require r.action_id t, t)
  register_found r objective now none t =
      continue (insert_or_check r objective now t) λ _ t. (require r.action_id t, t)

  -- register_action
  unfoldable pub register_action : Registration → Instant → Step Table RunError RunState
  unfolding find register_found normalize_objective
  register_action r now t =
      continue (normalize_objective r.objective, t)
        λ objective t.
          continue (find r.action_id t, t) λ current t. register_found r objective now current t

  -- record_approval and the operations of the same form
  unfoldable pub record_approval : Uuid → String → Instant → Instant → Step Table RunError RunState
  unfolding check_and_update check_approval
  record_approval i objective approved_at now =
      check_and_update (check_approval objective approved_at now) i

  unfoldable pub record_rejection : Uuid → Instant → Instant → Step Table RunError RunState
  unfolding check_and_update check_rejection
  record_rejection i rejected_at now = check_and_update (check_rejection rejected_at now) i

  unfoldable pub record_execution_started : Uuid → Instant → Instant → Step Table RunError RunState
  unfolding check_and_update check_start
  record_execution_started i started_at now = check_and_update (check_start started_at now) i

  unfoldable pub record_execution :
      Uuid → String → Instant → Bool → Instant → Step Table RunError RunState
  unfolding check_and_update
  record_execution i status finished_at external now =
      check_and_update (λ s. ok (executing status finished_at external now)) i

  unfoldable pub record_disposition : DispositionRecord → Instant → Step Table RunError RunState
  unfolding check_and_update
  record_disposition d now = check_and_update (λ s. ok (disposing d now)) d.action_id

  unfoldable pub record_promotion : PromotionRecord → Instant → Step Table RunError RunState
  unfolding check_and_update
  record_promotion p now = check_and_update (λ s. ok (promoting p now)) p.action_id

  unfoldable pub release_unstarted_claim : Uuid → Instant → Instant → Step Table RunError RunState
  unfolding release require
  release_unstarted_claim i expected reconciled_at t =
      continue (release codec i expected reconciled_at t) λ _ t. (require i t, t)

  unfoldable pub abandon_started_claim : Uuid → Instant → Instant → Step Table RunError RunState
  unfolding abandon require
  abandon_started_claim i expected reconciled_at t =
      continue (abandon codec i expected reconciled_at t) λ _ t. (require i t, t)

  -- The WHERE of list_pending_approval.
  unfoldable pub is_pending_row : Row → Bool
  is_pending_row row =
      row.approval_status == some (approval_value awaiting_approval)
      && is_none row.claim_id
      && is_none row.execution_status

  -- ORDER BY created_at, action_id: NULL comes first, and texts by their characters.
  compare_column : Option String → Option String → Ordering
  compare_column none none = Ordering.eq
  compare_column none (some b) = Ordering.lt
  compare_column (some a) none = Ordering.gt
  compare_column (some a) (some b) = compare a b

  unfoldable pub precedes : Row → Row → Bool
  unfolding compare_column
  precedes a b = elim (compare_column a.created_at b.created_at) [
    | Ordering.lt ↦ true
    | Ordering.gt ↦ false
    | Ordering.eq ↦ elim (compare a.action_id b.action_id) [ Ordering.gt ↦ false | _ ↦ true ]
  ]

  unfoldable pub place : Row → List Row → List Row
  place row [] = row ∷ []
  place row (x ∷ xs) = let rest = place row xs in if precedes row x then row ∷ x ∷ xs else x ∷ rest

  unfoldable pub order_rows : List Row → List Row
  order_rows [] = []
  order_rows (x ∷ xs) = place x (order_rows xs)

  unfoldable pub states_from_rows : List Row → Result RunError (List RunState)
  states_from_rows [] = ok []
  states_from_rows (row ∷ rows) = do
    s ← state_from_row codec row
    rest ← states_from_rows rows
    ok (s ∷ rest)

  -- list_pending_approval
  unfoldable pub list_pending_approval : Table → Result RunError (List RunState)
  unfolding states_from_rows order_rows is_pending_row
  list_pending_approval t = states_from_rows (order_rows (keep is_pending_row (Dict.values t)))
