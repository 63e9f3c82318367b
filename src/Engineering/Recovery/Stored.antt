-- ===== src/Engineering/Recovery/Stored.antt =====
-- The recovery over the SQLite repository: each call does what it does over the runs in memory that
-- the table stands for.
use velox_server.Prelude.{
  String, true, false, Option, none, some, nat_eq, ◌≡◌, refl, ◌∙◌, subst, Bool-cases, inl, inr,
}
use velox_server.Prelude.Result.{Result, ok, err, continue, Step}
use velox_server.Prelude.Dict
use velox_server.Prelude.Text.{strip, is_blank}
use velox_server.Actions.{Uuid, Instant, Action, flag, identifier, obj, end, field}
use velox_server.Delegation.{awaiting_approval, TaskDelegationResult}
use velox_server.Runs.{RunState, RunError}
use velox_server.Runs.Memory.{Runs}
use velox_server.Runs.Table.{Codec, Table}
use velox_server.Runs.Table.Represents.{Represents, find_lem}
use velox_server.Runs.Table.Refine.{register_action_lem, record_approval_lem}
use velox_server.Runs.Table.Settling.{claim_approved_lem}
use velox_server.Engineering.{memory_repository, sqlite_repository}
use velox_server.Engineering.Recovery.{
  RecoveryError, reported, pending_unavailable, not_registered, not_approved, not_claimed,
  claim_unavailable, is_canonical_action, objective_of, require_canonical, recovered_action,
  recover_pending, recover_found, recover_awaiting, registration_of, ensure_registered, prepare,
  record_approved, claim, claim_found, claimed_action, ingress_registration, register_delegation,
}
use velox_server.Engineering.Recovery.Durable.{approved_task_recovered}

module _ (codec : Codec) where
  -- The same answer, and a table that stands for the runs after it.
  abbrev Follows : {E A : Type 0} → Result E A × Table → Result E A × Runs → Type 0
  Follows x y = (x.0 ≡ y.0) × Represents codec x.1 y.1

  reported-Follows :
      {A : Type 0} (e : RecoveryError) (x : Result RunError A × Table)
      (y : Result RunError A × Runs)
      → Follows x y
      → Follows (reported e x) (reported e y)
  unfolding reported
  reported-Follows {A} e (r, t) (r', m) (p, h) =
      subst (λ r'. Follows (reported e (r, t)) (reported e (r', m))) p (by_answer r)
    where
      by_answer : (r : Result RunError A) → Follows (reported e (r, t)) (reported e (r, m))
      by_answer (ok a) = (refl, h)
      by_answer (err e) = (refl, h)

  continue-Follows :
      {E A B : Type 0} (x : Result E A × Table) (y : Result E A × Runs) (f : A → Step Table E B)
      (g : A → Step Runs E B)
      → Follows x y
      → ((a : A) (t : Table) (m : Runs) → Represents codec t m → Follows (f a t) (g a m))
      → Follows (continue x f) (continue y g)
  continue-Follows {E} {A} (r, t) (r', m) f g (p, h) k =
      subst (λ r'. Follows (continue (r, t) f) (continue (r', m) g)) p (by_answer r)
    where
      by_answer : (r : Result E A) → Follows (continue (r, t) f) (continue (r, m) g)
      by_answer (ok a) = k a t m h
      by_answer (err e) = (refl, h)

  module _ (t : Table) (m : Runs) (h : Represents codec t m) where
    register_delegation-Follows :
        (objective target : String) (result : TaskDelegationResult) (now : Instant)
        → Follows
            (register_delegation (sqlite_repository codec) objective target result now t)
            (register_delegation memory_repository objective target result now m)
    unfolding register_delegation ingress_registration
    register_delegation-Follows objective target result now =
        continue-Follows _ _ _ _
          (register_action_lem codec t m h
            (ingress_registration memory_repository objective target result) now)
          λ _ t m h. (refl, h)

    recover_pending-Follows :
        (i : Uuid) (now : Instant)
        → Follows
            (recover_pending (sqlite_repository codec) i now t)
            (recover_pending memory_repository i now m)
    unfolding recover_pending recover_found recover_awaiting
    recover_pending-Follows i now =
        continue-Follows _ _ _ _
          (reported-Follows pending_unavailable _ _ (find_lem codec t m i h, h))
          λ found t m h. (by_run found, h)
      where
        by_run :
            (found : Option RunState)
            → recover_found (sqlite_repository codec) now found
              ≡ recover_found memory_repository now found
        by_run none = refl
        by_run (some s) = refl

  module _ (t : Table) (m : Runs) (h : Represents codec t m) where
    prepare-Follows :
        (a : Action) (now : Instant)
        → Follows (prepare (sqlite_repository codec) a now t) (prepare memory_repository a now m)
    unfolding prepare ensure_registered registration_of
    prepare-Follows a now =
        continue-Follows (objective_of a, t) (objective_of a, m) _ _ (refl, h)
          λ objective t m h.
            continue-Follows _ _ _ _
              (continue-Follows _ _ _ _
                (reported-Follows not_registered _ _ (find_lem codec t m a.id h, h))
                λ current t m h. reported-Follows not_registered _ _ (
                  register_action_lem codec t m h
                    (registration_of memory_repository a objective current) now))
              λ _ t m h. (refl, h)

  module _ (t : Table) (m : Runs) (h : Represents codec t m) where
    record_approved-Follows :
        (a : Action) (now : Instant)
        → Follows
            (record_approved (sqlite_repository codec) a now t)
            (record_approved memory_repository a now m)
    unfolding record_approved
    record_approved-Follows a now = elim (Bool-cases (is_canonical_action a)) [
      | inl canonical ↦ rw canonical (
          continue-Follows _ _ _ _ (prepare-Follows t m h a now) λ objective t m h.
            continue-Follows _ _ _ _
              (reported-Follows not_approved _ _
                (record_approval_lem codec t m h a.id objective now now))
              λ _ t m h. (refl, h))
      | inr other ↦ rw other (refl, h)
    ]

    claim-Follows :
        (i claim_id : Uuid) (now : Instant)
        → Follows
            (claim (sqlite_repository codec) i claim_id now t)
            (claim memory_repository i claim_id now m)
    unfolding claim claim_found claimed_action
    claim-Follows i claim_id now =
        continue-Follows _ _ _ _
          (reported-Follows claim_unavailable _ _ (find_lem codec t m i h, h)) by_run
      where
        by_run :
            (found : Option RunState) (t : Table) (m : Runs)
            → Represents codec t m
            → Follows
                (claim_found (sqlite_repository codec) i claim_id now found t)
                (claim_found memory_repository i claim_id now found m)
        by_run none t m h = (refl, h)
        by_run (some s) t m h =
            continue-Follows (require_canonical s, t) (require_canonical s, m) _ _ (refl, h)
              λ _ t m h.
                continue-Follows _ _ _ _
                  (reported-Follows not_claimed _ _ (claim_approved_lem codec t m i h claim_id now))
                  λ c t m h. (refl, h)

  -- Over the SQLite run repository, a task survives in the table: after the ingress registered it as
  -- awaiting approval, under an id that is new and with an objective that is not blank, each later
  -- call has its answer from the table alone, as a restarted process has it. The recovery gives back
  -- the action with its id, its target and its stripped objective; its approval is recorded; and the
  -- claim that follows gives that action again, under the claim's id. At the start the table stands
  -- for some runs.
  pub approved_task_survives :
      (t : Table) (m : Runs) (objective target : String) (result : TaskDelegationResult)
      (t₀ t₁ t₂ t₃ : Instant) (claim_id : Uuid)
      → Represents codec t m
      → Dict.get m result.action_id ≡ none
      → is_blank objective ≡ false
      → result.status ≡ awaiting_approval
      → let repository = sqlite_repository codec in
        let i = result.action_id in
        let registered = register_delegation repository objective target result t₀ t in
        let action =
          recovered_action i target (strip objective) (obj (field "pending" (flag true) end)) t₁ in
        let decided = record_approved repository action t₂ registered.1 in
        (registered.0 ≡ ok result)
        × ((recover_pending repository i t₁ registered.1).0 ≡ ok (some action))
        × (decided.0 ≡ ok tt)
        × ((claim repository i claim_id t₃ decided.1).0
            ≡ ok (
                recovered_action i target
                  (strip objective)
                  (obj (field "claim_id" (identifier claim_id) end))
                  t₃))
  approved_task_survives t m objective target result t₀ t₁ t₂ t₃ claim_id h unknown solid awaited =
      let i = result.action_id in
      let action =
        recovered_action i target (strip objective) (obj (field "pending" (flag true) end)) t₁ in
      let (registered, (recovered, (decided, claimed))) =
        approved_task_recovered m objective target result t₀ t₁ t₂ t₃ claim_id unknown solid
          awaited in
      let (p, h₁) = register_delegation-Follows t m h objective target result t₀ in
      let t' = (register_delegation (sqlite_repository codec) objective target result t₀ t).1 in
      let m' = (register_delegation memory_repository objective target result t₀ m).1 in
      let (q, same) = recover_pending-Follows t' m' h₁ i t₁ in
      let (r, h₂) = record_approved-Follows t' m' h₁ action t₂ in
      let (s, after) =
        claim-Follows (record_approved (sqlite_repository codec) action t₂ t').1
          (record_approved memory_repository action t₂ m').1 h₂ i claim_id t₃ in
      (p ∙ registered, q ∙ recovered, r ∙ decided, s ∙ claimed)
