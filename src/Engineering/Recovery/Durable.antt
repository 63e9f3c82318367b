-- ===== src/Engineering/Recovery/Durable.antt =====
-- What a delegated task becomes by its run state alone: the action that is recovered, approved and
-- claimed is the one that was delegated.
use velox_server.Prelude.{String, true, false, none, some, string_eq, nat_eq, option_eq, ◌≡◌, refl}
use velox_server.Prelude.Result.{ok, err}
use velox_server.Prelude.Dict
use velox_server.Prelude.Text.{strip, is_blank}
use velox_server.Actions.{Uuid, Instant, flag, identifier, obj, end, field, role_value}
use velox_server.Delegation.{awaiting_approval, TaskDelegationResult}
use velox_server.Runs.{RunState, normalize_required_objective, is_awaiting, is_approved}
use velox_server.Runs.Memory
use velox_server.Runs.Memory.{Runs, revise, revise_ok, register_new, register_known}
use velox_server.Engineering.{memory_repository, is_canonical_state}
use velox_server.Engineering.Recovery.{
  reported, require_canonical, recovered_action, recover_found, recover_pending, record_approved,
  record_rejected, claim, claim_found, claimed_action, register_delegation, not_claimed,
}
use velox_server.Engineering.Recovery.Registered.{
  Normal, register_delegation_lem, normalized, registered, strip-Normal, recover_registered,
}
use velox_server.Engineering.Recovery.Decided.{
  rejected, touched, record_rejected_lem, record_approved_lem, approved,
}

module _ (m : Runs) (i : Uuid) (target o : String) (at t now : Instant) (claim_id : Uuid) where
  claiming_lem :
      Normal o
      → Memory.claiming claim_id now (approved (registered i target o at) t)
        ≡ ok (o, Memory.claimed claim_id now (approved (registered i target o at) t))
  unfolding Memory.claiming is_approved normalize_required_objective
  claiming_lem h = rw (normalized o h) refl

  claim_lem :
      Normal o
      → Dict.get m i ≡ some (approved (registered i target o at) t)
      → (claim memory_repository i claim_id now m).0
        ≡ ok (recovered_action i target o (obj (field "claim_id" (identifier claim_id) end)) now)
  unfolding claim claim_found claimed_action reported require_canonical is_canonical_state
      role_value Memory.claim_approved
  claim_lem h p = rw p (rw (p, Memory.claim_approved) (rw (claiming_lem h) refl))

  claim_rejected_lem :
      Dict.get m i ≡ some (rejected (registered i target o at) t)
      → claim memory_repository i claim_id now m ≡ (err not_claimed, m)
  unfolding claim claim_found claimed_action reported require_canonical is_canonical_state
      role_value Memory.claim_approved Memory.claiming is_approved
  claim_rejected_lem p = rw p (rw (p, Memory.claim_approved) refl)

  recover_rejected_lem :
      Dict.get m i ≡ some (rejected (registered i target o at) t)
      → recover_pending memory_repository i now m ≡ (ok none, m)
  unfolding recover_pending reported recover_found require_canonical is_canonical_state is_awaiting
      role_value
  recover_rejected_lem p = rw p refl

module _ (m : Runs) (objective target : String) (result : TaskDelegationResult)
    (t₀ t₁ t₂ t₃ : Instant) (claim_id : Uuid) where
  abbrev first : RunState
  first = registered result.action_id target (strip objective) t₀

  abbrev known : Runs
  known = Dict.put m result.action_id first

  found : Dict.get known result.action_id ≡ some first
  found = Dict.get-put_self m result.action_id first

  -- Over the in-memory run repository, a task that the ingress registers as awaiting approval, under
  -- an id that is new and with an objective that is not blank, can be rebuilt from its run state
  -- alone: the recovery gives back the action with its id, its target and its stripped objective;
  -- its approval is recorded; and the claim that follows gives that action again, under the claim's
  -- id.
  pub approved_task_recovered :
      Dict.get m result.action_id ≡ none
      → is_blank objective ≡ false
      → result.status ≡ awaiting_approval
      → let i = result.action_id in
        let registered = register_delegation memory_repository objective target result t₀ m in
        let recovered = recover_pending memory_repository i t₁ registered.1 in
        let action =
          recovered_action i target (strip objective) (obj (field "pending" (flag true) end)) t₁ in
        let decided = record_approved memory_repository action t₂ registered.1 in
        (registered.0 ≡ ok result)
        × ((recovered.0 ≡ ok (some action))
            × ((decided.0 ≡ ok tt)
                × ((claim memory_repository i claim_id t₃ decided.1).0
                    ≡ ok (
                        recovered_action i target
                          (strip objective)
                          (obj (field "claim_id" (identifier claim_id) end))
                          t₃))))
  approved_task_recovered p h r =
      let i = result.action_id in
      let o = strip objective in
      let normal = strip-Normal objective h in
      rw (register_delegation_lem m objective target result t₀ p h r) (
        rw
          (
            recover_registered known i target o t₀ t₁ found normal,
            record_approved_lem known i target o t₀ t₁ t₂ normal found,
          )
          (
            refl,
            (
              refl,
              (
                refl,
                claim_lem (Dict.put (Dict.put known i (touched first t₂)) i (approved first t₂)) i
                    target o t₀ t₂ t₃ claim_id normal
                    (Dict.get-put_self (Dict.put known i (touched first t₂)) i (approved first t₂)),
              ),
            ),
          ))

  -- Over the in-memory run repository, a task that the ingress registers as awaiting approval, under
  -- an id that is new and with an objective that is not blank, is withdrawn by its rejection: right
  -- after it, no action is recovered under its id, and a claim is refused and changes nothing.
  pub rejected_task_withdrawn :
      Dict.get m result.action_id ≡ none
      → is_blank objective ≡ false
      → result.status ≡ awaiting_approval
      → let i = result.action_id in
        let registered = (register_delegation memory_repository objective target result t₀ m).1 in
        let action =
          recovered_action i target (strip objective) (obj (field "pending" (flag true) end)) t₁ in
        let decided = record_rejected memory_repository action t₂ registered in
        (decided.0 ≡ ok tt)
        × ((recover_pending memory_repository i t₃ decided.1 ≡ (ok none, decided.1))
            × (claim memory_repository i claim_id t₃ decided.1 ≡ (err not_claimed, decided.1)))
  rejected_task_withdrawn p h r =
      let i = result.action_id in
      let o = strip objective in
      let after = Dict.put (Dict.put known i (touched first t₂)) i (rejected first t₂) in
      let gone = Dict.get-put_self (Dict.put known i (touched first t₂)) i (rejected first t₂) in
      rw (register_delegation_lem m objective target result t₀ p h r) (
        rw (record_rejected_lem known i target o t₀ t₁ t₂ (strip-Normal objective h) found) (
          refl,
          (
            recover_rejected_lem after i target o t₀ t₂ t₃ claim_id gone,
            claim_rejected_lem after i target o t₀ t₂ t₃ claim_id gone,
          ),
        ))
