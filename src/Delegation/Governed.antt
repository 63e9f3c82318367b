-- ===== src/Delegation/Governed.antt =====
-- What a delegation does to the control plane, and what the registry reads out of its action.
use velox_server.Prelude.{
  String, true, false, Option, none, some, ◌==◌, string_eq, [], ◌∷◌, ◌≡◌, refl, ◌⊎◌, inl, inr,
  arith, sym, subst, Bool-cases, if◌then◌else◌, option_eq,
}
use velox_server.Prelude.Result.{ok}
use velox_server.Prelude.Dict
use velox_server.Prelude.Text.{strip, is_blank}
use velox_server.Actions.{Uuid, Instant, Action, field_of}
use velox_server.ControlPlane.{ControlPlane, enqueue}
use velox_server.Lifecycle.{PermissionStatus, allowed, requires_approval, denied}
use velox_server.Permission.{EngineOutcome}
use velox_server.Permission.Evaluation.{decision_for, evaluation_of, evaluated_plane, evaluate_lem}
use velox_server.Workers.Executor.{
  WorkerAccountContext, as_metadata, normalize_identifier, normalize_route_value,
}
use velox_server.Workers.Registry.{Registry, normalize_account_context, checked_context}
use velox_server.Workers.Resolve.{
  resolve, capability_for_action, account_context_for_action, text_request, request_of,
  parse_account_context,
}
use velox_server.Delegation.{
  TaskDelegationRequest, TaskDelegationResult, check_request, action_for, delegate,
  delegated_status, queue_allowed, route_rejected, account_entry, task_queued, awaiting_approval,
  task_denied,
}

-- What follows from the decision on an action: only an allowed one joins the queue.
abbrev pub Settled :
    PermissionStatus → Action → ControlPlane → TaskDelegationResult → ControlPlane → Type 0
Settled status a c r c' =
    ((status ≡ allowed) × (r.status ≡ task_queued) × (c' ≡ enqueue c a))
    ⊎ (((status ≡ requires_approval) × (r.status ≡ awaiting_approval) × (c' ≡ c))
        ⊎ ((status ≡ denied) × (r.status ≡ task_denied) × (c' ≡ c)))

settle_lem :
    (status : PermissionStatus) (a : Action) (c : ControlPlane) (r : TaskDelegationResult)
    → r.status ≡ delegated_status status
    → Settled status a c r (queue_allowed status a c)
unfolding delegated_status queue_allowed
settle_lem allowed a c r h = inl (refl, h, refl)
settle_lem requires_approval a c r h = inr (inl (refl, h, refl))
settle_lem denied a c r h = inr (inr (refl, h, refl))

module _ (engine : Action → Instant → EngineOutcome) (casefold : String → String)
    (registry : Registry) (q : TaskDelegationRequest) (id : Uuid) (now : Instant)
    (c : ControlPlane) where
  -- The two outcomes of a delegation.
  abbrev pub Delegated : TaskDelegationResult → ControlPlane → Type 0
  Delegated r c' =
      let a = action_for q id now in
      let status = (decision_for engine now a).status in
      ((resolve casefold registry a).registered ≡ false) × (r.status ≡ route_rejected) × (c' ≡ c)
      ⊎ (((resolve casefold registry a).registered ≡ true)
          × (r.permission_status ≡ some status)
          × Settled status (evaluation_of engine now a).action (evaluated_plane engine now a c) r
              c')

  -- A delegation never raises. Without a registered route the request is rejected and nothing
  -- changes. With one, the permission runtime decides on the action and the result reports the
  -- decision. An allowed action joins the queue and the task is queued; one that requires approval
  -- awaits it, and a denied one is denied, and neither joins the queue.
  pub delegate_cases :
      (r : TaskDelegationResult) × (c' : ControlPlane) × (delegate engine casefold registry q id now
          c
        ≡ (ok r, c'))
      × Delegated r c'
  unfolding delegate
  delegate_cases = elim (Bool-cases (resolve casefold registry (action_for q id now)).registered) [
    | inl routed ↦
        let a = action_for q id now in
        let status = (decision_for engine now a).status in
        let r : TaskDelegationResult = record {
          action_id = a.id;
          status = delegated_status status;
          permission_status = some status;
          routing_reason = (resolve casefold registry a).routing_reason;
        } in
        (
          r,
          queue_allowed status (evaluation_of engine now a).action (evaluated_plane engine now a c),
          rw routed (rw (evaluate_lem engine now (a ∷ []) c) refl),
          inr (
            routed,
            refl,
            settle_lem status (evaluation_of engine now a).action (evaluated_plane engine now a c) r
                refl,
          ),
        )
    | inr unrouted ↦
        let a = action_for q id now in
        (
          record {
            action_id = a.id;
            status = route_rejected;
            permission_status = none;
            routing_reason = (resolve casefold registry a).routing_reason;
          },
          c,
          rw unrouted refl,
          inl (unrouted, refl, refl),
        )
  ]

-- The account context that the registry reads out of a delegated action is the request's, in the
-- normal form in which manifests are registered.
parse_as_metadata :
    (c : WorkerAccountContext)
    → (parse_account_context (as_metadata c)).account_context ≡ normalize_account_context (some c)
unfolding parse_account_context as_metadata field_of normalize_route_value normalize_account_context
    checked_context
parse_as_metadata c = by_principal c.principal c.account_identifier
  where
    by_principal :
        (p : Option String) (a : String)
        → let c : WorkerAccountContext = record { principal = p; account_identifier = a } in
          (parse_account_context (as_metadata c)).account_context
          ≡ normalize_account_context (some c)
    by_principal none a = ground arith
    by_principal (some p) a = ground arith

account_read :
    (context : Option WorkerAccountContext) (q : TaskDelegationRequest) (id : Uuid) (now : Instant)
    → q.account_context ≡ context
    → (account_context_for_action (action_for q id now)).account_context
      ≡ normalize_account_context context
unfolding account_context_for_action action_for Dict.get account_entry normalize_account_context
account_read none q id now e = rw e refl
account_read (some context) q id now e = rw e (parse_as_metadata context)

-- A canonical capability is not blank, and is its own normal form.
valid_capability :
    (casefold : String → String) (q : TaskDelegationRequest)
    → check_request casefold q ≡ ok tt
    → (is_blank q.capability ≡ false) × ((q.capability == casefold (strip q.capability)) ≡ true)
unfolding check_request
valid_capability casefold q valid = ground arith

empty_is_blank : ¬ (is_blank "" ≡ false)
unfolding is_blank strip
empty_is_blank e = cc

solid_identifier :
    (casefold : String → String) (capability : String)
    → (is_blank capability ≡ false) × ((capability == casefold (strip capability)) ≡ true)
    → (if casefold (strip capability) == "" then none else some (casefold (strip capability)))
      ≡ some capability
solid_identifier casefold capability (solid, same) =
    let folded : capability ≡ casefold (strip capability) =
      (string_eq.eqb_iff capability (casefold (strip capability))).0 same in
    rw (sym folded) (elim (Bool-cases (capability == "")) [
      | inl blank ↦
          let empty : is_blank "" ≡ false =
            subst (λ s. is_blank s ≡ false) ((string_eq.eqb_iff capability "").0 blank) solid in
          elim (empty_is_blank empty) [ ]
      | inr named ↦ rw named refl
    ])

-- What the registry reads out of the action of a valid request is what the request asks for: its
-- capability as given, and its account context in the normal form of registered contexts.
pub delegated_request :
    (casefold : String → String) (q : TaskDelegationRequest) (id : Uuid) (now : Instant)
    → check_request casefold q ≡ ok tt
    → ((capability_for_action casefold (action_for q id now)).value ≡ some q.capability)
      × ((account_context_for_action (action_for q id now)).account_context
          ≡ normalize_account_context q.account_context)
unfolding check_request capability_for_action action_for Dict.get request_of normalize_identifier
    is_blank text_request
delegated_request casefold q id now valid =
    (by_capability, account_read q.account_context q id now refl)
  where
    by_capability : (capability_for_action casefold (action_for q id now)).value ≡ some q.capability
    by_capability = solid_identifier casefold q.capability (valid_capability casefold q valid)
