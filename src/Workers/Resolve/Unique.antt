-- ===== src/Workers/Resolve/Unique.antt =====
-- The registry never guesses: it hands out a registered executor only for a unique match.
use velox_server.Prelude.{
  String, Bool, true, false, Option, none, some, ◌==◌, string_eq, option_eq, ◌&&◌, not, List, [],
  ◌∷◌, keep, ◌≡◌, refl, inl, inr, arith, Bool-cases,
}
use velox_server.Actions.{Action}
use velox_server.Workers.Executor.{WorkerAccountContext, account_eq, normalize_role}
use velox_server.Workers.Registry.{Registration, Registry}
use velox_server.Workers.Resolve.{
  WorkerExecutorResolution, RouteRequest, matches, matching_routes, fall_back, choose,
  resolve_capability_route, no_capability_or_route, resolve, capability_for_action,
  provider_for_action, account_context_for_action, capability_route,
}

-- The resolution hands out the only registration that matches the request.
pub record IsUniqueRoute (g : Registry) (q : RouteRequest) (s : WorkerExecutorResolution)
    (r : Registration) : Type 0 where
  pub only : matching_routes g q ≡ r ∷ []
  pub executor : s.executor ≡ r.executor
  pub role : s.requested_role ≡ some q.role
  pub capability : s.requested_capability ≡ some q.capability
  pub provider : s.matched_provider ≡ some r.capability.provider
  pub account : s.matched_account_context ≡ r.account_context
  pub reason : s.routing_reason ≡ capability_route

choose_unique :
    (g : Registry) (q : RouteRequest) (other : WorkerExecutorResolution) (rs : List Registration)
    → matching_routes g q ≡ rs
    → other.registered ≡ false
    → (choose g q other rs).registered ≡ true
    → (r : Registration) × IsUniqueRoute g q (choose g q other rs) r
unfolding choose
choose_unique g q other [] e h registered = cc
choose_unique g q other (r ∷ []) e h registered = (
  r,
  record {
    only = e;
    executor = refl;
    role = refl;
    capability = refl;
    provider = refl;
    account = refl;
    reason = refl;
  },
)
choose_unique g q other (r ∷ s ∷ rs) e h registered = cc

keep-head :
    (p : Registration → Bool) (xs : List Registration) {r : Registration}
    → keep p xs ≡ r ∷ []
    → p r ≡ true
keep-head p [] h = cc
keep-head p (x ∷ xs) h = elim (Bool-cases (p x)) [
  | inl holds ↦ ground arith
  | inr fails ↦ keep-head p xs (rw fails at h)
]

matches-account :
    (q : RouteRequest) (r : Registration)
    → matches q r ≡ true
    → r.account_context ≡ q.account_context
unfolding matches
matches-account q r h =
    ground
      (arith, (option_eq {A = WorkerAccountContext}).eqb_iff r.account_context q.account_context)

-- What an action asks for, given its capability.
abbrev pub request_of_action : (String → String) → Action → String → RouteRequest
request_of_action casefold action capability = record {
  role = normalize_role action.executor_role;
  capability = capability;
  provider = (provider_for_action casefold action).value;
  account_context = (account_context_for_action action).account_context;
}

module _ (casefold : String → String) (g : Registry) (action : Action) where
  abbrev pub Routed : WorkerExecutorResolution → Type 0
  Routed s =
      (capability : String) × ((capability_for_action casefold action).value ≡ some capability)
      × (r : Registration) × IsUniqueRoute g (request_of_action casefold action capability) s r
      × (r.account_context ≡ (account_context_for_action action).account_context)

  route_by_capability :
      (capability : Option String)
      → (capability_for_action casefold action).value ≡ capability
      → let s =
          no_capability_or_route g
            (normalize_role action.executor_role)
            capability
            (provider_for_action casefold action).value
            (account_context_for_action action).account_context in
        s.registered ≡ true → Routed s
  unfolding no_capability_or_route fall_back resolve_capability_route
  route_by_capability none e registered = cc
  route_by_capability (some c) e registered =
      let q = request_of_action casefold action c in
      let (r, unique) = choose_unique g q _ (matching_routes g q) refl refl registered in
      (
        c,
        e,
        r,
        unique,
        matches-account q r (unfold matching_routes in keep-head (matches q) _ unique.only),
      )

  -- A registered resolution hands out the executor of the only registration that matches the role,
  -- the capability, the provider, where one is named, and the account context that the action asks
  -- for. The registration's account context is the action's own.
  pub resolve_unique :
      (resolve casefold g action).registered ≡ true → Routed (resolve casefold g action)
  unfolding resolve
  resolve_unique =
      let role = normalize_role action.executor_role in
      let capability = capability_for_action casefold action in
      let provider = provider_for_action casefold action in
      let context = account_context_for_action action in
      elim (Bool-cases (role == "")) [
        | inl e ↦ rw e (λ h. cc)
        | inr e₁ ↦ rw e₁ (elim (Bool-cases (capability.present && not capability.valid)) [
          | inl e ↦ rw e (λ h. cc)
          | inr e₂ ↦ rw e₂ (elim (Bool-cases (provider.present && not provider.valid)) [
            | inl e ↦ rw e (λ h. cc)
            | inr e₃ ↦ rw e₃ (elim (Bool-cases (context.present && not context.valid)) [
              | inl e ↦ rw e (λ h. cc)
              | inr e₄ ↦ rw e₄ (route_by_capability capability.value refl)
            ])
          ])
        ])
      ]
