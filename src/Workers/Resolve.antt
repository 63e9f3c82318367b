-- ===== src/Workers/Resolve.antt =====
-- The resolution side of `WorkerExecutorRegistry`: which executor an action is routed to.
pub mod Unique
use velox_server.Prelude.{
  String, Bool, true, false, Option, none, some, option_map, is_none, ◌==◌, string_eq, option_eq,
  ◌&&◌, ◌||◌, not, List, [], ◌∷◌, keep, any, if◌then◌else◌,
}
use velox_server.Prelude.Dict
use velox_server.Prelude.Text.{strip}
use velox_server.Actions.{Instant, Value, null, text, obj, Fields, field_of, Action}
use velox_server.Workers.Executor.{
  WorkerAccountContext, account_eq, WorkerExecutor, ExecutionOutcome, normalize_identifier,
  normalize_role, normalize_route_value,
}
use velox_server.Workers.Registry.{Registration, Registry, account_key}

pub data RoutingReason : Type 0 where
  missing_executor_role invalid_capability invalid_capability_provider : RoutingReason
  invalid_account_context no_handler capability_route : RoutingReason
  ambiguous_capability_route missing_account_context : RoutingReason

pub record WorkerExecutorResolution : Type 0 where
  pub executor : WorkerExecutor
  pub requested_role : Option String
  pub registered : Bool
  pub requested_capability : Option String
  pub requested_provider : Option String
  pub matched_provider : Option String
  pub requested_account_context : Option WorkerAccountContext
  pub matched_account_context : Option WorkerAccountContext
  pub routing_reason : RoutingReason

-- WorkerExecutorResolution.execute
unfoldable pub execute : WorkerExecutorResolution → Instant → Action → ExecutionOutcome
execute r now action =
    r.executor now action (if r.registered then r.requested_capability else none)
      r.matched_account_context

-- _CapabilityRouteRequest and _CapabilityProviderRequest
pub record TextRequest : Type 0 where
  pub value : Option String
  pub present : Bool
  pub valid : Bool

pub record AccountContextRequest : Type 0 where
  pub account_context : Option WorkerAccountContext
  pub present : Bool
  pub valid : Bool

-- `value or None`, with `present` as given and `valid=bool(value)`
unfoldable pub request_of : Bool → String → TextRequest
request_of present s = record {
  value = if s == "" then none else some s;
  present = present;
  valid = not (s == "");
}

-- _parse_account_context
principal_of : Option Value → Option String
principal_of none = none
principal_of (some null) = none
principal_of (some v) = some (normalize_route_value (some v))

invalid_context : AccountContextRequest
invalid_context = record { account_context = none; present = true; valid = false }

unfoldable pub parse_account_context : Value → AccountContextRequest
unfolding principal_of invalid_context
parse_account_context (obj fs) =
    let account_identifier = normalize_route_value (field_of fs "account_identifier") in
    let principal = principal_of (field_of fs "principal") in
    if principal == some ""
    then invalid_context
    else if account_identifier == ""
    then invalid_context
    else record {
      account_context =
          some (record { principal = principal; account_identifier = account_identifier });
      present = true;
      valid = true;
    }
parse_account_context _ = invalid_context

-- What the registry looks for.
pub record RouteRequest : Type 0 where
  pub role : String
  pub capability : String
  pub provider : Option String
  pub account_context : Option WorkerAccountContext

unfoldable pub serves : RouteRequest → Registration → Bool
serves q r =
    r.capability.role == q.role
    && r.capability.identifier == q.capability
    && (is_none q.provider || q.provider == some r.capability.provider)

-- The condition of `_matching_capability_routes`.
unfoldable pub matches : RouteRequest → Registration → Bool
unfolding serves account_key
matches q r =
    serves q r
    && account_key r.account_context == account_key q.account_context
    && r.account_context == q.account_context

-- _matching_capability_routes
unfoldable pub matching_routes : Registry → RouteRequest → List Registration
matching_routes g q = keep (matches q) (Dict.values g.registrations)

-- _has_account_specific_routes
unfoldable pub has_account_specific_routes : Registry → RouteRequest → Bool
has_account_specific_routes g q =
    any (λ r. serves q r && not (is_none r.account_context)) (Dict.values g.registrations)

-- A resolution that routes to the fallback executor.
unfoldable pub fall_back :
    Registry
    → Option String
    → Option String
    → Option String
    → Option WorkerAccountContext
    → RoutingReason
    → WorkerExecutorResolution
fall_back g role capability provider context reason = record {
  executor = g.fallback_executor;
  requested_role = role;
  registered = false;
  requested_capability = capability;
  requested_provider = provider;
  matched_provider = none;
  requested_account_context = context;
  matched_account_context = none;
  routing_reason = reason;
}

-- The resolution by the list of matching routes; `other` is the outcome where there is none.
unfoldable pub choose :
    Registry
    → RouteRequest
    → WorkerExecutorResolution
    → List Registration
    → WorkerExecutorResolution
unfolding fall_back
choose g q other [] = other
choose g q other (r ∷ []) = record {
  executor = r.executor;
  requested_role = some q.role;
  registered = true;
  requested_capability = some q.capability;
  requested_provider = q.provider;
  matched_provider = some r.capability.provider;
  requested_account_context = q.account_context;
  matched_account_context = r.account_context;
  routing_reason = capability_route;
}
choose g q other (r ∷ s ∷ rs) =
    fall_back g (some q.role) (some q.capability) q.provider q.account_context
      ambiguous_capability_route

-- The reason where no route matches. With a provider the code tests the account-specific routes
-- before the account context, and without one after it.
unfoldable pub unmatched_reason : Registry → RouteRequest → RoutingReason
unmatched_reason g q =
    if has_account_specific_routes g q && is_none q.account_context
    then missing_account_context
    else no_handler

-- _resolve_capability_route, with the `no_handler` resolution that its caller falls back to
unfoldable pub resolve_capability_route : Registry → RouteRequest → WorkerExecutorResolution
unfolding choose unmatched_reason matching_routes
resolve_capability_route g q =
    choose g q
      (fall_back g (some q.role) (some q.capability) q.provider q.account_context
        (unmatched_reason g q))
      (matching_routes g q)

no_capability_or_route :
    Registry
    → String
    → Option String
    → Option String
    → Option WorkerAccountContext
    → WorkerExecutorResolution
no_capability_or_route g role none provider context =
    fall_back g (some role) none provider context no_handler
no_capability_or_route g role (some capability) provider context =
    resolve_capability_route g (record {
      role = role;
      capability = capability;
      provider = provider;
      account_context = context;
    })

-- _account_context_for_action
unfoldable pub account_context_for_action : Action → AccountContextRequest
account_context_for_action action = elim (Dict.get action.payload "account_context") [
  | some v ↦ parse_account_context v
  | none ↦ elim (Dict.get action.metadata "account_context") [
    | some v ↦ parse_account_context v
    | none ↦ record { account_context = none; present = false; valid = true }
  ]
]

module _ (casefold : String → String) where
  -- The key of the payload, else of the metadata, else what stands for an absent key.
  unfoldable pub text_request : Action → String → TextRequest → TextRequest
  text_request action key absent = elim (Dict.get action.payload key) [
    | some v ↦ request_of true (normalize_identifier casefold (some v))
    | none ↦ elim (Dict.get action.metadata key) [
      | some v ↦ request_of true (normalize_identifier casefold (some v))
      | none ↦ absent
    ]
  ]

  -- _capability_for_action
  unfoldable pub capability_for_action : Action → TextRequest
  unfolding text_request
  capability_for_action action =
      text_request action "capability"
        (request_of false (normalize_identifier casefold (some (text action.type))))

  -- _provider_for_action
  unfoldable pub provider_for_action : Action → TextRequest
  unfolding text_request
  provider_for_action action =
      text_request action "capability_provider"
        (record { value = none; present = false; valid = true })

  -- WorkerExecutorRegistry.resolve_with_registration
  unfoldable pub resolve : Registry → Action → WorkerExecutorResolution
  unfolding no_capability_or_route fall_back
  resolve g action =
      let role = normalize_role action.executor_role in
      let capability = capability_for_action action in
      let provider = provider_for_action action in
      let context = account_context_for_action action in
      if role == ""
      then fall_back g none none none none missing_executor_role
      else if capability.present && not capability.valid
      then fall_back g (some role) capability.value provider.value context.account_context
          invalid_capability
      else if provider.present && not provider.valid
      then fall_back g (some role) capability.value provider.value context.account_context
          invalid_capability_provider
      else if context.present && not context.valid
      then fall_back g (some role) capability.value provider.value context.account_context
          invalid_account_context
      else no_capability_or_route g role capability.value provider.value context.account_context
