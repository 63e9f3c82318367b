-- ===== src/Workers/Registry.antt =====
-- The registration side of `WorkerExecutorRegistry`: provider manifests and capability routes.
-- A registry that raises half way keeps what it has registered, so each call returns the registry
-- beside its result.
pub mod Atomic
use velox_server.Prelude.{
  String, Bool, true, false, Option, none, some, option_map, is_none, ◌==◌, string_eq, option_eq,
  ◌&&◌, ◌||◌, not, List, [], ◌∷◌, ◌++◌, map, any, Eq, ◌≡◌, ◌↔◌, arith, if◌then◌else◌,
}
use velox_server.Prelude.Result.{Result, ok, err, raise_if, ◌>>=◌, ◌>>◌}
use velox_server.Prelude.Dict
use velox_server.Prelude.Dict.{Dict}
use velox_server.Prelude.Text.{strip}
use velox_server.Actions.{
  text, content_review, content_summary, context_preparation, software_engineering, role_value,
}
use velox_server.Workers.Executor.{
  WorkerAccountContext, WorkerCapability, WorkerExecutor, normalize_identifier,
}

-- The key of a registration: role, capability, provider and account identifier.
pub record RouteKey : Type 0 where
  pub role : String
  pub capability : String
  pub provider : String
  pub account : Option String

unfoldable pub same_route : RouteKey → RouteKey → Bool
same_route a b =
    a.role == b.role
    && a.capability == b.capability
    && a.provider == b.provider
    && a.account == b.account

pub same_route_iff : (a b : RouteKey) → (same_route a b ≡ true) ↔ (a ≡ b)
unfolding same_route
same_route_iff a b = ground (
  arith,
  string_eq.eqb_iff a.role b.role,
  string_eq.eqb_iff a.capability b.capability,
  string_eq.eqb_iff a.provider b.provider,
  (option_eq {A = String}).eqb_iff a.account b.account,
)

instance abbrev pub route_eq : Eq RouteKey
route_eq = record { eqb = same_route; eqb_iff = same_route_iff }

-- _WorkerProviderRegistration
pub record Registration : Type 0 where
  pub capability : WorkerCapability
  pub executor : WorkerExecutor
  pub account_context : Option WorkerAccountContext

pub record Registry : Type 0 where
  pub registrations : Dict RouteKey Registration
  pub fallback_executor : WorkerExecutor

pub record ProviderManifest : Type 0 where
  pub capabilities : List WorkerCapability
  pub executor : WorkerExecutor
  pub account_context : Option WorkerAccountContext

pub data RegistryError : Type 0 where
  empty_account_context route_registered : RegistryError
  no_capabilities invalid_identifier invalid_provider invalid_role duplicate_route : RegistryError
  many_providers manifest_account_context route_conflict : RegistryError

-- The last part of `_normalize_account_context`.
unfoldable pub checked_context : Option String → String → Option WorkerAccountContext
checked_context principal account_identifier =
    if account_identifier == ""
    then none
    else if principal == some ""
    then none
    else some (record { principal = principal; account_identifier = account_identifier })

-- WorkerExecutorRegistry._normalize_account_context
unfoldable pub normalize_account_context : Option WorkerAccountContext → Option WorkerAccountContext
unfolding checked_context
normalize_account_context none = none
normalize_account_context (some c) =
    checked_context (option_map strip c.principal) (strip c.account_identifier)

unfoldable pub account_key : Option WorkerAccountContext → Option String
account_key c = option_map (λ a. a.account_identifier) c

unfoldable pub route_key : WorkerCapability → Option WorkerAccountContext → RouteKey
unfolding account_key
route_key c context = record {
  role = c.role;
  capability = c.identifier;
  provider = c.provider;
  account = account_key context;
}

-- `route_key in self._provider_registrations`
unfoldable pub is_registered : Registry → RouteKey → Bool
is_registered r k = not (is_none (Dict.get r.registrations k))

-- The write of `register_capability`.
unfoldable pub add_route :
    Registry → WorkerCapability → WorkerExecutor → Option WorkerAccountContext → Registry
unfolding route_key
add_route r c executor context = record r {
  registrations =
      Dict.put r.registrations (route_key c context)
        (record { capability = c; executor = executor; account_context = context });
}

-- WorkerExecutorRegistry.register_capability
unfoldable pub register_capability :
    Registry
    → WorkerCapability
    → WorkerExecutor
    → Option WorkerAccountContext
    → Result RegistryError (Unit {0}) × Registry
unfolding is_registered
register_capability r c executor account_context =
    let normalized = normalize_account_context account_context in
    if not (is_none account_context) && is_none normalized
    then (err empty_account_context, r)
    else if is_registered r (route_key c normalized)
    then (err route_registered, r)
    else (ok tt, add_route r c executor normalized)

-- WorkerExecutorRegistry.register_capabilities: the loop ends at the first exception.
unfoldable pub register_capabilities :
    Registry
    → List WorkerCapability
    → WorkerExecutor
    → Option WorkerAccountContext
    → Result RegistryError (Unit {0}) × Registry
register_capabilities r [] executor context = (ok tt, r)
register_capabilities r (c ∷ more) executor context =
    let (result, r') = register_capability r c executor context in
    elim result [ ok _ ↦ register_capabilities r' more executor context | err e ↦ (err e, r') ]

-- The roles that an `ExecutorRole` has.
unfoldable pub is_executor_role : String → Bool
unfolding role_value
is_executor_role r =
    r == role_value content_review
    || r == role_value content_summary
    || r == role_value context_preparation
    || r == role_value software_engineering

-- The route of a manifest's capability, without an account.
abbrev pub plain_key : WorkerCapability → RouteKey
plain_key c = record {
  role = c.role;
  capability = c.identifier;
  provider = c.provider;
  account = none;
}

unfoldable pub has_key : List RouteKey → RouteKey → Bool
has_key keys k = any (λ j. j == k) keys

module _ (casefold : String → String) where
  -- The checks on one capability of a manifest.
  unfoldable pub check_capability : WorkerCapability → Result RegistryError (Unit {0})
  unfolding is_executor_role
  check_capability c = do
    raise_if
        (c.identifier == ""
          || not (c.identifier == normalize_identifier casefold (some (text c.identifier))))
        invalid_identifier
    raise_if
        (c.provider == ""
          || not (c.provider == normalize_identifier casefold (some (text c.provider))))
        invalid_provider
    raise_if (not (is_executor_role c.role)) invalid_role

  -- The loop of `validate` over the capabilities, with the routes seen so far.
  unfoldable pub check_capabilities :
      List RouteKey → List WorkerCapability → Result RegistryError (Unit {0})
  unfolding has_key
  check_capabilities seen [] = ok tt
  check_capabilities seen (c ∷ more) =
      check_capability c
      >> raise_if (has_key seen (plain_key c)) duplicate_route
      >> check_capabilities (plain_key c ∷ seen) more

  -- `len(providers) != 1`, for at least one capability
  unfoldable pub one_provider : List WorkerCapability → Bool
  one_provider [] = false
  one_provider (c ∷ more) = not (any (λ d. not (d.provider == c.provider)) more)

  -- ProviderManifest.validate
  unfoldable pub validate : ProviderManifest → Result RegistryError (Unit {0})
  unfolding one_provider
  validate m = do
    raise_if (elim m.capabilities [ [] ↦ true | _ ∷ _ ↦ false ]) no_capabilities
    check_capabilities [] m.capabilities
    raise_if (not (one_provider m.capabilities)) many_providers

  -- WorkerExecutorRegistry.register_manifest
  unfoldable pub register_manifest :
      Registry → ProviderManifest → Result RegistryError (Unit {0}) × Registry
  register_manifest r m =
      let normalized = normalize_account_context m.account_context in
      elim (validate m) [
        | err e ↦ (err e, r)
        | ok _ ↦
            if not (is_none m.account_context) && is_none normalized
            then (err manifest_account_context, r)
            else if any (is_registered r) (map (λ c. route_key c normalized) m.capabilities)
            then (err route_conflict, r)
            else register_capabilities r m.capabilities m.executor normalized
      ]
