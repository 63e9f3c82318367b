-- ===== src/Workers/Registry/Atomic.antt =====
-- A manifest is registered as one unit.
use mathlib.Core.List.{append_assoc, append-nil}
use velox_server.Prelude.{
  String, false, Option, none, some, option_map, is_none, ◌==◌, string_eq, option_eq, ◌&&◌, ◌||◌,
  not, List, [], ◌∷◌, ◌++◌, map, any, ◌≡◌, refl, ◌⊎◌, inl, inr, arith, Bool-cases, ◌∙◌, ap,
}
use velox_server.Prelude.Result.{Result, ok, err}
use velox_server.Prelude.Dict.{get-put, put_absent}
use velox_server.Prelude.Text.{strip}
use velox_server.Prelude.Text.Laws.{strip_idem}
use velox_server.Workers.Executor.{WorkerAccountContext, WorkerCapability, WorkerExecutor}
use velox_server.Workers.Registry.{
  RouteKey, same_route, route_eq, Registration, Registry, ProviderManifest, RegistryError,
  normalize_account_context, account_key, route_key, is_registered, add_route, register_capability,
  register_capabilities, plain_key, has_key, check_capabilities, validate, register_manifest,
  checked_context, manifest_account_context, route_conflict,
}

checked_context_idem :
    (p : Option String) (a : String)
    → option_map strip p ≡ p
    → strip a ≡ a
    → normalize_account_context (checked_context p a) ≡ checked_context p a
unfolding normalize_account_context
checked_context_idem p a hp ha = elim (Bool-cases (a == "")) [
  | inl blank ↦ rw blank refl
  | inr solid ↦ elim (Bool-cases (p == some "")) [
    | inl blank ↦ rw (solid, blank) refl
    | inr known ↦ rw (solid, known) (rw (hp, ha) (rw (solid, known) refl))
  ]
]

map-strip_idem : (p : Option String) → option_map strip (option_map strip p) ≡ option_map strip p
map-strip_idem none = refl
map-strip_idem (some s) = ap some (strip_idem s)

-- A normalized account context is a fixed point: registering through it again changes nothing.
pub normalize_account_context_idem :
    (c : Option WorkerAccountContext)
    → normalize_account_context (normalize_account_context c) ≡ normalize_account_context c
unfolding normalize_account_context
normalize_account_context_idem none = refl
normalize_account_context_idem (some c) =
    checked_context_idem (option_map strip c.principal) (strip c.account_identifier)
      (map-strip_idem c.principal) (strip_idem c.account_identifier)

-- The keys of the capabilities are none of `seen`, and no two of them are the same.
abbrev Fresh : List RouteKey → List WorkerCapability → Type 0
Fresh seen [] = Unit
Fresh seen (c ∷ more) = (has_key seen (plain_key c) ≡ false) × Fresh (plain_key c ∷ seen) more

check_capabilities-Fresh :
    (casefold : String → String) (seen : List RouteKey) (cs : List WorkerCapability)
    → check_capabilities casefold seen cs ≡ ok tt
    → Fresh seen cs
unfolding check_capabilities
check_capabilities-Fresh casefold seen [] h = tt
check_capabilities-Fresh casefold seen (c ∷ more) h =
    ground (arith, check_capabilities-Fresh casefold (plain_key c ∷ seen) more)

validate-Fresh :
    (casefold : String → String) (m : ProviderManifest)
    → validate casefold m ≡ ok tt
    → Fresh [] m.capabilities
unfolding validate
validate-Fresh casefold m h = ground (arith, check_capabilities-Fresh casefold [] m.capabilities)

-- What one capability adds to the registry.
abbrev pub entry :
    WorkerExecutor → Option WorkerAccountContext → WorkerCapability → RouteKey × Registration
entry executor n c =
    (route_key c n, record { capability = c; executor = executor; account_context = n })

-- Two capabilities have one route under an account exactly when they have one without it.
same-route_key :
    (c d : WorkerCapability) (n : Option WorkerAccountContext)
    → same_route (route_key c n) (route_key d n) ≡ same_route (plain_key c) (plain_key d)
unfolding same_route route_key
same-route_key c d n =
    ground (arith, (option_eq {A = String}).eqb_iff (account_key n) (account_key n))

module _ (g : Registry) (executor : WorkerExecutor) (n : Option WorkerAccountContext) where
  -- `r` is `g` with the routes of `seen` added.
  abbrev Extends : Registry → List RouteKey → Type 0
  Extends r seen =
      (d : WorkerCapability)
      → is_registered r (route_key d n)
        ≡ (is_registered g (route_key d n) || has_key seen (plain_key d))

  add_route-Extends :
      (r : Registry) (seen : List RouteKey) (c : WorkerCapability)
      → Extends r seen
      → Extends (add_route r c executor n) (plain_key c ∷ seen)
  unfolding is_registered add_route has_key
  add_route-Extends r seen c h d = ground (
    arith,
    h d,
    get-put r.registrations (route_key c n) (route_key d n) (entry executor n c).1,
    same-route_key c d n,
  )

  -- One round of the loop.
  register_new :
      (r : Registry) (c : WorkerCapability)
      → normalize_account_context n ≡ n
      → is_registered r (route_key c n) ≡ false
      → register_capability r c executor n ≡ (ok tt, add_route r c executor n)
  unfolding register_capability
  register_new r c fixed new = rw fixed (ground arith)

  add_new :
      (r : Registry) (c : WorkerCapability)
      → is_registered r (route_key c n) ≡ false
      → add_route r c executor n
        ≡ record r { registrations = r.registrations ++ entry executor n c ∷ [] }
  unfolding is_registered add_route
  add_new r c new =
      ap (λ d. record { registrations = d; fallback_executor = r.fallback_executor })
        (put_absent r.registrations (route_key c n) (entry executor n c).1 (ground arith))

  register_all :
      (r : Registry) (cs : List WorkerCapability) (seen : List RouteKey)
      → normalize_account_context n ≡ n
      → Extends r seen
      → any (is_registered g) (map (λ c. route_key c n) cs) ≡ false
      → Fresh seen cs
      → register_capabilities r cs executor n
        ≡ (ok tt, record r { registrations = r.registrations ++ map (entry executor n) cs })
  unfolding register_capabilities
  register_all r [] seen fixed h new fresh = rw append-nil refl
  register_all r (c ∷ more) seen fixed h new fresh =
      let absent : is_registered r (route_key c n) ≡ false = ground (arith, h c) in
      rw (register_new r c fixed absent, register_capabilities)
        (rw (register_new r c fixed absent) (
          register_all (add_route r c executor n) more (plain_key c ∷ seen) fixed
            (add_route-Extends r seen c h) (ground arith) fresh.1
          ∙ rw (add_new r c absent) (rw append_assoc refl)))

-- The registrations that a manifest stands for, in the order of its capabilities.
abbrev pub entries : ProviderManifest → List (RouteKey × Registration)
entries m = map (entry m.executor (normalize_account_context m.account_context)) m.capabilities

-- The manifest is valid, its account context is not blank, and none of its routes is taken.
pub record Admissible (casefold : String → String) (g : Registry) (m : ProviderManifest)
    : Type 0 where
  pub valid : validate casefold m ≡ ok tt
  pub named :
      not (is_none m.account_context) && is_none (normalize_account_context m.account_context)
      ≡ false
  pub untaken :
      any
        (is_registered g)
        (map (λ c. route_key c (normalize_account_context m.account_context)) m.capabilities)
      ≡ false

-- An admissible manifest is registered: each of its capabilities, in order, behind what is there.
pub register_manifest_complete :
    (casefold : String → String) (g : Registry) (m : ProviderManifest)
    → Admissible casefold g m
    → register_manifest casefold g m
      ≡ (ok tt, record g { registrations = g.registrations ++ entries m })
unfolding register_manifest has_key
register_manifest_complete casefold g m h =
    rw (h.valid, register_manifest)
      (rw h.named (
        rw h.untaken (
          register_all g m.executor (normalize_account_context m.account_context) g m.capabilities
            [] (normalize_account_context_idem m.account_context) (λ d. ground arith) h.untaken
            (validate-Fresh casefold m h.valid))))

-- A manifest that passes `validate` is registered, unless one of its guards refuses it.
register_valid :
    (casefold : String → String) (g : Registry) (m : ProviderManifest)
    → validate casefold m ≡ ok tt
    → (register_manifest casefold g m
        ≡ (ok tt, record g { registrations = g.registrations ++ entries m }))
      ⊎ ((e : RegistryError) × (register_manifest casefold g m ≡ (err e, g)))
unfolding register_manifest
register_valid casefold g m h =
    let n = normalize_account_context m.account_context in
    elim (Bool-cases (not (is_none m.account_context) && is_none n)) [
      | inl blank ↦ inr (manifest_account_context, rw (h, register_manifest) (rw blank refl))
      | inr known ↦
          elim (Bool-cases (any (is_registered g) (map (λ c. route_key c n) m.capabilities))) [
            | inl clash ↦ inr (route_conflict, rw (h, register_manifest) (rw known (rw clash refl)))
            | inr new ↦ inl (
                register_manifest_complete casefold g m
                  (record { valid = h; named = known; untaken = new }))
          ]
    ]

-- A manifest is registered whole, behind what is there, or the call raises and the registry stays
-- as it was.
pub register_manifest_atomic :
    (casefold : String → String) (g : Registry) (m : ProviderManifest)
    → (register_manifest casefold g m
        ≡ (ok tt, record g { registrations = g.registrations ++ entries m }))
      ⊎ ((e : RegistryError) × (register_manifest casefold g m ≡ (err e, g)))
register_manifest_atomic casefold g m = by_validation (validate casefold m) refl
  where
    by_validation :
        (v : Result RegistryError (Unit {0}))
        → validate casefold m ≡ v
        → (register_manifest casefold g m
            ≡ (ok tt, record g { registrations = g.registrations ++ entries m }))
          ⊎ ((e : RegistryError) × (register_manifest casefold g m ≡ (err e, g)))
    by_validation (err e) h = inr (e, unfold register_manifest in rw (h, register_manifest) refl)
    by_validation (ok u) h = register_valid casefold g m h
