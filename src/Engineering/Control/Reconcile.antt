-- ===== src/Engineering/Control/Reconcile.antt =====
-- A reconciliation is applied exactly where the status offers it.
use velox_server.Prelude.{
  String, Bool, true, false, Option, none, some, is_none, not, ◌&&◌, ◌||◌, string_eq, nat_eq,
  option_eq, List, [], ◌∷◌, ◌≡◌, refl, ap, ◌∙◌, ◌⊎◌, inl, inr, arith, Bool-cases,
}
use velox_server.Prelude.Result.{Result, ok, err}
use velox_server.Prelude.Dict
use velox_server.Actions.{Uuid, Instant}
use velox_server.Runs.{RunState, is_approved, is_abandoned}
use velox_server.Runs.Memory
use velox_server.Runs.Memory.{Runs, revise, revise_ok}
use velox_server.Runs.Memory.Changes.{Sound}
use velox_server.Runs.Table.{Codec}
use velox_server.Engineering.{memory_repository, is_canonical_state}
use velox_server.Engineering.Control.{
  ClaimReconciliation, release, abandon, ControlError, RunStatus, no_version, canonical,
  not_releasable, not_acknowledged, not_abandonable, inspection_unavailable, finish, reported,
  reconciliation_options, offers_abandon, Inspector, inspect_for_abandon, require_releasable,
  require_abandonable, state_token, status_from_state, fetch, settle, reconcile,
}

-- `RELEASE in options`
offers_release : List ClaimReconciliation → Bool
offers_release [] = false
offers_release (release ∷ xs) = true
offers_release (abandon ∷ xs) = offers_release xs

-- The status offers the resolution; an abandonment is also acknowledged and can be inspected.
pub is_authorized : Option Inspector → Bool → ClaimReconciliation → RunState → Bool
unfolding offers_release offers_abandon reconciliation_options
is_authorized inspector acknowledged release s = offers_release (reconciliation_options s)
is_authorized inspector acknowledged abandon s =
    offers_abandon (reconciliation_options s) && acknowledged && not (is_none inspector)

-- The run after the reconciliation.
abbrev pub reconciled : ClaimReconciliation → Instant → RunState → RunState
reconciled release = Memory.released
reconciled abandon = Memory.abandoned

release_offer :
    (s : RunState)
    → Sound s
    → offers_release (reconciliation_options s)
      ≡ not (
          is_none s.claim_id
          || not (is_none s.execution_started_at)
          || not (is_none s.execution_status)
          || not (is_approved s.approval_status))
unfolding offers_release reconciliation_options
release_offer s sound = ground (arith, sound.claimed_approved, sound.abandoned_started)

abandon_offer :
    (s : RunState)
    → offers_abandon (reconciliation_options s)
      ≡ not (
          is_none s.claim_id
          || is_none s.execution_started_at
          || not (is_none s.execution_status)
          || is_abandoned s.claim_resolution)
unfolding offers_abandon reconciliation_options
abandon_offer s = ground arith

released_lem :
    (m : Runs) (i : Uuid) (version now : Instant) (s : RunState)
    → Dict.get m i ≡ some s
    → s.updated_at ≡ some version
    → (is_none s.claim_id
        || not (is_none s.execution_started_at)
        || not (is_none s.execution_status)
        || not (is_approved s.approval_status))
      ≡ false
    → Memory.release_unstarted_claim i version now m
      ≡ (ok (Memory.released now s), Dict.put m i (Memory.released now s))
unfolding Memory.release_unstarted_claim
released_lem m i version now s p q free =
    revise_ok (Memory.releasing version now) i m s (Memory.released now s) p passes
  where
    passes : Memory.releasing version now s ≡ ok (Memory.released now s)
    passes = rw (q, Memory.releasing) (ground (arith, free, nat_eq.eqb_iff version version))

abandoned_lem :
    (m : Runs) (i : Uuid) (version now : Instant) (s : RunState)
    → Dict.get m i ≡ some s
    → s.updated_at ≡ some version
    → (is_none s.claim_id
        || is_none s.execution_started_at
        || not (is_none s.execution_status)
        || is_abandoned s.claim_resolution)
      ≡ false
    → Memory.abandon_started_claim i version now m
      ≡ (ok (Memory.abandoned now s), Dict.put m i (Memory.abandoned now s))
unfolding Memory.abandon_started_claim
abandoned_lem m i version now s p q free =
    revise_ok (Memory.abandoning version now) i m s (Memory.abandoned now s) p passes
  where
    passes : Memory.abandoning version now s ≡ ok (Memory.abandoned now s)
    passes = rw (q, Memory.abandoning) (ground (arith, free, nat_eq.eqb_iff version version))

module _ (codec : Codec) (sha256 : String → String) (inspector : Option Inspector)
    (acknowledged : Bool) (m : Runs) (i : Uuid) (now : Instant) (s : RunState) where
  -- What a reconciliation of the run comes to.
  pub Outcome : ClaimReconciliation → Result ControlError RunStatus × Runs → Type 0
  Outcome resolution x =
      ((is_authorized inspector acknowledged resolution s ≡ true)
        × (x ≡ (
          status_from_state codec sha256 inspector (reconciled resolution now s),
          Dict.put m i (reconciled resolution now s),
        )))
      ⊎ ((is_authorized inspector acknowledged resolution s ≡ false)
          × ((e : ControlError) × (x ≡ (err e, m))))

  settled_release :
      (version : Instant)
      → Dict.get m i ≡ some s
      → Sound s
      → s.updated_at ≡ some version
      → Outcome release
          (settle codec sha256 memory_repository inspector release acknowledged i version now s m)
  unfolding Outcome is_authorized settle require_releasable finish reported
  settled_release version p sound q = elim (Bool-cases guard) [
    | inl refused ↦ inr (release_offer s sound ∙ rw refused refl, (not_releasable, rw refused refl))
    | inr free ↦ inl (
      release_offer s sound ∙ rw free refl,
      rw (free, released_lem m i version now s p q free) refl,
    )
  ]
    where
      guard : Bool
      guard =
          is_none s.claim_id
          || not (is_none s.execution_started_at)
          || not (is_none s.execution_status)
          || not (is_approved s.approval_status)

  settled_abandon :
      (version : Instant)
      → Dict.get m i ≡ some s
      → s.updated_at ≡ some version
      → Outcome abandon
          (settle codec sha256 memory_repository inspector abandon acknowledged i version now s m)
  unfolding Outcome is_authorized settle require_abandonable inspect_for_abandon finish reported
  settled_abandon version p q = by_case acknowledged guard inspector refl refl refl
    where
      guard : Bool
      guard =
          is_none s.claim_id
          || is_none s.execution_started_at
          || not (is_none s.execution_status)
          || is_abandoned s.claim_resolution

      Goal : Type 0
      Goal =
          Outcome abandon
            (settle codec sha256 memory_repository inspector abandon acknowledged i version now s m)

      by_case :
          (a b : Bool) (o : Option Inspector) → acknowledged ≡ a → guard ≡ b → inspector ≡ o → Goal
      by_case false b o x y z = inr (rw x (ground arith), (not_acknowledged, rw x refl))
      by_case true true o x y z =
          inr (rw (abandon_offer s) (rw y refl), (not_abandonable, rw (x, y) refl))
      by_case true false none x y z = inr (
        rw (abandon_offer s) (rw (x, y, z) refl),
        (inspection_unavailable, rw (x, y) (rw z refl)),
      )
      by_case true false (some review) x y z = inl (
        rw (abandon_offer s) (rw (x, y, z) refl),
        rw (x, y) (rw z (rw (abandoned_lem m i version now s p q y) refl)),
      )

  unversioned : s.updated_at ≡ none → state_token codec sha256 s ≡ err no_version
  unfolding state_token
  unversioned r = rw (r, state_token) refl

  fetched :
      Dict.get m i ≡ some s
      → is_canonical_state s ≡ true
      → fetch codec sha256 memory_repository inspector i m ≡ ok s
  unfolding fetch reported canonical
  fetched p c = rw (p, fetch, canonical) (rw c refl)

  opened :
      (version : Instant) {token : String}
      → Dict.get m i ≡ some s
      → is_canonical_state s ≡ true
      → state_token codec sha256 s ≡ ok token
      → s.updated_at ≡ some version
      → (resolution : ClaimReconciliation)
      → reconcile codec sha256 memory_repository inspector i resolution token acknowledged now m
        ≡ settle codec sha256 memory_repository inspector resolution acknowledged i version now s m
  unfolding reconcile
  opened version {token} p c q r resolution = rw (fetched p c) (
      rw q (
        rw ((string_eq.eqb_iff token token).1 refl) (
          ap
            (λ (o : Option Instant). elim o [
              | none ↦ (err no_version, m)
              | some version ↦
                  settle codec sha256 memory_repository inspector resolution acknowledged i version
                    now s m
            ])
            r)))

  -- A reconciliation of a sound canonical run in the in-memory run repository, with the token of the
  -- status it was decided on: where the status offers it (and an abandonment is acknowledged and can
  -- be inspected), the claim is released or given up and the answer is the status after it;
  -- everything else raises and changes nothing.
  pub reconcile_decides :
      (resolution : ClaimReconciliation) (token : String)
      → Dict.get m i ≡ some s
      → is_canonical_state s ≡ true
      → Sound s
      → state_token codec sha256 s ≡ ok token
      → Outcome resolution
          (reconcile codec sha256 memory_repository inspector i resolution token acknowledged now m)
  unfolding Outcome
  reconcile_decides resolution token p canonical sound q = by_version s.updated_at refl
    where
      Goal : Result ControlError RunStatus × Runs → Type 0
      Goal = Outcome resolution

      by_resolution :
          (version : Instant) (r : ClaimReconciliation)
          → s.updated_at ≡ some version
          → Outcome r
              (settle codec sha256 memory_repository inspector r acknowledged i version now s m)
      by_resolution version release r = settled_release version p sound r
      by_resolution version abandon r = settled_abandon version p r

      by_version :
          (o : Option Instant)
          → s.updated_at ≡ o
          → Goal (
              reconcile codec sha256 memory_repository inspector i resolution token acknowledged now
                m)
      by_version none r = ground (arith, unversioned r, q)
      by_version (some version) r =
          rw (opened version p canonical q r resolution) (by_resolution version resolution r)
