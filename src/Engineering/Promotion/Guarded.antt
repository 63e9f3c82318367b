-- ===== src/Engineering/Promotion/Guarded.antt =====
-- Git and the publisher are reached only for a kept work product of a successful execution, and
-- a promotion that succeeded is not made again.
use velox_server.Prelude.{
  String, Bool, true, false, Option, none, some, string_eq, nat_eq, option_eq, ◌≡◌, refl, ◌⊎◌, inl,
  inr,
}
use velox_server.Prelude.Result.{Result, ok, err, ◌>>=◌, Step, continue}
use velox_server.Actions.{Uuid, Instant}
use velox_server.Runs.{RunState, RunError}
use velox_server.Engineering.{RunRepository, is_canonical_state}
use velox_server.Engineering.Workspace.{Host, Workspace}
use velox_server.Engineering.Publication.{
  PromotionError, not_found, bad_route, not_successful, not_kept, disabled, repository_raised,
  Publisher, Reviewer, Settings,
}
use velox_server.Engineering.Promotion.{
  is_successful, is_kept, verify_action, configured, reported, promote_run, promote,
}

-- What holds of the value, if the call returns one.
abbrev pub Yields : {E A S : Type 0} → (A → Type 0) → Result E A × S → Type 0
Yields P (ok a, s) = P a
Yields P (err e, s) = Unit

pub Yields-continue :
    {E A B S : Type 0} (P : B → Type 0) (x : Result E A × S) (f : A → Step S E B)
    → ((a : A) (s : S) → Yields P (f a s))
    → Yields P (continue x f)
Yields-continue P (ok a, s) f h = h a s
Yields-continue P (err e, s) f h = tt

module _ {S W : Type 0} (host : Host W) (uuid_text : Uuid → String) (repository : RunRepository S)
    (settings : Settings W) (i : Uuid) (title body : String) (now : Instant) (store : S)
    (w : W) where
  verified_lem :
      (s : RunState)
      → repository.get i store ≡ ok (some s)
      → is_canonical_state s ≡ true
      → is_successful s ≡ true
      → is_kept s ≡ true
      → ((reported host uuid_text repository settings (repository.get i store, store)).0
          >>= verify_action)
        ≡ ok s
  unfolding reported verify_action
  verified_lem s p a b c = rw p (rw (a, b, c) refl)

  pub reached :
      (s : RunState) (workspace : Workspace) (review : Reviewer W) (publish : Publisher W)
      → settings.enabled ≡ true
      → repository.get i store ≡ ok (some s)
      → is_canonical_state s ≡ true
      → is_successful s ≡ true
      → is_kept s ≡ true
      → configured settings ≡ ok (workspace, (review, publish))
      → promote host uuid_text repository settings i title body now (store, w)
        ≡ promote_run host uuid_text repository settings workspace review publish i title body now s
            (store, w)
  unfolding promote reported verify_action
  reached s workspace review publish e p a b c q = rw e (rw (verified_lem s p a b c) (rw q refl))

  -- Either the promotion is refused, and neither the store nor the world has changed: no git
  -- command has run and nothing was published. Or promotion is enabled and configured, and the
  -- store has a run of the canonical route that succeeded and whose work product was kept; then
  -- the outcome is that of promoting this run.
  pub promote_cases :
      ((e : PromotionError) × (promote host uuid_text repository settings i title body now
            (store, w)
          ≡ (err e, (store, w))))
      ⊎ ((s : RunState) × ((c : Workspace × (Reviewer W × Publisher W)) × ((settings.enabled ≡ true)
              × ((repository.get i store ≡ ok (some s))
                  × ((is_canonical_state s ≡ true)
                      × ((is_successful s ≡ true)
                          × ((is_kept s ≡ true)
                              × ((configured settings ≡ ok c)
                                  × (promote host uuid_text repository settings i title body now
                                        (store, w)
                                      ≡ promote_run host uuid_text repository settings c.0 c.1.0
                                          c.1.1 i title body now s
                                          (store, w))))))))))
  unfolding promote reported verify_action
  promote_cases = by_enabled settings.enabled refl (repository.get i store) refl
    where
      Goal : Type 0
      Goal =
          ((e : PromotionError) × (promote host uuid_text repository settings i title body now
                (store, w)
              ≡ (err e, (store, w))))
          ⊎ ((s : RunState) × ((c : Workspace × (Reviewer W × Publisher W)) × ((settings.enabled
                    ≡ true)
                  × ((repository.get i store ≡ ok (some s))
                      × ((is_canonical_state s ≡ true)
                          × ((is_successful s ≡ true)
                              × ((is_kept s ≡ true)
                                  × ((configured settings ≡ ok c)
                                      × (promote host uuid_text repository settings i title body now
                                            (store, w)
                                          ≡ promote_run host uuid_text repository settings c.0 c.1.0
                                              c.1.1 i title body now s (store, w))))))))))

      refused :
          (e : PromotionError)
          → settings.enabled ≡ true
          → ((reported host uuid_text repository settings (repository.get i store, store)).0
              >>= verify_action)
            ≡ err e
          → Goal
      refused e p q = inl (e, rw p (rw q refl))

      by_tests :
          (s : RunState) (a b c : Bool)
          (o : Result PromotionError (Workspace × (Reviewer W × Publisher W)))
          → settings.enabled ≡ true
          → repository.get i store ≡ ok (some s)
          → is_canonical_state s ≡ a
          → is_successful s ≡ b
          → is_kept s ≡ c
          → configured settings ≡ o
          → Goal
      by_tests s false b c o e p x y z t =
          refused bad_route e (rw (p, reported, verify_action) (rw x refl))
      by_tests s true false c o e p x y z t =
          refused not_successful e (rw (p, reported, verify_action) (rw (x, y) refl))
      by_tests s true true false o e p x y z t =
          refused not_kept e (rw (p, reported, verify_action) (rw (x, y, z) refl))
      by_tests s true true true (err f) e p x y z t =
          inl (f, rw e (rw (verified_lem s p x y z) (rw t refl)))
      by_tests s true true true (ok (workspace, (review, publish))) e p x y z t = inr (
        s,
        (
          (workspace, (review, publish)),
          (e, (p, (x, (y, (z, (t, reached s workspace review publish e p x y z t)))))),
        ),
      )

      by_enabled :
          (b : Bool)
          → settings.enabled ≡ b
          → (a : Result RunError (Option RunState)) → repository.get i store ≡ a
          → Goal
      by_enabled false p a q = inl (disabled, rw p refl)
      by_enabled true p (err f) q = refused (repository_raised f) p (rw (q, reported) refl)
      by_enabled true p (ok none) q = refused not_found p (rw (q, reported, verify_action) refl)
      by_enabled true p (ok (some s)) q =
          by_tests s (is_canonical_state s) (is_successful s) (is_kept s) (configured settings) p q
            refl refl refl refl
