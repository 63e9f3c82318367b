-- ===== src/Engineering/Promotion/Once.antt =====
-- A promotion that succeeded is not made again.
use velox_server.Prelude.{
  String, Bool, true, false, some, not, ◌||◌, ◌==◌, string_eq, nat_eq, option_eq, ◌≡◌, refl, sym,
  ap, subst, ◌∙◌, ◌⊎◌, inl, inr, arith,
}
use velox_server.Prelude.Result.{Result, ok, err, raise_if, ◌>>◌}
use velox_server.Prelude.Dict
use velox_server.Actions.{Uuid, Instant}
use velox_server.Runs.{RunState}
use velox_server.Runs.Memory
use velox_server.Runs.Memory.{Runs, revise, revise_ok}
use velox_server.Engineering.{memory_repository, is_canonical_state}
use velox_server.Engineering.Workspace.{Host, Workspace}
use velox_server.Engineering.Publication.{
  PromotionError, Publication, Publisher, Reviewer, Settings, PromotionResult, incomplete,
  identity_mismatch,
}
use velox_server.Engineering.Promotion.{
  is_successful, is_kept, promotion_begun, promotion_complete, recorded_promotion, recorded_result,
  publish_work_product, configured, reported, record_publication, record_of, result_of, promote_run,
  promote,
}
use velox_server.Engineering.Promotion.Guarded.{Yields, promote_cases, reached}
use velox_server.Engineering.Promotion.Trusted.{
  Trusted, branch_of, publish_work_product-Trusted, TrustedPair, ok_injective,
}

-- The answer with which a second call reports a promotion.
abbrev pub reported_again : PromotionResult → PromotionResult
reported_again r = record r { pull_request_created = false }

-- What a passed pair of guards gives back.
guarded :
    {E A : Type 0} (a b : Bool) (e f : E) (x y : A)
    → (raise_if a e >> (raise_if b f >> ok x)) ≡ ok y
    → x ≡ y
guarded true b e f x y h = ground (arith, h)
guarded false true e f x y h = ground (arith, h)
guarded false false e f x y h = ground (arith, h)

recorded-created :
    (base branch : String) (i : Uuid) (s : RunState) (r : PromotionResult)
    → recorded_promotion base branch i s ≡ ok r
    → reported_again r ≡ r
unfolding recorded_promotion recorded_result
recorded-created base branch i s r h =
    ap (λ (b : Bool). record r { pull_request_created = b })
      (ap (λ (x : PromotionResult). x.pull_request_created)
        (guarded (not (promotion_complete s))
          (not (s.promotion_base_branch == some base)
            || not (s.promotion_head_branch == some branch))
          incomplete identity_mismatch (recorded_result i s) r h))

module _ {W : Type 0} (host : Host W) (uuid_text : Uuid → String) (settings : Settings W) (i : Uuid)
    (title body : String) (now : Instant) where
  -- A second call on a run that was promoted.
  again :
      (c : Workspace × (Reviewer W × Publisher W)) (m : Runs) (w : W) (s : RunState)
      (r : PromotionResult)
      → settings.enabled ≡ true
      → Dict.get m i ≡ some s
      → is_canonical_state s ≡ true
      → is_successful s ≡ true
      → is_kept s ≡ true
      → configured settings ≡ ok c
      → promotion_begun s ≡ true
      → recorded_promotion settings.base_branch (branch_of host uuid_text settings c.0 i) i s ≡ ok r
      → promote host uuid_text memory_repository settings i title body now (m, w) ≡ (ok r, (m, w))
  unfolding promote_run
  again c m w s r e p x y z t begun q =
      reached host uuid_text memory_repository settings i title body now m w s c.0 c.1.0 c.1.1 e
        (ap ok p) x y z t
      ∙ rw begun (rw q refl)

module _ {W : Type 0} (host : Host W) (uuid_text : Uuid → String) (settings : Settings W) (i : Uuid)
    (m m' : Runs) (w w' : W) (r : PromotionResult) where
  promoted_state : RunState → String → Publication → Workspace → Instant → RunState
  promoted_state s commit p workspace now =
      Memory.promoted (record_of host uuid_text settings workspace i commit p now) now s

  recorded_publication :
      (c : Workspace) (s : RunState) (commit : String) (p : Publication) (now : Instant) (w₁ : W)
      → Dict.get m i ≡ some s
      → record_publication host uuid_text memory_repository settings c i now (ok (commit, p), w₁) m
        ≡ (
          ok (result_of host uuid_text settings c i commit p),
          (Dict.put m i (promoted_state s commit p c now), w₁),
        )
  unfolding record_publication reported Memory.record_promotion promoted_state record_of
  recorded_publication c s commit p now w₁ q =
      rw
        (revise_ok
          (λ s. ok (Memory.promoted (record_of host uuid_text settings c i commit p now) now s)) i m
          s (Memory.promoted (record_of host uuid_text settings c i commit p now) now s) q refl)
        refl

  promoted_lem :
      (c : Workspace) (s : RunState) (commit : String) (p : Publication) (now : Instant)
      → Trusted settings.base_branch (branch_of host uuid_text settings c i) p
      → recorded_promotion settings.base_branch
          (branch_of host uuid_text settings c i)
          i
          (promoted_state s commit p c now)
        ≡ ok (reported_again (result_of host uuid_text settings c i commit p))
  unfolding recorded_promotion recorded_result promoted_state record_of result_of Memory.promoted
      promotion_complete
  promoted_lem c s commit p now (a, b) =
      rw
        (
          (string_eq.eqb_iff p.base_branch settings.base_branch).1 a,
          (string_eq.eqb_iff p.head_branch (branch_of host uuid_text settings c i)).1 b,
        )
        refl

  module _ (title title' body body' : String) (now later : Instant) (w₂ : W) where
    Again : Type 0
    Again =
        promote host uuid_text memory_repository settings i title' body' later (m', w₂)
        ≡ (ok (reported_again r), (m', w₂))

    -- The first call only reported an earlier promotion.
    reported_once :
        (c : Workspace × (Reviewer W × Publisher W)) (s : RunState)
        → settings.enabled ≡ true
        → Dict.get m i ≡ some s
        → is_canonical_state s ≡ true
        → is_successful s ≡ true
        → is_kept s ≡ true
        → configured settings ≡ ok c
        → promotion_begun s ≡ true
        → recorded_promotion settings.base_branch (branch_of host uuid_text settings c.0 i) i s
          ≡ ok r
        → m ≡ m'
        → Again
    unfolding Again
    reported_once c s e p x y z t begun q same =
        subst
          (λ (n : Runs).
            promote host uuid_text memory_repository settings i title' body' later (n, w₂)
            ≡ (ok (reported_again r), (n, w₂)))
          same
          (again host uuid_text settings i title' body' later c m w₂ s (reported_again r) e p x y z
            t begun
            (q
              ∙ ap ok (
                  sym (
                    recorded-created settings.base_branch (branch_of host uuid_text settings c.0 i)
                      i s r q))))

    -- The first call made and recorded the promotion.
    made_once :
        (c : Workspace × (Reviewer W × Publisher W)) (s : RunState) (commit : String)
        (p : Publication)
        → settings.enabled ≡ true
        → Dict.get m i ≡ some s
        → is_canonical_state s ≡ true
        → is_successful s ≡ true
        → is_kept s ≡ true
        → configured settings ≡ ok c
        → Trusted settings.base_branch (branch_of host uuid_text settings c.0 i) p
        → result_of host uuid_text settings c.0 i commit p ≡ r
        → Dict.put m i (promoted_state s commit p c.0 now) ≡ m'
        → Again
    unfolding Again promoted_state Memory.promoted is_canonical_state is_successful is_kept
        promotion_begun
    made_once c s commit p e q x y z t trusted same_result same =
        subst
          (λ (n : Runs).
            promote host uuid_text memory_repository settings i title' body' later (n, w₂)
            ≡ (ok (reported_again r), (n, w₂)))
          same
          (again host uuid_text settings i title' body' later c
            (Dict.put m i (promoted_state s commit p c.0 now)) w₂
            (promoted_state s commit p c.0 now) (reported_again r) e
            (Dict.get-put_self m i (promoted_state s commit p c.0 now)) x y z t refl
            (promoted_lem c.0 s commit p now trusted
              ∙ ap (λ (x : PromotionResult). ok (reported_again x)) same_result))

    run_begun :
        (c : Workspace × (Reviewer W × Publisher W)) (s : RunState)
        → promotion_begun s ≡ true
        → promote_run host uuid_text memory_repository settings c.0 c.1.0 c.1.1 i title body now s
            (m, w)
          ≡ (
            recorded_promotion settings.base_branch (branch_of host uuid_text settings c.0 i) i s,
            (m, w),
          )
    unfolding promote_run
    run_begun c s g = rw g refl

    run_new :
        (c : Workspace × (Reviewer W × Publisher W)) (s : RunState)
        → promotion_begun s ≡ false
        → promote_run host uuid_text memory_repository settings c.0 c.1.0 c.1.1 i title body now s
            (m, w)
          ≡ record_publication host uuid_text memory_repository settings c.0 i now
              (publish_work_product host uuid_text settings c.0 c.1.0 c.1.1 i title body w)
              m
    unfolding promote_run
    run_new c s g = rw g refl

    -- Over the in-memory run repository and with the same settings, after a promotion that succeeded,
    -- every further call for the action, with any title, body
    -- and time and whatever the world is by then, answers with the values that were recorded, and
    -- changes neither the store nor the world: nothing is committed, pushed or published again.
    pub promote_once :
        promote host uuid_text memory_repository settings i title body now (m, w) ≡ (ok r, (m', w'))
        → promote host uuid_text memory_repository settings i title' body' later (m', w₂)
          ≡ (ok (reported_again r), (m', w₂))
    unfolding Again record_publication
    promote_once h =
        by_case (promote_cases host uuid_text memory_repository settings i title body now m w)
      where
        by_publication :
            (c : Workspace × (Reviewer W × Publisher W)) (s : RunState)
            (x : Result PromotionError (String × Publication) × W)
            → settings.enabled ≡ true
            → Dict.get m i ≡ some s
            → is_canonical_state s ≡ true
            → is_successful s ≡ true
            → is_kept s ≡ true
            → configured settings ≡ ok c
            → Yields (TrustedPair settings.base_branch (branch_of host uuid_text settings c.0 i)) x
            → record_publication host uuid_text memory_repository settings c.0 i now x m
              ≡ (ok r, (m', w'))
            → Again
        by_publication c s (err f, w₁) e p a b k t y q = ground (arith, q)
        by_publication c s (ok (commit, x), w₁) e p a b k t y q =
            let z = sym (recorded_publication c.0 s commit x now w₁ p) ∙ q in
            made_once c s commit x e p a b k t y
              (ok_injective (result_of host uuid_text settings c.0 i commit x) r
                (ap (λ (v : Result PromotionError PromotionResult × (Runs × W)). v.0) z))
              (ap (λ (v : Result PromotionError PromotionResult × (Runs × W)). v.1.0) z)

        by_begun :
            (c : Workspace × (Reviewer W × Publisher W)) (s : RunState) (begun : Bool)
            → promotion_begun s ≡ begun
            → settings.enabled ≡ true
            → Dict.get m i ≡ some s
            → is_canonical_state s ≡ true
            → is_successful s ≡ true
            → is_kept s ≡ true
            → configured settings ≡ ok c
            → promote_run host uuid_text memory_repository settings c.0 c.1.0 c.1.1 i title body now
                s
                (m, w)
              ≡ (ok r, (m', w'))
            → Again
        by_begun c s true g e p a b k t q =
            let z = sym (run_begun c s g) ∙ q in
            reported_once c s e p a b k t g
              (ap (λ (v : Result PromotionError PromotionResult × (Runs × W)). v.0) z)
              (ap (λ (v : Result PromotionError PromotionResult × (Runs × W)). v.1.0) z)
        by_begun c s false g e p a b k t q =
            by_publication c s
              (publish_work_product host uuid_text settings c.0 c.1.0 c.1.1 i title body w) e p a b
              k t
              (publish_work_product-Trusted host uuid_text settings c.0 c.1.0 c.1.1 i title body w)
              (sym (run_new c s g) ∙ q)

        by_case :
            ((e : PromotionError) × (promote host uuid_text memory_repository settings i title body
                    now
                    (m, w)
                  ≡ (err e, (m, w))))
              ⊎ ((s : RunState) × ((c : Workspace × (Reviewer W × Publisher W)) × ((settings.enabled
                        ≡ true)
                      × ((memory_repository.get i m ≡ ok (some s))
                          × ((is_canonical_state s ≡ true)
                              × ((is_successful s ≡ true)
                                  × ((is_kept s ≡ true)
                                      × ((configured settings ≡ ok c)
                                          × (promote host uuid_text memory_repository settings i
                                                title body now
                                                (m, w)
                                              ≡ promote_run host uuid_text memory_repository
                                                  settings c.0 c.1.0 c.1.1 i title body now s
                                                  (m, w))))))))))
            → Again
        by_case (inl (e, q)) = ground (arith, h, q)
        by_case (inr (s, (c, (e, (p, (a, (b, (k, (t, q))))))))) =
            by_begun c s (promotion_begun s) refl e (ok_injective (Dict.get m i) (some s) p) a b k t
              (sym q ∙ h)
