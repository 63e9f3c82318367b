-- ===== src/Engineering/Promotion/Trusted.antt =====
-- A publication that the promotion accepts is one of the trusted branches.
use velox_server.Prelude.{
  String, not, ◌||◌, ◌==◌, string_eq, nat_eq, option_eq, ◌≡◌, inl, inr, arith, Bool-cases,
}
use velox_server.Prelude.Result.{Result, ok, err, continue}
use velox_server.Actions.{Uuid}
use velox_server.Engineering.Workspace.{Host, Workspace, expected_worktree}
use velox_server.Engineering.Publication.{
  PromotionError, Publication, Publisher, Reviewer, Settings, published,
}
use velox_server.Engineering.Promotion.{
  publish_commit, push_commit, check_publication, publish_work_product,
}
use velox_server.Engineering.WorkCommit.{commit_work_product}
use velox_server.Engineering.Promotion.Guarded.{Yields, Yields-continue}

-- The publication is one of the trusted branches.
abbrev pub Trusted : String → String → Publication → Type 0
Trusted base branch p = (p.base_branch ≡ base) × (p.head_branch ≡ branch)

abbrev pub TrustedPair : String → String → String × Publication → Type 0
TrustedPair base branch x = Trusted base branch x.1

module _ {W : Type 0} (host : Host W) (uuid_text : Uuid → String) (settings : Settings W)
    (workspace : Workspace) where
  abbrev pub branch_of : Uuid → String
  branch_of i = (expected_worktree host uuid_text workspace i).branch

  check_publication-Trusted :
      (p : Publication) (branch : String) (w : W)
      → Yields
          (Trusted settings.base_branch branch)
          (check_publication host uuid_text settings workspace branch p, w)
  unfolding check_publication
  check_publication-Trusted p branch w =
      elim (Bool-cases
        (not (p.base_branch == settings.base_branch) || not (p.head_branch == branch))) [
          | inl e ↦ rw e tt
          | inr e ↦ rw e (
              ground (
                arith,
                e,
                string_eq.eqb_iff p.base_branch settings.base_branch,
                string_eq.eqb_iff p.head_branch branch,
              ))
        ]

  publish_commit-Trusted :
      (publish : Publisher W) (root head commit branch title body : String) (w : W)
      → Yields (Trusted settings.base_branch branch) (
          publish_commit host uuid_text settings workspace publish root head commit branch title
            body w)
  unfolding publish_commit
  publish_commit-Trusted publish root head commit branch title body w =
      Yields-continue (Trusted settings.base_branch branch)
        (push_commit host uuid_text settings workspace root head commit branch w) _
        λ _ w.
          Yields-continue (Trusted settings.base_branch branch)
            (published (publish root settings.base_branch branch title body w)) _
            λ p w. check_publication-Trusted p branch w

  paired :
      (i : Uuid) (c : String) (x : Result PromotionError Publication × W)
      → Yields (Trusted settings.base_branch (branch_of i)) x
      → Yields (TrustedPair settings.base_branch (branch_of i)) (continue x λ p w. (ok (c, p), w))
  paired i c (ok p, w) h = h
  paired i c (err e, w) h = tt

  pub publish_work_product-Trusted :
      (review : Reviewer W) (publish : Publisher W) (i : Uuid) (title body : String) (w : W)
      → Yields
          (TrustedPair settings.base_branch (branch_of i))
          (publish_work_product host uuid_text settings workspace review publish i title body w)
  unfolding publish_work_product
  publish_work_product-Trusted review publish i title body w =
      Yields-continue (TrustedPair settings.base_branch (branch_of i))
        (commit_work_product host uuid_text settings workspace review i w) _
        λ c w.
          paired i c.1.1
            (publish_commit host uuid_text settings workspace publish c.0 c.1.0 c.1.1 (branch_of i)
              title body w)
            (publish_commit-Trusted publish c.0 c.1.0 c.1.1 (branch_of i) title body w)

pub ok_injective : {E A : Type 0} (a b : A) → ◌≡◌ {A = Result E A} (ok a) (ok b) → a ≡ b
ok_injective a b h = ground (arith, h)
