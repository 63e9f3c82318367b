-- ===== src/Governance/Invariant.antt =====
-- The invariant of the control plane, for any predicate on ids that stands for the ids granted.
use velox_server.Prelude.{
  true, false, some, is_none, List, [], ◌∷◌, ◌++◌, ◌≡◌, arith, All, All-append, All-map, nat_eq,
  ◌==◌, ==_iff, Bool-cases, inl, inr, subst, sym,
}
use velox_server.Actions.{Uuid, Action}
use velox_server.Lifecycle.{ActionLifecycleState}
use velox_server.ControlPlane.{
  ControlPlane, get_state, set_state, get_pending, add_pending, remove_pending, enqueue,
  get_state-set_state, get_pending-add_pending, get_pending-remove_pending,
}
use velox_server.ControlPlane.Queue
use velox_server.Workers.Runtime.Gate.{may_run}

-- The lifecycle repository knows the id.
abbrev pub Known : ControlPlane → Uuid → Type 0
Known c i = is_none (get_state c i) ≡ false

-- An id whose lifecycle lets it run was granted, a queued action is known, and a held action is
-- held under its own id.
pub record Governed (P : Uuid → Type 0) (c : ControlPlane) : Type 0 where
  pub runnable :
      (i : Uuid) (state : ActionLifecycleState)
      → get_state c i ≡ some state
      → may_run (some state) ≡ true
      → P i
  pub known : All (λ a. Known c a.id) c.queue
  pub keyed : (i : Uuid) (a : Action) → get_pending c i ≡ some a → a.id ≡ i

pub set_state-Known :
    (c : ControlPlane) (i : Uuid) (s : ActionLifecycleState) (j : Uuid)
    → Known c j
    → Known (set_state c i s) j
set_state-Known c i s j h = rw (get_state-set_state c i j s) (ground arith)

pub set_state_knows :
    (c : ControlPlane) (i : Uuid) (s : ActionLifecycleState) → Known (set_state c i s) i
set_state_knows c i s = rw (get_state-set_state c i i s) (ground (arith, ==_iff i i))

module _ (P : Uuid → Type 0) (c : ControlPlane) where
  pub set_state-Governed :
      (i : Uuid) (s : ActionLifecycleState)
      → (may_run (some s) ≡ true → P i)
      → Governed P c
      → Governed P (set_state c i s)
  set_state-Governed i s permitted g = record {
    runnable = λ j state e runs. elim (Bool-cases (i == j)) [
      | inl here ↦
          let same : some s ≡ some state = ground (arith, get_state-set_state c i j s) in
          subst P ((==_iff i j).0 here) (permitted (subst (λ x. may_run x ≡ true) (sym same) runs))
      | inr elsewhere ↦ g.runnable j state (ground (arith, get_state-set_state c i j s)) runs
    ];
    known =
        unfold set_state in
        All-map (λ a. Known c a.id) (λ a. Known (set_state c i s) a.id) c.queue
          (λ a k. set_state-Known c i s a.id k) g.known;
    keyed = unfold set_state get_pending in g.keyed;
  }

  pub queue-Governed :
      (q : List Action)
      → All (λ a. Known c a.id) q
      → Governed P c
      → Governed P (record c { queue = q })
  queue-Governed q k g = record {
    runnable = unfold get_state in g.runnable;
    known = unfold get_state in k;
    keyed = unfold get_pending in g.keyed;
  }

  pub enqueue-Governed : (a : Action) → Known c a.id → Governed P c → Governed P (enqueue c a)
  enqueue-Governed a k g =
      unfold enqueue Queue.enqueue in
      queue-Governed (c.queue ++ a ∷ [])
        (All-append (λ b. Known c b.id) c.queue (a ∷ []) g.known (k, tt)) g

  pub add_pending-Governed : (a : Action) → Governed P c → Governed P (add_pending c a)
  add_pending-Governed a g = record {
    runnable = unfold get_state add_pending in g.runnable;
    known = unfold get_state add_pending in g.known;
    keyed = λ i b e. ground (arith, get_pending-add_pending c a i, g.keyed i b);
  }

  pub remove_pending-Governed : (i : Uuid) → Governed P c → Governed P (remove_pending c i)
  remove_pending-Governed i g = record {
    runnable = unfold get_state remove_pending in g.runnable;
    known = unfold get_state remove_pending in g.known;
    keyed = λ j b e. ground (arith, get_pending-remove_pending c i j, g.keyed j b);
  }

  pub Governed-weaken : (Q : Uuid → Type 0) → ((i : Uuid) → P i → Q i) → Governed P c → Governed Q c
  Governed-weaken Q f g = record {
    runnable = λ i state known runs. f i (g.runnable i state known runs);
    known = g.known;
    keyed = g.keyed;
  }
