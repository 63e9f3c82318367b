-- ===== src/Runs/Memory/Started.antt =====
-- A run whose execution has started keeps its claim, so it is never claimed again.
use velox_server.Prelude.{
  String, Bool, true, false, Option, none, some, is_none, not, ◌||◌, ◌==◌, nat_eq, option_eq, ◌≡◌,
  refl, sym, ap, subst, ◌∙◌, arith, List, [], ◌∷◌, Bool-cases, inl, inr,
}
use velox_server.Prelude.Result.{Result, ok, err}
use velox_server.Prelude.Dict
use velox_server.Actions.{Uuid, Instant}
use velox_server.Runs.{
  RunState, RunError, Registration, new_run, is_approved, is_rejected, not_durably_approved,
  has_result, has_claim, normalize_objective, normalize_required_objective,
  require_compatible_objective, require_same_identity,
}
use velox_server.Runs.Memory
use velox_server.Runs.Memory.{Runs, revise, revise_ok, revise_err, revise-none}
use velox_server.Runs.Memory.Calls.{
  RunCall, find, register, approve, reject, claim, start, release, abandon, execute, dispose,
  promote, call_memory, calls_memory, answer-state, run_state, action_claim,
}
use velox_server.Runs.Memory.Changes.{Meets, Meets-bind, Meets-raise_if}

-- The execution has started, and the claim is held.
pub record Started (s : RunState) : Type 0 where
  pub started : is_none s.execution_started_at ≡ false
  pub held : is_none s.claim_id ≡ false

unfoldable pub IsStarted : Uuid → Runs → Type 0
IsStarted i m = (s : RunState) × ((Dict.get m i ≡ some s) × Started s)

put-IsStarted :
    (m : Runs) (i j : Uuid) (s : RunState)
    → IsStarted i m
    → (j ≡ i → Started s)
    → IsStarted i (Dict.put m j s)
unfolding IsStarted
put-IsStarted m i j s (x, (p, started)) f = elim (Bool-cases (j == i)) [
  | inl e ↦ (s, (Dict.get-put m j i s ∙ rw e refl, f ((nat_eq.eqb_iff j i).0 e)))
  | inr e ↦ (x, (Dict.get-put m j i s ∙ rw e p, started))
]

-- The run found under the action's id has started.
found-Started :
    (m : Runs) (i j : Uuid) (s : RunState)
    → IsStarted i m
    → Dict.get m j ≡ some s
    → j ≡ i
    → Started s
unfolding IsStarted
found-Started m i j s (x, (q, started)) p e =
    subst Started (ground (arith, p, ap (Dict.get m) e, q)) started

revise-IsStarted :
    (change : RunState → Result RunError RunState) (i j : Uuid) (m : Runs)
    → ((s : RunState) → Started s → Meets Started (change s))
    → IsStarted i m
    → IsStarted i (revise change j m).1
revise-IsStarted change i j m f h = by_run (Dict.get m j) refl
  where
    by_change :
        (s : RunState) (r : Result RunError RunState)
        → Dict.get m j ≡ some s
        → change s ≡ r
        → (Started s → Meets Started r)
        → IsStarted i (revise change j m).1
    by_change s (err e) p q g = rw (revise_err change j m s e p q) h
    by_change s (ok s') p q g =
        rw (revise_ok change j m s s' p q)
          (put-IsStarted m i j s' h λ e. g (found-Started m i j s h p e))

    by_run : (o : Option RunState) → Dict.get m j ≡ o → IsStarted i (revise change j m).1
    by_run none p = rw (revise-none change j m p) h
    by_run (some s) p = by_change s (change s) p refl (f s)

kept :
    (s s' : RunState)
    → s.execution_started_at ≡ s'.execution_started_at
    → s.claim_id ≡ s'.claim_id
    → Started s
    → Started s'
kept s s' p q h = record { started = rw (sym p) h.started; held = rw (sym q) h.held }

module _ (s : RunState) (h : Started s) where
  reregistered-Started :
      (r : Registration) (objective : Option String) (now : Instant)
      → Meets Started (Memory.reregistered r objective now s)
  unfolding Memory.reregistered
  reregistered-Started r objective now =
      Meets-bind Started (require_same_identity s r.target r.executor_role r.capability) _ λ _.
        Meets-bind Started (require_compatible_objective s objective) _ λ _. kept s _ refl refl h

  approving-Started :
      (objective : String) (at now : Instant) → Meets Started (Memory.approving objective at now s)
  unfolding Memory.approving
  approving-Started objective at now =
      Meets-bind Started (normalize_required_objective (some objective)) _ λ x.
        Meets-bind Started (require_compatible_objective s (some x)) _
          λ _. Meets-raise_if Started (is_rejected s.approval_status) _ _ λ _. kept s _ refl refl h

  rejecting-Started : (at now : Instant) → Meets Started (Memory.rejecting at now s)
  unfolding Memory.rejecting
  rejecting-Started at now =
      Meets-raise_if Started (not (is_none s.claim_id) || not (is_none s.execution_status)) _ _
        λ _. kept s _ refl refl h

  starting-Started : (at now : Instant) → Meets Started (Memory.starting at now s)
  unfolding Memory.starting
  starting-Started at now = Meets-raise_if Started (is_none s.claim_id) _ _ λ _.
      Meets-raise_if Started (not (is_none s.execution_status)) _ _
        λ _. record { started = refl; held = h.held }

  releasing-Started : (expected at : Instant) → Meets Started (Memory.releasing expected at s)
  unfolding Memory.releasing
  releasing-Started expected at =
      Meets-raise_if Started (not (s.updated_at == some expected)) _ _ λ _.
        Meets-raise_if Started (is_none s.claim_id) _ _ λ _.
          Meets-raise_if Started (not (is_none s.execution_started_at)) _ _
            λ unstarted. ground (arith, unstarted, h.started)

  abandoning-Started : (expected at : Instant) → Meets Started (Memory.abandoning expected at s)
  unfolding Memory.abandoning Memory.abandoned
  abandoning-Started expected at =
      Meets-raise_if Started (not (s.updated_at == some expected)) _ _ λ _.
        Meets-raise_if Started (is_none s.claim_id) _ _ λ _.
          Meets-raise_if Started (is_none s.execution_started_at) _ _ λ _.
            Meets-raise_if Started (not (is_none s.execution_status)) _ _ λ _. kept s _ refl refl h

  claiming_refused :
      (claim_id : Uuid) (now : Instant) → (e : RunError) × (Memory.claiming claim_id now s ≡ err e)
  unfolding Memory.claiming
  claiming_refused claim_id now =
      by_guards (is_approved s.approval_status) (is_none s.execution_status) refl refl
    where
      by_guards :
          (a b : Bool)
          → is_approved s.approval_status ≡ a
          → is_none s.execution_status ≡ b
          → (e : RunError) × (Memory.claiming claim_id now s ≡ err e)
      by_guards false b p q = (not_durably_approved, rw p refl)
      by_guards true false p q = (has_result, rw (p, q) refl)
      by_guards true true p q = (has_claim, rw (p, q, h.held) refl)

module _ (m : Runs) (i : Uuid) (h : IsStarted i m) where
  claim_refused :
      (claim_id : Uuid) (now : Instant)
      → (e : RunError) × (Memory.claim_approved i claim_id now m ≡ (err e, m))
  unfolding IsStarted Memory.claim_approved
  claim_refused claim_id now =
      let (e, p) = claiming_refused h.0 h.1.1 claim_id now in
      (e, rw (h.1.0, Memory.claim_approved) (rw p refl))

  claim_approved-IsStarted :
      (j claim_id : Uuid) (now : Instant) → IsStarted i (Memory.claim_approved j claim_id now m).1
  unfolding Memory.claim_approved
  claim_approved-IsStarted j claim_id now = by_run (Dict.get m j) refl
    where
      absurd :
          (s : RunState) (x : String × RunState)
          → Started s
          → Memory.claiming claim_id now s ≡ ok x
          → Started x.1
      absurd s x g q = ground (arith, q, (claiming_refused s g claim_id now).1)

      by_claim :
          (s : RunState) (r : Result RunError (String × RunState))
          → Dict.get m j ≡ some s
          → Memory.claiming claim_id now s ≡ r
          → IsStarted i (Memory.claim_approved j claim_id now m).1
      by_claim s (err e) p q = rw (p, Memory.claim_approved) (rw q h)
      by_claim s (ok (objective, s')) p q =
          rw (p, Memory.claim_approved)
            (rw q (
              put-IsStarted m i j s' h
                λ e. absurd s (objective, s') (found-Started m i j s h p e) q))

      by_run :
          (o : Option RunState)
          → Dict.get m j ≡ o
          → IsStarted i (Memory.claim_approved j claim_id now m).1
      by_run none p = rw (p, Memory.claim_approved) h
      by_run (some s) p = by_claim s (Memory.claiming claim_id now s) p refl

  register_action-IsStarted :
      (r : Registration) (now : Instant) → IsStarted i (Memory.register_action r now m).1
  unfolding Memory.register_action
  register_action-IsStarted r now = by_objective (normalize_objective r.objective) refl
    where
      absent : Dict.get m r.action_id ≡ none → r.action_id ≡ i → (s : RunState) → Started s
      absent q e s = unfold IsStarted in ground (arith, q, ap (Dict.get m) e, h.1.0)

      by_run :
          (objective : Option String) (o : Option RunState)
          → normalize_objective r.objective ≡ ok objective
          → Dict.get m r.action_id ≡ o
          → IsStarted i (Memory.register_action r now m).1
      by_run objective none p q =
          rw (p, Memory.register_action)
            (rw q (
              put-IsStarted m i r.action_id (new_run r objective now) h
                λ e. absent q e (new_run r objective now)))
      by_run objective (some s) p q =
          rw (p, Memory.register_action)
            (rw q (
              revise-IsStarted (Memory.reregistered r objective now) i r.action_id m
                (λ s g. reregistered-Started s g r objective now) h))

      by_objective :
          (o : Result RunError (Option String))
          → normalize_objective r.objective ≡ o
          → IsStarted i (Memory.register_action r now m).1
      by_objective (err e) p = rw (p, Memory.register_action) h
      by_objective (ok objective) p = by_run objective (Dict.get m r.action_id) p refl

  call_memory-IsStarted : (c : RunCall) → IsStarted i (call_memory c m).1
  unfolding call_memory Memory.record_approval Memory.record_rejection
      Memory.record_execution_started Memory.release_unstarted_claim Memory.abandon_started_claim
      Memory.record_execution Memory.record_disposition Memory.record_promotion Memory.executed
      Memory.disposed Memory.promoted
  call_memory-IsStarted (find j) = h
  call_memory-IsStarted (register r now) =
      rw (answer-state run_state (Memory.register_action r now m)) (register_action-IsStarted r now)
  call_memory-IsStarted (approve j objective at now) =
      rw (answer-state run_state (revise (Memory.approving objective at now) j m)) (
        revise-IsStarted (Memory.approving objective at now) i j m
          (λ s g. approving-Started s g objective at now) h)
  call_memory-IsStarted (reject j at now) =
      rw (answer-state run_state (revise (Memory.rejecting at now) j m))
        (revise-IsStarted (Memory.rejecting at now) i j m (λ s g. rejecting-Started s g at now) h)
  call_memory-IsStarted (claim j claim_id now) =
      rw (answer-state action_claim (Memory.claim_approved j claim_id now m))
        (claim_approved-IsStarted j claim_id now)
  call_memory-IsStarted (start j at now) =
      rw (answer-state run_state (revise (Memory.starting at now) j m))
        (revise-IsStarted (Memory.starting at now) i j m (λ s g. starting-Started s g at now) h)
  call_memory-IsStarted (release j expected at) =
      rw (answer-state run_state (revise (Memory.releasing expected at) j m)) (
        revise-IsStarted (Memory.releasing expected at) i j m
          (λ s g. releasing-Started s g expected at) h)
  call_memory-IsStarted (abandon j expected at) =
      rw (answer-state run_state (revise (Memory.abandoning expected at) j m)) (
        revise-IsStarted (Memory.abandoning expected at) i j m
          (λ s g. abandoning-Started s g expected at) h)
  call_memory-IsStarted (execute j status at external now) =
      rw (answer-state run_state (revise (λ s. ok (Memory.executed status at external now s)) j m))
        (revise-IsStarted (λ s. ok (Memory.executed status at external now s)) i j m
          (λ s g. kept s (Memory.executed status at external now s) refl refl g) h)
  call_memory-IsStarted (dispose d now) =
      rw (answer-state run_state (revise (λ s. ok (Memory.disposed d now s)) d.action_id m)) (
        revise-IsStarted (λ s. ok (Memory.disposed d now s)) i d.action_id m
          (λ s g. kept s (Memory.disposed d now s) refl refl g) h)
  call_memory-IsStarted (promote p now) =
      rw (answer-state run_state (revise (λ s. ok (Memory.promoted p now s)) p.action_id m)) (
        revise-IsStarted (λ s. ok (Memory.promoted p now s)) i p.action_id m
          (λ s g. kept s (Memory.promoted p now s) refl refl g) h)

calls_memory-IsStarted :
    (cs : List RunCall) (m : Runs) (i : Uuid) → IsStarted i m → IsStarted i (calls_memory cs m)
unfolding calls_memory
calls_memory-IsStarted [] m i h = h
calls_memory-IsStarted (c ∷ cs) m i h =
    calls_memory-IsStarted cs (call_memory c m).1 i (call_memory-IsStarted m i h c)

-- Once the execution of a claimed run has started, no later claim of it succeeds, whatever is
-- called on the in-memory repository in between: the claim raises and changes nothing.
pub started_is_final :
    (cs : List RunCall) (m : Runs) (i claim_id : Uuid) (now : Instant)
    → IsStarted i m
    → (e : RunError) × (Memory.claim_approved i claim_id now (calls_memory cs m)
        ≡ (err e, calls_memory cs m))
started_is_final cs m i claim_id now h =
    claim_refused (calls_memory cs m) i (calls_memory-IsStarted cs m i h) claim_id now
