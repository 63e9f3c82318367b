-- ===== src/Runs/Memory/Changes.antt =====
-- What each change of a run state keeps sound.
use velox_server.Prelude.{
  String, Bool, true, false, Option, none, some, is_none, not, ◌||◌, ◌==◌, nat_eq, option_eq, ◌≡◌,
  refl, sym, subst, ◌∙◌, arith, if◌then◌else◌, List, [], ◌∷◌,
}
use velox_server.Prelude.Result.{Result, ok, err, raise_if, ◌>>=◌, ◌>>◌}
use velox_server.Prelude.Dict
use velox_server.Actions.{Uuid, Instant}
use velox_server.Runs.{
  RunState, RunError, Registration, new_run, is_approved, is_rejected, is_abandoned,
  normalize_required_objective, require_compatible_objective, require_same_identity,
}
use velox_server.Runs.Memory
use velox_server.Runs.Memory.{Runs, revise, revise_ok, revise_err, revise-none}
use velox_server.Runs.Memory.Calls.{RunCall, register, call_memory}

-- A claimed run is approved, a started run is claimed, a claim has its time, and a claim that is
-- given up had started.
pub record Sound (s : RunState) : Type 0 where
  pub claimed_approved : is_none s.claim_id ≡ false → is_approved s.approval_status ≡ true
  pub started_claimed : is_none s.execution_started_at ≡ false → is_none s.claim_id ≡ false
  pub claim_timed : is_none s.claim_id ≡ is_none s.claimed_at
  pub abandoned_started :
      is_abandoned s.claim_resolution ≡ true → is_none s.execution_started_at ≡ false

unfoldable pub AllSound : Runs → Type 0
AllSound m = (i : Uuid) (s : RunState) → Dict.get m i ≡ some s → Sound s

-- A registration that passes an approval status is one of a run that is not claimed.
unfoldable pub Admissible : RunCall → Runs → Type 0
Admissible (register r now) m =
    (s : RunState)
    → Dict.get m r.action_id ≡ some s
    → is_none s.claim_id ≡ false
    → r.approval_status ≡ none
Admissible c m = Unit

unfoldable pub AllAdmissible : List RunCall → Runs → Type 0
unfolding Admissible call_memory
AllAdmissible [] m = Unit
AllAdmissible (c ∷ cs) m = Admissible c m × AllAdmissible cs (call_memory c m).1

-- What an operation results in has the property, if it results in anything.
abbrev pub Meets : {A : Type 0} → (A → Type 0) → Result RunError A → Type 0
Meets P (ok a) = P a
Meets P (err e) = Unit

pub Meets-bind :
    {A B : Type 0} (P : B → Type 0) (g : Result RunError A) (k : A → Result RunError B)
    → ((a : A) → Meets P (k a))
    → Meets P (g >>= k)
Meets-bind P (ok a) k f = f a
Meets-bind P (err e) k f = tt

pub Meets-raise_if :
    {A : Type 0} (P : A → Type 0) (b : Bool) (e : RunError) (r : Result RunError A)
    → (b ≡ false → Meets P r)
    → Meets P (raise_if b e >> r)
Meets-raise_if P true e r f = tt
Meets-raise_if P false e r f = f refl

pub put-AllSound :
    (m : Runs) (i : Uuid) (s : RunState) → AllSound m → Sound s → AllSound (Dict.put m i s)
unfolding AllSound
put-AllSound m i s h sound j x p = chosen (i == j) (sym (Dict.get-put m i j s) ∙ p)
  where
    chosen : (b : Bool) → (if b then some s else Dict.get m j) ≡ some x → Sound x
    chosen true q = subst Sound (ground arith) sound
    chosen false q = h j x q

pub revise-AllSound :
    (change : RunState → Result RunError RunState) (i : Uuid) (m : Runs)
    → AllSound m
    → ((s : RunState) → Dict.get m i ≡ some s → Sound s → Meets Sound (change s))
    → AllSound (revise change i m).1
unfolding AllSound
revise-AllSound change i m h f = by_run (Dict.get m i) refl
  where
    by_change :
        (s : RunState) (r : Result RunError RunState)
        → Dict.get m i ≡ some s
        → change s ≡ r
        → Meets Sound r
        → AllSound (revise change i m).1
    by_change s (err e) p q sound = rw (revise_err change i m s e p q) h
    by_change s (ok s') p q sound = rw (revise_ok change i m s s' p q) (put-AllSound m i s' h sound)

    by_run : (o : Option RunState) → Dict.get m i ≡ o → AllSound (revise change i m).1
    by_run none p = rw (revise-none change i m p) h
    by_run (some s) p = by_change s (change s) p refl (f s p (h i s p))

-- A change that leaves approval, claim, claim time and start alone.
pub unchanged :
    (s s' : RunState)
    → s.approval_status ≡ s'.approval_status
    → s.claim_id ≡ s'.claim_id
    → s.claimed_at ≡ s'.claimed_at
    → s.execution_started_at ≡ s'.execution_started_at
    → s.claim_resolution ≡ s'.claim_resolution
    → Sound s
    → Sound s'
unchanged s s' p q r x y sound = record {
  claimed_approved = rw (sym p, sym q) sound.claimed_approved;
  started_claimed = rw (sym x, sym q) sound.started_claimed;
  claim_timed = rw (sym q, sym r) sound.claim_timed;
  abandoned_started = rw (sym x, sym y) sound.abandoned_started;
}

module _ (s : RunState) (sound : Sound s) where
  pub reregistered-Sound :
      (r : Registration) (objective : Option String) (now : Instant)
      → (is_none s.claim_id ≡ false → r.approval_status ≡ none)
      → Meets Sound (Memory.reregistered r objective now s)
  unfolding Memory.reregistered
  reregistered-Sound r objective now admissible =
      Meets-bind Sound (require_same_identity s r.target r.executor_role r.capability) _ λ _.
        Meets-bind Sound (require_compatible_objective s objective) _ λ _. record {
          claimed_approved = λ p. rw (admissible p) (sound.claimed_approved p);
          started_claimed = sound.started_claimed;
          claim_timed = sound.claim_timed;
          abandoned_started = sound.abandoned_started;
        }

  pub approving-Sound :
      (objective : String) (at now : Instant) → Meets Sound (Memory.approving objective at now s)
  unfolding Memory.approving is_approved is_abandoned
  approving-Sound objective at now =
      Meets-bind Sound (normalize_required_objective (some objective)) _ λ x.
        Meets-bind Sound (require_compatible_objective s (some x)) _ λ _.
          Meets-raise_if Sound (is_rejected s.approval_status) _ _ λ _. record {
            claimed_approved = λ p. refl;
            started_claimed = sound.started_claimed;
            claim_timed = sound.claim_timed;
            abandoned_started = sound.abandoned_started;
          }

  pub rejecting-Sound : (at now : Instant) → Meets Sound (Memory.rejecting at now s)
  unfolding Memory.rejecting is_abandoned
  rejecting-Sound at now =
      Meets-raise_if Sound (not (is_none s.claim_id) || not (is_none s.execution_status)) _ _
        λ free. record {
          claimed_approved = λ p. ground (arith, free, p);
          started_claimed = sound.started_claimed;
          claim_timed = sound.claim_timed;
          abandoned_started = sound.abandoned_started;
        }

  claimed-Sound :
      (claim_id : Uuid) (now : Instant)
      → is_approved s.approval_status ≡ true
      → Sound (Memory.claimed claim_id now s)
  unfolding Memory.claimed is_abandoned
  claimed-Sound claim_id now p = record {
    claimed_approved = λ _. p;
    started_claimed = λ _. refl;
    claim_timed = refl;
    abandoned_started = λ q. ground (arith, q);
  }

  abbrev SoundClaim : String × RunState → Type 0
  SoundClaim x = Sound x.1

  pub claiming-Sound :
      (claim_id : Uuid) (now : Instant) → Meets SoundClaim (Memory.claiming claim_id now s)
  unfolding Memory.claiming
  claiming-Sound claim_id now =
      Meets-raise_if SoundClaim (not (is_approved s.approval_status)) _ _ λ held.
        Meets-raise_if SoundClaim (not (is_none s.execution_status)) _ _ λ _.
          Meets-raise_if SoundClaim (not (is_none s.claim_id)) _ _ λ _.
            Meets-bind SoundClaim (normalize_required_objective s.pending_objective) _
              λ objective. claimed-Sound claim_id now (ground (arith, held))

  pub starting-Sound : (at now : Instant) → Meets Sound (Memory.starting at now s)
  unfolding Memory.starting is_abandoned
  starting-Sound at now = Meets-raise_if Sound (is_none s.claim_id) _ _ λ held.
      Meets-raise_if Sound (not (is_none s.execution_status)) _ _ λ _. record {
        claimed_approved = sound.claimed_approved;
        started_claimed = λ _. held;
        claim_timed = sound.claim_timed;
        abandoned_started = λ _. refl;
      }

  pub releasing-Sound : (expected at : Instant) → Meets Sound (Memory.releasing expected at s)
  unfolding Memory.releasing Memory.released is_abandoned
  releasing-Sound expected at = Meets-raise_if Sound (not (s.updated_at == some expected)) _ _ λ _.
      Meets-raise_if Sound (is_none s.claim_id) _ _ λ _.
        Meets-raise_if Sound (not (is_none s.execution_started_at)) _ _ λ unstarted.
          Meets-raise_if Sound (not (is_none s.execution_status)) _ _ λ _. record {
            claimed_approved = λ p. ground (arith, p);
            started_claimed = λ p. ground (arith, p, unstarted);
            claim_timed = refl;
            abandoned_started = λ q. ground (arith, q);
          }

  pub abandoning-Sound : (expected at : Instant) → Meets Sound (Memory.abandoning expected at s)
  unfolding Memory.abandoning Memory.abandoned is_abandoned
  abandoning-Sound expected at = Meets-raise_if Sound (not (s.updated_at == some expected)) _ _ λ _.
      Meets-raise_if Sound (is_none s.claim_id) _ _ λ _.
        Meets-raise_if Sound (is_none s.execution_started_at) _ _ λ started.
          Meets-raise_if Sound (not (is_none s.execution_status)) _ _ λ _. record {
            claimed_approved = sound.claimed_approved;
            started_claimed = sound.started_claimed;
            claim_timed = sound.claim_timed;
            abandoned_started = λ _. started;
          }

pub new_run-Sound :
    (r : Registration) (objective : Option String) (now : Instant) → Sound (new_run r objective now)
unfolding new_run is_abandoned
new_run-Sound r objective now = record {
  claimed_approved = λ p. ground (arith, p);
  started_claimed = λ p. ground (arith, p);
  claim_timed = refl;
  abandoned_started = λ q. ground (arith, q);
}
