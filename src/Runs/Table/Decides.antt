-- ===== src/Runs/Table/Decides.antt =====
-- Guards in a row, and a test that decides whether they pass.
use velox_server.Prelude.{
  Bool, true, false, not, ◌&&◌, string_eq, nat_eq, option_eq, ◌≡◌, refl, arith, ◌⊎◌, inl, inr,
}
use velox_server.Prelude.Result.{Result, ok, err, raise_if, ◌>>=◌, ◌>>◌}
use velox_server.Runs.{RunState, RunError}

-- Three guards and a value that may be missing.
pub guarded :
    {A B : Type 0} (a b c : Bool) (e f g : RunError) (o : Result RunError A) (k : A → B)
    → (raise_if a e >> (raise_if b f >> (raise_if c g >> (o >>= λ x. ok (k x)))))
      ≡ ((raise_if a e >> (raise_if b f >> (raise_if c g >> o))) >>= λ x. ok (k x))
guarded true b c e f g o k = refl
guarded false true c e f g o k = refl
guarded false false true e f g o k = refl
guarded false false false e f g o k = refl

pub passed :
    {A : Type 0} (a b c : Bool) (e f g : RunError) (o : Result RunError A) (x : A)
    → (raise_if (not a) e >> (raise_if (not b) f >> (raise_if (not c) g >> o))) ≡ ok x
    → (a && c && b) ≡ true
passed a b c e f g o x h = ground arith

-- A test that decides whether the guards pass.
abbrev pub Decides : Bool → Result RunError RunState → RunState → Type 0
Decides b r s = ((b ≡ true) × (r ≡ ok s)) ⊎ ((b ≡ false) × ((x : RunError) × (r ≡ err x)))

-- The WHERE of a reconciliation against the guards in their order, where `b` implies `a`.
pub settled :
    (a b c d u : Bool) (e f g k : RunError) (s : RunState)
    → (b ≡ false → a ≡ true)
    → Decides
        (a && not b && c && d && u)
        (raise_if (not u) e
          >> (raise_if b f >> (raise_if (not c) g >> (raise_if (not d) k >> ok s))))
        s
settled false false c d u e f g k s h = ground (arith, h refl)
settled false true c d false e f g k s h = inr (refl, (e, refl))
settled false true c d true e f g k s h = inr (refl, (f, refl))
settled true true c d false e f g k s h = inr (refl, (e, refl))
settled true true c d true e f g k s h = inr (refl, (f, refl))
settled true false false d false e f g k s h = inr (refl, (e, refl))
settled true false false d true e f g k s h = inr (refl, (g, refl))
settled true false true false false e f g k s h = inr (refl, (e, refl))
settled true false true false true e f g k s h = inr (refl, (k, refl))
settled true false true true false e f g k s h = inr (refl, (e, refl))
settled true false true true true e f g k s h = inl (refl, refl)

pub not-not : (b : Bool) → not (not b) ≡ b
not-not true = refl
not-not false = refl

-- The same answer, or two refusals, whose errors may differ.
abbrev pub Agree : {A : Type 0} → Result RunError A → Result RunError A → Type 0
Agree (ok a) (ok b) = a ≡ b
Agree (err e) (err f) = Unit {0}
Agree _ _ = ⊥
