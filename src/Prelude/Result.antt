-- ===== src/Prelude/Result.antt =====
-- A call that may raise: the value, or the exception that it raises.
use mathlib.Core.Bool.{Bool, true, false}

pub data Result {ℓ} (E A : Type ℓ) : Type ℓ where
  ok : A → Result E A
  err : E → Result E A

infixl 10 ◌>>=◌ ◌>>◌
abbrev pub ◌>>=◌ {ℓ} : {E A B : Type ℓ} → Result E A → (A → Result E B) → Result E B
ok a >>= f = f a
err e >>= f = err e

abbrev pub ◌>>◌ {ℓ} : {E A B : Type ℓ} → Result E A → Result E B → Result E B
m >> k = m >>= λ _. k

-- `if test: raise e`.
abbrev pub raise_if {ℓ} : {E : Type ℓ} → Bool → E → Result E (Unit {ℓ})
raise_if true e = err e
raise_if false e = ok tt

-- A call that may raise and that changes a state: what it wrote before it raised stays written.
abbrev pub Step {ℓ} : Type ℓ → Type ℓ → Type ℓ → Type ℓ
Step S E A = S → Result E A × S

abbrev pub continue {ℓ} : {S E A B : Type ℓ} → Result E A × S → (A → Step S E B) → Result E B × S
continue (ok a, s) f = f a s
continue (err e, s) f = (err e, s)
