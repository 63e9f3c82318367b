-- ===== src/Prelude/Text/Laws.antt =====
-- `strip` is idempotent.
use Prim.Native.Char.{code}
use Prim.Native.String.{String, ◌++◌ as ◌<>◌}
use text.Mathlib.TextLemmas.{nil-append, cons-append}
use mathlib.Core.Path.{◌≡◌, refl}
use mathlib.Core.Bool.{Bool, true, false, ◌&&◌, not}
use mathlib.Core.Logic.{inl, inr}
use native.Mathlib.Omega.{arith}
use velox_server.Prelude.Tests.{◌==◌, string_eq, if◌then◌else◌, Bool-cases}
use velox_server.Prelude.Text.{is_space, lstrip, rstrip, strip}

-- The text begins with no space.
abbrev starts_solid : String → Bool
starts_solid String.[] = true
starts_solid (String.◌∷◌ c s) = if is_space (code c) then false else true

lstrip-starts_solid : (s : String) → starts_solid (lstrip s) ≡ true
unfolding lstrip
lstrip-starts_solid String.[] = refl
lstrip-starts_solid (String.◌∷◌ c s) = elim (Bool-cases (is_space (code c))) [
  | inl space ↦ rw space (lstrip-starts_solid s)
  | inr solid ↦ rw solid (rw solid)
]

lstrip_solid : (s : String) → starts_solid s ≡ true → lstrip s ≡ s
unfolding lstrip
lstrip_solid String.[] h = refl
lstrip_solid (String.◌∷◌ c s) h = ground arith

rstrip-starts_solid : (s : String) → starts_solid s ≡ true → starts_solid (rstrip s) ≡ true
unfolding rstrip
rstrip-starts_solid String.[] h = refl
rstrip-starts_solid (String.◌∷◌ c s) h = ground arith

rstrip_idem : (s : String) → rstrip (rstrip s) ≡ rstrip s
unfolding rstrip
rstrip_idem String.[] = refl
rstrip_idem (String.◌∷◌ c s) = elim (Bool-cases (is_space (code c) && rstrip s == "")) [
  | inl drop ↦ rw drop refl
  | inr hold ↦ rw hold (rw (rstrip_idem s) (rw hold refl))
]

pub strip_idem : (s : String) → strip (strip s) ≡ strip s
unfolding strip
strip_idem s =
    rw (lstrip_solid (rstrip (lstrip s)) (rstrip-starts_solid (lstrip s) (lstrip-starts_solid s)))
      (rstrip_idem (lstrip s))

-- No character of the text is a space.
abbrev pub is_solid : String → Bool
is_solid String.[] = true
is_solid (String.◌∷◌ c s) = not (is_space (code c)) && is_solid s

pub is_solid-append :
    (s t : String) → is_solid s ≡ true → is_solid t ≡ true → is_solid (s <> t) ≡ true
is_solid-append String.[] t p q = rw (nil-append t) q
is_solid-append (String.◌∷◌ c s) t p q =
    rw (cons-append c s t) (ground (arith, is_solid-append s t))

lstrip_of_is_solid : (s : String) → is_solid s ≡ true → lstrip s ≡ s
unfolding lstrip
lstrip_of_is_solid String.[] h = refl
lstrip_of_is_solid (String.◌∷◌ c s) h = ground arith

rstrip_of_is_solid : (s : String) → is_solid s ≡ true → rstrip s ≡ s
unfolding rstrip
rstrip_of_is_solid String.[] h = refl
rstrip_of_is_solid (String.◌∷◌ c s) h = ground (arith, rstrip_of_is_solid s)

pub strip_of_is_solid : (s : String) → is_solid s ≡ true → strip s ≡ s
unfolding strip
strip_of_is_solid s h = rw (lstrip_of_is_solid s h) (rstrip_of_is_solid s h)
