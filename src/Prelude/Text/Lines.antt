-- ===== src/Prelude/Text/Lines.antt =====
-- Python's `splitlines`, `split`, slices and `join` on native texts, by code points.
use Prim.Native.Nat.{ℕ, zero, suc}
use Prim.Native.Char.{code}
use Prim.Native.String.{String}
use mathlib.Core.Bool.{Bool, ◌&&◌, ◌||◌}
use mathlib.Core.Option.{Option, none, some}
use mathlib.Core.List.{List, [], ◌∷◌}
use text.Mathlib.Text.{starts_with}
use velox_server.Prelude.Tests.{◌==◌, nat_eq, string_eq, if◌then◌else◌}
use velox_server.Prelude.Text.{is_space}

-- The line boundaries of `str.splitlines`.
is_break : ℕ → Bool
is_break c =
    c == 10
    || c == 11
    || c == 12
    || c == 13
    || c == 28
    || c == 29
    || c == 30
    || c == 0x85
    || c == 0x2028
    || c == 0x2029

onto_first : String → List String → List String
onto_first s [] = s ∷ []
onto_first (String.◌∷◌ c s) (line ∷ lines) = String.◌∷◌ c line ∷ lines
onto_first String.[] (line ∷ lines) = line ∷ lines

-- s.splitlines()
unfoldable pub splitlines : String → List String
unfolding is_break onto_first
splitlines String.[] = []
splitlines (String.◌∷◌ c s) =
    let rest = splitlines s in
    if code c == 13 && starts_with s "\n"
    then rest
    else if is_break (code c)
    then "" ∷ rest
    else onto_first (String.◌∷◌ c "") rest

-- s[n:] and s[:n]
unfoldable pub drop_chars : ℕ → String → String
drop_chars zero s = s
drop_chars (suc n) String.[] = ""
drop_chars (suc n) (String.◌∷◌ c s) = drop_chars n s

unfoldable pub take_chars : ℕ → String → String
take_chars zero s = ""
take_chars (suc n) String.[] = ""
take_chars (suc n) (String.◌∷◌ c s) = String.◌∷◌ c (take_chars n s)

-- s.split(sep, 1)[1], where there is a `sep`
after : String → String → Option String
unfolding drop_chars
after String.[] sep = none
after (String.◌∷◌ c s) sep =
    let rest = after s sep in
    if starts_with (String.◌∷◌ c s) sep
    then some (drop_chars (Prim.Native.String.count sep) (String.◌∷◌ c s))
    else rest

-- s.split(sep, 1)[-1]
unfoldable pub last_part : String → String → String
unfolding after
last_part s sep = elim (after s sep) [ none ↦ s | some t ↦ t ]

-- The characters up to the first space.
word : String → String
word String.[] = ""
word (String.◌∷◌ c s) = let rest = word s in if is_space (code c) then "" else String.◌∷◌ c rest

skip_spaces : String → String
skip_spaces String.[] = ""
skip_spaces (String.◌∷◌ c s) =
    let rest = skip_spaces s in if is_space (code c) then rest else String.◌∷◌ c s

-- s.split()[0], where there is a word
unfoldable pub first_word : String → Option String
unfolding word skip_spaces
first_word s = let t = word (skip_spaces s) in if t == "" then none else some t
