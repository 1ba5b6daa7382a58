-- ===== src/Text.antt =====
-- The methods of Python's `str` that the program calls. A `Char` is a code point.
pub mod Strip
pub mod Split
use Prim.Native.Char.{Char, code}
use Prim.Native.String
use Prim.Native.String.{[], ◌∷◌}
use adk_a2a_gke.Prelude.{
  ℕ, zero, suc, String, Bool, true, false, ◌&&◌, ◌||◌, List, leb, if◌then◌else◌, ◌==◌, eqb, ◌≡◌,
  refl,
}

-- `str.isspace` of one character
unfoldable pub is_space : Char → Bool
is_space ch =
    let c = code ch in
    (leb 9 c && leb c 13)
    || (leb 28 c && leb c 32)
    || eqb c 0x85
    || eqb c 0xa0
    || eqb c 0x1680
    || (leb 0x2000 c && leb c 0x200a)
    || eqb c 0x2028
    || eqb c 0x2029
    || eqb c 0x202f
    || eqb c 0x205f
    || eqb c 0x3000

unfoldable pub lstrip_by : (Char → Bool) → String → String
lstrip_by drop [] = []
lstrip_by drop (c ∷ s) = let rest = lstrip_by drop s in if drop c then rest else c ∷ s

unfoldable pub rstrip_by : (Char → Bool) → String → String
rstrip_by drop [] = []
rstrip_by drop (c ∷ s) =
    let rest = rstrip_by drop s in if rest == "" && drop c then [] else c ∷ rest

-- `s.strip()`
unfoldable pub strip : String → String
unfolding lstrip_by rstrip_by is_space
strip s = rstrip_by is_space (lstrip_by is_space s)

-- `"".join(parts)`
unfoldable pub concat : List String → String
concat List.[] = ""
concat (List.◌∷◌ s ss) = String.◌++◌ s (concat ss)

-- `sep.join(parts)`
abbrev pub joined : String → List String → String
joined sep List.[] = ""
joined sep (List.◌∷◌ p ps) =
    let rest = joined sep ps in
    elim ps [ List.[] ↦ p | List.◌∷◌ _ _ ↦ String.◌++◌ p (String.◌++◌ sep rest) ]

-- `s[:n]`
unfoldable pub first : ℕ → String → String
first zero s = ""
first (suc n) [] = []
first (suc n) (c ∷ s) = c ∷ first n s

-- `s.split(sep)` for a separator of one character
unfoldable pub split : ℕ → String → List String
split sep [] = List.◌∷◌ "" List.[]
split sep (c ∷ s) =
    let rest = split sep s in if eqb (code c) sep then List.◌∷◌ "" rest else onto c rest
  where
    onto : Char → List String → List String
    onto c List.[] = List.◌∷◌ (c ∷ "") List.[]
    onto c (List.◌∷◌ t ts) = List.◌∷◌ (c ∷ t) ts

-- `s.partition(sep)`, without its middle
unfoldable pub partition : ℕ → String → String × String
partition sep [] = ("", "")
partition sep (c ∷ s) =
    let (before, after) = partition sep s in
    if eqb (code c) sep then ("", s) else (c ∷ before, after)

-- `s.startswith(prefix)`
unfoldable pub starts_with : String → String → Bool
starts_with [] s = true
starts_with (c ∷ p) [] = false
starts_with (c ∷ p) (d ∷ s) = eqb (code c) (code d) && starts_with p s

abbrev pub is_slash : Char → Bool
is_slash c = eqb (code c) 47

strip_sides : strip "  a b\n" ≡ "a b"
unfolding strip
strip_sides = refl
