-- ===== src/Schemas/Identifiers.antt =====
-- The patterns that names are checked against before they become part of a statement.
use Prim.Native.Char.{Char, code}
use Prim.Native.Nat.{◌+◌}
use Prim.Native.String.{[], ◌∷◌}
use adk_a2a_gke.Prelude.{
  ℕ, String, Bool, true, false, ◌||◌, ◌&&◌, ◌==◌, eqb, leb, ltb, if◌then◌else◌,
}

abbrev is_lower : Char → Bool
is_lower c = leb 97 (code c) && leb (code c) 122

abbrev is_upper : Char → Bool
is_upper c = leb 65 (code c) && leb (code c) 90

abbrev is_decimal : Char → Bool
is_decimal c = leb 48 (code c) && leb (code c) 57

abbrev is_start : Char → Bool
is_start c = is_lower c || eqb (code c) 95

abbrev pub is_part : Char → Bool
is_part c = is_start c || is_decimal c

-- the punctuation is `.`, `_`, `%`, `+`, `@` and `-`
abbrev pub is_mail : Char → Bool
is_mail c =
    is_lower c
    || is_upper c
    || is_decimal c
    || eqb (code c) 46
    || eqb (code c) 95
    || eqb (code c) 37
    || eqb (code c) 43
    || eqb (code c) 64
    || eqb (code c) 45

-- `[...]*$`, which a line break may follow at the very end
unfoldable pub all_parts : (Char → Bool) → String → Bool
all_parts part [] = true
all_parts part (c ∷ s) = (part c && all_parts part s) || (eqb (code c) 10 && s == "")

-- `_DATABASE_RE` and `_SCHEMA_RE`: `^[a-z_][a-z0-9_]*$`
unfoldable pub is_identifier : String → Bool
unfolding all_parts
is_identifier [] = false
is_identifier (c ∷ s) = is_start c && all_parts is_part s

-- `_PRINCIPAL_RE`: `^[A-Za-z0-9._%+@-]+$`
unfoldable pub is_principal : String → Bool
unfolding all_parts
is_principal [] = false
is_principal (c ∷ s) = is_mail c && all_parts is_mail s

-- `len(value.encode("utf-8"))`
abbrev bytes_of : Char → ℕ
bytes_of c =
    if ltb (code c) 0x80
    then 1
    else if ltb (code c) 0x800
    then 2
    else if ltb (code c) 0x10000
    then 3
    else 4

unfoldable pub utf8_length : String → ℕ
utf8_length [] = 0
utf8_length (c ∷ s) = bytes_of c + utf8_length s
