-- ===== src/Shared/Models.antt =====
-- app/shared/model_selection.py: which of the ids of a catalogue is the latest model. Which
-- characters are digits and what `int` makes of them are parameters, as Unicode decides it.
pub mod Embeddings
pub mod Latest
use Prim.Native.Char.{Char, code}
use Prim.Native.String.{[], ◌∷◌}
use adk_a2a_gke.Prelude.{
  ℕ, String, Bool, true, false, not, ◌||◌, Option, none, some, List, ◌==◌, eqb, if◌then◌else◌,
  Attempt, returned, raised, value_error, ◌>>=◌,
}
use adk_a2a_gke.Text.{concat, split}
use adk_a2a_gke.Shared.Keys.{Order, numbers, tuples, pairs}

-- `\d` of a character, `str.isdigit`, and `int` of a text, `none` where it raises
pub record Digits : Type 0 where
  pub decimal : Char → Bool
  pub is_digit : String → Bool
  pub int : String → Option ℕ

-- `id.removeprefix(prefix)` where `id` starts with it
unfoldable pub after_prefix : String → String → Option String
after_prefix [] s = some s
after_prefix (c ∷ p) [] = none
after_prefix (c ∷ p) (d ∷ s) =
    let rest = after_prefix p s in if eqb (code c) (code d) then rest else none

-- the longest beginning whose characters pass, and the rest
unfoldable pub span : (Char → Bool) → String → String × String
span pass [] = ("", "")
span pass (c ∷ s) = let (run, rest) = span pass s in if pass c then (c ∷ run, rest) else ("", c ∷ s)

abbrev not_newline : Char → Bool
not_newline c = not (eqb (code c) 10)

-- `(.+)$`: no line break but one at the very end
unfoldable pub match_rest : String → String → Option (String × String)
unfolding span
match_rest version s =
    let (line, end) = span not_newline s in
    if line == "" then none else if end == "" || end == "\n" then some (version, line) else none

abbrev pub match_fraction : String → String × String → Option (String × String)
match_fraction major (minor, []) = none
match_fraction major (minor, c ∷ s) =
    if minor == ""
    then none
    else if eqb (code c) 45
    then match_rest (concat (List.◌∷◌ major (List.◌∷◌ "." (List.◌∷◌ minor List.[])))) s
    else none

abbrev pub match_minor : Digits → String → String → Option (String × String)
match_minor digits major [] = none
match_minor digits major (c ∷ s) =
    if eqb (code c) 45
    then match_rest major s
    else if eqb (code c) 46
    then match_fraction major (span digits.decimal s)
    else none

unfoldable pub match_version : Digits → String → Option (String × String)
unfolding span match_rest concat
match_version digits s =
    let (major, rest) = span digits.decimal s in
    if major == "" then none else match_minor digits major rest

-- `_MODEL_ID_RE.match`: the version and the remainder
unfoldable pub match_model_id : Digits → String → Option (String × String)
unfolding after_prefix match_version
match_model_id digits id = elim (after_prefix "gemini-" id) [
  | none ↦ none
  | some rest ↦ match_version digits rest
]

-- `tuple(int(part) for part in parts)`
unfoldable pub ints : Digits → List String → Attempt (List ℕ)
ints digits List.[] = returned List.[]
ints digits (List.◌∷◌ part parts) =
    let rest = ints digits parts in
    elim (digits.int part) [
      | none ↦ raised value_error
      | some n ↦ rest >>= λ ns. returned (List.◌∷◌ n ns)
    ]

-- `[token for token in tokens if token.isdigit()]`
unfoldable pub digit_tokens : Digits → List String → List String
digit_tokens digits List.[] = List.[]
digit_tokens digits (List.◌∷◌ token tokens) =
    let rest = digit_tokens digits tokens in
    if digits.is_digit token then List.◌∷◌ token rest else rest

pub record Model : Type 0 where
  pub version : List ℕ
  pub family : String
  pub is_preview : Bool
  pub is_plain : Bool
  pub suffix_numbers : List ℕ

-- the family, and the tokens after it
unfoldable pub family_of : List String → Option (String × List String)
family_of List.[] = none
family_of (List.◌∷◌ token List.[]) =
    if token == "flash"
    then some ("flash", List.[])
    else if token == "pro"
    then some ("pro", List.[])
    else none
family_of (List.◌∷◌ token (List.◌∷◌ next tokens)) =
    if token == "flash"
    then if next == "lite"
      then some ("flash-lite", tokens)
      else some ("flash", List.◌∷◌ next tokens)
    else if token == "pro"
    then some ("pro", List.◌∷◌ next tokens)
    else none

-- `token in _PREVIEW_MARKERS`
unfoldable pub is_marker : String → Bool
is_marker token = token == "preview" || token == "exp"

abbrev pub starts_with_marker : List String → Bool
starts_with_marker List.[] = false
starts_with_marker (List.◌∷◌ token _) = is_marker token

abbrev pub is_plain : List String → Bool
is_plain List.[] = true
is_plain (List.◌∷◌ _ _) = false

-- whether nothing but a number or a marker follows the family
abbrev pub is_general : Digits → List String → Bool
is_general digits List.[] = true
is_general digits (List.◌∷◌ token _) = digits.is_digit token || is_marker token

-- `_classify_model` from the family on
unfoldable pub classify_tokens :
    Digits → List ℕ → Option (String × List String) → Attempt (Option Model)
unfolding is_marker ints digit_tokens
classify_tokens digits version none = returned none
classify_tokens digits version (some (family, extra)) =
    let model = ints digits (digit_tokens digits extra) >>= λ suffix_numbers. returned (
      some (record {
        version = version;
        family = family;
        is_preview = starts_with_marker extra;
        is_plain = is_plain extra;
        suffix_numbers = suffix_numbers;
      })) in
    if is_general digits extra then model else returned none

unfoldable pub classify_model : Digits → String → Attempt (Option Model)
unfolding match_model_id ints split family_of classify_tokens
classify_model digits id = elim (match_model_id digits id) [
  | none ↦ returned none
  | some (version, rest) ↦ ints digits (split 46 version) >>= λ numbers.
      classify_tokens digits numbers (family_of (split 45 rest))
]

-- What the loops of the selections compare, `None` for an id to skip.
abbrev pub Key : Type 0
Key = List ℕ × (ℕ × (ℕ × List ℕ))

abbrev pub key_order : Order Key
key_order = pairs tuples (pairs numbers (pairs numbers tuples))

abbrev pub bit : Bool → ℕ
bit b = if b then 1 else 0

unfoldable pub key_of_model : String → Option Model → Option Key
key_of_model family none = none
key_of_model family (some m) =
    if m.family == family
    then some (m.version, (bit (not m.is_preview), (bit m.is_plain, m.suffix_numbers)))
    else none

unfoldable pub model_key : Digits → String → String → Attempt (Option Key)
unfolding classify_model key_of_model
model_key digits family id =
    classify_model digits id >>= λ parsed. returned (key_of_model family parsed)

-- The loop of a selection: the best id so far and its key, then the ids that are left.
module _ {K : Type 0} (order : Order K) where
  unfoldable pub better : Option (String × K) → String → Option K → Option (String × K)
  better best id none = best
  better none id (some key) = some (id, key)
  better (some (best_id, best_key)) id (some key) =
      if order.above key best_key then some (id, key) else some (best_id, best_key)

  unfoldable pub best_of :
      (String → Attempt (Option K))
      → Option (String × K)
      → List String
      → Attempt (Option (String × K))
  unfolding better
  best_of key_of best List.[] = returned best
  best_of key_of best (List.◌∷◌ id ids) =
      key_of id >>= λ key. best_of key_of (better best id key) ids

  unfoldable pub the_best : Option (String × K) → Attempt String
  the_best none = raised value_error
  the_best (some (id, key)) = returned id

unfoldable pub select_latest_model : Digits → List String → String → Attempt String
unfolding best_of the_best model_key
select_latest_model digits ids family =
    best_of key_order (model_key digits family) none ids >>= λ best. the_best key_order best
