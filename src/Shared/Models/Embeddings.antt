-- ===== src/Shared/Models/Embeddings.antt =====
-- app/shared/model_selection.py: which of the ids of a catalogue is the best embedding model.
use Prim.Native.Char.{Char, code}
use adk_a2a_gke.Prelude.{
  ℕ, String, Bool, true, ◌||◌, Option, none, some, List, ◌==◌, eqb, if◌then◌else◌, Attempt,
  returned, ◌>>=◌, ◌-◌,
}
use adk_a2a_gke.Text.{concat, split, starts_with, lstrip_by}
use adk_a2a_gke.Shared.Keys.{Order, numbers, tuples, pairs}
use adk_a2a_gke.Shared.Models.{Digits, after_prefix, ints, digit_tokens, bit, best_of, the_best}

-- The families of embedding models with their ranks, from the one that is preferred.
abbrev embedding_families : List (ℕ × String)
embedding_families =
    List.◌∷◌ (0, "gemini-embedding")
      (List.◌∷◌ (1, "text-embedding")
        (List.◌∷◌ (2, "text-multilingual-embedding") (List.◌∷◌ (3, "embeddinggemma") List.[])))

abbrev pub EmbeddingKey : Type 0
EmbeddingKey = ℕ × (ℕ × List ℕ)

abbrev pub embedding_order : Order EmbeddingKey
embedding_order = pairs numbers (pairs numbers tuples)

abbrev is_dash : Char → Bool
is_dash c = eqb (code c) 45

-- what follows the family's name in `id`, `none` for an id outside of the family
unfoldable pub in_family : String → String → Option String
unfolding after_prefix starts_with lstrip_by concat
in_family family id = elim (after_prefix family id) [
  | none ↦ none
  | some rest ↦ if rest == "" || starts_with "-" rest then some (lstrip_by is_dash rest) else none
]

abbrev pub is_stable : Digits → List String → Bool
is_stable digits List.[] = true
is_stable digits (List.◌∷◌ token _) = digits.is_digit token

abbrev pub tokens_of : String → List String
tokens_of remainder = if remainder == "" then List.[] else split 45 remainder

unfoldable pub embedding_key : Digits → ℕ → String → Attempt (Option EmbeddingKey)
unfolding split ints digit_tokens
embedding_key digits rank remainder =
    let tokens = tokens_of remainder in
    ints digits (digit_tokens digits tokens) >>= λ suffix_numbers.
    returned (some (4 - rank, (bit (is_stable digits tokens), suffix_numbers)))

unfoldable pub classify_in : Digits → List (ℕ × String) → String → Attempt (Option EmbeddingKey)
unfolding in_family embedding_key
classify_in digits List.[] id = returned none
classify_in digits (List.◌∷◌ (rank, family) families) id =
    let rest = classify_in digits families id in
    elim (in_family family id) [
      | none ↦ rest
      | some remainder ↦ embedding_key digits rank remainder
    ]

unfoldable pub classify_embedding_model : Digits → String → Attempt (Option EmbeddingKey)
unfolding classify_in
classify_embedding_model digits id = classify_in digits embedding_families id

unfoldable pub select_embedding_model : Digits → List String → Attempt String
unfolding best_of the_best classify_embedding_model
select_embedding_model digits ids =
    best_of embedding_order (classify_embedding_model digits) none ids >>= λ best.
    the_best embedding_order best
