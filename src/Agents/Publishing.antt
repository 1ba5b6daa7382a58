-- ===== src/Agents/Publishing.antt =====
-- app/agents/math/tools.py: `canonical_value` and `publish_result`. `float` and the texts of numbers
-- are parameters.
use adk_a2a_gke.Prelude.{
  String, Bool, true, Option, none, some, List, [], ◌∷◌, ◌++◌, ◌==◌, if◌then◌else◌, ◌≡◌, ◌↔◌, refl,
  arith, eq_iff, eq_refl,
}
use adk_a2a_gke.Text.{strip, concat}
use adk_a2a_gke.Json.{str, obj, Fields, end, field, Number, get_field, equals, scalars}
use adk_a2a_gke.Cases.Replies.{has_status, agrees, confirms}

-- Python's `float` on a text, `none` where it raises, and what is asked of the number.
pub record Numerals (F : Type 0) : Type 0 where
  pub float : String → Option F
  pub is_integer : F → Bool
  pub integer_text : F → String
  pub repr : F → String
  pub quoted : String → String

-- One entry of `PUBLICATIONS`.
pub record Publication : Type 0 where
  pub value : String
  pub label : String
  pub approved_by : String

module _ {F : Type 0} (k : Numerals F) where
  unfoldable pub canonical_value : String → String
  canonical_value value = elim (k.float value) [
    | none ↦ value
    | some number ↦ if k.is_integer number then k.integer_text number else k.repr number
  ]

  -- the entry "proposal" of the answer without an approval
  unfoldable pub proposal_fields : {N : Type 0} → String → String → Fields N
  unfolding canonical_value
  proposal_fields value label =
      field "action" (str "publish_result")
        (field "value" (str (canonical_value value)) (field "label" (str label) end))

  unfoldable pub proposed : {N : Type 0} → String → String → Fields N
  unfolding proposal_fields canonical_value concat
  proposed value label = field "status" (str "approval_required") (
      field "action" (str "publish_result") (
        field "proposal" (obj (proposal_fields value label)) (
          field "summary"
            (str (
              concat (
                "Publish "
                ∷ k.quoted (canonical_value value)
                ∷ " under label "
                ∷ k.quoted label
                ∷ "."
                ∷ [])))
            end)))

  unfoldable pub published : {N : Type 0} → String → String → String → String → Fields N
  unfolding canonical_value
  published value label approved_by note = field "status" (str "published") (
      field "action" (str "publish_result") (
        field "note" (str note) (
          field "value" (str (canonical_value value))
            (field "label" (str label) (field "approved_by" (str approved_by) end)))))

  -- The answer, and `PUBLICATIONS` afterwards.
  unfoldable pub publish_result :
      {N : Type 0}
      → String
      → String
      → String
      → String
      → List Publication
      → Fields N × List Publication
  unfolding proposed published canonical_value strip
  publish_result value label approved_by note publications =
      if strip approved_by == "" then (proposed value label, publications) else (
        published value label approved_by note,
        publications
            ++ record { value = canonical_value value; label = label; approved_by = approved_by }
              ∷ [],
      )

module _ {F N : Type 0} (k : Numerals F) (n : Number N) where
  -- The answer to an approved request confirms the proposal that another request was answered with
  -- exactly where the two requests agree on the label and on the canonical value.
  pub published-confirms :
      (value label value' label' approved_by note : String)
      → confirms n
            (scalars (proposal_fields k {N = N} value label))
            (published k value' label' approved_by note)
          ≡ true
        ↔ ((canonical_value k value' ≡ canonical_value k value) × (label' ≡ label))
  unfolding confirms agrees scalars proposal_fields published has_status get_field equals
  published-confirms value label value' label' approved_by note = (
    (λ e. ground (
      arith,
      e,
      eq_iff (canonical_value k value') (canonical_value k value),
      eq_iff label' label,
    )),
    (λ (e, f). rw (e, f, eq_refl (canonical_value k value), eq_refl label) refl),
  )
