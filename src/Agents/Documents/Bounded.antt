-- ===== src/Agents/Documents/Bounded.antt =====
-- app/agents/documents.py: what `read_document` returns, and how much of it.
use Prim.Native.String.{◌++◌, [], ◌∷◌, count}
use text.Mathlib.TextLemmas.{length-cons, cons-append, nil-append}
use adk_a2a_gke.Prelude.{
  ℕ, zero, suc, ◌≤◌, ◌<◌, String, ◌≡◌, ◌≢◌, ◌⊎◌, ◌↔◌, refl, sym, ap, ◌∙◌, inl, inr, true, false,
  arith, ◌==◌, ◌&&◌, not, Bool-cases, eq_iff,
}
use adk_a2a_gke.Text.{strip, first}
use adk_a2a_gke.Agents.Documents.{
  Found, missing, failed, content, Document, error, ok, max_chars, has_scheme, is_allowed, document,
  read_document,
}

-- What an answer on the reference `ref` means, where `read` is what the store holds.
pub IsAnswer : (String → Found) → String → Document → Type 0
IsAnswer read ref (error _ _) =
    (ref ≡ "")
    ⊎ ((has_scheme ref ≡ true) × (is_allowed ref ≡ false))
    ⊎ ((text : String) → read ref ≢ content text)
IsAnswer read ref (ok shown remote truncated chars text) =
    (shown ≡ ref)
    × ((has_scheme ref ≡ true) → (is_allowed ref ≡ true))
    × (rest : String) × (read ref ≡ content (text ++ rest))
    × (chars ≡ count (text ++ rest))
    × (count text ≤ 20_000)
    × ((truncated ≡ true) ↔ (20_000 < chars))
    × ((truncated ≡ false) → (rest ≡ ""))

empty : (s : String) → count s ≤ 0 → s ≡ ""
empty [] l = refl
empty (c ∷ s) l = absurd (omega (arith, length-cons c s))

first-append :
    (n : ℕ) (s : String)
    → (rest : String) × (s ≡ first n s ++ rest)
      × (count (first n s) ≤ n)
      × (count s ≤ n → rest ≡ "")
unfolding first
first-append zero s = (s, sym (nil-append s), omega arith, empty s)
first-append (suc n) [] = ("", sym (nil-append ""), omega arith, λ _. refl)
first-append (suc n) (c ∷ s) =
    let (rest, e, short, none_left) = first-append n s in
    (
      rest,
      ap (λ t. c ∷ t) e ∙ sym (cons-append c (first n s) rest),
      omega (arith, length-cons c (first n s)),
      λ l. none_left (omega (arith, length-cons c s)),
    )

document-IsAnswer :
    (read : String → Found) (ref : String) (found : Found)
    → read ref ≡ found
    → ((has_scheme ref ≡ true) → (is_allowed ref ≡ true))
    → IsAnswer read ref (document ref found)
unfolding document IsAnswer
document-IsAnswer read ref missing e allowed = inr (inr λ text f. cc (e, f))
document-IsAnswer read ref (failed message) e allowed = inr (inr λ text f. cc (e, f))
document-IsAnswer read ref (content text) e allowed =
    let (rest, whole, short, complete) = first-append max_chars text in
    (
      refl,
      allowed,
      rest,
      e ∙ ap content whole,
      ap count whole,
      short,
      (λ t. ground (arith, t), λ l. ground (arith, l)),
      λ f. complete (ground (arith, f)),
    )

-- Whatever the store holds, `read_document` answers on the reference without the blanks around it:
-- an error only where the reference is empty, has a scheme that is not allowed, or the store yields
-- no text; otherwise a beginning of the text of at most 20,000 characters, with the length of
-- the whole, marked as truncated exactly when that is above the limit and complete if not.
pub read_document_bounded :
    (read : String → Found) (reference : String)
    → IsAnswer read (strip reference) (read_document read reference)
unfolding read_document IsAnswer
read_document_bounded read reference = elim (Bool-cases (strip reference == "")) [
  | inl blank ↦ rw (blank, read_document) (inl ((eq_iff (strip reference) "").0 blank))
  | inr full ↦
      elim (Bool-cases (has_scheme (strip reference) && not (is_allowed (strip reference)))) [
        | inl refused ↦
            rw (full, refused, read_document)
              (inr (inl (ground (arith, refused), ground (arith, refused))))
        | inr fine ↦
            rw (full, fine, read_document)
              (document-IsAnswer read (strip reference) (read (strip reference)) refl
                (λ t. ground (arith, fine, t)))
      ]
]
