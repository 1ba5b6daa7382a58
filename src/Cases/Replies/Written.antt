-- ===== src/Cases/Replies/Written.antt =====
-- `find_proposals` on the texts themselves: a proposal that stands in a text is found.
use adk_a2a_gke.Prelude.{
  String, ◌≡◌, refl, sym, true, none, some, List, [], ◌∷◌, ◌++◌, In, inl, inr,
}
use mathlib.Core.Path.{subst}
use adk_a2a_gke.Json.{obj, Fields, Codec}
use adk_a2a_gke.Cases.Replies.{find_brace, after_first, json_objects_in, contains, find_proposals}
use adk_a2a_gke.Cases.Replies.Execution.{objects_of}
use adk_a2a_gke.Cases.Replies.Scan.{IsConsuming, json_objects_in-obj, json_objects_in-skip}
use adk_a2a_gke.Cases.Replies.Proposals.{IsProposal, key, keys, find_proposals_complete}

-- The object `o` is written in the text, inside no other object: it decodes at the text's first
-- brace; or another object does, and `o` is written behind that one; or nothing decodes there, and
-- `o` is written behind that brace.
pub data IsWritten {N : Type 0} (codec : Codec N) (o : Fields N) : String → Type 0 where
  first_here :
      {text s rest : String}
      → find_brace text ≡ some s
      → codec.raw_decode s ≡ some (obj o, rest)
      → IsWritten codec o text
  behind_object :
      {text s rest : String} {other : Fields N}
      → find_brace text ≡ some s
      → codec.raw_decode s ≡ some (obj other, rest)
      → IsWritten codec o rest
      → IsWritten codec o text
  behind_brace :
      {text s : String}
      → find_brace text ≡ some s
      → codec.raw_decode s ≡ none
      → IsWritten codec o (after_first s)
      → IsWritten codec o text

In-append-left : {A : Type 0} (x : A) (xs ys : List A) → In x xs → In x (xs ++ ys)
In-append-left x [] ys i = absurd (i refl)
In-append-left x (y ∷ xs) ys (inl e) = inl e
In-append-left x (y ∷ xs) ys (inr i) = inr (In-append-left x xs ys i)

In-append-right : {A : Type 0} (x : A) (xs ys : List A) → In x ys → In x (xs ++ ys)
In-append-right x [] ys i = i
In-append-right x (y ∷ xs) ys i = inr (In-append-right x xs ys i)

module _ {N : Type 0} (codec : Codec N) (h : IsConsuming codec) where
  written-In :
      (o : Fields N) {text : String} → IsWritten codec o text → In o (json_objects_in codec text)
  written-In o (first_here {text} {s} {rest} here e) =
      subst (In o) (sym (json_objects_in-obj codec h text s rest o here e)) (inl refl)
  written-In o (behind_object {text} {s} {rest} {other} here e w) =
      subst (In o) (sym (json_objects_in-obj codec h text s rest other here e))
        (inr (written-In o w))
  written-In o (behind_brace {text} {s} here e w) =
      subst (In o) (sym (json_objects_in-skip codec h text s here e)) (written-In o w)

  objects_of-In :
      (o : Fields N) (text : String) (texts : List String)
      → In text texts
      → In o (json_objects_in codec text)
      → In o (objects_of codec texts)
  unfolding objects_of
  objects_of-In o text [] i j = absurd (i refl)
  objects_of-In o text (t ∷ ts) (inl e) j =
      In-append-left o (json_objects_in codec t) (objects_of codec ts)
        (subst (λ x. In o (json_objects_in codec x)) e j)
  objects_of-In o text (t ∷ ts) (inr i) j =
      In-append-right o (json_objects_in codec t) (objects_of codec ts)
        (objects_of-In o text ts i j)

  -- Where decoding uses up some of the text: an object that is written in one of the texts, inside
  -- no other object, and that asks for an approval and holds the proposed action, is represented:
  -- `find_proposals` returns an object with the same proposal, by its canonical text.
  pub written_proposal_found :
      (texts : List String) (text : String) (o : Fields N)
      → In text texts
      → IsWritten codec o text
      → IsProposal o
      → contains (key codec o) (keys codec (find_proposals codec texts)) ≡ true
  written_proposal_found texts text o i w p =
      find_proposals_complete codec texts o (objects_of-In o text texts i (written-In o w)) p
