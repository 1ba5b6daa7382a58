-- ===== src/Cases/Replies/Execution.antt =====
-- `find_execution`: the loops over the texts and their objects as one search, for the first object
-- that confirms. Confirmation says what such an object is.
use adk_a2a_gke.Prelude.{
  String, ◌≡◌, refl, sym, ◌∙◌, true, Option, none, some, List, [], ◌∷◌, ◌++◌, arith, Option-cases,
  Bool-cases, inl, inr,
}
use adk_a2a_gke.Json.{Fields, Number, Codec, scalars}
use adk_a2a_gke.Cases.Replies.{
  json_objects_in, confirms, first_confirming, find_in_texts, find_execution,
}

-- Every JSON object of every text, in order.
unfoldable pub objects_of : {N : Type 0} → Codec N → List String → List (Fields N)
objects_of codec [] = []
objects_of codec (t ∷ ts) = json_objects_in codec t ++ objects_of codec ts

module _ {N : Type 0} (n : Number N) where
  -- the confirmation among two lists of objects
  abbrev pub else_in : Option (Fields N) → Option (Fields N) → Option (Fields N)
  else_in none later = later
  else_in (some o) later = some o

  first_confirming-append :
      (wanted : Fields N) (xs ys : List (Fields N))
      → first_confirming n wanted (xs ++ ys)
        ≡ else_in (first_confirming n wanted xs) (first_confirming n wanted ys)
  unfolding first_confirming
  first_confirming-append wanted [] ys = refl
  first_confirming-append wanted (x ∷ xs) ys = elim (Bool-cases (confirms n wanted x)) [
    | inl here ↦ rw here
    | inr next ↦ rw next (first_confirming-append wanted xs ys)
  ]

  find_in_texts-cons :
      (codec : Codec N) (wanted : Fields N) (t : String) (ts : List String)
      → find_in_texts n codec wanted (t ∷ ts)
        ≡ else_in
            (first_confirming n wanted (json_objects_in codec t))
            (find_in_texts n codec wanted ts)
  unfolding find_in_texts
  find_in_texts-cons codec wanted t ts =
      elim (Option-cases (first_confirming n wanted (json_objects_in codec t))) [
        | inl none_here ↦ rw (none_here, find_in_texts)
        | inr (o, found) ↦ rw (found, find_in_texts)
      ]

  find_in_texts-objects_of :
      (codec : Codec N) (wanted : Fields N) (texts : List String)
      → find_in_texts n codec wanted texts ≡ first_confirming n wanted (objects_of codec texts)
  unfolding objects_of
  find_in_texts-objects_of codec wanted [] =
      unfold find_in_texts first_confirming objects_of in refl
  find_in_texts-objects_of codec wanted (t ∷ ts) =
      rw (find_in_texts-cons codec wanted t ts, find_in_texts-objects_of codec wanted ts)
        (sym (first_confirming-append wanted (json_objects_in codec t) (objects_of codec ts)))

  -- `find_execution` searches the objects of all texts as one list.
  pub find_execution-objects_of :
      (codec : Codec N) (texts : List String) (proposal : Fields N)
      → find_execution n codec texts proposal
        ≡ first_confirming n (scalars proposal) (objects_of codec texts)
  unfolding find_execution
  find_execution-objects_of codec texts proposal =
      find_in_texts-objects_of codec (scalars proposal) texts

  first_confirming_sound :
      (wanted o : Fields N) (os : List (Fields N))
      → first_confirming n wanted os ≡ some o
      → confirms n wanted o ≡ true
  unfolding first_confirming
  first_confirming_sound wanted o [] e = ground arith
  first_confirming_sound wanted o (x ∷ os) e = ground (arith, first_confirming_sound wanted o os)

  -- What `find_execution` returns confirms the proposal: its status is "published", and it agrees
  -- with each text, number and truth value of the proposal.
  pub find_execution_sound :
      (codec : Codec N) (texts : List String) (proposal o : Fields N)
      → find_execution n codec texts proposal ≡ some o
      → confirms n (scalars proposal) o ≡ true
  find_execution_sound codec texts proposal o e =
      first_confirming_sound (scalars proposal) o (objects_of codec texts)
        (sym (find_execution-objects_of codec texts proposal) ∙ e)
