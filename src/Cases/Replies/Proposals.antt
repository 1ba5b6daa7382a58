-- ===== src/Cases/Replies/Proposals.antt =====
-- `find_proposals`: each proposal that was reported is found once.
use mathlib.Core.Path.{subst}
use adk_a2a_gke.Prelude.{
  String, ◌≡◌, refl, sym, ◌∙◌, ap, true, false, ◌||◌, Option, some, List, [], ◌∷◌, ◌++◌, arith,
  ◌==◌, eq_iff, Option-cases, Bool-cases, inl, inr, All, In, ◌⊎◌, eq_refl,
}
use adk_a2a_gke.Json.{Json, obj, Fields, Codec, get_field}
use adk_a2a_gke.Cases.Replies.{
  json_objects_in, has_status, contains, consider, consider_all, consider_texts, find_proposals,
}
use adk_a2a_gke.Cases.Replies.Execution.{objects_of}

-- An object that asks for an approval and says of what.
pub record IsProposal {N : Type 0} (o : Fields N) : Type 0 where
  pub asks : has_status "approval_required" o ≡ true
  pub proposal : Fields N
  pub has_proposal : get_field "proposal" o ≡ some (obj proposal)

abbrev pub key_in : {N : Type 0} → Codec N → Option (Json N) → String
key_in codec (some (obj fs)) = codec.dumps_sorted fs
key_in codec _ = ""

-- The proposal's canonical text, by which proposals are told apart.
abbrev pub key : {N : Type 0} → Codec N → Fields N → String
key codec o = key_in codec (get_field "proposal" o)

abbrev pub keys : {N : Type 0} → Codec N → List (Fields N) → List String
keys codec [] = []
keys codec (o ∷ os) = key codec o ∷ keys codec os

abbrev pub IsDistinct : List String → Type 0
IsDistinct [] = Unit
IsDistinct (k ∷ ks) = (contains k ks ≡ false) × IsDistinct ks

contains-append :
    (k j : String) (ks : List String) → contains k (ks ++ j ∷ []) ≡ (contains k ks || (j == k))
unfolding contains
contains-append k j [] = ground arith
contains-append k j (i ∷ ks) = ground (arith, contains-append k j ks)

IsDistinct-append :
    (j : String) (ks : List String)
    → IsDistinct ks
    → contains j ks ≡ false
    → IsDistinct (ks ++ j ∷ [])
unfolding contains
IsDistinct-append j [] d f = ground arith
IsDistinct-append j (i ∷ ks) d f =
    ground (arith, IsDistinct-append j ks d.1, contains-append i j ks, eq_iff i j, eq_iff j i)

module _ {N : Type 0} (codec : Codec N) where
  keys-append :
      (xs : List (Fields N)) (o : Fields N)
      → keys codec (xs ++ o ∷ []) ≡ keys codec xs ++ key codec o ∷ []
  keys-append [] o = refl
  keys-append (x ∷ xs) o = ap (◌∷◌ (key codec x)) (keys-append xs o)

  -- The loop invariant: `seen` holds the keys of `found`.
  record Holds (acc : List String × List (Fields N)) : Type 0 where
    sound : All IsProposal acc.1
    same : (k : String) → contains k acc.0 ≡ contains k (keys codec acc.1)
    distinct : IsDistinct (keys codec acc.1)

  All-append :
      (xs : List (Fields N)) (o : Fields N)
      → All IsProposal xs
      → IsProposal o
      → All IsProposal (xs ++ o ∷ [])
  All-append [] o h p = (p, tt)
  All-append (x ∷ xs) o h p = (h.0, All-append xs o h.1 p)

  -- What one object does: nothing, or its key and itself are added.
  consider-cases :
      (o : Fields N) (seen : List String) (found : List (Fields N))
      → (consider codec o (seen, found) ≡ (seen, found))
        ⊎ (IsProposal o
            × (contains (key codec o) seen ≡ false)
            × (consider codec o (seen, found) ≡ (key codec o ∷ seen, found ++ o ∷ [])))
  unfolding consider
  consider-cases o seen found = elim (Bool-cases (has_status "approval_required" o)) [
    | inr other ↦ inl (rw (other, consider))
    | inl asks ↦ elim (Option-cases (get_field "proposal" o)) [
      | inl missing ↦ inl (ground (arith, asks, missing))
      | inr (obj fs, e) ↦ elim (Bool-cases (contains (codec.dumps_sorted fs) seen)) [
        | inl old ↦ inl (ground (arith, asks, e, old))
        | inr new ↦ inr (
          record { asks = asks; proposal = fs; has_proposal = e },
          ground (arith, e, new),
          ground (arith, asks, e, new),
        )
      ]
      | inr (_, e) ↦ inl (ground (arith, asks, e))
    ]
  ]

  added-Holds :
      (o : Fields N) (seen : List String) (found : List (Fields N))
      → Holds (seen, found)
      → IsProposal o
      → contains (key codec o) seen ≡ false
      → Holds (key codec o ∷ seen, found ++ o ∷ [])
  added-Holds o seen found h p new = record {
    sound = All-append found o h.sound p;
    same = λ k.
        unfold contains in
        rw (keys-append found o, contains-append k (key codec o) (keys codec found))
          (ground (arith, h.same k));
    distinct = rw (keys-append found o) (
        IsDistinct-append (key codec o) (keys codec found) h.distinct
          (sym (h.same (key codec o)) ∙ new));
  }

  consider-Holds :
      (o : Fields N) (seen : List String) (found : List (Fields N))
      → Holds (seen, found)
      → Holds (consider codec o (seen, found))
  consider-Holds o seen found h = elim (consider-cases o seen found) [
    | inl e ↦ rw e h
    | inr (p, new, e) ↦ rw e (added-Holds o seen found h p new)
  ]

  consider_all-Holds :
      (os : List (Fields N)) (seen : List String) (found : List (Fields N))
      → Holds (seen, found)
      → Holds (consider_all codec os (seen, found))
  unfolding consider_all
  consider_all-Holds [] seen found h = h
  consider_all-Holds (o ∷ os) seen found h =
      let (seen', found') = consider codec o (seen, found) in
      consider_all-Holds os seen' found' (consider-Holds o seen found h)

  -- A key once seen stays seen.
  consider-grows :
      (k : String) (o : Fields N) (seen : List String) (found : List (Fields N))
      → contains k seen ≡ true
      → contains k (consider codec o (seen, found)).0 ≡ true
  consider-grows k o seen found h = elim (consider-cases o seen found) [
    | inl e ↦ rw e h
    | inr (p, new, e) ↦ rw e (unfold contains in ground arith)
  ]

  consider_all-grows :
      (k : String) (os : List (Fields N)) (seen : List String) (found : List (Fields N))
      → contains k seen ≡ true
      → contains k (consider_all codec os (seen, found)).0 ≡ true
  unfolding consider_all
  consider_all-grows k [] seen found h = h
  consider_all-grows k (o ∷ os) seen found h =
      let (seen', found') = consider codec o (seen, found) in
      consider_all-grows k os seen' found' (consider-grows k o seen found h)

  consider-sees :
      (o : Fields N) (seen : List String) (found : List (Fields N))
      → IsProposal o
      → contains (key codec o) (consider codec o (seen, found)).0 ≡ true
  unfolding consider contains
  consider-sees o seen found p = ground (arith, p.asks, p.has_proposal, eq_refl (key codec o))

  consider-sees_eq :
      (o x : Fields N) (seen : List String) (found : List (Fields N))
      → o ≡ x
      → IsProposal o
      → contains (key codec o) (consider codec x (seen, found)).0 ≡ true
  consider-sees_eq o x seen found e p =
      subst (λ y. contains (key codec o) (consider codec y (seen, found)).0 ≡ true) e
        (consider-sees o seen found p)

  consider_all-sees :
      (o : Fields N) (os : List (Fields N)) (seen : List String) (found : List (Fields N))
      → In o os
      → IsProposal o
      → contains (key codec o) (consider_all codec os (seen, found)).0 ≡ true
  unfolding consider_all
  consider_all-sees o [] seen found i p = absurd (i refl)
  consider_all-sees o (x ∷ os) seen found (inl e) p =
      let (seen', found') = consider codec x (seen, found) in
      consider_all-grows (key codec o) os seen' found' (consider-sees_eq o x seen found e p)
  consider_all-sees o (x ∷ os) seen found (inr i) p =
      let (seen', found') = consider codec x (seen, found) in
      consider_all-sees o os seen' found' i p

  consider_all-append :
      (xs ys : List (Fields N)) (acc : List String × List (Fields N))
      → consider_all codec (xs ++ ys) acc ≡ consider_all codec ys (consider_all codec xs acc)
  unfolding consider_all
  consider_all-append [] ys acc = refl
  consider_all-append (x ∷ xs) ys acc = consider_all-append xs ys (consider codec x acc)

  -- The two loops of `find_proposals` are one over the objects of all texts.
  consider_texts-objects_of :
      (texts : List String) (acc : List String × List (Fields N))
      → consider_texts codec texts acc ≡ consider_all codec (objects_of codec texts) acc
  unfolding consider_texts objects_of
  consider_texts-objects_of [] acc = unfold consider_all in refl
  consider_texts-objects_of (t ∷ ts) acc =
      consider_texts-objects_of ts (consider_all codec (json_objects_in codec t) acc)
      ∙ sym (consider_all-append (json_objects_in codec t) (objects_of codec ts) acc)

  found-Holds : (texts : List String) → Holds (consider_texts codec texts ([], []))
  found-Holds texts = rw (consider_texts-objects_of texts) (
      consider_all-Holds (objects_of codec texts) [] []
        (record { sound = tt; same = λ k. refl; distinct = tt }))

  -- Whatever the texts, each object that `find_proposals` returns asks for an approval and holds
  -- the proposed action, and no two of them propose the same, by the canonical text of the
  -- proposal.
  pub find_proposals_sound :
      (texts : List String)
      → All IsProposal (find_proposals codec texts)
        × IsDistinct (keys codec (find_proposals codec texts))
  unfolding find_proposals
  find_proposals_sound texts = ((found-Holds texts).sound, (found-Holds texts).distinct)

  -- Each JSON object of a text that asks for an approval and holds the proposed action is
  -- represented: `find_proposals` returns an object with the same proposal, by its canonical text.
  pub find_proposals_complete :
      (texts : List String) (o : Fields N)
      → In o (objects_of codec texts)
      → IsProposal o
      → contains (key codec o) (keys codec (find_proposals codec texts)) ≡ true
  unfolding find_proposals
  find_proposals_complete texts o i p =
      sym ((found-Holds texts).same (key codec o))
      ∙ rw (consider_texts-objects_of texts)
          (consider_all-sees o (objects_of codec texts) [] [] i p)
