-- ===== src/Cases/Replies/Confirmation.antt =====
-- `find_execution`: what counts as a confirmation, said field by field.
use adk_a2a_gke.Prelude.{
  String, ◌≡◌, refl, sym, ap, Bool, true, false, Option, none, some, List, [], ◌∷◌, ◌++◌, arith,
  ◌==◌, eq_iff, eq_refl, Bool-cases, inl, inr, All, ◌⊎◌,
}
use mathlib.Core.Path.{subst}
use adk_a2a_gke.Json.{
  Json, null, bool, num, str, arr, obj, Fields, end, field, Number, Codec, get_field, equals,
  scalars,
}
use adk_a2a_gke.Cases.Replies.{has_status, agrees, confirms, first_confirming, find_execution}
use adk_a2a_gke.Cases.Replies.Execution.{objects_of, find_execution-objects_of}

module _ {N : Type 0} (n : Number N) where
  -- A number that Python finds equal to `x`, or a truth value that does, as 0 or 1.
  abbrev pub IsNumber : Option (Json N) → N → Type 0
  IsNumber found x =
      ((y : N) × (found ≡ some (num y)) × (n.same y x ≡ true))
      ⊎ ((b : Bool) × (found ≡ some (bool b)) × (n.same (n.of_bool b) x ≡ true))

  -- What was found under a key says the value: a text is the same text, a number or a truth value
  -- an equal number; null, lists and objects are not compared.
  abbrev pub Says : Option (Json N) → Json N → Type 0
  Says found (str s) = found ≡ some (str s)
  Says found (num x) = IsNumber found x
  Says found (bool b) = IsNumber found (n.of_bool b)
  Says found null = Unit
  Says found (arr xs) = Unit
  Says found (obj fs) = Unit

  abbrev pub Agreement : Fields N → Fields N → Type 0
  Agreement end o = Unit
  Agreement (field k v fs) o = Says (get_field k o) v × Agreement fs o

  -- An object that says that it was published, and says each value of the proposal.
  abbrev pub IsConfirmation : Fields N → Fields N → Type 0
  IsConfirmation proposal o = (get_field "status" o ≡ some (str "published")) × Agreement proposal o

  equals-Says : (found : Option (Json N)) (v : Json N) → equals n found v ≡ true → Says found v
  unfolding equals
  equals-Says (some (str s)) (str t) e = ap (λ x. some (str x)) ((eq_iff s t).0 e)
  equals-Says (some (num y)) (num x) e = inl (y, refl, e)
  equals-Says (some (bool b)) (num x) e = inr (b, refl, e)
  equals-Says (some (num y)) (bool c) e = inl (y, refl, e)
  equals-Says (some (bool b)) (bool c) e = inr (b, refl, e)
  equals-Says found null e = tt
  equals-Says found (arr xs) e = tt
  equals-Says found (obj fs) e = tt
  equals-Says none (str t) e = absurd (cc e)
  equals-Says (some null) (str t) e = absurd (cc e)
  equals-Says (some (bool b)) (str t) e = absurd (cc e)
  equals-Says (some (num b)) (str t) e = absurd (cc e)
  equals-Says (some (arr b)) (str t) e = absurd (cc e)
  equals-Says (some (obj b)) (str t) e = absurd (cc e)
  equals-Says none (num t) e = absurd (cc e)
  equals-Says (some null) (num t) e = absurd (cc e)
  equals-Says (some (str b)) (num t) e = absurd (cc e)
  equals-Says (some (arr b)) (num t) e = absurd (cc e)
  equals-Says (some (obj b)) (num t) e = absurd (cc e)
  equals-Says none (bool t) e = absurd (cc e)
  equals-Says (some null) (bool t) e = absurd (cc e)
  equals-Says (some (str b)) (bool t) e = absurd (cc e)
  equals-Says (some (arr b)) (bool t) e = absurd (cc e)
  equals-Says (some (obj b)) (bool t) e = absurd (cc e)

  IsNumber-num :
      (found : Option (Json N)) (x : N) → IsNumber found x → equals n found (num x) ≡ true
  unfolding equals
  IsNumber-num found x (inl (y, e, same)) = rw e same
  IsNumber-num found x (inr (b, e, same)) = rw e same

  IsNumber-bool :
      (found : Option (Json N)) (c : Bool)
      → IsNumber found (n.of_bool c)
      → equals n found (bool c) ≡ true
  unfolding equals
  IsNumber-bool found c (inl (y, e, same)) = rw e same
  IsNumber-bool found c (inr (b, e, same)) = rw e same

  agrees-Agreement :
      (proposal o : Fields N) → agrees n o (scalars proposal) ≡ true → Agreement proposal o
  unfolding agrees scalars
  agrees-Agreement end o e = tt
  agrees-Agreement (field k null fs) o e = (tt, agrees-Agreement fs o e)
  agrees-Agreement (field k (arr xs) fs) o e = (tt, agrees-Agreement fs o e)
  agrees-Agreement (field k (obj xs) fs) o e = (tt, agrees-Agreement fs o e)
  agrees-Agreement (field k (str s) fs) o e =
      (equals-Says _ (str s) (ground arith), agrees-Agreement fs o (ground arith))
  agrees-Agreement (field k (num s) fs) o e =
      (equals-Says _ (num s) (ground arith), agrees-Agreement fs o (ground arith))
  agrees-Agreement (field k (bool s) fs) o e =
      (equals-Says _ (bool s) (ground arith), agrees-Agreement fs o (ground arith))

  Agreement-agrees :
      (proposal o : Fields N) → Agreement proposal o → agrees n o (scalars proposal) ≡ true
  unfolding agrees scalars equals
  Agreement-agrees end o e = refl
  Agreement-agrees (field k null fs) o (_, e) = Agreement-agrees fs o e
  Agreement-agrees (field k (arr xs) fs) o (_, e) = Agreement-agrees fs o e
  Agreement-agrees (field k (obj xs) fs) o (_, e) = Agreement-agrees fs o e
  Agreement-agrees (field k (str s) fs) o (h, e) = rw h (rw (eq_refl s) (Agreement-agrees fs o e))
  Agreement-agrees (field k (num s) fs) o (h, e) =
      rw (IsNumber-num (get_field k o) s h) (Agreement-agrees fs o e)
  Agreement-agrees (field k (bool s) fs) o (h, e) =
      rw (IsNumber-bool (get_field k o) s h) (Agreement-agrees fs o e)

  published-status :
      (found : Option (Json N))
      → (elim found [ some (str s) ↦ s == "published" | _ ↦ false ]) ≡ true
      → found ≡ some (str "published")
  published-status (some (str s)) e = ap (λ x. some (str x)) ((eq_iff s "published").0 e)
  published-status none e = absurd (cc e)
  published-status (some null) e = absurd (cc e)
  published-status (some (bool b)) e = absurd (cc e)
  published-status (some (num b)) e = absurd (cc e)
  published-status (some (arr b)) e = absurd (cc e)
  published-status (some (obj b)) e = absurd (cc e)

  confirms-IsConfirmation :
      (proposal o : Fields N) → confirms n (scalars proposal) o ≡ true → IsConfirmation proposal o
  unfolding confirms has_status
  confirms-IsConfirmation proposal o e = (
    published-status (get_field "status" o) (ground arith),
    agrees-Agreement proposal o (ground arith),
  )

  status-published :
      (o : Fields N)
      → get_field "status" o ≡ some (str "published")
      → has_status "published" o ≡ true
  unfolding has_status
  status-published o e = rw (has_status, e) refl

  IsConfirmation-confirms :
      (proposal o : Fields N) → IsConfirmation proposal o → confirms n (scalars proposal) o ≡ true
  unfolding confirms
  IsConfirmation-confirms proposal o (status, agreement) =
      ground (arith, status-published o status, Agreement-agrees proposal o agreement)

  -- What the search among some objects answers.
  abbrev Answers : Fields N → List (Fields N) → Option (Fields N) → Type 0
  Answers proposal os answer =
      ((answer ≡ none) × All (λ o. ¬ IsConfirmation proposal o) os)
      ⊎ ((o : Fields N) × (before : List (Fields N)) × (after : List (Fields N)) × (answer ≡ some o)
          × (os ≡ before ++ o ∷ after)
          × IsConfirmation proposal o
          × All (λ x. ¬ IsConfirmation proposal x) before)

  first_confirming-Answers :
      (proposal : Fields N) (os : List (Fields N))
      → Answers proposal os (first_confirming n (scalars proposal) os)
  unfolding first_confirming
  first_confirming-Answers proposal [] = inl (refl, tt)
  first_confirming-Answers proposal (o ∷ os) = elim (Bool-cases (confirms n (scalars proposal) o)) [
    | inl yes_ ↦ inr (o, [], os, rw yes_ refl, refl, confirms-IsConfirmation proposal o yes_, tt)
    | inr no_ ↦
        let refuses : ¬ IsConfirmation proposal o =
          λ c. absurd (cc (no_, IsConfirmation-confirms proposal o c)) in
        elim (first_confirming-Answers proposal os) [
          | inl (e, all) ↦ inl (rw no_ e, (refuses, all))
          | inr (found, before, after, e, split, is, all) ↦
              inr (found, o ∷ before, after, rw no_ e, ap (◌∷◌ o) split, is, (refuses, all))
        ]
  ]

  -- Of all the JSON objects that are read from the texts, in order, `find_execution` returns the
  -- first that says status "published" and says each text, number and truth value of the proposal
  -- under its key (numbers and truth values as Python compares them), and nothing if there is none.
  pub find_execution_lem :
      (codec : Codec N) (texts : List String) (proposal : Fields N)
      → ((find_execution n codec texts proposal ≡ none)
          × All (λ o. ¬ IsConfirmation proposal o) (objects_of codec texts))
        ⊎ ((o : Fields N) × (before : List (Fields N)) × (after : List (Fields N)) × (find_execution
                n codec texts proposal
              ≡ some o)
            × (objects_of codec texts ≡ before ++ o ∷ after)
            × IsConfirmation proposal o
            × All (λ x. ¬ IsConfirmation proposal x) before)
  find_execution_lem codec texts proposal =
      subst (Answers proposal (objects_of codec texts))
        (sym (find_execution-objects_of n codec texts proposal))
        (first_confirming-Answers proposal (objects_of codec texts))
