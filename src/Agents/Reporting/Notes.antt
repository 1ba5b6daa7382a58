-- ===== src/Agents/Reporting/Notes.antt =====
-- app/agents/reporting.py: what the loop over an event's payloads keeps.
use mathlib.Core.Path.{subst}
use adk_a2a_gke.Prelude.{
  String, ◌≡◌, refl, sym, ◌∙◌, ap, Bool, true, false, List, [], ◌∷◌, ◌++◌, ◌⊎◌, ◌==◌, In, inl, inr,
  returned, arith, Bool-cases, All, bind-returned, returned_injective, All-append, eq_iff,
}
use adk_a2a_gke.Json.{Fields, Codec, get_field}
use adk_a2a_gke.Cases.Replies.{contains}
use adk_a2a_gke.Agents.Reporting.{Noted, audited, add, add_if, note_all}

module _ {N : Type 0} (codec : Codec N) (Written : Fields N → Type 0) where
  -- every key that was seen is the key of a result
  unfoldable pub IsKept : Noted N → Type 0
  IsKept (seen, results) =
      (k : String)
      → contains k seen ≡ true
      → (q : Fields N) × In q results × (codec.dumps_sorted q ≡ k)

  -- the payload is among the results, or one with the same text
  unfoldable pub Kept : Fields N → Noted N → Type 0
  Kept fs (seen, results) =
      (q : Fields N) × In q results × (codec.dumps_sorted q ≡ codec.dumps_sorted fs)

  unfoldable pub Grows : Noted N → Noted N → Type 0
  Grows (_, before) (_, after) = (q : Fields N) → In q before → In q after

  In-append_last : (q : Fields N) (xs : List (Fields N)) → In q (xs ++ q ∷ [])
  In-append_last q [] = inl refl
  In-append_last q (x ∷ xs) = inr (In-append_last q xs)

  In-append : (q r : Fields N) (xs : List (Fields N)) → In q xs → In q (xs ++ r ∷ [])
  In-append q r [] i = absurd (i refl)
  In-append q r (x ∷ xs) (inl e) = inl e
  In-append q r (x ∷ xs) (inr i) = inr (In-append q r xs i)

  add-cases :
      (fs : Fields N) (seen : List String) (results : List (Fields N))
      → ((contains (codec.dumps_sorted fs) seen ≡ true)
          × (add codec fs (seen, results) ≡ (seen, results)))
        ⊎ (add codec fs (seen, results) ≡ (codec.dumps_sorted fs ∷ seen, results ++ fs ∷ []))
  unfolding add
  add-cases fs seen results = elim (Bool-cases (contains (codec.dumps_sorted fs) seen)) [
    | inl e ↦ inl (e, rw (e, add) refl)
    | inr e ↦ inr (rw (e, add) refl)
  ]

  added-IsKept :
      (fs : Fields N) (seen : List String) (results : List (Fields N))
      → IsKept (seen, results)
      → IsKept (codec.dumps_sorted fs ∷ seen, results ++ fs ∷ [])
  unfolding IsKept contains
  added-IsKept fs seen results k j c = elim (Bool-cases (codec.dumps_sorted fs == j)) [
    | inl e ↦ (fs, In-append_last fs results, (eq_iff (codec.dumps_sorted fs) j).0 e)
    | inr e ↦ let (q, i, same) = k j (ground (arith, c, e)) in (q, In-append q fs results i, same)
  ]

  add-IsKept :
      (fs : Fields N) (seen : List String) (results : List (Fields N))
      → IsKept (seen, results)
      → IsKept (add codec fs (seen, results))
        × Kept fs (add codec fs (seen, results))
        × Grows (seen, results) (add codec fs (seen, results))
  unfolding IsKept Kept Grows
  add-IsKept fs seen results k = elim (add-cases fs seen results) [
    | inl (e, same) ↦ rw same (k, k (codec.dumps_sorted fs) e, λ q i. i)
    | inr e ↦ rw e (
      added-IsKept fs seen results k,
      (fs, In-append_last fs results, refl),
      (λ q i. In-append q fs results i),
    )
  ]

  pub outgrows : (a b c : Noted N) → Grows a b → Grows b c → Grows a c
  unfolding Grows
  outgrows a b c f g q i = g q (f q i)

  pub Kept-Grows : (fs : Fields N) (a b : Noted N) → Kept fs a → Grows a b → Kept fs b
  unfolding Grows Kept
  Kept-Grows fs a b (q, i, e) g = (q, g q i, e)

  add_if-IsKept :
      (wanted : Bool) (fs : Fields N) (noted : Noted N)
      → IsKept noted
      → IsKept (add_if codec wanted fs noted) × Grows noted (add_if codec wanted fs noted)
  unfolding Grows
  add_if-IsKept false fs noted k = (k, λ q i. i)
  add_if-IsKept true fs (seen, results) k =
      let (kept, _, grows) = add-IsKept fs seen results k in (kept, grows)

  pub note_all-IsKept :
      (ps : List (Fields N)) (noted after : Noted N)
      → IsKept noted
      → note_all codec ps noted ≡ returned after
      → IsKept after × Grows noted after
  unfolding note_all
  note_all-IsKept [] noted after k e =
      let same = returned_injective noted after e in
      (subst IsKept same k, subst (Grows noted) same (unfold Grows in λ q i. i))
  note_all-IsKept (p ∷ ps) noted after k e =
      let (wanted, _, rest) = bind-returned (audited (get_field "status" p)) _ after e in
      let (kept, grows) = add_if-IsKept wanted p noted k in
      let (last, more) = note_all-IsKept ps (add_if codec wanted p noted) after kept rest in
      (last, outgrows noted (add_if codec wanted p noted) after grows more)

  pub note_all-Kept :
      (ps : List (Fields N)) (noted after : Noted N) (fs : Fields N)
      → IsKept noted
      → note_all codec ps noted ≡ returned after
      → In fs ps
      → audited (get_field "status" fs) ≡ returned true
      → Kept fs after
  unfolding note_all
  note_all-Kept [] noted after fs k e i a = absurd (i refl)
  note_all-Kept (p ∷ ps) (seen, results) after fs k e (inl same) a =
      let (wanted, b, rest) = bind-returned (audited (get_field "status" p)) _ after e in
      let wanted_true : true ≡ wanted =
        returned_injective true wanted
          (sym a ∙ ap (λ x. audited (get_field "status" x)) same ∙ b) in
      let (kept, grows) = add_if-IsKept wanted p (seen, results) k in
      let (_, more) = note_all-IsKept ps (add_if codec wanted p (seen, results)) after kept rest in
      Kept-Grows fs (add_if codec wanted p (seen, results)) after
        (subst (λ x. Kept x (add_if codec wanted p (seen, results))) (sym same)
          (subst (λ w. Kept p (add_if codec w p (seen, results))) wanted_true
            ((add-IsKept p seen results k).1)))
        more
  note_all-Kept (p ∷ ps) noted after fs k e (inr i) a =
      let (wanted, _, rest) = bind-returned (audited (get_field "status" p)) _ after e in
      let (kept, _) = add_if-IsKept wanted p noted k in
      note_all-Kept ps (add_if codec wanted p noted) after fs kept rest i a

  add_if-Written :
      (wanted : Bool) (p : Fields N) (noted : Noted N)
      → All Written noted.1
      → Written p
      → All Written (add_if codec wanted p noted).1
  add_if-Written false p noted h w = h
  add_if-Written true p (seen, results) h w = elim (add-cases p seen results) [
    | inl (e, same) ↦ rw same h
    | inr e ↦ rw e (All-append Written results (p ∷ []) h (w, tt))
  ]

  pub note_all-Written :
      (ps : List (Fields N)) (noted after : Noted N)
      → All Written noted.1
      → All Written ps
      → note_all codec ps noted ≡ returned after
      → All Written after.1
  unfolding note_all
  note_all-Written [] noted after h w e =
      subst (λ x. All Written x.1) (returned_injective noted after e) h
  note_all-Written (p ∷ ps) noted after h (w, ws) e =
      let (wanted, _, rest) = bind-returned (audited (get_field "status" p)) _ after e in
      note_all-Written ps (add_if codec wanted p noted) after (add_if-Written wanted p noted h w) ws
        rest
