-- ===== src/Cases/Memory/Listing.antt =====
-- app/cluster/cases.py, `InMemoryCaseStore.list_by_status`.
use mathlib.Core.Path.{subst}
use adk_a2a_gke.Prelude.{
  ℕ, String, ◌≡◌, refl, ◌⊎◌, inl, inr, ◌↔◌, List, [], ◌∷◌, arith, ◌==◌, eq_iff, leb, ◌≤◌, values,
  In, Bool-cases,
}
use adk_a2a_gke.Cases.Case.{ApprovalCase, text}
use adk_a2a_gke.Cases.Memory.{Cases, with_status, insert_by_age, sort_by_age, list_by_status}

module _ {N : Type 0} where
  -- no case of the list is older than `t`
  abbrev pub Since : ℕ → List (ApprovalCase N) → Type 0
  Since t [] = Unit
  Since t (c ∷ cs) = (t ≤ c.created_at) × Since t cs

  abbrev pub IsOldestFirst : List (ApprovalCase N) → Type 0
  IsOldestFirst [] = Unit
  IsOldestFirst (c ∷ cs) = Since c.created_at cs × IsOldestFirst cs

  Since-trans : (t u : ℕ) (cs : List (ApprovalCase N)) → t ≤ u → Since u cs → Since t cs
  Since-trans t u [] le s = tt
  Since-trans t u (c ∷ cs) le (a, s) = (omega (arith, le, a), Since-trans t u cs le s)

  Since-insert :
      (t : ℕ) (c : ApprovalCase N) (cs : List (ApprovalCase N))
      → t ≤ c.created_at
      → Since t cs
      → Since t (insert_by_age c cs)
  unfolding insert_by_age
  Since-insert t c [] le s = (le, tt)
  Since-insert t c (d ∷ ds) le (a, s) = elim (Bool-cases (leb c.created_at d.created_at)) [
    | inl e ↦ rw e (le, (a, s))
    | inr e ↦ rw e (a, Since-insert t c ds le s)
  ]

  insert-IsOldestFirst :
      (c : ApprovalCase N) (cs : List (ApprovalCase N))
      → IsOldestFirst cs
      → IsOldestFirst (insert_by_age c cs)
  unfolding insert_by_age
  insert-IsOldestFirst c [] s = (tt, tt)
  insert-IsOldestFirst c (d ∷ ds) (a, s) = elim (Bool-cases (leb c.created_at d.created_at)) [
    | inl e ↦
        let le : c.created_at ≤ d.created_at = ground (arith, e) in
        rw e ((le, Since-trans c.created_at d.created_at ds le a), (a, s))
    | inr e ↦
        let le : d.created_at ≤ c.created_at = ground (arith, e) in
        rw e (Since-insert d.created_at c ds le a, insert-IsOldestFirst c ds s)
  ]

  sort-IsOldestFirst : (cs : List (ApprovalCase N)) → IsOldestFirst (sort_by_age cs)
  unfolding sort_by_age
  sort-IsOldestFirst [] = tt
  sort-IsOldestFirst (c ∷ cs) = insert-IsOldestFirst c (sort_by_age cs) (sort-IsOldestFirst cs)

  In-insert :
      (x c : ApprovalCase N) (cs : List (ApprovalCase N))
      → In x (insert_by_age c cs) ↔ ((x ≡ c) ⊎ In x cs)
  unfolding insert_by_age
  In-insert x c [] = (λ i. i, λ i. i)
  In-insert x c (d ∷ ds) = elim (Bool-cases (leb c.created_at d.created_at)) [
    | inl e ↦ rw e (λ i. i, λ i. i)
    | inr e ↦ rw e (
      λ i. elim i [
        | inl a ↦ inr (inl a)
        | inr a ↦ elim ((In-insert x c ds).0 a) [ inl b ↦ inl b | inr b ↦ inr (inr b) ]
      ],
      λ i. elim i [
        | inl a ↦ inr ((In-insert x c ds).1 (inl a))
        | inr (inl a) ↦ inl a
        | inr (inr a) ↦ inr ((In-insert x c ds).1 (inr a))
      ],
    )
  ]

  In-sort : (x : ApprovalCase N) (cs : List (ApprovalCase N)) → In x (sort_by_age cs) ↔ In x cs
  unfolding sort_by_age
  In-sort x [] = (λ i. i, λ i. i)
  In-sort x (c ∷ cs) = (
    λ i. elim ((In-insert x c (sort_by_age cs)).0 i) [
      | inl a ↦ inl a
      | inr a ↦ inr ((In-sort x cs).0 a)
    ],
    λ i.
        (In-insert x c (sort_by_age cs)).1
          (elim i [ inl a ↦ inl a | inr a ↦ inr ((In-sort x cs).1 a) ]),
  )

  In-with_status :
      (status : String) (x : ApprovalCase N) (cs : List (ApprovalCase N))
      → In x (with_status status cs) ↔ (In x cs × (text x.status ≡ status))
  unfolding with_status
  In-with_status status x [] = (λ i. absurd (i refl), λ (i, _). i)
  In-with_status status x (c ∷ cs) = elim (Bool-cases (text c.status == status)) [
    | inl e ↦ rw e (
      λ i. elim i [
        | inl a ↦ (inl a, rw a ((eq_iff (text c.status) status).0 e))
        | inr a ↦ let (b, f) = (In-with_status status x cs).0 a in (inr b, f)
      ],
      λ (i, f). elim i [ inl a ↦ inl a | inr a ↦ inr ((In-with_status status x cs).1 (a, f)) ],
    )
    | inr e ↦ rw e (
      λ i. let (b, f) = (In-with_status status x cs).0 i in (inr b, f),
      λ (i, f). elim i [
        | inl a ↦
            let g : text c.status ≡ status =
              subst (λ (y : ApprovalCase N). text y.status ≡ status) a f in
            absurd (ground (arith, e, g, eq_iff (text c.status) status))
        | inr a ↦ (In-with_status status x cs).1 (a, f)
      ],
    )
  ]

  -- `list_by_status` lists exactly the cases of the dict that are in the status, the oldest first.
  pub list_by_status_lem :
      (status : String) (s : Cases N)
      → IsOldestFirst (list_by_status status s)
        × ((c : ApprovalCase N)
            → In c (list_by_status status s) ↔ (In c (values s) × (text c.status ≡ status)))
  unfolding list_by_status
  list_by_status_lem status s = (
    sort-IsOldestFirst (with_status status (values s)),
    λ c. (
      λ i. (In-with_status status c (values s)).0 ((In-sort c (with_status status (values s))).0 i),
      λ i. (In-sort c (with_status status (values s))).1 ((In-with_status status c (values s)).1 i),
    ),
  )
