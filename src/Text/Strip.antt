-- ===== src/Text/Strip.antt =====
-- What `strip` leaves: no dropped character stands at either end.
use Prim.Native.Char.{Char}
use Prim.Native.String.{[], ◌∷◌}
use adk_a2a_gke.Prelude.{
  String, Bool, false, ◌≡◌, refl, ◌==◌, if◌then◌else◌, arith, Bool-cases, inl, inr,
}
use adk_a2a_gke.Text.{lstrip_by, rstrip_by}

-- whether the first character of `s` is one of `drop`
abbrev pub starts_by : (Char → Bool) → String → Bool
starts_by drop [] = false
starts_by drop (c ∷ s) = drop c

-- whether the last character of `s` is one of `drop`
abbrev pub ends_by : (Char → Bool) → String → Bool
ends_by drop [] = false
ends_by drop (c ∷ s) = let rest = ends_by drop s in if s == "" then drop c else rest

pub lstrip_by-starts : (drop : Char → Bool) (s : String) → starts_by drop (lstrip_by drop s) ≡ false
unfolding lstrip_by
lstrip_by-starts drop [] = refl
lstrip_by-starts drop (c ∷ s) = elim (Bool-cases (drop c)) [
  | inl e ↦ rw (e, lstrip_by) (lstrip_by-starts drop s)
  | inr e ↦ rw (e, lstrip_by) e
]

pub rstrip_by-ends : (drop : Char → Bool) (s : String) → ends_by drop (rstrip_by drop s) ≡ false
unfolding rstrip_by
rstrip_by-ends drop [] = refl
rstrip_by-ends drop (c ∷ s) = elim (Bool-cases (rstrip_by drop s == "")) [
  | inl e ↦ elim (Bool-cases (drop c)) [
    | inl f ↦ rw (e, f, rstrip_by) refl
    | inr f ↦ rw (e, f, rstrip_by) (rw e f)
  ]
  | inr e ↦ rw (e, rstrip_by) (rw e (rstrip_by-ends drop s))
]

pub rstrip_by-starts :
    (drop : Char → Bool) (s : String)
    → starts_by drop s ≡ false
    → starts_by drop (rstrip_by drop s) ≡ false
unfolding rstrip_by
rstrip_by-starts drop [] e = refl
rstrip_by-starts drop (c ∷ s) e = ground arith
