-- ===== src/Text/Split.antt =====
-- `split` and `partition` take apart what was put together.
use Prim.Native.Char.{Char, code}
use Prim.Native.String
use text.Mathlib.TextLemmas.{nil-append, cons-append}
use adk_a2a_gke.Prelude.{
  ℕ, String, Bool, true, List, [], ◌∷◌, ◌&&◌, not, arith, eqb, ◌≡◌, refl, inl, inr, Bool-cases, All,
}
use adk_a2a_gke.Text.{split, partition, joined}

-- no character of the text has the code
abbrev pub lacks : ℕ → String → Bool
lacks sep String.[] = true
lacks sep (String.◌∷◌ c s) = not (eqb (code c) sep) && lacks sep s

split-lacks : (sep : ℕ) (w : String) → lacks sep w ≡ true → split sep w ≡ w ∷ []
unfolding split
split-lacks sep String.[] h = refl
split-lacks sep (String.◌∷◌ c w) h = elim (Bool-cases (eqb (code c) sep)) [
  | inl e ↦ absurd (ground (arith, e, h))
  | inr e ↦ rw (e, split-lacks sep w (ground (arith, e, h))) refl
]

split-append :
    (c : Char) (w s : String)
    → eqb (code c) (code c) ≡ true
    → lacks (code c) w ≡ true
    → split (code c) (String.◌++◌ w (String.◌∷◌ c s)) ≡ w ∷ split (code c) s
unfolding split
split-append c String.[] s same h = rw (nil-append (String.◌∷◌ c s), same) refl
split-append c (String.◌∷◌ b w) s same h = elim (Bool-cases (eqb (code b) (code c))) [
  | inl e ↦ absurd (ground (arith, e, h))
  | inr e ↦
      rw (cons-append b w (String.◌∷◌ c s), e, split-append c w s same (ground (arith, e, h))) refl
]

pub partition-append :
    (c : Char) (w s : String)
    → eqb (code c) (code c) ≡ true
    → lacks (code c) w ≡ true
    → partition (code c) (String.◌++◌ w (String.◌∷◌ c s)) ≡ (w, s)
unfolding partition
partition-append c String.[] s same h = rw (nil-append (String.◌∷◌ c s), same) refl
partition-append c (String.◌∷◌ b w) s same h = elim (Bool-cases (eqb (code b) (code c))) [
  | inl e ↦ absurd (ground (arith, e, h))
  | inr e ↦
      rw (cons-append b w (String.◌∷◌ c s), e, partition-append c w s same (ground (arith, e, h)))
        refl
]

pub split-joined :
    (c : Char) (f : String) (fs : List String)
    → eqb (code c) (code c) ≡ true
    → All (λ w. lacks (code c) w ≡ true) (f ∷ fs)
    → split (code c) (joined (String.◌∷◌ c String.[]) (f ∷ fs)) ≡ f ∷ fs
split-joined c f [] same (h, _) = split-lacks (code c) f h
split-joined c f (g ∷ fs) same (h, hs) =
    rw
      (
        cons-append c String.[] (joined (String.◌∷◌ c String.[]) (g ∷ fs)),
        nil-append (joined (String.◌∷◌ c String.[]) (g ∷ fs)),
        split-append c f (joined (String.◌∷◌ c String.[]) (g ∷ fs)) same h,
        split-joined c g fs same hs,
      )
      refl
