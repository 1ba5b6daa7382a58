-- ===== src/Prelude.antt =====
-- The names that every module shares: the libraries', passed on, Boolean tests, options and
-- Python's `dict` with text keys.
mod Dicts
mod Attempts
unfoldable pub use Dicts.*
pub use Attempts.{
  Exception, value_error, key_error, type_error, foreign, Attempt, returned, raised, ◌>>=◌,
  Attempt-cases, returned_injective, bind-returned,
}
use Prim.Native.Nat.{compare, Ordering}
pub use Prim.Native.Nat.{ℕ, zero, suc, ◌+◌, ◌-◌, ◌≤◌, ◌<◌}
pub use Prim.Native.String.{String}
use mathlib.Core.Option.{some-injective}
use mathlib.Core.Path.{subst}
pub use mathlib.Core.Path.{◌≡◌, refl, sym, ap, ◌∙◌}
pub use mathlib.Core.Logic.{◌≢◌, ◌↔◌, ◌⊎◌, inl, inr}
pub use mathlib.Core.Bool.{Bool, true, false, not, ◌&&◌, ◌||◌}
pub use mathlib.Core.Option.{Option, none, some}
pub use mathlib.Core.List.{List, [], ◌∷◌, ◌++◌, map}
pub use native.Mathlib.Omega.{arith}
pub use text.Mathlib.Text.{◌==◌}
pub use text.Mathlib.TextEquality.{eq_iff}
pub use text.Mathlib.TextPositions.{eq_refl}

abbrev pub ltb : ℕ → ℕ → Bool
ltb a b = elim (compare a b) [ Ordering.lt ↦ true | _ ↦ false ]

abbrev pub leb : ℕ → ℕ → Bool
leb a b = elim (compare a b) [ Ordering.gt ↦ false | _ ↦ true ]

abbrev pub eqb : ℕ → ℕ → Bool
eqb a b = elim (compare a b) [ Ordering.eq ↦ true | _ ↦ false ]

infix 1 if◌then◌else◌
abbrev pub if◌then◌else◌ {ℓ} : {A : Type ℓ} → Bool → A → A → A
if true then x else y = x
if false then x else y = y

-- an integer: `negsuc n` is -(n + 1)
pub data ℤ : Type 0 where
  pos negsuc : ℕ → ℤ

abbrev pub same_int : ℤ → ℤ → Bool
same_int (pos a) (pos b) = eqb a b
same_int (negsuc a) (negsuc b) = eqb a b
same_int _ _ = false

-- the process's environment, `os.environ`
abbrev pub Env : Type 0
Env = String → Option String

-- `env.get(key, default)`
abbrev pub env_get : Env → String → String → String
env_get env key default = elim (env key) [ none ↦ default | some v ↦ v ]

-- `s or default`
abbrev pub or_text : String → String → String
or_text s default = if s == "" then default else s

pub Bool-cases : (b : Bool) → (b ≡ true) ⊎ (b ≡ false)
Bool-cases true = inl refl
Bool-cases false = inr refl

module _ {ℓ} {A : Type ℓ} where
  pub Option-cases : (o : Option A) → (o ≡ none) ⊎ ((a : A) × (o ≡ some a))
  Option-cases none = inl refl
  Option-cases (some a) = inr (a, refl)

  -- `x is None`
  abbrev pub is_none : Option A → Bool
  is_none none = true
  is_none (some _) = false

  -- `x or y` on optional objects
  abbrev pub or_default : Option A → A → A
  or_default none y = y
  or_default (some x) _ = x

  abbrev pub length : List A → ℕ
  length [] = 0
  length (x ∷ xs) = suc (length xs)

  abbrev pub All {κ} : (A → Type κ) → List A → Type κ
  All P [] = Unit
  All P (x ∷ xs) = P x × All P xs

  -- membership, with the place kept
  abbrev pub In : A → List A → Type ℓ
  In x [] = x ≢ x
  In x (y ∷ ys) = (x ≡ y) ⊎ In x ys

  pub All-append {κ} : (P : A → Type κ) (xs ys : List A) → All P xs → All P ys → All P (xs ++ ys)
  All-append P [] ys h k = k
  All-append P (x ∷ xs) ys (p, h) k = (p, All-append P xs ys h k)

  pub All-map {κ} : (P Q : A → Type κ) → ((x : A) → P x → Q x) → (xs : List A) → All P xs → All Q xs
  All-map P Q f [] h = tt
  All-map P Q f (x ∷ xs) (p, h) = (f x p, All-map P Q f xs h)

  pub All-In {κ} : (P : A → Type κ) (xs : List A) (x : A) → All P xs → In x xs → P x
  All-In P [] x h i = absurd (i refl)
  All-In P (y ∷ ys) x (p, h) (inl e) = subst P (sym e) p
  All-In P (y ∷ ys) x (p, h) (inr i) = All-In P ys x h i

-- what holds of all values of a dict holds of the one that a key has
pub lookup-All {ℓ κ} :
    {V : Type ℓ} (P : V → Type κ) (k : String) (v : V) (d : Dict V)
    → All (λ (_, w). P w) d
    → lookup k d ≡ some v
    → P v
unfolding lookup
lookup-All P k v [] h e = absurd (cc e)
lookup-All P k v ((j, w) ∷ d) (p, h) e = elim (Bool-cases (j == k)) [
  | inl a ↦ subst P (some-injective w v (sym (rw a refl) ∙ e)) p
  | inr b ↦ lookup-All P k v d h (sym (rw b refl) ∙ e)
]
