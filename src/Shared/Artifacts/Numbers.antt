-- ===== src/Shared/Artifacts/Numbers.antt =====
-- The version numbers that a directory's names stand for.
use mathlib.Core.Path.{subst}
use adk_a2a_gke.Prelude.{
  ℕ, String, true, false, none, some, List, [], ◌∷◌, ◌≤◌, ◌<◌, arith, ◌≡◌, ◌⊎◌, refl, sym, ap, ◌∙◌,
  inl, inr, In, Bool-cases, Option-cases,
}
use adk_a2a_gke.Shared.Artifacts.Storage.{Outcome, ok, invalid, crashed, ◌>>=◌, Storage, Library}
use adk_a2a_gke.Shared.Artifacts.Versions.{max_of, next_version, numbers_of}

pub max_of-upper : (v : ℕ) (vs : List ℕ) (w : ℕ) → In w (v ∷ vs) → w ≤ max_of v vs
max_of-upper v [] w (inl e) = omega arith
max_of-upper v [] w (inr i) = absurd (i refl)
max_of-upper v (u ∷ vs) w (inl e) = ground arith
max_of-upper v (u ∷ vs) w (inr i) = ground (arith, max_of-upper u vs w i)

max_of-choice :
    (v u : ℕ) (vs : List ℕ) → (max_of v (u ∷ vs) ≡ v) ⊎ (max_of v (u ∷ vs) ≡ max_of u vs)
max_of-choice v u vs = ground arith

pub max_of-In : (v : ℕ) (vs : List ℕ) → In (max_of v vs) (v ∷ vs)
max_of-In v [] = inl refl
max_of-In v (u ∷ vs) = elim (max_of-choice v u vs) [
  | inl e ↦ inl e
  | inr e ↦ inr (subst (λ n. In n (u ∷ vs)) (sym e) (max_of-In u vs))
]

pub next_version-upper : (vs : List ℕ) (w : ℕ) → In w vs → w < next_version vs
unfolding next_version
next_version-upper [] w i = absurd (i refl)
next_version-upper (v ∷ vs) w i = omega (arith, max_of-upper v vs w i)

-- The greatest number of a list that holds it and nothing above it.
pub max_of-is :
    (v : ℕ) (vs : List ℕ) (n : ℕ)
    → In n (v ∷ vs)
    → ((w : ℕ) → In w (v ∷ vs) → w ≤ n)
    → max_of v vs ≡ n
max_of-is v vs n i upper =
    omega (arith, max_of-upper v vs n i, upper (max_of v vs) (max_of-In v vs))

pub bind-ok {ℓ κ} :
    {A : Type ℓ} {B : Type κ} (o : Outcome A) (f : A → Outcome B) (b : B)
    → (o >>= f) ≡ ok b
    → (a : A) × (o ≡ ok a) × (f a ≡ ok b)
bind-ok (ok a) f b e = (a, refl, e)
bind-ok invalid f b e = absurd (cc e)
bind-ok crashed f b e = absurd (cc e)

pub ok-injective {ℓ} : {A : Type ℓ} (a b : A) → ok a ≡ ok b → a ≡ b
ok-injective a b e = cc e

module _ {N B T : Type 0} (l : Library N B T) {P S : Type 0} (d : Storage P S T) (root : P) where
  pub record Numbers (ns : List String) (vs : List ℕ) : Type 0 where
    pub found :
        (n : String) → In n ns → l.is_digit n ≡ true → (v : ℕ) × (l.int n ≡ some v) × In v vs
    pub named :
        (v : ℕ) → In v vs → (n : String) × In n ns × (l.is_digit n ≡ true) × (l.int n ≡ some v)

  numbers_of-digit :
      (n : String) (ns : List String) (v : ℕ)
      → l.is_digit n ≡ true
      → l.int n ≡ some v
      → numbers_of l d root (n ∷ ns) ≡ (numbers_of l d root ns >>= λ vs. ok (v ∷ vs))
  unfolding numbers_of
  numbers_of-digit n ns v f g = rw (f, g, numbers_of) refl

  numbers_of-bad :
      (n : String) (ns : List String)
      → l.is_digit n ≡ true
      → l.int n ≡ none
      → numbers_of l d root (n ∷ ns) ≡ crashed
  unfolding numbers_of
  numbers_of-bad n ns f g = rw (f, g, numbers_of) refl

  numbers_of-other :
      (n : String) (ns : List String)
      → l.is_digit n ≡ false
      → numbers_of l d root (n ∷ ns) ≡ numbers_of l d root ns
  unfolding numbers_of
  numbers_of-other n ns f = rw (f, numbers_of) refl

  Numbers-digit :
      (n : String) (ns : List String) (v : ℕ) (vs ws : List ℕ)
      → l.is_digit n ≡ true
      → l.int n ≡ some v
      → Numbers ns vs
      → ok (v ∷ vs) ≡ ok ws
      → Numbers (n ∷ ns) ws
  Numbers-digit n ns v vs ws f g h e =
      subst (Numbers (n ∷ ns)) (ok-injective (v ∷ vs) ws e) (record {
        found = λ m i dm. elim i [
          | inl same ↦ (v, rw same g, inl refl)
          | inr i' ↦ let (w, a, b) = h.found m i' dm in (w, a, inr b)
        ];
        named = λ w i. elim i [
          | inl same ↦ (n, inl refl, f, rw same g)
          | inr i' ↦ let (m, a, b, c) = h.named w i' in (m, inr a, b, c)
        ];
      })

  Numbers-other :
      (n : String) (ns : List String) (vs : List ℕ)
      → l.is_digit n ≡ false
      → Numbers ns vs
      → Numbers (n ∷ ns) vs
  Numbers-other n ns vs f h = record {
    found = λ m i dm. elim i [ inl same ↦ absurd (cc (f, same, dm)) | inr i' ↦ h.found m i' dm ];
    named = λ w i. let (m, a, b, c) = h.named w i in (m, inr a, b, c);
  }

  pub numbers_of-Numbers :
      (ns : List String) (vs : List ℕ) → numbers_of l d root ns ≡ ok vs → Numbers ns vs
  unfolding numbers_of
  numbers_of-Numbers [] vs e =
      subst (Numbers []) (ok-injective [] vs e)
        (record { found = λ n i. absurd (i refl); named = λ v i. absurd (i refl) })
  numbers_of-Numbers (n ∷ ns) vs e = elim (Bool-cases (l.is_digit n)) [
    | inl f ↦ elim (Option-cases (l.int n)) [
      | inl g ↦ absurd (cc (numbers_of-bad n ns f g, e))
      | inr (v, g) ↦
          let (us, a, b) =
            bind-ok (numbers_of l d root ns) (λ us. ok (v ∷ us)) vs
              (sym (numbers_of-digit n ns v f g) ∙ e) in
          Numbers-digit n ns v us vs f g (numbers_of-Numbers ns us a) b
    ]
    | inr f ↦ Numbers-other n ns vs f (numbers_of-Numbers ns vs (sym (numbers_of-other n ns f) ∙ e))
  ]

  -- Where each name that looks like a number is one, there is a list.
  pub numbers_of-total :
      (ns : List String)
      → ((n : String) → In n ns → l.is_digit n ≡ true → (v : ℕ) × (l.int n ≡ some v))
      → (vs : List ℕ) × (numbers_of l d root ns ≡ ok vs)
  unfolding numbers_of
  numbers_of-total [] h = ([], refl)
  numbers_of-total (n ∷ ns) h =
      let (vs, e) = numbers_of-total ns (λ m i. h m (inr i)) in
      elim (Bool-cases (l.is_digit n)) [
        | inl f ↦
            let (v, g) = h n (inl refl) f in
            (v ∷ vs, numbers_of-digit n ns v f g ∙ ap (λ o. o >>= λ us. ok (v ∷ us)) e)
        | inr f ↦ (vs, numbers_of-other n ns f ∙ e)
      ]
