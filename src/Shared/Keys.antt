-- ===== src/Shared/Keys.antt =====
-- How Python compares the tuples that app/shared/model_selection.py sorts by: the first elements
-- that differ decide, and a tuple is above its own beginnings.
use mathlib.Core.Path.{subst, ap₂}
use adk_a2a_gke.Prelude.{
  ℕ, ◌≡◌, refl, sym, Bool, true, false, List, [], ◌∷◌, eqb, ltb, if◌then◌else◌, ◌&&◌, arith,
  Bool-cases, inl, inr,
}

-- `a == b` and `a > b`
pub record Order {ℓ} (A : Type ℓ) : Type ℓ where
  pub same : A → A → Bool
  pub above : A → A → Bool

-- a strict order in which two elements that are not the same are above one another
pub record IsOrder {ℓ} {A : Type ℓ} (o : Order A) : Type ℓ where
  pub same_sound : (a b : A) → o.same a b ≡ true → a ≡ b
  pub same_refl : (a : A) → o.same a a ≡ true
  pub irrefl : (a : A) → o.above a a ≡ false
  pub trans : (a b c : A) → o.above a b ≡ true → o.above b c ≡ true → o.above a c ≡ true
  pub total : (a b : A) → o.same a b ≡ false → o.above a b ≡ false → o.above b a ≡ true

abbrev pub numbers : Order ℕ
numbers = record { same = eqb; above = λ a b. ltb b a }

unfoldable pub same_tuple : List ℕ → List ℕ → Bool
same_tuple [] [] = true
same_tuple [] (_ ∷ _) = false
same_tuple (_ ∷ _) [] = false
same_tuple (a ∷ as') (b ∷ bs) = eqb a b && same_tuple as' bs

unfoldable pub above_tuple : List ℕ → List ℕ → Bool
above_tuple [] _ = false
above_tuple (_ ∷ _) [] = true
above_tuple (a ∷ as') (b ∷ bs) = let rest = above_tuple as' bs in if eqb a b then rest else ltb b a

abbrev pub tuples : Order (List ℕ)
tuples = record { same = same_tuple; above = above_tuple }

-- `(a, x) > (b, y)`
abbrev pub pair_above {ℓ κ} : {A : Type ℓ} {B : Type κ} → Order A → Order B → A × B → A × B → Bool
pair_above o p (a, x) (b, y) = if o.same a b then p.above x y else o.above a b

abbrev pub pair_same {ℓ κ} : {A : Type ℓ} {B : Type κ} → Order A → Order B → A × B → A × B → Bool
pair_same o p (a, x) (b, y) = o.same a b && p.same x y

abbrev pub pairs {ℓ κ} : {A : Type ℓ} {B : Type κ} → Order A → Order B → Order (A × B)
pairs o p = record { same = pair_same o p; above = pair_above o p }

pub numbers-IsOrder : IsOrder numbers
numbers-IsOrder = record {
  same_sound = λ a b e. ground (arith, e);
  same_refl = λ a. ground arith;
  irrefl = λ a. ground arith;
  trans = λ a b c e f. ground arith;
  total = λ a b e f. ground arith;
}

same_tuple_sound : (a b : List ℕ) → same_tuple a b ≡ true → a ≡ b
unfolding same_tuple
same_tuple_sound [] [] e = refl
same_tuple_sound [] (_ ∷ _) e = absurd (ground arith)
same_tuple_sound (_ ∷ _) [] e = absurd (ground arith)
same_tuple_sound (a ∷ as') (b ∷ bs) e = ground (arith, same_tuple_sound as' bs)

same_tuple_refl : (a : List ℕ) → same_tuple a a ≡ true
unfolding same_tuple
same_tuple_refl [] = refl
same_tuple_refl (a ∷ as') = ground (arith, same_tuple_refl as')

above_tuple_irrefl : (a : List ℕ) → above_tuple a a ≡ false
unfolding above_tuple
above_tuple_irrefl [] = refl
above_tuple_irrefl (a ∷ as') = ground (arith, above_tuple_irrefl as')

above_tuple_trans :
    (a b c : List ℕ) → above_tuple a b ≡ true → above_tuple b c ≡ true → above_tuple a c ≡ true
unfolding above_tuple
above_tuple_trans [] b c e f = absurd (ground arith)
above_tuple_trans (a ∷ as') b [] e f = refl
above_tuple_trans (a ∷ as') [] (c ∷ cs) e f = absurd (ground arith)
above_tuple_trans (a ∷ as') (b ∷ bs) (c ∷ cs) e f = ground (arith, above_tuple_trans as' bs cs)

above_tuple_total :
    (a b : List ℕ) → same_tuple a b ≡ false → above_tuple a b ≡ false → above_tuple b a ≡ true
unfolding above_tuple same_tuple
above_tuple_total [] [] e f = absurd (ground arith)
above_tuple_total [] (_ ∷ _) e f = refl
above_tuple_total (_ ∷ _) [] e f = absurd (ground arith)
above_tuple_total (a ∷ as') (b ∷ bs) e f = ground (arith, above_tuple_total as' bs)

pub tuples-IsOrder : IsOrder tuples
tuples-IsOrder = record {
  same_sound = same_tuple_sound;
  same_refl = same_tuple_refl;
  irrefl = above_tuple_irrefl;
  trans = above_tuple_trans;
  total = above_tuple_total;
}

module _ {ℓ} {A : Type ℓ} {o : Order A} (h : IsOrder o) where
  same_sym : (a b : A) → o.same a b ≡ true → o.same b a ≡ true
  same_sym a b e = subst (λ c. o.same c a ≡ true) (h.same_sound a b e) (h.same_refl a)

  above_distinct : (a b : A) → o.above a b ≡ true → o.same a b ≡ false
  above_distinct a b f = elim (Bool-cases (o.same a b)) [
    | inl e ↦
        absurd
          (ground (arith, f, subst (λ c. o.above a c ≡ false) (h.same_sound a b e) (h.irrefl a)))
    | inr e ↦ e
  ]

module _ {ℓ κ} {A : Type ℓ} {B : Type κ} {o : Order A} {p : Order B} where
  pub pairs-IsOrder : IsOrder o → IsOrder p → IsOrder (pairs o p)
  pairs-IsOrder h k = record {
    same_sound = λ (a, x) (b, y) e.
        ap₂ (λ c z. (c, z)) (h.same_sound a b (ground (arith, e)))
          (k.same_sound x y (ground (arith, e)));
    same_refl = λ (a, x). ground (arith, h.same_refl a, k.same_refl x);
    irrefl = λ (a, x). ground (arith, h.same_refl a, k.irrefl x);
    trans = λ (a, x) (b, y) (c, z) e f. pair_trans a b c x y z e f;
    total = λ (a, x) (b, y) e f. pair_total a b x y e f;
  }
    where
      pair_trans_at :
          (a c : A) (x y z : B)
          → pair_above o p (a, x) (a, y) ≡ true
          → pair_above o p (a, y) (c, z) ≡ true
          → pair_above o p (a, x) (c, z) ≡ true
      pair_trans_at a c x y z e f = elim (Bool-cases (o.same a c)) [
        | inl s ↦ rw s (k.trans x y z (ground (arith, e, h.same_refl a)) (ground (arith, f, s)))
        | inr s ↦ ground (arith, f, s)
      ]

      pair_trans_same :
          (a b c : A) (x y z : B)
          → a ≡ b
          → pair_above o p (a, x) (b, y) ≡ true
          → pair_above o p (b, y) (c, z) ≡ true
          → pair_above o p (a, x) (c, z) ≡ true
      pair_trans_same a b c x y z same e f =
          pair_trans_at a c x y z (subst (λ d. pair_above o p (a, x) (d, y) ≡ true) (sym same) e)
            (subst (λ d. pair_above o p (d, y) (c, z) ≡ true) (sym same) f)

      pair_trans :
          (a b c : A) (x y z : B)
          → pair_above o p (a, x) (b, y) ≡ true
          → pair_above o p (b, y) (c, z) ≡ true
          → pair_above o p (a, x) (c, z) ≡ true
      pair_trans a b c x y z e f = elim (Bool-cases (o.same a b)) [
        | inl s ↦ pair_trans_same a b c x y z (h.same_sound a b s) e f
        | inr s ↦ elim (Bool-cases (o.same b c)) [
          | inl t ↦
              let up =
                subst (λ d. o.above a d ≡ true) (h.same_sound b c t) (ground (arith, e, s)) in
              let u = above_distinct h a c up in rw (u, up) refl
          | inr t ↦
              let up = h.trans a b c (ground (arith, e, s)) (ground (arith, f, t)) in
              let u = above_distinct h a c up in rw (u, up) refl
        ]
      ]

      pair_total :
          (a b : A) (x y : B)
          → pair_same o p (a, x) (b, y) ≡ false
          → pair_above o p (a, x) (b, y) ≡ false
          → pair_above o p (b, y) (a, x) ≡ true
      pair_total a b x y e f = elim (Bool-cases (o.same a b)) [
        | inl s ↦
            let t = same_sym h a b s in
            rw t (k.total x y (ground (arith, e, s)) (ground (arith, f, s)))
        | inr s ↦
            let t = h.total a b s (ground (arith, f, s)) in
            let u = above_distinct h b a t in rw (u, t) refl
      ]
