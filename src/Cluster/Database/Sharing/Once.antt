-- ===== src/Cluster/Database/Sharing/Once.antt =====
-- Threads that ask for the engine share one.
use mathlib.Core.Option.{some-injective}
use adk_a2a_gke.Prelude.{
  ℕ, suc, Option, none, some, List, [], ◌∷◌, eqb, ◌≡◌, ◌≤◌, ◌⊎◌, refl, sym, ◌∙◌, arith, inl, inr,
  Bool-cases, is_none,
}
use adk_a2a_gke.Cluster.Database.{DatabaseConfig, enabled}
use adk_a2a_gke.Cluster.Database.Sharing.{
  Place, outside, waiting, holding, failed, returned, Holder, fresh, move, looked, enter, acquire,
  locked, build_or_return, step_at, run,
}

-- At most the first engine was built, and who returned has it.
pub record IsShared (h : Holder) : Type 0 where
  pub one : ((h.engine ≡ none) × (h.built ≡ 0)) ⊎ ((h.engine ≡ some 0) × (h.built ≡ 1))
  pub same : (i e : ℕ) → h.places i ≡ returned e → (h.engine ≡ some e)

move-IsShared :
    (i : ℕ) (place : Place) (h : Holder)
    → IsShared h
    → ((e : ℕ) → place ≡ returned e → h.engine ≡ some e)
    → IsShared (move i place h)
move-IsShared i place h s f = record {
  one = s.one;
  same = λ j e r. elim (Bool-cases (eqb i j)) [
    | inl a ↦ f e (ground (arith, a, r))
    | inr a ↦ s.same j e (ground (arith, a, r))
  ];
}

build-IsShared :
    (h : Holder)
    → IsShared h
    → h.engine ≡ none
    → IsShared (record h { engine = some h.built; built = suc h.built })
build-IsShared h s e = record {
  one = inr (ground (arith, e, s.one));
  same = λ j x r. absurd (cc (s.same j x r, e));
}

lock-IsShared : (o : Option ℕ) (h : Holder) → IsShared h → IsShared (record h { lock = o })
lock-IsShared o h s = record { one = s.one; same = s.same }

returned-same : (x e : ℕ) (o : Option ℕ) → o ≡ some x → returned x ≡ returned e → o ≡ some e
returned-same x e o a b = cc (a, b)

module _ (c : DatabaseConfig) where
  looked-IsShared :
      (i : ℕ) (o : Option ℕ) (h : Holder) → IsShared h → h.engine ≡ o → IsShared (looked i o h)
  unfolding looked
  looked-IsShared i none h s e = move-IsShared i waiting h s (λ x r. absurd (cc r))
  looked-IsShared i (some x) h s e =
      move-IsShared i (returned x) h s (λ y r. returned-same x y h.engine e r)

  enter-IsShared : (i : ℕ) (h : Holder) → IsShared h → IsShared (enter c i h)
  unfolding enter
  enter-IsShared i h s = elim (Bool-cases (enabled c)) [
    | inr off ↦ rw off (move-IsShared i failed h s (λ e r. absurd (cc r)))
    | inl on ↦ rw on (looked-IsShared i h.engine h s refl)
  ]

  acquire-IsShared : (i : ℕ) (h : Holder) → IsShared h → IsShared (acquire i h)
  unfolding acquire
  acquire-IsShared i h s = elim (Bool-cases (is_none h.lock)) [
    | inl free ↦ rw free (
        move-IsShared i holding (record h { lock = some i }) (lock-IsShared (some i) h s)
          (λ e r. absurd (cc r)))
    | inr taken ↦ rw taken s
  ]

  locked-IsShared :
      (i : ℕ) (o : Option ℕ) (h : Holder) → IsShared h → h.engine ≡ o → IsShared (locked i o h)
  unfolding locked
  locked-IsShared i none h s e = build-IsShared h s e
  locked-IsShared i (some x) h s e =
      move-IsShared i (returned x) (record h { lock = none }) (lock-IsShared none h s)
        (λ y r. returned-same x y h.engine e r)

  step_at-IsShared :
      (i : ℕ) (place : Place) (h : Holder) → IsShared h → IsShared (step_at c i place h)
  unfolding step_at
  step_at-IsShared i outside h s = enter-IsShared i h s
  step_at-IsShared i waiting h s = acquire-IsShared i h s
  step_at-IsShared i holding h s = unfold build_or_return in locked-IsShared i h.engine h s refl
  step_at-IsShared i failed h s = s
  step_at-IsShared i (returned e) h s = s

  pub run-IsShared : (schedule : List ℕ) (h : Holder) → IsShared h → IsShared (run c schedule h)
  unfolding run
  run-IsShared [] h s = s
  run-IsShared (i ∷ schedule) h s =
      run-IsShared schedule (step_at c i (h.places i) h) (step_at-IsShared i (h.places i) h s)

  pub fresh-IsShared : IsShared fresh
  unfolding fresh
  fresh-IsShared = record { one = inl (refl, refl); same = λ i e r. absurd (cc r) }

  -- However threads interleave that ask for the engine, at most one engine is built, and all
  -- threads that return have the same one.
  pub engine_once :
      (schedule : List ℕ)
      → let h = run c schedule fresh in
        (h.built ≤ 1) × ((i j e f : ℕ) → h.places i ≡ returned e → h.places j ≡ returned f → e ≡ f)
  engine_once schedule =
      let h = run c schedule fresh in
      let s = run-IsShared schedule fresh fresh-IsShared in
      (ground (arith, s.one), λ i j e f a b. some-injective e f (sym (s.same i e a) ∙ s.same j f b))
