-- ===== src/Cluster/Database/Sharing/Progress.antt =====
-- A thread that asks for the engine comes back with it.
use mathlib.Core.Path.{subst}
use adk_a2a_gke.Prelude.{
  ℕ, suc, true, none, some, List, [], ◌∷◌, if◌then◌else◌, ◌≡◌, refl, sym, ap, ◌∙◌, arith, inl, inr,
  is_none,
}
use adk_a2a_gke.Cluster.Database.{DatabaseConfig, enabled}
use adk_a2a_gke.Cluster.Database.Sharing.{
  Place, outside, waiting, holding, returned, Holder, fresh, move, looked, enter, acquire, locked,
  build_or_return, step_at, run,
}
use adk_a2a_gke.Cluster.Database.Sharing.Once.{run-IsShared, fresh-IsShared}

module _ (c : DatabaseConfig) where
  advance :
      (i : ℕ) (place : Place) (is : List ℕ) (h : Holder)
      → h.places i ≡ place
      → run c (i ∷ is) h ≡ run c is (step_at c i place h)
  unfolding run
  advance i place is h e = rw e refl

  moved : (i : ℕ) (place : Place) (h : Holder) → (move i place h).places i ≡ place
  moved i place h = ground arith

  return_it :
      (i e : ℕ) (h : Holder)
      → h.places i ≡ holding
      → h.engine ≡ some e
      → (run c (i ∷ []) h).places i ≡ returned e
  unfolding run step_at build_or_return locked
  return_it i e h a b = rw (a, b) (ground arith)

  build_it :
      (i : ℕ) (h : Holder)
      → h.places i ≡ holding
      → h.engine ≡ none
      → (run c (i ∷ i ∷ []) h).places i ≡ returned h.built
  unfolding step_at build_or_return locked
  build_it i h a b =
      let h' : Holder = record h { engine = some h.built; built = suc h.built } in
      subst (λ g. g.places i ≡ returned h.built)
        (sym (advance i holding (i ∷ []) h a ∙ ap (λ o. run c (i ∷ []) (locked i o h)) b))
        (return_it i h.built h' a refl)

  lock_it :
      (i : ℕ) (h : Holder)
      → h.places i ≡ waiting
      → h.engine ≡ none
      → h.lock ≡ none
      → (run c (i ∷ i ∷ i ∷ []) h).places i ≡ returned h.built
  unfolding step_at acquire
  lock_it i h a b free =
      let h' : Holder = move i holding (record h { lock = some i }) in
      subst (λ g. g.places i ≡ returned h.built)
        (sym (
          advance i waiting (i ∷ i ∷ []) h a
          ∙ ap (λ o. run c (i ∷ i ∷ []) (if is_none o then h' else h)) free))
        (build_it i h' (moved i holding (record h { lock = some i })) b)

  enter_it :
      (i : ℕ) (h : Holder)
      → h.places i ≡ outside
      → enabled c ≡ true
      → h.engine ≡ none
      → h.lock ≡ none
      → (run c (i ∷ i ∷ i ∷ i ∷ []) h).places i ≡ returned h.built
  unfolding step_at enter looked
  enter_it i h a on b free =
      let entered : enter c i h ≡ move i waiting h = rw (on, enter) (ap (λ o. looked i o h) b) in
      subst (λ g. g.places i ≡ returned h.built)
        (sym (advance i outside (i ∷ i ∷ i ∷ []) h a ∙ ap (run c (i ∷ i ∷ i ∷ [])) entered))
        (lock_it i (move i waiting h) (moved i waiting h) b free)

  see_it :
      (i e : ℕ) (h : Holder)
      → h.places i ≡ outside
      → enabled c ≡ true
      → h.engine ≡ some e
      → (run c (i ∷ i ∷ i ∷ i ∷ []) h).places i ≡ returned e
  unfolding step_at enter looked run
  see_it i e h a on b =
      let g : Holder = move i (returned e) h in
      let there : g.places i ≡ returned e = moved i (returned e) h in
      let entered : enter c i h ≡ g = rw (on, enter) (ap (λ o. looked i o h) b) in
      subst (λ k. k.places i ≡ returned e)
        (sym (
          advance i outside (i ∷ i ∷ i ∷ []) h a
          ∙ ap (run c (i ∷ i ∷ i ∷ [])) entered
          ∙ advance i (returned e) (i ∷ i ∷ []) g there
          ∙ advance i (returned e) (i ∷ []) g there
          ∙ advance i (returned e) [] g there))
        there

  -- Where the database is enabled and, after any schedule, the lock is free and a thread has not
  -- asked yet, four steps of that thread alone bring it back with the first engine that was built.
  pub engine_returns :
      (schedule : List ℕ) (i : ℕ)
      → enabled c ≡ true
      → (run c schedule fresh).lock ≡ none
      → (run c schedule fresh).places i ≡ outside
      → (run c (i ∷ i ∷ i ∷ i ∷ []) (run c schedule fresh)).places i ≡ returned 0
  unfolding step_at enter looked run
  engine_returns schedule i on free a =
      let h = run c schedule fresh in
      elim (run-IsShared c schedule fresh (fresh-IsShared c)).one [
        | inl (e, b) ↦ enter_it i h a on e free ∙ ap returned b
        | inr (e, b) ↦ see_it i 0 h a on e
      ]
