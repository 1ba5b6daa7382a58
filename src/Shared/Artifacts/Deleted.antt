-- ===== src/Shared/Artifacts/Deleted.antt =====
-- What `_delete_artifact` leaves.
use mathlib.Core.Path.{subst}
use adk_a2a_gke.Prelude.{
  sym, ℕ, true, false, none, some, List, [], ◌∷◌, ◌≡◌, ◌⊎◌, refl, ap, ◌∙◌, inl, inr, In, All,
  Bool-cases, Option-cases, if◌then◌else◌,
}
use adk_a2a_gke.Shared.Artifacts.Storage.{
  Outcome, ok, crashed, ◌>>=◌, Artifact, Storage, IsStorage, Library,
}
use adk_a2a_gke.Shared.Artifacts.Versions.{artifact_dir, list_versions, version_path, numbers_of}
use adk_a2a_gke.Shared.Artifacts.Numbers.{bind-ok}
use adk_a2a_gke.Shared.Artifacts.Write.{unlink_all, delete_artifact}

module _ {N B P S T : Type 0} (l : Library N B T) (d : Storage P S T) (root : P)
    (hd : IsStorage d) where
  -- One turn of the loop: nothing is there, or the storage refuses to remove it, or it is removed.
  abbrev Turn : Artifact → P → List ℕ → S → Outcome (Unit {0}) × S → Type 0
  Turn a path vs s r =
      ((d.exists path s ≡ false) × (r ≡ unlink_all l d root a vs s))
      ⊎ ((d.exists path s ≡ true) × (d.unlink path s ≡ none) × (r ≡ (crashed, s)))
      ⊎ ((s₁ : S) × (d.unlink path s ≡ some s₁) × (r ≡ unlink_all l d root a vs s₁))

  unlink_all-Turn :
      (a : Artifact) (path : P) (v : ℕ) (vs : List ℕ) (s : S)
      → version_path l d root a v ≡ ok path
      → Turn a path vs s (unlink_all l d root a (v ∷ vs) s)
  unfolding unlink_all
  unlink_all-Turn a path v vs s at = elim (Bool-cases (d.exists path s)) [
    | inr absent ↦ inl (absent, rw (unlink_all, at, absent) refl)
    | inl there ↦ elim (Option-cases (d.unlink path s)) [
      | inl refused ↦ inr (inl (there, refused, rw (unlink_all, at, there, refused) refl))
      | inr (s₁, e) ↦ inr (inr (s₁, e, rw (unlink_all, at, there, e) refl))
    ]
  ]

  absent-none : (path : P) (s : S) → d.exists path s ≡ false → d.read_text path s ≡ none
  absent-none path s absent = elim (Option-cases (d.read_text path s)) [
    | inl e ↦ e
    | inr (t, e) ↦ absurd (cc (hd.exists-read path t s e, absent))
  ]

  -- A version that is stored no more.
  abbrev pub IsGone : Artifact → S → ℕ → Type 0
  IsGone a s' v = (path : P) × (version_path l d root a v ≡ ok path) × (d.read_text path s' ≡ none)

  -- The storage refused to remove what is at the path of one of the versions.
  abbrev pub IsRefused : Artifact → List ℕ → S → Type 0
  IsRefused a vs s' =
      (v : ℕ) × (path : P) × In v vs
      × (version_path l d root a v ≡ ok path)
      × (d.exists path s' ≡ true)
      × (d.unlink path s' ≡ none)

  -- A file is as it was, or it is one of the versions.
  abbrev pub IsKept : Artifact → List ℕ → S → S → P → Type 0
  IsKept a vs s s' q =
      (d.read_text q s' ≡ d.read_text q s)
      ⊎ ((v : ℕ) × In v vs × (version_path l d root a v ≡ ok q))

  module _ (a : Artifact) (path_of : ℕ → P)
      (at : (v : ℕ) → version_path l d root a v ≡ ok (path_of v)) where
    unlink_all-IsKept :
        (vs : List ℕ) (s : S) (q : P) → IsKept a vs s (unlink_all l d root a vs s).1 q
    unfolding unlink_all
    unlink_all-IsKept [] s q = inl refl
    unlink_all-IsKept (v ∷ vs) s q = elim (unlink_all-Turn a (path_of v) v vs s (at v)) [
      | inl (_, e) ↦ rw e (weaken v vs (unlink_all-IsKept vs s q))
      | inr (inl (_, _, e)) ↦ rw e (inl refl)
      | inr (inr (s₁, u, e)) ↦ rw e (elim (hd.unlink-other (path_of v) q s s₁ u) [
        | inl same ↦ inr (v, inl refl, at v ∙ ap ok same)
        | inr kept ↦ elim (unlink_all-IsKept vs s₁ q) [
          | inl k ↦ inl (k ∙ kept)
          | inr (w, i, p) ↦ inr (w, inr i, p)
        ]
      ])
    ]
      where
        weaken : (v : ℕ) (vs : List ℕ) {s s' : S} → IsKept a vs s s' q → IsKept a (v ∷ vs) s s' q
        weaken v vs (inl k) = inl k
        weaken v vs (inr (w, i, p)) = inr (w, inr i, p)

    unlink_all-keeps-none :
        (vs : List ℕ) (s : S) (q : P)
        → d.read_text q s ≡ none
        → d.read_text q (unlink_all l d root a vs s).1 ≡ none
    unfolding unlink_all
    unlink_all-keeps-none [] s q f = f
    unlink_all-keeps-none (v ∷ vs) s q f = elim (unlink_all-Turn a (path_of v) v vs s (at v)) [
      | inl (_, e) ↦ rw e (unlink_all-keeps-none vs s q f)
      | inr (inl (_, _, e)) ↦ rw e f
      | inr (inr (s₁, u, e)) ↦ rw e (
          unlink_all-keeps-none vs s₁ q (elim (hd.unlink-other (path_of v) q s s₁ u) [
            | inl same ↦
                subst (λ r. d.read_text r s₁ ≡ none) same (hd.read-unlink (path_of v) s s₁ u)
            | inr kept ↦ kept ∙ f
          ]))
    ]

    abbrev Settled : List ℕ → Outcome (Unit {0}) × S → Type 0
    Settled vs (o, s') = ((o ≡ ok tt) × All (IsGone a s') vs) ⊎ ((o ≡ crashed) × IsRefused a vs s')

    then_gone :
        (v : ℕ) (vs : List ℕ) (r : Outcome (Unit {0}) × S)
        → d.read_text (path_of v) r.1 ≡ none
        → Settled vs r
        → Settled (v ∷ vs) r
    then_gone v vs r gone (inl (o, all)) = inl (o, ((path_of v, at v, gone), all))
    then_gone v vs r gone (inr (o, (w, path, i, p, q, u))) = inr (o, (w, path, inr i, p, q, u))

    unlink_all-Settled : (vs : List ℕ) (s : S) → Settled vs (unlink_all l d root a vs s)
    unlink_all-Settled [] s = unfold unlink_all in inl (refl, tt)
    unlink_all-Settled (v ∷ vs) s = elim (unlink_all-Turn a (path_of v) v vs s (at v)) [
      | inl (absent, e) ↦ subst (Settled (v ∷ vs)) (sym e) (
          then_gone v vs (unlink_all l d root a vs s)
            (unlink_all-keeps-none vs s (path_of v) (absent-none (path_of v) s absent))
            (unlink_all-Settled vs s))
      | inr (inl (there, refused, e)) ↦
          subst (Settled (v ∷ vs)) (sym e)
            (inr (refl, (v, path_of v, inl refl, at v, there, refused)))
      | inr (inr (s₁, u, e)) ↦ subst (Settled (v ∷ vs)) (sym e) (
          then_gone v vs (unlink_all l d root a vs s₁)
            (unlink_all-keeps-none vs s₁ (path_of v) (hd.read-unlink (path_of v) s s₁ u))
            (unlink_all-Settled vs s₁))
    ]

  -- Over a storage that keeps its laws, where the versions of an artifact can be listed:
  -- `_delete_artifact` either succeeds, and none of them is stored afterwards, or it raises, and
  -- the storage then refuses to remove what is there at the path of one of them. In both cases a
  -- file that is none of the versions reads as before.
  pub delete_artifact_lem :
      (a : Artifact) (vs : List ℕ) (s : S)
      → list_versions l d root a s ≡ ok vs
      → let (o, s') = delete_artifact l d root a s in
        (((o ≡ ok tt) × All (IsGone a s') vs) ⊎ ((o ≡ crashed) × IsRefused a vs s'))
        × ((q : P) → IsKept a vs s s' q)
  unfolding list_versions version_path delete_artifact
  delete_artifact_lem a vs s listed =
      let (dir, place, _) =
        bind-ok (artifact_dir l d root a)
          (λ dir. if d.exists dir s then numbers_of l d root (d.iterdir dir s) else ok []) vs
          listed in
      let at = λ (v : ℕ). ap (λ o. o >>= (λ p. ok (d.join p (l.numeral v)))) place in
      let path_of = λ (v : ℕ). d.join dir (l.numeral v) in
      let same : delete_artifact l d root a s ≡ unlink_all l d root a vs s =
        rw (delete_artifact, listed) refl in
      subst
        (λ (r : Outcome (Unit {0}) × S).
          (((r.0 ≡ ok tt) × All (IsGone a r.1) vs) ⊎ ((r.0 ≡ crashed) × IsRefused a vs r.1))
          × ((q : P) → IsKept a vs s r.1 q))
        (sym same) (unlink_all-Settled a path_of at vs s, unlink_all-IsKept a path_of at vs s)
