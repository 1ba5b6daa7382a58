-- ===== src/Shared/Artifacts/Saved.antt =====
-- What `_save_artifact` does to the versions of an artifact.
use mathlib.Core.Option.{some-injective}
use mathlib.Core.Path.{subst}
use adk_a2a_gke.Prelude.{
  ℕ, String, true, Option, none, some, List, [], ◌≤◌, ◌<◌, arith, ◌≡◌, ◌≢◌, sym, ap, ◌∙◌, inl, inr,
  In, Option-cases, if◌then◌else◌,
}
use adk_a2a_gke.Json.{Json, obj, Fields, field}
use adk_a2a_gke.Shared.Artifacts.Storage.{
  Outcome, ok, crashed, ◌>>=◌, Part, Artifact, Storage, IsStorage, Library, IsLibrary,
}
use adk_a2a_gke.Shared.Artifacts.Versions.{
  next_version, numbers_of, artifact_dir, list_versions, version_path,
}
use adk_a2a_gke.Shared.Artifacts.Numbers.{
  Numbers, numbers_of-Numbers, numbers_of-total, next_version-upper, bind-ok, ok-injective,
}
use adk_a2a_gke.Shared.Artifacts.Write.{build_envelope, save_artifact}

-- The fields in front of the payload.
abbrev pub headed : {N : Type 0} → Json N → Json N → Fields N → Fields N → Fields N
headed v t m payload =
    field "version" v (field "create_time" t (field "custom_metadata" (obj m) payload))

module _ {N B P S T : Type 0} (l : Library N B T) (d : Storage P S T) (root : P) where
  -- How a call of `_save_artifact` went that returned the version `v`.
  pub record IsSave (a : Artifact) (p : Part B) (m : Fields N) (s : S) (v : ℕ) (s' : S)
      : Type 0 where
    pub before : List ℕ
    pub directory : P
    pub envelope : Fields N
    pub place : artifact_dir l d root a ≡ ok directory
    pub listed : list_versions l d root a s ≡ ok before
    pub version : next_version before ≡ v
    pub built : build_envelope l d root v a p m ≡ ok envelope
    pub wrote : d.write_text (d.join directory (l.numeral v)) (l.dumps envelope) s ≡ some s'

  written : ℕ → Option S → Outcome (ℕ × S)
  written v none = crashed
  written v (some s) = ok (v, s)

  written-ok : (v w : ℕ) (o : Option S) (s : S) → written v o ≡ ok (w, s) → (v ≡ w) × (o ≡ some s)
  unfolding written
  written-ok v w none s e = absurd (cc e)
  written-ok v w (some t) s e = (
    ap (λ x. x.0) (ok-injective (v, t) (w, s) e),
    ap (λ x. some x.1) (ok-injective (v, t) (w, s) e),
  )

  pub save_artifact-IsSave :
      (a : Artifact) (p : Part B) (m : Fields N) (s s' : S) (v : ℕ)
      → save_artifact l d root a p m s ≡ ok (v, s')
      → IsSave a p m s v s'
  unfolding save_artifact version_path written
  save_artifact-IsSave a p m s s' v e =
      let put =
        λ (w : ℕ) (env : Fields N) (path : P). written w (d.write_text path (l.dumps env) s) in
      let (vs, listed, e₁) =
        bind-ok (list_versions l d root a s)
          (λ versions. build_envelope l d root (next_version versions) a p m >>= (λ env.
            version_path l d root a (next_version versions)
            >>= (λ path. put (next_version versions) env path)))
          (v, s') e in
      let (env, built, e₂) =
        bind-ok (build_envelope l d root (next_version vs) a p m)
          (λ env.
            version_path l d root a (next_version vs) >>= (λ path. put (next_version vs) env path))
          (v, s') e₁ in
      let (path, at, e₃) =
        bind-ok (version_path l d root a (next_version vs)) (put (next_version vs) env) (v, s')
          e₂ in
      let (dir, place, e₄) =
        bind-ok (artifact_dir l d root a) (λ dir. ok (d.join dir (l.numeral (next_version vs))))
          path at in
      let (same, wrote) =
        written-ok (next_version vs) v (d.write_text path (l.dumps env) s) s' e₃ in
      let is_path = ok-injective (d.join dir (l.numeral (next_version vs))) path e₄ in
      record {
        before = vs;
        directory = dir;
        envelope = env;
        place = place;
        listed = listed;
        version = same;
        built = subst (λ w. build_envelope l d root w a p m ≡ ok env) same built;
        wrote =
            subst (λ w. d.write_text (d.join dir (l.numeral w)) (l.dumps env) s ≡ some s') same
              (subst (λ q. d.write_text q (l.dumps env) s ≡ some s') (sym is_path) wrote);
      }

  listed-in :
      (a : Artifact) (dir : P) (s : S) (vs : List ℕ)
      → artifact_dir l d root a ≡ ok dir
      → list_versions l d root a s ≡ ok vs
      → (if d.exists dir s then numbers_of l d root (d.iterdir dir s) else ok []) ≡ ok vs
  unfolding list_versions
  listed-in a dir s vs place e =
      sym (
        ap (λ o. o >>= (λ q. if d.exists q s then numbers_of l d root (d.iterdir q s) else ok []))
          place)
      ∙ e

  listed-out :
      (a : Artifact) (dir : P) (s : S) (vs : List ℕ)
      → artifact_dir l d root a ≡ ok dir
      → d.exists dir s ≡ true
      → numbers_of l d root (d.iterdir dir s) ≡ ok vs
      → list_versions l d root a s ≡ ok vs
  unfolding list_versions
  listed-out a dir s vs place there e = rw (place, there, list_versions) e

  -- The versions that are listed, where the directory is there.
  listed-Numbers :
      (a : Artifact) (dir : P) (s : S) (vs : List ℕ)
      → artifact_dir l d root a ≡ ok dir
      → list_versions l d root a s ≡ ok vs
      → d.exists dir s ≡ true
      → Numbers l d root (d.iterdir dir s) vs
  listed-Numbers a dir s vs place e there = numbers_of-Numbers l d root (d.iterdir dir s) vs (
      sym (ap (λ b. if b then numbers_of l d root (d.iterdir dir s) else ok []) there)
      ∙ listed-in a dir s vs place e)

  module _ (hl : IsLibrary l) (hd : IsStorage d) where
    -- A stored version is listed.
    pub stored-In :
        (a : Artifact) (dir : P) (s : S) (vs : List ℕ) (v : ℕ) (t : T)
        → artifact_dir l d root a ≡ ok dir
        → list_versions l d root a s ≡ ok vs
        → d.read_text (d.join dir (l.numeral v)) s ≡ some t
        → In v vs
    stored-In a dir s vs v t place e r =
        let h = listed-Numbers a dir s vs place e (hd.exists-parent dir (l.numeral v) t s r) in
        let (w, f, i) =
          h.found (l.numeral v) (hd.iterdir-read dir (l.numeral v) t s r) (hl.is_digit-numeral v) in
        subst (λ u. In u vs) (some-injective w v (sym f ∙ hl.int-numeral v)) i

    -- Over a storage and a library that keep their laws, `_save_artifact`, where it returns, writes
    -- a version that was not there, greater than each that was listed, and changes no other file.
    pub save_artifact_fresh :
        (a : Artifact) (p : Part B) (m : Fields N) (s s' : S) (v : ℕ)
        → save_artifact l d root a p m s ≡ ok (v, s')
        → (path : P) × (version_path l d root a v ≡ ok path)
          × (d.read_text path s ≡ none)
          × ((vs : List ℕ) × (list_versions l d root a s ≡ ok vs) × ((w : ℕ) → In w vs → w < v))
          × ((q : P) → path ≢ q → d.read_text q s' ≡ d.read_text q s)
    unfolding version_path
    save_artifact_fresh a p m s s' v e =
        let h = save_artifact-IsSave a p m s s' v e in
        let path = d.join h.directory (l.numeral v) in
        let below : (w : ℕ) → In w h.before → w < v =
          λ w i. subst (λ u. w < u) h.version (next_version-upper h.before w i) in
        (
          path,
          ap (λ o. o >>= (λ dir. ok (d.join dir (l.numeral v)))) h.place,
          elim (Option-cases (d.read_text path s)) [
            | inl f ↦ f
            | inr (t, f) ↦
                absurd (
                  omega
                    (arith, below v (stored-In a h.directory s h.before v t h.place h.listed f)))
          ],
          (h.before, h.listed, below),
          λ q n. hd.read-other path q (l.dumps h.envelope) s s' h.wrote n,
        )

    -- After a save, the directory is listed again, and the new version is the greatest.
    pub listed-after :
        (a : Artifact) (p : Part B) (m : Fields N) (s s' : S) (v : ℕ) (h : IsSave a p m s v s')
        → (vs : List ℕ) × (list_versions l d root a s' ≡ ok vs)
          × In v vs
          × ((w : ℕ) → In w vs → w ≤ v)
    listed-after a p m s s' v h =
        let name = l.numeral v in
        let dir = h.directory in
        let t = l.dumps h.envelope in
        let stored = hd.read-write (d.join dir name) t s s' h.wrote in
        let there = hd.exists-parent dir name t s' stored in
        let old = λ (n : String) (i : In n (d.iterdir dir s)).
          listed-Numbers a dir s h.before h.place h.listed (hd.exists-iterdir dir n s i) in
        let (vs, e) = numbers_of-total l d root (d.iterdir dir s') (λ n i dig.
          elim (hd.iterdir-write dir name n t s s' h.wrote i) [
            | inl same ↦ (v, rw same (hl.int-numeral v))
            | inr i' ↦ let (w, f, _) = (old n i').found n i' dig in (w, f)
          ]) in
        let listed = listed-out a dir s' vs h.place there e in
        let all = listed-Numbers a dir s' vs h.place listed there in
        (
          vs,
          listed,
          stored-In a dir s' vs v t h.place listed stored,
          λ w i.
              let (n, j, dig, f) = all.named w i in
              elim (hd.iterdir-write dir name n t s s' h.wrote j) [
                | inl same ↦
                    omega (arith, some-injective w v (sym f ∙ ap l.int same ∙ hl.int-numeral v))
                | inr j' ↦
                    let (u, g, k) = (old n j').found n j' dig in
                    omega (
                      arith,
                      some-injective w u (sym f ∙ g),
                      next_version-upper h.before u k,
                      h.version,
                    )
              ],
        )
