-- ===== src/Shared/Artifacts/Versions.antt =====
-- app/shared/artifacts.py: the paths of an artifact and its version numbers.
use adk_a2a_gke.Prelude.{
  ℕ, suc, String, Option, none, some, List, [], ◌∷◌, leb, ◌&&◌, if◌then◌else◌, not,
}
use adk_a2a_gke.Text.{starts_with}
use adk_a2a_gke.Shared.Artifacts.Storage.{
  Outcome, ok, invalid, crashed, ◌>>=◌, Artifact, Storage, Library,
}

abbrev pub max_of : ℕ → List ℕ → ℕ
max_of v [] = v
max_of v (w ∷ ws) = let rest = max_of w ws in if leb v rest then rest else v

unfoldable pub next_version : List ℕ → ℕ
next_version [] = 0
next_version (v ∷ vs) = suc (max_of v vs)

module _ {N B P S T : Type 0} (l : Library N B T) (d : Storage P S T) (root : P) where
  unfoldable pub artifact_dir : Artifact → Outcome P
  unfolding starts_with
  artifact_dir a =
      let user = d.join (d.join root a.app_name) a.user_id in
      if not (l.is_segment a.app_name && l.is_segment a.user_id)
      then invalid
      else if starts_with "user:" a.filename
      then ok (d.join (d.join user "user") a.filename)
      else elim a.session_id [
        | none ↦ invalid
        | some session_id ↦
            if l.is_segment session_id
            then ok (d.join (d.join user session_id) a.filename)
            else invalid
      ]

  unfoldable pub version_path : Artifact → ℕ → Outcome P
  unfolding artifact_dir
  version_path a version = artifact_dir a >>= λ directory. ok (d.join directory (l.numeral version))

  unfoldable pub numbers_of : List String → Outcome (List ℕ)
  numbers_of [] = ok []
  numbers_of (n ∷ ns) =
      let rest = numbers_of ns in
      if l.is_digit n
      then elim (l.int n) [ none ↦ crashed | some v ↦ rest >>= λ vs. ok (v ∷ vs) ]
      else rest

  unfoldable pub list_versions : Artifact → S → Outcome (List ℕ)
  unfolding artifact_dir numbers_of
  list_versions a s = artifact_dir a >>= λ directory.
      if d.exists directory s then numbers_of (d.iterdir directory s) else ok []

  -- `none` is a reference that is no valid URI.
  unfoldable pub check_reference :
      Artifact → Option (Artifact × Option ℕ) → Outcome (Artifact × Option ℕ)
  check_reference a none = invalid
  check_reference a (some (b, v)) = if l.in_scope a b then ok (b, v) else invalid
