-- ===== src/Shared/Artifacts/Cycles.antt =====
-- Artifacts that refer to themselves.
use adk_a2a_gke.Prelude.{ℕ, zero, suc, String, true, some, ◌≡◌, refl}
use adk_a2a_gke.Text.{starts_with}
use adk_a2a_gke.Json.{str, Fields, get_field}
use adk_a2a_gke.Shared.Artifacts.Storage.{ok, crashed, Artifact, Storage, Library}
use adk_a2a_gke.Shared.Artifacts.Versions.{check_reference}
use adk_a2a_gke.Shared.Artifacts.Read.{
  required_text, kind_of, uri_target, part_from_envelope, chosen_version, read_envelope,
  load_artifact,
}

-- The envelope of a version that is a reference to that same version.
pub record IsSelfReference {N B T : Type 0} (l : Library N B T) (a : Artifact) (v : ℕ)
    (e : Fields N) : Type 0 where
  pub uri : String
  pub kind : get_field "kind" e ≡ some (str "file")
  pub file_uri : get_field "file_uri" e ≡ some (str uri)
  pub scheme : starts_with "artifact://" uri ≡ true
  pub target : l.parse_uri uri ≡ some (a, some v)
  pub allowed : l.in_scope a a ≡ true

module _ {N B P S T : Type 0} (l : Library N B T) (d : Storage P S T) (root : P) where
  -- A load of a version that refers to itself crashes however deep the recursion may go.
  pub load_artifact_cycle :
      (a : Artifact) (v : ℕ) (e : Fields N) (s : S)
      → read_envelope l d root a v s ≡ ok (some e)
      → IsSelfReference l a v e
      → (fuel : ℕ) → load_artifact l d root fuel a (some v) s ≡ crashed
  unfolding load_artifact chosen_version part_from_envelope uri_target required_text kind_of
      check_reference
  load_artifact_cycle a v e s stored h zero = refl
  load_artifact_cycle a v e s stored h (suc fuel) =
      rw (stored, h.kind, h.file_uri, h.scheme, h.target, h.allowed)
        (load_artifact_cycle a v e s stored h fuel)
