-- ===== src/Shared/Artifacts/Write.antt =====
-- app/shared/artifacts.py: saving and deleting an artifact.
use mathlib.Core.Option
use adk_a2a_gke.Prelude.{
  true, false, ℕ, String, Option, none, some, List, [], ◌∷◌, ◌==◌, if◌then◌else◌,
}
use adk_a2a_gke.Json.{Json, null, str, num, obj, Fields, end, field}
use adk_a2a_gke.Shared.Artifacts.Storage.{
  Outcome, ok, invalid, crashed, ◌>>=◌, Blob, FileData, Part, Artifact, Storage, Library,
}
use adk_a2a_gke.Shared.Artifacts.Versions.{
  next_version, version_path, list_versions, check_reference,
}

module _ {N B P S T : Type 0} (l : Library N B T) (d : Storage P S T) (root : P) where
  unfoldable pub text_or_null : Option String → Json N
  text_or_null none = null
  text_or_null (some t) = str t

  unfoldable pub inline_fields : Blob B → Fields N
  unfolding text_or_null
  inline_fields b =
      let name = Option.get_or b.display_name "" in
      field "kind" (str "inline") (
        field "mime_type" (text_or_null b.mime_type) (
          field "data" (str (l.b64encode (Option.get_or b.data_ l.empty)))
            (if name == "" then end else field "display_name" (str name) end)))

  unfoldable pub file_fields : String → FileData → Fields N
  unfolding text_or_null
  file_fields file_uri f =
      field "kind" (str "file")
        (field "file_uri" (str file_uri) (field "mime_type" (text_or_null f.mime_type) end))

  -- The fields for the payload: inline data come first, then a text, then a URI.
  unfoldable pub payload_fields : Artifact → Part B → Outcome (Fields N)
  unfolding inline_fields file_fields check_reference
  payload_fields a p = elim p.inline_data [
    | some b ↦ ok (inline_fields b)
    | none ↦ elim p.text [
      | some t ↦ ok (
          field "kind" (str "text")
            (field "mime_type" (str "text/plain") (field "text" (str t) end)))
      | none ↦ elim p.file_data [
        | none ↦ invalid
        | some f ↦
            let file_uri = Option.get_or f.file_uri "" in
            let checked = check_reference l d root a (l.parse_uri file_uri) in
            if file_uri == ""
            then invalid
            else if l.is_artifact_ref p
            then checked >>= (λ _. ok (file_fields file_uri f))
            else ok (file_fields file_uri f)
      ]
    ]
  ]

  unfoldable pub build_envelope : ℕ → Artifact → Part B → Fields N → Outcome (Fields N)
  unfolding payload_fields
  build_envelope version a p custom_metadata = payload_fields a p >>= λ payload. ok (
      field "version" (num (l.number version))
        (field "create_time" (num l.time) (field "custom_metadata" (obj custom_metadata) payload)))

  unfoldable pub save_artifact : Artifact → Part B → Fields N → S → Outcome (ℕ × S)
  unfolding list_versions build_envelope version_path next_version
  save_artifact a p custom_metadata s = list_versions l d root a s >>= λ versions.
      let version = next_version versions in
      build_envelope version a p custom_metadata >>= λ envelope.
      version_path l d root a version >>= λ path. elim (d.write_text path (l.dumps envelope) s) [
        | none ↦ crashed
        | some s' ↦ ok (version, s')
      ]

  -- The loop of `_delete_artifact`; a call that raises leaves what was removed before it removed.
  unfoldable pub unlink_all : Artifact → List ℕ → S → Outcome (Unit {0}) × S
  unfolding version_path
  unlink_all a [] s = (ok tt, s)
  unlink_all a (v ∷ vs) s = elim (version_path l d root a v) [
    | invalid ↦ (invalid, s)
    | crashed ↦ (crashed, s)
    | ok path ↦ elim (d.exists path s) [
      | false ↦ unlink_all a vs s
      | true ↦ elim (d.unlink path s) [ none ↦ (crashed, s) | some s' ↦ unlink_all a vs s' ]
    ]
  ]

  unfoldable pub delete_artifact : Artifact → S → Outcome (Unit {0}) × S
  unfolding list_versions unlink_all
  delete_artifact a s = elim (list_versions l d root a s) [
    | invalid ↦ (invalid, s)
    | crashed ↦ (crashed, s)
    | ok versions ↦ unlink_all a versions s
  ]
