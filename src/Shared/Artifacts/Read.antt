-- ===== src/Shared/Artifacts/Read.antt =====
-- app/shared/artifacts.py: loading an artifact and the metadata of its versions.
use mathlib.Core.Option
use adk_a2a_gke.Prelude.{
  ℕ, zero, suc, String, Option, none, some, List, [], ◌∷◌, ◌==◌, leb, if◌then◌else◌, or_text,
}
use adk_a2a_gke.Text.{starts_with}
use adk_a2a_gke.Json.{Json, null, str, num, obj, Fields, end, get_field}
use adk_a2a_gke.Shared.Artifacts.Storage.{
  Outcome, ok, crashed, ◌>>=◌, Part, Artifact, ArtifactVersion, Storage, Library,
}
use adk_a2a_gke.Shared.Artifacts.Versions.{max_of, version_path, list_versions, check_reference}

module _ {N B P S T : Type 0} (l : Library N B T) (d : Storage P S T) (root : P) where
  -- a text of an envelope, as the models of `types` take it
  unfoldable pub optional_text : Option (Json N) → Outcome (Option String)
  optional_text none = ok none
  optional_text (some null) = ok none
  optional_text (some (str t)) = ok (some t)
  optional_text _ = crashed

  unfoldable pub required_text : Option (Json N) → Outcome String
  required_text (some (str t)) = ok t
  required_text _ = crashed

  -- `_part_from_envelope` on an inline envelope
  unfoldable pub inline_part : Fields N → Outcome (Part B)
  unfolding required_text optional_text get_field
  inline_part e = required_text (get_field "data" e) >>= λ encoded.
      optional_text (get_field "mime_type" e) >>= λ mime.
      optional_text (get_field "display_name" e) >>= λ name. elim (l.b64decode encoded) [
        | none ↦ crashed
        | some bytes ↦ ok (record {
          inline_data = some (record {
            mime_type = some (or_text (Option.get_or mime "") "application/octet-stream");
            data_ = some bytes;
            display_name = if Option.get_or name "" == "" then none else name;
          });
          text = none;
          file_data = none;
        })
      ]

  unfoldable pub kind_of : Option (Json N) → String
  kind_of (some (str t)) = t
  kind_of _ = ""

  unfoldable pub uri_part : String → Option String → Part B
  uri_part file_uri mime = record {
    inline_data = none;
    text = none;
    file_data = some (record { file_uri = some file_uri; mime_type = mime });
  }

  unfoldable pub text_part : String → Part B
  text_part t = record { inline_data = none; text = some t; file_data = none }

  -- `_part_from_envelope` on a URI: `follow` loads the artifact that a reference names.
  unfoldable pub uri_target :
      (Artifact → Option ℕ → Outcome (Option (Part B)))
      → Artifact
      → Fields N
      → String
      → Outcome (Option (Part B))
  unfolding uri_part optional_text check_reference get_field starts_with
  uri_target follow a e file_uri =
      let target = check_reference l d root a (l.parse_uri file_uri) in
      let mime = optional_text (get_field "mime_type" e) in
      if starts_with "artifact://" file_uri
      then target >>= (λ (b, v). follow b v)
      else mime >>= (λ m. ok (some (uri_part file_uri m)))

  unfoldable pub part_from_envelope :
      (Artifact → Option ℕ → Outcome (Option (Part B)))
      → Artifact
      → Fields N
      → Outcome (Option (Part B))
  unfolding inline_part required_text text_part kind_of uri_target get_field
  part_from_envelope follow a e =
      let kind = kind_of (get_field "kind" e) in
      if kind == "text"
      then required_text (get_field "text" e) >>= (λ t. ok (some (text_part t)))
      else if kind == "file"
      then required_text (get_field "file_uri" e) >>= (λ file_uri. uri_target follow a e file_uri)
      else inline_part e >>= (λ p. ok (some p))

  -- the version that is asked for, or else the latest
  unfoldable pub chosen_version : Artifact → Option ℕ → S → Outcome (Option ℕ)
  unfolding list_versions
  chosen_version a (some v) s = ok (some v)
  chosen_version a none s = list_versions l d root a s >>= λ versions.
      ok (elim versions [ [] ↦ none | v ∷ vs ↦ some (max_of v vs) ])

  -- The envelope of one version; `none` where there is no such path.
  unfoldable pub read_envelope : Artifact → ℕ → S → Outcome (Option (Fields N))
  unfolding version_path
  read_envelope a version s = version_path l d root a version >>= λ path.
      if d.exists path s
      then elim (d.read_text path s) [
        | none ↦ crashed
        | some t ↦ elim (l.loads t) [ none ↦ crashed | some e ↦ ok (some e) ]
      ]
      else ok none

  -- A reference may lead to a reference: the fuel is the depth that Python allows, and where it
  -- runs out the call crashes with a `RecursionError`.
  unfoldable pub load_artifact : ℕ → Artifact → Option ℕ → S → Outcome (Option (Part B))
  unfolding chosen_version read_envelope part_from_envelope
  load_artifact zero a version s = crashed
  load_artifact (suc fuel) a version s = chosen_version a version s >>= λ chosen. elim chosen [
    | none ↦ ok none
    | some v ↦ read_envelope a v s >>= λ envelope. elim envelope [
      | none ↦ ok none
      | some e ↦ part_from_envelope (λ b w. load_artifact fuel b w s) a e
    ]
  ]

  meta_of : ℕ → P → Fields N → ArtifactVersion N P
  unfolding get_field
  meta_of version path e =
      let given = Option.get_or (get_field "custom_metadata" e) null in
      record {
        version = version;
        canonical_uri = path;
        create_time = Option.get_or (get_field "create_time" e) (num l.time);
        mime_type = get_field "mime_type" e;
        custom_metadata = if l.truthy given then given else obj end;
      }

  unfoldable pub artifact_version_meta : Artifact → ℕ → S → Outcome (Option (ArtifactVersion N P))
  unfolding version_path read_envelope meta_of
  artifact_version_meta a version s = version_path l d root a version >>= λ path.
      read_envelope a version s >>= λ envelope. ok (Option.map (meta_of version path) envelope)

  unfoldable pub get_artifact_version :
      Artifact → Option ℕ → S → Outcome (Option (ArtifactVersion N P))
  unfolding chosen_version artifact_version_meta
  get_artifact_version a version s = chosen_version a version s >>= λ chosen. elim chosen [
    | none ↦ ok none
    | some v ↦ artifact_version_meta a v s
  ]

  unfoldable pub metas_of : Artifact → List ℕ → S → Outcome (List (ArtifactVersion N P))
  unfolding artifact_version_meta
  metas_of a [] s = ok []
  metas_of a (v ∷ vs) s =
      let rest = metas_of a vs s in
      artifact_version_meta a v s >>= λ meta. elim meta [
        | none ↦ rest
        | some m ↦ rest >>= λ ms. ok (m ∷ ms)
      ]

  -- `metas.sort(key=lambda m: m.version)`, which is stable
  unfoldable pub insert_version :
      ArtifactVersion N P → List (ArtifactVersion N P) → List (ArtifactVersion N P)
  insert_version m [] = m ∷ []
  insert_version m (n ∷ ns) =
      let later = insert_version m ns in if leb m.version n.version then m ∷ n ∷ ns else n ∷ later

  unfoldable pub sort_versions : List (ArtifactVersion N P) → List (ArtifactVersion N P)
  unfolding insert_version
  sort_versions [] = []
  sort_versions (m ∷ ms) = insert_version m (sort_versions ms)

  unfoldable pub list_artifact_versions : Artifact → S → Outcome (List (ArtifactVersion N P))
  unfolding list_versions metas_of sort_versions
  list_artifact_versions a s = list_versions l d root a s >>= λ versions.
      metas_of a versions s >>= λ metas. ok (sort_versions metas)
