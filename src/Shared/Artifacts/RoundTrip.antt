-- ===== src/Shared/Artifacts/RoundTrip.antt =====
-- An artifact that was saved is what a load returns.
use mathlib.Core.Option
use mathlib.Core.Path.{subst}
use adk_a2a_gke.Prelude.{
  ℕ, suc, String, Bool, true, false, Option, none, some, ◌≡◌, refl, ap, inl, inr, Bool-cases,
  if◌then◌else◌, ◌==◌, or_text,
}
use adk_a2a_gke.Text.{starts_with}
use adk_a2a_gke.Json.{Json, str, num, Fields, end, field, get_field}
use adk_a2a_gke.Shared.Artifacts.Storage.{
  Outcome, ok, invalid, ◌>>=◌, Part, Blob, FileData, Artifact, Storage, IsStorage, Library,
  IsLibrary,
}
use adk_a2a_gke.Shared.Artifacts.Versions.{version_path, check_reference}
use adk_a2a_gke.Shared.Artifacts.Numbers.{bind-ok, ok-injective}
use adk_a2a_gke.Shared.Artifacts.Write.{
  build_envelope, payload_fields, inline_fields, file_fields, text_or_null,
}
use adk_a2a_gke.Shared.Artifacts.Read.{
  required_text, optional_text, inline_part, kind_of, uri_part, text_part, uri_target,
  part_from_envelope, chosen_version, read_envelope, load_artifact,
}
use adk_a2a_gke.Shared.Artifacts.Saved.{headed, IsSave}

module _ {N B T : Type 0} (l : Library N B T) where
  -- Inline data as they come back: with a mime type, bytes, and a display name if one was given.
  abbrev pub kept_blob : Blob B → Blob B
  kept_blob b = record {
    mime_type = some (or_text (Option.get_or b.mime_type "") "application/octet-stream");
    data_ = some (Option.get_or b.data_ l.empty);
    display_name = if Option.get_or b.display_name "" == "" then none else b.display_name;
  }

  -- What a load returns of a part: inline data, or else the text, or else the URI.
  abbrev pub kept : Part B → Part B
  kept p = elim p.inline_data [
    | some b ↦ record { inline_data = some (kept_blob b); text = none; file_data = none }
    | none ↦ elim p.text [
      | some t ↦ record { inline_data = none; text = some t; file_data = none }
      | none ↦ record { inline_data = none; text = none; file_data = p.file_data }
    ]
  ]

  -- Whether the part is stored as a reference to another artifact.
  abbrev pub refers : Part B → Bool
  refers p = elim p.inline_data [
    | some b ↦ false
    | none ↦ elim p.text [
      | some t ↦ false
      | none ↦ elim p.file_data [
        | none ↦ false
        | some f ↦ starts_with "artifact://" (Option.get_or f.file_uri "")
      ]
    ]
  ]

guarded {ℓ} :
    {A : Type ℓ} (b : Bool) (o : Outcome A) (x : A)
    → (if b then invalid else o) ≡ ok x
    → (b ≡ false) × (o ≡ ok x)
guarded true o x e = absurd (cc e)
guarded false o x e = (refl, e)

either {ℓ κ} :
    {A : Type ℓ} {B : Type κ} (b : Bool) (o : Outcome B) (y x : A)
    → (if b then o >>= (λ _. ok y) else ok y) ≡ ok x
    → y ≡ x
either false o y x e = ok-injective y x e
either true o y x e = let (_, _, f) = bind-ok o (λ _. ok y) x e in ok-injective y x f

module _ {N B P S T : Type 0} (l : Library N B T) (d : Storage P S T) (root : P)
    (hl : IsLibrary l) where
  blob-round :
      (v t : Json N) (m : Fields N) (mime : Option String) (bytes : Option B) (name : Option String)
      → let b : Blob B = record { mime_type = mime; data_ = bytes; display_name = name } in
        inline_part l d root (headed v t m (inline_fields l d root b))
        ≡ ok (record { inline_data = some (kept_blob l b); text = none; file_data = none })
  unfolding inline_part inline_fields text_or_null required_text optional_text get_field
  blob-round v t m none bytes none = rw (hl.b64decode-b64encode (Option.get_or bytes l.empty)) refl
  blob-round v t m (some x) bytes none =
      rw (hl.b64decode-b64encode (Option.get_or bytes l.empty)) refl
  blob-round v t m none bytes (some n) = elim (Bool-cases (n == "")) [
    | inl e ↦ rw (hl.b64decode-b64encode (Option.get_or bytes l.empty), e) refl
    | inr e ↦ rw (hl.b64decode-b64encode (Option.get_or bytes l.empty), e) (rw e refl)
  ]
  blob-round v t m (some x) bytes (some n) = elim (Bool-cases (n == "")) [
    | inl e ↦ rw (hl.b64decode-b64encode (Option.get_or bytes l.empty), e) refl
    | inr e ↦ rw (hl.b64decode-b64encode (Option.get_or bytes l.empty), e) (rw e refl)
  ]

  -- The fields of a URI are read back.
  file-round :
      (follow : Artifact → Option ℕ → Outcome (Option (Part B))) (a : Artifact) (v t : Json N)
      (m : Fields N) (u : String) (mime : Option String)
      → starts_with "artifact://" u ≡ false
      → part_from_envelope l d root follow a
          (headed v t m (file_fields l d root u (record { file_uri = some u; mime_type = mime })))
        ≡ ok (some (uri_part l d root u mime))
  unfolding part_from_envelope file_fields text_or_null required_text optional_text get_field
      uri_target kind_of
  file-round follow a v t m u none e = rw e refl
  file-round follow a v t m u (some x) e = rw e refl

  file-payload :
      (a : Artifact) (p : Part B) (f : FileData) (u : String) (pf : Fields N)
      → (let checked = check_reference l d root a (l.parse_uri u) in
          if u == ""
          then invalid
          else if l.is_artifact_ref p
          then checked >>= (λ _. ok (file_fields l d root u f))
          else ok (file_fields l d root u f))
        ≡ ok pf
      → (file_fields l d root u f ≡ pf) × ((u == "") ≡ false)
  file-payload a p f u pf e =
      let (g, e') =
        guarded (u == "")
          (if l.is_artifact_ref p
            then check_reference l d root a (l.parse_uri u) >>= (λ _. ok (file_fields l d root u f))
            else ok (file_fields l d root u f))
          pf e in
      (
        either (l.is_artifact_ref p) (check_reference l d root a (l.parse_uri u))
            (file_fields l d root u f) pf e',
        g,
      )

  file-kept :
      (follow : Artifact → Option ℕ → Outcome (Option (Part B))) (a : Artifact) (v t : Json N)
      (m pf : Fields N) (uri mime : Option String)
      → let f : FileData = record { file_uri = uri; mime_type = mime } in
        let p : Part B = record { inline_data = none; text = none; file_data = some f } in
        payload_fields l d root a p ≡ ok pf
        → starts_with "artifact://" (Option.get_or uri "") ≡ false
        → part_from_envelope l d root follow a (headed v t m pf) ≡ ok (some p)
  unfolding payload_fields
  file-kept follow a v t m pf none mime e own = absurd (cc e)
  file-kept follow a v t m pf (some u) mime e own =
      let f : FileData = record { file_uri = some u; mime_type = mime } in
      let p : Part B = record { inline_data = none; text = none; file_data = some f } in
      subst (λ fs. part_from_envelope l d root follow a (headed v t m fs) ≡ ok (some p))
        (file-payload a p f u pf e).0 (unfold uri_part in file-round follow a v t m u mime own)

  -- The payload of a part that is no reference is read back.
  pub payload-round :
      (follow : Artifact → Option ℕ → Outcome (Option (Part B))) (a : Artifact) (v t : Json N)
      (m pf : Fields N) (blob : Option (Blob B)) (txt : Option String) (file : Option FileData)
      → let p : Part B = record { inline_data = blob; text = txt; file_data = file } in
        payload_fields l d root a p ≡ ok pf
        → refers l p ≡ false
        → part_from_envelope l d root follow a (headed v t m pf) ≡ ok (some (kept l p))
  unfolding payload_fields part_from_envelope inline_fields kind_of get_field required_text
      text_part
  payload-round follow a v t m pf (some b) txt file e own =
      subst
        (λ fs.
          part_from_envelope l d root follow a (headed v t m fs)
          ≡ ok (some (kept l (record { inline_data = some b; text = txt; file_data = file }))))
        (ok-injective (inline_fields l d root b) pf e)
        (ap (λ o. o >>= (λ p. ok (some p))) (blob-round v t m b.mime_type b.data_ b.display_name))
  payload-round follow a v t m pf none (some x) file e own =
      subst
        (λ fs.
          part_from_envelope l d root follow a (headed v t m fs)
          ≡ ok (some (kept l (record { inline_data = none; text = some x; file_data = file }))))
        (ok-injective
          (field "kind" (str "text")
            (field "mime_type" (str "text/plain") (field "text" (str x) end)))
          pf e)
        refl
  payload-round follow a v t m pf none none none e own = absurd (cc e)
  payload-round follow a v t m pf none none (some f) e own =
      file-kept follow a v t m pf f.file_uri f.mime_type e own

  module _ (hd : IsStorage d) where
    -- The part is read back from the envelope of a save.
    envelope-kept :
        (follow : Artifact → Option ℕ → Outcome (Option (Part B))) (a : Artifact) (p : Part B)
        (m : Fields N) (v : ℕ) (e : Fields N)
        → build_envelope l d root v a p m ≡ ok e
        → refers l p ≡ false
        → part_from_envelope l d root follow a e ≡ ok (some (kept l p))
    unfolding build_envelope
    envelope-kept follow a p m v e built own =
        let (pf, f, g) =
          bind-ok (payload_fields l d root a p)
            (λ payload. ok (headed (num (l.number v)) (num l.time) m payload)) e built in
        subst (λ fs. part_from_envelope l d root follow a fs ≡ ok (some (kept l p)))
          (ok-injective (headed (num (l.number v)) (num l.time) m pf) e g)
          (payload-round follow a (num (l.number v)) (num l.time) m pf p.inline_data p.text
            p.file_data f own)

    -- A version whose file is as its save wrote it is loaded as it was saved.
    pub kept_version :
        (fuel : ℕ) (a : Artifact) (p : Part B) (m : Fields N) (s s' s'' : S) (v : ℕ)
        (h : IsSave l d root a p m s v s')
        → refers l p ≡ false
        → d.read_text (d.join h.directory (l.numeral v)) s'' ≡ some (l.dumps h.envelope)
        → load_artifact l d root (suc fuel) a (some v) s'' ≡ ok (some (kept l p))
    unfolding load_artifact read_envelope version_path chosen_version
    kept_version fuel a p m s s' s'' v h own r =
        let path = d.join h.directory (l.numeral v) in
        rw (h.place, hd.exists-read path (l.dumps h.envelope) s'' r, r, hl.loads-dumps h.envelope)
          (envelope-kept (λ b w. load_artifact l d root fuel b w s'') a p m v h.envelope h.built
            own)
