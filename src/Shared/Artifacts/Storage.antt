-- ===== src/Shared/Artifacts/Storage.antt =====
-- app/shared/artifacts.py: what `CloudPathArtifactService` stores and what it builds on. The storage
-- (cloudpathlib, or a file system), ADK's checks of path segments and of references, base64, JSON
-- texts, the clock and Python's `int` are parameters, with their documented behaviour as laws.
use adk_a2a_gke.Prelude.{ℕ, String, Bool, true, Option, none, some, List, ◌≡◌, ◌≢◌, ◌⊎◌, In}
use adk_a2a_gke.Json.{Json, Fields}

-- A result, an `InputValidationError`, or another exception.
pub data Outcome {ℓ} (A : Type ℓ) : Type ℓ where
  ok : A → Outcome A
  invalid crashed : Outcome A

infix 20 ◌>>=◌
abbrev pub ◌>>=◌ {ℓ κ} : {A : Type ℓ} {B : Type κ} → Outcome A → (A → Outcome B) → Outcome B
ok a >>= f = f a
invalid >>= f = invalid
crashed >>= f = crashed

-- `types.Blob`, `types.FileData` and `types.Part`, as far as the service reads them
pub record Blob (B : Type 0) : Type 0 where
  pub mime_type : Option String
  pub data_ : Option B
  pub display_name : Option String

pub record FileData : Type 0 where
  pub file_uri : Option String
  pub mime_type : Option String

pub record Part (B : Type 0) : Type 0 where
  pub inline_data : Option (Blob B)
  pub text : Option String
  pub file_data : Option FileData

-- One artifact, as a request names it: `_artifact_dir` checks it.
pub record Artifact : Type 0 where
  pub app_name : String
  pub user_id : String
  pub session_id : Option String
  pub filename : String

pub record ArtifactVersion (N P : Type 0) : Type 0 where
  pub version : ℕ
  pub canonical_uri : P
  pub create_time : Json N
  pub mime_type : Option (Json N)
  pub custom_metadata : Json N

-- Paths `P` and the files under them, `S`. A write or a removal may be refused, as that of a
-- directory is.
pub record Storage (P S T : Type 0) : Type 0 where
  pub join : P → String → P
  pub exists : P → S → Bool
  pub read_text : P → S → Option T
  pub write_text : P → T → S → Option S
  pub unlink : P → S → Option S
  pub iterdir : P → S → List String

pub record IsStorage {P S T : Type 0} (d : Storage P S T) : Type 0 where
  pub read-write :
      (p : P) (t : T) (s s' : S) → d.write_text p t s ≡ some s' → d.read_text p s' ≡ some t
  pub read-other :
      (p q : P) (t : T) (s s' : S)
      → d.write_text p t s ≡ some s'
      → p ≢ q
      → d.read_text q s' ≡ d.read_text q s
  pub exists-read : (p : P) (t : T) (s : S) → d.read_text p s ≡ some t → d.exists p s ≡ true
  pub exists-parent :
      (p : P) (n : String) (t : T) (s : S)
      → d.read_text (d.join p n) s ≡ some t
      → d.exists p s ≡ true
  pub exists-iterdir : (p : P) (n : String) (s : S) → In n (d.iterdir p s) → d.exists p s ≡ true
  pub iterdir-read :
      (p : P) (n : String) (t : T) (s : S)
      → d.read_text (d.join p n) s ≡ some t
      → In n (d.iterdir p s)
  pub iterdir-write :
      (p : P) (n m : String) (t : T) (s s' : S)
      → d.write_text (d.join p n) t s ≡ some s'
      → In m (d.iterdir p s')
      → (m ≡ n) ⊎ In m (d.iterdir p s)
  pub read-unlink : (p : P) (s s' : S) → d.unlink p s ≡ some s' → d.read_text p s' ≡ none
  pub unlink-other :
      (p q : P) (s s' : S) → d.unlink p s ≡ some s' → (p ≡ q) ⊎ (d.read_text q s' ≡ d.read_text q s)

-- What the service uses of other code: `validate_path_segment`, `is_artifact_ref`,
-- `parse_artifact_uri` and `validate_artifact_reference_scope` of ADK, `str.isdigit`, `int` and
-- `str` on version numbers, base64, `json`, and `time.time()`.
pub record Library (N B T : Type 0) : Type 0 where
  pub is_segment : String → Bool
  pub is_artifact_ref : Part B → Bool
  pub parse_uri : String → Option (Artifact × Option ℕ)
  pub in_scope : Artifact → Artifact → Bool
  pub is_digit : String → Bool
  pub int : String → Option ℕ
  pub numeral : ℕ → String
  pub number : ℕ → N
  pub truthy : Json N → Bool
  pub empty : B
  pub b64encode : B → String
  pub b64decode : String → Option B
  pub dumps : Fields N → T
  pub loads : T → Option (Fields N)
  pub time : N

pub record IsLibrary {N B T : Type 0} (l : Library N B T) : Type 0 where
  pub int-numeral : (n : ℕ) → l.int (l.numeral n) ≡ some n
  pub is_digit-numeral : (n : ℕ) → l.is_digit (l.numeral n) ≡ true
  pub b64decode-b64encode : (b : B) → l.b64decode (l.b64encode b) ≡ some b
  pub loads-dumps : (fs : Fields N) → l.loads (l.dumps fs) ≡ some fs
