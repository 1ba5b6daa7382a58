-- ===== src/Shared/Artifacts/Service.antt =====
-- app/shared/artifacts.py: the asynchronous methods of `CloudPathArtifactService`, as calls that are
-- answered one after another, and the provider that constructs the service. Each method runs its
-- synchronous one in a thread; Overlap is about saves that overlap there.
pub mod History
pub mod Overlap
use adk_a2a_gke.Prelude.{
  ℕ, String, ◌==◌, if◌then◌else◌, Env, env_get, Option, none, some, List, [], ◌∷◌, Attempt,
  returned, raised, value_error, or_text,
}
use adk_a2a_gke.Json.{Fields}
use adk_a2a_gke.Shared.Artifacts.Storage.{
  Outcome, ok, invalid, crashed, ◌>>=◌, Part, Artifact, ArtifactVersion, Storage, Library,
}
use adk_a2a_gke.Shared.Artifacts.Versions
use adk_a2a_gke.Shared.Artifacts.Write
use adk_a2a_gke.Shared.Artifacts.Read
use adk_a2a_gke.Shared.Artifacts.Listing
use adk_a2a_gke.Shared.Artifacts.Listing.{Leaf}

-- A call of a method, with its arguments.
pub data Call (N B : Type 0) : Type 0 where
  save_artifact : Artifact → Part B → Fields N → Call N B
  load_artifact get_artifact_version : Artifact → Option ℕ → Call N B
  list_artifact_keys : String → String → Option String → Call N B
  delete_artifact list_versions list_artifact_versions : Artifact → Call N B

pub data Answer (N B P : Type 0) : Type 0 where
  saved : ℕ → Answer N B P
  loaded : Option (Part B) → Answer N B P
  found : Option (ArtifactVersion N P) → Answer N B P
  keys : List String → Answer N B P
  deleted : Answer N B P
  versions : List ℕ → Answer N B P
  metas : List (ArtifactVersion N P) → Answer N B P

module _ {N B P S T : Type 0} (l : Library N B T) (d : Storage P S T) (rglob : P → S → List Leaf)
    (root : P) (depth : ℕ) where
  -- A save that raises leaves the storage.
  abbrev pub stored : S → Outcome (ℕ × S) → Outcome (Answer N B P) × S
  stored s (ok (v, s')) = (ok (saved v), s')
  stored s invalid = (invalid, s)
  stored s crashed = (crashed, s)

  abbrev pub unlinked : Outcome (Unit {0}) × S → Outcome (Answer N B P) × S
  unlinked (o, s) = (o >>= (λ _. ok deleted), s)

  -- `depth` is how deep Python lets a load follow references.
  unfoldable pub to_thread : Call N B → S → Outcome (Answer N B P) × S
  to_thread (save_artifact a p custom_metadata) s =
      stored s (Write.save_artifact l d root a p custom_metadata s)
  to_thread (load_artifact a version) s =
      (Read.load_artifact l d root depth a version s >>= (λ p. ok (loaded p)), s)
  to_thread (get_artifact_version a version) s =
      (Read.get_artifact_version l d root a version s >>= (λ m. ok (found m)), s)
  to_thread (list_artifact_keys app_name user_id session_id) s = (
    Listing.list_artifact_keys l d rglob root app_name user_id session_id s
        >>= (λ ks. ok (keys ks)),
    s,
  )
  to_thread (delete_artifact a) s = unlinked (Write.delete_artifact l d root a s)
  to_thread (list_versions a) s =
      (Versions.list_versions l d root a s >>= (λ vs. ok (versions vs)), s)
  to_thread (list_artifact_versions a) s =
      (Read.list_artifact_versions l d root a s >>= (λ ms. ok (metas ms)), s)

  -- the storage after the calls
  unfoldable pub after_calls : List (Call N B) → S → S
  unfolding to_thread
  after_calls [] s = s
  after_calls (c ∷ cs) s = after_calls cs (to_thread c s).1

-- `ArtifactStorageModule` with the path it was given: where the service it provides keeps its
-- files. `any_path` is cloudpathlib's `AnyPath`.
unfoldable pub provide_artifact_service :
    {P : Type 0} → (String → P) → Option String → Env → Attempt P
provide_artifact_service any_path base_path env =
    let configured =
      or_text (elim base_path [ none ↦ "" | some b ↦ b ]) (env_get env "ARTIFACT_STORAGE_URI" "") in
    if configured == "" then raised value_error else returned (any_path configured)
