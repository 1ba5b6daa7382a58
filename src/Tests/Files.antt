-- ===== src/Tests/Files.antt =====
-- Artifacts at concrete inputs.
use mathlib.Core.Option.{some-injective}
use mathlib.Core.Path.{subst}
use adk_a2a_gke.Prelude.{
  ◌⊎◌, All, none, ℕ, String, true, some, List, [], ◌∷◌, ◌≡◌, refl, In, lookup,
}
use adk_a2a_gke.Text.{concat}
use adk_a2a_gke.Json.{Json, str, obj, Fields, end, field, get_field}
use adk_a2a_gke.Shared.Artifacts.Storage.{ok, crashed, Artifact, Part, Library}
use adk_a2a_gke.Shared.Artifacts.Versions.{list_versions}
use adk_a2a_gke.Shared.Artifacts.Write.{save_artifact, delete_artifact, payload_fields}
use adk_a2a_gke.Shared.Artifacts.Read.{load_artifact, read_envelope}
use adk_a2a_gke.Shared.Artifacts.RoundTrip.{kept}
use adk_a2a_gke.Shared.Artifacts.RoundTrip.{kept}
use adk_a2a_gke.Shared.Artifacts.Listing.{list_artifact_keys}
use adk_a2a_gke.Shared.Artifacts.Listed.{is_name, list_artifact_keys-save_artifact}
use adk_a2a_gke.Shared.Artifacts.Service.{Call}
use adk_a2a_gke.Shared.Artifacts.Service.Overlap.{Thread, run_threads}
use adk_a2a_gke.Shared.Artifacts.Deleted.{IsGone, IsRefused, IsKept, delete_artifact_lem}
use adk_a2a_gke.Shared.Artifacts.Cycles.{load_artifact_cycle}
use adk_a2a_gke.Tests.Disk.{
  Place, Disk, disk, disk-IsStorage, walk, disk-IsGlob, plain, plain-IsLibrary,
}

abbrev root : Place
root = ("root", "")

abbrev notes : Artifact
notes = record { app_name = "app"; user_id = "u"; session_id = some "s"; filename = "notes.txt" }

abbrev greeting : Part String
greeting = record { inline_data = none; text = some "hello"; file_data = none }

abbrev greeting_fields : Fields ℕ
greeting_fields =
    field "kind" (str "text")
      (field "mime_type" (str "text/plain") (field "text" (str "hello") end))

abbrev greeting_envelope : Fields ℕ
greeting_envelope =
    field "version" (Json.num 0)
      (field "create_time" (Json.num 0) (field "custom_metadata" (obj end) greeting_fields))

abbrev directory : String
directory = "root//app/u/s/notes.txt"

abbrev saved : Disk
saved = (directory, ("1", greeting_envelope) ∷ []) ∷ []

delete_artifact_lem_example :
    let (o, s') = delete_artifact plain disk root notes saved in
    (((o ≡ ok tt) × All (IsGone plain disk root disk-IsStorage notes s') (0 ∷ []))
      ⊎ ((o ≡ crashed) × IsRefused plain disk root disk-IsStorage notes (0 ∷ []) s'))
    × ((q : Place) → IsKept plain disk root disk-IsStorage notes (0 ∷ []) saved s' q)
unfolding list_versions plain disk lookup concat
delete_artifact_lem_example =
    delete_artifact_lem plain disk root disk-IsStorage notes (0 ∷ []) saved refl

-- a library that reads one URI
abbrev referring : Library ℕ String (Fields ℕ)
referring = record plain { parse_uri = λ u. some (notes, some 0) }

abbrev self_reference : Fields ℕ
self_reference = field "kind" (str "file") (field "file_uri" (str "artifact://notes") end)

abbrev looped : Disk
looped = (directory, ("1", self_reference) ∷ []) ∷ []

load_artifact_cycle_example : load_artifact referring disk root 3 notes (some 0) looped ≡ crashed
unfolding plain disk read_envelope lookup get_field concat
load_artifact_cycle_example =
    load_artifact_cycle referring disk root notes 0 self_reference looped refl
      (record {
        uri = "artifact://notes";
        kind = refl;
        file_uri = refl;
        scheme = refl;
        target = refl;
        allowed = refl;
      })
      3

list_artifact_keys-save_artifact_example :
    (keys : List String) × (list_artifact_keys plain disk walk root "app" "u" (some "s") saved
      ≡ ok keys)
    × In "notes.txt" keys
unfolding save_artifact plain disk payload_fields concat is_name
list_artifact_keys-save_artifact_example =
    list_artifact_keys-save_artifact plain disk walk root disk-IsStorage disk-IsGlob plain-IsLibrary
      notes "notes.txt" [] greeting end [] saved 0 refl (refl, (refl, tt))
      (λ i e. subst (λ j. plain.is_segment j ≡ true) (some-injective "s" i e) refl) refl

-- calls between two saves: another artifact is saved, and the keys are listed
abbrev calls : List (Call ℕ String)
calls =
    Call.save_artifact (record notes { filename = "plan.txt" }) greeting end
    ∷ Call.list_artifact_keys "app" "u" (some "s")
    ∷ Call.load_artifact notes none
    ∷ []

abbrev second_envelope : Fields ℕ
second_envelope =
    field "version" (Json.num 1)
      (field "create_time" (Json.num 0) (field "custom_metadata" (obj end) greeting_fields))

abbrev later : Disk
later =
    (directory, ("1", greeting_envelope) ∷ ("11", second_envelope) ∷ [])
    ∷ ("root//app/u/s/plan.txt", ("1", greeting_envelope) ∷ [])
    ∷ []

-- two saves of the same artifact, whose steps alternate
abbrev threads : List (Thread ℕ String Place (Fields ℕ))
threads =
    Thread.waiting notes greeting end
    ∷ Thread.waiting notes (record greeting { text = some "bye" }) end
    ∷ []

abbrev schedule : List ℕ
schedule = 0 ∷ 1 ∷ 0 ∷ 1 ∷ []

-- Both return the same version.
collision :
    (run_threads plain disk root schedule threads saved).0 ≡ (Thread.saved 1 ∷ Thread.saved 1 ∷ [])
unfolding run_threads plain disk payload_fields concat
collision = refl
