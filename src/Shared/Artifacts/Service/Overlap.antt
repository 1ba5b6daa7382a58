-- ===== src/Shared/Artifacts/Service/Overlap.antt =====
-- Saves that overlap in the threads of `asyncio.to_thread`: `_save_artifact` as two steps, of which
-- the first lists the versions and the second writes, in any order of the threads' steps.
use adk_a2a_gke.Prelude.{ℕ, zero, suc, Option, none, some, List, [], ◌∷◌, ◌≡◌, ◌≢◌, refl}
use adk_a2a_gke.Json.{Fields}
use adk_a2a_gke.Shared.Artifacts.Storage.{
  Outcome, ok, invalid, crashed, ◌>>=◌, Part, Artifact, Storage, IsStorage, Library, IsLibrary,
}
use adk_a2a_gke.Shared.Artifacts.Versions.{next_version, version_path, list_versions}
use adk_a2a_gke.Shared.Artifacts.Write.{build_envelope, save_artifact}

-- A thread of a save: not started, between its steps with the version, path and text it will write,
-- or at its end.
pub data Thread (N B P T : Type 0) : Type 0 where
  waiting : Artifact → Part B → Fields N → Thread N B P T
  prepared : ℕ → P → T → Thread N B P T
  saved : ℕ → Thread N B P T
  failed : Thread N B P T

step₁ :
    {C D E : Type 0} (z : Outcome C) (k : C → D) (g : D → Outcome E)
    → (z >>= λ c. g (k c)) ≡ ((z >>= λ c. ok (k c)) >>= g)
step₁ (ok c) k g = refl
step₁ invalid k g = refl
step₁ crashed k g = refl

step₂ :
    {B C D E : Type 0} (y : Outcome B) (z : Outcome C) (k : B → C → D) (g : D → Outcome E)
    → (y >>= λ b. z >>= λ c. g (k b c)) ≡ ((y >>= λ b. z >>= λ c. ok (k b c)) >>= g)
step₂ (ok b) z k g = step₁ z (k b) g
step₂ invalid z k g = refl
step₂ crashed z k g = refl

step₃ :
    {A B C D E : Type 0} (x : Outcome A) (y : A → Outcome B) (z : A → Outcome C) (k : A → B → C → D)
    (g : D → Outcome E)
    → (x >>= λ a. y a >>= λ b. z a >>= λ c. g (k a b c))
      ≡ ((x >>= λ a. y a >>= λ b. z a >>= λ c. ok (k a b c)) >>= g)
step₃ (ok a) y z k g = step₂ (y a) (z a) (k a) g
step₃ invalid y z k g = refl
step₃ crashed y z k g = refl

module _ {N B P S T : Type 0} (l : Library N B T) (d : Storage P S T) (root : P) where
  -- `_save_artifact` up to its write
  unfoldable pub prepare : Artifact → Part B → Fields N → S → Outcome (ℕ × P × T)
  unfolding list_versions build_envelope version_path next_version
  prepare a p custom_metadata s = list_versions l d root a s >>= λ versions.
      let version = next_version versions in
      build_envelope l d root version a p custom_metadata >>= λ envelope.
      version_path l d root a version >>= λ path. ok (version, path, l.dumps envelope)

  -- the write, and the answer
  abbrev pub commit : ℕ → P → T → S → Outcome (ℕ × S)
  commit version path text s = elim (d.write_text path text s) [
    | none ↦ crashed
    | some s' ↦ ok (version, s')
  ]

  -- Without another thread in between, the steps are `_save_artifact`.
  pub save_artifact-prepare :
      (a : Artifact) (p : Part B) (m : Fields N) (s : S)
      → save_artifact l d root a p m s
        ≡ (prepare a p m s >>= λ (version, path, text). commit version path text s)
  unfolding save_artifact prepare
  save_artifact-prepare a p m s =
      step₃ (list_versions l d root a s)
        (λ versions. build_envelope l d root (next_version versions) a p m)
        (λ versions. version_path l d root a (next_version versions))
        (λ versions envelope path. (next_version versions, path, l.dumps envelope))
        (λ (version, path, text). commit version path text s)

  abbrev pub started : S → Outcome (ℕ × P × T) → Thread N B P T × S
  started s (ok (version, path, text)) = (prepared version path text, s)
  started s invalid = (failed, s)
  started s crashed = (failed, s)

  abbrev pub written : ℕ → S → Option S → Thread N B P T × S
  written version s none = (failed, s)
  written version s (some s') = (saved version, s')

  unfoldable pub step : Thread N B P T → S → Thread N B P T × S
  unfolding prepare
  step (waiting a p m) s = started s (prepare a p m s)
  step (prepared version path text) s = written version s (d.write_text path text s)
  step (saved version) s = (saved version, s)
  step failed s = (failed, s)

  -- the next step of the thread with a number
  unfoldable pub step_at : ℕ → List (Thread N B P T) → S → List (Thread N B P T) × S
  unfolding step
  step_at i [] s = ([], s)
  step_at zero (t ∷ ts) s = let (t', s') = step t s in (t' ∷ ts, s')
  step_at (suc i) (t ∷ ts) s = let (ts', s') = step_at i ts s in (t ∷ ts', s')

  -- the threads and the storage after a schedule
  unfoldable pub run_threads : List ℕ → List (Thread N B P T) → S → List (Thread N B P T) × S
  unfolding step_at
  run_threads [] ts s = (ts, s)
  run_threads (i ∷ is) ts s = let (ts', s') = step_at i ts s in run_threads is ts' s'

  -- A thread that is not between its steps.
  abbrev pub IsIdle : Thread N B P T → Type 0
  IsIdle (prepared _ _ _) = ⊥
  IsIdle _ = Unit {0}

  -- A thread that will not write to a path.
  abbrev Spares : P → Thread N B P T → Type 0
  Spares q (prepared _ path _) = path ≢ q
  Spares q _ = Unit {0}

  module _ (hl : IsLibrary l) (hd : IsStorage d) where
    -- The file stays, and the thread still will not write to its path.
    abbrev Kept : P → T → Thread N B P T × S → Type 0
    Kept q text (t, s) = Spares q t × (d.read_text q s ≡ some text)
