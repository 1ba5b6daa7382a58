-- ===== src/Shared/Catalog.antt =====
-- app/shared/model_catalog.py and app/shared/config.py: the catalogue that is listed once, and which
-- model each tier of agents gets. What Vertex AI lists is a parameter.
pub mod Cached
use mathlib.Core.Option
use adk_a2a_gke.Prelude.{
  ℕ, suc, String, Bool, true, ◌>>=◌, Option, none, some, List, [], ◌∷◌, ◌==◌, if◌then◌else◌, Env,
  or_text, Attempt, returned, raised, foreign,
}
use adk_a2a_gke.Shared.Models.{Digits, after_prefix, select_latest_model}
use adk_a2a_gke.Shared.Models.Embeddings.{select_embedding_model}

-- The client of Vertex AI: the names of the n-th listing, `none` where the request fails.
abbrev pub Client : Type 0
Client = ℕ → Option (List (Option String))

-- `ModelCatalog`: the value of the cached property, and the listings requested of the client.
pub record Catalog : Type 0 where
  pub model_ids : Option (List String)
  pub listed : ℕ

-- `s.removeprefix(prefix)`
unfoldable pub removeprefix : String → String → String
unfolding after_prefix
removeprefix prefix s = Option.get_or (after_prefix prefix s) s

-- The list comprehension of `_model_ids`.
unfoldable pub names_of : List (Option String) → List String
unfolding removeprefix
names_of [] = []
names_of (none ∷ models) = names_of models
names_of (some name ∷ models) =
    let rest = names_of models in
    if name == "" then rest else removeprefix "publishers/google/models/" name ∷ rest

module _ (client : Client) where
  -- a listing, whose failure leaves nothing in the cache
  unfoldable pub list_models : Option (List (Option String)) → ℕ → Attempt (List String) × Catalog
  unfolding names_of
  list_models none n = (raised foreign, record { model_ids = none; listed = suc n })
  list_models (some models) n =
      let ids = names_of models in (returned ids, record { model_ids = some ids; listed = suc n })

  unfoldable pub model_ids_at : Option (List String) → ℕ → Attempt (List String) × Catalog
  unfolding list_models
  model_ids_at (some ids) n = (returned ids, record { model_ids = some ids; listed = n })
  model_ids_at none n = list_models (client n) n

  -- `ModelCatalog._model_ids`
  unfoldable pub model_ids : Catalog → Attempt (List String) × Catalog
  unfolding model_ids_at
  model_ids c = model_ids_at c.model_ids c.listed

  module _ (digits : Digits) where
    -- `ModelCatalog.latest`
    unfoldable pub latest : String → Catalog → Attempt String × Catalog
    unfolding model_ids select_latest_model
    latest family c =
        let (ids, after) = model_ids c in
        (ids >>= λ ids. select_latest_model digits ids family, after)

    -- `ModelCatalog.latest_embedding`
    unfoldable pub latest_embedding : Catalog → Attempt String × Catalog
    unfolding model_ids select_embedding_model
    latest_embedding c =
        let (ids, after) = model_ids c in (ids >>= λ ids. select_embedding_model digits ids, after)

-- `x or y` where `x` is an optional text
abbrev pub text_or : Option String → Option String → Option String
text_or none y = y
text_or (some x) y = if x == "" then y else some x

-- `ModelModule`: the overrides of the constructor.
pub record ModelModule : Type 0 where
  pub project : Option String
  pub location : Option String
  pub fast_model : Option String
  pub balanced_model : Option String
  pub capable_model : Option String
  pub embedding_model : Option String

-- `Client(...)` of `provide_genai_client`
pub record ClientSettings : Type 0 where
  pub vertexai : Bool
  pub project : Option String
  pub location : String

unfoldable pub provide_project : Env → ModelModule → String
provide_project env m = Option.get_or (text_or m.project (env "GOOGLE_CLOUD_PROJECT")) ""

unfoldable pub provide_location : Env → ModelModule → String
provide_location env m =
    or_text (Option.get_or (text_or m.location (env "GOOGLE_CLOUD_LOCATION")) "") "global"

unfoldable pub provide_genai_client : String → String → ClientSettings
provide_genai_client project location = record {
  vertexai = true;
  project = if project == "" then none else some project;
  location = location;
}

-- `build_model`: the model and how often a request is tried.
pub record Gemini : Type 0 where
  pub model : String
  pub attempts : ℕ
  pub api_client : Option ClientSettings

unfoldable pub build_model : String → Option ClientSettings → Gemini
build_model model client = record { model = model; attempts = 3; api_client = client }

-- what a pinned id, or else the catalogue, answers
abbrev pub pinned_or :
    Option String → (Catalog → Attempt String × Catalog) → Catalog → Attempt String × Catalog
pinned_or none ask c = ask c
pinned_or (some id) ask c = (returned id, c)

-- an empty text pins nothing
abbrev pub pin : Env → Option String → String → Option String
pin env override env_var = text_or override (text_or (env env_var) none)

module _ (client : Client) (digits : Digits) (env : Env) where
  unfoldable pub resolve_model_id :
      Option String → String → String → Catalog → Attempt String × Catalog
  unfolding latest
  resolve_model_id override env_var family =
      pinned_or (pin env override env_var) (latest client digits family)

  unfoldable pub provide_fast_model :
      ModelModule → ClientSettings → Catalog → Attempt Gemini × Catalog
  unfolding resolve_model_id build_model
  provide_fast_model m settings c =
      let (id, after) = resolve_model_id m.fast_model "GEMINI_FAST_MODEL" "flash-lite" c in
      (id >>= λ id. returned (build_model id (some settings)), after)

  unfoldable pub provide_balanced_model :
      ModelModule → ClientSettings → Catalog → Attempt Gemini × Catalog
  unfolding resolve_model_id build_model
  provide_balanced_model m settings c =
      let (id, after) = resolve_model_id m.balanced_model "GEMINI_BALANCED_MODEL" "flash" c in
      (id >>= λ id. returned (build_model id (some settings)), after)

  unfoldable pub provide_capable_model :
      ModelModule → ClientSettings → Catalog → Attempt Gemini × Catalog
  unfolding resolve_model_id build_model
  provide_capable_model m settings c =
      let (id, after) = resolve_model_id m.capable_model "GEMINI_CAPABLE_MODEL" "pro" c in
      (id >>= λ id. returned (build_model id (some settings)), after)

  unfoldable pub provide_embedding_model : ModelModule → Catalog → Attempt String × Catalog
  unfolding latest_embedding
  provide_embedding_model m =
      pinned_or (pin env m.embedding_model "GEMINI_EMBEDDING_MODEL")
        (latest_embedding client digits)
