-- ===== src/Tests/Models.antt =====
-- The selection of models at concrete catalogues.
use Prim.Native.Char.{Char, code}
use Prim.Native.Nat.{◌*◌}
use Prim.Native.String.{[], ◌∷◌}
use adk_a2a_gke.Prelude.{
  ℕ, zero, suc, ◌+◌, ◌-◌, ◌≡◌, refl, ◌⊎◌, ◌≤◌, ◌<◌, arith, String, Bool, true, false, ◌&&◌, Option,
  none, some, List, leb, if◌then◌else◌, ◌==◌, All, Env, returned, raised, value_error,
}
use adk_a2a_gke.Shared.Keys.{same_tuple, above_tuple}
use adk_a2a_gke.Shared.Models.{Digits, Key, key_order, model_key, select_latest_model}
use adk_a2a_gke.Shared.Models.Embeddings.{select_embedding_model}
use adk_a2a_gke.Shared.Models.Latest.{IsFirstBest, select_latest_model_lem}
use adk_a2a_gke.Shared.Catalog.{Client, names_of, ModelModule, ClientSettings}
use adk_a2a_gke.Shared.Catalog.Cached.{
  Tier, fast, capable, embedding, provide_all, expected, provide_all_listed_once,
}

abbrev decimal : Char → Bool
decimal c = leb 48 (code c) && leb (code c) 57

abbrev all_decimal : String → Bool
all_decimal [] = true
all_decimal (c ∷ s) = decimal c && all_decimal s

abbrev number : ℕ → String → ℕ
number n [] = n
number n (c ∷ s) = number (10 * n + (code c - 48)) s

abbrev pub ascii : Digits
ascii = record {
  decimal = decimal;
  is_digit = λ s. if s == "" then false else all_decimal s;
  int = λ s. if s == "" then none else if all_decimal s then some (number 0 s) else none;
}

abbrev catalogue : List String
catalogue = List.◌∷◌ "gemini-2.5-flash-001" (
    List.◌∷◌ "gemini-2.5-flash" (
      List.◌∷◌ "gemini-2.5-flash-image" (
        List.◌∷◌ "gemini-2.5-flash-preview-09-2025" (
          List.◌∷◌ "gemini-2.0-pro"
            (List.◌∷◌ "text-embedding-005" (List.◌∷◌ "gemini-embedding-001" List.[]))))))

latest_flash : select_latest_model ascii catalogue "flash" ≡ returned "gemini-2.5-flash"
unfolding select_latest_model same_tuple above_tuple
latest_flash = refl

latest_pro : select_latest_model ascii catalogue "pro" ≡ returned "gemini-2.0-pro"
unfolding select_latest_model same_tuple above_tuple
latest_pro = refl

no_flash_lite : select_latest_model ascii catalogue "flash-lite" ≡ raised value_error
unfolding select_latest_model same_tuple above_tuple
no_flash_lite = refl

best_embedding : select_embedding_model ascii catalogue ≡ returned "gemini-embedding-001"
unfolding select_embedding_model same_tuple above_tuple
best_embedding = refl

select_latest_model_example :
    ((id : String) × (key : Key) × IsFirstBest key_order (model_key ascii "flash") catalogue id key
      × (select_latest_model ascii catalogue "flash" ≡ returned id))
    ⊎ (All (λ id. model_key ascii "flash" id ≡ returned none) catalogue
        × (select_latest_model ascii catalogue "flash" ≡ raised value_error))
unfolding model_key
select_latest_model_example =
    select_latest_model_lem ascii catalogue "flash"
      ((_, refl), ((_, refl), ((_, refl), ((_, refl), ((_, refl), ((_, refl), ((_, refl), tt)))))))

-- the first request fails, the later ones list two models
abbrev listing : List (Option String)
listing =
    List.◌∷◌ (some "publishers/google/models/gemini-2.5-pro")
      (List.◌∷◌ none (List.◌∷◌ (some "gemini-embedding-001") List.[]))

abbrev flaky : Client
flaky zero = none
flaky (suc _) = some listing

only_first : (k : ℕ) → k < 1 → flaky k ≡ none
only_first zero l = refl
only_first (suc k) l = absurd (omega arith)

abbrev settings : ModelModule
settings = record {
  project = some "p";
  location = none;
  fast_model = some "pinned";
  balanced_model = none;
  capable_model = none;
  embedding_model = none;
}

abbrev no_env : Env
no_env name = none

abbrev vertex : ClientSettings
vertex = record { vertexai = true; project = some "p"; location = "global" }

abbrev tiers : List Tier
tiers = List.◌∷◌ capable (List.◌∷◌ fast (List.◌∷◌ embedding (List.◌∷◌ capable List.[])))

provide_all_listed_once_example :
    (let (answers, last) =
        provide_all flaky ascii no_env settings vertex tiers
          (record { model_ids = none; listed = 0 }) in
      (answers ≡ expected flaky ascii no_env settings vertex (names_of listing) 1 tiers)
      × (last.listed ≤ 2))
provide_all_listed_once_example =
    provide_all_listed_once flaky ascii no_env settings vertex 1 listing refl only_first tiers
