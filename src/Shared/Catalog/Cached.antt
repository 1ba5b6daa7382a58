-- ===== src/Shared/Catalog/Cached.antt =====
-- app/shared/config.py: the models that the tiers get, whatever the order in which they are asked.
use adk_a2a_gke.Prelude.{
  ℕ, zero, suc, ◌+◌, ◌≤◌, ◌<◌, String, ◌≡◌, refl, ap, ◌∙◌, ◌⊎◌, inl, inr, Option, none, some, List,
  [], ◌∷◌, Env, Attempt, returned, raised, foreign, ◌>>=◌, arith,
}
use adk_a2a_gke.Shared.Models.{Digits, select_latest_model}
use adk_a2a_gke.Shared.Models.Embeddings.{select_embedding_model}
use adk_a2a_gke.Shared.Catalog.{
  Client, Catalog, names_of, list_models, model_ids_at, model_ids, latest, latest_embedding,
  ModelModule, ClientSettings, Gemini, build_model, pinned_or, pin, resolve_model_id,
  provide_fast_model, provide_balanced_model, provide_capable_model, provide_embedding_model,
}

pub data Tier : Type 0 where
  fast balanced capable embedding : Tier

-- A generative model, or the name of the embedding model.
pub data Provided : Type 0 where
  model : Gemini → Provided
  named : String → Provided

module _ (client : Client) (digits : Digits) (env : Env) (m : ModelModule)
    (s : ClientSettings) where
  as_model : Attempt Gemini × Catalog → Attempt Provided × Catalog
  as_model (g, c) = (g >>= λ g. returned (model g), c)

  as_name : Attempt String × Catalog → Attempt Provided × Catalog
  as_name (id, c) = (id >>= λ id. returned (named id), c)

  unfoldable pub provide : Tier → Catalog → Attempt Provided × Catalog
  unfolding as_model as_name
  provide fast c = as_model (provide_fast_model client digits env m s c)
  provide balanced c = as_model (provide_balanced_model client digits env m s c)
  provide capable c = as_model (provide_capable_model client digits env m s c)
  provide embedding c = as_name (provide_embedding_model client digits env m c)

  -- the providers of a process in the order in which they run
  unfoldable pub provide_all : List Tier → Catalog → List (Tier × Attempt Provided) × Catalog
  provide_all [] c = ([], c)
  provide_all (tier ∷ tiers) c =
      let (got, after) = provide tier c in
      let (rest, last) = provide_all tiers after in ((tier, got) ∷ rest, last)

  -- what a tier gets when the catalogue holds `ids`
  of_pin : Option String → Attempt String → Attempt String
  of_pin none found = found
  of_pin (some id) found = returned id

  abbrev gemini : Attempt String → Attempt Provided
  gemini id = (id >>= λ id. returned (build_model id (some s))) >>= λ g. returned (model g)

  unfoldable pub provided_from : List String → Tier → Attempt Provided
  unfolding of_pin
  provided_from ids fast = gemini (
      of_pin (pin env m.fast_model "GEMINI_FAST_MODEL")
        (select_latest_model digits ids "flash-lite"))
  provided_from ids balanced = gemini (
      of_pin (pin env m.balanced_model "GEMINI_BALANCED_MODEL")
        (select_latest_model digits ids "flash"))
  provided_from ids capable = gemini (
      of_pin (pin env m.capable_model "GEMINI_CAPABLE_MODEL")
        (select_latest_model digits ids "pro"))
  provided_from ids embedding =
      of_pin (pin env m.embedding_model "GEMINI_EMBEDDING_MODEL")
        (select_embedding_model digits ids)
      >>= λ id. returned (named id)

  -- the pinned id of a tier
  unfoldable pub pin_of : Tier → Option String
  pin_of fast = pin env m.fast_model "GEMINI_FAST_MODEL"
  pin_of balanced = pin env m.balanced_model "GEMINI_BALANCED_MODEL"
  pin_of capable = pin env m.capable_model "GEMINI_CAPABLE_MODEL"
  pin_of embedding = pin env m.embedding_model "GEMINI_EMBEDDING_MODEL"

  -- What an answer becomes where the next `left` listings fail: a pinned id needs no listing.
  abbrev pub answer : {A : Type 0} → Option String → ℕ → Attempt A → Attempt A
  answer (some id) left good = good
  answer none zero good = good
  answer none (suc left) good = raised foreign

  -- how many listings still fail afterwards
  abbrev pub left_after : Option String → ℕ → ℕ
  left_after (some id) left = left
  left_after none zero = zero
  left_after none (suc left) = left

  -- The answers to the tiers in order, where `left` listings fail and then one finds `ids`.
  unfoldable pub expected : List String → ℕ → List Tier → List (Tier × Attempt Provided)
  unfolding pin_of
  expected ids left [] = []
  expected ids left (tier ∷ tiers) =
      (tier, answer (pin_of tier) left (provided_from ids tier))
      ∷ expected ids (left_after (pin_of tier) left) tiers

  -- The catalogue is listed until a listing succeeds, the n-th.
  module _ (n : ℕ) (models : List (Option String)) (found : client n ≡ some models)
      (failed : (k : ℕ) → k < n → client k ≡ none) where
    -- The catalogue after some calls, where `left` listings still fail.
    IsLeft : ℕ → Catalog → Type 0
    IsLeft left c =
        ((c.model_ids ≡ none) × (c.listed + left ≡ n))
        ⊎ ((left ≡ zero) × (c.model_ids ≡ some (names_of models)) × (c.listed ≡ suc n))

    -- a call that needs a listing unless `pinned`, and answers with `good` or with the failure
    abbrev Asks :
        {A : Type 0} → Option String → (Catalog → Attempt A × Catalog) → Attempt A → Type 0
    Asks pinned ask good =
        (left : ℕ) (c : Catalog)
        → IsLeft left c
        → IsLeft (left_after pinned left) (ask c).1 × ((ask c).0 ≡ answer pinned left good)

    listed-fails :
        (left k : ℕ) (o : Option (List (Option String)))
        → o ≡ none
        → k + suc left ≡ n
        → IsLeft left (list_models client o k).1 × ((list_models client o k).0 ≡ raised foreign)
    unfolding IsLeft list_models
    listed-fails left k none e l = (inl (refl, omega arith), refl)
    listed-fails left k (some ms) e l = absurd (cc e)

    listed-finds :
        (k : ℕ) (o : Option (List (Option String)))
        → o ≡ some models
        → k ≡ n
        → IsLeft zero (list_models client o k).1
          × ((list_models client o k).0 ≡ returned (names_of models))
    unfolding IsLeft list_models
    listed-finds k none e l = absurd (cc e)
    listed-finds k (some ms) e l =
        let same : ms ≡ models = cc e in
        (
          inr (refl, ap (λ x. some (names_of x)) same, ap suc l),
          ap (λ x. returned (names_of x)) same,
        )

    model_ids_at-Asks :
        (o : Option (List String)) (left k : ℕ)
        → ((o ≡ none) × (k + left ≡ n))
          ⊎ ((left ≡ zero) × (o ≡ some (names_of models)) × (k ≡ suc n))
        → IsLeft (left_after none left) (model_ids_at client o k).1
          × ((model_ids_at client o k).0 ≡ answer none left (returned (names_of models)))
    unfolding IsLeft model_ids_at
    model_ids_at-Asks none zero k (inl (e, l)) =
        let here : k ≡ n = omega arith in listed-finds k (client k) (ap client here ∙ found) here
    model_ids_at-Asks none (suc left) k (inl (e, l)) =
        listed-fails left k (client k) (failed k (omega arith)) l
    model_ids_at-Asks none left k (inr (z, e, l)) = absurd (cc e)
    model_ids_at-Asks (some ids) left k (inl (e, l)) = absurd (cc e)
    model_ids_at-Asks (some ids) zero k (inr (z, e, l)) =
        let same : ids ≡ names_of models = cc e in (inr (refl, e, l), ap returned same)
    model_ids_at-Asks (some ids) (suc left) k (inr (z, e, l)) = absurd (omega arith)

    model_ids-Asks : Asks none (model_ids client) (returned (names_of models))
    unfolding IsLeft model_ids
    model_ids-Asks left c h = model_ids_at-Asks c.model_ids left c.listed h

    chain :
        {A B : Type 0} (pinned : Option String) (left : ℕ) (r good : Attempt A) (f : A → Attempt B)
        → r ≡ answer pinned left good
        → (r >>= f) ≡ answer pinned left (good >>= f)
    chain (some id) left r good f e = ap (λ x. x >>= f) e
    chain none zero r good f e = ap (λ x. x >>= f) e
    chain none (suc left) r good f e = ap (λ x. x >>= f) e

    latest-Asks :
        (family : String)
        → Asks none
            (latest client digits family)
            (select_latest_model digits (names_of models) family)
    unfolding latest
    latest-Asks family left c h =
        let (after, got) = model_ids-Asks left c h in (after, chain none left _ _ _ got)

    latest_embedding-Asks :
        Asks none (latest_embedding client digits) (select_embedding_model digits (names_of models))
    unfolding latest_embedding
    latest_embedding-Asks left c h =
        let (after, got) = model_ids-Asks left c h in (after, chain none left _ _ _ got)

    pinned_or-Asks :
        (pinned : Option String) (ask : Catalog → Attempt String × Catalog) (good : Attempt String)
        → Asks none ask good
        → Asks pinned (pinned_or pinned ask) (of_pin pinned good)
    unfolding of_pin
    pinned_or-Asks none ask good a left c h = a left c h
    pinned_or-Asks (some id) ask good a left c h = (h, refl)

    resolve_model_id-Asks :
        (override : Option String) (env_var family : String)
        → Asks
            (pin env override env_var)
            (resolve_model_id client digits env override env_var family)
            (of_pin
              (pin env override env_var)
              (select_latest_model digits (names_of models) family))
    unfolding resolve_model_id
    resolve_model_id-Asks override env_var family =
        pinned_or-Asks (pin env override env_var) _ _ (latest-Asks family)

    provide-Asks :
        (tier : Tier) → Asks (pin_of tier) (provide tier) (provided_from (names_of models) tier)
    unfolding provide provided_from as_model as_name provide_fast_model provide_balanced_model
        provide_capable_model provide_embedding_model pin_of
    provide-Asks fast left c h =
        let (after, got) =
          resolve_model_id-Asks m.fast_model "GEMINI_FAST_MODEL" "flash-lite" left c h in
        let p = pin env m.fast_model "GEMINI_FAST_MODEL" in
        (after, chain p left _ _ _ (chain p left _ _ _ got))
    provide-Asks balanced left c h =
        let (after, got) =
          resolve_model_id-Asks m.balanced_model "GEMINI_BALANCED_MODEL" "flash" left c h in
        let p = pin env m.balanced_model "GEMINI_BALANCED_MODEL" in
        (after, chain p left _ _ _ (chain p left _ _ _ got))
    provide-Asks capable left c h =
        let (after, got) =
          resolve_model_id-Asks m.capable_model "GEMINI_CAPABLE_MODEL" "pro" left c h in
        let p = pin env m.capable_model "GEMINI_CAPABLE_MODEL" in
        (after, chain p left _ _ _ (chain p left _ _ _ got))
    provide-Asks embedding left c h =
        let p = pin env m.embedding_model "GEMINI_EMBEDDING_MODEL" in
        let (after, got) = pinned_or-Asks p _ _ latest_embedding-Asks left c h in
        (after, chain p left _ _ _ got)

    provide_all-expected :
        (tiers : List Tier) (left : ℕ) (c : Catalog)
        → IsLeft left c
        → ((provide_all tiers c).0 ≡ expected (names_of models) left tiers)
          × ((last : ℕ) × IsLeft last (provide_all tiers c).1)
    unfolding provide_all expected
    provide_all-expected [] left c h = (refl, (left, h))
    provide_all-expected (tier ∷ tiers) left c h =
        let (after, got) = provide-Asks tier left c h in
        let (same, last) =
          provide_all-expected tiers (left_after (pin_of tier) left) (provide tier c).1 after in
        (λ i. (tier, got i) ∷ same i, last)

    -- The n-th listing of the models, counted from 0, is the first that succeeds. From an empty
    -- catalogue, whatever tiers are provided in whatever order: a tier that is pinned gets the model
    -- of its pinned id; the first n of the others get the error of a listing that failed; and each
    -- further one gets the selection from what the n-th listing found. The models are listed at
    -- most n + 1 times.
    pub provide_all_listed_once :
        (tiers : List Tier)
        → (let (answers, last) = provide_all tiers (record { model_ids = none; listed = 0 }) in
            (answers ≡ expected (names_of models) n tiers) × (last.listed ≤ suc n))
    unfolding IsLeft
    provide_all_listed_once tiers =
        let (same, (left, last)) = provide_all-expected tiers n _ (inl (refl, omega arith)) in
        (same, at_most left (provide_all tiers _).1 last)
      where
        at_most :
            (left : ℕ) (c : Catalog)
            → ((c.model_ids ≡ none) × (c.listed + left ≡ n))
              ⊎ ((left ≡ zero) × (c.model_ids ≡ some (names_of models)) × (c.listed ≡ suc n))
            → c.listed ≤ suc n
        at_most left c (inl (e, l)) = omega arith
        at_most left c (inr (z, e, l)) = omega arith
