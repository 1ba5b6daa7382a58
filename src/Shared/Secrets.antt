-- ===== src/Shared/Secrets.antt =====
-- app/shared/secrets.py: the cache in front of Secret Manager. The service is a parameter: the n-th
-- request for a version of a secret, whose payload may not be there or not be UTF-8.
pub mod Fetched
use Prim.Native.Char.{code}
use Prim.Native.String.{[], ◌∷◌}
use adk_a2a_gke.Prelude.{
  ℕ, suc, String, Bool, true, false, ◌||◌, Option, none, some, List, ◌==◌, eqb, if◌then◌else◌, Dict,
  lookup, insert, Attempt, returned, raised, value_error, foreign, ◌>>=◌,
}
use adk_a2a_gke.Text.{concat}

abbrev pub Service : Type 0
Service = ℕ → String → Option String

-- `Secrets`: the cache, and the requests sent so far.
pub record Secrets : Type 0 where
  pub project : String
  pub cache : Dict String
  pub requests : ℕ

-- `Secrets.__init__`, which `provide_secrets` calls with the injected project
abbrev pub new : String → Secrets
new project = record { project = project; cache = List.[]; requests = 0 }

-- `"/" in name`
unfoldable pub has_slash : String → Bool
has_slash [] = false
has_slash (c ∷ s) = eqb (code c) 47 || has_slash s

unfoldable pub resource_name : String → String → String → Attempt String
unfolding has_slash concat
resource_name project name version =
    if has_slash name
    then returned name
    else if project == ""
    then raised value_error
    else returned (
        concat (
          List.◌∷◌ "projects/" (
            List.◌∷◌ project (
              List.◌∷◌ "/secrets/"
                (List.◌∷◌ name (List.◌∷◌ "/versions/" (List.◌∷◌ version List.[])))))))

module _ (service : Service) where
  -- a request and what it leaves in the cache; a failure leaves nothing
  unfoldable pub stored : Option String → String → Secrets → Attempt String × Secrets
  unfolding insert
  stored none resource s = (raised foreign, record s { requests = suc s.requests })
  stored (some value) resource s = (
    returned value,
    record s { cache = insert resource value s.cache; requests = suc s.requests },
  )

  unfoldable pub get_at : Option String → Bool → String → Secrets → Attempt String × Secrets
  unfolding stored
  get_at (some value) false resource s = (returned value, s)
  get_at (some value) true resource s = stored (service s.requests resource) resource s
  get_at none refresh resource s = stored (service s.requests resource) resource s

  abbrev pub get_resource : Attempt String → Bool → Secrets → Attempt String × Secrets
  get_resource (returned resource) refresh s = get_at (lookup resource s.cache) refresh resource s
  get_resource (raised e) refresh s = (raised e, s)

  -- `Secrets.get`
  unfoldable pub get : String → String → Bool → Secrets → Attempt String × Secrets
  unfolding resource_name get_at lookup
  get name version refresh s = get_resource (resource_name s.project name version) refresh s

  -- `Secrets.get_as`
  unfoldable pub get_as {ℓ} :
      {T : Type ℓ} → (String → T) → String → String → Bool → Secrets → Attempt T × Secrets
  unfolding get
  get_as as_type name version refresh s =
      let (value, after) = get name version refresh s in
      (value >>= λ v. returned (as_type v), after)

  -- `SecretResolver.__call__`
  unfoldable pub resolve {ℓ} :
      {T : Type ℓ} → (String → T) → String → String → Bool → Secrets → Attempt T × Secrets
  unfolding get_as
  resolve as_type name version refresh s = get_as as_type name version refresh s
