-- ===== src/Schemas/Granted.antt =====
-- scripts/grant_readers.py: which statements are executed.
use mathlib.Core.Path.{subst}
use adk_a2a_gke.Prelude.{
  ◌≤◌, String, ◌≡◌, refl, sym, ◌∙◌, Bool, true, false, ltb, ◌==◌, List, [], ◌∷◌, All, All-append,
  All-map, All-In, In, inl, inr, Env, env_get, returned, ◌>>=◌, bind-returned, returned_injective,
  arith, Bool-cases,
}
use adk_a2a_gke.Text.{split, strip}
use adk_a2a_gke.Cluster.Config.{Integers}
use adk_a2a_gke.Cluster.Database.{Letters, Checked, accepted, refused, build_database, enabled}
use adk_a2a_gke.Schemas.Identifiers.{is_identifier, is_principal, utf8_length}
use adk_a2a_gke.Schemas.Grants.{
  validate, validate_all, words, Grant, usage, select, default_select, grants_on, grants,
  if_enabled, for_schemas, for_readers, grant_readers,
}

-- A name that a pattern accepts and that PostgreSQL does not shorten.
pub record IsName (pattern : String → Bool) (name : String) : Type 0 where
  pub matches : pattern name ≡ true
  pub short : utf8_length name ≤ 63

-- a statement about a schema and a reader
abbrev pub schema_of : Grant → String
schema_of (usage schema reader) = schema
schema_of (select schema reader) = schema
schema_of (default_select schema reader) = schema

abbrev pub reader_of : Grant → String
reader_of (usage schema reader) = reader
reader_of (select schema reader) = reader
reader_of (default_select schema reader) = reader

validate-IsName :
    (pattern : String → Bool) (value name : String)
    → validate pattern value ≡ returned name
    → IsName pattern name
unfolding validate
validate-IsName pattern value name e = elim (Bool-cases (pattern value)) [
  | inr bad ↦ absurd (ground (arith, e, bad))
  | inl good ↦ elim (Bool-cases (ltb 63 (utf8_length value))) [
    | inl long ↦ absurd (ground (arith, e, good, long))
    | inr fits ↦
        subst (IsName pattern) (returned_injective value name (ground (arith, e, good, fits)))
          (record { matches = good; short = ground (arith, fits) })
  ]
]

validate_all-cons :
    (pattern : String → Bool) (item : String) (items : List String)
    → (strip item == "") ≡ false
    → validate_all pattern (item ∷ items) ≡ (
        validate pattern (strip item) >>= λ value.
        validate_all pattern items >>= λ values. returned (value ∷ values))
unfolding validate_all
validate_all-cons pattern item items full = rw (full, validate_all) refl

validate_all-IsName :
    (pattern : String → Bool) (items names : List String)
    → validate_all pattern items ≡ returned names
    → All (IsName pattern) names
unfolding validate_all
validate_all-IsName pattern [] names e =
    subst (All (IsName pattern)) (returned_injective [] names e) tt
validate_all-IsName pattern (item ∷ items) names e = elim (Bool-cases (strip item == "")) [
  | inl blank ↦ validate_all-IsName pattern items names (ground (arith, e, blank))
  | inr full ↦
      let (name, a, rest) =
        bind-returned (validate pattern (strip item)) _ names
          (sym (validate_all-cons pattern item items full) ∙ e) in
      let (others, b, last) = bind-returned (validate_all pattern items) _ names rest in
      subst (All (IsName pattern)) (returned_injective (name ∷ others) names last)
        (validate-IsName pattern (strip item) name a, validate_all-IsName pattern items others b)
]

-- A grant of one of the schemas to one of the readers.
abbrev pub IsFor : List String → List String → Grant → Type 0
IsFor schemas readers g = In (schema_of g) schemas × In (reader_of g) readers

IsFor-reader :
    (schemas readers : List String) (reader : String) (g : Grant)
    → IsFor schemas readers g
    → IsFor schemas (reader ∷ readers) g
IsFor-reader schemas readers reader g (i, j) = (i, inr j)

IsFor-schema :
    (schemas readers : List String) (schema : String) (g : Grant)
    → IsFor schemas readers g
    → IsFor (schema ∷ schemas) readers g
IsFor-schema schemas readers schema g (i, j) = (inr i, j)

grants_on-IsFor :
    (schema : String) (schemas readers : List String)
    → All (IsFor (schema ∷ schemas) readers) (grants_on schema readers)
unfolding grants_on
grants_on-IsFor schema schemas [] = tt
grants_on-IsFor schema schemas (reader ∷ readers) =
    let rest =
      All-map _ _ (IsFor-reader (schema ∷ schemas) readers reader) (grants_on schema readers)
        (grants_on-IsFor schema schemas readers) in
    ((inl refl, inl refl), ((inl refl, inl refl), ((inl refl, inl refl), rest)))

grants-IsFor :
    (schemas readers : List String) → All (IsFor schemas readers) (grants schemas readers)
unfolding grants
grants-IsFor [] readers = tt
grants-IsFor (schema ∷ schemas) readers =
    All-append _ (grants_on schema readers) (grants schemas readers)
      (grants_on-IsFor schema schemas readers)
      (All-map _ _ (IsFor-schema schemas readers schema) (grants schemas readers)
        (grants-IsFor schemas readers))

-- Both names of a statement are fit for one.
abbrev pub IsFit : Grant → Type 0
IsFit g = IsName is_identifier (schema_of g) × IsName is_principal (reader_of g)

module _ (z : Integers) (letters : Letters) (env : Env) where
  enabled-grants :
      (c : Checked) (gs hs : List Grant) → if_enabled z letters env c gs ≡ returned hs → gs ≡ hs
  unfolding enabled
  enabled-grants (refused x) gs hs e = absurd (cc e)
  enabled-grants (accepted c) gs hs e = elim (Bool-cases (c.backend == "none")) [
    | inl off ↦ absurd (ground (arith, e, off))
    | inr on ↦ returned_injective gs hs (ground (arith, e, on))
  ]

  fit :
      (schemas readers : List String)
      → All (IsName is_identifier) schemas
      → All (IsName is_principal) readers
      → All IsFit (grants schemas readers)
  fit schemas readers s r =
      All-map (IsFor schemas readers) IsFit
        (λ g (i, j). (All-In _ schemas (schema_of g) s i, All-In _ readers (reader_of g) r j))
        (grants schemas readers) (grants-IsFor schemas readers)

  for_schemas-IsFit :
      (schemas readers : List String) (gs : List Grant)
      → All (IsName is_identifier) schemas
      → All (IsName is_principal) readers
      → for_schemas z letters env schemas readers ≡ returned gs
      → All IsFit gs
  for_schemas-IsFit [] readers gs s r e = absurd (cc e)
  for_schemas-IsFit (schema ∷ schemas) readers gs s r e =
      subst (All IsFit)
        (enabled-grants (build_database z letters env) (grants (schema ∷ schemas) readers) gs e)
        (fit (schema ∷ schemas) readers s r)

  -- Every statement that `grant_readers` executes names a schema and a reader that the patterns
  -- accept and that have at most 63 bytes in UTF-8, whatever the environment says.
  pub grant_readers_bounded :
      (gs : List Grant) → grant_readers z letters env ≡ returned gs → All IsFit gs
  unfolding grant_readers
  grant_readers_bounded gs e =
      let (readers, r, rest) =
        bind-returned (validate_all is_principal (split 44 (env_get env "DB_READERS" ""))) _ gs e in
      go readers
        (validate_all-IsName is_principal (split 44 (env_get env "DB_READERS" "")) readers r) rest
    where
      schema_items : List String
      schema_items = words (env_get env "DB_READER_SCHEMAS" "")

      go :
          (readers : List String)
          → All (IsName is_principal) readers
          → for_readers z letters env
              (validate_all is_identifier (words (env_get env "DB_READER_SCHEMAS" "")))
              readers
            ≡ returned gs
          → All IsFit gs
      go [] r f = subst (All IsFit) (returned_injective [] gs f) tt
      go (reader ∷ readers) r f =
          let (schemas, s, last) =
            bind-returned (validate_all is_identifier schema_items)
              (λ schemas. for_schemas z letters env schemas (reader ∷ readers)) gs f in
          for_schemas-IsFit schemas (reader ∷ readers) gs
            (validate_all-IsName is_identifier schema_items schemas s) r last
