-- ===== src/Schemas/Grants.antt =====
-- scripts/grant_readers.py: the statements that give readers access to the agents' schemas. How
-- the dialect quotes an identifier is a parameter.
use Prim.Native.Char.{Char, code}
use Prim.Native.String.{[], ◌∷◌}
use adk_a2a_gke.Prelude.{
  String, Bool, not, ◌==◌, eqb, ltb, if◌then◌else◌, List, ◌++◌, Env, env_get, Attempt, returned,
  raised, value_error, ◌>>=◌,
}
use adk_a2a_gke.Text.{strip, split, concat, is_space}
use adk_a2a_gke.Cluster.Config.{Integers}
use adk_a2a_gke.Cluster.Database.{Letters, Checked, accepted, refused, build_database, enabled}
use adk_a2a_gke.Schemas.Identifiers.{is_identifier, is_principal, utf8_length}

unfoldable pub validate : (String → Bool) → String → Attempt String
unfolding utf8_length
validate pattern value =
    if not (pattern value)
    then raised value_error
    else if ltb 63 (utf8_length value)
    then raised value_error
    else returned value

-- `[_validate(item.strip(), ...) for item in items if item.strip()]`
unfoldable pub validate_all : (String → Bool) → List String → Attempt (List String)
unfolding validate strip
validate_all pattern List.[] = returned List.[]
validate_all pattern (List.◌∷◌ item items) =
    let rest = validate_all pattern items in
    if strip item == ""
    then rest
    else (validate pattern (strip item) >>= λ value.
        rest >>= λ values. returned (List.◌∷◌ value values))

-- `s.split()` after `s.replace(",", " ")`, with the empty texts that the comprehension drops
unfoldable pub words : String → List String
words [] = List.◌∷◌ "" List.[]
words (c ∷ s) =
    let rest = words s in
    if eqb (code c) 44
    then List.◌∷◌ "" rest
    else if is_space c
    then List.◌∷◌ "" rest
    else onto c rest
  where
    onto : Char → List String → List String
    onto c List.[] = List.◌∷◌ (c ∷ "") List.[]
    onto c (List.◌∷◌ t ts) = List.◌∷◌ (c ∷ t) ts

-- A statement that is executed, for a schema and a reader.
pub data Grant : Type 0 where
  usage select default_select : String → String → Grant

unfoldable pub grant_text : (String → String) → Grant → String
unfolding concat
grant_text quote (usage schema reader) = concat (
    List.◌∷◌ "GRANT USAGE ON SCHEMA "
      (List.◌∷◌ (quote schema) (List.◌∷◌ " TO " (List.◌∷◌ (quote reader) List.[]))))
grant_text quote (select schema reader) = concat (
    List.◌∷◌ "GRANT SELECT ON ALL TABLES IN SCHEMA "
      (List.◌∷◌ (quote schema) (List.◌∷◌ " TO " (List.◌∷◌ (quote reader) List.[]))))
grant_text quote (default_select schema reader) = concat (
    List.◌∷◌ "ALTER DEFAULT PRIVILEGES IN SCHEMA " (
      List.◌∷◌ (quote schema)
        (List.◌∷◌ " GRANT SELECT ON TABLES TO " (List.◌∷◌ (quote reader) List.[]))))

-- the inner loop
unfoldable pub grants_on : String → List String → List Grant
grants_on schema List.[] = List.[]
grants_on schema (List.◌∷◌ reader readers) = List.◌∷◌ (usage schema reader) (
    List.◌∷◌ (select schema reader)
      (List.◌∷◌ (default_select schema reader) (grants_on schema readers)))

unfoldable pub grants : List String → List String → List Grant
unfolding grants_on
grants List.[] readers = List.[]
grants (List.◌∷◌ schema schemas) readers = grants_on schema readers ++ grants schemas readers

module _ (z : Integers) (letters : Letters) (env : Env) where
  abbrev pub if_enabled : Checked → List Grant → Attempt (List Grant)
  if_enabled (refused e) gs = raised value_error
  if_enabled (accepted c) gs = if not (enabled c) then raised value_error else returned gs

  abbrev pub for_schemas : List String → List String → Attempt (List Grant)
  for_schemas List.[] readers = raised value_error
  for_schemas (List.◌∷◌ schema schemas) readers =
      if_enabled (build_database z letters env) (grants (List.◌∷◌ schema schemas) readers)

  abbrev pub for_readers : Attempt (List String) → List String → Attempt (List Grant)
  for_readers schemas List.[] = returned List.[]
  for_readers schemas (List.◌∷◌ reader readers) =
      schemas >>= λ schemas. for_schemas schemas (List.◌∷◌ reader readers)

  -- the statements of `grant_readers` in order, or that it raises before it executes any
  unfoldable pub grant_readers : Attempt (List Grant)
  unfolding validate_all split words is_identifier is_principal grants build_database enabled
  grant_readers = validate_all is_principal (split 44 (env_get env "DB_READERS" "")) >>= λ readers.
      for_readers (validate_all is_identifier (words (env_get env "DB_READER_SCHEMAS" ""))) readers
