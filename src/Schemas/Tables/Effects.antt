-- ===== src/Schemas/Tables/Effects.antt =====
-- What PostgreSQL documents of the operations in a revision, on the tables and functions of a
-- schema: an operation that finds what it creates, misses what it changes, or drops what something
-- else still needs, is refused.
use adk_a2a_gke.Prelude.{
  String, Bool, true, false, ◌==◌, if◌then◌else◌, Option, none, some, List, [], ◌∷◌, ◌++◌, Attempt,
  returned, raised, foreign, ◌>>=◌,
}
use adk_a2a_gke.Schemas.Tables.{
  Constraint, primary_key, unique, one_of, foreign_key, Index, Table, Statement, insert_row,
  create_touch_function, create_trigger, drop_trigger_if_exists, drop_function_if_exists, Operation,
  create_table, drop_table, create_index, drop_index, execute,
}

-- A table with what stands on it: rows by their keys, triggers with their functions, and the tables
-- whose foreign keys refer to it.
pub record Stored : Type 0 where
  pub table : Table
  pub rows : List (String × String)
  pub triggers : List (String × String)
  pub referrers : List String

-- Tables and indexes share their names; an index is on a table.
pub data Relation : Type 0 where
  stored : Stored → Relation
  index_on : String → Relation

-- A function is there with the triggers that use it.
pub record Objects : Type 0 where
  pub relations : String → Option Relation
  pub functions : String → Option (List String)

abbrev pub put {ℓ} : {A : Type ℓ} → String → Option A → (String → Option A) → String → Option A
put name value s = λ t. if name == t then value else s t

abbrev pub keyed : String → List (String × String) → Bool
keyed k [] = false
keyed k ((j, _) ∷ rows) = let rest = keyed k rows in if j == k then true else rest

abbrev pub unkeyed : String → List (String × String) → List (String × String)
unkeyed k [] = []
unkeyed k ((j, v) ∷ rows) = let rest = unkeyed k rows in if j == k then rest else (j, v) ∷ rest

abbrev pub without_name : String → List String → List String
without_name n [] = []
without_name n (m ∷ ms) = let rest = without_name n ms in if m == n then rest else m ∷ rest

abbrev pub has_index : String → List Index → Bool
has_index name [] = false
has_index name (ix ∷ ixs) = let rest = has_index name ixs in if ix.name == name then true else rest

abbrev pub without_index : String → List Index → List Index
without_index name [] = []
without_index name (ix ∷ ixs) =
    let rest = without_index name ixs in if ix.name == name then ixs else ix ∷ rest

-- the tables that foreign keys refer to
abbrev pub references : List Constraint → List String
references [] = []
references (foreign_key _ table _ _ ∷ cs) = table ∷ references cs
references (primary_key _ ∷ cs) = references cs
references (unique _ _ ∷ cs) = references cs
references (one_of _ _ _ ∷ cs) = references cs

abbrev pub store : String → Stored → Objects → Objects
store name s o = record o { relations = put name (some (stored s)) o.relations }

abbrev pub forget : String → Objects → Objects
forget name o = record o { relations = put name none o.relations }

abbrev pub forget_all : List Index → Objects → Objects
forget_all [] o = o
forget_all (ix ∷ ixs) o = forget_all ixs (forget ix.name o)

-- a table refers to others from now on, which must be there, or no longer
abbrev pub refer : String → List String → Objects → Attempt Objects
refer name [] o = returned o
refer name (other ∷ others) o = elim (o.relations other) [
  | some (stored s) ↦
      refer name others (store other (record s { referrers = name ∷ s.referrers }) o)
  | _ ↦ raised foreign
]

abbrev pub release : String → List String → Objects → Objects
release name [] o = o
release name (other ∷ others) o = elim (o.relations other) [
  | some (stored s) ↦
      release name others (store other (record s { referrers = without_name name s.referrers }) o)
  | _ ↦ release name others o
]

-- The functions are no longer used by the triggers.
abbrev pub detach : List (String × String) → Objects → Objects
detach [] o = o
detach ((trigger, function) ∷ triggers) o = elim (o.functions function) [
  | none ↦ detach triggers o
  | some users ↦
      detach triggers
        (record o { functions = put function (some (without_name trigger users)) o.functions })
]

abbrev pub at_table : String → (Stored → Attempt Objects) → Objects → Attempt Objects
at_table name f o = elim (o.relations name) [ some (stored s) ↦ f s | _ ↦ raised foreign ]

abbrev pub executed : Statement → Objects → Attempt Objects
executed (insert_row name key value) o =
    at_table name
      (λ s.
        if keyed key s.rows
        then raised foreign
        else returned (store name (record s { rows = (key, value) ∷ s.rows }) o))
      o
executed (create_touch_function name) o = elim (o.functions name) [
  | none ↦ returned (record o { functions = put name (some []) o.functions })
  | some _ ↦ raised foreign
]
executed (create_trigger trigger name function) o =
    at_table name
      (λ s. elim (o.functions function) [
        | none ↦ raised foreign
        | some users ↦
            if keyed trigger s.triggers
            then raised foreign
            else returned
                (record (store name (record s { triggers = (trigger, function) ∷ s.triggers }) o) {
                  functions = put function (some (trigger ∷ users)) o.functions;
                })
      ])
      o
executed (drop_trigger_if_exists trigger name) o = elim (o.relations name) [
  | some (stored s) ↦ returned (
      detach (dropped s.triggers)
        (store name (record s { triggers = unkeyed trigger s.triggers }) o))
  | _ ↦ returned o
]
  where
    dropped : List (String × String) → List (String × String)
    dropped [] = []
    dropped ((t, f) ∷ ts) = let rest = dropped ts in if t == trigger then (t, f) ∷ rest else rest
executed (drop_function_if_exists name) o = elim (o.functions name) [
  | none ↦ returned o
  | some [] ↦ returned (record o { functions = put name none o.functions })
  | some (_ ∷ _) ↦ raised foreign
]

abbrev pub if_free : String → Objects → Attempt Objects → Attempt Objects
if_free name o next = elim (o.relations name) [ none ↦ next | some _ ↦ raised foreign ]

unfoldable pub effect : Operation → Objects → Attempt Objects
effect (create_table name table) o = if_free name o (
    refer name (references table.constraints) o >>= λ after.
    returned
      (store name (record { table = table; rows = []; triggers = []; referrers = [] }) after))
effect (drop_table name) o =
    at_table name
      (λ s. elim s.referrers [
        | _ ∷ _ ↦ raised foreign
        | [] ↦
            let freed = forget_all s.table.indexes (forget name o) in
            returned (detach s.triggers (release name (references s.table.constraints) freed))
      ])
      o
effect (create_index name ix) o = if_free ix.name o (
    at_table name
      (λ s.
        let table = record s.table { indexes = s.table.indexes ++ ix ∷ [] } in
        let indexed = record o { relations = put ix.name (some (index_on name)) o.relations } in
        returned (store name (record s { table = table }) indexed))
      o)
effect (drop_index ix name) o =
    at_table name
      (λ s.
        let table = record s.table { indexes = without_index ix s.table.indexes } in
        if has_index ix s.table.indexes
        then returned (store name (record s { table = table }) (forget ix o))
        else raised foreign)
      o
effect (execute statement) o = executed statement o

-- Alembic runs the operations of a revision in their order.
abbrev pub run : {S : Type 0} → (Operation → S → Attempt S) → List Operation → S → Attempt S
run apply [] s = returned s
run apply (op ∷ ops) s = apply op s >>= run apply ops
