-- ===== src/Tests/Engines.antt =====
-- A database of one table, kept as a dict from proposal ids to rows, that forgets offsets as SQLite
-- does; and a JSON codec that knows one object, which it writes as a single brace.
use Prim.Native.Char.{code}
use Prim.Native.String.{count}
use mathlib.Core.Option
use package.text.Mathlib.TextLemmas.{length-cons}
use adk_a2a_gke.Prelude.{
  sym, ap, ◌∙◌, ℕ, ◌<◌, String, ◌≡◌, refl, inl, inr, Bool, Option, none, some, List, arith, ◌==◌,
  eqb, eq_iff, if◌then◌else◌, Option-cases, Dict, lookup, insert, lookup-insert, values,
}
use adk_a2a_gke.Json.{Json, obj, Fields, Number, Codec}
use adk_a2a_gke.Cases.Case.{text}
use adk_a2a_gke.Cases.Replies.Scan.{IsConsuming}
use adk_a2a_gke.Cases.Table.{
  Stamp, naive, aware, Row, read_row, Engine, IsEngine, updated, returned,
}
use mathlib.Core.Option.{some-injective}
use mathlib.Core.Path.{subst}

abbrev Rows : Type 0
Rows = Dict (Row ℕ)

with_status : String → List (Row ℕ) → List (Row ℕ)
with_status status List.[] = List.[]
with_status status (List.◌∷◌ r rs) =
    let rest = with_status status rs in if text r.status == status then List.◌∷◌ r rest else rest

forget : Stamp → Stamp
forget (naive t) = naive t
forget (aware t) = naive t

-- a JSON column of SQLite is its text, which keeps the order
handed : Row ℕ → Row ℕ
handed = read_row forget (λ fs. fs)

update : String → (Row ℕ → Bool) → (Row ℕ → Row ℕ) → Rows → Option (Row ℕ) × Rows
update k test change t = elim (lookup k t) [
  | none ↦ (none, t)
  | some r ↦ if test r then (some (handed (change r)), insert k (change r) t) else (none, t)
]

abbrev pub sqlite : Engine ℕ Rows
unfolding update with_status forget handed
sqlite = record {
  read = forget;
  keep = λ fs. fs;
  stored = lookup;
  select_id = λ k t. Option.map handed (lookup k t);
  select_status = λ status t. with_status status (values t);
  insert = λ r t. some (insert r.proposal_id r t);
  update = λ k test change t. some (update k test change t);
}

stored-update :
    (j k : String) (test : Row ℕ → Bool) (change : Row ℕ → Row ℕ) (t : Rows)
    → lookup j (update k test change t).1
      ≡ (if k == j then Option.map (updated test change) (lookup j t) else lookup j t)
unfolding update
stored-update j k test change t = elim (Option-cases (lookup k t)) [
  | inl e ↦ ground (arith, e, eq_iff k j)
  | inr (r, e) ↦ ground (arith, e, eq_iff k j, lookup-insert j k (change r) t)
]

update_answer :
    (k : String) (test : Row ℕ → Bool) (change : Row ℕ → Row ℕ) (t : Rows)
    → (update k test change t).0 ≡ returned handed test change (lookup k t)
unfolding update
update_answer k test change t = ground arith

pub sqlite-IsEngine : IsEngine sqlite
unfolding update with_status forget handed
sqlite-IsEngine = record {
  read-aware = λ t. inr refl;
  select_id-stored = λ k t. refl;
  stored-insert = λ j r t t' _ w.
      subst (λ x. lookup j x ≡ (if r.proposal_id == j then some r else lookup j t))
        (some-injective _ t' w) (lookup-insert j r.proposal_id r t);
  stored-update = λ j k test change t t' row _ w.
      subst
        (λ x.
          lookup j x
          ≡ (if k == j then Option.map (updated test change) (lookup j t) else lookup j t))
        (ap (λ x. x.1) (some-injective _ (row, t') w)) (stored-update j k test change t);
  update_answer = λ k test change t t' row w.
      sym (ap (λ x. x.0) (some-injective _ (row, t') w)) ∙ update_answer k test change t;
}

abbrev pub numbers : Number ℕ
numbers = record {
  same = λ a b. eqb a b;
  of_bool = λ b. if b then 1 else 0;
  truthy = λ n. if eqb n 0 then Bool.false else Bool.true;
}

one_object : Fields ℕ → String → Option (Json ℕ × String)
one_object fs String.[] = none
one_object fs (String.◌∷◌ c s) = if eqb (code c) b'{' then some (obj fs, s) else none

-- The object `fs`, written as a brace.
unfoldable pub brace : Fields ℕ → Codec ℕ
unfolding one_object
brace fs = record {
  dumps = λ _. "{";
  dumps_sorted = λ _. "{";
  to_text = λ _. "";
  raw_decode = one_object fs;
}

one_object_shrinks :
    (fs : Fields ℕ) (s : String) (v : Json ℕ) (rest : String)
    → one_object fs s ≡ some (v, rest)
    → count rest < count s
unfolding one_object
one_object_shrinks fs String.[] v rest e = ground arith
one_object_shrinks fs (String.◌∷◌ c s) v rest e = ground (arith, length-cons c s)

pub brace-IsConsuming : (fs : Fields ℕ) → IsConsuming (brace fs)
unfolding one_object brace
brace-IsConsuming fs = record { shrinks = one_object_shrinks fs }
