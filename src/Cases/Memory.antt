-- ===== src/Cases/Memory.antt =====
-- app/cluster/cases.py, `InMemoryCaseStore`: a dict from proposal ids to cases.
pub mod Listing
use mathlib.Core.Option
use adk_a2a_gke.Prelude.{
  ℕ, String, ◌≡◌, Bool, true, false, Option, none, some, List, [], ◌∷◌, arith, ◌==◌, eq_iff, leb,
  if◌then◌else◌, Dict, lookup, insert, values, lookup-insert, or_default, Option-cases, inl, inr,
}
use adk_a2a_gke.Json.{Fields}
use adk_a2a_gke.Cases.Case.{
  is_pending, text, DecisionOutcome, recorded, not_found, already_decided, ApprovalCase, decided,
  closed,
}
use adk_a2a_gke.Cases.Store.{CaseStore, IsCaseStore, decide_case, decide_reply}

abbrev pub Cases : Type 0 → Type 0
Cases N = Dict (ApprovalCase N)

module _ {N : Type 0} where
  open_case : ApprovalCase N → Cases N → Bool × Cases N
  open_case c s = elim (lookup c.proposal_id s) [
    | some _ ↦ (false, s)
    | none ↦ (true, insert c.proposal_id c s)
  ]

  get : String → Cases N → Option (ApprovalCase N)
  get k s = lookup k s

  -- the generator of `list_by_status`
  with_status : String → List (ApprovalCase N) → List (ApprovalCase N)
  with_status status [] = []
  with_status status (c ∷ cs) =
      let rest = with_status status cs in if text c.status == status then c ∷ rest else rest

  -- `sorted(…, key=lambda c: c.created_at)`, which is stable
  insert_by_age : ApprovalCase N → List (ApprovalCase N) → List (ApprovalCase N)
  insert_by_age c [] = c ∷ []
  insert_by_age c (d ∷ ds) =
      let later = insert_by_age c ds in
      if leb c.created_at d.created_at then c ∷ d ∷ ds else d ∷ later

  sort_by_age : List (ApprovalCase N) → List (ApprovalCase N)
  unfolding insert_by_age
  sort_by_age [] = []
  sort_by_age (c ∷ cs) = insert_by_age c (sort_by_age cs)

  unfoldable pub list_by_status : String → Cases N → List (ApprovalCase N)
  unfolding sort_by_age with_status
  list_by_status status s = sort_by_age (with_status status (values s))

  -- The object in the dict is changed in place, and returned.
  decide :
      String
      → Bool
      → String
      → String
      → ℕ
      → Cases N
      → (DecisionOutcome × Option (ApprovalCase N)) × Cases N
  unfolding get
  decide k yes_ by note now s = elim (get k s) [
    | none ↦ ((not_found, none), s)
    | some c ↦
        if is_pending c.status
        then (
          (recorded, some (decided yes_ by note now c)),
          insert k (decided yes_ by note now c) s,
        )
        else ((already_decided, some c), s)
  ]

  record_execution : String → Bool → Fields N → ℕ → Cases N → Option (ApprovalCase N) × Cases N
  record_execution k done result now s = elim (get k s) [
    | none ↦ (none, s)
    | some c ↦ (some (closed done result now c), insert k (closed done result now c) s)
  ]

  unfoldable pub memory : CaseStore N (Cases N)
  unfolding open_case get list_by_status decide record_execution
  memory = record {
    open_case = open_case;
    get = get;
    list_by_status = list_by_status;
    decide = decide;
    record_execution = record_execution;
  }

  get-open :
      (j : String) (c : ApprovalCase N) (s : Cases N)
      → get j (open_case c s).1
        ≡ (if c.proposal_id == j then some (or_default (get j s) c) else get j s)
  unfolding get open_case
  get-open j c s = ground (arith, lookup-insert j c.proposal_id c s, eq_iff c.proposal_id j)

  get-decide :
      (j k : String) (yes_ : Bool) (by note : String) (now : ℕ) (s : Cases N)
      → get j (decide k yes_ by note now s).1
        ≡ (if k == j then Option.map (decide_case yes_ by note now) (get j s) else get j s)
  unfolding get decide decide_case
  get-decide j k yes_ by note now s = elim (Option-cases (lookup k s)) [
    | inl e ↦ ground (arith, eq_iff k j)
    | inr (c, e) ↦ ground (arith, lookup-insert j k (decided yes_ by note now c) s, eq_iff k j)
  ]

  get-record :
      (j k : String) (done : Bool) (result : Fields N) (now : ℕ) (s : Cases N)
      → get j (record_execution k done result now s).1
        ≡ (if k == j then Option.map (closed done result now) (get j s) else get j s)
  unfolding get record_execution
  get-record j k done result now s = elim (Option-cases (lookup k s)) [
    | inl e ↦ ground (arith, eq_iff k j)
    | inr (c, e) ↦ ground (arith, lookup-insert j k (closed done result now c) s, eq_iff k j)
  ]

  decide_answer :
      (k : String) (yes_ : Bool) (by note : String) (now : ℕ) (s : Cases N)
      → (decide k yes_ by note now s).0 ≡ decide_reply yes_ by note now (get k s)
  unfolding get decide decide_reply
  decide_answer k yes_ by note now s = ground arith

  -- `InMemoryCaseStore` keeps the contract of `CaseStore`: each operation answers as `decide_reply`
  -- and `closed` say, and `get` then shows the effect at the id of the call and no change at any
  -- other.
  pub memory-IsCaseStore : IsCaseStore memory
  unfolding memory
  memory-IsCaseStore = record {
    open_reply = λ c s. unfold open_case get in ground arith;
    get-open = λ j c s _. get-open j c s;
    decide_answer = decide_answer;
    get-decide = get-decide;
    record_answer = λ k done result now s. unfold record_execution get in ground arith;
    get-record = get-record;
  }
