-- ===== src/Cases/Table.antt =====
-- app/cluster/cases.py, `DatabaseCaseStore`: the table `approval_cases`, its rows and the store
-- over it. SQLAlchemy and the database behind it are a parameter, `Engine`; what the code relies
-- on is in `IsEngine`: a statement that is not refused acts on the rows that its WHERE clause
-- selects, and a timestamp is read back with its offset (PostgreSQL) or without it (SQLite). A
-- JSON column hands an object back in the database's form (JSONB keeps no order of the keys), and
-- an INSERT or UPDATE may raise, as for a text that is too long for its column.
pub mod Contract
use mathlib.Core.Option
use adk_a2a_gke.Prelude.{
  ℕ, String, ◌≡◌, ◌⊎◌, Bool, true, false, Option, none, some, List, map, ◌==◌, if◌then◌else◌,
  or_default,
}
use adk_a2a_gke.Json.{Fields, end}
use adk_a2a_gke.Cases.Case.{
  Status, approved, rejected, executed, failed, is_pending, DecisionOutcome, recorded, not_found,
  already_decided, ApprovalCase,
}

-- A `datetime`, without an offset or in UTC.
pub data Stamp : Type 0 where
  naive aware : ℕ → Stamp

-- The columns of `CASES`.
pub record Row (N : Type 0) : Type 0 where
  pub proposal_id : String
  pub case_id : String
  pub agent : String
  pub action : String
  pub summary : String
  pub proposal : Option (Fields N)
  pub status : Status
  pub session_id : String
  pub decided_by : String
  pub note : String
  pub result : Option (Fields N)
  pub created_at : Stamp
  pub decided_at : Option Stamp
  pub executed_at : Option Stamp

-- `_as_utc` on a timestamp that is there
unfoldable pub moment : Stamp → ℕ
moment (naive t) = t
moment (aware t) = t

unfoldable pub as_utc : Option Stamp → Option ℕ
unfolding moment
as_utc none = none
as_utc (some t) = some (moment t)

module _ {N : Type 0} where
  unfoldable pub row_to_case : Row N → ApprovalCase N
  unfolding moment as_utc
  row_to_case r = record {
    case_id = r.case_id;
    proposal_id = r.proposal_id;
    agent = r.agent;
    action = r.action;
    summary = r.summary;
    proposal = or_default r.proposal end;
    status = r.status;
    session_id = r.session_id;
    decided_by = r.decided_by;
    note = r.note;
    result = r.result;
    created_at = moment r.created_at;
    decided_at = as_utc r.decided_at;
    executed_at = as_utc r.executed_at;
  }

  -- The row that `open` inserts; the columns that it leaves out are NULL.
  unfoldable pub new_row : ApprovalCase N → Row N
  new_row c = record {
    proposal_id = c.proposal_id;
    case_id = c.case_id;
    agent = c.agent;
    action = c.action;
    summary = c.summary;
    proposal = some c.proposal;
    status = c.status;
    session_id = c.session_id;
    decided_by = c.decided_by;
    note = c.note;
    result = none;
    created_at = aware c.created_at;
    decided_at = none;
    executed_at = none;
  }

  unfoldable pub with_decision : Bool → String → String → ℕ → Row N → Row N
  with_decision yes_ by note now r = record r {
    status = if yes_ then approved else rejected;
    decided_by = by;
    note = note;
    decided_at = some (aware now);
  }

  unfoldable pub with_execution : Bool → Fields N → ℕ → Row N → Row N
  with_execution succeeded result now r = record r {
    status = if succeeded then executed else failed;
    result = some result;
    executed_at = some (aware now);
  }

  -- A row as a driver hands it over, which treats each timestamp by `read`, and each object of a
  -- JSON column by `keep`.
  unfoldable pub read_row : (Stamp → Stamp) → (Fields N → Fields N) → Row N → Row N
  read_row read keep r = record r {
    proposal = Option.map keep r.proposal;
    result = Option.map keep r.result;
    created_at = read r.created_at;
    decided_at = Option.map read r.decided_at;
    executed_at = Option.map read r.executed_at;
  }

-- The statements that the store sends, on a database `T`. `update k test change` is an UPDATE of
-- the row with that proposal id, if it passes `test`, RETURNING the row. `none` is a statement that
-- raises, whose transaction is rolled back.
pub record Engine (N T : Type 0) : Type 0 where
  pub read : Stamp → Stamp
  pub keep : Fields N → Fields N
  pub stored : String → T → Option (Row N)
  pub select_id : String → T → Option (Row N)
  pub select_status : String → T → List (Row N)
  pub insert : Row N → T → Option T
  pub update : String → (Row N → Bool) → (Row N → Row N) → T → Option (Option (Row N) × T)

abbrev pub updated : {N : Type 0} → (Row N → Bool) → (Row N → Row N) → Row N → Row N
updated test change r = if test r then change r else r

abbrev pub returned :
    {N : Type 0}
    → (Row N → Row N)
    → (Row N → Bool)
    → (Row N → Row N)
    → Option (Row N)
    → Option (Row N)
returned handed test change none = none
returned handed test change (some r) = if test r then some (handed (change r)) else none

pub record IsEngine {N T : Type 0} (e : Engine N T) : Type 0 where
  pub read-aware : (t : ℕ) → (e.read (aware t) ≡ aware t) ⊎ (e.read (aware t) ≡ naive t)
  pub select_id-stored :
      (k : String) (t : T) → e.select_id k t ≡ Option.map (read_row e.read e.keep) (e.stored k t)
  pub stored-insert :
      (j : String) (r : Row N) (t t' : T)
      → e.stored r.proposal_id t ≡ none
      → e.insert r t ≡ some t'
      → e.stored j t' ≡ (if r.proposal_id == j then some r else e.stored j t)
  pub stored-update :
      (j k : String) (test : Row N → Bool) (change : Row N → Row N) (t t' : T)
      (row : Option (Row N))
      → ((r : Row N) → (change r).proposal_id ≡ r.proposal_id)
      → e.update k test change t ≡ some (row, t')
      → e.stored j t'
        ≡ (if k == j then Option.map (updated test change) (e.stored j t) else e.stored j t)
  pub update_answer :
      (k : String) (test : Row N → Bool) (change : Row N → Row N) (t t' : T) (row : Option (Row N))
      → e.update k test change t ≡ some (row, t')
      → row ≡ returned (read_row e.read e.keep) test change (e.stored k t)

module _ {N T : Type 0} (e : Engine N T) where
  -- `none` is a call that raises.
  unfoldable pub open_case : ApprovalCase N → T → Option (Bool × T)
  open_case c t = elim (e.select_id c.proposal_id t) [
    | some _ ↦ some (false, t)
    | none ↦ Option.map (λ t'. (true, t')) (e.insert (new_row c) t)
  ]

  unfoldable pub get : String → T → Option (ApprovalCase N)
  get k t = Option.map row_to_case (e.select_id k t)

  unfoldable pub list_by_status : String → T → List (ApprovalCase N)
  list_by_status status t = map row_to_case (e.select_status status t)

  -- the SELECT after an UPDATE that hit no row
  unfoldable pub decided_already : Option (Row N) → DecisionOutcome × Option (ApprovalCase N)
  decided_already none = (not_found, none)
  decided_already (some r) = (already_decided, some (row_to_case r))

  unfoldable pub decide :
      String
      → Bool
      → String
      → String
      → ℕ
      → T
      → Option ((DecisionOutcome × Option (ApprovalCase N)) × T)
  unfolding decided_already
  decide k yes_ by note now t =
      elim (e.update k (λ r. is_pending r.status) (with_decision yes_ by note now) t) [
        | none ↦ none
        | some (some r, t') ↦ some ((recorded, some (row_to_case r)), t')
        | some (none, t') ↦ some (decided_already (e.select_id k t'), t')
      ]

  unfoldable pub record_execution :
      String → Bool → Fields N → ℕ → T → Option (Option (ApprovalCase N) × T)
  record_execution k done result now t =
      Option.map (λ (row, t'). (Option.map row_to_case row, t'))
        (e.update k (λ _. true) (with_execution done result now) t)
