-- ===== src/Cases/Table/Contract.antt =====
-- The table of `approval_cases` does what `CaseStore` promises (Cases/Store.antt), wherever the
-- database does not refuse a statement: the laws of the statements, seen through `_row_to_case`.
use mathlib.Core.Option
use adk_a2a_gke.Prelude.{
  ℕ, String, ◌≡◌, ◌⊎◌, Bool, true, Option, none, some, arith, ◌==◌, eq_iff, if◌then◌else◌, is_none,
  or_default, Option-cases, inl, inr, refl, eq_refl,
}
use adk_a2a_gke.Json.{Fields}
use adk_a2a_gke.Cases.Case.{is_pending, ApprovalCase, decided, closed}
use adk_a2a_gke.Cases.Store.{IsFresh, decide_case, decide_reply}
use adk_a2a_gke.Cases.Table.{
  aware, Row, moment, as_utc, row_to_case, new_row, with_decision, with_execution, decided_already,
  read_row, Engine, IsEngine, open_case, get, decide, record_execution,
}

module _ {N T : Type 0} (e : Engine N T) where
  -- A case whose objects went through a JSON column.
  abbrev pub kept : ApprovalCase N → ApprovalCase N
  kept c = record c { proposal = e.keep c.proposal; result = Option.map e.keep c.result }

  -- A fresh case that is opened: INSERT is refused and the call raises, or the answer is whether
  -- the id was unknown, and the case stands at its id, where none did, and nothing else changes.
  abbrev pub Opens : ApprovalCase N → T → Option (Bool × T) → Type 0
  Opens c t r =
      ((r ≡ none) × (e.insert (new_row c) t ≡ none) × (get e c.proposal_id t ≡ none))
      ⊎ ((t' : T) × (r ≡ some (is_none (get e c.proposal_id t), t'))
          × ((j : String)
              → get e j t' ≡ (
                  if c.proposal_id == j
                  then some (or_default (get e j t) (kept c))
                  else get e j t)))

  -- A call with one UPDATE, which is refused, or which answers and changes the case at an id.
  abbrev pub Updates :
      {A : Type 0}
      → Bool
      → A
      → String
      → (ApprovalCase N → ApprovalCase N)
      → T
      → Option (A × T)
      → Type 0
  Updates refused answer k change t r =
      ((r ≡ none) × (refused ≡ true))
      ⊎ ((t' : T) × (r ≡ some (answer, t'))
          × ((j : String)
              → get e j t' ≡ (if k == j then Option.map change (get e j t) else get e j t)))

  -- The contract of `CaseStore` for a table whose statements may be refused.
  pub record IsCaseTable : Type 0 where
    pub opens : (c : ApprovalCase N) (t : T) → IsFresh c → Opens c t (open_case e c t)
    pub decides :
        (k : String) (yes_ : Bool) (by note : String) (now : ℕ) (t : T)
        → Updates
            (is_none (e.update k (λ r. is_pending r.status) (with_decision yes_ by note now) t))
            (decide_reply yes_ by note now (get e k t))
            k
            (decide_case yes_ by note now)
            t
            (decide e k yes_ by note now t)
    pub records :
        (k : String) (done : Bool) (result : Fields N) (now : ℕ) (t : T)
        → Updates
            (is_none (e.update k (λ _. true) (with_execution done result now) t))
            (Option.map (closed done (e.keep result) now) (get e k t))
            k
            (closed done (e.keep result) now)
            t
            (record_execution e k done result now t)

module _ {N T : Type 0} (e : Engine N T) (h : IsEngine e) where
  abbrev case_of : Row N → ApprovalCase N
  case_of r = row_to_case (read_row e.read e.keep r)

  moment-aware : (t : ℕ) → moment (e.read (aware t)) ≡ t
  unfolding moment
  moment-aware t = ground (arith, h.read-aware t)

  case_of-new_row : (c : ApprovalCase N) → IsFresh c → case_of (new_row c) ≡ kept e c
  unfolding row_to_case new_row read_row as_utc
  case_of-new_row c f = ground (arith, moment-aware c.created_at)

  case_of-with_decision :
      (yes_ : Bool) (by note : String) (now : ℕ) (r : Row N)
      → case_of (with_decision yes_ by note now r) ≡ decided yes_ by note now (case_of r)
  unfolding row_to_case with_decision read_row as_utc decided
  case_of-with_decision yes_ by note now r = ground (arith, moment-aware now)

  case_of-with_execution :
      (done : Bool) (result : Fields N) (now : ℕ) (r : Row N)
      → case_of (with_execution done result now r) ≡ closed done (e.keep result) now (case_of r)
  unfolding row_to_case with_execution read_row as_utc closed
  case_of-with_execution done result now r = ground (arith, moment-aware now)

  is_pending-case_of : (r : Row N) → (case_of r).status ≡ r.status
  unfolding row_to_case read_row
  is_pending-case_of r = refl

  get_lem : (k : String) (t : T) → get e k t ≡ Option.map case_of (e.stored k t)
  unfolding get
  get_lem k t =
      rw (h.select_id-stored k t)
        (elim (Option-cases (e.stored k t)) [ inl p ↦ rw p | inr (r, p) ↦ rw p ])

  get-insert :
      (j : String) (c : ApprovalCase N) (t t' : T)
      → IsFresh c
      → e.stored c.proposal_id t ≡ none
      → e.insert (new_row c) t ≡ some t'
      → get e j t'
        ≡ (if c.proposal_id == j then some (or_default (get e j t) (kept e c)) else get e j t)
  unfolding new_row
  get-insert j c t t' f p w = ground (
    arith,
    get_lem j t,
    get_lem j t',
    h.stored-insert j (new_row c) t t' p w,
    eq_iff c.proposal_id j,
    case_of-new_row c f,
    p,
  )

  none-stored : (k : String) (t : T) → e.select_id k t ≡ none → e.stored k t ≡ none
  none-stored k t p = elim (Option-cases (e.stored k t)) [
    | inl q ↦ q
    | inr (r, q) ↦ absurd (ground (arith, p, q, h.select_id-stored k t))
  ]

  open-known :
      (c : ApprovalCase N) (t : T) (r : Row N)
      → e.select_id c.proposal_id t ≡ some r
      → open_case e c t ≡ some (is_none (get e c.proposal_id t), t)
  unfolding open_case get
  open-known c t r p = ground (arith, p)

  open-refused :
      (c : ApprovalCase N) (t : T)
      → e.select_id c.proposal_id t ≡ none
      → e.insert (new_row c) t ≡ none
      → (open_case e c t ≡ none) × (get e c.proposal_id t ≡ none)
  unfolding open_case get
  open-refused c t p q = (ground (arith, p, q), ground (arith, p))

  open-inserted :
      (c : ApprovalCase N) (t t' : T)
      → e.select_id c.proposal_id t ≡ none
      → e.insert (new_row c) t ≡ some t'
      → open_case e c t ≡ some (is_none (get e c.proposal_id t), t')
  unfolding open_case get
  open-inserted c t t' p q = ground (arith, p, q)

  known-kept :
      (j : String) (c : ApprovalCase N) (t : T) (r : Row N)
      → e.select_id c.proposal_id t ≡ some r
      → get e j t
        ≡ (if c.proposal_id == j then some (or_default (get e j t) (kept e c)) else get e j t)
  unfolding get
  known-kept j c t r p = ground (arith, p, eq_iff c.proposal_id j)

  open_case-Opens : (c : ApprovalCase N) (t : T) → IsFresh c → Opens e c t (open_case e c t)
  open_case-Opens c t f = elim (Option-cases (e.select_id c.proposal_id t)) [
    | inr (r, p) ↦ inr (t, open-known c t r p, λ j. known-kept j c t r p)
    | inl p ↦ elim (Option-cases (e.insert (new_row c) t)) [
      | inl refused ↦
          let (raises, unknown) = open-refused c t p refused in inl (raises, refused, unknown)
      | inr (t', w) ↦ inr (
        t',
        open-inserted c t t' p w,
        λ j. get-insert j c t t' f (none-stored c.proposal_id t p) w,
      )
    ]
  ]

  get-decision :
      (j k : String) (yes_ : Bool) (by note : String) (now : ℕ) (t t' : T) (row : Option (Row N))
      → e.update k (λ r. is_pending r.status) (with_decision yes_ by note now) t ≡ some (row, t')
      → get e j t'
        ≡ (if k == j then Option.map (decide_case yes_ by note now) (get e j t) else get e j t)
  unfolding decide_case with_decision
  get-decision j k yes_ by note now t t' row w =
      let s =
        h.stored-update j k (λ r. is_pending r.status) (with_decision yes_ by note now) t t' row
          (λ r. refl) w in
      elim (Option-cases (e.stored j t)) [
        | inl p ↦ ground (arith, get_lem j t, get_lem j t', s, p)
        | inr (r, p) ↦ ground (
          arith,
          get_lem j t,
          get_lem j t',
          s,
          p,
          is_pending-case_of r,
          case_of-with_decision yes_ by note now r,
        )
      ]

  get-execution :
      (j k : String) (done : Bool) (result : Fields N) (now : ℕ) (t t' : T) (row : Option (Row N))
      → e.update k (λ _. true) (with_execution done result now) t ≡ some (row, t')
      → get e j t'
        ≡ (if k == j then Option.map (closed done (e.keep result) now) (get e j t) else get e j t)
  unfolding with_execution
  get-execution j k done result now t t' row w =
      let s =
        h.stored-update j k (λ _. true) (with_execution done result now) t t' row (λ r. refl) w in
      elim (Option-cases (e.stored j t)) [
        | inl p ↦ ground (arith, get_lem j t, get_lem j t', s, p)
        | inr (r, p) ↦
            ground
              (arith, get_lem j t, get_lem j t', s, p, case_of-with_execution done result now r)
      ]

  decision-reply :
      (k : String) (yes_ : Bool) (by note : String) (now : ℕ) (t t' : T) (row : Option (Row N))
      → e.update k (λ r. is_pending r.status) (with_decision yes_ by note now) t ≡ some (row, t')
      → decide e k yes_ by note now t ≡ some (decide_reply yes_ by note now (get e k t), t')
  unfolding decide decided_already decide_reply with_decision
  decision-reply k yes_ by note now t t' row w =
      let pend = λ (r : Row N). is_pending r.status in
      let set = with_decision yes_ by note now in
      let ans = h.update_answer k pend set t t' row w in
      let s = h.stored-update k k pend set t t' row (λ r. refl) w in
      elim (Option-cases (e.stored k t)) [
        | inl p ↦ ground (arith, w, ans, s, p, eq_refl k, get_lem k t, h.select_id-stored k t')
        | inr (r, p) ↦ ground (
          arith,
          w,
          ans,
          s,
          p,
          eq_refl k,
          get_lem k t,
          h.select_id-stored k t',
          is_pending-case_of r,
          case_of-with_decision yes_ by note now r,
        )
      ]

  decision-refused :
      (k : String) (yes_ : Bool) (by note : String) (now : ℕ) (t : T)
      → e.update k (λ r. is_pending r.status) (with_decision yes_ by note now) t ≡ none
      → decide e k yes_ by note now t ≡ none
  unfolding decide
  decision-refused k yes_ by note now t w = ground (arith, w)

  decide-Updates :
      (k : String) (yes_ : Bool) (by note : String) (now : ℕ) (t : T)
      → Updates e
          (is_none (e.update k (λ r. is_pending r.status) (with_decision yes_ by note now) t))
          (decide_reply yes_ by note now (get e k t))
          k
          (decide_case yes_ by note now)
          t
          (decide e k yes_ by note now t)
  decide-Updates k yes_ by note now t =
      elim (Option-cases
        (e.update k (λ r. is_pending r.status) (with_decision yes_ by note now) t)) [
          | inl refused ↦ inl (decision-refused k yes_ by note now t refused, rw refused refl)
          | inr ((row, t'), w) ↦ inr (
            t',
            decision-reply k yes_ by note now t t' row w,
            λ j. get-decision j k yes_ by note now t t' row w,
          )
        ]

  execution-reply :
      (k : String) (done : Bool) (result : Fields N) (now : ℕ) (t t' : T) (row : Option (Row N))
      → e.update k (λ _. true) (with_execution done result now) t ≡ some (row, t')
      → Option.map row_to_case row ≡ Option.map (closed done (e.keep result) now) (get e k t)
  execution-reply k done result now t t' row w =
      let ans = h.update_answer k (λ _. true) (with_execution done result now) t t' row w in
      elim (Option-cases (e.stored k t)) [
        | inl p ↦ ground (arith, ans, get_lem k t, p)
        | inr (r, p) ↦ ground (arith, ans, get_lem k t, p, case_of-with_execution done result now r)
      ]

  record-Updates :
      (k : String) (done : Bool) (result : Fields N) (now : ℕ) (t : T)
      → Updates e
          (is_none (e.update k (λ _. true) (with_execution done result now) t))
          (Option.map (closed done (e.keep result) now) (get e k t))
          k
          (closed done (e.keep result) now)
          t
          (record_execution e k done result now t)
  record-Updates k done result now t =
      elim (Option-cases (e.update k (λ _. true) (with_execution done result now) t)) [
        | inl refused ↦ inl (unfold record_execution in rw refused refl, rw refused refl)
        | inr ((row, t'), w) ↦ inr (
          t',
          unfold record_execution in rw (w, execution-reply k done result now t t' row w) refl,
          λ j. get-execution j k done result now t t' row w,
        )
      ]

  -- Over any database that acts on statements as `IsEngine` says, each operation of
  -- `DatabaseCaseStore` that writes, opening a case that nothing was decided or executed of,
  -- deciding and recording an execution, either raises, where the database refuses its INSERT or
  -- UPDATE, or does what `CaseStore` promises: it answers as the contract says, and `get` then
  -- shows the effect at the id of the call and no change at any other, the proposal and the result
  -- being what the JSON column makes of them.
  pub table-IsCaseTable : IsCaseTable e
  table-IsCaseTable = record {
    opens = open_case-Opens;
    decides = decide-Updates;
    records = record-Updates;
  }
