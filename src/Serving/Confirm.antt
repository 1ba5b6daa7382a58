-- ===== src/Serving/Confirm.antt =====
-- What `case_decide` reports as executed was confirmed, and is never carried out again.
use adk_a2a_gke.Prelude.{
  ℕ, String, ◌≡◌, inl, inr, true, false, none, some, List, ◌∷◌, arith, eq_refl, Option-cases,
  or_default,
}
use adk_a2a_gke.Json.{Fields, scalars}
use adk_a2a_gke.Cases.Case.{Status, pending, approved, executed, is_pending, ApprovalCase, closed}
use adk_a2a_gke.Cases.Store.{IsCaseStore, decide_case}
use adk_a2a_gke.Cases.Lifecycle.{Call, steps, SameDecision, steps-SameDecision}
use adk_a2a_gke.Cases.Replies.{find_execution, confirms}
use adk_a2a_gke.Cases.Replies.Execution.{find_execution_sound}
use adk_a2a_gke.Serving.Gate.{decide_unknown, case_decide_known, decide_case-decides}
use adk_a2a_gke.Serving.{
  World, Process, CaseDecision, TurnResult, Prompt, executed_reply, run_turn, execution_prompt,
  execution_turn, approved_not_confirmed, carry_out, by_status, case_decide,
}

-- While a turn runs, the store changes only by calls of its operations.
pub record ByCalls {N S : Type 0} (p : Process N S) : Type 0 where
  pub calls : List Prompt → S → List (Call N)
  pub acts : (ms : List Prompt) (s : S) → p.meanwhile ms s ≡ steps p.cases (calls ms s) s

-- A case that stands as executed with the confirmed result `o`, which `turn` reported.
pub record IsConfirmed {N S : Type 0} (p : Process N S) (c : ApprovalCase N) (turn : TurnResult)
    (o : Fields N) : Type 0 where
  pub is_executed : c.status ≡ executed
  pub has_result : c.result ≡ some o
  pub reported : find_execution p.number p.codec turn.texts c.proposal ≡ some o
  pub agrees : confirms p.number (scalars c.proposal) o ≡ true

pub carry_out-found :
    {N S : Type 0} (p : Process N S) (now : ℕ) (k user : String) (c : ApprovalCase N) (w : World S)
    {o : Fields N}
    → let (turn, w') = execution_turn p user c w in
      find_execution p.number p.codec turn.texts c.proposal ≡ some o
      → carry_out p now k user c w ≡ (
        executed_reply (or_default (p.cases.record_execution k true o now w'.store).0 c) turn,
        record w' { store = (p.cases.record_execution k true o now w'.store).1 },
      )
unfolding carry_out
carry_out-found p now k user c w e = rw (e, carry_out)

pub carry_out-not_found :
    {N S : Type 0} (p : Process N S) (now : ℕ) (k user : String) (c : ApprovalCase N) (w : World S)
    → let (turn, w') = execution_turn p user c w in
      find_execution p.number p.codec turn.texts c.proposal ≡ none
      → carry_out p now k user c w
        ≡ (approved_not_confirmed (or_default (p.cases.get k w'.store) c) turn, w')
unfolding carry_out
carry_out-not_found p now k user c w e = rw (e, carry_out)

module _ {N S : Type 0} (p : Process N S) (h : IsCaseStore p.cases) (m : ByCalls p) where
  -- The case after the turn: what other requests did has not touched its proposal or decision.
  pub after_turn :
      {k : String} (user : String) (c : ApprovalCase N) (w : World S)
      → p.cases.get k w.store ≡ some c
      → is_pending c.status ≡ false
      → (d : ApprovalCase N) × (p.cases.get k (execution_turn p user c w).1.store ≡ some d)
        × SameDecision c d
  unfolding run_turn
  after_turn {k} user c w e st =
      let ms = execution_prompt p.codec user c ∷ w.prompts in
      let (d, stored, same) = steps-SameDecision p.cases h (m.calls ms w.store) k c w.store e st in
      (d, rw (m.acts ms w.store) stored, same)

  carry_out_confirms :
      (now : ℕ) (k user : String) (c c' : ApprovalCase N) (turn : TurnResult) (w : World S)
      → p.cases.get k w.store ≡ some c
      → is_pending c.status ≡ false
      → (carry_out p now k user c w).0 ≡ executed_reply c' turn
      → (o : Fields N) × IsConfirmed p c' turn o
        × (p.cases.get k (carry_out p now k user c w).1.store ≡ some c')
  carry_out_confirms now k user c c' turn w e st r =
      let (turn₀, w') = execution_turn p user c w in
      let (d, stored, same) = after_turn user c w e st in
      elim (Option-cases (find_execution p.number p.codec turn₀.texts c.proposal)) [
        | inl missing ↦ absurd (ground (arith, carry_out-not_found p now k user c w missing))
        | inr (o, found) ↦
            let eq = carry_out-found p now k user c w found in
            let ans = h.record_answer k true o now w'.store in
            let got = h.get-record k k true o now w'.store in
            let sound = find_execution_sound p.number p.codec turn₀.texts c.proposal o found in
            (
              o,
              unfold closed in ground (arith, eq, ans, stored, same.proposal, found, sound),
              ground (arith, eq, ans, got, stored, eq_refl k),
            )
      ]

  by_status_confirms :
      (now : ℕ) (k user : String) (st : Status) (c c' : ApprovalCase N) (turn : TurnResult)
      (w : World S)
      → p.cases.get k w.store ≡ some c
      → is_pending c.status ≡ false
      → (by_status p now k user st c w).0 ≡ executed_reply c' turn
      → (o : Fields N) × IsConfirmed p c' turn o
        × (p.cases.get k (by_status p now k user st c w).1.store ≡ some c')
  unfolding by_status
  by_status_confirms now k user pending c c' turn w e d r =
      carry_out_confirms now k user c c' turn w e d r
  by_status_confirms now k user approved c c' turn w e d r =
      carry_out_confirms now k user c c' turn w e d r
  by_status_confirms now k user _ c c' turn w e d r = absurd (cc r)

  -- Over any store that keeps the contract: if a decision is answered "executed", the case now
  -- stands in the store as executed with a result `o`; the execution turn's replies hold `o`, it
  -- says that it was published, and it agrees with every text, number and truth value of the
  -- approved proposal. This holds whatever operations other requests call on the store while the
  -- turn runs.
  pub executed-IsConfirmed :
      (now later : ℕ) (k : String) (d : CaseDecision) (user : String) (w : World S)
      (c : ApprovalCase N) (turn : TurnResult)
      → (case_decide p now later k d user w).0 ≡ executed_reply c turn
      → (o : Fields N) × IsConfirmed p c turn o
        × (p.cases.get k (case_decide p now later k d user w).1.store ≡ some c)
  executed-IsConfirmed now later k d user w c turn r = elim (Option-cases (p.cases.get k w.store)) [
    | inl e ↦
        let (answer, _, _) = decide_unknown p h now later k d user w e in absurd (cc (r, answer))
    | inr (c₀, e) ↦
        let (eq, got) = case_decide_known p h now later k d user w e in
        let c₁ = decide_case d.approved d.decided_by d.note now c₀ in
        let decided_ = decide_case-decides d.approved d.decided_by d.note now c₀ in
        rw eq (by_status_confirms later k user c₁.status c₁ c turn _ got decided_ (rw eq at r))
  ]
