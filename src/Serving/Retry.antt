-- ===== src/Serving/Retry.antt =====
-- Calling `case_decide` again: a closed case is never carried out a second time, and one whose
-- execution was not confirmed can be tried again.
use adk_a2a_gke.Prelude.{
  ℕ, String, ◌≡◌, refl, ◌⊎◌, inl, inr, sym, false, none, some, List, [], ◌∷◌, arith, ◌∙◌, ap,
  Option-cases,
}
use mathlib.Core.Option.{some-injective}
use mathlib.Core.Path.{subst}
use adk_a2a_gke.Cases.Case.{Status, pending, approved, executed, failed, is_pending, ApprovalCase}
use adk_a2a_gke.Cases.Store.{IsCaseStore, decide_case}
use adk_a2a_gke.Cases.Lifecycle.{Call, steps, steps-keep, SameDecision}
use adk_a2a_gke.Cases.Replies.{find_execution}
use adk_a2a_gke.Serving.{
  World, Process, CaseDecision, TurnResult, Prompt, already_executed, approved_not_confirmed,
  executed_reply, run_turn, execution_prompt, execution_turn, carry_out, by_status, case_decide,
}
use adk_a2a_gke.Serving.Gate.{
  decide_unknown, decide_closed, case_decide_known, carry_out-prompts, decide_case-decides,
}
use adk_a2a_gke.Serving.Confirm.{
  ByCalls, carry_out-found, carry_out-not_found, after_turn, executed-IsConfirmed,
}

-- The two states in which the action was attempted and reported.
abbrev pub IsClosed : Status → Type 0
IsClosed s = (s ≡ executed) ⊎ (s ≡ failed)

pub IsClosed-decided : (st : Status) → IsClosed st → is_pending st ≡ false
IsClosed-decided st (inl e) = rw e refl
IsClosed-decided st (inr e) = rw e refl

module _ {N S : Type 0} (p : Process N S) (h : IsCaseStore p.cases) (m : ByCalls p) where
  -- Over any store that keeps the contract, and where the store changes during a turn only by its
  -- operations: a case that was answered "executed" is not carried out again: whatever calls other
  -- requests make in between, any later decision on it is answered "already executed", and sends no
  -- message to the Runner.
  pub executed_never_again :
      (now later : ℕ) (k : String) (d : CaseDecision) (user : String) (w : World S)
      (c : ApprovalCase N) (turn : TurnResult) (between : List (Call N)) (now₂ later₂ : ℕ)
      (d₂ : CaseDecision) (user₂ : String)
      → (case_decide p now later k d user w).0 ≡ executed_reply c turn
      → let w' = (case_decide p now later k d user w).1 in
        let w₁ : World S = record w' { store = steps p.cases between w'.store } in
        let (reply₂, w₂) = case_decide p now₂ later₂ k d₂ user₂ w₁ in
        (c₂ : ApprovalCase N) × (reply₂ ≡ already_executed c₂) × (w₂.prompts ≡ w'.prompts)
  executed_never_again now later k d user w c turn between now₂ later₂ d₂ user₂ r =
      let (o, confirmed, stored) = executed-IsConfirmed p h m now later k d user w c turn r in
      let w' = (case_decide p now later k d user w).1 in
      let (c₂, stored₂, is_closed) =
        steps-keep p.cases h IsClosed (inl refl) (inr refl) IsClosed-decided between k _ w'.store
          stored (inl confirmed.is_executed) in
      let w₁ : World S = record w' { store = steps p.cases between w'.store } in
      let (reply, silent, _) = decide_closed p h now₂ later₂ k d₂ user₂ w₁ stored₂ is_closed in
      (c₂, reply, silent)

  carry_out_unconfirmed :
      (now : ℕ) (k user : String) (c c' : ApprovalCase N) (turn : TurnResult) (w : World S)
      → p.cases.get k w.store ≡ some c
      → is_pending c.status ≡ false
      → (carry_out p now k user c w).0 ≡ approved_not_confirmed c' turn
      → (find_execution p.number p.codec turn.texts c'.proposal ≡ none)
        × (p.cases.get k (carry_out p now k user c w).1.store ≡ some c')
        × SameDecision c c'
        × ((carry_out p now k user c w).1.store
            ≡ p.meanwhile (carry_out p now k user c w).1.prompts w.store)
  carry_out_unconfirmed now k user c c' turn w e st r =
      let (turn₀, w') = execution_turn p user c w in
      let (d, stored, same) = after_turn p h m user c w e st in
      elim (Option-cases (find_execution p.number p.codec turn₀.texts c.proposal)) [
        | inl missing ↦
            let eq = carry_out-not_found p now k user c w missing in
            (
              ground (arith, eq, stored, same.proposal, missing),
              ground (arith, eq, stored),
              subst (λ x. SameDecision c x) (ground (arith, eq, stored)) same,
              unfold run_turn in ground (arith, eq),
            )
        | inr (o, found) ↦ absurd (ground (arith, carry_out-found p now k user c w found))
      ]

quiet-ByCalls :
    {N S : Type 0} (p : Process N S)
    → ((ms : List Prompt) (s : S) → p.meanwhile ms s ≡ s)
    → ByCalls p
unfolding steps
quiet-ByCalls p quiet = record { calls = λ ms s. []; acts = quiet }

redrives :
    {N S : Type 0} (p : Process N S) (h : IsCaseStore p.cases) (now later : ℕ) (k : String)
    (d : CaseDecision) (user : String) (w : World S) {c : ApprovalCase N}
    → p.cases.get k w.store ≡ some c
    → c.status ≡ approved
    → (case_decide p now later k d user w).1.prompts ≡ execution_prompt p.codec user c ∷ w.prompts
unfolding by_status decide_case
redrives p h now later k d user w {c} e st =
    let (eq, got) = case_decide_known p h now later k d user w e in
    let s₁ = (p.cases.decide k d.approved d.decided_by d.note now w.store).1 in
    ground (arith, eq, carry_out-prompts p later k user c (record w { store = s₁ }))

module _ {N S : Type 0} (p : Process N S) (h : IsCaseStore p.cases)
    (quiet : (ms : List Prompt) (s : S) → p.meanwhile ms s ≡ s) where
  by_status_unconfirmed :
      (now : ℕ) (k user : String) (st : Status) (c c' : ApprovalCase N) (turn : TurnResult)
      (w : World S)
      → p.cases.get k w.store ≡ some c
      → is_pending c.status ≡ false
      → c.status ≡ st
      → (by_status p now k user st c w).0 ≡ approved_not_confirmed c' turn
      → (c' ≡ c)
        × (c.status ≡ approved)
        × (find_execution p.number p.codec turn.texts c.proposal ≡ none)
        × (p.cases.get k (by_status p now k user st c w).1.store ≡ some c)
  unfolding by_status
  by_status_unconfirmed now k user pending c c' turn w e d st r = absurd (ground (arith))
  by_status_unconfirmed now k user approved c c' turn w e d st r =
      let (missing, stored, same, store) =
        carry_out_unconfirmed p h (quiet-ByCalls p quiet) now k user c c' turn w e d r in
      let ms = (carry_out p now k user c w).1.prompts in
      let unchanged = store ∙ quiet ms w.store in
      let eq : c' ≡ c = some-injective c' c (sym stored ∙ ap (p.cases.get k) unchanged ∙ e) in
      (eq, st, ground (arith, eq, missing), rw eq at stored)
  by_status_unconfirmed now k user _ c c' turn w e d st r = absurd (cc r)

  -- Over any store that keeps the contract, where no other request touches it during the turn: if a
  -- decision is answered "approved, not confirmed", the turn's replies confirm nothing, the case is
  -- stored as approved, and a further decision on it, whatever it says, gives the Runner the
  -- execution instruction of the same case once more.
  pub unconfirmed_is_redrivable :
      (now later : ℕ) (k : String) (d : CaseDecision) (user : String) (w : World S)
      (c : ApprovalCase N) (turn : TurnResult) (now₂ later₂ : ℕ) (d₂ : CaseDecision)
      (user₂ : String)
      → (case_decide p now later k d user w).0 ≡ approved_not_confirmed c turn
      → let w' = (case_decide p now later k d user w).1 in
        (c.status ≡ approved)
        × (p.cases.get k w'.store ≡ some c)
        × (find_execution p.number p.codec turn.texts c.proposal ≡ none)
        × ((case_decide p now₂ later₂ k d₂ user₂ w').1.prompts
            ≡ execution_prompt p.codec user₂ c ∷ w'.prompts)
  unconfirmed_is_redrivable now later k d user w c turn now₂ later₂ d₂ user₂ r =
      elim (Option-cases (p.cases.get k w.store)) [
        | inl e ↦
            let (answer, _, _) = decide_unknown p h now later k d user w e in
            absurd (cc (r, answer))
        | inr (c₀, e) ↦
            let (eq, got) = case_decide_known p h now later k d user w e in
            let c₁ = decide_case d.approved d.decided_by d.note now c₀ in
            let decided_ = decide_case-decides d.approved d.decided_by d.note now c₀ in
            let (same, st, missing, stored) =
              by_status_unconfirmed later k user c₁.status c₁ c turn _ got decided_ refl
                (rw eq at r) in
            let w' = (case_decide p now later k d user w).1 in
            let stored' : p.cases.get k w'.store ≡ some c = rw (eq, same) stored in
            let st' : c.status ≡ approved = rw same st in
            (st', stored', rw same missing, redrives p h now₂ later₂ k d₂ user₂ w' stored' st')
      ]
