-- ===== src/Serving/Gate.antt =====
-- `case_decide` as a gate: what it answers for each state of the case, and when it lets the agent
-- act.
use adk_a2a_gke.Prelude.{
  ℕ, String, ◌≡◌, refl, ◌⊎◌, inl, inr, Bool, true, false, none, some, ◌∷◌, arith, eq_iff, eq_refl,
  Option-cases, Bool-cases,
}
use adk_a2a_gke.Cases.Case.{
  Status, pending, approved, rejected, executed, failed, ApprovalCase, is_pending, decided,
}
use adk_a2a_gke.Cases.Store.{IsCaseStore, decide_case, decide_reply}
use adk_a2a_gke.Cases.Replies.{execution_instruction}
use adk_a2a_gke.Serving.{
  World, Process, CaseDecision, http_error, rejected_reply, already_executed, carry_out, run_turn,
  by_status, case_decide,
}

pub carry_out-prompts :
    {N S : Type 0} (p : Process N S) (now : ℕ) (k user : String) (c : ApprovalCase N) (w : World S)
    → (carry_out p now k user c w).1.prompts
      ≡ record { user_id = user; session_id = c.session_id; text = execution_instruction p.codec c }
        ∷ w.prompts
unfolding carry_out run_turn
carry_out-prompts p now k user c w = ground arith

Status-cases :
    (s : Status) → (s ≡ pending) ⊎ (s ≡ approved) ⊎ (s ≡ rejected) ⊎ ((s ≡ executed) ⊎ (s ≡ failed))
Status-cases pending = inl refl
Status-cases approved = inr (inl refl)
Status-cases rejected = inr (inr (inl refl))
Status-cases executed = inr (inr (inr (inl refl)))
Status-cases failed = inr (inr (inr (inr refl)))

pub decide_case-decides :
    {N : Type 0} (yes_ : Bool) (by note : String) (now : ℕ) (c : ApprovalCase N)
    → is_pending (decide_case yes_ by note now c).status ≡ false
unfolding decide_case decided
decide_case-decides yes_ by note now c = ground arith

-- The decision comes first, and what follows sees the case as it then stands.
pub case_decide_known :
    {N S : Type 0} (p : Process N S) (h : IsCaseStore p.cases) (now later : ℕ) (k : String)
    (d : CaseDecision) (user : String) (w : World S) {c : ApprovalCase N}
    → p.cases.get k w.store ≡ some c
    → let c₁ = decide_case d.approved d.decided_by d.note now c in
      let s₁ = (p.cases.decide k d.approved d.decided_by d.note now w.store).1 in
      (case_decide p now later k d user w
        ≡ by_status p later k user c₁.status c₁ (record w { store = s₁ }))
      × (p.cases.get k s₁ ≡ some c₁)
unfolding case_decide decide_case decide_reply
case_decide_known p h now later k d user w e = (
  ground (arith, h.decide_answer k d.approved d.decided_by d.note now w.store),
  ground (arith, h.get-decide k k d.approved d.decided_by d.note now w.store, eq_refl k),
)

module _ {N S : Type 0} (p : Process N S) (h : IsCaseStore p.cases) where
  -- Over any store that keeps the contract: a decision on an unknown case is answered 404: no
  -- message is sent to the Runner, and no case changes.
  pub decide_unknown :
      (now later : ℕ) (k : String) (d : CaseDecision) (user : String) (w : World S)
      → p.cases.get k w.store ≡ none
      → let (reply, w') = case_decide p now later k d user w in
        (reply ≡ http_error 404)
        × (w'.prompts ≡ w.prompts)
        × ((j : String) → p.cases.get j w'.store ≡ p.cases.get j w.store)
  unfolding case_decide decide_reply
  decide_unknown now later k d user w e = (
    ground (arith, h.decide_answer k d.approved d.decided_by d.note now w.store),
    ground (arith, h.decide_answer k d.approved d.decided_by d.note now w.store),
    λ j. ground (
      arith,
      h.decide_answer k d.approved d.decided_by d.note now w.store,
      h.get-decide j k d.approved d.decided_by d.note now w.store,
      eq_iff k j,
    ),
  )

  -- Over any store that keeps the contract: a case that was executed, or whose execution failed, is
  -- reported as it is: whatever the decision, no message is sent to the Runner, and no case
  -- changes.
  pub decide_closed :
      (now later : ℕ) (k : String) (d : CaseDecision) (user : String) (w : World S)
      {c : ApprovalCase N}
      → p.cases.get k w.store ≡ some c
      → (c.status ≡ executed) ⊎ (c.status ≡ failed)
      → let (reply, w') = case_decide p now later k d user w in
        (reply ≡ already_executed c)
        × (w'.prompts ≡ w.prompts)
        × ((j : String) → p.cases.get j w'.store ≡ p.cases.get j w.store)
  unfolding case_decide by_status decide_reply decide_case
  decide_closed now later k d user w {c} e st = (
    ground (arith, h.decide_answer k d.approved d.decided_by d.note now w.store),
    ground (arith, h.decide_answer k d.approved d.decided_by d.note now w.store),
    λ j. ground (
      arith,
      h.decide_answer k d.approved d.decided_by d.note now w.store,
      h.get-decide j k d.approved d.decided_by d.note now w.store,
      eq_iff k j,
    ),
  )

  pub decide_rejected :
      (now later : ℕ) (k : String) (d : CaseDecision) (user : String) (w : World S)
      {c : ApprovalCase N}
      → p.cases.get k w.store ≡ some c
      → c.status ≡ rejected
      → let (reply, w') = case_decide p now later k d user w in
        (reply ≡ rejected_reply c) × (w'.prompts ≡ w.prompts) × (p.cases.get k w'.store ≡ some c)
  unfolding case_decide by_status decide_reply decide_case
  decide_rejected now later k d user w {c} e st =
      let a = h.decide_answer k d.approved d.decided_by d.note now w.store in
      let g = h.get-decide k k d.approved d.decided_by d.note now w.store in
      (ground (arith, a), ground (arith, a), ground (arith, a, g, eq_refl k))

  pub rejects :
      (now later : ℕ) (k by note user : String) (w : World S) {c : ApprovalCase N}
      → p.cases.get k w.store ≡ some c
      → c.status ≡ pending
      → let d : CaseDecision = record { approved = false; note = note; decided_by = by } in
        let (reply, w') = case_decide p now later k d user w in
        (reply ≡ rejected_reply (decided false by note now c))
        × (w'.prompts ≡ w.prompts)
        × (p.cases.get k w'.store ≡ some (decided false by note now c))
  unfolding case_decide by_status decide_reply decide_case decided
  rejects now later k by note user w {c} e st =
      let a = h.decide_answer k false by note now w.store in
      let g = h.get-decide k k false by note now w.store in
      (ground (arith, a, g, eq_refl k), ground (arith, a, g), ground (arith, a, g, eq_refl k))

  -- Over any store that keeps the contract, the Runner is given a message only for an approved
  -- case: a call of `case_decide` either sends nothing, or sends exactly the execution instruction
  -- of the case, in the case's own session, where the case was approved before or was pending and
  -- is approved by this very call.
  pub turn_needs_approval :
      (now later : ℕ) (k : String) (d : CaseDecision) (user : String) (w : World S)
      → let (reply, w') = case_decide p now later k d user w in
        (w'.prompts ≡ w.prompts)
        ⊎ ((c : ApprovalCase N) × (p.cases.get k w.store ≡ some c)
            × ((c.status ≡ approved) ⊎ ((c.status ≡ pending) × (d.approved ≡ true)))
            × (w'.prompts
                ≡ record {
                  user_id = user;
                  session_id = c.session_id;
                  text =
                      execution_instruction p.codec
                        (decide_case d.approved d.decided_by d.note now c);
                }
                  ∷ w.prompts))
  unfolding case_decide by_status decide_reply decide_case decided
  turn_needs_approval now later k d user w =
      let a = h.decide_answer k d.approved d.decided_by d.note now w.store in
      let w' : World S = record w {
        store = (p.cases.decide k d.approved d.decided_by d.note now w.store).1;
      } in
      elim (Option-cases (p.cases.get k w.store)) [
        | inl e ↦ inl (ground (arith, a))
        | inr (c, e) ↦ elim (Status-cases c.status) [
          | inl st ↦ elim (Bool-cases d.approved) [
            | inl yes_ ↦ inr (
              c,
              e,
              inr (st, yes_),
              ground (
                arith,
                a,
                carry_out-prompts p later k user (decided true d.decided_by d.note now c) w',
              ),
            )
            | inr no_ ↦ inl (ground (arith, a))
          ]
          | inr (inl st) ↦
              inr (c, e, inl st, ground (arith, a, carry_out-prompts p later k user c w'))
          | inr (inr (inl st)) ↦ inl (ground (arith, a))
          | inr (inr (inr closed)) ↦ inl (ground (arith, a))
        ]
      ]
