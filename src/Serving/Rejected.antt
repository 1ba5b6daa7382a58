-- ===== src/Serving/Rejected.antt =====
-- Calling `case_decide` again on a case that was rejected.
use adk_a2a_gke.Prelude.{ℕ, String, ◌≡◌, refl, sym, ◌∙◌, ◌⊎◌, inl, inr, false, some, List}
use mathlib.Core.Option.{some-injective}
use mathlib.Core.Path.{subst}
use adk_a2a_gke.Cases.Case.{Status, pending, rejected, is_pending, ApprovalCase, decided}
use adk_a2a_gke.Cases.Store.{IsCaseStore}
use adk_a2a_gke.Cases.Lifecycle.{Call, steps, steps-keep, steps-SameDecision, SameDecision}
use adk_a2a_gke.Serving.{
  World, Process, CaseDecision, rejected_reply, already_executed, case_decide,
}
use adk_a2a_gke.Serving.Gate.{decide_closed, decide_rejected, rejects}
use adk_a2a_gke.Serving.Retry.{IsClosed, IsClosed-decided}

-- Rejected, or recorded by a call of the store as executed or failed all the same.
abbrev IsOver : Status → Type 0
IsOver st = (st ≡ rejected) ⊎ IsClosed st

IsOver-decided : (st : Status) → IsOver st → is_pending st ≡ false
IsOver-decided st (inl e) = rw e refl
IsOver-decided st (inr e) = IsClosed-decided st e

module _ {N S : Type 0} (p : Process N S) (h : IsCaseStore p.cases) where
  -- Over any store that keeps the contract: a rejection of a pending case is reported, and whatever
  -- calls of the store follow, any later decision on the case, an approval included, sends no
  -- message to the Runner: the case still holds the rejection's reviewer, note and time, and the
  -- answer is that it was rejected, or, where one of the calls recorded an execution of it, that it
  -- was already carried out.
  pub rejection_stands :
      (now later : ℕ) (k by note user : String) (w : World S) {c : ApprovalCase N}
      (between : List (Call N)) (now₂ later₂ : ℕ) (d₂ : CaseDecision) (user₂ : String)
      → p.cases.get k w.store ≡ some c
      → c.status ≡ pending
      → let d : CaseDecision = record { approved = false; note = note; decided_by = by } in
        let (reply, w') = case_decide p now later k d user w in
        let w₁ : World S = record w' { store = steps p.cases between w'.store } in
        let (reply₂, w₂) = case_decide p now₂ later₂ k d₂ user₂ w₁ in
        (reply ≡ rejected_reply (decided false by note now c))
        × (w₂.prompts ≡ w.prompts)
        × ((c₂ : ApprovalCase N) × SameDecision (decided false by note now c) c₂
            × (p.cases.get k w₂.store ≡ some c₂)
            × (((c₂.status ≡ rejected) × (reply₂ ≡ rejected_reply c₂))
                ⊎ (IsClosed c₂.status × (reply₂ ≡ already_executed c₂))))
  rejection_stands now later k by note user w {c} between now₂ later₂ d₂ user₂ e st =
      let d : CaseDecision = record { approved = false; note = note; decided_by = by } in
      let (answer, silent, stored) = rejects p h now later k by note user w e st in
      let w' = (case_decide p now later k d user w).1 in
      let c₁ = decided false by note now c in
      let (c₂, kept, same) =
        steps-SameDecision p.cases h between k c₁ w'.store stored (unfold decided in refl) in
      let (c₃, kept₃, over₃) =
        steps-keep p.cases h IsOver (inr (inl refl)) (inr (inr refl)) IsOver-decided between k c₁
          w'.store stored (inl (unfold decided in refl)) in
      let over : IsOver c₂.status =
        subst (λ x. IsOver x.status) (some-injective c₃ c₂ (sym kept₃ ∙ kept)) over₃ in
      let w₁ : World S = record w' { store = steps p.cases between w'.store } in
      elim over [
        | inl was_rejected ↦
            let (reply, quiet, there) =
              decide_rejected p h now₂ later₂ k d₂ user₂ w₁ kept was_rejected in
            (answer, quiet ∙ silent, (c₂, same, there, inl (was_rejected, reply)))
        | inr was_closed ↦
            let (reply, quiet, there) =
              decide_closed p h now₂ later₂ k d₂ user₂ w₁ kept was_closed in
            (answer, quiet ∙ silent, (c₂, same, there k ∙ kept, inr (was_closed, reply)))
      ]
