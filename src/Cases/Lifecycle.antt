-- ===== src/Cases/Lifecycle.antt =====
-- The life of a case in any store that keeps the contract: what a sequence of calls, from any
-- number of requests in any order, can do to it.
use adk_a2a_gke.Prelude.{
  eq_refl, ℕ, String, ◌≡◌, Bool, false, some, List, [], ◌∷◌, arith, ◌==◌, if◌then◌else◌, Bool-cases,
  inl, inr,
}
use adk_a2a_gke.Json.{Fields}
use adk_a2a_gke.Cases.Case.{
  Status, executed, failed, already_decided, decided, pending, is_pending, ApprovalCase, closed,
}
use adk_a2a_gke.Cases.Store.{decide_reply, CaseStore, IsCaseStore, IsFresh, decide_case}

-- A call that writes to the store.
pub data Call (N : Type 0) : Type 0 where
  open_call : (c : ApprovalCase N) → IsFresh c → Call N
  decide_call : String → Bool → String → String → ℕ → Call N
  record_call : String → Bool → Fields N → ℕ → Call N

module _ {N S : Type 0} (store : CaseStore N S) where
  unfoldable pub step : Call N → S → S
  step (open_call c _) s = (store.open_case c s).1
  step (decide_call k yes_ by note now) s = (store.decide k yes_ by note now s).1
  step (record_call k done result now) s = (store.record_execution k done result now s).1

  unfoldable pub steps : List (Call N) → S → S
  unfolding step
  steps [] s = s
  steps (call ∷ calls) s = steps calls (step call s)

-- Nothing that was shown to the human and nothing of the decision changes from `c` to `d`.
pub record SameDecision {N : Type 0} (c d : ApprovalCase N) : Type 0 where
  pub proposal_id : d.proposal_id ≡ c.proposal_id
  pub case_id : d.case_id ≡ c.case_id
  pub agent : d.agent ≡ c.agent
  pub action : d.action ≡ c.action
  pub summary : d.summary ≡ c.summary
  pub proposal : d.proposal ≡ c.proposal
  pub session_id : d.session_id ≡ c.session_id
  pub created_at : d.created_at ≡ c.created_at
  pub decided_by : d.decided_by ≡ c.decided_by
  pub note : d.note ≡ c.note
  pub decided_at : d.decided_at ≡ c.decided_at
  pub stays_decided : is_pending d.status ≡ false

module _ {N S : Type 0} (store : CaseStore N S) (h : IsCaseStore store) where
  pub step-SameDecision :
      (call : Call N) (k : String) (c : ApprovalCase N) (s : S)
      → store.get k s ≡ some c
      → is_pending c.status ≡ false
      → (d : ApprovalCase N) × (store.get k (step store call s) ≡ some d) × SameDecision c d
  unfolding step
  step-SameDecision (open_call c' f) k c s e p =
      (c, ground (arith, h.get-open k c' s f), ground arith)
  step-SameDecision (decide_call j yes_ by note now) k c s e p =
      (c, unfold decide_case in ground (arith, h.get-decide k j yes_ by note now s), ground arith)
  step-SameDecision (record_call j done result now) k c s e p = (
    if j == k then closed done result now c else c,
    ground (arith, h.get-record k j done result now s),
    unfold closed in ground arith,
  )

  pub steps-SameDecision :
      (calls : List (Call N)) (k : String) (c : ApprovalCase N) (s : S)
      → store.get k s ≡ some c
      → is_pending c.status ≡ false
      → (d : ApprovalCase N) × (store.get k (steps store calls s) ≡ some d) × SameDecision c d
  unfolding steps
  steps-SameDecision [] k c s e p = (c, e, ground arith)
  steps-SameDecision (call ∷ calls) k c s e p =
      let (c₁, e₁, same₁) = step-SameDecision call k c s e p in
      let (d, e₂, same₂) =
        steps-SameDecision calls k c₁ (step store call s) e₁ same₁.stays_decided in
      (d, e₂, ground arith)

  -- What holds of a decided status, and of the statuses after an execution, stays true.
  pub steps-keep :
      (P : Status → Type 0)
      → P executed
      → P failed
      → ((st : Status) → P st → is_pending st ≡ false)
      → (calls : List (Call N)) (k : String) (c : ApprovalCase N) (s : S) → store.get k s ≡ some c
      → P c.status
      → (d : ApprovalCase N) × (store.get k (steps store calls s) ≡ some d) × P d.status
  unfolding steps step closed
  steps-keep P done_ failed_ is_decided [] k c s e p = (c, e, p)
  steps-keep P done_ failed_ is_decided (call ∷ calls) k c s e p =
      let (d, e', p') = step_keeps call in
      steps-keep P done_ failed_ is_decided calls k d (step store call s) e' p'
    where
      step_keeps :
          (call : Call N)
          → (d : ApprovalCase N) × (store.get k (step store call s) ≡ some d) × P d.status
      step_keeps (open_call c' f) = (c, ground (arith, h.get-open k c' s f), p)
      step_keeps (decide_call j yes_ by note now) = (
        c,
        unfold decide_case in
            ground (arith, h.get-decide k j yes_ by note now s, is_decided c.status p),
        p,
      )
      step_keeps (record_call j done result now) = (
        if j == k then closed done result now c else c,
        ground (arith, h.get-record k j done result now s),
        elim (Bool-cases (j == k)) [
          | inl same ↦ elim (Bool-cases done) [
            | inl yes_ ↦ rw (same, closed, yes_) done_
            | inr no_ ↦ rw (same, closed, no_) failed_
          ]
          | inr other ↦ rw other p
        ],
      )

  -- In any store that keeps the contract, once a decision on a pending case is recorded, it stands:
  -- whatever calls follow, on this case or others, the case is still there with the reviewer, the
  -- note and the time of that decision and the proposal that was decided on, and a further decision
  -- is answered `already_decided` and leaves the case as it is.
  pub decide_once :
      (k : String) (yes_ : Bool) (by note : String) (now : ℕ) (c : ApprovalCase N) (s : S)
      (calls : List (Call N)) (yes₂ : Bool) (by₂ note₂ : String) (now₂ : ℕ)
      → store.get k s ≡ some c
      → c.status ≡ pending
      → let s' = steps store calls (store.decide k yes_ by note now s).1 in
        (d : ApprovalCase N) × (store.get k s' ≡ some d)
        × (d.decided_by ≡ by)
        × (d.note ≡ note)
        × (d.decided_at ≡ some now)
        × (d.proposal ≡ c.proposal)
        × ((store.decide k yes₂ by₂ note₂ now₂ s').0 ≡ (already_decided, some d))
        × (store.get k (store.decide k yes₂ by₂ note₂ now₂ s').1 ≡ some d)
  unfolding decide_case decide_reply decided
  decide_once k yes_ by note now c s calls yes₂ by₂ note₂ now₂ e p =
      let s₁ = (store.decide k yes_ by note now s).1 in
      let (d, e', same) =
        steps-SameDecision calls k (decided yes_ by note now c) s₁
          (ground (arith, h.get-decide k k yes_ by note now s, eq_refl k)) (ground arith) in
      let s' = steps store calls s₁ in
      (
        d,
        e',
        same.decided_by,
        same.note,
        same.decided_at,
        same.proposal,
        ground (arith, h.decide_answer k yes₂ by₂ note₂ now₂ s', same.stays_decided),
        ground (arith, h.get-decide k k yes₂ by₂ note₂ now₂ s', same.stays_decided, eq_refl k),
      )
