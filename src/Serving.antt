-- ===== src/Serving.antt =====
-- app/fast_api_app.py: a conversational turn and the endpoints for approval cases, over any
-- `CaseStore`. The Runner, and with it the agents and their models, is a parameter: it answers a
-- message with events, and may answer the same message differently later, so the answer is a
-- function of all messages that it was given. While a turn runs, other requests may work on the
-- store: that is the parameter `meanwhile`. `uuid4().hex` draws from `ids`, and `now` is the clock.
pub mod Gate
pub mod Confirm
pub mod Retry
pub mod Rejected
pub mod Run
use mathlib.Core.Option
use adk_a2a_gke.Prelude.{
  ℕ, suc, String, Bool, true, false, Option, none, some, List, [], ◌∷◌, ◌++◌, ◌==◌, ◌&&◌, not,
  if◌then◌else◌, or_default, length,
}
use adk_a2a_gke.Text.{concat, first}
use adk_a2a_gke.Json.{Fields, Number, Codec}
use adk_a2a_gke.Cases.Case.{not_found, Status, rejected, executed, failed, ApprovalCase}
use adk_a2a_gke.Cases.Store.{CaseStore}
use adk_a2a_gke.Cases.Replies.Summary.{summarise}
use adk_a2a_gke.Cases.Replies.{
  Event, body, reply_texts, find_proposals, find_execution, case_from_proposal,
  execution_instruction, new_proposal_id,
}

-- A message for the Runner: the user, the session and the text.
pub record Prompt : Type 0 where
  pub user_id : String
  pub session_id : String
  pub text : String

pub record TurnResult : Type 0 where
  pub trace : List String
  pub final_text : Option String
  pub texts : List String

pub record CaseRun : Type 0 where
  pub text : String
  pub session_id : Option String
  pub user_id : String

pub record CaseDecision : Type 0 where
  pub approved : Bool
  pub note : String
  pub decided_by : String

-- The process: the store, the messages that the Runner was given (the newest first), and how many
-- ids have been drawn.
pub record World (S : Type 0) : Type 0 where
  pub store : S
  pub prompts : List Prompt
  pub drawn : ℕ

pub record Process (N S : Type 0) : Type 0 where
  pub number : Number N
  pub codec : Codec N
  pub cases : CaseStore N S
  pub runner : List Prompt → List (Event N)
  pub repr : String → String
  pub repr_names : List (Option String) → String
  pub meanwhile : List Prompt → S → S
  pub ids : ℕ → String

pub data Reply (N : Type 0) : Type 0 where
  http_error : ℕ → Reply N
  rejected_reply : ApprovalCase N → Reply N
  already_executed : ApprovalCase N → Reply N
  approved_not_confirmed executed_reply : ApprovalCase N → TurnResult → Reply N

-- The answer of `POST /cases/run`: `opened` holds the cases that it opened.
pub record RunReply (N : Type 0) : Type 0 where
  pub awaiting_approval : Bool
  pub session_id : String
  pub user_id : String
  pub final_text : Option String
  pub opened : List (ApprovalCase N)
  pub trace : List String

abbrev pub execution_prompt : {N : Type 0} → Codec N → String → ApprovalCase N → Prompt
execution_prompt codec user_id c = record {
  user_id = user_id;
  session_id = c.session_id;
  text = execution_instruction codec c;
}

module _ {N S : Type 0} (p : Process N S) where
  -- One event in the loop of `_run_turn`.
  unfoldable pub collect : Event N → TurnResult → TurnResult
  unfolding body reply_texts summarise
  collect e r = record r {
    trace = r.trace ++ summarise p.repr p.repr_names e ∷ [];
    final_text = if e.is_final && not (body e == "") then some (body e) else r.final_text;
    texts = r.texts ++ reply_texts p.codec e;
  }

  unfoldable pub collect_all : List (Event N) → TurnResult → TurnResult
  unfolding collect
  collect_all [] r = r
  collect_all (e ∷ es) r = collect_all es (collect e r)

  unfoldable pub run_turn : Prompt → World S → TurnResult × World S
  unfolding collect_all
  run_turn m w =
      let prompts = m ∷ w.prompts in
      (
        collect_all (p.runner prompts) (record { trace = []; final_text = none; texts = [] }),
        record w { store = p.meanwhile prompts w.store; prompts = prompts },
      )

  -- One proposal in the loop of `cases_run`; an exception ends the request.
  unfoldable pub open_found :
      ℕ
      → String
      → Fields N
      → List (ApprovalCase N) × World S
      → Option (List (ApprovalCase N) × World S)
  unfolding case_from_proposal new_proposal_id
  open_found now session_id found (opened, w) =
      elim (case_from_proposal p.number p.codec found session_id session_id ""
        (new_proposal_id (p.ids w.drawn)) now) [
          | none ↦ none
          | some c ↦
              let (new, store) = p.cases.open_case c w.store in
              some (
                if new then opened ++ c ∷ [] else opened,
                record w { store = store; drawn = suc w.drawn },
              )
        ]

  unfoldable pub open_all :
      ℕ
      → String
      → List (Fields N)
      → List (ApprovalCase N) × World S
      → Option (List (ApprovalCase N) × World S)
  unfolding open_found
  open_all now session_id [] acc = some acc
  open_all now session_id (f ∷ fs) acc = elim (open_found now session_id f acc) [
    | none ↦ none
    | some acc' ↦ open_all now session_id fs acc'
  ]

  -- The session of a request that names none, or an empty one, is a new one.
  unfoldable pub chosen_session : CaseRun → World S → String × World S
  unfolding concat first
  chosen_session req w =
      let given = Option.get_or req.session_id "" in
      if given == ""
      then (concat ("case-" ∷ first 8 (p.ids w.drawn) ∷ []), record w { drawn = suc w.drawn })
      else (given, w)

  -- `none` is an internal error, an exception in the loop over the proposals.
  unfoldable pub cases_run : ℕ → CaseRun → World S → Option (RunReply N × World S)
  unfolding run_turn open_all chosen_session
  cases_run now req w =
      let (session_id, w₁) = chosen_session req w in
      let (turn, w₂) =
        run_turn (record { user_id = req.user_id; session_id = session_id; text = req.text }) w₁ in
      Option.map
        (λ (opened, w₃). (
          record {
            awaiting_approval = elim opened [ [] ↦ false | _ ∷ _ ↦ true ];
            session_id = session_id;
            user_id = req.user_id;
            final_text = turn.final_text;
            opened = opened;
            trace = turn.trace;
          },
          w₃,
        ))
        (open_all now session_id (find_proposals p.codec turn.texts) ([], w₂))

  unfoldable pub cases_list : String → World S → ℕ × List (ApprovalCase N)
  cases_list status w = let items = p.cases.list_by_status status w.store in (length items, items)

  -- `none` is the answer 404
  unfoldable pub case_detail : String → World S → Option (ApprovalCase N)
  case_detail k w = p.cases.get k w.store

  abbrev pub execution_turn : String → ApprovalCase N → World S → TurnResult × World S
  execution_turn user_id c w = run_turn (execution_prompt p.codec user_id c) w

  -- What `case_decide` does with an approved case: the execution turn and its outcome.
  unfoldable pub carry_out : ℕ → String → String → ApprovalCase N → World S → Reply N × World S
  carry_out now k user_id c w =
      let (turn, w') = execution_turn user_id c w in
      elim (find_execution p.number p.codec turn.texts c.proposal) [
        | none ↦ (approved_not_confirmed (or_default (p.cases.get k w'.store) c) turn, w')
        | some performed ↦
            let (updated, store) = p.cases.record_execution k true performed now w'.store in
            (executed_reply (or_default updated c) turn, record w' { store = store })
      ]

  -- The tests of `case_decide` on the status of the case, as it stands after the decision.
  unfoldable pub by_status :
      ℕ → String → String → Status → ApprovalCase N → World S → Reply N × World S
  by_status now k user_id rejected c w = (rejected_reply c, w)
  by_status now k user_id executed c w = (already_executed c, w)
  by_status now k user_id failed c w = (already_executed c, w)
  by_status now k user_id _ c w = carry_out now k user_id c w

  -- `now` is the clock at the decision, `later` after the turn.
  unfoldable pub case_decide : ℕ → ℕ → String → CaseDecision → String → World S → Reply N × World S
  case_decide now later k d user_id w =
      let (answer, store) = p.cases.decide k d.approved d.decided_by d.note now w.store in
      let w' = record w { store = store } in
      elim answer.1 [
        | none ↦ (http_error 404, w')
        | some c ↦ elim answer.0 [
          | not_found ↦ (http_error 404, w')
          | _ ↦ by_status later k user_id c.status c w'
        ]
      ]
