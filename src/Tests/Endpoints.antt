-- ===== src/Tests/Endpoints.antt =====
-- The endpoints at concrete cases: an agent that publishes what it is told to, one that says
-- nothing, and one that asks for an approval.
use adk_a2a_gke.Prelude.{ℕ, true, false, none, some, List, [], ◌∷◌, ◌≡◌, ◌⊎◌, refl, lookup, insert}
use adk_a2a_gke.Json.{str, obj, Fields, end, field, Codec}
use adk_a2a_gke.Cases.Case.{
  pending, approved, rejected, executed, ApprovalCase, decided, closed, already_decided,
}
use adk_a2a_gke.Cases.Store.{decide_case}
use adk_a2a_gke.Cases.Memory.{Cases, memory, memory-IsCaseStore}
use adk_a2a_gke.Cases.Lifecycle.{Call, SameDecision, record_call, steps, decide_once}
use adk_a2a_gke.Cases.Replies.{Event, execution_instruction, find_execution}
use adk_a2a_gke.Serving.{
  World, Process, CaseDecision, Prompt, TurnResult, rejected_reply, already_executed,
  execution_prompt, case_decide, by_status, carry_out, collect_all, run_turn, CaseRun, RunReply,
  cases_run, chosen_session,
}
use adk_a2a_gke.Serving.Gate.{turn_needs_approval}
use adk_a2a_gke.Serving.Rejected.{rejection_stands}
use adk_a2a_gke.Serving.Confirm.{ByCalls, IsConfirmed, executed-IsConfirmed}
use adk_a2a_gke.Serving.Retry.{IsClosed, executed_never_again, unconfirmed_is_redrivable}
use adk_a2a_gke.Serving.Run.{Opened, proposing_turn, cases_run_opens}
use adk_a2a_gke.Tests.Engines.{numbers, brace}

abbrev pub wanted : Fields ℕ
wanted = field "value" (str "4") end

abbrev pub confirmation : Fields ℕ
confirmation = field "status" (str "published") (field "value" (str "4") end)

abbrev pub asking : Fields ℕ
asking = field "status" (str "approval_required") (field "proposal" (obj wanted) end)

abbrev pub case_one : ApprovalCase ℕ
case_one = record {
  case_id = "case-1";
  proposal_id = "p1";
  agent = "math";
  action = "publish_result";
  summary = "Publish 4";
  proposal = wanted;
  status = pending;
  session_id = "case-1";
  decided_by = "";
  note = "";
  result = none;
  created_at = 3;
  decided_at = none;
  executed_at = none;
}

abbrev one_case : World (Cases ℕ)
one_case = record { store = ("p1", case_one) ∷ []; prompts = []; drawn = 0 }

abbrev said : Event ℕ
said = record {
  invocation_id = "i1";
  author = "math";
  calls = some "publish_result" ∷ [];
  responses = [];
  parts = some "{" ∷ [];
  error_message = none;
  is_final = true;
}

abbrev process : Codec ℕ → List (Event ℕ) → Process ℕ (Cases ℕ)
process codec events = record {
  number = numbers;
  codec = codec;
  cases = memory;
  runner = λ ms. events;
  repr = λ s. "'...'";
  repr_names = λ names. "[...]";
  meanwhile = λ ms s. s;
  ids = λ n. "0123456789abcdef";
}

abbrev publishing : Process ℕ (Cases ℕ)
publishing = process (brace confirmation) (said ∷ [])

abbrev silent : Process ℕ (Cases ℕ)
silent = process (brace confirmation) []

abbrev proposing : Process ℕ (Cases ℕ)
proposing = process (brace asking) (said ∷ [])

abbrev yes : CaseDecision
yes = record { approved = true; note = "fine"; decided_by = "ann" }

abbrev accepted_case : ApprovalCase ℕ
accepted_case = record {
  case_id = "case-1";
  proposal_id = "p1";
  agent = "math";
  action = "publish_result";
  summary = "Publish 4";
  proposal = wanted;
  status = approved;
  session_id = "case-1";
  decided_by = "ann";
  note = "fine";
  result = none;
  created_at = 3;
  decided_at = some 5;
  executed_at = none;
}

abbrev finished_case : ApprovalCase ℕ
finished_case = record accepted_case {
  status = executed;
  result = some confirmation;
  executed_at = some 8;
}

abbrev spoken_turn : TurnResult
spoken_turn = record {
  trace = "math | calls=[...] | text='...'" ∷ [];
  final_text = some "{";
  texts = "{" ∷ [];
}

abbrev silent_turn : TurnResult
silent_turn = record { trace = []; final_text = none; texts = [] }

quiet :
    (p : Process ℕ (Cases ℕ))
    → ((ms : List Prompt) (s : Cases ℕ) → p.meanwhile ms s ≡ s)
    → ByCalls p
unfolding steps
quiet p h = record { calls = λ ms s. []; acts = h }

rejection_stands_example :
    let no : CaseDecision = record { approved = false; note = "no"; decided_by = "bob" } in
    let (reply, w') = case_decide publishing 5 8 "p1" no "ops" one_case in
    let between : List (Call ℕ) = record_call "p2" true end 6 ∷ [] in
    let w₁ : World (Cases ℕ) = record w' { store = steps publishing.cases between w'.store } in
    let (reply₂, w₂) = case_decide publishing 6 9 "p1" yes "ops" w₁ in
    (reply ≡ rejected_reply (decided false "bob" "no" 5 case_one))
    × (w₂.prompts ≡ [])
    × ((c₂ : ApprovalCase ℕ) × SameDecision (decided false "bob" "no" 5 case_one) c₂
        × (publishing.cases.get "p1" w₂.store ≡ some c₂)
        × (((c₂.status ≡ rejected) × (reply₂ ≡ rejected_reply c₂))
            ⊎ (IsClosed c₂.status × (reply₂ ≡ already_executed c₂))))
unfolding memory lookup
rejection_stands_example =
    rejection_stands publishing memory-IsCaseStore 5 8 "p1" "bob" "no" "ops" one_case
      (record_call "p2" true end 6 ∷ []) 6 9 yes "ops" refl refl

executed-IsConfirmed_example :
    (o : Fields ℕ) × IsConfirmed publishing finished_case spoken_turn o
    × (publishing.cases.get "p1" (case_decide publishing 5 8 "p1" yes "ops" one_case).1.store
        ≡ some finished_case)
unfolding memory lookup insert case_decide by_status carry_out find_execution collect_all run_turn
    decided closed brace
executed-IsConfirmed_example =
    executed-IsConfirmed publishing memory-IsCaseStore (quiet publishing (λ ms s. refl)) 5 8 "p1"
      yes "ops" one_case finished_case spoken_turn refl

executed_never_again_example :
    let w' = (case_decide publishing 5 8 "p1" yes "ops" one_case).1 in
    let w₁ : World (Cases ℕ) = record w' {
      store = steps memory (record_call "p1" false end 9 ∷ []) w'.store;
    } in
    let (reply₂, w₂) = case_decide publishing 10 11 "p1" yes "ops" w₁ in
    (c₂ : ApprovalCase ℕ) × (reply₂ ≡ already_executed c₂) × (w₂.prompts ≡ w'.prompts)
unfolding memory lookup insert case_decide by_status carry_out find_execution collect_all run_turn
    decided closed brace
executed_never_again_example =
    executed_never_again publishing memory-IsCaseStore (quiet publishing (λ ms s. refl)) 5 8 "p1"
      yes "ops" one_case finished_case spoken_turn (record_call "p1" false end 9 ∷ []) 10 11 yes
      "ops" refl

unconfirmed_is_redrivable_example :
    let w' = (case_decide silent 5 8 "p1" yes "ops" one_case).1 in
    (accepted_case.status ≡ approved)
    × (silent.cases.get "p1" w'.store ≡ some accepted_case)
    × (find_execution numbers silent.codec silent_turn.texts wanted ≡ none)
    × ((case_decide silent 9 10 "p1" yes "ops" w').1.prompts
        ≡ execution_prompt silent.codec "ops" accepted_case ∷ w'.prompts)
unfolding memory lookup insert case_decide by_status carry_out find_execution collect_all run_turn
    decided closed brace
unconfirmed_is_redrivable_example =
    unconfirmed_is_redrivable silent memory-IsCaseStore (λ ms s. refl) 5 8 "p1" yes "ops" one_case
      accepted_case silent_turn 9 10 yes "ops" refl

turn_needs_approval_example :
    let w' = (case_decide publishing 5 8 "p1" yes "ops" one_case).1 in
    (w'.prompts ≡ [])
    ⊎ ((c : ApprovalCase ℕ) × (publishing.cases.get "p1" one_case.store ≡ some c)
        × ((c.status ≡ approved) ⊎ ((c.status ≡ pending) × (true ≡ true)))
        × (w'.prompts
            ≡ record {
              user_id = "ops";
              session_id = c.session_id;
              text = execution_instruction publishing.codec (decide_case true "ann" "fine" 5 c);
            }
              ∷ []))
turn_needs_approval_example =
    turn_needs_approval publishing memory-IsCaseStore 5 8 "p1" yes "ops" one_case

decide_once_example :
    let s' =
      steps memory
        (record_call "p1" true end 9 ∷ [])
        (memory.decide "p1" true "ann" "fine" 5 one_case.store).1 in
    (d : ApprovalCase ℕ) × (memory.get "p1" s' ≡ some d)
    × (d.decided_by ≡ "ann")
    × (d.note ≡ "fine")
    × (d.decided_at ≡ some 5)
    × (d.proposal ≡ wanted)
    × ((memory.decide "p1" false "bob" "no" 10 s').0 ≡ (already_decided, some d))
    × (memory.get "p1" (memory.decide "p1" false "bob" "no" 10 s').1 ≡ some d)
unfolding memory lookup
decide_once_example =
    decide_once memory memory-IsCaseStore "p1" true "ann" "fine" 5 case_one one_case.store
      (record_call "p1" true end 9 ∷ []) false "bob" "no" 10 refl refl

abbrev request : CaseRun
request = record { text = "Publish 2 + 2"; session_id = none; user_id = "ops" }

cases_run_opens_example :
    (reply : RunReply ℕ) × (w' : World (Cases ℕ)) × (cases_run proposing 3 request one_case
      ≡ some (reply, w'))
    × (reply.session_id ≡ (chosen_session proposing request one_case).0)
    × Opened proposing memory-IsCaseStore
        (proposing_turn proposing memory-IsCaseStore request one_case).1.store
        reply.session_id
        reply.opened
        w'.store
cases_run_opens_example = cases_run_opens proposing memory-IsCaseStore 3 request one_case
