-- ===== src/Tests/Reporting.antt =====
-- The reporting callback at a concrete session.
use mathlib.Core.Path.{sym, ap}
use text.Mathlib.TextLemmas.{cons-append, nil-append}
use adk_a2a_gke.Prelude.{
  ℕ, Option, String, ◌≡◌, refl, true, none, some, All, In, [], ◌∷◌, inl, returned,
}
use adk_a2a_gke.Json.{Json, obj, get_field, Fields, field, end}
use adk_a2a_gke.Cases.Replies.{Event, body, has_status, find_brace, contains, find_proposals}
use adk_a2a_gke.Cases.Replies.Proposals.{IsProposal, key, keys}
use adk_a2a_gke.Agents.Reporting.{payloads, restate_structured_results}
use adk_a2a_gke.Agents.Reporting.Restated.{IsRestoring, restated_proposal_found}
use adk_a2a_gke.Tests.Engines.{brace, brace-IsConsuming}
use adk_a2a_gke.Tests.Endpoints.{wanted, asking}

as_read : String → Fields ℕ → Option (Json ℕ × String)
as_read rest fs = some (obj fs, rest)

brace-IsRestoring : IsRestoring (brace asking) (λ fs. fs ≡ asking) (λ fs. fs)
unfolding brace find_brace as_read
brace-IsRestoring = record {
  opens = λ fs rest w. rw (cons-append, nil-append) refl;
  decodes = λ fs rest w. rw (cons-append, nil-append) (ap (as_read rest) (sym w));
  keeps_text = λ k s fs e. e;
  keeps_object = λ k fs gs e. e;
  same_text = λ fs. refl;
}

abbrev answered : Event ℕ
answered = record {
  invocation_id = "turn";
  author = "math";
  calls = [];
  responses =
      record { name = some "propose"; response = obj (field "result" (obj asking) end) } ∷ [];
  parts = some " done " ∷ none ∷ [];
  error_message = none;
  is_final = true;
}

restated_text :
    restate_structured_results (brace asking) "turn" "math" (answered ∷ [])
    ≡ returned (some "done\n\nStructured result(s):\n{")
unfolding restate_structured_results brace
restated_text = refl

restated_nothing :
    restate_structured_results (brace asking) "other" "math" (answered ∷ []) ≡ returned none
unfolding restate_structured_results brace
restated_nothing = refl

asking-IsProposal : IsProposal asking
unfolding has_status get_field
asking-IsProposal = record { asks = refl; proposal = wanted; has_proposal = refl }

plain :
    All (λ e. All (λ fs. fs ≡ asking) (payloads e) × (find_brace (body e) ≡ none)) (answered ∷ [])
unfolding payloads find_brace body
plain = (((refl, tt), refl), tt)

listed : In asking (payloads answered)
unfolding payloads
listed = inl refl

restated_proposal_found_example :
    (text : String) × (some "done\n\nStructured result(s):\n{" ≡ some text)
    × (contains
          (key (brace asking) asking)
          (keys (brace asking) (find_proposals (brace asking) (text ∷ [])))
        ≡ true)
restated_proposal_found_example =
    restated_proposal_found (brace asking) (λ fs. fs ≡ asking) (λ fs. fs) (brace-IsConsuming asking)
      brace-IsRestoring "turn" "math" (answered ∷ []) (some "done\n\nStructured result(s):\n{")
      answered asking plain restated_text (inl refl) refl listed asking-IsProposal
