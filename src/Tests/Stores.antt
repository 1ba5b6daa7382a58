-- ===== src/Tests/Stores.antt =====
-- The stores and the reading of replies at concrete inputs.
use adk_a2a_gke.Prelude.{
  ◌⊎◌, ◌++◌, none, inr, List, some, All, ℕ, true, [], ◌∷◌, ◌≡◌, refl, inl, arith,
}
use adk_a2a_gke.Json.{get_field}
use adk_a2a_gke.Cases.Store.{IsCaseStore}
use adk_a2a_gke.Cases.Memory.{memory, memory-IsCaseStore}
use adk_a2a_gke.Cases.Table.Contract.{IsCaseTable, table-IsCaseTable}
use adk_a2a_gke.Cases.Replies.{
  has_status, contains, find_proposals, find_brace, scan, json_objects_in, find_execution,
}
use adk_a2a_gke.Cases.Replies.Execution.{objects_of}
use adk_a2a_gke.Cases.Replies.Confirmation.{IsConfirmation, find_execution_lem}
use adk_a2a_gke.Json.{Fields}
use adk_a2a_gke.Cases.Replies.Written.{written_proposal_found, first_here}
use adk_a2a_gke.Cases.Replies.Proposals.{IsProposal, IsDistinct, key, keys, find_proposals_sound}
use adk_a2a_gke.Cases.Replies.Scan.{json_objects_in_total}
use adk_a2a_gke.Tests.Engines.{sqlite, sqlite-IsEngine, numbers, brace, brace-IsConsuming}
use adk_a2a_gke.Tests.Endpoints.{wanted, confirmation, asking}

memory-IsCaseStore_example : IsCaseStore (memory {N = ℕ})
memory-IsCaseStore_example = memory-IsCaseStore {N = ℕ}

table-IsCaseTable_example : IsCaseTable sqlite
table-IsCaseTable_example = table-IsCaseTable sqlite sqlite-IsEngine

find_proposals_sound_example :
    All IsProposal (find_proposals (brace asking) ("so: {" ∷ "{ {" ∷ []))
    × IsDistinct (keys (brace asking) (find_proposals (brace asking) ("so: {" ∷ "{ {" ∷ [])))
find_proposals_sound_example = find_proposals_sound (brace asking) ("so: {" ∷ "{ {" ∷ [])

written_proposal_found_example :
    contains
      (key (brace asking) asking)
      (keys (brace asking) (find_proposals (brace asking) ("no" ∷ "so: {" ∷ [])))
    ≡ true
unfolding brace find_brace get_field has_status
written_proposal_found_example =
    written_proposal_found (brace asking) (brace-IsConsuming asking) ("no" ∷ "so: {" ∷ []) "so: {"
      asking (inr (inl refl)) (first_here {s = "{"} {rest = ""} refl refl)
      (record { asks = refl; proposal = wanted; has_proposal = refl })

find_execution_lem_example :
    ((find_execution numbers (brace confirmation) ("done: {" ∷ []) wanted ≡ none)
      × All
          (λ o. ¬ IsConfirmation numbers wanted o)
          (objects_of (brace confirmation) ("done: {" ∷ [])))
    ⊎ ((o : Fields ℕ) × (before : List (Fields ℕ)) × (after : List (Fields ℕ)) × (find_execution
            numbers
            (brace confirmation)
            ("done: {" ∷ [])
            wanted
          ≡ some o)
        × (objects_of (brace confirmation) ("done: {" ∷ []) ≡ before ++ o ∷ after)
        × IsConfirmation numbers wanted o
        × All (λ x. ¬ IsConfirmation numbers wanted x) before)
find_execution_lem_example = find_execution_lem numbers (brace confirmation) ("done: {" ∷ []) wanted

json_objects_in_total_example :
    scan (brace asking) 6 (find_brace "so: {") ≡ some (json_objects_in (brace asking) "so: {")
json_objects_in_total_example =
    json_objects_in_total (brace asking) (brace-IsConsuming asking) 6 "so: {" (omega arith)
