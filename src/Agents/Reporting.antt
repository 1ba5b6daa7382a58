-- ===== src/Agents/Reporting.antt =====
-- app/agents/reporting.py: the callback that restates a turn's audited tool results as JSON. The
-- values of a payload are JSON values, which `json.dumps` takes without a default.
pub mod Notes
pub mod Kept
pub mod Restated
use adk_a2a_gke.Prelude.{
  String, Bool, true, false, Option, none, some, List, [], ◌∷◌, ◌++◌, ◌==◌, ◌&&◌, ◌||◌, not,
  if◌then◌else◌, Attempt, returned, raised, type_error, ◌>>=◌,
}
use adk_a2a_gke.Json.{Json, str, arr, obj, Fields, Codec, get_field}
use adk_a2a_gke.Text.{concat}
use adk_a2a_gke.Cases.Replies.{Event, FunctionResponse, body, contains}

-- `spoken` after an event of the agent's own or of another author
abbrev pub spoken_after : Bool → String → String → String
spoken_after own text spoken = if own && not (text == "") then text else spoken

-- `seen` and `results`
abbrev pub Noted : Type 0 → Type 0
Noted N = List String × List (Fields N)

module _ {N : Type 0} where
  -- the wrapped result where it is an object
  abbrev pub inner_or : Option (Json N) → Fields N → Fields N
  inner_or (some (obj inner)) payload = inner
  inner_or _ payload = payload

  unfoldable pub payloads_of : List (FunctionResponse N) → List (Fields N)
  unfolding get_field
  payloads_of [] = []
  payloads_of (r ∷ rs) = elim r.response [
    | obj payload ↦ inner_or (get_field "result" payload) payload ∷ payloads_of rs
    | _ ↦ payloads_of rs
  ]

  -- `_payloads`
  unfoldable pub payloads : Event N → List (Fields N)
  unfolding payloads_of
  payloads e = payloads_of e.responses

  -- `status in AUDITED_STATUSES`: a list or a dict is not hashable
  unfoldable pub audited : Option (Json N) → Attempt Bool
  audited (some (str s)) = returned (s == "approval_required" || s == "published")
  audited (some (arr _)) = raised type_error
  audited (some (obj _)) = raised type_error
  audited _ = returned false

  module _ (codec : Codec N) where
    unfoldable pub add : Fields N → Noted N → Noted N
    unfolding contains
    add payload (seen, results) =
        let key = codec.dumps_sorted payload in
        if contains key seen then (seen, results) else (key ∷ seen, results ++ payload ∷ [])

    abbrev pub add_if : Bool → Fields N → Noted N → Noted N
    add_if true payload noted = add payload noted
    add_if false payload noted = noted

    -- the loop over the payloads of an event
    unfoldable pub note_all : List (Fields N) → Noted N → Attempt (Noted N)
    unfolding audited get_field add
    note_all [] noted = returned noted
    note_all (payload ∷ ps) noted =
        audited (get_field "status" payload) >>= λ wanted. note_all ps (add_if wanted payload noted)

    -- the loop over the events of the session: `spoken` and what was noted
    unfoldable pub read_events :
        String → String → List (Event N) → String × Noted N → Attempt (String × Noted N)
    unfolding note_all payloads body
    read_events invocation agent [] acc = returned acc
    read_events invocation agent (e ∷ es) (spoken, noted) =
        let skipped = read_events invocation agent es (spoken, noted) in
        let read = note_all (payloads e) noted >>= λ noted'.
        read_events invocation agent es
          (spoken_after (e.author == agent) (body e) spoken, noted') in
        if e.invocation_id == invocation then read else skipped

    -- `"\n".join(json.dumps(result) for result in results)`
    unfoldable pub blocks : List (Fields N) → String
    blocks [] = ""
    blocks (r ∷ []) = codec.dumps_sorted r
    blocks (r ∷ r' ∷ rs) = concat (codec.dumps_sorted r ∷ "\n" ∷ blocks (r' ∷ rs) ∷ [])

    unfoldable pub reply : String × Noted N → Option String
    unfolding blocks concat
    reply (spoken, (seen, [])) = none
    reply (spoken, (seen, r ∷ rs)) = some (
        if spoken == ""
        then blocks (r ∷ rs)
        else concat (spoken ∷ "\n\nStructured result(s):\n" ∷ blocks (r ∷ rs) ∷ []))

    -- `restate_structured_results`
    unfoldable pub restate_structured_results :
        String → String → List (Event N) → Attempt (Option String)
    unfolding read_events reply
    restate_structured_results invocation agent events =
        read_events invocation agent events ("", ([], [])) >>= λ acc. returned (reply acc)
