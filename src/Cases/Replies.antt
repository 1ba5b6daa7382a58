-- ===== src/Cases/Replies.antt =====
-- app/cluster/cases.py: what a turn's replies say. JSON objects are found in the text of the
-- replies, proposals and confirmed executions among them, and a case is made of a proposal. An
-- event is the part of an ADK event that is read. `uuid4` and the clock are arguments.
pub mod Execution
pub mod Proposals
pub mod Written
pub mod Confirmation
pub mod Scan
pub mod Summary
use Prim.Native.Char.{code}
use Prim.Native.String.{count}
use mathlib.Core.Option
use adk_a2a_gke.Prelude.{
  ℕ, zero, suc, String, Bool, true, false, Option, none, some, List, [], ◌∷◌, ◌++◌, ◌==◌, eqb, ◌||◌,
  ◌&&◌, if◌then◌else◌,
}
use adk_a2a_gke.Json.{
  Json, null, str, arr, obj, Items, nil, cons, Fields, end, field, Number, Codec, get_field, truthy,
  equals, scalars,
}
use adk_a2a_gke.Cases.Case.{ApprovalCase, pending}
use adk_a2a_gke.Text.{strip, concat, first}

-- `text[text.find("{"):]`, or nothing for -1
unfoldable pub find_brace : String → Option String
find_brace String.[] = none
find_brace (String.◌∷◌ c s) =
    let later = find_brace s in if eqb (code c) b'{' then some (String.◌∷◌ c s) else later

-- the text after the character at `index`
abbrev pub after_first : String → String
after_first String.[] = String.[]
after_first (String.◌∷◌ _ s) = s

abbrev pub texts_of : List (Option String) → List String
texts_of [] = []
texts_of (none ∷ ps) = "" ∷ texts_of ps
texts_of (some t ∷ ps) = t ∷ texts_of ps

pub record FunctionResponse (N : Type 0) : Type 0 where
  pub name : Option String
  pub response : Json N

-- `calls` are the names of the function calls.
pub record Event (N : Type 0) : Type 0 where
  pub invocation_id : String
  pub author : String
  pub calls : List (Option String)
  pub responses : List (FunctionResponse N)
  pub parts : List (Option String)
  pub error_message : Option String
  pub is_final : Bool

-- `"".join(p.text or "" for p in event.content.parts).strip()`
unfoldable pub body : {N : Type 0} → Event N → String
unfolding concat strip
body e = strip (concat (texts_of e.parts))

module _ {N : Type 0} (codec : Codec N) where
  -- The loop of `_json_objects_in`, from a brace on; `none` is the end of the fuel.
  unfoldable pub scan : ℕ → Option String → Option (List (Fields N))
  unfolding find_brace
  scan fuel none = some []
  scan zero (some s) = none
  scan (suc fuel) (some s) = elim (codec.raw_decode s) [
    | some (obj fs, rest) ↦ Option.map (◌∷◌ fs) (scan fuel (find_brace rest))
    | _ ↦ scan fuel (find_brace (after_first s))
  ]

  unfoldable pub json_objects_in : String → List (Fields N)
  unfolding scan
  json_objects_in text = Option.get_or (scan (suc (count text)) (find_brace text)) []

unfoldable mutual
  pub unpack : {N : Type 0} → Codec N → Json N → List String
  unpack codec null = []
  unpack codec (str s) = s ∷ []
  unpack codec (obj fs) = codec.dumps fs ∷ unpack_fields codec fs
  unpack codec (arr xs) = unpack_items codec xs
  unpack codec _ = []

  pub unpack_items : {N : Type 0} → Codec N → Items N → List String
  unpack_items codec nil = []
  unpack_items codec (cons x xs) = unpack codec x ++ unpack_items codec xs

  pub unpack_fields : {N : Type 0} → Codec N → Fields N → List String
  unpack_fields codec end = []
  unpack_fields codec (field k v fs) = unpack codec v ++ unpack_fields codec fs

-- every string of every payload
unfoldable pub unpack_all : {N : Type 0} → Codec N → List (FunctionResponse N) → List String
unfolding unpack
unpack_all codec [] = []
unpack_all codec (r ∷ rs) = unpack codec r.response ++ unpack_all codec rs

unfoldable pub reply_texts : {N : Type 0} → Codec N → Event N → List String
unfolding unpack_all body
reply_texts codec e = unpack_all codec e.responses ++ (if body e == "" then [] else body e ∷ [])

-- `obj.get("status") == status`
unfoldable pub has_status : {N : Type 0} → String → Fields N → Bool
unfolding get_field
has_status status fs = elim (get_field "status" fs) [ some (str s) ↦ s == status | _ ↦ false ]

unfoldable pub contains : String → List String → Bool
contains k [] = false
contains k (j ∷ ks) = (j == k) || contains k ks

module _ {N : Type 0} (codec : Codec N) where
  -- One object in the loop of `find_proposals`, on `(seen, found)`.
  unfoldable pub consider : Fields N → List String × List (Fields N) → List String × List (Fields N)
  unfolding has_status get_field contains
  consider o (seen, found) =
      if has_status "approval_required" o
      then (elim (get_field "proposal" o) [
        | some (obj proposal) ↦
            if contains (codec.dumps_sorted proposal) seen
            then (seen, found)
            else (codec.dumps_sorted proposal ∷ seen, found ++ o ∷ [])
        | _ ↦ (seen, found)
      ])
      else (seen, found)

  unfoldable pub consider_all :
      List (Fields N) → List String × List (Fields N) → List String × List (Fields N)
  unfolding consider
  consider_all [] acc = acc
  consider_all (o ∷ os) acc = consider_all os (consider o acc)

  unfoldable pub consider_texts :
      List String → List String × List (Fields N) → List String × List (Fields N)
  unfolding consider_all json_objects_in
  consider_texts [] acc = acc
  consider_texts (t ∷ ts) acc = consider_texts ts (consider_all (json_objects_in codec t) acc)

  unfoldable pub find_proposals : List String → List (Fields N)
  unfolding consider_texts
  find_proposals texts = (consider_texts texts ([], [])).1

-- `dict(found.get("proposal") or {})`: `none` where `dict` raises. A list of pairs, which `dict`
-- takes too, is not modelled; `find_proposals` lets only objects through.
unfoldable pub as_dict : {N : Type 0} → Json N → Option (Fields N)
as_dict (obj fs) = some fs
as_dict _ = none

module _ {N : Type 0} (n : Number N) where
  -- `all(obj.get(key) == value for key, value in wanted.items())`
  unfoldable pub agrees : Fields N → Fields N → Bool
  unfolding get_field equals
  agrees o end = true
  agrees o (field k v fs) = equals n (get_field k o) v && agrees o fs

  unfoldable pub confirms : Fields N → Fields N → Bool
  unfolding agrees has_status
  confirms wanted o = has_status "published" o && agrees o wanted

  unfoldable pub first_confirming : Fields N → List (Fields N) → Option (Fields N)
  unfolding confirms
  first_confirming wanted [] = none
  first_confirming wanted (o ∷ os) =
      let rest = first_confirming wanted os in if confirms wanted o then some o else rest

  unfoldable pub find_in_texts : Codec N → Fields N → List String → Option (Fields N)
  unfolding first_confirming json_objects_in
  find_in_texts codec wanted [] = none
  find_in_texts codec wanted (t ∷ ts) =
      let rest = find_in_texts codec wanted ts in
      elim (first_confirming wanted (json_objects_in codec t)) [ some o ↦ some o | none ↦ rest ]

  unfoldable pub find_execution : Codec N → List String → Fields N → Option (Fields N)
  unfolding find_in_texts scalars
  find_execution codec texts proposal = find_in_texts codec (scalars proposal) texts

  -- `a or b` on what `get` returned
  unfoldable pub first_true : Option (Json N) → Json N → Json N
  unfolding truthy
  first_true none b = b
  first_true (some a) b = if truthy n a then a else b

  -- The case that is built of a proposal; `proposal_id` and `created_at` are drawn by the caller.
  unfoldable pub new_case :
      Codec N → Fields N → String → String → String → String → ℕ → Fields N → ApprovalCase N
  unfolding first_true get_field
  new_case codec found session_id case_id agent proposal_id now proposal = record {
    case_id = case_id;
    proposal_id = proposal_id;
    agent =
        if agent == ""
        then codec.to_text (Option.get_or (get_field "agent" found) (str ""))
        else agent;
    action = codec.to_text (
        first_true (get_field "action" found)
          (Option.get_or (get_field "action" proposal) (str "")));
    summary = codec.to_text (Option.get_or (get_field "summary" found) (str ""));
    proposal = proposal;
    status = pending;
    session_id = session_id;
    decided_by = "";
    note = "";
    result = none;
    created_at = now;
    decided_at = none;
    executed_at = none;
  }

  unfoldable pub case_from_proposal :
      Codec N → Fields N → String → String → String → String → ℕ → Option (ApprovalCase N)
  unfolding new_case first_true as_dict get_field
  case_from_proposal codec found session_id case_id agent proposal_id now =
      Option.map (new_case codec found session_id case_id agent proposal_id now)
        (as_dict (first_true (get_field "proposal" found) (obj end)))

-- `uuid.uuid4().hex[:12]`, from the drawn `hex`
unfoldable pub new_proposal_id : String → String
unfolding first
new_proposal_id hex = first 12 hex

unfoldable pub execution_instruction : {N : Type 0} → Codec N → ApprovalCase N → String
unfolding concat
execution_instruction codec c =
    let note = if c.note == "" then "" else concat ("\nThe approver noted: " ∷ c.note ∷ []) in
    concat (
      "A human has APPROVED this proposal from the '"
      ∷ c.agent
      ∷ "' specialist:\n"
      ∷ codec.dumps_sorted c.proposal
      ∷ "\nApproved by: "
      ∷ (if c.decided_by == "" then "unknown" else c.decided_by)
      ∷ note
      ∷ "\n\nSend the specialist the SAME request that produced this proposal, with `approved_by` set to the approver above and `decision_note` set to their note. Do not change any other field. Then report what the specialist returned."
      ∷ [])
