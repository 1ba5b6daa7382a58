-- ===== src/Agents/Reporting/Restated.antt =====
-- app/agents/reporting.py with app/cluster/cases.py: what an agent restates, its caller finds.
use Prim.Native.String.{◌++◌}
use mathlib.Core.Path.{subst}
use mathlib.Core.Option.{some-injective}
use text.Mathlib.TextLemmas.{append-nil, nil-append, append_assoc}
use mathlib.Core.List
use adk_a2a_gke.Prelude.{
  String, ◌≡◌, refl, sym, ◌∙◌, ap, true, Option, none, some, List, [], ◌∷◌, map, ◌==◌, In, inl, inr,
  returned, arith, Bool-cases, All, All-In, bind-returned, returned_injective,
}
use adk_a2a_gke.Json.{Json, str, obj, Fields, Codec, get_field}
use adk_a2a_gke.Text.{concat}
use adk_a2a_gke.Cases.Replies.{
  Event, body, find_brace, scan, json_objects_in, has_status, contains, find_proposals,
}
use adk_a2a_gke.Cases.Replies.Scan.{IsConsuming, find_brace-append, json_objects_in-write}
use adk_a2a_gke.Cases.Replies.Execution.{objects_of}
use adk_a2a_gke.Agents.Reporting.Kept.{read_turn}
use adk_a2a_gke.Cases.Replies.Proposals.{IsProposal, key, keys, find_proposals_complete}
use adk_a2a_gke.Agents.Reporting.{
  payloads, audited, read_events, blocks, reply, restate_structured_results,
}

-- `json.dumps(..., sort_keys=True)` writes text that starts with a brace and that decodes to the
-- same object, `sorted` with its keys in order, up to where the text ends. `Written` are the
-- objects that are payloads: no key occurs twice in them.
pub record IsRestoring {N : Type 0} (codec : Codec N) (Written : Fields N → Type 0)
    (sorted : Fields N → Fields N) : Type 0 where
  pub opens :
      (fs : Fields N) (rest : String)
      → Written fs
      → find_brace (codec.dumps_sorted fs ++ rest) ≡ some (codec.dumps_sorted fs ++ rest)
  pub decodes :
      (fs : Fields N) (rest : String)
      → Written fs
      → codec.raw_decode (codec.dumps_sorted fs ++ rest) ≡ some (obj (sorted fs), rest)
  pub keeps_text :
      (k s : String) (fs : Fields N)
      → get_field k fs ≡ some (str s)
      → get_field k (sorted fs) ≡ some (str s)
  pub keeps_object :
      (k : String) (fs gs : Fields N)
      → get_field k fs ≡ some (obj gs)
      → get_field k (sorted fs) ≡ some (obj (sorted gs))
  pub same_text : (fs : Fields N) → codec.dumps_sorted (sorted fs) ≡ codec.dumps_sorted fs

abbrev header : String
header = "\n\nStructured result(s):\n"

module _ {N : Type 0} (codec : Codec N) (Written : Fields N → Type 0) (sorted : Fields N → Fields N)
    (used : IsConsuming codec) (h : IsRestoring codec Written sorted) where
  nothing_in : (s : String) → find_brace s ≡ none → json_objects_in codec s ≡ []
  unfolding json_objects_in scan
  nothing_in s e = rw e refl

  written :
      (pre rest : String) (fs : Fields N)
      → Written fs
      → find_brace pre ≡ none
      → json_objects_in codec (pre ++ (codec.dumps_sorted fs ++ rest))
        ≡ sorted fs ∷ json_objects_in codec rest
  written pre rest fs w e =
      json_objects_in-write codec used pre (codec.dumps_sorted fs) rest (sorted fs) e
        (h.opens fs rest w) (h.decodes fs rest w)

  objects_in_blocks :
      (pre : String) (r : Fields N) (rs : List (Fields N))
      → All Written (r ∷ rs)
      → find_brace pre ≡ none
      → json_objects_in codec (pre ++ blocks codec (r ∷ rs)) ≡ map sorted (r ∷ rs)
  unfolding blocks concat
  objects_in_blocks pre r [] (w, _) e =
      ap (λ t. json_objects_in codec (pre ++ t)) (sym (append-nil (codec.dumps_sorted r)))
      ∙ written pre "" r w e
      ∙ ap (◌∷◌ (sorted r)) (nothing_in "" (unfold find_brace in refl))
  objects_in_blocks pre r (r' ∷ rs) (w, ws) e =
      written pre ("\n" ++ (blocks codec (r' ∷ rs) ++ "")) r w e
      ∙ ap (λ t. sorted r ∷ json_objects_in codec ("\n" ++ t)) (append-nil (blocks codec (r' ∷ rs)))
      ∙ ap (◌∷◌ (sorted r)) (objects_in_blocks "\n" r' rs ws (unfold find_brace in refl))

  -- The text of a reply holds the results, in order, when the spoken part has no brace.
  pub objects_in_reply :
      (spoken : String) (seen : List String) (results : List (Fields N)) (text : String)
      → All Written results
      → find_brace spoken ≡ none
      → reply codec (spoken, (seen, results)) ≡ some text
      → json_objects_in codec text ≡ map sorted results
  unfolding reply concat
  objects_in_reply spoken seen [] text w e f = absurd (cc f)
  objects_in_reply spoken seen (r ∷ rs) text w e f = elim (Bool-cases (spoken == "")) [
    | inl empty ↦
        let same : blocks codec (r ∷ rs) ≡ text = some-injective _ _ (ground (arith, f, empty)) in
        ap (json_objects_in codec) (sym same ∙ sym (nil-append (blocks codec (r ∷ rs))))
        ∙ objects_in_blocks "" r rs w (unfold find_brace in refl)
    | inr f' ↦
        let same : spoken ++ (header ++ (blocks codec (r ∷ rs) ++ "")) ≡ text =
          some-injective _ _ (ground (arith, f, f')) in
        ap (json_objects_in codec) (
          sym same
          ∙ ap (λ t. spoken ++ (header ++ t)) (append-nil (blocks codec (r ∷ rs)))
          ∙ sym (append_assoc spoken header (blocks codec (r ∷ rs))))
        ∙ objects_in_blocks (spoken ++ header) r rs w
            (find_brace-append spoken header e ∙ (unfold find_brace in refl))
  ]

  status_text :
      (status : String) (fs : Fields N)
      → has_status status fs ≡ true
      → (s : String) × (get_field "status" fs ≡ some (str s)) × ((s == status) ≡ true)
  unfolding has_status
  status_text status fs asks = go (get_field "status" fs) refl
    where
      go :
          (o : Option (Json N))
          → get_field "status" fs ≡ o
          → (s : String) × (get_field "status" fs ≡ some (str s)) × ((s == status) ≡ true)
      go (some (str s)) e = (s, e, ground (arith, asks, e))
      go _ e = absurd (ground (arith, asks, e))

  sorted_of_text :
      (fs gs : Fields N)
      → Written fs
      → Written gs
      → codec.dumps_sorted fs ≡ codec.dumps_sorted gs
      → sorted fs ≡ sorted gs
  sorted_of_text fs gs v w e =
      let same : some (obj (sorted fs), "") ≡ some (obj (sorted gs), "") =
        sym (h.decodes fs "" v) ∙ ap (λ t. codec.raw_decode (t ++ "")) e ∙ h.decodes gs "" w in
      cc same

  In-map : (q : Fields N) (rs : List (Fields N)) → In q rs → In (sorted q) (map sorted rs)
  In-map q [] i = absurd (i refl)
  In-map q (r ∷ rs) (inl e) = inl (ap sorted e)
  In-map q (r ∷ rs) (inr i) = inr (In-map q rs i)

  sorted-IsProposal : (fs : Fields N) → IsProposal fs → IsProposal (sorted fs)
  unfolding has_status
  sorted-IsProposal fs p = record {
    asks =
        let (s, e, same) = status_text "approval_required" fs p.asks in
        rw (h.keeps_text "status" s fs e, has_status) same;
    proposal = sorted p.proposal;
    has_proposal = h.keeps_object "proposal" fs p.proposal p.has_proposal;
  }

  key-sorted : (fs : Fields N) → IsProposal fs → key codec (sorted fs) ≡ key codec fs
  key-sorted fs p = ground (
    arith,
    p.has_proposal,
    h.keeps_object "proposal" fs p.proposal p.has_proposal,
    h.same_text p.proposal,
  )

  objects_of-single : (text : String) → objects_of codec (text ∷ []) ≡ json_objects_in codec text
  unfolding objects_of
  objects_of-single text = List.append-nil (json_objects_in codec text)

  asked : (fs : Fields N) → IsProposal fs → audited (get_field "status" fs) ≡ returned true
  unfolding audited
  asked fs p =
      let (s, e, same) = status_text "approval_required" fs p.asks in rw (e, audited, same) refl

  replied :
      (spoken : String) (seen : List String) (results : List (Fields N)) (q : Fields N)
      → In q results
      → (text : String) × (reply codec (spoken, (seen, results)) ≡ some text)
  unfolding reply
  replied spoken seen [] q k = absurd (k refl)
  replied spoken seen (r ∷ rs) q k = (_, refl)

  delivered :
      (fs : Fields N) (p : IsProposal fs) (q : Fields N) (spoken : String) (seen : List String)
      (results : List (Fields N)) (restated : Option String)
      → Written fs
      → All Written results
      → find_brace spoken ≡ none
      → In q results
      → codec.dumps_sorted q ≡ codec.dumps_sorted fs
      → reply codec (spoken, (seen, results)) ≡ restated
      → (text : String) × (restated ≡ some text)
        × (contains (key codec fs) (keys codec (find_proposals codec (text ∷ []))) ≡ true)
  delivered fs p q spoken seen results restated v ws plain k same said =
      let (text, e) = replied spoken seen results q k in
      let found : In (sorted fs) (objects_of codec (text ∷ [])) =
        subst (In (sorted fs))
          (sym (objects_of-single text ∙ objects_in_reply spoken seen results text ws plain e))
          (subst (λ x. In x (map sorted results))
            (sorted_of_text q fs (All-In Written results q ws k) v same) (In-map q results k)) in
      (
        text,
        sym said ∙ e,
        subst (λ x. contains x (keys codec (find_proposals codec (text ∷ []))) ≡ true)
            (key-sorted fs p)
            (find_proposals_complete codec (text ∷ []) (sorted fs) found (sorted-IsProposal fs p)),
      )

  -- When no text of the session's events has a brace and the callback does not raise, each tool
  -- result of the turn that asks for an approval of a proposed action reaches the caller: the
  -- callback restates, and the caller's `find_proposals` finds the proposal in the restated text.
  pub restated_proposal_found :
      (invocation agent : String) (events : List (Event N)) (restated : Option String) (e : Event N)
      (fs : Fields N)
      → All (λ e. All Written (payloads e) × (find_brace (body e) ≡ none)) events
      → restate_structured_results codec invocation agent events ≡ returned restated
      → In e events
      → (e.invocation_id == invocation) ≡ true
      → In fs (payloads e)
      → IsProposal fs
      → (text : String) × (restated ≡ some text)
        × (contains (key codec fs) (keys codec (find_proposals codec (text ∷ []))) ≡ true)
  unfolding restate_structured_results
  restated_proposal_found invocation agent events restated e fs a r i own j p =
      let ((spoken, (seen, results)), read, said) =
        bind-returned (read_events codec invocation agent events ("", ([], []))) _ restated r in
      let (ws, plain, q, k, same) =
        read_turn codec Written invocation agent events spoken seen results e fs a read i own j
          (asked fs p) in
      delivered fs p q spoken seen results restated
        (All-In Written (payloads e) fs (All-In _ events e a i).0 j) ws plain k same
        (returned_injective _ _ said)
