-- ===== src/Cluster/Peer/Typed.antt =====
-- What a specialist is sent: payloads of its contract only.
use mathlib.Core.Option
use mathlib.Core.Option.{some-injective}
use mathlib.Core.Path.{subst}
use adk_a2a_gke.Prelude.{
  String, ◌≡◌, refl, sym, ap, ◌∙◌, ◌⊎◌, inl, inr, Bool, true, false, ◌==◌, ◌&&◌, not, if◌then◌else◌,
  Option, none, some, List, [], ◌∷◌, lookup, lookup-All, Attempt, raised, value_error, Option-cases,
  Bool-cases, eq_refl, eq_iff, arith,
}
use adk_a2a_gke.Json.{Json, str, arr, Items, nil, cons, Fields, end, field, get_field}
use adk_a2a_gke.Agents.Contracts.{
  FieldType, string, strings, Default, text_default, empty_list, ContractField, Contract, payloads,
}
use adk_a2a_gke.Cluster.Config.{PeerTool}
use adk_a2a_gke.Cluster.Peer.{Pydantic, run_async}

module _ {N : Type 0} where
  abbrev pub all_texts : Items N → Bool
  all_texts nil = true
  all_texts (cons (str _) vs) = all_texts vs
  all_texts (cons _ vs) = false

  -- the JSON values that a field of the type accepts
  abbrev pub fits : FieldType → Json N → Bool
  fits string (str _) = true
  fits string _ = false
  fits strings (arr vs) = all_texts vs
  fits strings _ = false

  abbrev pub default_json : Default → Json N
  default_json (text_default t) = str t
  default_json empty_list = arr nil

  -- what a field gets: the argument of its name if it fits, or else the default
  abbrev pub given : ContractField → Option (Json N) → Option (Json N)
  given f none = Option.map default_json f.default_value
  given f (some v) = if fits f.field_type v then some v else none

  abbrev with_field : String → Option (Json N) → Option (Fields N) → Option (Fields N)
  with_field k none rest = none
  with_field k (some v) none = none
  with_field k (some v) (some r) = some (field k v r)

  -- The payload that Pydantic documents for arguments: the declared fields in their order, and
  -- nothing else; none where a field is missing that has no default, or does not fit.
  abbrev pub payload_of : List ContractField → Fields N → Option (Fields N)
  payload_of [] args = some end
  payload_of (f ∷ fs) args =
      with_field f.name (given f (get_field f.name args)) (payload_of fs args)

  -- The fields are those declared, in order, and each fits.
  abbrev pub IsTyped : List ContractField → Fields N → Type 0
  IsTyped [] end = Unit
  IsTyped [] (field _ _ _) = true ≡ false
  IsTyped (f ∷ fs) end = true ≡ false
  IsTyped (f ∷ fs) (field k v r) = (k ≡ f.name) × (fits f.field_type v ≡ true) × IsTyped fs r

abbrev fits_default : FieldType → Option Default → Bool
fits_default t none = true
fits_default string (some (text_default _)) = true
fits_default string (some empty_list) = false
fits_default strings (some (text_default _)) = false
fits_default strings (some empty_list) = true

abbrev other_names : String → List ContractField → Bool
other_names k [] = true
other_names k (f ∷ fs) = not (f.name == k) && other_names k fs

-- distinct names, and defaults that fit
abbrev formed : List ContractField → Bool
formed [] = true
formed (f ∷ fs) = fits_default f.field_type f.default_value && other_names f.name fs && formed fs

formed-parts :
    (f : ContractField) (fs : List ContractField)
    → formed (f ∷ fs) ≡ true
    → (fits_default f.field_type f.default_value ≡ true)
      × (other_names f.name fs ≡ true)
      × (formed fs ≡ true)
formed-parts f fs h = (ground (arith, h), ground (arith, h), ground (arith, h))

default-fits :
    (N : Type 0) (t : FieldType) (d : Default)
    → fits_default t (some d) ≡ true
    → fits t (default_json {N = N} d) ≡ true
default-fits N string (text_default _) e = refl
default-fits N string empty_list e = absurd (cc e)
default-fits N strings (text_default _) e = absurd (cc e)
default-fits N strings empty_list e = refl

module _ {N : Type 0} where
  given-fits :
      (f : ContractField) (o : Option (Json N)) (v : Json N)
      → fits_default f.field_type f.default_value ≡ true
      → given f o ≡ some v
      → fits f.field_type v ≡ true
  given-fits f (some w) v d e = elim (Bool-cases (fits f.field_type w)) [
    | inl t ↦ ground (arith, t, e)
    | inr n ↦ absurd (ground (arith, n, e))
  ]
  given-fits f none v d e = elim (Option-cases f.default_value) [
    | inl n ↦ absurd (ground (arith, n, e))
    | inr (x, s) ↦
        subst (λ u. fits f.field_type u ≡ true)
          (some-injective (default_json x) v (sym (ap (Option.map default_json) s) ∙ e))
          (default-fits N f.field_type x (sym (ap (fits_default f.field_type) s) ∙ d))
  ]

  with_field-parts :
      (k : String) (o : Option (Json N)) (rest : Option (Fields N)) (r : Fields N)
      → with_field k o rest ≡ some r
      → (v : Json N) × (r' : Fields N) × (o ≡ some v) × (rest ≡ some r') × (field k v r' ≡ r)
  with_field-parts k none rest r e = absurd (cc e)
  with_field-parts k (some v) none r e = absurd (cc e)
  with_field-parts k (some v) (some r') r e = (v, r', refl, refl, some-injective (field k v r') r e)

  payload_of-IsTyped :
      (fs : List ContractField) (args r : Fields N)
      → formed fs ≡ true
      → payload_of fs args ≡ some r
      → IsTyped fs r
  payload_of-IsTyped [] args r h e = subst (IsTyped []) (some-injective end r e) tt
  payload_of-IsTyped (f ∷ fs) args r h e =
      let (d, _, h') = formed-parts f fs h in
      let (v, r', g, rest, same) =
        with_field-parts f.name (given f (get_field f.name args)) (payload_of fs args) r e in
      subst (IsTyped (f ∷ fs)) same
        (refl, given-fits f (get_field f.name args) v d g, payload_of-IsTyped fs args r' h' rest)

  -- A field that none of the declared is named after is not read.
  payload_of_skip :
      (fs : List ContractField) (k : String) (v : Json N) (r : Fields N)
      → other_names k fs ≡ true
      → payload_of fs (field k v r) ≡ payload_of fs r
  unfolding get_field
  payload_of_skip [] k v r h = refl
  payload_of_skip (f ∷ fs) k v r h =
      let differs : (k == f.name) ≡ false = ground (arith, h, eq_iff f.name k, eq_iff k f.name) in
      rw (differs, payload_of_skip fs k v r (ground (arith, h))) refl

  -- What is typed is its own payload.
  payload_of_again :
      (fs : List ContractField) (r : Fields N)
      → formed fs ≡ true
      → IsTyped fs r
      → payload_of fs r ≡ some r
  unfolding get_field
  payload_of_again [] end h t = refl
  payload_of_again [] (field k v r) h t = absurd (cc t)
  payload_of_again (f ∷ fs) end h t = absurd (cc t)
  payload_of_again (f ∷ fs) (field k v r) h (same, ok, t) =
      let (_, o, h') = formed-parts f fs h in
      rw (same, eq_refl f.name, ok, payload_of_skip fs f.name v r o, payload_of_again fs r h' t)
        refl

payloads-formed :
    (name : String) (c : Contract) → lookup name payloads ≡ some c → formed c.fields ≡ true
payloads-formed name c e =
    lookup-All (λ d. formed d.fields ≡ true) name c payloads (refl, (refl, (refl, tt))) e

-- What a call of a tool may do: raise `ValueError` and send nothing, where the contract documents
-- no payload for the arguments; or send, once, a payload of the contract that the contract reads
-- back unchanged.
abbrev pub Delegates :
    {N P R W : Type 0}
    → Pydantic N P
    → (Fields N → W → Attempt R × W)
    → PeerTool Contract
    → Contract
    → Fields N
    → W
    → Type 0
Delegates {N} p deliver t c args w =
    ((payload_of c.fields args ≡ none) × (run_async p deliver t args w ≡ (raised value_error, w)))
    ⊎ ((fs : Fields N) × (run_async p deliver t args w ≡ deliver fs w)
        × IsTyped c.fields fs
        × (Option.map p.model_dump (p.model_validate c fs) ≡ some fs))

module _ {N P : Type 0} (p : Pydantic N P)
    (documented : (c : Contract) (args : Fields N)
      → Option.map p.model_dump (p.model_validate c args) ≡ payload_of c.fields args) where
  -- `run_async` raises before anything is sent, or sends the documented payload.
  sends :
      {R W : Type 0} (deliver : Fields N → W → Attempt R × W) (t : PeerTool Contract)
      (args : Fields N) (w : W) (o : Option (Fields N))
      → payload_of t.payload_schema.fields args ≡ o
      → run_async p deliver t args w
        ≡ elim o [ none ↦ (raised value_error, w) | some fs ↦ deliver fs w ]
  unfolding run_async
  sends deliver t args w o e = elim (Option-cases (p.model_validate t.payload_schema args)) [
    | inl n ↦
        let none_too =
          sym e ∙ sym (documented t.payload_schema args) ∙ ap (Option.map p.model_dump) n in
        rw (none_too, run_async, n) refl
    | inr (x, s) ↦
        let dumped =
          sym e ∙ sym (documented t.payload_schema args) ∙ ap (Option.map p.model_dump) s in
        rw (dumped, run_async, s) refl
  ]

  -- Pydantic validates and dumps as it documents, and the tool's contract is the one of `PAYLOADS`
  -- under the tool's name. A call of the tool either raises `ValueError` and sends nothing, where
  -- an argument is missing or does not fit; or it sends, once, exactly the fields of the contract,
  -- each of its type, and a specialist that validates them against the same contract reads them
  -- unchanged.
  pub run_async_typed :
      {R W : Type 0} (deliver : Fields N → W → Attempt R × W) (t : PeerTool Contract)
      (args : Fields N) (w : W)
      → lookup t.name payloads ≡ some t.payload_schema
      → Delegates p deliver t t.payload_schema args w
  run_async_typed deliver t args w known =
      let h = payloads-formed t.name t.payload_schema known in
      elim (Option-cases (payload_of t.payload_schema.fields args)) [
        | inl e ↦ inl (e, sends deliver t args w none e)
        | inr (fs, e) ↦
            let typed = payload_of-IsTyped t.payload_schema.fields args fs h e in
            inr (
              fs,
              sends deliver t args w (some fs) e,
              typed,
              documented t.payload_schema fs ∙ payload_of_again t.payload_schema.fields fs h typed,
            )
      ]
