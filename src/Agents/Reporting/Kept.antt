-- ===== src/Agents/Reporting/Kept.antt =====
-- app/agents/reporting.py: each audited result of a turn is among those that are restated.
use mathlib.Core.Path.{subst}
use adk_a2a_gke.Prelude.{
  String, ◌≡◌, refl, sym, ◌∙◌, ap, Bool, true, false, not, ◌&&◌, none, List, [], ◌∷◌, ◌==◌, In, inl,
  inr, returned, arith, Bool-cases, All, bind-returned, returned_injective,
}
use adk_a2a_gke.Json.{Fields, Codec, get_field}
use adk_a2a_gke.Cases.Replies.{Event, body, find_brace, contains}
use adk_a2a_gke.Agents.Reporting.{Noted, payloads, audited, note_all, read_events, spoken_after}
use adk_a2a_gke.Agents.Reporting.Notes.{
  IsKept, Kept, Grows, outgrows, Kept-Grows, note_all-IsKept, note_all-Kept, note_all-Written,
}

module _ {N : Type 0} (codec : Codec N) (Written : Fields N → Type 0) where
  -- What the loop over the events keeps: the keys' results, and no brace in what was spoken.
  record Holds (acc : String × Noted N) : Type 0 where
    pub kept : IsKept codec Written acc.1
    pub plain : find_brace acc.0 ≡ none
    pub written : All Written acc.1.1

  spoken_after-plain :
      (own : Bool) (text spoken : String)
      → find_brace text ≡ none
      → find_brace spoken ≡ none
      → find_brace (spoken_after own text spoken) ≡ none
  spoken_after-plain own text spoken e f = elim (Bool-cases (own && not (text == ""))) [
    | inl g ↦ rw g e
    | inr g ↦ rw g f
  ]

  read_events-skip :
      (invocation agent : String) (e : Event N) (es : List (Event N)) (acc : String × Noted N)
      → (e.invocation_id == invocation) ≡ false
      → read_events codec invocation agent (e ∷ es) acc ≡ read_events codec invocation agent es acc
  unfolding read_events
  read_events-skip invocation agent e es (spoken, noted) f = rw (f, read_events) refl

  read_events-read :
      (invocation agent : String) (e : Event N) (es : List (Event N)) (spoken : String)
      (noted : Noted N) (after : String × Noted N)
      → (e.invocation_id == invocation) ≡ true
      → read_events codec invocation agent (e ∷ es) (spoken, noted) ≡ returned after
      → (noted' : Noted N) × (note_all codec (payloads e) noted ≡ returned noted')
        × (read_events codec invocation agent es
              (spoken_after (e.author == agent) (body e) spoken, noted')
            ≡ returned after)
  unfolding read_events
  read_events-read invocation agent e es spoken noted after f g =
      bind-returned (note_all codec (payloads e) noted) _ after (ground (arith, f, g))

  read_events-Holds :
      (invocation agent : String) (es : List (Event N)) (acc after : String × Noted N)
      → All (λ e. All Written (payloads e) × (find_brace (body e) ≡ none)) es
      → Holds acc
      → read_events codec invocation agent es acc ≡ returned after
      → Holds after × Grows codec Written acc.1 after.1
  unfolding read_events
  read_events-Holds invocation agent [] acc after a h e =
      let same = returned_injective acc after e in
      (
        subst Holds same h,
        subst (λ x. Grows codec Written acc.1 x.1) same (unfold Grows in λ q i. i),
      )
  read_events-Holds invocation agent (e ∷ es) (spoken, noted) after ((w, a), rest) h r =
      elim (Bool-cases (e.invocation_id == invocation)) [
        | inr other ↦
            read_events-Holds invocation agent es (spoken, noted) after rest h
              (sym (read_events-skip invocation agent e es (spoken, noted) other) ∙ r)
        | inl own ↦
            let (noted', n, g) = read_events-read invocation agent e es spoken noted after own r in
            let (kept, grows) = note_all-IsKept codec Written (payloads e) noted noted' h.kept n in
            let (last, more) =
              read_events-Holds invocation agent es _ after rest
                (record {
                  kept = kept;
                  plain = spoken_after-plain (e.author == agent) (body e) spoken a h.plain;
                  written = note_all-Written codec Written (payloads e) noted noted' h.written w n;
                })
                g in
            (last, outgrows codec Written noted noted' after.1 grows more)
      ]

  read_events-Kept :
      (invocation agent : String) (es : List (Event N)) (acc after : String × Noted N) (e : Event N)
      (fs : Fields N)
      → All (λ e. All Written (payloads e) × (find_brace (body e) ≡ none)) es
      → Holds acc
      → read_events codec invocation agent es acc ≡ returned after
      → In e es
      → (e.invocation_id == invocation) ≡ true
      → In fs (payloads e)
      → audited (get_field "status" fs) ≡ returned true
      → Kept codec Written fs after.1
  read_events-Kept invocation agent [] acc after e fs a h r i own j ok = absurd (i refl)
  read_events-Kept invocation agent (x ∷ es) (spoken, noted) after e fs ((w, a), rest) h r i own j
        ok =
      elim (Bool-cases (x.invocation_id == invocation)) [
        | inr other ↦ elim i [
          | inl same ↦ absurd (cc (ap (λ y. y.invocation_id == invocation) same, own, other))
          | inr i' ↦
              read_events-Kept invocation agent es (spoken, noted) after e fs rest h
                (sym (read_events-skip invocation agent x es (spoken, noted) other) ∙ r) i' own j ok
        ]
        | inl read ↦
            let (noted', n, g) = read_events-read invocation agent x es spoken noted after read r in
            let (kept, grows) = note_all-IsKept codec Written (payloads x) noted noted' h.kept n in
            let next : Holds (spoken_after (x.author == agent) (body x) spoken, noted') = record {
              kept = kept;
              plain = spoken_after-plain (x.author == agent) (body x) spoken a h.plain;
              written = note_all-Written codec Written (payloads x) noted noted' h.written w n;
            } in
            elim i [
              | inl same ↦
                  let (_, more) = read_events-Holds invocation agent es _ after rest next g in
                  let j' = subst (λ y. In fs (payloads y)) same j in
                  Kept-Grows codec Written fs noted' after.1
                    (note_all-Kept codec Written (payloads x) noted noted' fs h.kept n j' ok) more
              | inr i' ↦ read_events-Kept invocation agent es _ after e fs rest next g i' own j ok
            ]
      ]

  -- A turn without a brace in what its agents say restates each audited result of its events, or
  -- one with the same canonical text.
  pub read_turn :
      (invocation agent : String) (es : List (Event N)) (spoken : String) (seen : List String)
      (results : List (Fields N)) (e : Event N) (fs : Fields N)
      → All (λ e. All Written (payloads e) × (find_brace (body e) ≡ none)) es
      → read_events codec invocation agent es ("", ([], [])) ≡ returned (spoken, (seen, results))
      → In e es
      → (e.invocation_id == invocation) ≡ true
      → In fs (payloads e)
      → audited (get_field "status" fs) ≡ returned true
      → All Written results
        × (find_brace spoken ≡ none)
        × (q : Fields N) × In q results
        × (codec.dumps_sorted q ≡ codec.dumps_sorted fs)
  unfolding Kept
  read_turn invocation agent es spoken seen results e fs a r i own j ok =
      let start : Holds ("", ([], [])) = record {
        kept = unfold IsKept contains in λ k c. absurd (ground arith);
        plain = unfold find_brace in refl;
        written = tt;
      } in
      let (last, _) = read_events-Holds invocation agent es ("", ([], [])) _ a start r in
      let (q, k, same) =
        read_events-Kept invocation agent es ("", ([], [])) _ e fs a start r i own j ok in
      (last.written, last.plain, q, k, same)
