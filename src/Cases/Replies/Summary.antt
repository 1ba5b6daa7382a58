-- ===== src/Cases/Replies/Summary.antt =====
-- `summarise` of app/cluster/cases.py: the line that a turn's trace holds about an event. `repr` of
-- a text and of a list of names are parameters.
use Prim.Native.Char.{code}
use Prim.Native.String
use mathlib.Core.Option
use text.Mathlib.TextLemmas.{cons-append, nil-append}
use adk_a2a_gke.Prelude.{
  String, Bool, true, false, Option, List, [], ◌∷◌, ◌==◌, eqb, not, ◌&&◌, if◌then◌else◌, All, ◌≡◌,
  refl, arith,
}
use adk_a2a_gke.Text.{first, joined}
use adk_a2a_gke.Cases.Replies.{Event, FunctionResponse, body}

-- `[r.name for r in ...]`
abbrev pub names_of : {N : Type 0} → List (FunctionResponse N) → List (Option String)
names_of [] = []
names_of (r ∷ rs) = r.name ∷ names_of rs

-- `bits.append(label + value)` for each where there is something to tell
abbrev pub labelled : List (String × Bool × String) → List String
labelled [] = []
labelled ((label, told, value) ∷ rest) =
    let later = labelled rest in if told then String.◌++◌ label value ∷ later else later

abbrev pub is_nonempty : List (Option String) → Bool
is_nonempty [] = false
is_nonempty (_ ∷ _) = true

module _ (repr : String → String) (repr_names : List (Option String) → String) where
  -- what follows the author
  unfoldable pub details : {N : Type 0} → Event N → List (String × Bool × String)
  unfolding body first
  details e =
      let responses = names_of e.responses in
      let error = Option.get_or e.error_message "" in
      ("calls=", is_nonempty e.calls, repr_names e.calls)
      ∷ ("resp=", is_nonempty responses, repr_names responses)
      ∷ ("text=", not (body e == ""), repr (first 160 (body e)))
      ∷ ("error=", not (error == ""), repr error)
      ∷ []

  unfoldable pub summarise : {N : Type 0} → Event N → String
  unfolding details
  summarise e = joined " | " (e.author ∷ labelled (details e))

-- no line break in a text
abbrev pub is_line : String → Bool
is_line String.[] = true
is_line (String.◌∷◌ c s) = not (eqb (code c) 10) && is_line s

is_line-append :
    (s t : String) → is_line s ≡ true → is_line t ≡ true → is_line (String.◌++◌ s t) ≡ true
is_line-append String.[] t h g = rw nil-append g
is_line-append (String.◌∷◌ c s) t h g = rw cons-append (ground (arith, is_line-append s t, h, g))

is_line-joined :
    (ss : List String) → All (λ s. is_line s ≡ true) ss → is_line (joined " | " ss) ≡ true
is_line-joined [] h = refl
is_line-joined (s ∷ []) (h, _) = h
is_line-joined (s ∷ t ∷ ss) (h, g) =
    is_line-append s (String.◌++◌ " | " (joined " | " (t ∷ ss))) h
      (is_line-append " | " (joined " | " (t ∷ ss)) refl (is_line-joined (t ∷ ss) g))

labelled-lines :
    (bits : List (String × Bool × String))
    → All (λ (label, _, value). (is_line label ≡ true) × (is_line value ≡ true)) bits
    → All (λ s. is_line s ≡ true) (labelled bits)
labelled-lines [] h = tt
labelled-lines ((label, true, value) ∷ rest) ((h, g), k) =
    (is_line-append label value h g, labelled-lines rest k)
labelled-lines ((label, false, value) ∷ rest) (_, k) = labelled-lines rest k

-- The summary of an event is one line, as `summarise` documents, where the author's name is one
-- line, and what `repr` writes is, whatever the event's texts and its error say.
pub summarise_one_line :
    {N : Type 0} (repr : String → String) (repr_names : List (Option String) → String) (e : Event N)
    → ((s : String) → is_line (repr s) ≡ true)
    → ((names : List (Option String)) → is_line (repr_names names) ≡ true)
    → is_line e.author ≡ true
    → is_line (summarise repr repr_names e) ≡ true
unfolding summarise details
summarise_one_line repr repr_names e lines names author =
    is_line-joined (e.author ∷ labelled (details repr repr_names e)) (
      author,
      labelled-lines (details repr repr_names e) (
        (refl, names e.calls),
        (
          (refl, names (names_of e.responses)),
          (
            (refl, lines (first 160 (body e))),
            ((refl, lines (Option.get_or e.error_message "")), tt),
          ),
        ),
      ),
    )
