-- ===== src/Cases/Replies/Scan.antt =====
-- `_json_objects_in`: the scan ends, and it finds an object that was written into prose.
use Prim.Native.Char.{code}
use Prim.Native.String.{count, ◌++◌}
use mathlib.Core.Option
use mathlib.Core.Option.{some-injective}
use mathlib.Core.Path.{subst}
use text.Mathlib.TextLemmas.{length-cons, nil-append, cons-append}
use adk_a2a_gke.Prelude.{
  ℕ, zero, suc, ◌≤◌, ◌<◌, String, ◌≡◌, ◌≢◌, refl, sym, ◌∙◌, ap, Option, none, some, List, [], ◌∷◌,
  arith, Option-cases, Bool-cases, inl, inr, eqb,
}
use adk_a2a_gke.Json.{Json, null, bool, num, str, arr, obj, Fields, Codec}
use adk_a2a_gke.Cases.Replies.{find_brace, after_first, scan, json_objects_in}

-- `raw_decode` uses up some of the text.
pub record IsConsuming {N : Type 0} (codec : Codec N) : Type 0 where
  pub shrinks :
      (s : String) (v : Json N) (rest : String)
      → codec.raw_decode s ≡ some (v, rest)
      → count rest < count s

count-find_brace : (s t : String) → find_brace s ≡ some t → count t ≤ count s
unfolding find_brace
count-find_brace String.[] t e = ground arith
count-find_brace (String.◌∷◌ c s) t e = ground (arith, count-find_brace s t, length-cons c s)

after_find_brace : (s t : String) → find_brace s ≡ some t → count (after_first t) < count t
unfolding find_brace
after_find_brace String.[] t e = ground arith
after_find_brace (String.◌∷◌ c s) t e = elim (Bool-cases (eqb (code c) b'{')) [
  | inl here ↦
      let same : String.◌∷◌ c s ≡ t = some-injective _ _ (ground (arith, here)) in
      subst (λ u. count (after_first u) < count u) same (omega (arith, length-cons c s))
  | inr later ↦ after_find_brace s t (ground (arith, later))
]

pub find_brace-append : (s t : String) → find_brace s ≡ none → find_brace (s ++ t) ≡ find_brace t
unfolding find_brace
find_brace-append String.[] t e = rw nil-append
find_brace-append (String.◌∷◌ c s) t e = rw cons-append (ground (arith, find_brace-append s t))

module _ {N : Type 0} (codec : Codec N) where
  -- One round of the scan, at a brace.
  scan-none :
      (fuel : ℕ) {s : String}
      → codec.raw_decode s ≡ none
      → scan codec (suc fuel) (some s) ≡ scan codec fuel (find_brace (after_first s))
  unfolding scan
  scan-none fuel e = rw (e, scan)

  scan-obj :
      (fuel : ℕ) {s rest : String} {fs : Fields N}
      → codec.raw_decode s ≡ some (obj fs, rest)
      → scan codec (suc fuel) (some s) ≡ Option.map (◌∷◌ fs) (scan codec fuel (find_brace rest))
  unfolding scan
  scan-obj fuel e = rw (e, scan)

  scan-other :
      (fuel : ℕ) {s rest : String} {v : Json N}
      → codec.raw_decode s ≡ some (v, rest)
      → ((fs : Fields N) → v ≢ obj fs)
      → scan codec (suc fuel) (some s) ≡ scan codec fuel (find_brace (after_first s))
  scan-other fuel {v = null} e h = unfold scan in rw (e, scan)
  scan-other fuel {v = bool b} e h = unfold scan in rw (e, scan)
  scan-other fuel {v = num n} e h = unfold scan in rw (e, scan)
  scan-other fuel {v = str s} e h = unfold scan in rw (e, scan)
  scan-other fuel {v = arr xs} e h = unfold scan in rw (e, scan)
  scan-other fuel {v = obj fs} e h = absurd (h fs refl)

  -- Two scans from the same place, with different fuel, end alike.
  abbrev Agree : ℕ → ℕ → Option String → Type 0
  Agree f g o = (r : List (Fields N)) × (scan codec f o ≡ some r) × (scan codec g o ≡ some r)

  module _ (f g : ℕ) (s : String) where
    Agree-skip :
        scan codec (suc f) (some s) ≡ scan codec f (find_brace (after_first s))
        → scan codec (suc g) (some s) ≡ scan codec g (find_brace (after_first s))
        → Agree f g (find_brace (after_first s))
        → Agree (suc f) (suc g) (some s)
    Agree-skip p q (r, a, b) = (r, p ∙ a, q ∙ b)

    Agree-value :
        (v : Json N) (rest : String)
        → codec.raw_decode s ≡ some (v, rest)
        → Agree f g (find_brace (after_first s))
        → Agree f g (find_brace rest)
        → Agree (suc f) (suc g) (some s)
    Agree-value (obj fs) rest e skip (r, a, b) = (fs ∷ r, scan-obj f e ∙ rw a, scan-obj g e ∙ rw b)
    Agree-value v rest e skip found =
        Agree-skip (scan-other f e (λ fs q. cc q)) (scan-other g e (λ fs q. cc q)) skip

  module _ (h : IsConsuming codec) where
    -- With more fuel than characters the scan ends, and it does not matter how much more.
    scan_total : (f g : ℕ) (t : String) → count t < f → count t < g → Agree f g (find_brace t)
    scan_total zero g t lt lt' = absurd (omega arith)
    scan_total (suc f) zero t lt lt' = absurd (omega arith)
    scan_total (suc f) (suc g) t lt lt' = elim (Option-cases (find_brace t)) [
      | inl e ↦ ([], rw e (unfold scan in refl), rw e (unfold scan in refl))
      | inr (s, e) ↦
          let skip : Agree f g (find_brace (after_first s)) =
            scan_total f g (after_first s)
              (omega (arith, count-find_brace t s e, after_find_brace t s e))
              (omega (arith, count-find_brace t s e, after_find_brace t s e)) in
          rw e (elim (Option-cases (codec.raw_decode s)) [
            | inl bad ↦ Agree-skip f g s (scan-none f bad) (scan-none g bad) skip
            | inr ((v, rest), good) ↦ Agree-value f g s v rest good skip (
                scan_total f g rest (omega (arith, count-find_brace t s e, h.shrinks s v rest good))
                  (omega (arith, count-find_brace t s e, h.shrinks s v rest good)))
          ])
    ]

    -- Where decoding uses up some of the text, the loop of `_json_objects_in` ends: with any fuel
    -- above the number of characters the scan returns, and `json_objects_in` is what it returns.
    pub json_objects_in_total :
        (fuel : ℕ) (text : String)
        → count text < fuel
        → scan codec fuel (find_brace text) ≡ some (json_objects_in codec text)
    json_objects_in_total fuel text lt =
        let (r, a, b) = scan_total fuel (suc (count text)) text lt (omega arith) in
        a ∙ ap some (sym (unfold json_objects_in in rw b))

    -- The object that decodes at the first brace comes first, and the scan goes on behind it.
    pub json_objects_in-obj :
        (text s rest : String) (fs : Fields N)
        → find_brace text ≡ some s
        → codec.raw_decode s ≡ some (obj fs, rest)
        → json_objects_in codec text ≡ fs ∷ json_objects_in codec rest
    json_objects_in-obj text s rest fs here e =
        let all = json_objects_in_total (suc (count text)) text (omega arith) in
        let short = h.shrinks s (obj fs) rest e in
        let behind =
          json_objects_in_total (count text) rest (omega (arith, count-find_brace text s here)) in
        some-injective _ _ (
          sym all
          ∙ ap (scan codec (suc (count text))) here
          ∙ scan-obj (count text) e
          ∙ ap (Option.map (◌∷◌ fs)) behind)

    -- Where nothing decodes at the first brace, the scan goes on behind that brace.
    pub json_objects_in-skip :
        (text s : String)
        → find_brace text ≡ some s
        → codec.raw_decode s ≡ none
        → json_objects_in codec text ≡ json_objects_in codec (after_first s)
    json_objects_in-skip text s here e =
        let all = json_objects_in_total (suc (count text)) text (omega arith) in
        let behind =
          json_objects_in_total (count text) (after_first s)
            (omega (arith, count-find_brace text s here, after_find_brace text s here)) in
        some-injective _ _
          (sym all ∙ ap (scan codec (suc (count text))) here ∙ scan-none (count text) e ∙ behind)

    -- Where decoding uses up some of the text, an object that was written after some prose without
    -- a brace, and that decodes, is found, and the scan goes on behind it.
    pub json_objects_in-write :
        (pre written rest : String) (fs : Fields N)
        → find_brace pre ≡ none
        → find_brace (written ++ rest) ≡ some (written ++ rest)
        → codec.raw_decode (written ++ rest) ≡ some (obj fs, rest)
        → json_objects_in codec (pre ++ (written ++ rest)) ≡ fs ∷ json_objects_in codec rest
    json_objects_in-write pre written rest fs p q e =
        json_objects_in-obj (pre ++ (written ++ rest)) (written ++ rest) rest fs
          (find_brace-append pre (written ++ rest) p ∙ q) e
