-- ===== src/Shared/Artifacts/Listed.antt =====
-- An artifact that was saved is among the names that are listed.
use mathlib.Core.Path.{subst}
use Prim.Native.String.{compare}
use Prim.Native.Nat.{Ordering}
use adk_a2a_gke.Prelude.{
  ℕ, suc, String, Bool, true, false, Option, none, some, List, [], ◌∷◌, ◌++◌, ◌==◌, ◌&&◌, not, ◌≡◌,
  refl, sym, ap, inl, inr, In, Bool-cases, Option-cases, eq_iff, arith, All, leb, length,
}
use adk_a2a_gke.Json.{Fields}
use adk_a2a_gke.Text.Split.{lacks}
use adk_a2a_gke.Text.{starts_with, joined}
use adk_a2a_gke.Shared.Artifacts.Storage.{
  ok, Part, Artifact, Storage, IsStorage, Library, IsLibrary,
}
use adk_a2a_gke.Shared.Artifacts.Versions.{artifact_dir}
use adk_a2a_gke.Shared.Artifacts.Write.{save_artifact}
use adk_a2a_gke.Shared.Artifacts.Saved.{save_artifact-IsSave}
use adk_a2a_gke.Shared.Artifacts.Listing.{
  Leaf, last_part, front_parts, contains, add, add_all, insert_sorted, sorted, filename_of,
  consider, collect, filenames_under, list_artifact_keys,
}

contains-In : (f : String) (names : List String) → contains f names ≡ true → In f names
contains-In f [] e = absurd (cc e)
contains-In f (g ∷ gs) e = elim (Bool-cases (f == g)) [
  | inl t ↦ inl ((eq_iff f g).0 t)
  | inr t ↦ inr (contains-In f gs (ground (arith, t, e)))
]

In-add_same : (f : String) (names : List String) → In f (add f names)
In-add_same f names = elim (Bool-cases (contains f names)) [
  | inl t ↦ rw t (contains-In f names t)
  | inr t ↦ rw t (inl refl)
]

In-add : (f g : String) (names : List String) → In f names → In f (add g names)
In-add f g names i = elim (Bool-cases (contains g names)) [ inl t ↦ rw t i | inr t ↦ rw t (inr i) ]

In-add_all : (f : String) (fs names : List String) → In f names → In f (add_all fs names)
In-add_all f [] names i = i
In-add_all f (g ∷ fs) names i = In-add_all f fs (add g names) (In-add f g names i)

In-add_all_new : (f : String) (fs names : List String) → In f fs → In f (add_all fs names)
In-add_all_new f [] names i = absurd (i refl)
In-add_all_new f (g ∷ fs) names (inl e) =
    In-add_all f fs (add g names) (subst (λ h. In h (add g names)) (sym e) (In-add_same g names))
In-add_all_new f (g ∷ fs) names (inr i) = In-add_all_new f fs (add g names) i

In-insert_sorted : (f g : String) (fs : List String) → In f (g ∷ fs) → In f (insert_sorted g fs)
In-insert_sorted f g [] i = i
In-insert_sorted f g (h ∷ fs) i =
    elim (compare g h)
      as (λ o. In f (elim o [
        | Ordering.lt ↦ g ∷ h ∷ fs
        | Ordering.eq ↦ g ∷ h ∷ fs
        | Ordering.gt ↦ h ∷ insert_sorted g fs
      ])) [
        | Ordering.lt ↦ i
        | Ordering.eq ↦ i
        | Ordering.gt ↦ elim i [
          | inl e ↦ inr (In-insert_sorted f g fs (inl e))
          | inr j ↦ elim j [ inl e ↦ inl e | inr k ↦ inr (In-insert_sorted f g fs (inr k)) ]
        ]
      ]

In-sorted : (f : String) (fs : List String) → In f fs → In f (sorted fs)
In-sorted f [] i = i
In-sorted f (g ∷ fs) (inl e) = In-insert_sorted f g (sorted fs) (inl e)
In-sorted f (g ∷ fs) (inr i) = In-insert_sorted f g (sorted fs) (inr (In-sorted f fs i))

two_parts : (n : String) (fs : List String) → leb (suc (length (fs ++ n ∷ []))) 1 ≡ false
two_parts n [] = refl
two_parts n (f ∷ fs) = ground arith

last_part-append : (p n : String) (ps : List String) → last_part p (ps ++ n ∷ []) ≡ n
last_part-append p n [] = refl
last_part-append p n (q ∷ ps) = last_part-append q n ps

front_parts-append : (p n : String) (ps : List String) → front_parts p (ps ++ n ∷ []) ≡ p ∷ ps
front_parts-append p n [] = refl
front_parts-append p n (q ∷ ps) = ap (λ r. p ∷ r) (front_parts-append q n ps)

-- a part of a path: no separator, and neither empty nor a dot or two
unfoldable pub is_name : String → Bool
is_name w = not (w == "") && not (w == ".") && not (w == "..") && lacks 47 w

-- What `rglob("*")` is documented to list.
pub record IsGlob {P S T : Type 0} (d : Storage P S T) (rglob : P → S → List Leaf) : Type 0 where
  pub rglob-read :
      (p : P) (f : String) (fs : List String) (n : String) (t : T) (s : S)
      → All (λ w. is_name w ≡ true) (f ∷ fs ++ n ∷ [])
      → d.read_text (d.join (d.join p (joined "/" (f ∷ fs))) n) s ≡ some t
      → In (record { parts = f ∷ fs ++ n ∷ []; is_file = true }) (rglob p s)
  pub exists-rglob : (p : P) (leaf : Leaf) (s : S) → In leaf (rglob p s) → d.exists p s ≡ true

module _ {N B P S T : Type 0} (l : Library N B T) (d : Storage P S T) (rglob : P → S → List Leaf)
    (root : P) where
  filename_of_stored :
      (f n : String) (fs : List String)
      → l.is_digit n ≡ true
      → filename_of l d rglob root (f ∷ fs ++ n ∷ []) ≡ some (joined "/" (f ∷ fs))
  unfolding filename_of
  filename_of_stored f n fs e =
      rw (two_parts n fs, last_part-append f n fs, e, front_parts-append f n fs) refl

  consider-In :
      (f : String) (leaf : Leaf) (names : List String)
      → In f names
      → In f (consider l d rglob root leaf names)
  unfolding consider
  consider-In f leaf names i = elim (Bool-cases leaf.is_file) [
    | inr b ↦ rw b i
    | inl b ↦ elim (Option-cases (filename_of l d rglob root leaf.parts)) [
      | inl e ↦ rw (b, e) i
      | inr (g, e) ↦ rw (b, e) (In-add f g names i)
    ]
  ]

  collect-In :
      (f : String) (leaves : List Leaf) (names : List String)
      → In f names
      → In f (collect l d rglob root leaves names)
  unfolding collect
  collect-In f [] names i = i
  collect-In f (leaf ∷ leaves) names i =
      collect-In f leaves (consider l d rglob root leaf names) (consider-In f leaf names i)

  collected :
      (f : String) (parts : List String) (leaves : List Leaf) (names : List String)
      → filename_of l d rglob root parts ≡ some f
      → In (record { parts = parts; is_file = true }) leaves
      → In f (collect l d rglob root leaves names)
  unfolding collect
  collected f parts [] names e i = absurd (i refl)
  collected f parts (leaf ∷ leaves) names e (inl same) =
      collect-In f leaves (consider l d rglob root leaf names) (
        subst (λ x. In f (consider l d rglob root x names)) same
          (unfold consider in rw e (In-add_same f names)))
  collected f parts (leaf ∷ leaves) names e (inr i) =
      collected f parts leaves (consider l d rglob root leaf names) e i

  -- What is under each scope that may hold an artifact is listed.
  keys-scoped :
      (app_name user_id filename : String) (session_id : Option String) (dir : P) (s : S)
      → artifact_dir l d root (record {
        app_name = app_name;
        user_id = user_id;
        session_id = session_id;
        filename = filename;
      })
        ≡ ok dir
      → ((i : String) → session_id ≡ some i → l.is_segment i ≡ true)
      → ((scope : P)
          → d.join scope filename ≡ dir
          → In filename (filenames_under l d rglob root scope s))
      → (keys : List String) × (list_artifact_keys l d rglob root app_name user_id session_id s
          ≡ ok keys)
        × In filename keys
  unfolding artifact_dir list_artifact_keys
  keys-scoped app_name user_id filename none dir s e valid inside =
      let user = d.join (d.join root app_name) user_id in
      let common = filenames_under l d rglob root (d.join user "user") s in
      elim (Bool-cases (l.is_segment app_name && l.is_segment user_id)) [
        | inr b ↦ absurd (ground (arith, b, e))
        | inl b ↦ elim (Bool-cases (starts_with "user:" filename)) [
          | inr u ↦ absurd (ground (arith, b, u, e))
          | inl u ↦ (
            sorted (add_all common []),
            rw b refl,
            In-sorted filename (add_all common []) (
                In-add_all_new filename common []
                  (inside (d.join user "user") (ground (arith, b, u, e)))),
          )
        ]
      ]
  keys-scoped app_name user_id filename (some i) dir s e valid inside =
      let user = d.join (d.join root app_name) user_id in
      let common = filenames_under l d rglob root (d.join user "user") s in
      let own = add_all (filenames_under l d rglob root (d.join user i) s) [] in
      elim (Bool-cases (l.is_segment app_name && l.is_segment user_id)) [
        | inr b ↦ absurd (ground (arith, b, e))
        | inl b ↦ (
          sorted (add_all common own),
          rw (b, valid i refl) refl,
          In-sorted filename (add_all common own)
              (elim (Bool-cases (starts_with "user:" filename)) [
                | inr u ↦ In-add_all filename common own (
                    In-add_all_new filename (filenames_under l d rglob root (d.join user i) s) []
                      (inside (d.join user i) (ground (arith, b, u, e, valid i refl))))
                | inl u ↦
                    In-add_all_new filename common own
                      (inside (d.join user "user") (ground (arith, b, u, e)))
              ]),
        )
      ]

  module _ (hd : IsStorage d) (hg : IsGlob d rglob) where
    -- A file in a scope is listed under it.
    under :
        (scope : P) (f : String) (fs : List String) (n : String) (t : T) (s : S)
        → All (λ w. is_name w ≡ true) (f ∷ fs ++ n ∷ [])
        → l.is_digit n ≡ true
        → d.read_text (d.join (d.join scope (joined "/" (f ∷ fs))) n) s ≡ some t
        → In (joined "/" (f ∷ fs)) (filenames_under l d rglob root scope s)
    unfolding filenames_under
    under scope f fs n t s names digit r =
        let leaf : Leaf = record { parts = f ∷ fs ++ n ∷ []; is_file = true } in
        let i = hg.rglob-read scope f fs n t s names r in
        rw (hg.exists-rglob scope leaf s i) (
          collected (joined "/" (f ∷ fs)) (f ∷ fs ++ n ∷ []) (rglob scope s) []
            (filename_of_stored f n fs digit) i)

    -- Over a storage and a library that keep their laws, where `rglob` lists the files of a
    -- directory with the parts of their paths: once an artifact was saved whose name has parts
    -- that are plain names, and whose session id is a valid segment if there is one,
    -- `_list_artifact_keys` for its app, user and session succeeds and lists the artifact's name.
    pub list_artifact_keys-save_artifact :
        (hl : IsLibrary l) (a : Artifact) (f : String) (fs : List String) (p : Part B)
        (m : Fields N) (s s' : S) (v : ℕ)
        → a.filename ≡ joined "/" (f ∷ fs)
        → All (λ w. is_name w ≡ true) (f ∷ fs ++ l.numeral v ∷ [])
        → ((i : String) → a.session_id ≡ some i → l.is_segment i ≡ true)
        → save_artifact l d root a p m s ≡ ok (v, s')
        → (keys : List String) × (list_artifact_keys l d rglob root a.app_name a.user_id
              a.session_id s'
            ≡ ok keys)
          × In a.filename keys
    list_artifact_keys-save_artifact hl a f fs p m s s' v named names valid e =
        let h = save_artifact-IsSave l d root a p m s s' v e in
        let r =
          hd.read-write (d.join h.directory (l.numeral v)) (l.dumps h.envelope) s s' h.wrote in
        keys-scoped a.app_name a.user_id a.filename a.session_id h.directory s' h.place valid
          (λ scope same.
            subst (λ g. In g (filenames_under l d rglob root scope s')) (sym named)
              (under scope f fs (l.numeral v) (l.dumps h.envelope) s' names (hl.is_digit-numeral v)
                (rw (sym named, same) r)))
