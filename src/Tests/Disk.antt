-- ===== src/Tests/Disk.antt =====
-- A storage in memory, and a library over it: two levels are enough for an artifact, the directory
-- and the names in it.
use mathlib.Core.Option.{some-injective}
use mathlib.Core.Path.{subst}
use Prim.Native.Char.{code}
use adk_a2a_gke.Prelude.{
  ℕ, ◌-◌, zero, suc, String, Bool, true, false, ◌||◌, not, none, some, List, [], ◌∷◌, ◌==◌,
  if◌then◌else◌, Dict, lookup, insert, lookup-insert, All, Option-cases, ◌++◌, is_none, arith, ap,
  eqb, ◌≡◌, ◌≢◌, ◌⊎◌, refl, inl, inr, In, eq_iff, eq_refl, Bool-cases,
}
use adk_a2a_gke.Text.{concat, split, joined}
use adk_a2a_gke.Json.{Fields}
use adk_a2a_gke.Shared.Artifacts.Listing.{Leaf}
use adk_a2a_gke.Shared.Artifacts.Listed.{IsGlob, is_name}
use adk_a2a_gke.Tests.Walk.{key_of, below, below-In, any, any-In, split-names}
use adk_a2a_gke.Shared.Artifacts.Storage.{Storage, IsStorage, Library, IsLibrary}

abbrev pub Place : Type 0
Place = String × String

abbrev pub Disk : Type 0
Disk = Dict (Dict (Fields ℕ))

abbrev full_name : Place → String
full_name (directory, name) = concat (directory ∷ "/" ∷ name ∷ [])

abbrev files : String → Disk → Dict (Fields ℕ)
files directory s = elim (lookup directory s) [ none ↦ [] | some d ↦ d ]

abbrev names : Dict (Fields ℕ) → List String
names [] = []
names ((n, _) ∷ d) = n ∷ names d

remove : String → Dict (Fields ℕ) → Dict (Fields ℕ)
remove k [] = []
remove k ((n, t) ∷ d) = let rest = remove k d in if n == k then rest else (n, t) ∷ rest

abbrev is_empty : Dict (Fields ℕ) → Bool
is_empty [] = true
is_empty (_ ∷ _) = false

unfoldable pub disk : Storage Place Disk (Fields ℕ)
unfolding remove lookup insert any
disk = record {
  join = λ p n. (full_name p, n);
  exists = λ p s.
      not (is_none (lookup p.1 (files p.0 s)))
      || not (is_empty (files (full_name p) s))
      || any (below (full_name p) s);
  read_text = λ p s. lookup p.1 (files p.0 s);
  write_text = λ p t s. some (insert p.0 (insert p.1 t (files p.0 s)) s);
  unlink = λ p s. elim (lookup p.1 (files p.0 s)) [
    | none ↦ none
    | some _ ↦ some (insert p.0 (remove p.1 (files p.0 s)) s)
  ];
  iterdir = λ p s. names (files (full_name p) s);
}

files-insert :
    (j k : String) (v : Dict (Fields ℕ)) (s : Disk)
    → files j (insert k v s) ≡ (if k == j then v else files j s)
files-insert j k v s = ground (arith, lookup-insert j k v s)

lookup-remove :
    (j k : String) (d : Dict (Fields ℕ))
    → lookup j (remove k d) ≡ (if k == j then none else lookup j d)
unfolding lookup remove
lookup-remove j k [] = ground arith
lookup-remove j k ((n, t) ∷ d) =
    ground (arith, lookup-remove j k d, eq_iff n k, eq_iff n j, eq_iff k j)

lookup-In : (n : String) (t : Fields ℕ) (d : Dict (Fields ℕ)) → lookup n d ≡ some t → In n (names d)
unfolding lookup
lookup-In n t [] e = absurd (cc e)
lookup-In n t ((m, u) ∷ d) e = elim (Bool-cases (m == n)) [
  | inl a ↦ inl (ground (arith, a, eq_iff m n))
  | inr a ↦ inr (lookup-In n t d (ground (arith, a, e)))
]

In-insert :
    (m n : String) (t : Fields ℕ) (d : Dict (Fields ℕ))
    → In m (names (insert n t d))
    → (m ≡ n) ⊎ In m (names d)
unfolding insert
In-insert m n t [] = λ i. i
In-insert m n t ((k, u) ∷ d) = elim (Bool-cases (k == n)) [
  | inl a ↦ rw (a, insert) (λ i. elim i [ inl e ↦ inl e | inr j ↦ inr (inr j) ])
  | inr a ↦
      rw (a, insert)
        (λ i. elim i [
          | inl e ↦ inr (inl e)
          | inr j ↦ elim (In-insert m n t d j) [ inl e ↦ inl e | inr x ↦ inr (inr x) ]
        ])
]

In-nonempty : (n : String) (d : Dict (Fields ℕ)) → In n (names d) → is_empty d ≡ false
In-nonempty n [] i = absurd (i refl)
In-nonempty n (_ ∷ d) i = refl

pair-eq : (p q : Place) → p.0 ≡ q.0 → p.1 ≡ q.1 → p ≡ q
pair-eq (a, b) (c, e) f g = rw (f, g) refl

read_text-write :
    (p q : Place) (t : Fields ℕ) (s : Disk)
    → lookup q.1 (files q.0 (insert p.0 (insert p.1 t (files p.0 s)) s)) ≡ (
        if p.0 == q.0
        then (if p.1 == q.1 then some t else lookup q.1 (files q.0 s))
        else lookup q.1 (files q.0 s))
read_text-write p q t s = ground (
  arith,
  files-insert q.0 p.0 (insert p.1 t (files p.0 s)) s,
  lookup-insert q.1 p.1 t (files p.0 s),
  eq_iff p.0 q.0,
)

read-other-lem :
    (p q : Place) (t : Fields ℕ) (s : Disk)
    → p ≢ q
    → lookup q.1 (files q.0 (insert p.0 (insert p.1 t (files p.0 s)) s)) ≡ lookup q.1 (files q.0 s)
read-other-lem p q t s n = elim (Bool-cases (p.0 == q.0)) [
  | inl a ↦ elim (Bool-cases (p.1 == q.1)) [
    | inl b ↦ absurd (n (pair-eq p q ((eq_iff p.0 q.0).0 a) ((eq_iff p.1 q.1).0 b)))
    | inr b ↦ ground (arith, read_text-write p q t s, b)
  ]
  | inr a ↦ ground (arith, read_text-write p q t s, a)
]

unfoldable pub walk : Place → Disk → List Leaf
walk p s = below (full_name p) s

All-front : (P : String → Type 0) (xs ys : List String) → All P (xs ++ ys) → All P xs
All-front P [] ys h = tt
All-front P (x ∷ xs) ys (p, h) = (p, All-front P xs ys h)

read-walk :
    (dir f n : String) (fs : List String) (t : Fields ℕ) (s : Disk)
    → split 47 f ≡ fs
    → lookup n (files (key_of dir f) s) ≡ some t
    → In (record { parts = fs ++ n ∷ []; is_file = true }) (below dir s)
unfolding lookup
read-walk dir f n fs t s e r = elim (Option-cases (lookup (key_of dir f) s)) [
  | inl g ↦ absurd (ground (arith, g, r))
  | inr (d, g) ↦ below-In dir f n fs t d s e g (ground (arith, g, r))
]

pub disk-IsGlob : IsGlob disk walk
unfolding disk walk concat
disk-IsGlob = record {
  rglob-read = λ p f fs n t s names r.
      read-walk (full_name p) (joined "/" (f ∷ fs)) n (f ∷ fs) t s
        (split-names f fs (All-front (λ w. is_name w ≡ true) (f ∷ fs) (n ∷ []) names)) r;
  exists-rglob = λ p leaf s i. ground (arith, any-In leaf (below (full_name p) s) i);
}

removed :
    (p : Place) (s s' : Disk)
    → disk.unlink p s ≡ some s'
    → insert p.0 (remove p.1 (files p.0 s)) s ≡ s'
unfolding disk
removed p s s' e = elim (Option-cases (lookup p.1 (files p.0 s))) [
  | inl missing ↦ absurd (ground (arith, e, missing))
  | inr (t, there) ↦ some-injective _ s' (ground (arith, e, there))
]

unlinked-other :
    (p q : Place) (s : Disk)
    → (p ≡ q)
      ⊎ (lookup q.1 (files q.0 (insert p.0 (remove p.1 (files p.0 s)) s))
          ≡ lookup q.1 (files q.0 s))
unlinked-other p q s = elim (Bool-cases (p.0 == q.0)) [
  | inr other ↦ inr (ground (arith, other, files-insert q.0 p.0 (remove p.1 (files p.0 s)) s))
  | inl same ↦ elim (Bool-cases (p.1 == q.1)) [
    | inl also ↦ inl (λ i. ((eq_iff p.0 q.0).0 same i, (eq_iff p.1 q.1).0 also i))
    | inr other ↦ inr (
        ground (
          arith,
          same,
          other,
          eq_iff p.0 q.0,
          files-insert q.0 p.0 (remove p.1 (files p.0 s)) s,
          lookup-remove q.1 p.1 (files p.0 s),
        ))
  ]
]

pub disk-IsStorage : IsStorage disk
unfolding disk
disk-IsStorage = record {
  read-write = λ p t s s' e.
      subst (λ r. lookup p.1 (files p.0 r) ≡ some t)
        (some-injective (insert p.0 (insert p.1 t (files p.0 s)) s) s' e)
        (ground (arith, read_text-write p p t s, eq_refl p.0, eq_refl p.1));
  read-other = λ p q t s s' e n.
      subst (λ r. lookup q.1 (files q.0 r) ≡ lookup q.1 (files q.0 s))
        (some-injective (insert p.0 (insert p.1 t (files p.0 s)) s) s' e)
        (read-other-lem p q t s n);
  exists-read = λ p t s e. ground (arith, e);
  exists-parent = λ p n t s e.
      ground
        (arith, In-nonempty n (files (full_name p) s) (lookup-In n t (files (full_name p) s) e));
  exists-iterdir = λ p n s i. ground (arith, In-nonempty n (files (full_name p) s) i);
  iterdir-read = λ p n t s e. lookup-In n t (files (full_name p) s) e;
  iterdir-write = λ p n m t s s' e.
      subst
        (λ r. In m (names (files (full_name p) r)) → (m ≡ n) ⊎ In m (names (files (full_name p) s)))
        (some-injective (insert (full_name p) (insert n t (files (full_name p) s)) s) s' e)
        (rw
          (
            files-insert (full_name p) (full_name p) (insert n t (files (full_name p) s)) s,
            eq_refl (full_name p),
          )
          (In-insert m n t (files (full_name p) s)));
  read-unlink = λ p s s' e.
      subst (λ r. lookup p.1 (files p.0 r) ≡ none) (removed p s s' e)
        (ground (
          arith,
          files-insert p.0 p.0 (remove p.1 (files p.0 s)) s,
          lookup-remove p.1 p.1 (files p.0 s),
          eq_refl p.0,
          eq_refl p.1,
        ));
  unlink-other = λ p q s s' e. elim (unlinked-other p q s) [
    | inl same ↦ inl same
    | inr kept ↦
        inr
          (subst (λ r. lookup q.1 (files q.0 r) ≡ lookup q.1 (files q.0 s)) (removed p s s' e) kept)
  ];
}

-- A numeral is as many strokes and one more.
strokes : ℕ → String
strokes zero = ""
strokes (suc n) = String.◌∷◌ "1" (strokes n)

count_strokes : String → ℕ
count_strokes String.[] = 0
count_strokes (String.◌∷◌ c s) = suc (count_strokes s)

all_strokes : String → Bool
all_strokes String.[] = true
all_strokes (String.◌∷◌ c s) = let rest = all_strokes s in if eqb (code c) 49 then rest else false

count-strokes : (n : ℕ) → count_strokes (strokes n) ≡ n
unfolding count_strokes strokes
count-strokes zero = refl
count-strokes (suc n) = ap suc (count-strokes n)

all_strokes-strokes : (n : ℕ) → all_strokes (strokes n) ≡ true
unfolding all_strokes strokes
all_strokes-strokes zero = refl
all_strokes-strokes (suc n) = all_strokes-strokes n

unfoldable pub plain : Library ℕ String (Fields ℕ)
unfolding strokes count_strokes all_strokes
plain = record {
  is_segment = λ s. not (s == "");
  is_artifact_ref = λ p. false;
  parse_uri = λ u. none;
  in_scope = λ a b. true;
  is_digit = all_strokes;
  int = λ s. some (count_strokes s - 1);
  numeral = λ n. strokes (suc n);
  number = λ n. n;
  truthy = λ v. true;
  empty = "";
  b64encode = λ b. b;
  b64decode = λ s. some s;
  dumps = λ fs. fs;
  loads = λ fs. some fs;
  time = 0;
}

pub plain-IsLibrary : IsLibrary plain
unfolding plain
plain-IsLibrary = record {
  int-numeral = λ n. ap some (omega (arith, count-strokes (suc n)));
  is_digit-numeral = λ n. all_strokes-strokes (suc n);
  b64decode-b64encode = λ b. refl;
  loads-dumps = λ fs. refl;
}
