-- ===== src/Tests/Walk.antt =====
-- The files below a directory of a storage in memory, and the names that are listed from it.
use Prim.Native.Char.{Char, char, code}
use Prim.Native.String
use text.Mathlib.TextLemmas.{append-nil, nil-append, cons-append}
use adk_a2a_gke.Prelude.{
  ℕ, ◌==◌, String, Bool, true, false, Option, none, some, List, [], ◌∷◌, ◌++◌, if◌then◌else◌, Dict,
  lookup, arith, eqb, ◌≡◌, refl, inl, inr, In, eq_iff, Bool-cases, All,
}
use adk_a2a_gke.Text.{split, joined}
use adk_a2a_gke.Text.Split.{lacks, split-joined}
use adk_a2a_gke.Json.{Fields}
use adk_a2a_gke.Shared.Artifacts.Listing.{Leaf}
use adk_a2a_gke.Shared.Artifacts.Listed.{is_name}

abbrev slash : Char
slash = char 47 tt

-- what follows a prefix
unfoldable pub after : String → String → Option String
after String.[] s = some s
after (String.◌∷◌ c p) String.[] = none
after (String.◌∷◌ c p) (String.◌∷◌ d s) =
    let rest = after p s in if eqb (code c) (code d) then rest else none

after-append : (p s : String) → after p (String.◌++◌ p s) ≡ some s
unfolding after
after-append String.[] s = rw (nil-append s) refl
after-append (String.◌∷◌ c p) s = rw (cons-append c p s) (ground (arith, after-append p s))

is_names-lack :
    (ws : List String) → All (λ w. is_name w ≡ true) ws → All (λ w. lacks 47 w ≡ true) ws
unfolding is_name
is_names-lack [] h = tt
is_names-lack (w ∷ ws) (h, hs) = (ground (arith, h), is_names-lack ws hs)

pub split-names :
    (f : String) (fs : List String)
    → All (λ w. is_name w ≡ true) (f ∷ fs)
    → split 47 (joined "/" (f ∷ fs)) ≡ f ∷ fs
split-names f fs h = split-joined slash f fs refl (is_names-lack (f ∷ fs) h)

abbrev leaves : List String → Dict (Fields ℕ) → List Leaf
leaves parts [] = []
leaves parts ((n, t) ∷ d) = record { parts = parts ++ n ∷ []; is_file = true } ∷ leaves parts d

-- the files of the directory `key`, where it is below `dir`
abbrev found : String → String → Dict (Fields ℕ) → List Leaf
found dir key d = elim (after dir key) [
  | none ↦ []
  | some r ↦ elim (after "/" r) [ none ↦ [] | some q ↦ leaves (split 47 q) d ]
]

abbrev pub below : String → Dict (Dict (Fields ℕ)) → List Leaf
below dir [] = []
below dir ((key, d) ∷ s) = found dir key d ++ below dir s

leaves-In :
    (parts : List String) (n : String) (t : Fields ℕ) (d : Dict (Fields ℕ))
    → lookup n d ≡ some t
    → In (record { parts = parts ++ n ∷ []; is_file = true }) (leaves parts d)
unfolding lookup
leaves-In parts n t [] e = absurd (cc e)
leaves-In parts n t ((m, u) ∷ d) e = elim (Bool-cases (m == n)) [
  | inl a ↦ inl (rw ((eq_iff m n).0 a) refl)
  | inr a ↦ inr (leaves-In parts n t d (ground (arith, a, e)))
]

In-left : (x : Leaf) (xs ys : List Leaf) → In x xs → In x (xs ++ ys)
In-left x [] ys i = absurd (i refl)
In-left x (y ∷ xs) ys (inl e) = inl e
In-left x (y ∷ xs) ys (inr i) = inr (In-left x xs ys i)

In-right : (x : Leaf) (xs ys : List Leaf) → In x ys → In x (xs ++ ys)
In-right x [] ys i = i
In-right x (y ∷ xs) ys i = inr (In-right x xs ys i)

abbrev pub key_of : String → String → String
key_of dir f = String.◌++◌ dir (String.◌++◌ "/" (String.◌++◌ f ""))

found-key :
    (dir f : String) (d : Dict (Fields ℕ)) → found dir (key_of dir f) d ≡ leaves (split 47 f) d
found-key dir f d =
    rw
      (
        found,
        after-append dir (String.◌++◌ "/" (String.◌++◌ f "")),
        after-append "/" (String.◌++◌ f ""),
        append-nil f,
      )
      refl

-- A file below a directory is among those that the walk lists.
pub below-In :
    (dir f n : String) (fs : List String) (t : Fields ℕ) (d : Dict (Fields ℕ))
    (s : Dict (Dict (Fields ℕ)))
    → split 47 f ≡ fs
    → lookup (key_of dir f) s ≡ some d
    → lookup n d ≡ some t
    → In (record { parts = fs ++ n ∷ []; is_file = true }) (below dir s)
unfolding lookup
below-In dir f n fs t d [] e g h = absurd (cc g)
below-In dir f n fs t d ((k, c) ∷ s) e g h = elim (Bool-cases (k == key_of dir f)) [
  | inl a ↦
      In-left (record { parts = fs ++ n ∷ []; is_file = true }) (found dir k c) (below dir s)
        (rw ((eq_iff k (key_of dir f)).0 a, found-key dir f c, e)
          (leaves-In fs n t c (ground (arith, a, g, h))))
  | inr a ↦
      In-right (record { parts = fs ++ n ∷ []; is_file = true }) (found dir k c) (below dir s)
        (below-In dir f n fs t d s e (ground (arith, a, g)) h)
]

unfoldable pub any : List Leaf → Bool
any [] = false
any (_ ∷ _) = true

pub any-In : (x : Leaf) (xs : List Leaf) → In x xs → any xs ≡ true
unfolding any
any-In x [] i = absurd (i refl)
any-In x (y ∷ xs) i = refl
