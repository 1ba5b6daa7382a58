-- ===== src/Shared/Artifacts/Listing.antt =====
-- app/shared/artifacts.py: the names of the artifacts that are stored. `rglob("*")` of a directory is
-- a parameter: the parts of each path below it, and whether there is a file.
use Prim.Native.String.{compare}
use Prim.Native.Nat.{Ordering}
use adk_a2a_gke.Prelude.{
  String, Bool, true, false, Option, none, some, List, [], ◌∷◌, leb, length, ◌==◌, ◌&&◌, ◌||◌,
  if◌then◌else◌, not,
}
use adk_a2a_gke.Text.{joined}
use adk_a2a_gke.Shared.Artifacts.Storage.{Outcome, ok, invalid, Storage, Library}

pub record Leaf : Type 0 where
  pub parts : List String
  pub is_file : Bool

-- `parts[-1]` and `parts[:-1]` of a path with at least one part
abbrev pub last_part : String → List String → String
last_part p [] = p
last_part p (q ∷ ps) = last_part q ps

abbrev pub front_parts : String → List String → List String
front_parts p [] = []
front_parts p (q ∷ ps) = p ∷ front_parts q ps

abbrev pub contains : String → List String → Bool
contains f [] = false
contains f (g ∷ gs) = let rest = contains f gs in if f == g then true else rest

-- a set as the list of its elements
abbrev pub add : String → List String → List String
add f names = if contains f names then names else f ∷ names

abbrev pub add_all : List String → List String → List String
add_all [] names = names
add_all (f ∷ fs) names = add_all fs (add f names)

abbrev pub insert_sorted : String → List String → List String
insert_sorted f [] = f ∷ []
insert_sorted f (g ∷ gs) =
    let rest = insert_sorted f gs in elim (compare f g) [ Ordering.gt ↦ g ∷ rest | _ ↦ f ∷ g ∷ gs ]

abbrev pub sorted : List String → List String
sorted [] = []
sorted (f ∷ fs) = insert_sorted f (sorted fs)

module _ {N B P S T : Type 0} (l : Library N B T) (d : Storage P S T) (rglob : P → S → List Leaf)
    (root : P) where
  unfoldable pub filename_of : List String → Option String
  filename_of [] = none
  filename_of (p ∷ ps) =
      if leb (length (p ∷ ps)) 1 || not (l.is_digit (last_part p ps))
      then none
      else some (joined "/" (front_parts p ps))

  unfoldable pub consider : Leaf → List String → List String
  unfolding filename_of
  consider leaf names =
      if leaf.is_file
      then elim (filename_of leaf.parts) [ none ↦ names | some f ↦ add f names ]
      else names

  unfoldable pub collect : List Leaf → List String → List String
  unfolding consider
  collect [] names = names
  collect (leaf ∷ leaves) names = collect leaves (consider leaf names)

  unfoldable pub filenames_under : P → S → List String
  unfolding collect
  filenames_under scope s = if not (d.exists scope s) then [] else collect (rglob scope s) []

  unfoldable pub list_artifact_keys : String → String → Option String → S → Outcome (List String)
  unfolding filenames_under
  list_artifact_keys app_name user_id session_id s =
      let user = d.join (d.join root app_name) user_id in
      let common = filenames_under (d.join user "user") s in
      if not (l.is_segment app_name && l.is_segment user_id) then invalid else elim session_id [
        | none ↦ ok (sorted (add_all common []))
        | some i ↦
            if l.is_segment i
            then ok (sorted (add_all common (add_all (filenames_under (d.join user i) s) [])))
            else invalid
      ]
