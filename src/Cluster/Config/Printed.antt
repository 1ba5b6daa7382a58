-- ===== src/Cluster/Config/Printed.antt =====
-- `A2A_PEERS` written from peers, as it is documented: `name=url` items with commas between them.
use Prim.Native.Char.{char}
use Prim.Native.String
use text.Mathlib.TextLemmas.{nil-append, cons-append}
use mathlib.Core.List.{append_assoc, append-nil}
use adk_a2a_gke.Prelude.{
  String, true, false, some, List, [], ◌∷◌, ◌++◌, map, ◌==◌, Dict, insert, values, ◌≡◌, refl, sym,
  ap, ◌∙◌, inl, inr, All, eq_iff, arith, Bool-cases,
}
use adk_a2a_gke.Text.{strip, partition, is_slash, rstrip_by, joined}
use adk_a2a_gke.Text.Split.{lacks, partition-append, split-joined}
use adk_a2a_gke.Cluster.Config.{
  PeerSpec, Addressing, Integers, add_named, add_item, add_items, parse_peers, peer_items,
}
use adk_a2a_gke.Cluster.Config.Peers.{OtherNames, HasUniqueNames}

abbrev pub printed : PeerSpec → String
printed v = String.◌++◌ v.name (String.◌++◌ "=" v.base_url)

abbrev pub printed_all : List PeerSpec → String
printed_all vs = joined "," (map printed vs)

-- A peer that an item can express: no blanks around the name, the URL and the item, no comma in the
-- item, no equals sign in the name, and no slash at the end of the URL.
pub record IsPrintable (v : PeerSpec) : Type 0 where
  pub named : (v.name == "") ≡ false
  pub located : (v.base_url == "") ≡ false
  pub name_stripped : strip v.name ≡ v.name
  pub url_stripped : strip v.base_url ≡ v.base_url
  pub item_stripped : strip (printed v) ≡ printed v
  pub no_comma : lacks 44 (printed v) ≡ true
  pub no_equals : lacks 61 v.name ≡ true
  pub no_slash : rstrip_by is_slash v.base_url ≡ v.base_url

abbrev entry : PeerSpec → String × PeerSpec
entry v = (v.name, v)

insert-last :
    (v : PeerSpec) (us : List PeerSpec)
    → OtherNames v.name us
    → insert v.name v (map entry us) ≡ map entry (us ++ v ∷ [])
unfolding insert
insert-last v [] o = refl
insert-last v (u ∷ us) (n, o) = rw (n, insert-last v us o) refl

OtherNames-last :
    (k : String) (us : List PeerSpec) (v : PeerSpec)
    → OtherNames k us
    → (v.name == k) ≡ false
    → OtherNames k (us ++ v ∷ [])
OtherNames-last k [] v o n = (n, tt)
OtherNames-last k (u ∷ us) v (m, o) n = (m, OtherNames-last k us v o n)

OtherNames-all :
    (us : List PeerSpec) (v : PeerSpec) (vs : List PeerSpec)
    → All (λ w. OtherNames w.name us) vs
    → OtherNames v.name vs
    → All (λ w. OtherNames w.name (us ++ v ∷ [])) vs
OtherNames-all us v [] o n = tt
OtherNames-all us v (w ∷ vs) (here, o) (differs, n) = (
  OtherNames-last w.name us v here
      (ground (arith, eq_iff v.name w.name, eq_iff w.name v.name, differs)),
  OtherNames-all us v vs o n,
)

append-nonempty : (s t : String) → (s == "") ≡ false → (String.◌++◌ s t == "") ≡ false
append-nonempty String.[] t h = absurd (cc h)
append-nonempty (String.◌∷◌ c s) t h =
    rw (cons-append c s t) (elim (Bool-cases (String.◌∷◌ c (String.◌++◌ s t) == "")) [
      | inl e ↦ absurd (cc ((eq_iff (String.◌∷◌ c (String.◌++◌ s t)) "").0 e))
      | inr e ↦ e
    ])

printed-nonempty : (v : PeerSpec) → (v.name == "") ≡ false → (printed v == "") ≡ false
printed-nonempty v n = append-nonempty v.name (String.◌++◌ "=" v.base_url) n

printed-parts : (v : PeerSpec) → IsPrintable v → partition 61 (printed v) ≡ (v.name, v.base_url)
printed-parts v h =
    rw (cons-append (char 61 tt) String.[] v.base_url, nil-append v.base_url)
      (partition-append (char 61 tt) v.name v.base_url refl h.no_equals)

module _ (z : Integers) (a : Addressing) where
  add_item-printed :
      (v : PeerSpec) (d : Dict PeerSpec)
      → IsPrintable v
      → add_item z a (printed v) d ≡ insert v.name v d
  unfolding add_item add_named
  add_item-printed v d h =
      rw
        (
          printed-parts v h,
          h.name_stripped,
          h.url_stripped,
          printed-nonempty v h.named,
          h.named,
          h.located,
          h.no_slash,
        )
        refl

  add_items-printed :
      (us vs : List PeerSpec)
      → All IsPrintable vs
      → All (λ v. OtherNames v.name us) vs
      → HasUniqueNames vs
      → add_items z a (map printed vs) (map entry us) ≡ map entry (us ++ vs)
  unfolding add_items
  add_items-printed us [] h o u = ap (map entry) (sym (append-nil us))
  add_items-printed us (v ∷ vs) (p, h) (here, o) (others, u) =
      ap (add_items z a (map printed vs))
        (add_item-printed v (map entry us) p ∙ insert-last v us here)
      ∙ add_items-printed (us ++ v ∷ []) vs h (OtherNames-all us v vs o others) u
      ∙ ap (map entry) (append_assoc us (v ∷ []) vs)

values-entry : (vs : List PeerSpec) → values (map entry vs) ≡ vs
unfolding values
values-entry [] = refl
values-entry (v ∷ vs) = ap (◌∷◌ v) (values-entry vs)

stripped-items :
    (vs : List PeerSpec) → All IsPrintable vs → map strip (map printed vs) ≡ map printed vs
stripped-items [] h = refl
stripped-items (v ∷ vs) (p, h) = rw (p.item_stripped, stripped-items vs h) refl

printed-lacks :
    (vs : List PeerSpec) → All IsPrintable vs → All (λ w. lacks 44 w ≡ true) (map printed vs)
printed-lacks [] h = tt
printed-lacks (v ∷ vs) (p, h) = (p.no_comma, printed-lacks vs h)

joined-nonempty :
    (v : PeerSpec) (vs : List PeerSpec)
    → (printed v == "") ≡ false
    → (printed_all (v ∷ vs) == "") ≡ false
joined-nonempty v [] n = n
joined-nonempty v (w ∷ vs) n =
    append-nonempty (printed v) (String.◌++◌ "," (printed_all (w ∷ vs))) n

none-before : (vs : List PeerSpec) → All (λ v. OtherNames v.name []) vs
none-before [] = tt
none-before (v ∷ vs) = (tt, none-before vs)

-- Peers that an item can express and whose names differ, at least one, are what `_parse_peers`
-- reads from their printed list, in their order, whatever the defaults and the addressing are.
pub parse_peers-printed_all :
    (z : Integers) (a : Addressing) (defaults : List String) (v : PeerSpec) (vs : List PeerSpec)
    → All IsPrintable (v ∷ vs)
    → HasUniqueNames (v ∷ vs)
    → parse_peers z (some (printed_all (v ∷ vs))) a defaults ≡ v ∷ vs
unfolding parse_peers peer_items
parse_peers-printed_all z a defaults v vs h u =
    let read = λ (items : List String). values (add_items z a items []) in
    rw (joined-nonempty v vs (printed-nonempty v h.0.named)) (
      ap (λ items. read (map strip items))
        (split-joined (char 44 tt) (printed v) (map printed vs) refl (printed-lacks (v ∷ vs) h))
      ∙ ap read (stripped-items (v ∷ vs) h)
      ∙ ap values (add_items-printed z a [] (v ∷ vs) h (none-before (v ∷ vs)) u)
      ∙ values-entry (v ∷ vs))
