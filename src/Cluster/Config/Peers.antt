-- ===== src/Cluster/Config/Peers.antt =====
-- The peers that `ClusterConfig` and `AgentResolver` know.
use adk_a2a_gke.Prelude.{
  String, false, Option, none, some, List, [], ◌∷◌, map, ◌==◌, if◌then◌else◌, Dict, insert, values,
  lookup, lookup-insert, ◌≡◌, ◌↔◌, inl, inr, In, All, eq_iff, eq_refl, arith, refl, sym, ap,
  Bool-cases, Env,
}
use adk_a2a_gke.Text.{strip, partition, is_slash, rstrip_by}
use adk_a2a_gke.Text.Strip.{ends_by, rstrip_by-ends}
use adk_a2a_gke.Cluster.Config.{
  PeerSpec, Addressing, Integers, add_named, add_item, add_items, parse_peers, peer_items, from_env,
  service_dns_url, AgentResolver, resolve, resolve_in, resolve_peer, resolve_all,
}

-- A peer has a name, and its URL does not end in a slash.
pub record IsPeer (v : PeerSpec) : Type 0 where
  pub named : (v.name == "") ≡ false
  pub bare : ends_by is_slash v.base_url ≡ false

-- No two peers of the list have one name.
abbrev pub OtherNames : String → List PeerSpec → Type 0
OtherNames k [] = Unit
OtherNames k (v ∷ vs) = ((v.name == k) ≡ false) × OtherNames k vs

abbrev pub HasUniqueNames : List PeerSpec → Type 0
HasUniqueNames [] = Unit
HasUniqueNames (v ∷ vs) = OtherNames v.name vs × HasUniqueNames vs

-- The entries stand under the names that the peers bear, each once.
Holds : Dict PeerSpec → Type 0
Holds [] = Unit
Holds ((k, v) ∷ d) = (v.name ≡ k) × IsPeer v × (lookup k d ≡ none) × Holds d

insert-Holds : (v : PeerSpec) (d : Dict PeerSpec) → IsPeer v → Holds d → Holds (insert v.name v d)
unfolding insert Holds lookup
insert-Holds v [] p h = (refl, p, refl, tt)
insert-Holds v ((k, w) ∷ d) p (e, q, n, h) = elim (Bool-cases (k == v.name)) [
  | inl same ↦ rw same (refl, p, ground (arith, eq_iff k v.name), h)
  | inr other ↦ rw other (
    e,
    q,
    ground (arith, lookup-insert k v.name v d, eq_iff k v.name, eq_iff v.name k),
    insert-Holds v d p h,
  )
]

rename : (k j : String) (vs : List PeerSpec) → OtherNames k vs → k ≡ j → OtherNames j vs
rename k j vs o e = rw (sym e) o

Holds-other :
    (k : String) (d : Dict PeerSpec) → Holds d → lookup k d ≡ none → OtherNames k (values d)
unfolding Holds lookup values
Holds-other k [] h n = tt
Holds-other k ((j, v) ∷ d) (e, p, m, h) n = elim (Bool-cases (j == k)) [
  | inl same ↦ absurd (ground (arith, same, n))
  | inr other ↦ (ground (arith, e, other), Holds-other k d h (ground (arith, other, n)))
]

Holds-unique : (d : Dict PeerSpec) → Holds d → HasUniqueNames (values d)
unfolding Holds lookup values
Holds-unique [] h = tt
Holds-unique ((k, v) ∷ d) (e, p, m, h) =
    (rename k v.name (values d) (Holds-other k d h m) (sym e), Holds-unique d h)

Holds-peers : (d : Dict PeerSpec) → Holds d → All IsPeer (values d)
unfolding Holds lookup values
Holds-peers [] h = tt
Holds-peers ((k, v) ∷ d) (e, p, m, h) = (p, Holds-peers d h)

module _ (z : Integers) (a : Addressing) where
  add_item-Holds : (item : String) (d : Dict PeerSpec) → Holds d → Holds (add_item z a item d)
  unfolding add_item add_named
  add_item-Holds item d h = elim (Bool-cases (item == "")) [
    | inl e ↦ rw e h
    | inr e ↦ elim (Bool-cases (strip (partition 61 item).0 == "")) [
      | inl f ↦ rw (e, f) h
      | inr f ↦
          rw (e, f)
            (insert-Holds
              (record {
                name = strip (partition 61 item).0;
                base_url = rstrip_by is_slash (
                    if strip (partition 61 item).1 == ""
                    then service_dns_url z (strip (partition 61 item).0) a
                    else strip (partition 61 item).1);
              })
              d
              (record {
                named = f;
                bare = rstrip_by-ends is_slash (
                    if strip (partition 61 item).1 == ""
                    then service_dns_url z (strip (partition 61 item).0) a
                    else strip (partition 61 item).1);
              })
              h)
    ]
  ]

  add_items-Holds :
      (items : List String) (d : Dict PeerSpec) → Holds d → Holds (add_items z a items d)
  unfolding add_items
  add_items-Holds [] d h = h
  add_items-Holds (i ∷ is) d h = add_items-Holds is (add_item z a i d) (add_item-Holds i d h)

  -- Whatever `A2A_PEERS` and the defaults are, the peers that `_parse_peers` returns have distinct,
  -- non-empty names and URLs without a slash at the end.
  pub parse_peers_well_formed :
      (raw : Option String) (defaults : List String)
      → HasUniqueNames (parse_peers z raw a defaults) × All IsPeer (parse_peers z raw a defaults)
  unfolding parse_peers Holds
  parse_peers_well_formed raw defaults =
      let items = peer_items raw defaults in
      let h = add_items-Holds items [] tt in
      (Holds-unique (add_items z a items []) h, Holds-peers (add_items z a items []) h)

other-In :
    (v : PeerSpec) (k : String) (vs : List PeerSpec)
    → OtherNames k vs
    → In v vs
    → (v.name == k) ≡ false
other-In v k [] o i = absurd (i refl)
other-In v k (w ∷ vs) (n, o) (inl e) = rw e n
other-In v k (w ∷ vs) (n, o) (inr i) = other-In v k vs o i

In-map {ℓ κ} :
    {A : Type ℓ} {B : Type κ} (f : A → B) (x : A) (xs : List A) → In x xs → In (f x) (map f xs)
In-map f x [] i = absurd (i refl)
In-map f x (y ∷ ys) (inl e) = inl (ap f e)
In-map f x (y ∷ ys) (inr i) = inr (In-map f x ys i)

-- The resolver that the process of one agent gets: the configuration is read from `env`.
abbrev pub resolver_from :
    {Schema : Type 0}
    → Integers
    → Env
    → Option String
    → List String
    → Dict Schema
    → Schema
    → String
    → AgentResolver Schema
resolver_from z env name defaults schemas unknown well_known = record {
  config = from_env z env name defaults;
  payload_schemas = schemas;
  unknown = unknown;
  well_known = well_known;
}

module _ {Schema : Type 0} (r : AgentResolver Schema) where
  resolve_in-In :
      (v : PeerSpec) (vs : List PeerSpec)
      → HasUniqueNames vs
      → In v vs
      → resolve_in r v.name vs ≡ some (resolve_peer r v)
  unfolding resolve_in
  resolve_in-In v [] u i = absurd (i refl)
  resolve_in-In v (w ∷ vs) u (inl e) = rw (e, eq_refl w.name, resolve_in) refl
  resolve_in-In v (w ∷ vs) (o, u) (inr i) =
      let differs = other-In v w.name vs o i in
      let rest = resolve_in-In v vs u i in
      ground (arith, differs, rest, eq_iff w.name v.name, eq_iff v.name w.name)

  resolve_in-error :
      (name : String) (vs : List PeerSpec) → resolve_in r name vs ≡ none ↔ OtherNames name vs
  unfolding resolve_in
  resolve_in-error name [] = (λ _. tt, λ _. refl)
  resolve_in-error name (v ∷ vs) = elim (Bool-cases (v.name == name)) [
    | inl e ↦ (λ r. absurd (ground (arith, e, r)), λ o. absurd (ground (arith, e, o.0)))
    | inr e ↦
        rw e (λ r. (refl, (resolve_in-error name vs).0 r), λ o. (resolve_in-error name vs).1 o.1)
  ]

  -- `resolve` raises its `KeyError` exactly where no configured peer has the name.
  pub resolve_error : (name : String) → resolve r name ≡ none ↔ OtherNames name r.config.peers
  unfolding resolve
  resolve_error name = resolve_in-error name r.config.peers

from_env_unique :
    (z : Integers) (env : Env) (name : Option String) (defaults : List String)
    → HasUniqueNames (from_env z env name defaults).peers
unfolding from_env
from_env_unique z env name defaults =
    (parse_peers_well_formed z
      (record {
        namespace = (from_env z env name defaults).namespace;
        cluster_domain = (from_env z env name defaults).cluster_domain;
        scheme = (from_env z env name defaults).peer_scheme;
        port = (from_env z env name defaults).peer_port;
      })
      (env "A2A_PEERS") defaults).0

-- Each peer of a configuration that is read from the environment is resolved by its name, and to
-- the tool that `resolve_all` holds for it: no other peer hides it.
pub resolve_configured :
    {Schema : Type 0} (z : Integers) (env : Env) (name : Option String) (defaults : List String)
    (schemas : Dict Schema) (unknown : Schema) (well_known : String) (v : PeerSpec)
    → In v (from_env z env name defaults).peers
    → let r = resolver_from z env name defaults schemas unknown well_known in
      (resolve r v.name ≡ some (resolve_peer r v)) × In (resolve_peer r v) (resolve_all r)
unfolding resolve resolve_all from_env
resolve_configured z env name defaults schemas unknown well_known v i =
    let r = resolver_from z env name defaults schemas unknown well_known in
    (
      resolve_in-In r v r.config.peers (from_env_unique z env name defaults) i,
      In-map (resolve_peer r) v r.config.peers i,
    )
