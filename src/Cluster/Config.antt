-- ===== src/Cluster/Config.antt =====
-- app/cluster/config.py and app/cluster/resolver.py: the peers of an agent, from the environment
-- to the tools that call them. Python's `int` and `str` on integers are parameters.
pub mod Peers
pub mod Paths
pub mod Printed
use mathlib.Core.Option
use adk_a2a_gke.Prelude.{
  String, Option, none, some, List, [], ◌∷◌, map, ◌==◌, if◌then◌else◌, Dict, insert, values, lookup,
  ℤ, pos, same_int, Env, env_get, or_text,
}
use adk_a2a_gke.Text.{concat, strip, split, partition, lstrip_by, rstrip_by, is_slash}

pub record PeerSpec : Type 0 where
  pub name : String
  pub base_url : String

pub record ClusterConfig : Type 0 where
  pub name : String
  pub namespace : String
  pub cluster_domain : String
  pub peer_scheme : String
  pub peer_port : ℤ
  pub peers : List PeerSpec
  pub rpc_path : String

-- How the address of a peer is derived from its name.
pub record Addressing : Type 0 where
  pub namespace : String
  pub cluster_domain : String
  pub scheme : String
  pub port : ℤ

-- Python's `int` on a text, `none` where it raises, and `str` on an integer.
pub record Integers : Type 0 where
  pub int : String → Option ℤ
  pub str : ℤ → String

-- the items that `_parse_peers` loops over
unfoldable pub peer_items : Option String → List String → List String
unfolding split strip
peer_items raw defaults =
    let text = Option.get_or raw "" in if text == "" then defaults else map strip (split 44 text)

unfoldable pub normalize_rpc_path : Option String → String
unfolding strip lstrip_by rstrip_by concat
normalize_rpc_path raw =
    let text = strip (Option.get_or raw "") in
    if text == ""
    then "/a2a/app"
    else concat ("/" ∷ rstrip_by is_slash (lstrip_by is_slash text) ∷ [])

module _ (z : Integers) where
  unfoldable pub service_dns_url : String → Addressing → String
  unfolding concat
  service_dns_url name a =
      let host = concat (name ∷ "." ∷ a.namespace ∷ "." ∷ a.cluster_domain ∷ []) in
      let default_port = if a.scheme == "https" then 443 else 80 in
      if same_int a.port (pos default_port)
      then concat (a.scheme ∷ "://" ∷ host ∷ [])
      else concat (a.scheme ∷ "://" ∷ host ∷ ":" ∷ z.str a.port ∷ [])

  -- The body of the loop of `_parse_peers` from the name and the URL of an item on.
  unfoldable pub add_named : Addressing → String → String → Dict PeerSpec → Dict PeerSpec
  unfolding service_dns_url rstrip_by
  add_named a name explicit peers =
      let base_url = if explicit == "" then service_dns_url name a else explicit in
      insert name (record { name = name; base_url = rstrip_by is_slash base_url }) peers

  unfoldable pub add_item : Addressing → String → Dict PeerSpec → Dict PeerSpec
  unfolding add_named strip partition
  add_item a item peers =
      let (name, url) = partition 61 item in
      let added = add_named a (strip name) (strip url) peers in
      if item == "" then peers else (if strip name == "" then peers else added)

  unfoldable pub add_items : Addressing → List String → Dict PeerSpec → Dict PeerSpec
  unfolding add_item
  add_items a [] peers = peers
  add_items a (item ∷ items) peers = add_items a items (add_item a item peers)

  unfoldable pub parse_peers : Option String → Addressing → List String → List PeerSpec
  unfolding add_items peer_items
  parse_peers raw a defaults = values (add_items a (peer_items raw defaults) [])

  unfoldable pub parse_port : Option String → ℤ
  unfolding strip
  parse_port raw =
      let text = strip (Option.get_or raw "") in
      if text == "" then pos 80 else Option.get_or (z.int text) (pos 80)

  unfoldable pub from_env : Env → Option String → List String → ClusterConfig
  unfolding parse_peers parse_port normalize_rpc_path strip
  from_env env name default_peers =
      let a : Addressing = record {
        namespace = strip (env_get env "A2A_NAMESPACE" "agents");
        cluster_domain = strip (env_get env "A2A_CLUSTER_DOMAIN" "svc.cluster.local");
        scheme = strip (env_get env "A2A_PEER_SCHEME" "http");
        port = parse_port (env "A2A_PEER_PORT");
      } in
      record {
        name =
            or_text (strip (Option.get_or name (env_get env "AGENT_NAME" "orchestrator")))
              "orchestrator";
        namespace = a.namespace;
        cluster_domain = a.cluster_domain;
        peer_scheme = a.scheme;
        peer_port = a.port;
        peers = parse_peers (env "A2A_PEERS") a default_peers;
        rpc_path = normalize_rpc_path (env "A2A_RPC_PATH");
      }

-- `PeerTool` for a `RemoteA2aAgent`: what it addresses and the payloads that it accepts.
pub record PeerTool (Schema : Type 0) : Type 0 where
  pub name : String
  pub agent_card : String
  pub payload_schema : Schema
  pub description : String

-- `AgentResolver`: `unknown` is `UnknownPeerRequest`, `well_known` the path that ADK publishes an
-- agent's card under.
pub record AgentResolver (Schema : Type 0) : Type 0 where
  pub config : ClusterConfig
  pub payload_schemas : Dict Schema
  pub unknown : Schema
  pub well_known : String

module _ {Schema : Type 0} (r : AgentResolver Schema) where
  unfoldable pub card_url : PeerSpec → String
  unfolding concat
  card_url peer = concat (peer.base_url ∷ r.config.rpc_path ∷ r.well_known ∷ [])

  unfoldable pub payload_schema : String → Schema
  payload_schema name = Option.get_or (lookup name r.payload_schemas) r.unknown

  unfoldable pub resolve_peer : PeerSpec → PeerTool Schema
  unfolding card_url payload_schema concat
  resolve_peer peer = record {
    name = peer.name;
    agent_card = card_url peer;
    payload_schema = payload_schema peer.name;
    description = concat (
        "Delegate a self-contained task to the '" ∷ peer.name
        ∷ "' specialist agent over A2A. It receives ONLY the fields below — it cannot see this conversation — so state everything it needs."
        ∷ []);
  }

  -- the loop of `resolve`
  unfoldable pub resolve_in : String → List PeerSpec → Option (PeerTool Schema)
  unfolding resolve_peer
  resolve_in name [] = none
  resolve_in name (peer ∷ peers) =
      let rest = resolve_in name peers in
      if peer.name == name then some (resolve_peer peer) else rest

  -- `none` is the `KeyError`
  unfoldable pub resolve : String → Option (PeerTool Schema)
  unfolding resolve_in
  resolve name = resolve_in name r.config.peers

  unfoldable pub resolve_all : List (PeerTool Schema)
  unfolding resolve_peer
  resolve_all = map resolve_peer r.config.peers
