-- ===== src/Tests/Reading.antt =====
-- Configurations, databases, tools and artifacts at concrete inputs.
use adk_a2a_gke.Prelude.{
  ℕ, String, true, none, some, [], ◌∷◌, ◌≡◌, ◌↔◌, ◌≤◌, refl, All, Env, pos, ◌==◌, if◌then◌else◌,
}
use adk_a2a_gke.Text.{strip, rstrip_by}
use adk_a2a_gke.Json.{scalars}
use adk_a2a_gke.Cases.Replies.{confirms}
use adk_a2a_gke.Cluster.Config.{Integers, Addressing, PeerSpec, parse_peers}
use adk_a2a_gke.Cluster.Config.Peers.{HasUniqueNames, IsPeer, parse_peers_well_formed}
use adk_a2a_gke.Cluster.Config.Printed.{parse_peers-printed_all}
use adk_a2a_gke.Cluster.Database.{Letters, accepted, settings, enabled}
use adk_a2a_gke.Cluster.Database.Settings.{Complete, from_env_accepts}
use adk_a2a_gke.Cluster.Database.Sharing.{returned, fresh, run}
use adk_a2a_gke.Cluster.Database.Sharing.Once.{engine_once}
use adk_a2a_gke.Cluster.Database.Sharing.Progress.{engine_returns}
use adk_a2a_gke.Agents.Publishing.{
  Numerals, canonical_value, proposal_fields, published, published-confirms,
}
use adk_a2a_gke.Tests.Engines.{numbers}

abbrev pub integers : Integers
integers = record { int = λ s. none; str = λ n. "80" }

abbrev pub letters : Letters
letters = record { lower = λ s. s; upper = λ s. s }

abbrev addressing : Addressing
addressing = record {
  namespace = "agents";
  cluster_domain = "svc.cluster.local";
  scheme = "http";
  port = pos 80;
}

abbrev research : PeerSpec
research = record { name = "research"; base_url = "http://research.agents.svc.cluster.local" }

abbrev no_env : Env
no_env key = none

parse_peers_well_formed_example :
    let peers = parse_peers integers (some "math=http://m/, research, math") addressing [] in
    HasUniqueNames peers × All IsPeer peers
parse_peers_well_formed_example =
    parse_peers_well_formed integers addressing (some "math=http://m/, research, math") []

from_env_accepts_example :
    let c = settings integers letters no_env "math" in
    adk_a2a_gke.Cluster.Database.from_env integers letters no_env "math" ≡ accepted c
    ↔ Complete c.backend c.instance_uri c.iam_user c.url
from_env_accepts_example = from_env_accepts integers letters no_env "math"

abbrev by_url : Env
by_url key =
    if key == "DB_BACKEND"
    then some "url"
    else if key == "DB_URL"
    then some "postgresql://db"
    else none

engine_once_example :
    let h =
      run (settings integers letters by_url "math") (1 ∷ 2 ∷ 1 ∷ 2 ∷ 1 ∷ 1 ∷ 2 ∷ 2 ∷ []) fresh in
    (h.built ≤ 1) × ((i j e f : ℕ) → h.places i ≡ returned e → h.places j ≡ returned f → e ≡ f)
engine_once_example =
    engine_once (settings integers letters by_url "math") (1 ∷ 2 ∷ 1 ∷ 2 ∷ 1 ∷ 1 ∷ 2 ∷ 2 ∷ [])

engine_returns_example :
    (run
        (settings integers letters by_url "math")
        (1 ∷ 1 ∷ 1 ∷ 1 ∷ [])
        (run (settings integers letters by_url "math") (2 ∷ []) fresh)).places
      1
    ≡ returned 0
unfolding enabled settings run fresh
engine_returns_example =
    engine_returns (settings integers letters by_url "math") (2 ∷ []) 1 refl refl refl

abbrev numerals : Numerals ℕ
numerals = record {
  float = λ s. if s == "4.0" then some 4 else none;
  is_integer = λ n. true;
  integer_text = λ n. "4";
  repr = λ n. "4.0";
  quoted = λ s. s;
}

published-confirms_example :
    confirms numbers
        (scalars (proposal_fields numerals {N = ℕ} "4.0" "sum"))
        (published numerals "4" "sum" "ann" "")
      ≡ true
    ↔ ((canonical_value numerals "4" ≡ canonical_value numerals "4.0")
        × (◌≡◌ {A = String} "sum" "sum"))
published-confirms_example = published-confirms numerals numbers "4.0" "sum" "4" "sum" "ann" ""

abbrev math_peer : PeerSpec
math_peer = record { name = "math"; base_url = "http://math:9000" }

abbrev research_peer : PeerSpec
research_peer = record { name = "research"; base_url = "https://research.example.com/v1" }

parse_peers-printed_all_example :
    parse_peers integers
      (some "math=http://math:9000,research=https://research.example.com/v1")
      addressing
      ("a" ∷ [])
    ≡ math_peer ∷ research_peer ∷ []
unfolding strip rstrip_by
parse_peers-printed_all_example =
    parse_peers-printed_all integers addressing ("a" ∷ []) math_peer (research_peer ∷ [])
      (
        record {
          named = refl;
          located = refl;
          name_stripped = refl;
          url_stripped = refl;
          item_stripped = refl;
          no_comma = refl;
          no_equals = refl;
          no_slash = refl;
        },
        (
          record {
            named = refl;
            located = refl;
            name_stripped = refl;
            url_stripped = refl;
            item_stripped = refl;
            no_comma = refl;
            no_equals = refl;
            no_slash = refl;
          },
          tt,
        ),
      )
      ((refl, tt), (tt, tt))
