-- ===== src/Wiring/Delegates.antt =====
-- The tools for the peers that the agents' specs name.
use mathlib.Core.Path.{subst}
use adk_a2a_gke.Prelude.{
  String, ◌≡◌, refl, sym, ◌⊎◌, inl, inr, Env, env_get, or_text, Option, none, some, List, [], ◌∷◌,
  ◌++◌, map, All, All-In, In, Attempt, returned, Option-cases, lookup, lookup-All, insert, values,
}
use mathlib.Core.Option
use adk_a2a_gke.Text.{strip}
use adk_a2a_gke.Json.{Fields}
use adk_a2a_gke.Agents.Contracts.{Contract, payloads}
use adk_a2a_gke.Agents.Team.{Tool, orchestrator, specs, agents, default_agent}
use adk_a2a_gke.Cluster.Config.{
  Integers, PeerTool, resolve_all, resolve_peer, payload_schema, add_named, from_env,
}
use adk_a2a_gke.Cluster.Database.{Letters}
use adk_a2a_gke.Cluster.Peer.{Pydantic}
use adk_a2a_gke.Cluster.Peer.Typed.{payload_of, Delegates, run_async_typed}
use adk_a2a_gke.Wiring.Agent.{
  AnyTool, own, peer, Models, Process, peers_of, registry, provide_config, provide_resolver, start,
}
use adk_a2a_gke.Wiring.Started.{start-IsStarted}

-- The tool has the contract that `PAYLOADS` holds under its name.
abbrev pub HasContract : PeerTool Contract → Type 0
HasContract t = lookup t.name payloads ≡ some t.payload_schema

peers-known :
    (name : String)
    → (peers_of (lookup name agents) ≡ []) ⊎ (peers_of (lookup name agents) ≡ orchestrator.peers)
unfolding agents
peers-known name = elim (Option-cases (lookup name agents)) [
  | inl e ↦ inl (rw e refl)
  | inr (spec, e) ↦ rw e (
      lookup-All (λ s. (s.peers ≡ []) ⊎ (s.peers ≡ orchestrator.peers)) name spec agents
        (inr refl, (inl refl, (inl refl, (inl refl, tt)))) e)
]

module _ (z : Integers) (env : Env) (unknown : Contract) (well_known : String)
    (unset : env "A2A_PEERS" ≡ none) where
  typed_from :
      (name : Option String) (peers : List String)
      → (peers ≡ []) ⊎ (peers ≡ orchestrator.peers)
      → All HasContract
          (resolve_all (provide_resolver payloads unknown well_known (from_env z env name peers)))
  unfolding from_env resolve_all resolve_peer payload_schema add_named provide_resolver lookup
      insert values
  typed_from name peers (inl e) = rw (e, unset) tt
  typed_from name peers (inr e) = rw (e, unset) (refl, (refl, (refl, tt)))

  config-typed : All HasContract (
      resolve_all (
        provide_resolver payloads unknown well_known
          (provide_config z env (registry specs) default_agent)))
  unfolding provide_config agents
  config-typed =
      let name = or_text (strip (env_get env "AGENT_NAME" default_agent)) default_agent in
      typed_from (some name) (peers_of (lookup name agents)) (peers-known name)

abbrev KnownTool : AnyTool Tool Contract → Type 0
KnownTool (own _) = Unit
KnownTool (peer t) = HasContract t

tools-known :
    (ts : List Tool) (ps : List (PeerTool Contract))
    → All HasContract ps
    → All KnownTool (map own ts ++ map peer ps)
tools-known (t ∷ ts) ps h = (tt, tools-known ts ps h)
tools-known [] [] h = tt
tools-known [] (p ∷ ps) (k, h) = (k, tools-known [] ps h)

module _ {N P : Type 0} (pydantic : Pydantic N P)
    (documented : (c : Contract) (args : Fields N)
      → Option.map pydantic.model_dump (pydantic.model_validate c args) ≡ payload_of c.fields args)
    (z : Integers) (letters : Letters) (env : Env) (unknown : Contract)
    (well_known project location : String) where
  -- Pydantic validates and dumps as it documents. When app/agent.py starts with one of the
  -- registered agents and `A2A_PEERS` is not set, whatever arguments a model gives to a tool of the
  -- agent that calls a peer: either `ValueError` is raised and nothing is sent, or the tool sends,
  -- once, exactly the fields of the contract that `PAYLOADS` holds under the peer's name, each of
  -- its type, and a specialist that validates them against that contract reads them unchanged.
  pub started_delegation :
      {R W : Type 0} (deliver : Fields N → W → Attempt R × W) (models : Models)
      (p : Process Tool Contract) (t : PeerTool Contract) (args : Fields N) (w : W)
      → start z letters env specs default_agent payloads unknown well_known
          (returned models)
          project
          location
        ≡ returned p
      → env "A2A_PEERS" ≡ none
      → In (peer t) p.root_agent.tools
      → (c : Contract) × (lookup t.name payloads ≡ some c) × Delegates pydantic deliver t c args w
  started_delegation deliver models p t args w e unset i =
      let (h, resolver) =
        start-IsStarted z letters env specs default_agent payloads unknown well_known project
          location models p e in
      let typed =
        subst (λ r. All HasContract (resolve_all r)) (sym resolver)
          (config-typed z env unknown well_known unset) in
      let all =
        subst (All KnownTool) (sym h.tools)
          (tools-known h.spec.tools (resolve_all p.resolver) typed) in
      let known = All-In KnownTool p.root_agent.tools (peer t) all i in
      (t.payload_schema, known, run_async_typed pydantic documented deliver t args w known)
