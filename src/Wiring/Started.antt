-- ===== src/Wiring/Started.antt =====
-- app/agent.py: what a process that started is made of.
use mathlib.Core.Path.{subst}
use adk_a2a_gke.Shared.Catalog.{Gemini}
use mathlib.Core.Option.{some-injective}
use adk_a2a_gke.Prelude.{
  String, Bool, false, ◌⊎◌, ◌≡◌, refl, sym, ap, ◌∙◌, inl, inr, true, ◌==◌, Env, env_get, Option,
  none, some, List, [], ◌∷◌, ◌++◌, map, Dict, lookup, insert, lookup-insert, returned, arith,
  Bool-cases, bind-returned, returned_injective, eq_iff,
}
use adk_a2a_gke.Cluster.Config.{Integers, AgentResolver, resolve_all}
use adk_a2a_gke.Cluster.Database.{Letters, DatabaseConfig, build_database, enabled}
use adk_a2a_gke.Text.{strip}
use adk_a2a_gke.Wiring.Services.{
  Service, in_memory, on_database, on_url, managed, on_enabled, or_none, engine_id, backend_in,
  build_session_service, build_memory_service, build_task_store, build_case_store,
}
use adk_a2a_gke.Wiring.Agent.{
  AgentSpec, Models, LlmAgent, restate_structured_results, own, peer, model_of, add_all, registry,
  provide_config, provide_resolver, built, build_agent, Process, selected, as_attempt, start,
}

abbrev uses_database : Service → Bool
uses_database (on_database d) = true
uses_database _ = false

-- A service that is asked to use the database is on this one, which is enabled, and one that is not
-- asked to is on none.
abbrev IsPlaced : Bool → DatabaseConfig → Service → Type 0
IsPlaced asked c s =
    ((asked ≡ true) × (enabled c ≡ true) × (s ≡ on_database c))
    ⊎ ((asked ≡ false) × (uses_database s ≡ false))

on_enabled-IsPlaced :
    (asked : Bool) (c : DatabaseConfig) (s : Service)
    → asked ≡ true
    → on_enabled (some c) ≡ returned s
    → IsPlaced asked c s
unfolding enabled
on_enabled-IsPlaced asked c s a e = elim (Bool-cases (c.backend == "none")) [
  | inl off ↦ absurd (ground (arith, e, off))
  | inr on ↦
      inl
        (a, ground (arith, on), sym (returned_injective (on_database c) s (ground (arith, e, on))))
]

elsewhere-IsPlaced :
    (asked : Bool) (c : DatabaseConfig) (s₀ s : Service)
    → asked ≡ false
    → uses_database s₀ ≡ false
    → returned s₀ ≡ returned s
    → IsPlaced asked c s
elsewhere-IsPlaced asked c s₀ s a off e =
    inr (a, subst (λ x. uses_database x ≡ false) (returned_injective s₀ s e) off)

module _ (letters : Letters) (env : Env) where
  abbrev sessions_ask : Bool
  sessions_ask = backend_in letters env "SESSION_BACKEND" == "alloydb"

  abbrev tasks_ask : Bool
  tasks_ask = backend_in letters env "TASK_STORE_BACKEND" == "database"

  session-IsPlaced :
      (c : DatabaseConfig) (project location : String) (s : Service)
      → build_session_service letters env project location (some c) ≡ returned s
      → IsPlaced sessions_ask c s
  unfolding build_session_service
  session-IsPlaced c project location s e =
      let b = backend_in letters env "SESSION_BACKEND" in
      let vertex =
        managed (or_none project) (or_none location) (engine_id (env "AGENT_ENGINE_ID")) in
      let url = strip (env_get env "SESSION_DB_URL" "") in
      elim (Bool-cases (b == "alloydb")) [
        | inl asks ↦
            on_enabled-IsPlaced sessions_ask c s asks
              (ground (arith, e, asks, ap (λ x. x == "in_memory") ((eq_iff b "alloydb").0 asks)))
        | inr not_ ↦ elim (Bool-cases (b == "in_memory")) [
          | inl yes_ ↦
              elsewhere-IsPlaced sessions_ask c in_memory s not_ refl (ground (arith, e, yes_))
          | inr no₁ ↦ elim (Bool-cases (b == "database")) [
            | inl yes_ ↦ elim (Bool-cases (url == "")) [
              | inl missing ↦ absurd (ground (arith, e, no₁, not_, yes_, missing))
              | inr given ↦
                  elsewhere-IsPlaced sessions_ask c (on_url url) s not_ refl
                    (ground (arith, e, no₁, not_, yes_, given))
            ]
            | inr no₂ ↦ elim (Bool-cases (b == "vertex_ai")) [
              | inl yes_ ↦
                  elsewhere-IsPlaced sessions_ask c vertex s not_ refl
                    (ground (arith, e, no₁, not_, no₂, yes_))
              | inr no₃ ↦ absurd (ground (arith, e, no₁, not_, no₂, no₃))
            ]
          ]
        ]
      ]

  tasks-IsPlaced :
      (c : DatabaseConfig) (s : Service)
      → build_task_store letters env (some c) ≡ returned s
      → IsPlaced tasks_ask c s
  unfolding build_task_store
  tasks-IsPlaced c s e =
      let b = backend_in letters env "TASK_STORE_BACKEND" in
      elim (Bool-cases (b == "database")) [
        | inl asks ↦
            on_enabled-IsPlaced tasks_ask c s asks
              (ground (arith, e, asks, ap (λ x. x == "in_memory") ((eq_iff b "database").0 asks)))
        | inr not_ ↦ elim (Bool-cases (b == "in_memory")) [
          | inl yes_ ↦
              elsewhere-IsPlaced tasks_ask c in_memory s not_ refl (ground (arith, e, yes_))
          | inr no₁ ↦ absurd (ground (arith, e, no₁, not_))
        ]
      ]

case_store-IsPlaced : (c : DatabaseConfig) → IsPlaced (enabled c) c (build_case_store c)
unfolding build_case_store
case_store-IsPlaced c = elim (Bool-cases (enabled c)) [
  | inl on ↦ inl (on, on, rw (on, build_case_store) refl)
  | inr off ↦ inr (off, rw (off, build_case_store) refl)
]

-- every agent stands under its own name
IsNamed : {Tool : Type 0} → Dict (AgentSpec Tool) → Type 0
IsNamed {Tool} d = (k : String) (spec : AgentSpec Tool) → lookup k d ≡ some spec → spec.name ≡ k

insert-IsNamed :
    {Tool : Type 0} (spec : AgentSpec Tool) (d : Dict (AgentSpec Tool))
    → IsNamed d
    → IsNamed (insert spec.name spec d)
unfolding IsNamed
insert-IsNamed spec d h k other e = elim (Bool-cases (spec.name == k)) [
  | inl same ↦
      let found : some spec ≡ some other =
        sym (rw (lookup-insert k spec.name spec d, same) refl) ∙ e in
      sym (ap (λ x. x.name) (some-injective spec other found)) ∙ (eq_iff spec.name k).0 same
  | inr differs ↦ h k other (sym (rw (lookup-insert k spec.name spec d, differs) refl) ∙ e)
]

add_all-IsNamed :
    {Tool : Type 0} (specs : List (AgentSpec Tool)) (d : Dict (AgentSpec Tool))
    → IsNamed d
    → IsNamed (add_all specs d)
unfolding add_all
add_all-IsNamed [] d h = h
add_all-IsNamed (spec ∷ specs) d h =
    add_all-IsNamed specs (insert spec.name spec d) (insert-IsNamed spec d h)

registry-IsNamed : {Tool : Type 0} (specs : List (AgentSpec Tool)) → IsNamed (registry specs)
unfolding registry
registry-IsNamed specs =
    add_all-IsNamed specs [] (unfold IsNamed lookup in λ k spec e. absurd (cc e))

-- What holds of a process that started: the sessions and the tasks are on the process's database
-- exactly where their settings ask for it, the cases exactly where it is enabled; the root agent is
-- the one registered under the configured name, with its own tools, one for each configured peer,
-- and the callback that restates proposals.
pub record IsStarted {Tool Schema : Type 0} (letters : Letters) (env : Env)
    (specs : List (AgentSpec Tool)) (models : Models) (p : Process Tool Schema) : Type 0 where
  pub sessions : IsPlaced (sessions_ask letters env) p.database p.session_service
  pub tasks : IsPlaced (tasks_ask letters env) p.database p.task_store
  pub cases : IsPlaced (enabled p.database) p.database p.case_store
  pub spec : AgentSpec Tool
  pub registered : lookup p.resolver.config.name (registry specs) ≡ some spec
  pub named : p.root_agent.name ≡ p.resolver.config.name
  pub modelled : model_of models spec.tier ≡ some p.root_agent.model
  pub tools : p.root_agent.tools ≡ map own spec.tools ++ map peer (resolve_all p.resolver)
  pub restates : p.root_agent.after_agent_callback ≡ restate_structured_results

module _ {Tool Schema : Type 0} where
  -- `build_agent` of the spec that the name selects
  record IsRoot (agents : Dict (AgentSpec Tool)) (name : String) (models : Models)
      (resolver : AgentResolver Schema) (root : LlmAgent Tool Schema) : Type 0 where
    pub spec : AgentSpec Tool
    pub registered : lookup name agents ≡ some spec
    pub named : root.name ≡ spec.name
    pub modelled : model_of models spec.tier ≡ some root.model
    pub tools : root.tools ≡ map own spec.tools ++ map peer (resolve_all resolver)
    pub restates : root.after_agent_callback ≡ restate_structured_results

  built-IsRoot :
      (agents : Dict (AgentSpec Tool)) (name : String) (models : Models)
      (resolver : AgentResolver Schema) (spec : AgentSpec Tool) (o : Option Gemini)
      (root : LlmAgent Tool Schema)
      → lookup name agents ≡ some spec
      → model_of models spec.tier ≡ o
      → built spec resolver o ≡ returned root
      → IsRoot agents name models resolver root
  built-IsRoot agents name models resolver spec none root e m f = absurd (cc f)
  built-IsRoot agents name models resolver spec (some model) root e m f =
      subst (IsRoot agents name models resolver) (returned_injective _ root f) (record {
        spec = spec;
        registered = e;
        named = refl;
        modelled = m;
        tools = refl;
        restates = refl;
      })

  selected-IsRoot :
      (agents : Dict (AgentSpec Tool)) (name : String) (models : Models)
      (resolver : AgentResolver Schema) (o : Option (AgentSpec Tool)) (root : LlmAgent Tool Schema)
      → lookup name agents ≡ o
      → selected o models resolver ≡ returned root
      → IsRoot agents name models resolver root
  unfolding build_agent
  selected-IsRoot agents name models resolver none root e f = absurd (cc f)
  selected-IsRoot agents name models resolver (some spec) root e f =
      built-IsRoot agents name models resolver spec (model_of models spec.tier) root e refl f

  module _ (z : Integers) (letters : Letters) (env : Env) (specs : List (AgentSpec Tool))
      (default_agent : String) (payloads : Dict Schema) (unknown : Schema) (well_known : String)
      (project location : String) where
    pub start-IsStarted :
        (models : Models) (p : Process Tool Schema)
        → start z letters env specs default_agent payloads unknown well_known
            (returned models)
            project
            location
          ≡ returned p
        → IsStarted letters env specs models p
          × (p.resolver
              ≡ provide_resolver payloads unknown well_known
                  (provide_config z env (registry specs) default_agent))
    unfolding start provide_resolver
    start-IsStarted models p e =
        let agents = registry specs in
        let config = provide_config z env agents default_agent in
        let resolver = provide_resolver payloads unknown well_known config in
        let (c, d, e1) = bind-returned (as_attempt (build_database z letters env)) _ p e in
        let (s, sessions, e2) =
          bind-returned (build_session_service letters env project location (some c)) _ p e1 in
        let (m, _, e3) = bind-returned (build_memory_service letters env project location) _ p e2 in
        let (t, tasks, e4) = bind-returned (build_task_store letters env (some c)) _ p e3 in
        let (root, selected_root, e5) =
          bind-returned (selected (lookup resolver.config.name agents) models resolver) _ p e4 in
        let r =
          selected-IsRoot agents resolver.config.name models resolver
            (lookup resolver.config.name agents) root refl selected_root in
        subst
          (λ q.
            IsStarted letters env specs models q
            × (q.resolver
                ≡ provide_resolver payloads unknown well_known
                    (provide_config z env (registry specs) default_agent)))
          (returned_injective _ p e5)
          (
            record {
              sessions = session-IsPlaced letters env c project location s sessions;
              tasks = tasks-IsPlaced letters env c t tasks;
              cases = case_store-IsPlaced c;
              spec = r.spec;
              registered = r.registered;
              named =
                  r.named
                  ∙ unfold IsNamed in
                    registry-IsNamed specs resolver.config.name r.spec r.registered;
              modelled = r.modelled;
              tools = r.tools;
              restates = r.restates;
            },
            refl,
          )
