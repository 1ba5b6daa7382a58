-- ===== src/Shared/Telemetry/Settled.antt =====
-- `configure_observability`, called any number of times, before or after ADK sets up its own
-- telemetry.
use mathlib.Core.Path.{subst}
use adk_a2a_gke.Prelude.{
  String, Bool, true, false, ◌&&◌, if◌then◌else◌, Env, env_get, or_text, Option, List, [], ◌∷◌, ◌≡◌,
  ◌⊎◌, refl, sym, ap, ◌∙◌, inl, inr, Attempt, returned, raised, Bool-cases,
}
use adk_a2a_gke.Cluster.Database.{Letters}
use adk_a2a_gke.Shared.Logging.{Platform, Setup, Logs, configure_logging}
use adk_a2a_gke.Shared.Logging.Routed.{IsRouted, configure_logging-IsRouted}
use adk_a2a_gke.Shared.Telemetry.{
  ExporterKind, Provider, proxy, real, is_set, select_exporter_kind, Otel, has_adc, Tracing,
  needs_adc, provider_after, configure_tracing, ended, configure_observability,
}

-- The probe for credentials is only left out where its answer does not matter.
pub select_exporter_kind-probed :
    (otel : Otel) (env : Env)
    → select_exporter_kind env (if needs_adc otel env then has_adc otel else false)
      ≡ select_exporter_kind env (has_adc otel)
unfolding select_exporter_kind
select_exporter_kind-probed otel env =
    elim (Bool-cases (is_set env "OTEL_EXPORTER_OTLP_ENDPOINT")) [
      | inl e ↦ rw e refl
      | inr e ↦ elim (Bool-cases (is_set env "OTEL_EXPORTER_OTLP_TRACES_ENDPOINT")) [
        | inl f ↦ rw (e, f) refl
        | inr f ↦ elim (Bool-cases (is_set env "GOOGLE_CLOUD_PROJECT")) [
          | inl g ↦ rw (e, f, g) refl
          | inr g ↦ rw (e, f, g) refl
        ]
      ]
    ]

pub data Event : Type 0 where
  -- `configure_observability` with a project, a service's name, a level and `json_logs`
  observe : String → String → Option String → Option Bool → Event
  -- ADK's own set-up of a provider
  adk_setup : ExporterKind → String → Event

module _ (letters : Letters) (platform : Platform) (otel : Otel) (env : Env) where
  unfoldable pub happen : Event → Logs × Tracing → Attempt (Unit {0}) × (Logs × Tracing)
  unfolding configure_observability
  happen (observe project service_name level json_logs) s =
      configure_observability letters platform otel env project service_name level json_logs s
  happen (adk_setup kind service) (logs, t) =
      (returned tt, (logs, record t { provider = otel.set_providers kind service t.provider }))

  abbrev pub go_on :
      Attempt (Unit {0})
      → Logs × Tracing
      → Attempt (Unit {0}) × (Logs × Tracing)
      → Attempt (Unit {0}) × (Logs × Tracing)
  go_on (returned u) after rest = rest
  go_on (raised e) after rest = (raised e, after)

  -- events in a row, up to a call that raises
  unfoldable pub happen_all : List Event → Logs × Tracing → Attempt (Unit {0}) × (Logs × Tracing)
  unfolding happen
  happen_all [] s = (returned tt, s)
  happen_all (e ∷ es) s = let (done, after) = happen e s in go_on done after (happen_all es after)

  -- Tracing that is set up in a process whose provider was `p` before: a real one stays.
  pub record IsTraced (p : Provider) (t : Tracing) : Type 0 where
    pub configured : t.configured ≡ true
    pub propagators : t.propagators ≡ true
    pub http : t.http ≡ true
    pub kept : (p ≡ proxy) ⊎ (t.provider ≡ p)

  abbrev pub IsSettled : Provider → Logs × Tracing → Type 0
  IsSettled p (logs, t) = IsRouted logs × IsTraced p t

  provider_after-kept :
      (service_name : String) (p q : Provider)
      → (p ≡ proxy) ⊎ (q ≡ p)
      → (p ≡ proxy) ⊎ (provider_after otel env service_name q ≡ p)
  unfolding provider_after
  provider_after-kept service_name p q (inl e) = inl e
  provider_after-kept service_name p proxy (inr e) = inl (sym e)
  provider_after-kept service_name p (real kind service) (inr e) = inr e

  abbrev tracing_after : String → Tracing → Tracing
  tracing_after service_name t = record {
    configured = true;
    propagators = true;
    http = true;
    provider = provider_after otel env service_name t.provider;
  }

  configure_tracing-IsTraced :
      (p : Provider) (service_name : String) (t : Tracing)
      → ((t.configured ≡ false) × (t.provider ≡ p)) ⊎ IsTraced p t
      → IsTraced p (configure_tracing otel env service_name false t)
  unfolding configure_tracing
  configure_tracing-IsTraced p service_name t (inl (fresh, e)) = rw fresh (record {
    configured = refl;
    propagators = refl;
    http = refl;
    kept = provider_after-kept service_name p t.provider (inr e);
  })
  configure_tracing-IsTraced p service_name t (inr traced) =
      subst (IsTraced p)
        (sym (ap (λ b. if b && true then t else tracing_after service_name t) traced.configured))
        traced

  ended-IsSettled :
      (p : Provider) (done : Attempt (Unit {0})) (after : Logs) (t t' : Tracing)
      → (done ≡ returned tt → IsRouted after)
      → IsTraced p t'
      → (ended done after t t').0 ≡ returned tt
      → IsSettled p (ended done after t t').1
  ended-IsSettled p (returned u) after t t' routed traced e = (routed refl, traced)
  ended-IsSettled p (raised x) after t t' routed traced e = absurd (cc e)

  observed :
      (p : Provider) (logs : Logs) (t : Tracing) (project service_name : String)
      (level : Option String) (json_logs : Option Bool)
      → (logs.configured ≡ false) ⊎ IsRouted logs
      → ((t.configured ≡ false) × (t.provider ≡ p)) ⊎ IsTraced p t
      → (happen (observe project service_name level json_logs) (logs, t)).0 ≡ returned tt
      → IsSettled p (happen (observe project service_name level json_logs) (logs, t)).1
  unfolding happen configure_observability
  observed p logs t project service_name level json_logs ready tracing e =
      let setup : Setup = record {
        project = or_text project (env_get env "GOOGLE_CLOUD_PROJECT" "");
        level = level;
        json_logs = json_logs;
        force = false;
      } in
      let (done, after) = configure_logging letters platform env setup logs in
      ended-IsSettled p done after t (configure_tracing otel env service_name false t)
        (λ f. configure_logging-IsRouted letters platform env setup logs ready f)
        (configure_tracing-IsTraced p service_name t tracing) e

  module _
      (no_op : (kind : ExporterKind) (service : String) (k : ExporterKind) (s : String)
        → otel.set_providers kind service (real k s) ≡ real k s) where
    set_providers-kept :
        (p q : Provider) (kind : ExporterKind) (service : String)
        → (p ≡ proxy) ⊎ (q ≡ p)
        → (p ≡ proxy) ⊎ (otel.set_providers kind service q ≡ p)
    set_providers-kept p q kind service (inl e) = inl e
    set_providers-kept proxy q kind service (inr e) = inl refl
    set_providers-kept (real k s) q kind service (inr e) =
        inr (ap (otel.set_providers kind service) e ∙ no_op kind service k s)

    happen-IsSettled :
        (p : Provider) (event : Event) (s : Logs × Tracing)
        → IsSettled p s
        → (happen event s).0 ≡ returned tt
        → IsSettled p (happen event s).1
    unfolding happen
    happen-IsSettled p (observe project service_name level json_logs) (logs, t) (routed, traced) e =
        observed p logs t project service_name level json_logs (inr routed) (inr traced) e
    happen-IsSettled p (adk_setup kind service) (logs, t) (routed, traced) e = (
      routed,
      record {
        configured = traced.configured;
        propagators = traced.propagators;
        http = traced.http;
        kept = set_providers-kept p t.provider kind service traced.kept;
      },
    )

    go_on-IsSettled :
        (p : Provider) (done : Attempt (Unit {0})) (after : Logs × Tracing)
        (rest : Attempt (Unit {0}) × (Logs × Tracing))
        → (done ≡ returned tt → IsSettled p after)
        → (IsSettled p after → rest.0 ≡ returned tt → IsSettled p rest.1)
        → (go_on done after rest).0 ≡ returned tt
        → IsSettled p (go_on done after rest).1
    go_on-IsSettled p (returned u) after rest h k e = k (h refl) e
    go_on-IsSettled p (raised x) after rest h k e = absurd (cc e)

    happen_all-IsSettled :
        (p : Provider) (events : List Event) (s : Logs × Tracing)
        → IsSettled p s
        → (happen_all events s).0 ≡ returned tt
        → IsSettled p (happen_all events s).1
    unfolding happen_all
    happen_all-IsSettled p [] s settled e = settled
    happen_all-IsSettled p (event ∷ events) s settled e =
        go_on-IsSettled p (happen event s).0 (happen event s).1 _
          (happen-IsSettled p event s settled) (λ h f. happen_all-IsSettled p events _ h f) e

    -- Where ADK's set-up leaves a real provider alone, as documented: in a process whose logging
    -- and tracing are not set up, after a call of `configure_observability` and any further calls
    -- and set-ups by ADK, in any order, none of which raises, the logging goes through one stream,
    -- the propagators are set and the HTTP instrumentation was tried, and a real provider that was
    -- there before is still the provider.
    pub observability_settles :
        (project service_name : String) (level : Option String) (json_logs : Option Bool)
        (events : List Event) (logs : Logs) (t : Tracing)
        → logs.configured ≡ false
        → t.configured ≡ false
        → (happen_all (observe project service_name level json_logs ∷ events) (logs, t)).0
          ≡ returned tt
        → IsSettled t.provider
            (happen_all (observe project service_name level json_logs ∷ events) (logs, t)).1
    unfolding happen_all
    observability_settles project service_name level json_logs events logs t fresh untraced e =
        let p = t.provider in
        let first = happen (observe project service_name level json_logs) (logs, t) in
        go_on-IsSettled p first.0 first.1 _
          (observed p logs t project service_name level json_logs (inl fresh)
            (inl (untraced, refl)))
          (λ h f. happen_all-IsSettled p events _ h f) e
