-- ===== src/Shared/Telemetry.antt =====
-- app/shared/telemetry.py and `configure_observability`: the tracer provider of a process. ADK's
-- set-up of providers and the probe for credentials are parameters.
pub mod Settled
use mathlib.Core.Option
use adk_a2a_gke.Prelude.{
  String, Bool, true, false, not, ◌&&◌, ◌||◌, ◌==◌, if◌then◌else◌, Env, env_get, or_text, Option,
  Attempt, returned, raised,
}
use adk_a2a_gke.Cluster.Database.{Letters}
use adk_a2a_gke.Shared.Logging.{Platform, Setup, Logs, configure_logging}

pub data ExporterKind : Type 0 where
  otlp cloud no_exporter : ExporterKind

-- The provider: OpenTelemetry's proxy, or a real one with the service's name.
pub data Provider : Type 0 where
  proxy : Provider
  real : ExporterKind → String → Provider

-- `env.get(name)` as a condition
abbrev pub is_set : Env → String → Bool
is_set env name = not (Option.get_or (env name) "" == "")

unfoldable pub select_exporter_kind : Env → Bool → ExporterKind
select_exporter_kind env has_adc =
    if is_set env "OTEL_EXPORTER_OTLP_ENDPOINT" || is_set env "OTEL_EXPORTER_OTLP_TRACES_ENDPOINT"
    then otlp
    else if is_set env "GOOGLE_CLOUD_PROJECT" || has_adc
    then cloud
    else no_exporter

-- `service.name` of `_resource`
unfoldable pub service_of : Env → String → String
service_of env service_name =
    or_text (or_text service_name (Option.get_or (env "OTEL_SERVICE_NAME") "")) "adk-agent"

-- `maybe_set_otel_providers` with the exporters of Cloud Trace or none, and `google.auth.default`.
pub record Otel : Type 0 where
  pub set_providers : ExporterKind → String → Provider → Provider
  pub default_credentials : Attempt (Unit {0})

-- `_has_adc`, which swallows every exception
abbrev pub has_adc : Otel → Bool
has_adc otel = elim otel.default_credentials [ returned _ ↦ true | raised _ ↦ false ]

-- `http` says that the instrumentation of the HTTP client was tried.
pub record Tracing : Type 0 where
  pub configured : Bool
  pub propagators : Bool
  pub http : Bool
  pub provider : Provider

module _ (otel : Otel) (env : Env) where
  -- the credentials are only probed where they matter
  abbrev pub needs_adc : Bool
  needs_adc = not (
      is_set env "OTEL_EXPORTER_OTLP_ENDPOINT"
      || is_set env "OTEL_EXPORTER_OTLP_TRACES_ENDPOINT"
      || is_set env "GOOGLE_CLOUD_PROJECT")

  abbrev pub install : ExporterKind → String → Provider → Provider
  install no_exporter service provider = real no_exporter service
  install kind service provider = otel.set_providers kind service provider

  unfoldable pub setup_provider : String → Provider → Provider
  unfolding select_exporter_kind service_of
  setup_provider service_name provider =
      install (select_exporter_kind env (if needs_adc then has_adc otel else false))
        (service_of env service_name) provider

  -- a real provider stays
  unfoldable pub provider_after : String → Provider → Provider
  unfolding setup_provider
  provider_after service_name proxy = setup_provider service_name proxy
  provider_after service_name (real kind service) = real kind service

  unfoldable pub configure_tracing : String → Bool → Tracing → Tracing
  unfolding provider_after
  configure_tracing service_name force t =
      let after : Tracing = record {
        configured = true;
        propagators = true;
        http = true;
        provider = provider_after service_name t.provider;
      } in
      if t.configured && not force then t else after

-- The tracing is set up where the logging did not raise.
abbrev pub ended :
    Attempt (Unit {0}) → Logs → Tracing → Tracing → Attempt (Unit {0}) × (Logs × Tracing)
ended (returned u) after t t' = (returned u, (after, t'))
ended (raised e) after t t' = (raised e, (after, t))

-- `configure_observability`
unfoldable pub configure_observability :
    Letters
    → Platform
    → Otel
    → Env
    → String
    → String
    → Option String
    → Option Bool
    → Logs × Tracing
    → Attempt (Unit {0}) × (Logs × Tracing)
unfolding configure_logging configure_tracing
configure_observability letters platform otel env project service_name level json_logs (logs, t) =
    let setup : Setup = record {
      project = or_text project (env_get env "GOOGLE_CLOUD_PROJECT" "");
      level = level;
      json_logs = json_logs;
      force = false;
    } in
    let (done, after) = configure_logging letters platform env setup logs in
    ended done after t (configure_tracing otel env service_name false t)
