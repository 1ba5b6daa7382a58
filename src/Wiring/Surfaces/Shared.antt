-- ===== src/Wiring/Surfaces/Shared.antt =====
-- Where the web routes, the Runner and the A2A path share a service.
use mathlib.Core.Path.{subst}
use adk_a2a_gke.Prelude.{
  String, ◌≡◌, ◌↔◌, refl, ap, ◌∙◌, true, false, ◌==◌, Env, env_get, Bool, Option, none, some,
  lookup, insert, returned, bind-returned, returned_injective,
}
use adk_a2a_gke.Text.{strip}
use adk_a2a_gke.Cluster.Config.{Integers}
use adk_a2a_gke.Cluster.Database.{
  Letters, Refused, DatabaseConfig, refusal, checked, settings, from_env, enabled,
}
use adk_a2a_gke.Wiring.Agent.{Process, as_attempt}
use adk_a2a_gke.Wiring.Surfaces.{
  Registry, registered, share_sessions, share_artifacts, overridden, lifespan, web_sessions,
  web_artifacts,
}

accepted-settings :
    (o : Option Refused) (c d : DatabaseConfig) → as_attempt (checked o c) ≡ returned d → c ≡ d
unfolding checked
accepted-settings none c d e = returned_injective c d e
accepted-settings (some x) c d e = absurd (cc e)

-- the registry that the two tests leave
abbrev left : {Tool Schema : Type 0} → Process Tool Schema → Env → Bool → Bool → Registry
left p env unset configured = share_artifacts p unset (share_sessions p configured (registered env))

module _ {Tool Schema : Type 0} (p : Process Tool Schema) (z : Integers) (letters : Letters)
    (env : Env) (well_known extended : String) where
  left-shares :
      (unset configured : Bool)
      → let s = lifespan well_known extended env p in
        let r = left p env unset configured in
        ((web_sessions r ≡ some s.runner_sessions) ↔ (configured ≡ true))
        × ((web_artifacts r ≡ some s.runner_artifacts) ↔ (unset ≡ false))
  unfolding lifespan registered insert lookup
  left-shares true true = ((λ _. refl, λ _. refl), (λ e. absurd (cc e), λ e. absurd (cc e)))
  left-shares true false =
      ((λ e. absurd (cc e), λ e. absurd (cc e)), (λ e. absurd (cc e), λ e. absurd (cc e)))
  left-shares false true = ((λ _. refl, λ _. refl), (λ _. refl, λ _. refl))
  left-shares false false = ((λ e. absurd (cc e), λ e. absurd (cc e)), (λ _. refl, λ _. refl))

  -- Where fast_api_app.py is imported: the web routes use the session service of the Runner
  -- exactly where `DB_BACKEND` names a database, whatever `SESSION_BACKEND` says, and the artifact
  -- service of the Runner exactly where `ARTIFACT_STORAGE_URI` is not blank.
  pub surfaces_share :
      (r : Registry)
      → overridden p z letters env ≡ returned r
      → let s = lifespan well_known extended env p in
        ((web_sessions r ≡ some s.runner_sessions) ↔ (enabled (settings z letters env "") ≡ true))
        × ((web_artifacts r ≡ some s.runner_artifacts)
            ↔ ((strip (env_get env "ARTIFACT_STORAGE_URI" "") == "") ≡ false))
  unfolding overridden from_env
  surfaces_share r e =
      let unset = strip (env_get env "ARTIFACT_STORAGE_URI" "") == "" in
      let s = lifespan well_known extended env p in
      let (c, checks, f) = bind-returned (as_attempt (from_env z letters env "")) _ r e in
      let config = settings z letters env "" in
      let same =
        accepted-settings (refusal config.backend config.instance_uri config.iam_user config.url)
          config c checks in
      let made : left p env unset (enabled config) ≡ r =
        ap (λ x. left p env unset (enabled x)) same ∙ returned_injective _ r f in
      subst
        (λ q.
          ((web_sessions q ≡ some s.runner_sessions) ↔ (enabled config ≡ true))
          × ((web_artifacts q ≡ some s.runner_artifacts) ↔ (unset ≡ false)))
        made (left-shares unset (enabled config))
