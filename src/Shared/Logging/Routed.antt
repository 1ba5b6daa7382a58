-- ===== src/Shared/Logging/Routed.antt =====
-- app/shared/logging.py: after a set-up every record goes through loguru once.
use mathlib.Core.Path.{subst}
use adk_a2a_gke.Prelude.{
  String, ◌≡◌, ◌⊎◌, refl, sym, ap, ◌∙◌, inl, inr, true, false, not, ◌&&◌, if◌then◌else◌, Env, some,
  List, [], ◌∷◌, All, Dict, lookup, insert, lookup-insert, Attempt, returned, raised, arith,
  Bool-cases, eq_refl,
}
use adk_a2a_gke.Cluster.Database.{Letters}
use adk_a2a_gke.Shared.Logging.{
  Logger, Sink, json, console, intercept, Logs, loggers_to_reset, reset_all, Platform, Setup,
  use_json, level_of, add_sink, rerouted, reconfigure, configure_logging,
}

-- One stream: the root logger has the intercepting handler alone, the libraries' loggers have
-- none of their own and pass their records on to it, and there is one sink, with the patcher set.
pub record IsRouted (logs : Logs) : Type 0 where
  pub root : logs.root ≡ intercept
  pub passed_on :
      All
        (λ name. lookup name logs.loggers ≡ some (record { handlers = []; propagate = true }))
        loggers_to_reset
  pub sink : Sink
  pub one_sink : logs.sinks ≡ sink ∷ []
  pub project : String
  pub patched : logs.patcher ≡ some project
  pub done : logs.configured ≡ true

abbrev plain : Logger
plain = record { handlers = []; propagate = true }

-- a logger that was reset stays so
reset_all-kept :
    (name : String) (names : List String) (d : Dict Logger)
    → lookup name d ≡ some plain
    → lookup name (reset_all names d) ≡ some plain
unfolding reset_all
reset_all-kept name [] d e = e
reset_all-kept name (n ∷ names) d e =
    reset_all-kept name names (insert n plain d) (lookup-insert name n plain d ∙ ground (arith, e))

reset_all-plain :
    (names : List String) (d : Dict Logger)
    → All (λ name. lookup name (reset_all names d) ≡ some plain) names
unfolding reset_all
reset_all-plain [] d = tt
reset_all-plain (n ∷ names) d = (
  reset_all-kept n names (insert n plain d) (lookup-insert n n plain d ∙ ground (arith, eq_refl n)),
  reset_all-plain names (insert n plain d),
)

module _ (letters : Letters) (platform : Platform) (env : Env) where
  -- A call of `configure_logging` that returns.
  add_sink-IsRouted :
      (setup : Setup) (level project : String) (logs : Logs)
      → logs.root ≡ intercept
      → All (λ name. lookup name logs.loggers ≡ some plain) loggers_to_reset
      → logs.patcher ≡ some project
      → (add_sink letters platform env setup level logs).0 ≡ returned tt
      → IsRouted (add_sink letters platform env setup level logs).1
  unfolding add_sink
  add_sink-IsRouted setup level project logs r l p e =
      elim (Bool-cases (platform.loguru_knows level)) [
        | inr unknown ↦ absurd (ground (arith, e, unknown))
        | inl known ↦
            rw (known, add_sink)
              (record {
                root = r;
                passed_on = l;
                sink =
                    if use_json letters platform env setup.json_logs
                    then json level
                    else console level;
                one_sink = refl;
                project = project;
                patched = p;
                done = refl;
              })
      ]

  reconfigure-known :
      (setup : Setup) (level : String) (logs : Logs)
      → platform.logging_knows level ≡ true
      → reconfigure letters platform env setup level logs
        ≡ add_sink letters platform env setup level (rerouted letters platform env setup level logs)
  unfolding reconfigure
  reconfigure-known setup level logs known = rw (known, reconfigure) refl

  reconfigure-IsRouted :
      (setup : Setup) (level : String) (logs : Logs)
      → (reconfigure letters platform env setup level logs).0 ≡ returned tt
      → IsRouted (reconfigure letters platform env setup level logs).1
  unfolding reconfigure rerouted
  reconfigure-IsRouted setup level logs e = elim (Bool-cases (platform.logging_knows level)) [
    | inr unknown ↦ absurd (ground (arith, e, unknown))
    | inl known ↦
        let same = reconfigure-known setup level logs known in
        subst (λ x. IsRouted x.1) (sym same)
          (add_sink-IsRouted setup level _ (rerouted letters platform env setup level logs) refl
            (reset_all-plain loggers_to_reset logs.loggers) refl (sym (ap (λ x. x.0) same) ∙ e))
  ]

  configure_logging-skip :
      (setup : Setup) (logs : Logs)
      → (logs.configured && not setup.force) ≡ true
      → configure_logging letters platform env setup logs ≡ (returned tt, logs)
  unfolding configure_logging
  configure_logging-skip setup logs skip = rw (skip, configure_logging) refl

  configure_logging-run :
      (setup : Setup) (logs : Logs)
      → (logs.configured && not setup.force) ≡ false
      → configure_logging letters platform env setup logs
        ≡ reconfigure letters platform env setup (level_of letters platform env setup.level) logs
  unfolding configure_logging
  configure_logging-run setup logs run = rw (run, configure_logging) refl

  earlier :
      (setup : Setup) (logs : Logs)
      → (logs.configured ≡ false) ⊎ IsRouted logs
      → (logs.configured && not setup.force) ≡ true
      → IsRouted logs
  earlier setup logs (inl fresh) skip = absurd (ground (arith, fresh, skip))
  earlier setup logs (inr routed) skip = routed

  pub configure_logging-IsRouted :
      (setup : Setup) (logs : Logs)
      → (logs.configured ≡ false) ⊎ IsRouted logs
      → (configure_logging letters platform env setup logs).0 ≡ returned tt
      → IsRouted (configure_logging letters platform env setup logs).1
  configure_logging-IsRouted setup logs ready e =
      elim (Bool-cases (logs.configured && not setup.force)) [
        | inl skip ↦
            subst (λ x. IsRouted x.1) (sym (configure_logging-skip setup logs skip))
              (earlier setup logs ready skip)
        | inr run ↦
            let same = configure_logging-run setup logs run in
            subst (λ x. IsRouted x.1) (sym same)
              (reconfigure-IsRouted setup (level_of letters platform env setup.level) logs
                (sym (ap (λ x. x.0) same) ∙ e))
      ]

  abbrev pub go_on :
      Attempt (Unit {0}) → Logs → Attempt (Unit {0}) × Logs → Attempt (Unit {0}) × Logs
  go_on (returned u) after rest = rest
  go_on (raised e) after rest = (raised e, after)

  -- calls in a row, up to one that raises
  unfoldable pub configure_all : List Setup → Logs → Attempt (Unit {0}) × Logs
  unfolding configure_logging
  configure_all [] logs = (returned tt, logs)
  configure_all (setup ∷ setups) logs =
      let (done, after) = configure_logging letters platform env setup logs in
      go_on done after (configure_all setups after)

  go_on-IsRouted :
      (done : Attempt (Unit {0})) (after : Logs) (rest : Attempt (Unit {0}) × Logs)
      → (done ≡ returned tt → IsRouted after)
      → (IsRouted after → rest.0 ≡ returned tt → IsRouted rest.1)
      → (go_on done after rest).0 ≡ returned tt
      → IsRouted (go_on done after rest).1
  go_on-IsRouted (returned u) after rest h k e = k (h refl) e
  go_on-IsRouted (raised x) after rest h k e = absurd (cc e)

  configure_all-IsRouted :
      (setups : List Setup) (logs : Logs)
      → IsRouted logs
      → (configure_all setups logs).0 ≡ returned tt
      → IsRouted (configure_all setups logs).1
  unfolding configure_all
  configure_all-IsRouted [] logs routed e = routed
  configure_all-IsRouted (setup ∷ setups) logs routed e =
      go_on-IsRouted (configure_logging letters platform env setup logs).0 _ _
        (configure_logging-IsRouted setup logs (inr routed))
        (λ r f. configure_all-IsRouted setups _ r f) e

  -- From a process that is not configured, after one or more calls of `configure_logging`, forced
  -- or not, none of which raises, the root logger has the intercepting handler alone, each of the
  -- libraries' loggers has no handler of its own and passes its records on, the patcher is set and
  -- there is exactly one sink.
  pub configure_logging_routes :
      (setup : Setup) (setups : List Setup) (logs : Logs)
      → logs.configured ≡ false
      → (configure_all (setup ∷ setups) logs).0 ≡ returned tt
      → IsRouted (configure_all (setup ∷ setups) logs).1
  unfolding configure_all
  configure_logging_routes setup setups logs fresh e =
      go_on-IsRouted (configure_logging letters platform env setup logs).0 _ _
        (configure_logging-IsRouted setup logs (inl fresh))
        (λ r f. configure_all-IsRouted setups _ r f) e
