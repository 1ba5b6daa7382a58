-- ===== src/Schemas/Bootstrap.antt =====
-- app/cluster/bootstrap.py: the database is created where it is missing. The server is a parameter,
-- any of whose calls may fail; the pool that is closed at the end is left out.
use mathlib.Core.Path.{subst}
use adk_a2a_gke.Prelude.{
  String, ◌≡◌, ap, arith, Bool-cases, inl, inr, refl, Bool, true, false, not, ◌==◌, if◌then◌else◌,
  Env, Attempt, returned, raised, value_error,
}
use adk_a2a_gke.Cluster.Config.{Integers}
use adk_a2a_gke.Cluster.Database.{
  Letters, DatabaseConfig, Checked, accepted, refused, build_database, enabled,
}
use adk_a2a_gke.Schemas.Identifiers.{is_identifier}

-- A connection with a configuration asks whether a database exists, and creates one.
pub record Server (W : Type 0) : Type 0 where
  pub exists : DatabaseConfig → String → W → Attempt Bool
  pub create : DatabaseConfig → String → W → Attempt W

-- `dataclasses.replace(database.config, name=MAINTENANCE_DATABASE, db_schema="")`
unfoldable pub admin_config : DatabaseConfig → DatabaseConfig
admin_config c = record c { name = "postgres"; db_schema = "" }

module _ {W : Type 0} (server : Server W) where
  abbrev pub created : Attempt W → W → Attempt Bool × W
  created (raised e) w = (raised e, w)
  created (returned after) w = (returned true, after)

  abbrev pub unless_exists : Attempt Bool → Attempt W → W → Attempt Bool × W
  unless_exists (raised e) made w = (raised e, w)
  unless_exists (returned true) made w = (returned false, w)
  unless_exists (returned false) made w = created made w

  -- `ensure_database` from the name of the database on
  unfoldable pub ensure_named : DatabaseConfig → W → Attempt Bool × W
  unfolding is_identifier admin_config
  ensure_named c w =
      let admin = admin_config c in
      if not (is_identifier c.name)
      then (raised value_error, w)
      else if c.name == "postgres"
      then (returned false, w)
      else unless_exists (server.exists admin c.name w) (server.create admin c.name w) w

  unfoldable pub ensure_configured : Checked → W → Attempt Bool × W
  unfolding enabled ensure_named
  ensure_configured (refused e) w = (raised value_error, w)
  ensure_configured (accepted c) w =
      if not (enabled c) then (raised value_error, w) else ensure_named c w

  unfoldable pub ensure_database : Integers → Letters → Env → W → Attempt Bool × W
  unfolding build_database ensure_configured
  ensure_database z letters env w = ensure_configured (build_database z letters env) w

-- A database that was created exists from then on.
pub record IsServer {W : Type 0} (server : Server W) : Type 0 where
  pub exists-create :
      (c : DatabaseConfig) (name : String) (w after : W)
      → server.create c name w ≡ returned after
      → server.exists c name after ≡ returned true

module _ {W : Type 0} (server : Server W) (h : IsServer server) where
  unless_exists_again :
      (c : DatabaseConfig) (name : String) (w : W) (b : Bool) (after : W)
      → unless_exists server (server.exists c name w) (server.create c name w) w
        ≡ (returned b, after)
      → unless_exists server (server.exists c name after) (server.create c name after) after
        ≡ (returned false, after)
  unless_exists_again c name w b after e =
      go (server.exists c name w) (server.create c name w) refl refl e
    where
      Again : W → Type 0
      Again v =
          unless_exists server (server.exists c name v) (server.create c name v) v
          ≡ (returned false, v)

      go :
          (x : Attempt Bool) (m : Attempt W)
          → server.exists c name w ≡ x
          → server.create c name w ≡ m
          → unless_exists server x m w ≡ (returned b, after)
          → Again after
      go (raised x) m p q f = absurd (cc f)
      go (returned true) m p q f =
          subst Again (cc f) (ap (λ x. unless_exists server x (server.create c name w) w) p)
      go (returned false) (raised x) p q f = absurd (cc f)
      go (returned false) (returned v) p q f = subst Again (cc f) (
          ap (λ x. unless_exists server x (server.create c name v) v)
            (h.exists-create c name w v q))

  ensure_named_again :
      (c : DatabaseConfig) (w : W) (b : Bool) (after : W)
      → ensure_named server c w ≡ (returned b, after)
      → ensure_named server c after ≡ (returned false, after)
  unfolding ensure_named
  ensure_named_again c w b after e = elim (Bool-cases (is_identifier c.name)) [
    | inr bad ↦ absurd (ground (arith, e, bad))
    | inl good ↦ elim (Bool-cases (c.name == "postgres")) [
      | inl maintenance ↦ ground (arith, e, good, maintenance)
      | inr other ↦
          rw (good, other, ensure_named)
            (unless_exists_again (admin_config c) c.name w b after (ground (arith, e, good, other)))
    ]
  ]

  -- Where a database that was created exists, a run of `ensure_database` that does not raise makes
  -- the next run find everything done: it returns `False` and changes nothing.
  pub ensure_database_again :
      (z : Integers) (letters : Letters) (env : Env) (w : W) (b : Bool) (after : W)
      → ensure_database server z letters env w ≡ (returned b, after)
      → ensure_database server z letters env after ≡ (returned false, after)
  unfolding ensure_database ensure_configured
  ensure_database_again z letters env w b after e = configured (build_database z letters env) e
    where
      configured :
          (c : Checked)
          → ensure_configured server c w ≡ (returned b, after)
          → ensure_configured server c after ≡ (returned false, after)
      configured (refused x) f = absurd (cc f)
      configured (accepted c) f = elim (Bool-cases (enabled c)) [
        | inl on ↦
            rw (on, ensure_configured) (ensure_named_again c w b after (ground (arith, f, on)))
        | inr off ↦ absurd (ground (arith, f, off))
      ]
