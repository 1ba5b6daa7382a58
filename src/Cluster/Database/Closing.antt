-- ===== src/Cluster/Database/Closing.antt =====
-- app/cluster/db.py: the life of a `Database` on one event loop, from its construction through calls
-- of `engine` and `aclose`. Engines and connectors are numbered in the order in which they are
-- made; the library that makes, disposes and closes them may raise, which each call says.
pub mod Released
use adk_a2a_gke.Prelude.{
  ℕ, suc, Bool, true, false, ◌==◌, eqb, if◌then◌else◌, Option, none, some, List, [], ◌∷◌, Attempt,
  returned, raised, value_error, foreign,
}
use adk_a2a_gke.Cluster.Database.{DatabaseConfig, enabled}

-- the object's two fields, and what is open behind them
pub record Held : Type 0 where
  pub engine : Option ℕ
  pub connector : Option ℕ
  pub engines : List ℕ
  pub connectors : List ℕ
  pub made : ℕ

abbrev pub constructed : Held
constructed = record { engine = none; connector = none; engines = []; connectors = []; made = 0 }

-- without the object of a number
abbrev pub without : ℕ → List ℕ → List ℕ
without n [] = []
without n (m ∷ ms) = let rest = without n ms in if eqb m n then rest else m ∷ rest

-- `AsyncConnector(...)`, where the backend is AlloyDB
abbrev pub connect : DatabaseConfig → Held → Held
connect c h =
    if c.backend == "alloydb"
    then record h { connector = some h.made; connectors = h.made ∷ h.connectors; made = suc h.made }
    else h

-- `create_async_engine(...)`, which raises where `makes` is false
abbrev pub make_engine : Bool → Held → Attempt ℕ × Held
make_engine true h = (
  returned h.made,
  record h { engine = some h.made; engines = h.made ∷ h.engines; made = suc h.made },
)
make_engine false h = (raised foreign, h)

abbrev pub held_or_made : DatabaseConfig → Bool → Option ℕ → Held → Attempt ℕ × Held
held_or_made c makes none h = make_engine makes (connect c h)
held_or_made c makes (some e) h = (returned e, h)

unfoldable pub engine : DatabaseConfig → Bool → Held → Attempt ℕ × Held
unfolding enabled
engine c makes h = if enabled c then held_or_made c makes h.engine h else (raised value_error, h)

-- `await self._engine.dispose()`
abbrev pub dispose : Bool → Option ℕ → Held → Attempt (Unit {0}) × Held
dispose disposes none h = (returned tt, h)
dispose false (some e) h = (raised foreign, h)
dispose true (some e) h = (returned tt, record h { engine = none; engines = without e h.engines })

-- `await self._connector.close()`
abbrev pub close : Bool → Option ℕ → Held → Attempt (Unit {0}) × Held
close closes none h = (returned tt, h)
close false (some k) h = (raised foreign, h)
close true (some k) h =
    (returned tt, record h { connector = none; connectors = without k h.connectors })

unfoldable pub aclose : Bool → Bool → Held → Attempt (Unit {0}) × Held
aclose disposes closes h =
    let (disposed, after) = dispose disposes h.engine h in
    elim disposed [ raised e ↦ (raised e, after) | returned _ ↦ close closes after.connector after ]

pub data Call : Type 0 where
  asks : Bool → Call
  closes : Bool → Bool → Call

unfoldable pub step : DatabaseConfig → Call → Held → Held
unfolding engine aclose
step c (asks makes) h = (engine c makes h).1
step c (closes disposes closed) h = (aclose disposes closed h).1

unfoldable pub run : DatabaseConfig → List Call → Held → Held
unfolding step
run c [] h = h
run c (call ∷ calls) h = run c calls (step c call h)
