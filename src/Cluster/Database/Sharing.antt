-- ===== src/Cluster/Database/Sharing.antt =====
-- app/cluster/db.py, `Database.engine`: threads that ask for the engine at the same time. A schedule
-- is the list of the threads that take a step, in that order; a step reads or writes the shared
-- fields once. An engine is known by how many were built before it.
pub mod Once
pub mod Progress
use adk_a2a_gke.Prelude.{
  ℕ, suc, Option, none, some, List, [], ◌∷◌, not, if◌then◌else◌, eqb, is_none,
}
use adk_a2a_gke.Cluster.Database.{DatabaseConfig, enabled}

-- Where a thread stands in `engine`: before it, behind the first test with no engine seen, within
-- the lock, back with an engine, or out with the `ValueError`.
pub data Place : Type 0 where
  outside waiting holding failed : Place
  returned : ℕ → Place

pub record Holder : Type 0 where
  pub engine : Option ℕ
  pub lock : Option ℕ
  pub built : ℕ
  pub places : ℕ → Place

unfoldable pub fresh : Holder
fresh = record { engine = none; lock = none; built = 0; places = λ i. outside }

-- The thread `i` moves to `place`.
abbrev pub move : ℕ → Place → Holder → Holder
move i place h = record h { places = λ j. if eqb i j then place else h.places j }

-- The tests before the lock is taken.
looked : ℕ → Option ℕ → Holder → Holder
looked i (some e) h = move i (returned e) h
looked i none h = move i waiting h

unfoldable pub enter : DatabaseConfig → ℕ → Holder → Holder
unfolding enabled looked
enter c i h = if not (enabled c) then move i failed h else looked i h.engine h

-- `with self._lock`: a thread waits while another one holds it.
unfoldable pub acquire : ℕ → Holder → Holder
acquire i h = if is_none h.lock then move i holding (record h { lock = some i }) else h

-- Within the lock: the engine is built where there is none, and the lock is released on return.
locked : ℕ → Option ℕ → Holder → Holder
locked i none h = record h { engine = some h.built; built = suc h.built }
locked i (some e) h = move i (returned e) (record h { lock = none })

unfoldable pub build_or_return : ℕ → Holder → Holder
unfolding locked
build_or_return i h = locked i h.engine h

unfoldable pub step_at : DatabaseConfig → ℕ → Place → Holder → Holder
unfolding enter acquire build_or_return
step_at c i outside h = enter c i h
step_at c i waiting h = acquire i h
step_at c i holding h = build_or_return i h
step_at c i failed h = h
step_at c i (returned e) h = h

unfoldable pub run : DatabaseConfig → List ℕ → Holder → Holder
unfolding step_at
run c [] h = h
run c (i ∷ schedule) h = run c schedule (step_at c i (h.places i) h)
