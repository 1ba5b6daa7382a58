-- ===== src/Cluster/Database/Closing/Released.antt =====
-- What `aclose` leaves open.
use mathlib.Core.Path.{subst}
use adk_a2a_gke.Prelude.{
  ℕ, Bool, true, Option, none, some, List, [], ◌∷◌, returned, ◌≡◌, refl, sym, All, arith,
}
use adk_a2a_gke.Cluster.Database.{DatabaseConfig}
use adk_a2a_gke.Cluster.Database.Closing.{
  Held, constructed, without, engine, aclose, Call, asks, closes, run,
}

abbrev pub held : Option ℕ → List ℕ
held none = []
held (some e) = e ∷ []

-- The only engine that is open is the one that the object holds.
abbrev pub HoldsEngine : Held → Type 0
HoldsEngine h = h.engines ≡ held h.engine

-- And so for its connector, which it holds with an engine only.
abbrev pub HoldsConnector : Held → Type 0
HoldsConnector h = (h.connectors ≡ held h.connector) × (h.engine ≡ none → h.connector ≡ none)

-- a call in which no engine fails to be made and no connector fails to be closed
abbrev pub Smooth : Call → Type 0
Smooth (asks makes) = makes ≡ true
Smooth (closes _ closed) = closed ≡ true

without-held : (n : ℕ) → without n (n ∷ []) ≡ []
without-held n = ground arith

asks-HoldsEngine :
    (c : DatabaseConfig) (makes : Bool) (h : Held)
    → HoldsEngine h
    → HoldsEngine (engine c makes h).1
unfolding engine
asks-HoldsEngine c makes h t = ground (arith, t)

closes-HoldsEngine :
    (disposes closed : Bool) (h : Held) → HoldsEngine h → HoldsEngine (aclose disposes closed h).1
unfolding aclose
closes-HoldsEngine disposes closed h t = ground (arith, t)

asks-HoldsConnector :
    (c : DatabaseConfig) (h : Held) → HoldsConnector h → HoldsConnector (engine c true h).1
unfolding engine
asks-HoldsConnector c h t = ground (arith, t)

closes-HoldsConnector :
    (disposes : Bool) (h : Held) → HoldsConnector h → HoldsConnector (aclose disposes true h).1
unfolding aclose
closes-HoldsConnector disposes h t = ground (arith, t)

run-HoldsEngine :
    (c : DatabaseConfig) (calls : List Call) (h : Held)
    → HoldsEngine h
    → HoldsEngine (run c calls h)
unfolding run
run-HoldsEngine c [] h t = t
run-HoldsEngine c (asks makes ∷ calls) h t =
    run-HoldsEngine c calls (engine c makes h).1 (asks-HoldsEngine c makes h t)
run-HoldsEngine c (closes disposes closed ∷ calls) h t =
    run-HoldsEngine c calls (aclose disposes closed h).1 (closes-HoldsEngine disposes closed h t)

run-HoldsConnector :
    (c : DatabaseConfig) (calls : List Call) (h : Held)
    → All Smooth calls
    → HoldsConnector h
    → HoldsConnector (run c calls h)
unfolding run
run-HoldsConnector c [] h s t = t
run-HoldsConnector c (asks makes ∷ calls) h (m, s) t =
    run-HoldsConnector c calls (engine c makes h).1 s
      (subst (λ b. HoldsConnector (engine c b h).1) (sym m) (asks-HoldsConnector c h t))
run-HoldsConnector c (closes disposes closed ∷ calls) h (m, s) t =
    run-HoldsConnector c calls (aclose disposes closed h).1 s (
      subst (λ b. HoldsConnector (aclose disposes b h).1) (sym m)
        (closes-HoldsConnector disposes h t))

-- Whatever calls of `engine` and `aclose` came before, failed ones too, at most one engine is open,
-- the one that the object holds; and an `aclose` that raises nothing leaves no engine open.
pub aclose_leaves_no_engine :
    (c : DatabaseConfig) (calls : List Call)
    → let h = run c calls constructed in
      (h.engines ≡ held h.engine) × ((aclose true true h).1.engines ≡ [])
unfolding aclose
aclose_leaves_no_engine c calls =
    let t = run-HoldsEngine c calls constructed refl in (t, ground (arith, t))

-- Where no call before failed to make an engine or to close a connector, whichever order they came
-- in: exactly the engine and the connector that the object holds are open; an `aclose` that raises
-- nothing leaves neither open; and a second `aclose` succeeds and changes nothing, whatever it
-- meets.
pub aclose_releases :
    (c : DatabaseConfig) (calls : List Call)
    → All Smooth calls
    → let h = run c calls constructed in
      let after = (aclose true true h).1 in
      (h.engines ≡ held h.engine)
      × (h.connectors ≡ held h.connector)
      × (after.engines ≡ [])
      × (after.connectors ≡ [])
      × ((disposes closed : Bool) → aclose disposes closed after ≡ (returned tt, after))
unfolding aclose
aclose_releases c calls s =
    let h = run c calls constructed in
    let (t, emptied) = aclose_leaves_no_engine c calls in
    let u = run-HoldsConnector c calls constructed s (refl, λ _. refl) in
    (t, u.0, emptied, ground (arith, u), λ disposes closed. ground (arith, t, u))
