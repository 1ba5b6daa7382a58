-- ===== src/Cluster/Config/Paths.antt =====
-- `_normalize_rpc_path`.
use mathlib.Core.Option
use adk_a2a_gke.Prelude.{String, Option, [], ◌∷◌, ◌≡◌, refl, false, ◌==◌, Bool-cases, inl, inr}
use adk_a2a_gke.Text.{strip, concat, is_slash, lstrip_by, rstrip_by}
use adk_a2a_gke.Text.Strip.{starts_by, ends_by, lstrip_by-starts, rstrip_by-ends, rstrip_by-starts}
use adk_a2a_gke.Cluster.Config.{normalize_rpc_path}

-- A path with a slash in front of a rest that neither starts nor ends with one.
pub record IsRpcPath (path : String) : Type 0 where
  pub rest : String
  pub split : path ≡ concat ("/" ∷ rest ∷ [])
  pub single : starts_by is_slash rest ≡ false
  pub bare : ends_by is_slash rest ≡ false

-- Whatever `A2A_RPC_PATH` is, the path has exactly one slash in front, and what follows it neither
-- starts nor ends with a slash.
pub normalize_rpc_path_lem : (raw : Option String) → IsRpcPath (normalize_rpc_path raw)
unfolding normalize_rpc_path
normalize_rpc_path_lem raw =
    let s = strip (Option.get_or raw "") in
    elim (Bool-cases (s == "")) [
      | inl e ↦ rw e (record { rest = "a2a/app"; split = refl; single = refl; bare = refl })
      | inr e ↦ rw e (record {
        rest = rstrip_by is_slash (lstrip_by is_slash s);
        split = refl;
        single = rstrip_by-starts is_slash (lstrip_by is_slash s) (lstrip_by-starts is_slash s);
        bare = rstrip_by-ends is_slash (lstrip_by is_slash s);
      })
    ]
