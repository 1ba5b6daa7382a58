-- ===== src/Shared/Logging/Intercept.antt =====
-- app/shared/logging.py: `InterceptHandler`, which hands a record of `logging` to loguru, and the
-- sink that writes JSON. The stack is the list of the files of its frames, the innermost first.
use Prim.Native.String
use mathlib.Core.Option.{some-injective}
use Prim.Native.Nat.{◌+◌}
use adk_a2a_gke.Prelude.{
  ℕ, suc, String, ◌==◌, if◌then◌else◌, Option, none, some, List, [], ◌∷◌, All, ◌≡◌, ◌≢◌, refl, ap,
  ◌∙◌, ◌++◌, length, inl, inr, Bool-cases, arith, eq_iff,
}
use adk_a2a_gke.Json.{Fields}
use adk_a2a_gke.Cluster.Database.{Letters}
use adk_a2a_gke.Shared.Logging.{Platform}
use adk_a2a_gke.Shared.Logging.Payload.{Record, build_gcp_payload}

-- a level that loguru knows by its name, or a number
pub data Level : Type 0 where
  named : String → Level
  numbered : ℕ → Level

pub record LogRecord : Type 0 where
  pub levelname : String
  pub levelno : ℕ
  pub message : String
  pub exc_info : Option String

abbrev head : List String → Option String
head [] = none
head (x ∷ xs) = some x

-- What `logger.opt(...).log(...)` is called with.
pub record Forwarded : Type 0 where
  pub level : Level
  pub depth : ℕ
  pub message : String
  pub exc_info : Option String

-- the loop over the frames, where `file` is `logging.__file__`
unfoldable pub walk_out : String → List String → ℕ → ℕ
walk_out file [] depth = depth
walk_out file (frame ∷ frames) depth =
    let rest = walk_out file frames (suc depth) in if frame == file then rest else depth

unfoldable pub emit : Platform → String → List String → LogRecord → Forwarded
unfolding walk_out
emit platform file frames r = record {
  level = if platform.loguru_knows r.levelname then named r.levelname else numbered r.levelno;
  depth = walk_out file frames 2;
  message = r.message;
  exc_info = r.exc_info;
}

-- what the sink of `_make_json_sink` writes for a record
unfoldable pub json_line : {N : Type 0} → Letters → (Fields N → String) → Record N → String
unfolding build_gcp_payload
json_line letters encode r = String.◌++◌ (encode (build_gcp_payload letters r)) "\n"

-- The frames are the file's own, and then others, of which the first is not its own.
pub record IsCaller (file : String) (frames : List String) (depth : ℕ) : Type 0 where
  pub own : List String
  pub others : List String
  pub split : frames ≡ own ++ others
  pub are_own : All (λ frame. frame ≡ file) own
  pub caller : head others ≢ some file
  pub counted : depth ≡ length own

walk_out-IsCaller :
    (file : String) (frames : List String) (depth : ℕ)
    → (k : ℕ) × (walk_out file frames depth ≡ k + depth) × IsCaller file frames k
unfolding walk_out
walk_out-IsCaller file [] depth = (
  0,
  omega arith,
  record { own = []; others = []; split = refl; are_own = tt; caller = λ e. cc e; counted = refl },
)
walk_out-IsCaller file (frame ∷ frames) depth = elim (Bool-cases (frame == file)) [
  | inl e ↦
      let (k, same, h) = walk_out-IsCaller file frames (suc depth) in
      (
        suc k,
        rw e (same ∙ omega arith),
        record {
          own = frame ∷ h.own;
          others = h.others;
          split = ap (◌∷◌ frame) h.split;
          are_own = ((eq_iff frame file).0 e, h.are_own);
          caller = h.caller;
          counted = ap suc h.counted;
        },
      )
  | inr e ↦ (
    0,
    rw e (omega arith),
    record {
      own = [];
      others = frame ∷ frames;
      split = refl;
      are_own = tt;
      caller = λ same. cc (e, (eq_iff frame file).1 (some-injective frame file same));
      counted = refl;
    },
  )
]

-- The depth that `emit` gives to loguru skips all frames of the logging module, beside two, and no
-- frame of the code that logged.
pub emit-IsCaller :
    (platform : Platform) (file : String) (frames : List String) (r : LogRecord)
    → (k : ℕ) × ((emit platform file frames r).depth ≡ k + 2) × IsCaller file frames k
unfolding emit
emit-IsCaller platform file frames r = walk_out-IsCaller file frames 2
