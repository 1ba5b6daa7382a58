-- ===== src/Json.antt =====
-- JSON values as Python's `json` yields them, and Python's tests on them. `N` is the type of the
-- numbers, integers and floats together: floats are not modelled, so the type and its comparison
-- are parameters.
use adk_a2a_gke.Prelude.{String, Bool, true, false, Option, none, some, ◌==◌, not, if◌then◌else◌}

mutual
  pub data Json (N : Type 0) : Type 0 where
    null : Json N
    bool : Bool → Json N
    num : N → Json N
    str : String → Json N
    arr : Items N → Json N
    obj : Fields N → Json N

  pub data Items (N : Type 0) : Type 0 where
    nil : Items N
    cons : Json N → Items N → Items N

  -- a `dict`, in insertion order
  pub data Fields (N : Type 0) : Type 0 where
    end : Fields N
    field : String → Json N → Fields N → Fields N

-- Python's `==` on numbers, and the number that a Boolean compares as.
pub record Number (N : Type 0) : Type 0 where
  pub same : N → N → Bool
  pub of_bool : Bool → N
  pub truthy : N → Bool

module _ {N : Type 0} where
  -- `obj.get(key)`
  unfoldable pub get_field : String → Fields N → Option (Json N)
  get_field k end = none
  get_field k (field j v fs) = if j == k then some v else get_field k fs

  -- `isinstance(value, str | int | float | bool)`
  abbrev pub is_scalar : Json N → Bool
  is_scalar (bool _) = true
  is_scalar (num _) = true
  is_scalar (str _) = true
  is_scalar _ = false

  -- the truth of a value, as in `x or y`
  unfoldable pub truthy : Number N → Json N → Bool
  truthy n null = false
  truthy n (bool b) = b
  truthy n (num x) = n.truthy x
  truthy n (str s) = not (s == "")
  truthy n (arr nil) = false
  truthy n (arr (cons _ _)) = true
  truthy n (obj end) = false
  truthy n (obj (field _ _ _)) = true

  -- Python's `value == scalar`, where `None` and containers equal no scalar
  unfoldable pub equals : Number N → Option (Json N) → Json N → Bool
  equals n (some (str s)) (str t) = s == t
  equals n (some (num x)) (num y) = n.same x y
  equals n (some (bool a)) (num y) = n.same (n.of_bool a) y
  equals n (some (num x)) (bool b) = n.same x (n.of_bool b)
  equals n (some (bool a)) (bool b) = n.same (n.of_bool a) (n.of_bool b)
  equals n _ _ = false

  -- `{key: value for key, value in fs.items() if isinstance(value, str | int | float | bool)}`
  unfoldable pub scalars : Fields N → Fields N
  scalars end = end
  scalars (field k v fs) = let rest = scalars fs in if is_scalar v then field k v rest else rest

-- Python's `json` module, which is not modelled: `json.dumps`, with `sort_keys=True` and without,
-- the text of a value under `str`, and `JSONDecoder.raw_decode` on the text from an index on, which
-- yields the value and the text that is left behind it.
pub record Codec (N : Type 0) : Type 0 where
  pub dumps : Fields N → String
  pub dumps_sorted : Fields N → String
  pub to_text : Json N → String
  pub raw_decode : String → Option (Json N × String)
