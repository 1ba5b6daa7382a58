-- ===== src/Agents/Arithmetic.antt =====
-- app/agents/math/tools.py: `_eval_node` and `calculate`. Floating-point numbers `F`, with Python's
-- operators on them, and `ast.parse` are parameters.
use adk_a2a_gke.Prelude.{String, Bool, true, false, ◌&&◌, Option, none, some, ◌≡◌, refl, arith}
use adk_a2a_gke.Json.{str, Fields, end, field}

-- A number, an exception that `calculate` names (`ValueError`, `SyntaxError`,
-- `ZeroDivisionError`, `TypeError`) with its text, or any other exception, such as `OverflowError`.
pub data Result {ℓ} (A : Type ℓ) : Type ℓ where
  value : A → Result A
  caught : String → Result A
  escaped : Result A

pub data BinaryOp : Type 0 where
  add sub mult div floor_div mod_ pow other_binary : BinaryOp

pub data UnaryOp : Type 0 where
  positive negative other_unary : UnaryOp

-- Python's syntax trees, as far as the evaluator tells them apart. A constant is an integer or a
-- float, whose conversion by `float` may fail.
pub data Node (F : Type 0) : Type 0 where
  constant : Result F → Node F
  binary : BinaryOp → Node F → Node F → Node F
  unary : UnaryOp → Node F → Node F
  other : Node F

pub record Floats (F : Type 0) : Type 0 where
  pub add : F → F → Result F
  pub sub : F → F → Result F
  pub mul : F → F → Result F
  pub truediv : F → F → Result F
  pub floordiv : F → F → Result F
  pub modulo : F → F → Result F
  pub power : F → F → Result F
  pub neg : F → F
  pub text : F → String
  pub parse : String → Result (Node F)

abbrev pub then_ {ℓ κ} : {A : Type ℓ} {B : Type κ} → Result A → (A → Result B) → Result B
then_ (value a) f = f a
then_ (caught e) f = caught e
then_ escaped f = escaped

module _ {F : Type 0} (fl : Floats F) where
  unsupported : Result F
  unsupported = caught "Unsupported expression"

  -- `_BINARY_OPS`
  unfoldable pub binary_op : BinaryOp → Option (F → F → Result F)
  binary_op add = some fl.add
  binary_op sub = some fl.sub
  binary_op mult = some fl.mul
  binary_op div = some fl.truediv
  binary_op floor_div = some fl.floordiv
  binary_op mod_ = some fl.modulo
  binary_op pow = some fl.power
  binary_op other_binary = none

  -- `_UNARY_OPS`
  unfoldable pub unary_op : UnaryOp → Option (F → F)
  unary_op positive = some (λ x. x)
  unary_op negative = some fl.neg
  unary_op other_unary = none

  unfoldable pub eval_node : Node F → Result F
  unfolding unsupported binary_op unary_op
  eval_node (constant x) = x
  eval_node (binary op left right) =
      let x = eval_node left in
      let y = eval_node right in
      elim (binary_op op) [ none ↦ unsupported | some f ↦ then_ x (λ a. then_ y (λ b. f a b)) ]
  eval_node (unary op operand) =
      let x = eval_node operand in
      elim (unary_op op) [ none ↦ unsupported | some f ↦ then_ x (λ a. value (f a)) ]
  eval_node other = unsupported

  unfoldable pub report : {N : Type 0} → String → Result F → Option (Fields N)
  report expression (value x) = some (
      field "status" (str "ok")
        (field "expression" (str expression) (field "result" (str (fl.text x)) end)))
  report expression (caught e) = some (
      field "status" (str "error")
        (field "expression" (str expression) (field "error" (str e) end)))
  report expression escaped = none

  -- `none` is an exception that leaves `calculate`.
  unfoldable pub calculate : {N : Type 0} → String → Option (Fields N)
  unfolding eval_node report
  calculate expression = report expression (then_ (fl.parse expression) eval_node)

  -- A tree of constants under the operators of the two tables.
  abbrev pub supported_binary : BinaryOp → Bool
  supported_binary other_binary = false
  supported_binary _ = true

  abbrev pub supported_unary : UnaryOp → Bool
  supported_unary other_unary = false
  supported_unary _ = true

  abbrev pub supported : Node F → Bool
  supported (constant _) = true
  supported (binary op l r) = supported_binary op && supported l && supported r
  supported (unary op x) = supported_unary op && supported x
  supported other = false

  then_-value {ℓ κ} :
      {A : Type ℓ} {B : Type κ} (r : Result A) (f : A → Result B) (b : B)
      → then_ r f ≡ value b
      → (a : A) × (r ≡ value a) × (f a ≡ value b)
  then_-value (value a) f b e = (a, refl, e)
  then_-value (caught x) f b e = absurd (cc e)
  then_-value escaped f b e = absurd (cc e)

  both :
      (x y : Result F) (f : F → F → Result F) (z : F)
      → then_ x (λ a. then_ y (λ b. f a b)) ≡ value z
      → ((a : F) × (x ≡ value a)) × ((b : F) × (y ≡ value b))
  both x y f z e =
      let (a, p, e₁) = then_-value x (λ a. then_ y (λ b. f a b)) z e in
      let (b, q, _) = then_-value y (λ b. f a b) z e₁ in ((a, p), (b, q))

  binary_op-supported :
      (op : BinaryOp) (x y : Result F) (z : F)
      → elim (binary_op op) [ none ↦ unsupported | some f ↦ then_ x (λ a. then_ y (λ b. f a b)) ]
        ≡ value z
      → (supported_binary op ≡ true) × ((a : F) × (x ≡ value a)) × ((b : F) × (y ≡ value b))
  unfolding binary_op unsupported
  binary_op-supported add x y z e = let (p, q) = both x y fl.add z e in (refl, p, q)
  binary_op-supported sub x y z e = let (p, q) = both x y fl.sub z e in (refl, p, q)
  binary_op-supported mult x y z e = let (p, q) = both x y fl.mul z e in (refl, p, q)
  binary_op-supported div x y z e = let (p, q) = both x y fl.truediv z e in (refl, p, q)
  binary_op-supported floor_div x y z e = let (p, q) = both x y fl.floordiv z e in (refl, p, q)
  binary_op-supported mod_ x y z e = let (p, q) = both x y fl.modulo z e in (refl, p, q)
  binary_op-supported pow x y z e = let (p, q) = both x y fl.power z e in (refl, p, q)
  binary_op-supported other_binary x y z e = absurd (cc e)

  -- Only a tree of supported operators on numbers has a value: any other expression, such as a call
  -- or a name, is refused, wherever it stands in the tree.
  pub eval_node-supported : (n : Node F) (z : F) → eval_node n ≡ value z → supported n ≡ true
  unfolding eval_node unsupported unary_op
  eval_node-supported (constant x) z e = refl
  eval_node-supported (binary op l r) z e =
      let (o, (a, f), (b, g)) = binary_op-supported op (eval_node l) (eval_node r) z e in
      ground (arith, o, eval_node-supported l a f, eval_node-supported r b g)
  eval_node-supported (unary positive x) z e =
      let (a, f, _) = then_-value (eval_node x) (λ a. value a) z e in eval_node-supported x a f
  eval_node-supported (unary negative x) z e =
      let (a, f, _) = then_-value (eval_node x) (λ a. value (fl.neg a)) z e in
      eval_node-supported x a f
  eval_node-supported (unary other_unary x) z e = absurd (cc e)
  eval_node-supported other z e = absurd (cc e)
