-- ===== src/Expression/Query.antt =====
-- `type_of_expr` and `find_sym_expr`.
use vasm_ext.Common.Chars.{strcmp_eq}
use vasm_ext.Common.{
  ℕ, zero, suc, Bool, true, false, Option, none, some, List, [], ◌∷◌, ltb, if◌then◌else◌,
}
use vasm_ext.Expression.State.{
  SymbolType, labsym, import, expression, Symbol, Eval, ◌>>=◌, pure, get, stop, out_of_fuel,
}
use vasm_ext.Expression.Eval.{eval_equate}
use vasm_ext.Expression.{Expr, num, hug, symbol, unary, binary}

-- NUM and HUG, in their order.
abbrev pub num_type : ℕ
num_type = 1

abbrev pub hug_type : ℕ
hug_type = 2

unfoldable pub type_of_symbol : (Expr → Eval ℕ) → ℕ → Symbol → SymbolType → Eval ℕ
type_of_symbol call n s (expression e) =
    if s.ineval then (λ st. stop 18) else eval_equate call n s e
type_of_symbol call n s labsym = pure num_type
type_of_symbol call n s import = pure num_type

-- The function on a tree; `call` is the recursive call on the tree of an equate.
unfoldable pub type_of_tree : (Expr → Eval ℕ) → Expr → Eval ℕ
type_of_tree call (num v) = pure num_type
type_of_tree call (hug h) = pure hug_type
type_of_tree call (symbol n) = get n >>= λ s. type_of_symbol call n s s.type
type_of_tree call (unary op x) = type_of_tree call x
type_of_tree call (binary op x y) = do
  l ← type_of_tree call x
  r ← type_of_tree call y
  pure (if ltb l r then r else l)

-- For `fuel` nested equates.
unfoldable pub type_of_expr : ℕ → Expr → Eval ℕ
type_of_expr zero e = λ st. out_of_fuel
type_of_expr (suc fuel) e = type_of_tree (type_of_expr fuel) e

-- Whether a node is the symbol of the name.
abbrev pub is_named : (ℕ → List ℕ) → List ℕ → Expr → Bool
is_named names name (num v) = false
is_named names name (hug h) = false
is_named names name (symbol n) = strcmp_eq (names n) name
is_named names name (unary op x) = false
is_named names name (binary op x y) = false

-- The way to a node: `false` to the left, `true` to the right.
abbrev pub step : Bool → Option (List Bool) → Option (List Bool)
step side none = none
step side (some way) = some (side ∷ way)

abbrev pub or_else : Option (List Bool) → Option (List Bool) → Option (List Bool)
or_else none b = b
or_else (some way) b = some way

-- A child, or what is found in it.
abbrev pub in_child : (ℕ → List ℕ) → List ℕ → Bool → Expr → Option (List Bool) → Option (List Bool)
in_child names name side x deeper =
    if is_named names name x then some (side ∷ []) else step side deeper

-- The root itself is not looked at.
unfoldable pub find_sym_expr : (ℕ → List ℕ) → List ℕ → Expr → Option (List Bool)
find_sym_expr names name (num v) = none
find_sym_expr names name (hug h) = none
find_sym_expr names name (symbol n) = none
find_sym_expr names name (unary op x) = in_child names name false x (find_sym_expr names name x)
find_sym_expr names name (binary op x y) =
    or_else (in_child names name false x (find_sym_expr names name x))
      (in_child names name true y (find_sym_expr names name y))
