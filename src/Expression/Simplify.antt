-- ===== src/Expression/Simplify.antt =====
-- `simplify_expr`: constants are folded, and the symbols that stand for one are replaced.
use vasm_ext.Common.Run.{Run, ok, ◌>>=◌}
use vasm_ext.Common.{ℕ, List, [], ◌++◌, Option, some, if◌then◌else◌}
use vasm_ext.Expression.Huge.{Computed, truth, result, huge_unary, huge_binary}
use vasm_ext.Expression.{
  Build, UnaryOp, BinaryOp, op_sub, Expr, num, hug, symbol, unary, binary, boolean, num_unary,
  num_binary, from_taddr, to_taddr, in_range,
}

-- The node that is left, and the messages.
abbrev pub Simplified : Type 0
Simplified = Run (Expr × List ℕ)

-- "const-symbol-symbol" becomes a difference of the const and of "symbol-symbol".
unfoldable pub rearrange_left : Expr → Expr → ℕ → Expr
rearrange_left (symbol n) y b = binary op_sub (binary op_sub (symbol n) y) (symbol b)
rearrange_left x (symbol a) b = binary op_sub x (binary op_sub (symbol a) (symbol b))
rearrange_left x y b = binary op_sub (binary op_sub x y) (symbol b)

unfoldable pub rearrange : BinaryOp → Expr → Expr → Expr
rearrange op_sub (binary op_sub x y) (symbol b) = rearrange_left x y b
rearrange op l r = binary op l r

-- The end of the function: a 128-bit result that fits a `taddr` is one.
unfoldable pub settled : Build → Computed → Expr
settled c (truth b) = num (boolean c c.bitspertaddr b)
settled c (result h) = if in_range c h c.bitspertaddr then num (to_taddr c h) else hug h

abbrev pub settle : Build → Computed × List ℕ → Simplified
settle c (v, errors) = ok (settled c v, errors)

-- The node itself, when its operands are simplified.
unfoldable pub fold_unary : Build → UnaryOp → Expr → Simplified
fold_unary c op (num a) = ok (num (num_unary c op a), [])
fold_unary c op (hug a) = ok (settled c (huge_unary op a), [])
fold_unary c op x = ok (unary op x, [])

unfoldable pub fold_binary : Build → BinaryOp → Expr → Expr → Simplified
fold_binary c op (num a) (num b) = let (v, errors) = num_binary c op a b in ok (num v, errors)
fold_binary c op (num a) (hug b) = huge_binary c op (from_taddr c a) b >>= settle c
fold_binary c op (hug a) (num b) = huge_binary c op a (from_taddr c b) >>= settle c
fold_binary c op (hug a) (hug b) = huge_binary c op a b >>= settle c
fold_binary c op l r = ok (binary op l r, [])

unfoldable pub fold_node : Build → Expr → Simplified
fold_node c (binary op l r) = fold_binary c op l r
fold_node c e = ok (e, [])

-- The expression of an equate, where that is a constant.
unfoldable pub fold_symbol : Build → ℕ → Option Expr → Expr
fold_symbol c n (some (num v)) = num v
fold_symbol c n (some (hug h)) = settled c (result h)
fold_symbol c n _ = symbol n

-- `defined n` is the expression of the symbol `n` where its type is EXPRESSION.
unfoldable pub simplify_expr : Build → (ℕ → Option Expr) → Expr → Simplified
simplify_expr c defined (num v) = ok (num v, [])
simplify_expr c defined (hug h) = ok (hug h, [])
simplify_expr c defined (symbol n) = ok (fold_symbol c n (defined n), [])
simplify_expr c defined (unary op x) =
    simplify_expr c defined x >>= λ l. fold_unary c op l.0 >>= λ e. ok (e.0, l.1 ++ e.1)
simplify_expr c defined (binary op x y) = simplify_expr c defined x >>= λ l.
    simplify_expr c defined y >>= λ r.
    fold_node c (rearrange op l.0 r.0) >>= λ e. ok (e.0, l.1 ++ r.1 ++ e.1)
