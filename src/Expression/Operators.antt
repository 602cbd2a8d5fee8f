-- ===== src/Expression/Operators.antt =====
-- The operators in the switch of `eval_expr`. That of `simplify_expr` is in Expression.
use vasm_ext.Common.{
  ℕ, ◌+◌, ◌-◌, ◌*◌, ◌%◌, ◌^◌, bit_and, bit_or, bit_xor, not, ◌&&◌, ◌||◌, List, [], ◌∷◌, ◌==◌,
  if◌then◌else◌,
}
use vasm_ext.Expression.{
  Build, boolean, taddrmin, negated, less, signed_div, signed_mod, lshift, rshift, urshift, to_int,
  UnaryOp, op_neg, op_cpl, op_not, BinaryOp, op_add, op_sub, op_mul, op_div, op_mod, op_land,
  op_lor, op_band, op_bor, op_xor, op_lsh, op_rsh, op_rshu, op_lt, op_gt, op_leq, op_geq, op_neq,
  op_eq,
}

unfoldable pub eval_unary : Build → UnaryOp → ℕ → ℕ
eval_unary c op_neg lval = negated c.bitspertaddr lval
eval_unary c op_cpl lval = 2 ^ c.bitspertaddr - 1 - lval
eval_unary c op_not lval = boolean c c.bitspertaddr (lval == 0)

-- The value, and the messages, which `eval_expr` gives in the final pass.
unfoldable pub eval_binary : Build → BinaryOp → ℕ → ℕ → ℕ × List ℕ
eval_binary c op_add lval rval = ((lval + rval) % 2 ^ c.bitspertaddr, [])
eval_binary c op_sub lval rval = ((lval + 2 ^ c.bitspertaddr - rval) % 2 ^ c.bitspertaddr, [])
eval_binary c op_mul lval rval = (lval * rval % 2 ^ c.bitspertaddr, [])
eval_binary c op_div lval rval =
    if rval == 0
    then (0, 41 ∷ [])
    else if (lval == taddrmin c.bitspertaddr) && (rval == 2 ^ c.bitspertaddr - 1)
    then (taddrmin c.bitspertaddr, 21 ∷ [])
    else (signed_div c.bitspertaddr lval rval, [])
eval_binary c op_mod lval rval =
    if rval == 0
    then (0, 41 ∷ [])
    else if (lval == taddrmin c.bitspertaddr) && (rval == 2 ^ c.bitspertaddr - 1)
    then (taddrmin c.bitspertaddr, 21 ∷ [])
    else (signed_mod c.bitspertaddr lval rval, [])
eval_binary c op_land lval rval =
    (boolean c c.bitspertaddr (not (lval == 0) && not (rval == 0)), [])
eval_binary c op_lor lval rval = (boolean c c.bitspertaddr (not (lval == 0) || not (rval == 0)), [])
eval_binary c op_band lval rval = (bit_and lval rval, [])
eval_binary c op_bor lval rval = (bit_or lval rval, [])
eval_binary c op_xor lval rval = (bit_xor lval rval, [])
eval_binary c op_lsh lval rval = (lshift c lval (to_int c.bitspertaddr rval), [])
eval_binary c op_rsh lval rval = (rshift c lval (to_int c.bitspertaddr rval), [])
eval_binary c op_rshu lval rval = (urshift c lval (to_int c.bitspertaddr rval), [])
eval_binary c op_lt lval rval = (boolean c c.bitspertaddr (less c.bitspertaddr lval rval), [])
eval_binary c op_gt lval rval = (boolean c c.bitspertaddr (less c.bitspertaddr rval lval), [])
eval_binary c op_leq lval rval =
    (boolean c c.bitspertaddr (not (less c.bitspertaddr rval lval)), [])
eval_binary c op_geq lval rval =
    (boolean c c.bitspertaddr (not (less c.bitspertaddr lval rval)), [])
eval_binary c op_neq lval rval = (boolean c c.bitspertaddr (not (lval == rval)), [])
eval_binary c op_eq lval rval = (boolean c c.bitspertaddr (lval == rval), [])
