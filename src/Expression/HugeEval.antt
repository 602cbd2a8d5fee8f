-- ===== src/Expression/HugeEval.antt =====
-- `eval_expr_huge`: the value of an expression as a 128-bit integer, or none.
use vasm_ext.Common.Run.{Run, ok, fatal}
use vasm_ext.Common.{ℕ, zero, suc, List, Option, none, some, if◌then◌else◌}
use vasm_ext.HugeInt.{Thuge, huge_from_int}
use vasm_ext.Expression.State.{
  SymbolType, labsym, import, expression, Symbol, Context, stop, out_of_fuel, Eval, ◌>>=◌, ◌>>◌,
  pure, get,
}
use vasm_ext.Expression.Eval.{in_final_pass, eval_equate}
use vasm_ext.Expression.Huge.{Computed, truth, result, huge_unary, huge_binary}
use vasm_ext.Expression.{Expr, num, hug, symbol, unary, binary, boolean, from_taddr}

-- A truth value is an `int` that becomes a 128-bit integer.
unfoldable pub as_huge : Context → Computed → Thuge
as_huge c (truth b) = huge_from_int (boolean c.build 64 b)
as_huge c (result h) = h

-- The outcome of the switch on the operator.
unfoldable pub computed : Context → Run (Computed × List ℕ) → Eval (Option Thuge)
computed c (fatal n) = λ st. stop n
computed c (ok (v, l)) = in_final_pass c l >> pure (some (as_huge c v))

-- The function returns 0 at once when an operand has no value.
abbrev pub or_none : (Thuge → Eval (Option Thuge)) → Option Thuge → Eval (Option Thuge)
or_none f none = pure none
or_none f (some h) = f h

abbrev pub and_then : Eval (Option Thuge) → (Thuge → Eval (Option Thuge)) → Eval (Option Thuge)
and_then m f = m >>= or_none f

unfoldable pub huge_symbol :
    Context → (Expr → Eval (Option Thuge)) → ℕ → Symbol → SymbolType → Eval (Option Thuge)
huge_symbol c call n s (expression e) = if s.ineval then (λ st. stop 18) else eval_equate call n s e
huge_symbol c call n s labsym =
    if s.abslabel then pure (some (from_taddr c.build s.pc)) else pure none
huge_symbol c call n s import = pure none

-- The function on a tree; `call` is the recursive call on the tree of an equate.
unfoldable pub huge_tree : Context → (Expr → Eval (Option Thuge)) → Expr → Eval (Option Thuge)
huge_tree c call (num v) = pure (some (from_taddr c.build v))
huge_tree c call (hug h) = pure (some h)
huge_tree c call (symbol n) = get n >>= λ s. huge_symbol c call n s s.type
huge_tree c call (unary op x) =
    and_then (huge_tree c call x) (λ a. pure (some (as_huge c (huge_unary op a))))
huge_tree c call (binary op x y) =
    and_then (huge_tree c call x)
      (λ a. and_then (huge_tree c call y) (λ b. computed c (huge_binary c.build op a b)))

-- For `fuel` nested equates.
unfoldable pub eval_expr_huge : Context → ℕ → Expr → Eval (Option Thuge)
eval_expr_huge c zero e = λ st. out_of_fuel
eval_expr_huge c (suc fuel) e = huge_tree c (eval_expr_huge c fuel) e
