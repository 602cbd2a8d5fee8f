-- ===== src/Expression/Huge.antt =====
-- The switches on the operator for 128-bit integers, which `simplify_expr` and `eval_expr_huge`
-- share.
use Prim.Native.Nat.{Ordering}
use vasm_ext.Common.Run.{Run, ok, ◌>>=◌}
use vasm_ext.Common.{
  ℕ, ◌%◌, ◌^◌, Bool, true, false, not, ◌&&◌, ◌||◌, List, [], ◌∷◌, ltb, if◌then◌else◌,
}
use vasm_ext.HugeInt.Divide.{hdiv, hmod}
use vasm_ext.HugeInt.{
  Thuge, huge_zero, huge_to_int, hneg, hcpl, hand, hor, hxor, hadd, hsub, hcmp, hshl, hshr, hshra,
  hmul,
}
use vasm_ext.Expression.{
  Build, UnaryOp, op_neg, op_cpl, op_not, BinaryOp, op_add, op_sub, op_mul, op_div, op_mod, op_land,
  op_lor, op_band, op_bor, op_xor, op_lsh, op_rsh, op_rshu, op_lt, op_gt, op_leq, op_geq, op_neq,
  op_eq,
}

-- A truth value becomes a number by `BOOLEAN`, in the type that the caller needs.
pub data Computed : Type 0 where
  truth : Bool → Computed
  result : Thuge → Computed

abbrev pub is_equal : Ordering → Bool
is_equal Ordering.lt = false
is_equal Ordering.eq = true
is_equal Ordering.gt = false

abbrev pub is_less : Ordering → Bool
is_less Ordering.lt = true
is_less Ordering.eq = false
is_less Ordering.gt = false

abbrev pub is_zero : Thuge → Bool
is_zero h = is_equal (hcmp h huge_zero)

-- The count is an `int`; the shifts are defined for 0 to 127.
abbrev pub huge_shift : Build → BinaryOp → (Thuge → ℕ → Thuge) → Thuge → Thuge → Thuge
huge_shift c op shift a b =
    let sh = huge_to_int b % 2 ^ 32 in
    if ltb sh 128 then shift a sh else c.undefined_huge_shift op a sh

unfoldable pub huge_unary : UnaryOp → Thuge → Computed
huge_unary op_neg a = result (hneg a)
huge_unary op_cpl a = result (hcpl a)
huge_unary op_not a = truth (is_zero a)

abbrev pub quiet : Computed → Run (Computed × List ℕ)
quiet v = ok (v, [])

-- DIV and MOD, with the message 41 for a division by zero.
abbrev pub huge_checked : (Thuge → Thuge → Run Thuge) → Thuge → Thuge → Run (Computed × List ℕ)
huge_checked divide a b =
    if is_zero b then ok (result huge_zero, 41 ∷ []) else (divide a b >>= λ v. quiet (result v))

unfoldable pub huge_binary : Build → BinaryOp → Thuge → Thuge → Run (Computed × List ℕ)
huge_binary c op_add a b = quiet (result (hadd a b))
huge_binary c op_sub a b = quiet (result (hsub a b))
huge_binary c op_mul a b = quiet (result (hmul a b))
huge_binary c op_div a b = huge_checked hdiv a b
huge_binary c op_mod a b = huge_checked hmod a b
huge_binary c op_land a b = quiet (truth (not (is_zero a) && not (is_zero b)))
huge_binary c op_lor a b = quiet (truth (not (is_zero a) || not (is_zero b)))
huge_binary c op_band a b = quiet (result (hand a b))
huge_binary c op_bor a b = quiet (result (hor a b))
huge_binary c op_xor a b = quiet (result (hxor a b))
huge_binary c op_lsh a b = quiet (result (huge_shift c op_lsh hshl a b))
huge_binary c op_rsh a b = quiet (result (huge_shift c op_rsh hshra a b))
huge_binary c op_rshu a b = quiet (result (huge_shift c op_rshu hshr a b))
huge_binary c op_lt a b = quiet (truth (is_less (hcmp a b)))
huge_binary c op_gt a b = quiet (truth (not (is_less (hcmp a b)) && not (is_equal (hcmp a b))))
huge_binary c op_leq a b = quiet (truth (is_less (hcmp a b) || is_equal (hcmp a b)))
huge_binary c op_geq a b = quiet (truth (not (is_less (hcmp a b))))
huge_binary c op_neq a b = quiet (truth (not (is_equal (hcmp a b))))
huge_binary c op_eq a b = quiet (truth (is_equal (hcmp a b)))
