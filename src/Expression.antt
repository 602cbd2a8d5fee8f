-- ===== src/Expression.antt =====
-- expr.c, expr.h: expression trees, and the arithmetic on numbers of the type `taddr`. A `taddr` is
-- its bit pattern. The parsers of operators and names and the switches for floats and for a
-- processor's own unary operators are left out.
pub mod Huge
pub mod Simplify
pub mod State
pub mod Operators
pub mod Eval
pub mod HugeEval
pub mod Constant
pub mod Terminates
pub mod Division
pub mod Rearrange
pub mod Labels
pub mod Query
pub mod Frame
pub mod Addresses
pub mod Literal
mod Tests
use vasm_ext.Common.{
  ℕ, zero, suc, ◌+◌, ◌-◌, ◌*◌, ◌/◌, ◌%◌, ◌^◌, bit_and, bit_or, bit_xor, Bool, true, false, not,
  ◌&&◌, ◌||◌, List, [], ◌∷◌, Option, none, some, ltb, leb, ◌==◌, if◌then◌else◌,
}
use vasm_ext.HugeInt.Divide.{differ}
use vasm_ext.HugeInt.{Thuge, huge_from_int, huge_to_int, huge_chkrange}

pub data UnaryOp : Type 0 where
  op_neg : UnaryOp
  op_cpl : UnaryOp
  op_not : UnaryOp

pub data BinaryOp : Type 0 where
  op_add : BinaryOp
  op_sub : BinaryOp
  op_mul : BinaryOp
  op_div : BinaryOp
  op_mod : BinaryOp
  op_land : BinaryOp
  op_lor : BinaryOp
  op_band : BinaryOp
  op_bor : BinaryOp
  op_xor : BinaryOp
  op_lsh : BinaryOp
  op_rsh : BinaryOp
  op_rshu : BinaryOp
  op_lt : BinaryOp
  op_gt : BinaryOp
  op_leq : BinaryOp
  op_geq : BinaryOp
  op_neq : BinaryOp
  op_eq : BinaryOp

-- A node of the type SYM holds the symbol's number in the table.
pub data Expr : Type 0 where
  num : ℕ → Expr
  hug : Thuge → Expr
  symbol : ℕ → Expr
  unary : UnaryOp → Expr → Expr
  binary : BinaryOp → Expr → Expr → Expr

-- What the build fixes: `bitspertaddr`, `bytespertaddr * BITSPERBYTE`, whether `BOOLEAN` of the
-- syntax module makes -1 of a true condition, and what the host does where C leaves it undefined:
-- a shift by a negative count, the shift of 128 bits by a count out of range, and the range check
-- at 64 bits.
pub record Build : Type 0 where
  pub bitspertaddr : ℕ
  pub target_bits : ℕ
  pub true_is_minus_one : Bool
  pub undefined_shift : BinaryOp → ℕ → ℕ → ℕ
  pub undefined_huge_shift : BinaryOp → Thuge → ℕ → Thuge
  pub undefined_chkrange : Thuge → Bool

-- `BOOLEAN`, in a type of `w` bits
unfoldable pub boolean : Build → ℕ → Bool → ℕ
boolean c w true = if c.true_is_minus_one then 2 ^ w - 1 else 1
boolean c w false = 0

-- `taddrmin`
abbrev pub taddrmin : ℕ → ℕ
taddrmin w = 2 ^ (w - 1)

-- A negative `taddr` of `w` bits, and its amount.
abbrev pub negative : ℕ → ℕ → Bool
negative w v = leb (2 ^ (w - 1)) v

abbrev pub negated : ℕ → ℕ → ℕ
negated w v = (2 ^ w - v) % 2 ^ w

abbrev pub amount : ℕ → ℕ → ℕ
amount w v = if negative w v then 2 ^ w - v else v

-- `a < b` of signed numbers: of the unsigned ones with their sign bits flipped.
abbrev pub flipped : ℕ → ℕ → ℕ
flipped w v = if negative w v then v - 2 ^ (w - 1) else v + 2 ^ (w - 1)

abbrev pub less : ℕ → ℕ → ℕ → Bool
less w a b = ltb (flipped w a) (flipped w b)

-- The number with a sign and an amount.
abbrev pub with_sign : ℕ → Bool → ℕ → ℕ
with_sign w true v = negated w v
with_sign w false v = v % 2 ^ w

-- `a / b` and `a % b` of signed numbers, which round to zero: the remainder has the dividend's sign.
unfoldable pub signed_div : ℕ → ℕ → ℕ → ℕ
signed_div w a b = with_sign w (differ (negative w a) (negative w b)) (amount w a / amount w b)

unfoldable pub signed_mod : ℕ → ℕ → ℕ → ℕ
signed_mod w a b = with_sign w (negative w a) (amount w a % amount w b)

-- `lshift`, `rshift` and `urshift`: the count is an `int`.
unfoldable pub lshift : Build → ℕ → ℕ → ℕ
lshift c val sh =
    if leb (2 ^ 31) sh
    then c.undefined_shift op_lsh val sh
    else if leb c.bitspertaddr sh
    then 0
    else val * 2 ^ sh % 2 ^ c.bitspertaddr

unfoldable pub rshift : Build → ℕ → ℕ → ℕ
rshift c val sh =
    let ones = 2 ^ c.bitspertaddr - 1 in
    if leb (2 ^ 31) sh
    then c.undefined_shift op_rsh val sh
    else if leb c.bitspertaddr sh
    then (if negative c.bitspertaddr val then ones else 0)
    else if negative c.bitspertaddr val
    then ones - (ones - val) / 2 ^ sh
    else val / 2 ^ sh

unfoldable pub urshift : Build → ℕ → ℕ → ℕ
urshift c val sh =
    if leb (2 ^ 31) sh
    then c.undefined_shift op_rshu val sh
    else if leb c.bitspertaddr sh
    then 0
    else val / 2 ^ sh

-- `(int)v`, of a `taddr` with its sign
abbrev pub to_int : ℕ → ℕ → ℕ
to_int w v = (if negative w v then v + 2 ^ 64 - 2 ^ w else v) % 2 ^ 32

-- The switch of `simplify_expr` on the operator for numbers, with the messages that it gives: 41 for a division by
-- zero, 21 for the least number divided by -1.
unfoldable pub num_unary : Build → UnaryOp → ℕ → ℕ
num_unary c op_neg v = negated c.bitspertaddr v
num_unary c op_cpl v = 2 ^ c.bitspertaddr - 1 - v
num_unary c op_not v = boolean c c.bitspertaddr (v == 0)

-- The check that DIV and MOD start with; `v` is the result where both are in order.
abbrev pub checked : ℕ → ℕ → ℕ → ℕ → ℕ × List ℕ
checked w a b v =
    if b == 0
    then (0, 41 ∷ [])
    else if (a == taddrmin w) && (b == 2 ^ w - 1)
    then (taddrmin w, 21 ∷ [])
    else (v, [])

unfoldable pub num_binary : Build → BinaryOp → ℕ → ℕ → ℕ × List ℕ
num_binary c op_add a b = ((a + b) % 2 ^ c.bitspertaddr, [])
num_binary c op_sub a b = ((a + 2 ^ c.bitspertaddr - b) % 2 ^ c.bitspertaddr, [])
num_binary c op_mul a b = (a * b % 2 ^ c.bitspertaddr, [])
num_binary c op_div a b = checked c.bitspertaddr a b (signed_div c.bitspertaddr a b)
num_binary c op_mod a b = checked c.bitspertaddr a b (signed_mod c.bitspertaddr a b)
num_binary c op_land a b = (boolean c c.bitspertaddr (not (a == 0) && not (b == 0)), [])
num_binary c op_lor a b = (boolean c c.bitspertaddr (not (a == 0) || not (b == 0)), [])
num_binary c op_band a b = (bit_and a b, [])
num_binary c op_bor a b = (bit_or a b, [])
num_binary c op_xor a b = (bit_xor a b, [])
num_binary c op_lsh a b = (lshift c a (to_int c.bitspertaddr b), [])
num_binary c op_rsh a b = (rshift c a (to_int c.bitspertaddr b), [])
num_binary c op_rshu a b = (urshift c a (to_int c.bitspertaddr b), [])
num_binary c op_lt a b = (boolean c c.bitspertaddr (less c.bitspertaddr a b), [])
num_binary c op_gt a b = (boolean c c.bitspertaddr (less c.bitspertaddr b a), [])
num_binary c op_leq a b = (boolean c c.bitspertaddr (not (less c.bitspertaddr b a)), [])
num_binary c op_geq a b = (boolean c c.bitspertaddr (not (less c.bitspertaddr a b)), [])
num_binary c op_neq a b = (boolean c c.bitspertaddr (not (a == b)), [])
num_binary c op_eq a b = (boolean c c.bitspertaddr (a == b), [])

-- A `taddr` as an `int64_t` in a 128-bit number, and back.
abbrev pub from_taddr : Build → ℕ → Thuge
from_taddr c v =
    huge_from_int (if negative c.bitspertaddr v then v + 2 ^ 64 - 2 ^ c.bitspertaddr else v)

abbrev pub to_taddr : Build → Thuge → ℕ
to_taddr c h = huge_to_int h % 2 ^ c.bitspertaddr

-- `huge_chkrange` for `bits` bits, by the host where they are 64.
abbrev pub in_range : Build → Thuge → ℕ → Bool
in_range c h bits = if bits == 64 then c.undefined_chkrange h else huge_chkrange h bits
