-- ===== src/HugeInt/Sum.antt =====
-- Negation, sums, differences and the order of hugeint.c against arithmetic modulo 2 ^ 128.
use Prim.Native.Nat.{Ordering, compare}
use vasm_ext.Common.{
  ℕ, ◌+◌, ◌-◌, ◌%◌, ◌^◌, ◌<◌, ◌≡◌, ◌≢◌, arith, Bool, true, false, not, ◌&&◌, ◌==◌, if◌then◌else◌,
}
use vasm_ext.HugeInt.Value.{value, IsHuge}
use vasm_ext.HugeInt.{Thuge, hugesign, huge_from_int, hneg, hcpl, haddi, hadd, hsub, hcmp}

-- Negation is the two's complement of the 128-bit number, and complement is one less.
pub hneg-value :
    {a : Thuge}
    → IsHuge a
    → (value (hneg a) ≡ (2 ^ 128 - value a) % 2 ^ 128) × (value (hcpl a) + value a ≡ 2 ^ 128 - 1)
unfolding hneg hcpl
hneg-value w = (ground arith, omega (arith, w.hi_fits, w.lo_fits))

-- Adding a 64-bit integer adds its sign extension modulo 2 ^ 128, for either sign.
pub haddi-value :
    (a : Thuge) (b : ℕ)
    → IsHuge a
    → b < 2 ^ 64
    → value (haddi a b) ≡ (value a + value (huge_from_int b)) % 2 ^ 128
unfolding haddi huge_from_int
haddi-value a b w h = ground arith

pub haddi-IsHuge : (a : Thuge) (b : ℕ) → IsHuge a → IsHuge (haddi a b)
unfolding haddi
haddi-IsHuge a b w = ground arith

-- A number whose sign is set and whose lower half is not 0: for such a second operand `hadd` and
-- `hsub` test the carry the wrong way round.
abbrev pub miscarries : Thuge → Bool
miscarries b = hugesign b && not (b.lo == 0)

-- `hadd` is the sum modulo 2 ^ 128, but 2 ^ 64 too small if the second operand is negative and its
-- lower half is not 0.
pub hadd-value :
    (a b : Thuge)
    → IsHuge a
    → IsHuge b
    → value (hadd a b)
      ≡ (value a + value b + (if miscarries b then 2 ^ 128 - 2 ^ 64 else 0)) % 2 ^ 128
unfolding hadd
hadd-value a b v w = ground arith

-- `hsub` is the difference modulo 2 ^ 128, but 2 ^ 64 too large if the second operand is negative
-- and its lower half is not 0.
pub hsub-value :
    (a b : Thuge)
    → IsHuge a
    → IsHuge b
    → value (hsub a b)
      ≡ (value a + 2 ^ 128 - value b + (if miscarries b then 2 ^ 64 else 0)) % 2 ^ 128
unfolding hsub
hsub-value a b v w = ground arith

-- Numbers that are not negative are compared by their values.
pub hcmp-compare :
    (a b : Thuge)
    → IsHuge a
    → IsHuge b
    → hugesign a ≡ false
    → hugesign b ≡ false
    → hcmp a b ≡ compare (value a) (value b)
unfolding hcmp hsub
hcmp-compare a b v w p q = ground arith

-- Of two negative numbers less than 2 ^ 64 apart the smaller is found to be the greater, if the
-- lower half of the second operand is not 0.
pub hcmp_inverted :
    (a b : Thuge)
    → IsHuge a
    → IsHuge b
    → hugesign a ≡ true
    → hugesign b ≡ true
    → b.lo ≢ 0
    → value a < value b
    → value b < value a + 2 ^ 64
    → hcmp a b ≡ Ordering.gt
unfolding hcmp hsub
hcmp_inverted a b v w p q ne lt near = ground arith
