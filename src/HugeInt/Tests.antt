-- ===== src/HugeInt/Tests.antt =====
-- Runs of the operations of hugeint.c, and its theorems at concrete numbers.
use vasm_ext.Common.{
  ℕ, ◌+◌, ◌-◌, ◌*◌, ◌%◌, ◌^◌, ◌≡◌, refl, arith, true, ◌||◌, List, some, length, ltb, leb,
  if◌then◌else◌,
}
use vasm_ext.HugeInt.Memory.{sign_extend, huge_from_mem-huge_to_mem}
use vasm_ext.HugeInt.Product.{due, added, hmul-value}
use vasm_ext.HugeInt.Range.{huge_chkrange-fits}
use vasm_ext.HugeInt.Shift.{hshl-value}
use vasm_ext.HugeInt.Sum.{miscarries, hadd-value}
use vasm_ext.HugeInt.Value.{value, IsHuge}
use vasm_ext.HugeInt.{
  Thuge, haddi, hadd, hshl, hmuli, hmul, huge_chkrange, huge_from_mem, huge_to_mem,
}

abbrev huge : ℕ → ℕ → Thuge
huge hi lo = record { hi = hi; lo = lo }

abbrev five : Thuge
five = huge 0 5

abbrev minus_one : Thuge
minus_one = huge (2 ^ 64 - 1) (2 ^ 64 - 1)

abbrev minus_two : Thuge
minus_two = huge (2 ^ 64 - 1) (2 ^ 64 - 2)

five-IsHuge : IsHuge five
five-IsHuge = omega arith

minus_one-IsHuge : IsHuge minus_one
minus_one-IsHuge = omega arith

minus_two-IsHuge : IsHuge minus_two
minus_two-IsHuge = omega arith

-- 5 + (-1), and the product of 2 ^ 33 - 1 with itself, whose upper half should be 3
wrong_sum : (hadd five minus_one ≡ huge (2 ^ 64 - 1) 4) × (haddi five (2 ^ 64 - 1) ≡ huge 0 4)
unfolding hadd haddi
wrong_sum = (refl, refl)

wrong_product : hmul (huge 0 (2 ^ 33 - 1)) (huge 0 (2 ^ 33 - 1)) ≡ huge 2 (2 ^ 64 - 2 ^ 34 + 1)
unfolding hmul
wrong_product = refl

wrong_decimal : hmuli (huge 0 1844674407370955163) 10 ≡ huge 0 14
unfolding hmuli
wrong_decimal = refl

hadd-value_example :
    value (hadd five minus_one)
    ≡ (value five + value minus_one + (if miscarries minus_one then 2 ^ 128 - 2 ^ 64 else 0))
      % 2 ^ 128
hadd-value_example = hadd-value five minus_one five-IsHuge minus_one-IsHuge

hshl-value_example : value (hshl five 70) ≡ value five * 2 ^ 70 % 2 ^ 128
hshl-value_example = hshl-value five 70 five-IsHuge (omega arith)

hmul-value_example :
    (value (hmul five minus_one) + due 5 (2 ^ 64 - 1) * 2 ^ 64) % 2 ^ 128
    ≡ (value five * value minus_one + added 5 (2 ^ 64 - 1) * 2 ^ 64) % 2 ^ 128
hmul-value_example = hmul-value five minus_one five-IsHuge minus_one-IsHuge

huge_chkrange-fits_example :
    huge_chkrange minus_two 8
    ≡ (ltb (value minus_two) (2 ^ 8) || leb (2 ^ 128 - 2 ^ (8 - 1)) (value minus_two))
huge_chkrange-fits_example =
    huge_chkrange-fits minus_two 8 minus_two-IsHuge (omega arith) (omega arith) (omega arith)

huge_from_mem-huge_to_mem_example :
    (m : List ℕ) × (r : Thuge) × (huge_to_mem true 10 minus_two ≡ some m)
    × (length m ≡ 10)
    × (huge_from_mem true m ≡ some r)
    × (value r ≡ sign_extend 10 (value minus_two % 256 ^ 10))
huge_from_mem-huge_to_mem_example =
    huge_from_mem-huge_to_mem true 10 minus_two minus_two-IsHuge (omega arith) (omega arith)
