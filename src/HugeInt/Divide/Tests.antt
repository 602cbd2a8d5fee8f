-- ===== src/HugeInt/Divide/Tests.antt =====
-- Divisions of numbers.
use vasm_ext.Common.Run.{ok}
use vasm_ext.Common.{ℕ, ◌-◌, ◌/◌, ◌%◌, ◌^◌, ◌≡◌, refl, arith}
use vasm_ext.HugeInt.{Thuge, hneg}
use vasm_ext.HugeInt.Value.{value, of_value}
use vasm_ext.HugeInt.Divide.Short.{divmod_short}
use vasm_ext.HugeInt.Divide
use vasm_ext.HugeInt.Divide.{hdiv, hmod, divmod}

abbrev a : Thuge
a = record { hi = 0xfedcba9876543210; lo = 0xf123456789abcdef }

abbrev b : Thuge
b = record { hi = 0x12345; lo = 0x6789abcdef012345 }

abbrev ten : Thuge
ten = record { hi = 0; lo = 10 }

long :
    divmod a b
    ≡ ok (record { hi = 0; lo = 246290604621824 }, record { hi = 239; lo = 17457893238402436591 })
unfolding divmod Divide.divmod_digits Divide.significant Divide.divmod_loop Divide.divmod_step
    Divide.subtract Divide.add_back Divide.guess Divide.correct Divide.leading_zeros
    Divide.shift_digits Divide.shift_back
long = refl

-- The guess of a digit is one too large and the divisor is added back. A carry is lost, so that
-- the upper half of the remainder is too large: 2 ^ 31 is right.
one_back :
    divmod
      (record { hi = 9223372034707292161; lo = 0 })
      (record { hi = 2147483648; lo = 9223372045444710405 })
    ≡ ok (
      record { hi = 0; lo = 4294967293 },
      record { hi = 0xffffffff7fffffff; lo = 9223372041149743119 },
    )
unfolding divmod Divide.divmod_digits Divide.significant Divide.divmod_loop Divide.divmod_step
    Divide.subtract Divide.add_back Divide.guess Divide.correct Divide.leading_zeros
    Divide.shift_digits Divide.shift_back
one_back = refl

-- The sign of the remainder is not that of the dividend: 7 % -2 is -1, and -7 % -2 is 1.
abbrev minus : ℕ → Thuge
minus n = record { hi = 2 ^ 64 - 1; lo = 2 ^ 64 - n }

remainder_signs :
    (hmod (record { hi = 0; lo = 7 }) (minus 2) ≡ ok (minus 1))
    × (hmod (minus 7) (minus 2) ≡ ok (record { hi = 0; lo = 1 }))
    × (hdiv (minus 7) (minus 2) ≡ ok (record { hi = 0; lo = 3 }))
unfolding divmod Divide.significant Divide.divmod_digit hdiv hmod hneg
remainder_signs = (refl, refl, refl)

divmod_short_example : divmod a ten ≡ ok (of_value (value a / 10), of_value (value a % 10))
divmod_short_example = divmod_short a ten (omega arith) (omega arith) (omega arith) (omega arith)
