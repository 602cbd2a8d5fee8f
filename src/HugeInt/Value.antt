-- ===== src/HugeInt/Value.antt =====
-- The number that a `thuge` stands for, below 2 ^ 128.
use vasm_ext.Common.{ℕ, ◌+◌, ◌*◌, ◌/◌, ◌%◌, ◌^◌, ◌<◌, ◌≡◌, arith}
use vasm_ext.HugeInt.{Thuge}

abbrev pub value : Thuge → ℕ
value h = h.hi * 2 ^ 64 + h.lo

-- Both halves are 64-bit words.
pub record IsHuge (h : Thuge) : Type 0 where
  pub hi_fits : h.hi < 2 ^ 64
  pub lo_fits : h.lo < 2 ^ 64

pub value-lt : {h : Thuge} → IsHuge h → value h < 2 ^ 128
value-lt w = omega arith

pub eq_of_value : (g h : Thuge) → IsHuge g → IsHuge h → value g ≡ value h → g ≡ h
eq_of_value g h v w e = ground arith

-- A number below 2 ^ 128, as a `thuge`.
abbrev pub of_value : ℕ → Thuge
of_value n = record { hi = n / 2 ^ 64 % 2 ^ 64; lo = n % 2 ^ 64 }

pub value-of_value : (n : ℕ) → value (of_value n) ≡ n % 2 ^ 128
value-of_value n = omega arith
