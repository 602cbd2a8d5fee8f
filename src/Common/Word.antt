-- ===== src/Common/Word.antt =====
-- 64-bit words as native numbers: every operation of `uint64_t` wraps by `% 2 ^ 64`, and a
-- negative `int64_t` is the word whose top bit is set.
use Prim.Native.Nat.{ℕ, ◌+◌, ◌-◌, ◌*◌, ◌/◌, ◌%◌, ◌^◌}
use mathlib.Core.Bool.{Bool}
use vasm_ext.Common.Tests.{leb}

-- `(uint64_t)` of a wider value
abbrev pub u64 : ℕ → ℕ
u64 n = n % 2 ^ 64

abbrev pub add64 : ℕ → ℕ → ℕ
add64 a b = u64 (a + b)

abbrev pub sub64 : ℕ → ℕ → ℕ
sub64 a b = u64 (a + 2 ^ 64 - b)

abbrev pub mul64 : ℕ → ℕ → ℕ
mul64 a b = u64 (a * b)

abbrev pub neg64 : ℕ → ℕ
neg64 a = u64 (2 ^ 64 - a)

-- `~a`
abbrev pub cpl64 : ℕ → ℕ
cpl64 a = 2 ^ 64 - 1 - a

-- `a << k` and `a >> k`, for `k` below 64
abbrev pub shl64 : ℕ → ℕ → ℕ
shl64 a k = u64 (a * 2 ^ k)

abbrev pub shr64 : ℕ → ℕ → ℕ
shr64 a k = a / 2 ^ k

-- `(int64_t)a < 0`
abbrev pub sign64 : ℕ → Bool
sign64 a = leb (2 ^ 63) a

-- `~0`, all bits set
abbrev pub ones64 : ℕ
ones64 = 2 ^ 64 - 1
