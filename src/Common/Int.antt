-- ===== src/Common/Int.antt =====
-- Integers over the native numbers.
use Prim.Native.Nat.{ℕ, zero, suc}

pub data ℤ : Type 0 where
  pos : ℕ → ℤ
  negsuc : ℕ → ℤ

infixl 20 ◌⊖◌
-- The difference of two numbers.
abbrev pub ◌⊖◌ : ℕ → ℕ → ℤ
zero ⊖ zero = pos 0
zero ⊖ suc b = negsuc b
suc a ⊖ zero = pos (suc a)
suc a ⊖ suc b = a ⊖ b
