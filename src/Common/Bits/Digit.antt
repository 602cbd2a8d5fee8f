-- ===== src/Common/Bits/Digit.antt =====
-- The native operations stand for `bitwise`, a recursion on binary digits with fuel. Here the
-- fuel is dropped: one equation for the lowest digit of each operation.
use Prim.Native.Nat.{
  min, max, differ, digits, bitwise, bit_and-bitwise, bit_or-bitwise, bit_xor-bitwise,
}
use Prim.Native.Nat.{ℕ, zero, suc, ◌+◌, ◌-◌, ◌*◌, ◌/◌, ◌%◌, ◌≤◌, ◌<◌, bit_and, bit_or, bit_xor}
use mathlib.Core.Path.{◌≡◌, refl, ◌∙◌}
use native.Mathlib.Omega.{arith}

-- A digit loop that has reached the end of its number does not use what fuel is left.
module _ (tail : ℕ → ℕ) (op : ℕ → ℕ → ℕ) where
  one_more : (fuel x y : ℕ) → x ≤ fuel → digits tail op (suc fuel) x y ≡ digits tail op fuel x y
  one_more fuel zero y le =
      elim fuel as (λ k. digits tail op (suc k) zero y ≡ digits tail op k zero y) [
        | zero ↦ refl
        | suc k ↦ refl
      ]
  one_more zero (suc x) y le = absurd (omega arith)
  one_more (suc fuel) (suc x) y le = rw (one_more fuel (suc x / 2) (y / 2) (omega arith))

  spare : (extra x y : ℕ) → digits tail op (extra + x) x y ≡ bitwise tail op x y
  spare zero x y = let none : 0 + x ≡ x = omega arith in rw none
  spare (suc extra) x y =
      let later : suc extra + x ≡ suc (extra + x) = omega arith in
      rw later (one_more (extra + x) x y (omega arith) ∙ spare extra x y)

  first_digit :
      (x y : ℕ)
      → bitwise tail op (suc x) y ≡ op (suc x % 2) (y % 2) + bitwise tail op (suc x / 2) (y / 2) * 2
  first_digit x y =
      let half = suc x / 2 in
      let split : x - half + half ≡ x = omega arith in
      omega (arith, rw split at (spare (x - half) half (y / 2)))

pub bit_and_digit : (a b : ℕ) → bit_and a b ≡ bit_and (a / 2) (b / 2) * 2 + min (a % 2) (b % 2)
bit_and_digit zero b = rw (bit_and-bitwise, bit_and-bitwise) (omega arith)
bit_and_digit (suc a) b =
    rw (bit_and-bitwise, bit_and-bitwise) (omega (arith, first_digit (λ y. 0) min a b))

pub bit_or_digit : (a b : ℕ) → bit_or a b ≡ bit_or (a / 2) (b / 2) * 2 + max (a % 2) (b % 2)
bit_or_digit zero b = rw (bit_or-bitwise, bit_or-bitwise) (omega arith)
bit_or_digit (suc a) b =
    rw (bit_or-bitwise, bit_or-bitwise) (omega (arith, first_digit (λ y. y) max a b))

differ_digit : (x y : ℕ) → x < 2 → y < 2 → differ x y ≡ (x + y) % 2
differ_digit zero y hx hy = omega arith
differ_digit (suc zero) zero hx hy = refl
differ_digit (suc zero) (suc zero) hx hy = refl
differ_digit (suc zero) (suc (suc y)) hx hy = absurd (omega arith)
differ_digit (suc (suc x)) y hx hy = absurd (omega arith)

pub bit_xor_digit : (a b : ℕ) → bit_xor a b ≡ bit_xor (a / 2) (b / 2) * 2 + (a % 2 + b % 2) % 2
bit_xor_digit zero b = simp bit_xor-bitwise (omega arith)
bit_xor_digit (suc a) b =
    rw (← differ_digit (suc a % 2) (b % 2) (omega arith) (omega arith))
      (rw (bit_xor-bitwise, bit_xor-bitwise) (omega (arith, first_digit (λ y. y) differ a b)))
