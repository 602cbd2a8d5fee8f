-- ===== src/HugeInt/Product.antt =====
-- `hmul` and `hmuli` against the product modulo 2 ^ 128.
use native.Mathlib.Nat.{mul-le-mul, div-add-mod'}
use mathlib.Core.Path.{ap₂}
use vasm_ext.Common.Bits.{bit_and_mask}
use vasm_ext.Common.Word.{u64, add64, shl64}
use vasm_ext.Common.{
  Bool, true, false, ℕ, ◌+◌, ◌-◌, ◌*◌, ◌/◌, ◌%◌, ◌^◌, ◌≤◌, ◌<◌, ◌≡◌, ◌⊎◌, inl, inr, arith, not, ltb,
  if◌then◌else◌,
}
use vasm_ext.HugeInt.Value.{value, IsHuge}
use vasm_ext.HugeInt.{Thuge, base, hihalf, hmul_carry, hmuli, hmul}

-- The two middle products of two words.
abbrev pub middle : ℕ → ℕ → ℕ
middle x y = x / 2 ^ 32 * (y % 2 ^ 32) + x % 2 ^ 32 * (y / 2 ^ 32)

-- Whether adding the low part of the middle products to the product `p` carries out of a word.
abbrev pub carry_out : ℕ → ℕ → ℕ → ℕ
carry_out p x y = if ltb (p + middle x y % 2 ^ 32 * 2 ^ 32) (2 ^ 64) then 0 else 1

-- The lower product carries by that of the lower halves; the code tests that of the upper halves.
abbrev pub due : ℕ → ℕ → ℕ
due x y = carry_out (x % 2 ^ 32 * (y % 2 ^ 32)) x y

abbrev pub added : ℕ → ℕ → ℕ
added x y = carry_out (x / 2 ^ 32 * (y / 2 ^ 32)) x y

half_product : (u v : ℕ) → u < 2 ^ 32 → v < 2 ^ 32 → u * v ≤ (2 ^ 32 - 1) * (2 ^ 32 - 1)
half_product u v h k = mul-le-mul {n₂ = 2 ^ 32 - 1} {m₂ = 2 ^ 32 - 1} (omega arith) (omega arith)

abbrev half_max : ℕ
half_max = (2 ^ 32 - 1) * (2 ^ 32 - 1)

-- The sum of the middle products and its carry, and the carry that the code tests.
module _ (t u : ℕ) (tb : t ≤ half_max) (ub : u ≤ half_max) where
  middle_carry :
      (hi : ℕ)
      → add64 (if ltb (add64 t u) t then add64 hi base else hi) (hihalf (add64 t u))
        ≡ (hi + (t + u) / 2 ^ 32) % 2 ^ 64
  middle_carry hi = ground arith

  tested_carry :
      (p : ℕ)
      → p ≤ half_max
      → ltb (add64 p (shl64 (add64 t u) 32)) p ≡ not (ltb (p + (t + u) % 2 ^ 32 * 2 ^ 32) (2 ^ 64))
  tested_carry p pb = ground arith

  carry_sum :
      (hi p : ℕ)
      → p ≤ half_max
      → (let hi₃ =
            add64
              (add64 (if ltb (add64 t u) t then add64 hi base else hi) (hihalf (add64 t u)))
              p in
          if ltb (add64 p (shl64 (add64 t u) 32)) p then add64 hi₃ 1 else hi₃)
        ≡ (hi
            + (t + u) / 2 ^ 32
            + p
            + (if ltb (p + (t + u) % 2 ^ 32 * 2 ^ 32) (2 ^ 64) then 0 else 1))
          % 2 ^ 64
  carry_sum hi p pb = rw (middle_carry hi, tested_carry p pb) (ground arith)

word_small : (p : ℕ) → p ≤ half_max → u64 p ≡ p
word_small p h = omega arith

module _ (x y : ℕ) (xb : x < 2 ^ 64) (yb : y < 2 ^ 64) where
  expand :
      x * y ≡ x / 2 ^ 32 * (y / 2 ^ 32) * 2 ^ 64 + middle x y * 2 ^ 32 + x % 2 ^ 32 * (y % 2 ^ 32)
  expand = omega (arith, ap₂ ◌*◌ (div-add-mod' x (2 ^ 32)) (div-add-mod' y (2 ^ 32)))

  carry_value :
      (hi : ℕ)
      → hmul_carry hi x y
        ≡ (hi + middle x y / 2 ^ 32 + x / 2 ^ 32 * (y / 2 ^ 32) + added x y) % 2 ^ 64
  unfolding hmul_carry
  carry_value hi =
      let h₁ = half_product (x / 2 ^ 32) (y / 2 ^ 32) (omega arith) (omega arith) in
      let h₂ = half_product (x / 2 ^ 32) (y % 2 ^ 32) (omega arith) (omega arith) in
      let h₃ = half_product (x % 2 ^ 32) (y / 2 ^ 32) (omega arith) (omega arith) in
      rw (bit_and_mask 32 x, bit_and_mask 32 y, word_small _ h₁, word_small _ h₂, word_small _ h₃)
        (carry_sum (x / 2 ^ 32 * (y % 2 ^ 32)) (x % 2 ^ 32 * (y / 2 ^ 32)) h₂ h₃ hi _ h₁)

  -- What the upper word should receive.
  upper_word : x * y / 2 ^ 64 ≡ middle x y / 2 ^ 32 + x / 2 ^ 32 * (y / 2 ^ 32) + due x y
  upper_word =
      ground (arith, expand, half_product (x % 2 ^ 32) (y % 2 ^ 32) (omega arith) (omega arith))

-- `hmul` multiplies modulo 2 ^ 128, but for the carry out of the lower product: it adds the one
-- that the upper halves of the lower words would give in place of the one that is due.
pub hmul-value :
    (a b : Thuge)
    → IsHuge a
    → IsHuge b
    → (value (hmul a b) + due a.lo b.lo * 2 ^ 64) % 2 ^ 128
      ≡ (value a * value b + added a.lo b.lo * 2 ^ 64) % 2 ^ 128
unfolding hmul
hmul-value a b v w =
    rw (carry_value a.lo b.lo v.lo_fits w.lo_fits _)
      (omega (arith, upper_word a.lo b.lo v.lo_fits w.lo_fits))

-- `hmuli` by a number below 2 ^ 32 drops the carry that is due out of the lower product, and is
-- otherwise the product modulo 2 ^ 128.
pub hmuli-value :
    (a : Thuge) (b : ℕ)
    → IsHuge a
    → b < 2 ^ 32
    → value (hmuli a b) ≡ (value a * b + 2 ^ 128 - due a.lo b * 2 ^ 64) % 2 ^ 128
unfolding hmuli
hmuli-value a b v h =
    let single : b / 2 ^ 32 ≡ 0 = omega arith in
    let none_added : added a.lo b ≡ 0 = rw single (ground arith) in
    rw (carry_value a.lo b v.lo_fits (omega arith) _, none_added)
      (omega (arith, upper_word a.lo b v.lo_fits (omega arith)))

none_due : (x b : ℕ) → x < 2 ^ 64 → (b ≡ 2) ⊎ (b ≡ 8) ⊎ (b ≡ 16) → due x b ≡ 0
none_due x b h (inl e) = rw e (ground arith)
none_due x b h (inr (inl e)) = rw e (ground arith)
none_due x b h (inr (inr e)) = rw e (ground arith)

-- The bases of binary, octal and hexadecimal constants lose no carry.
pub hmuli-exact :
    (a : Thuge) (b : ℕ)
    → IsHuge a
    → (b ≡ 2) ⊎ (b ≡ 8) ⊎ (b ≡ 16)
    → value (hmuli a b) ≡ value a * b % 2 ^ 128
hmuli-exact a b v h = omega (arith, hmuli-value a b v (omega arith), none_due a.lo b v.lo_fits h)

word_either : (c : Bool) (a b : ℕ) → (if c then a % 2 ^ 64 else b % 2 ^ 64) < 2 ^ 64
word_either true a b = omega arith
word_either false a b = omega arith

pub hmuli-IsHuge : (a : Thuge) (b : ℕ) → IsHuge (hmuli a b)
unfolding hmuli
hmuli-IsHuge a b = record { hi_fits = word_either _ _ _; lo_fits = omega arith }
