-- ===== src/Common/Power.antt =====
-- Quotients and remainders by powers of two, and how a power splits a word in two fields.
use Prim.Native.Nat.add
use Prim.Native.Nat.{ℕ, zero, suc, ◌+◌, ◌-◌, ◌*◌, ◌/◌, ◌%◌, ◌^◌, ◌≤◌, ◌<◌}
use mathlib.Core.Path.{◌≡◌, ap}
use native.Mathlib.Nat.{pow-suc, one-le-pow, div-add-mod', mod-lt}
use native.Mathlib.Nat.{div-eq_of_lt-le, div-lt_iff_lt-mul, mul-le-mul_right}
use native.Mathlib.Omega.{arith}

pub two_pow_pos : (k : ℕ) → 0 < 2 ^ k
two_pow_pos k = one-le-pow k 2 (omega arith)

pub two_pow-add : (m n : ℕ) → 2 ^ (m + n) ≡ 2 ^ m * 2 ^ n
two_pow-add zero n = rw add.zero (omega arith)
two_pow-add (suc m) n =
    rw add.suc
      (omega (arith, pow-suc 2 (m + n), ap (λ (t : ℕ). t * 2 ^ n) (pow-suc 2 m), two_pow-add m n))

pub pow_split : (k w : ℕ) → k ≤ w → 2 ^ k * 2 ^ (w - k) ≡ 2 ^ w
pow_split k w h = let e : k + (w - k) ≡ w = omega arith in rw (← two_pow-add, e)

pub div_unique : (n p q r : ℕ) → n ≡ q * p + r → r < p → n / p ≡ q
div_unique n p q r e h = div-eq_of_lt-le p (omega arith) (omega arith)

pub mod_unique : (n p q r : ℕ) → n ≡ q * p + r → r < p → n % p ≡ r
mod_unique n p q r e h =
    omega (arith, div-add-mod' n p, ap (λ (t : ℕ). t * p) (div_unique n p q r e h))

-- A word of `p * q = w` values is an upper field of `p` values and a lower one of `q`.
module _ (p q w : ℕ) (e : p * q ≡ w) (pos : 0 < p) (qpos : 0 < q) where
  -- Multiplying by `p` shifts the upper field out of the word.
  pub mul_fields : (x : ℕ) → x * p ≡ x / q * w + x % q * p
  mul_fields x =
      omega (arith, ap (λ (t : ℕ). t * p) (div-add-mod' x q), ap (λ (t : ℕ). x / q * t) e)

  pub low_field-le : (x : ℕ) → x % q * p + p ≤ w
  low_field-le x = omega (arith, e, mul-le-mul_right p (mod-lt x qpos))

  pub high_field-lt : (x : ℕ) → x < w → x / q < p
  high_field-lt x h = (div-lt_iff_lt-mul qpos).1 (omega arith)

  complement_split : (x : ℕ) → x < w → w - 1 - x ≡ (q - 1 - x / p) * p + (p - 1 - x % p)
  complement_split x h =
      let below : x / p < q = (div-lt_iff_lt-mul pos).1 (omega arith) in
      let whole : q - 1 - x / p + x / p + 1 ≡ q = omega arith in
      omega (arith, e, ap (λ (t : ℕ). t * p) whole, div-add-mod' x p, mod-lt x pos)

  pub complement-div : (x : ℕ) → x < w → (w - 1 - x) / p ≡ q - 1 - x / p
  complement-div x h = div_unique _ p _ _ (complement_split x h) (omega arith)

  pub complement-mod : (x : ℕ) → x < w → (w - 1 - x) % p ≡ p - 1 - x % p
  complement-mod x h = mod_unique _ p _ _ (complement_split x h) (omega arith)

-- The remainder by a product, by the digits of the number.
pub mod-mul : (n b p : ℕ) → 0 < b → 0 < p → n % (b * p) ≡ n % b + b * (n / b % p)
mod-mul n b p bpos ppos =
    mod_unique n (b * p) (n / b / p) _
      (omega (arith, div-add-mod' n b, ap (λ (t : ℕ). t * b) (div-add-mod' (n / b) p)))
      (omega (arith, mod-lt n bpos, mul-le-mul_right b (mod-lt (n / b) ppos)))
