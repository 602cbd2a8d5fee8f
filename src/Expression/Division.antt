-- ===== src/Expression/Division.antt =====
-- The signed division of DIV and MOD.
use native.Mathlib.Nat.{pow-suc, div-add-mod', mod-lt, div-le_self, div-lt_iff_lt-mul}
use vasm_ext.Common.Power.{two_pow_pos, mod_unique}
use vasm_ext.Common.{
  ℕ, zero, suc, ◌+◌, ◌-◌, ◌*◌, ◌/◌, ◌%◌, ◌^◌, ◌≤◌, ◌<◌, ◌≡◌, ◌≢◌, refl, Bool, ◌⊎◌, inl, inr, arith,
  true, false,
}
use vasm_ext.Expression.{signed_div, signed_mod, amount, negative, negated, taddrmin, with_sign}
use vasm_ext.HugeInt.Divide.{differ}

shrinks : (n p : ℕ) → 0 < n → 1 < p → n / p < n
shrinks n p h k = (div-lt_iff_lt-mul {k = p} {x = n} {y = n} (omega arith)).1 (grind arith)

at_most : (a b : ℕ) → a ≤ b → (a < b) ⊎ (a ≡ b)
at_most a b h = ground arith

-- The amounts of numbers of `k + 1` bits.
module _ (k : ℕ) where
  width : 2 ^ suc k ≡ 2 * 2 ^ k
  width = omega (arith, pow-suc 2 k)

  amount-bound : (a : ℕ) → a < 2 ^ suc k → amount (suc k) a ≤ 2 ^ k
  amount-bound a h = ground (arith, width)

  small : (q : ℕ) → q < 2 ^ suc k → q % 2 ^ suc k ≡ q
  small q h = mod_unique q (2 ^ suc k) 0 q (omega arith) h

  amount-plain : (q : ℕ) → q < 2 ^ k → amount (suc k) (q % 2 ^ suc k) ≡ q
  amount-plain q h =
      let fits : q < 2 ^ suc k = omega (arith, width) in rw (small q fits) (ground (arith, width))

  negated-zero : negated (suc k) 0 ≡ 0
  negated-zero = mod_unique (2 ^ suc k - 0) (2 ^ suc k) 1 0 (omega arith) (two_pow_pos (suc k))

  amount-negated : (q : ℕ) → q ≤ 2 ^ k → amount (suc k) (negated (suc k) q) ≡ q
  amount-negated zero h = rw (negated-zero) (ground (arith, two_pow_pos k))
  amount-negated (suc q) h =
      let fits : 2 ^ suc k - suc q < 2 ^ suc k = omega (arith, width) in
      rw (small (2 ^ suc k - suc q) fits) (ground (arith, width))

  amount-with_sign :
      (neg : Bool) (q : ℕ)
      → q ≤ 2 ^ k
      → (neg ≡ false → q < 2 ^ k)
      → amount (suc k) (with_sign (suc k) neg q) ≡ q
  amount-with_sign true q h _ = amount-negated q h
  amount-with_sign false q h fits = amount-plain q (fits refl)

  module _ (a b : ℕ) (a_fits : a < 2 ^ suc k) (b_fits : b < 2 ^ suc k) (nonzero : 0 < b) where
    amount-pos : 0 < amount (suc k) b
    amount-pos = ground arith

    remainder-lt : amount (suc k) a % amount (suc k) b < 2 ^ k
    remainder-lt = omega (arith, mod-lt (amount (suc k) a) amount-pos, amount-bound b b_fits)

    amount-signed_mod :
        amount (suc k) (signed_mod (suc k) a b) ≡ amount (suc k) a % amount (suc k) b
    unfolding signed_mod
    amount-signed_mod = amount-with_sign _ _ (omega (arith, remainder-lt)) (λ _. remainder-lt)

    -- Only the least number has a quotient out of range, by -1.
    quotient-lt :
        (a ≢ taddrmin (suc k)) ⊎ (b ≢ 2 ^ suc k - 1)
        → differ (negative (suc k) a) (negative (suc k) b) ≡ false
        → amount (suc k) a / amount (suc k) b < 2 ^ k
    quotient-lt ok e =
        let q_le = div-le_self (amount (suc k) a) (amount (suc k) b) in
        let bound = amount-bound a a_fits in
        elim (at_most _ _ bound) [
          | inl less ↦ omega (arith, less, q_le)
          | inr equal ↦
              let b_big : 1 < amount (suc k) b = ground (arith, width, equal, ok, e) in
              rw equal (shrinks (2 ^ k) (amount (suc k) b) (two_pow_pos k) b_big)
        ]

    amount-signed_div :
        (a ≢ taddrmin (suc k)) ⊎ (b ≢ 2 ^ suc k - 1)
        → amount (suc k) (signed_div (suc k) a b) ≡ amount (suc k) a / amount (suc k) b
    unfolding signed_div
    amount-signed_div ok =
        amount-with_sign _ _
          (omega (arith, div-le_self (amount (suc k) a) (amount (suc k) b), amount-bound a a_fits))
          (quotient-lt ok)

    -- For `0 < b`, and unless `a` is `taddrmin` and `b` is -1, the quotient and the remainder of
    -- numbers of `k + 1` bits divide the amount of `a` by that of `b`, and the remainder's is the
    -- smaller.
    pub signed_div-signed_mod :
        (a ≢ taddrmin (suc k)) ⊎ (b ≢ 2 ^ suc k - 1)
        → (amount (suc k) (signed_div (suc k) a b) * amount (suc k) b
              + amount (suc k) (signed_mod (suc k) a b)
            ≡ amount (suc k) a)
          × (amount (suc k) (signed_mod (suc k) a b) < amount (suc k) b)
    signed_div-signed_mod ok =
        rw (amount-signed_div ok, amount-signed_mod) (div-add-mod' _ _, mod-lt _ amount-pos)
