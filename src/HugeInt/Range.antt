-- ===== src/HugeInt/Range.antt =====
-- `huge_chkrange` against the numbers that fit a field of `bits` bits.
use native.Mathlib.Nat.{
  mul_comm, div-add-mod', mod-lt, mod-eq_of_lt, div-eq_of_lt, pow-le-pow_right,
}
use vasm_ext.Common.Bits.{bit_and_shifted, bit_and_mask, bit_xor_self, bit_xor-eq-zero}
use vasm_ext.Common.Power.{
  two_pow_pos, pow_split, two_pow-add, div_unique, mod_unique, high_field-lt,
}
use vasm_ext.Common.Word.{shl64, ones64}
use vasm_ext.Common.{
  ℕ, ◌+◌, ◌-◌, ◌*◌, ◌/◌, ◌%◌, ◌^◌, ◌≤◌, ◌<◌, ◌≡◌, ◌≢◌, ap, arith, bit_and, bit_xor, Bool, not, ◌||◌,
  inl, inr, Bool-cases, ltb, ltb→lt, leb, leb→le, ◌==◌, if◌then◌else◌,
}
use vasm_ext.HugeInt.Value.{value, IsHuge}
use vasm_ext.HugeInt.{Thuge, huge_chkrange}

module _ (k : ℕ) (small : k < 64) (x : ℕ) (fits : x < 2 ^ 64) where
  split : 2 ^ k * 2 ^ (64 - k) ≡ 2 ^ 64
  split = pow_split k 64 (omega arith)

  upper : (2 ^ (64 - k) - 1) * 2 ^ k + 2 ^ k ≡ 2 ^ 64
  upper =
      let e : 2 ^ (64 - k) - 1 + 1 ≡ 2 ^ (64 - k) = omega (arith, two_pow_pos (64 - k)) in
      omega (arith, split, ap (λ (t : ℕ). t * 2 ^ k) e)

  -- `~0 << k` has the bits from `k` on.
  pub mask_value : shl64 ones64 k ≡ 2 ^ 64 - 2 ^ k
  mask_value =
      mod_unique _ (2 ^ 64) (2 ^ k - 1) _ (omega (arith, two_pow_pos k, upper))
        (omega (arith, two_pow_pos k))

  pub masked : bit_and x (2 ^ 64 - 2 ^ k) ≡ x / 2 ^ k * 2 ^ k
  masked =
      let e : 2 ^ 64 - 2 ^ k ≡ (2 ^ (64 - k) - 1) * 2 ^ k = omega (arith, upper) in
      let small_field : x / 2 ^ k < 2 ^ (64 - k) =
        high_field-lt (2 ^ (64 - k)) (2 ^ k) (2 ^ 64) (rw (mul_comm (2 ^ (64 - k)) (2 ^ k)) split)
          (two_pow_pos _) (two_pow_pos _) x fits in
      rw (e, bit_and_shifted k x (2 ^ (64 - k) - 1), bit_and_mask (64 - k) (x / 2 ^ k))
        (rw (mod-eq_of_lt small_field))

  pub quotient-zero : x < 2 ^ k → x / 2 ^ k * 2 ^ k ≡ 0
  quotient-zero h = rw (div-eq_of_lt h) (omega arith)

  pub quotient_full : 2 ^ 64 - 2 ^ k ≤ x → x / 2 ^ k * 2 ^ k ≡ 2 ^ 64 - 2 ^ k
  quotient_full h =
      rw
        (div_unique x (2 ^ k) (2 ^ (64 - k) - 1) (x - (2 ^ 64 - 2 ^ k)) (omega (arith, upper))
          (omega (arith, two_pow_pos k)))
        (omega (arith, upper))

  pub mask_clear : (bit_and x (shl64 ones64 k) == 0) ≡ ltb x (2 ^ k)
  mask_clear =
      rw (mask_value, masked)
        (ground (arith, quotient-zero, div-add-mod' x (2 ^ k), mod-lt x (two_pow_pos k)))

  pub mask_full :
      (bit_xor (bit_and x (shl64 ones64 k)) (shl64 ones64 k) == 0) ≡ leb (2 ^ 64 - 2 ^ k) x
  mask_full =
      rw (mask_value, masked)
        (ground (
          arith,
          quotient_full,
          bit_xor_self (2 ^ 64 - 2 ^ k),
          bit_xor-eq-zero (x / 2 ^ k * 2 ^ k) (2 ^ 64 - 2 ^ k),
          div-add-mod' x (2 ^ k),
        ))

  -- The bit below the mask, in a word whose bits in the mask are set.
  module _ (j : ℕ) (e : k ≡ j + 1) where
    two : 2 ^ k ≡ 2 ^ j * 2
    two = rw e (two_pow-add j 1)

    field : bit_and x (2 ^ j) ≡ x / 2 ^ j % 2 * 2 ^ j
    field =
        let one : 1 * 2 ^ j ≡ 2 ^ j = omega arith in
        rw (one, bit_and_mask 1 (x / 2 ^ j)) at (bit_and_shifted j x 1)

    lower_quotient : (q : ℕ) → q * 2 ^ j ≤ x → x < q * 2 ^ j + 2 ^ j → x / 2 ^ j ≡ q
    lower_quotient q a b = div_unique x (2 ^ j) q (x - q * 2 ^ j) (omega arith) (omega arith)

    pub sign_bit : 2 ^ 64 - 2 ^ k ≤ x → (bit_and x (2 ^ j) == 0) ≡ ltb x (2 ^ 64 - 2 ^ j)
    sign_bit h =
        let n = (2 ^ (64 - k) - 1) * 2 in
        let whole : n * 2 ^ j + 2 * 2 ^ j ≡ 2 ^ 64 =
          omega (arith, upper, two, ap (λ (t : ℕ). (2 ^ (64 - k) - 1) * t) two) in
        elim (Bool-cases (ltb x (2 ^ 64 - 2 ^ j))) [
          | inl below ↦
              rw
                (
                  below,
                  field,
                  lower_quotient n (omega (arith, two))
                      (omega (arith, ltb→lt x (2 ^ 64 - 2 ^ j) below)),
                )
                (let even : n % 2 ≡ 0 = omega arith in rw even (ground arith))
          | inr above ↦
              let q : x / 2 ^ j ≡ n + 1 = lower_quotient (n + 1) (ground arith) (omega (arith)) in
              let odd : (n + 1) % 2 ≡ 1 = omega arith in
              rw (above, field, q, odd) (ground (arith, two_pow_pos j))
        ]

-- The test on one half: below 64 bits on the lower half, above on the upper one.
abbrev half_fits : ℕ → ℕ → Bool
half_fits k x =
    if bit_xor (bit_and x (shl64 ones64 k)) (shl64 ones64 k) == 0
    then not (bit_and x (2 ^ (k - 1)) == 0)
    else bit_and x (shl64 ones64 k) == 0

half_fits-eq :
    (k x : ℕ)
    → 1 ≤ k
    → k < 64
    → x < 2 ^ 64
    → half_fits k x ≡ (ltb x (2 ^ k) || leb (2 ^ 64 - 2 ^ (k - 1)) x)
half_fits-eq k x pos small fits =
    let e : k ≡ k - 1 + 1 = omega arith in
    let half : 2 ^ k ≤ 2 ^ 63 = pow-le-pow_right (omega arith) {i = k} {j = 63} (omega arith) in
    ground (
      arith,
      half,
      mask_clear k small x fits,
      mask_full k small x fits,
      sign_bit k small x fits (k - 1) e,
      two k small x fits (k - 1) e,
      upper k small x fits,
    )

-- `huge_chkrange` accepts the numbers that fit `bits` bits, unsigned or in two's complement.
pub huge_chkrange-fits :
    (h : Thuge) (bits : ℕ)
    → IsHuge h
    → 1 ≤ bits
    → bits ≢ 64
    → bits < 128
    → huge_chkrange h bits ≡ (ltb (value h) (2 ^ bits) || leb (2 ^ 128 - 2 ^ (bits - 1)) (value h))
unfolding huge_chkrange
huge_chkrange-fits h bits w pos ne lt = elim (Bool-cases (leb 64 bits)) [
  | inl e ↦
      let k : bits - 64 < 64 = omega arith in
      let pos' : 1 ≤ bits - 64 = omega (arith, leb→le 64 bits e) in
      let whole : 64 + (bits - 64) ≡ bits = omega arith in
      let whole' : 64 + (bits - 64 - 1) ≡ bits - 1 = omega arith in
      ground (
        arith,
        half_fits-eq (bits - 64) h.hi pos' k w.hi_fits,
        rw whole at (two_pow-add 64 (bits - 64)),
        rw whole' at (two_pow-add 64 (bits - 64 - 1)),
        upper (bits - 64) k h.hi w.hi_fits,
      )
  | inr e ↦
      let k : bits < 64 = ground arith in
      let top : bits ≡ bits - 1 + 1 = omega arith in
      ground (
        arith,
        mask_clear bits k h.lo w.lo_fits,
        mask_full bits k h.lo w.lo_fits,
        sign_bit bits k h.lo w.lo_fits (bits - 1) top,
        two bits k h.lo w.lo_fits (bits - 1) top,
        upper bits k h.lo w.lo_fits,
      )
]
