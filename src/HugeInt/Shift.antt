-- ===== src/HugeInt/Shift.antt =====
-- The shifts of hugeint.c against multiplication and division by a power of two.
use native.Mathlib.Nat.{mul_comm, div-le_self, div-div-eq-div-mul, div-add-mod', mod-lt}
use vasm_ext.Common.Bits.{bit_or_fields, bit_or_comm}
use vasm_ext.Common.Power.{
  two_pow_pos, pow_split, two_pow-add, div_unique, mul_fields, low_field-le, high_field-lt,
  complement-div, complement-mod,
}
use vasm_ext.Common.Word.{shl64}
use vasm_ext.Common.{
  ℕ, ◌+◌, ◌-◌, ◌*◌, ◌/◌, ◌%◌, ◌^◌, ◌≤◌, ◌<◌, ◌≡◌, sym, ap, arith, bit_or, inl, inr, true, false,
  Bool-cases, leb, leb→le, ◌==◌, ==_iff, if◌then◌else◌,
}
use vasm_ext.HugeInt.Value.{value, IsHuge}
use vasm_ext.HugeInt.{Thuge, hugesign, hshra, hshr, hshl}

module _ (b : ℕ) (small : b ≤ 64) where
  split : 2 ^ b * 2 ^ (64 - b) ≡ 2 ^ 64
  split = pow_split b 64 small

  -- What a shift to the left leaves in a word, and where the part shifted out begins.
  word_fields :
      (x : ℕ)
      → (x * 2 ^ b ≡ x / 2 ^ (64 - b) * 2 ^ 64 + shl64 x b)
        × (shl64 x b ≡ x % 2 ^ (64 - b) * 2 ^ b)
        × (shl64 x b + 2 ^ b ≤ 2 ^ 64)
  word_fields x =
      let e = mul_fields (2 ^ b) (2 ^ (64 - b)) (2 ^ 64) split (two_pow_pos _) (two_pow_pos _) x in
      let l =
        low_field-le (2 ^ b) (2 ^ (64 - b)) (2 ^ 64) split (two_pow_pos _) (two_pow_pos _) x in
      let p = two_pow_pos b in (omega arith, omega arith, omega arith)

  high_lt : (x : ℕ) → x < 2 ^ 64 → x / 2 ^ (64 - b) < 2 ^ b
  high_lt = high_field-lt (2 ^ b) (2 ^ (64 - b)) (2 ^ 64) split (two_pow_pos _) (two_pow_pos _)

  -- The halves of a shift to the left below 64.
  pub hshl_small :
      (hi lo : ℕ)
      → hi < 2 ^ 64
      → lo < 2 ^ 64
      → bit_or (lo / 2 ^ (64 - b)) (shl64 hi b) * 2 ^ 64 + shl64 lo b
        ≡ (hi * 2 ^ 64 + lo) * 2 ^ b % 2 ^ 128
  hshl_small hi lo hb lb =
      let h = word_fields hi in
      let l = word_fields lo in
      let top = high_lt lo lb in
      let joined : bit_or (lo / 2 ^ (64 - b)) (shl64 hi b) ≡ shl64 hi b + lo / 2 ^ (64 - b) =
        rw (h.1, bit_or_comm (lo / 2 ^ (64 - b)) _) (bit_or_fields b (hi % 2 ^ (64 - b)) _ top) in
      omega arith

  unsplit : 2 ^ (64 - b) * 2 ^ b ≡ 2 ^ 64
  unsplit = rw (mul_comm (2 ^ (64 - b)) (2 ^ b)) split

  -- The lower half of a shift to the right: the low bits of `hi` above the high bits of `lo`.
  low_half :
      (hi lo : ℕ)
      → lo < 2 ^ 64
      → bit_or (shl64 hi (64 - b)) (lo / 2 ^ b) ≡ hi % 2 ^ b * 2 ^ (64 - b) + lo / 2 ^ b
  low_half hi lo lb =
      let p = 2 ^ b in
      let q = 2 ^ (64 - b) in
      let up = mul_fields q p (2 ^ 64) unsplit (two_pow_pos _) (two_pow_pos _) hi in
      let low = low_field-le q p (2 ^ 64) unsplit (two_pow_pos _) (two_pow_pos _) hi in
      let top = high_field-lt q p (2 ^ 64) unsplit (two_pow_pos _) (two_pow_pos _) lo lb in
      let moved : shl64 hi (64 - b) ≡ hi % p * q = omega (arith, two_pow_pos (64 - b)) in
      rw moved (bit_or_fields (64 - b) (hi % p) (lo / p) top)

  -- The halves of a logical shift to the right.
  hshr_small :
      (hi lo : ℕ)
      → lo < 2 ^ 64
      → hi / 2 ^ b * 2 ^ 64 + bit_or (shl64 hi (64 - b)) (lo / 2 ^ b) ≡ (hi * 2 ^ 64 + lo) / 2 ^ b
  hshr_small hi lo lb =
      let p = 2 ^ b in
      let joined = low_half hi lo lb in
      sym (
        div_unique _ p _ (lo % p)
          (omega (
            arith,
            joined,
            div-add-mod' hi p,
            div-add-mod' lo p,
            ap (λ (t : ℕ). t * p) joined,
            ap (λ (t : ℕ). hi % p * t) unsplit,
          ))
          (mod-lt lo (two_pow_pos b)))

  -- The lower halves of the shifts of a number and of its complement are complements.
  hshra_low :
      (hi lo : ℕ)
      → hi < 2 ^ 64
      → lo < 2 ^ 64
      → bit_or (shl64 hi (64 - b)) (lo / 2 ^ b)
          + bit_or (shl64 (2 ^ 64 - 1 - hi) (64 - b)) ((2 ^ 64 - 1 - lo) / 2 ^ b)
        ≡ 2 ^ 64 - 1
  hshra_low hi lo hb lb =
      let p = 2 ^ b in
      let q = 2 ^ (64 - b) in
      let m = complement-mod p q (2 ^ 64) split (two_pow_pos _) (two_pow_pos _) hi hb in
      let d = complement-div p q (2 ^ 64) split (two_pow_pos _) (two_pow_pos _) lo lb in
      let top = high_field-lt q p (2 ^ 64) unsplit (two_pow_pos _) (two_pow_pos _) lo lb in
      let fits : p - 1 - hi % p + hi % p + 1 ≡ p = omega (arith, mod-lt hi (two_pow_pos b)) in
      rw (low_half hi lo lb, low_half (2 ^ 64 - 1 - hi) (2 ^ 64 - 1 - lo) (omega arith), m, d)
        (omega (arith, split, ap (λ (t : ℕ). t * q) fits))

-- From 64 on, a shift first moves whole words.
beyond : (b : ℕ) → 64 ≤ b → 2 ^ b ≡ 2 ^ 64 * 2 ^ (b - 64)
beyond b h = let e : 64 + (b - 64) ≡ b = omega arith in rw e at (two_pow-add 64 (b - 64))

hshr_large : (b hi lo : ℕ) → 64 ≤ b → lo < 2 ^ 64 → hi / 2 ^ (b - 64) ≡ (hi * 2 ^ 64 + lo) / 2 ^ b
hshr_large b hi lo h lb =
    rw (beyond b h, ← div-div-eq-div-mul (hi * 2 ^ 64 + lo) (2 ^ 64) (2 ^ (b - 64)))
      (let e : (hi * 2 ^ 64 + lo) / 2 ^ 64 ≡ hi = omega arith in rw e)

-- `hshl` multiplies by `2 ^ b` modulo 2 ^ 128.
pub hshl-value :
    (a : Thuge) (b : ℕ) → IsHuge a → b < 128 → value (hshl a b) ≡ value a * 2 ^ b % 2 ^ 128
unfolding hshl
hshl-value a b w small = elim (Bool-cases (leb 64 b)) [
  | inl e ↦ rw e (omega (arith, ap (λ (t : ℕ). value a * t) (beyond b (leb→le 64 b e))))
  | inr e ↦ elim (Bool-cases (b == 0)) [
    | inl z ↦ rw (e, z) (rw ((==_iff b 0).0 z) (omega (arith, w.hi_fits, w.lo_fits)))
    | inr z ↦ rw (e, z) (hshl_small b (ground arith) a.hi a.lo w.hi_fits w.lo_fits)
  ]
]

-- `hshr` divides the unsigned number by `2 ^ b`, rounding down.
pub hshr-value : (a : Thuge) (b : ℕ) → IsHuge a → b < 128 → value (hshr a b) ≡ value a / 2 ^ b
unfolding hshr
hshr-value a b w small = elim (Bool-cases (leb 64 b)) [
  | inl e ↦ rw e (omega (arith, hshr_large b a.hi a.lo (leb→le 64 b e) w.lo_fits))
  | inr e ↦ elim (Bool-cases (b == 0)) [
    | inl z ↦ rw (e, z) (rw ((==_iff b 0).0 z) (omega arith))
    | inr z ↦ rw (e, z) (hshr_small b (ground arith) a.hi a.lo w.lo_fits)
  ]
]

module _ (a : Thuge) (b : ℕ) (w : IsHuge a) (small : b < 128) where
  abbrev hi' : ℕ
  hi' = 2 ^ 64 - 1 - a.hi

  abbrev lo' : ℕ
  lo' = 2 ^ 64 - 1 - a.lo

  complement : 2 ^ 128 - 1 - value a ≡ hi' * 2 ^ 64 + lo'
  complement = omega (arith, w.hi_fits, w.lo_fits)

  -- A negative number is shifted as the complement of its complement.
  hshra_negative :
      hugesign a ≡ true → value (hshra a b) ≡ 2 ^ 128 - 1 - (hi' * 2 ^ 64 + lo') / 2 ^ b
  unfolding hshra
  hshra_negative s = elim (Bool-cases (leb 64 b)) [
    | inl e ↦
        rw (s, e)
          (omega (
            arith,
            hshr_large b hi' lo' (leb→le 64 b e) (omega arith),
            div-le_self hi' (2 ^ (b - 64)),
          ))
    | inr e ↦ elim (Bool-cases (b == 0)) [
      | inl z ↦ rw (e, z) (rw ((==_iff b 0).0 z) (omega (arith, w.hi_fits, w.lo_fits)))
      | inr z ↦
          rw (s, e, z)
            (omega (
              arith,
              hshr_small b (ground arith) hi' lo' (omega arith),
              hshra_low b (ground arith) a.hi a.lo w.hi_fits w.lo_fits,
              div-le_self hi' (2 ^ b),
            ))
    ]
  ]

  -- A shift of a number that is not negative is the logical one.
  hshra-eq-hshr : hugesign a ≡ false → hshra a b ≡ hshr a b
  unfolding hshra hshr
  hshra-eq-hshr s = rw s

  -- `hshra` divides the signed number by `2 ^ b`, rounding down.
  pub hshra-value :
      value (hshra a b)
      ≡ (if hugesign a then 2 ^ 128 - 1 - (2 ^ 128 - 1 - value a) / 2 ^ b else value a / 2 ^ b)
  hshra-value = elim (Bool-cases (hugesign a)) [
    | inl s ↦ rw (s, complement) (hshra_negative s)
    | inr s ↦ rw (s, hshra-eq-hshr s) (hshr-value a b w small)
  ]
