-- ===== src/Reloc/Overflow.antt =====
-- `reloc_field_overflow` against the ranges of signed and unsigned numbers.
use native.Mathlib.Nat.{pow-le-pow_right, div-add-mod', mod-lt}
use vasm_ext.Common.Bits.{bit_and-zero}
use vasm_ext.Common.Power.{two_pow_pos}
use vasm_ext.Common.Word.{cpl64}
use vasm_ext.Common.{
  ℕ, ◌-◌, ◌^◌, ◌≤◌, ◌<◌, ◌≡◌, ◌⊎◌, inl, inr, arith, bit_and, Bool, not, ◌&&◌, ◌||◌, Bool-cases, ltb,
  leb, leb→le, ◌==◌, if◌then◌else◌,
}
use vasm_ext.HugeInt.Range.{masked, quotient-zero, quotient_full}
use vasm_ext.Reloc.{reloc_field_overflow, first_cpu_reloc, rel_mod_s, rel_mod_u}
use vasm_ext.Supp.Bitfield.{makemask-eq}
use vasm_ext.Supp.{makemask}

module _ (k : ℕ) (small : k < 64) (x : ℕ) (fits : x < 2 ^ 64) where
  power : 2 ^ k ≤ 2 ^ 63
  power = pow-le-pow_right (omega arith) {i = k} {j = 63} (omega arith)

  upper_mask : cpl64 (makemask k) ≡ 2 ^ 64 - 2 ^ k
  upper_mask = rw (makemask-eq k (omega arith)) (omega (arith, power, two_pow_pos k))

  mask_clear : (bit_and x (cpl64 (makemask k)) == 0) ≡ ltb x (2 ^ k)
  mask_clear =
      rw (upper_mask, masked k small x fits)
        (ground
          (arith, quotient-zero k small x fits, div-add-mod' x (2 ^ k), mod-lt x (two_pow_pos k)))

  mask_full : (bit_and x (cpl64 (makemask k)) == cpl64 (makemask k)) ≡ leb (2 ^ 64 - 2 ^ k) x
  mask_full =
      rw (upper_mask, masked k small x fits)
        (ground (arith, quotient_full k small x fits, div-add-mod' x (2 ^ k)))

-- All 64 bits may be the field.
above_clear :
    (n x : ℕ) → n ≤ 64 → x < 2 ^ 64 → (bit_and x (cpl64 (makemask n)) == 0) ≡ ltb x (2 ^ n)
above_clear n x h fits = elim (Bool-cases (leb 64 n)) [
  | inl e ↦
      let whole : n ≡ 64 = omega (arith, leb→le 64 n e) in rw (whole, bit_and-zero x) (ground arith)
  | inr e ↦ mask_clear n (ground arith) x fits
]

top_field : (n : ℕ) → n ≤ 64 → (2 ^ n ≤ 2 ^ 63) ⊎ (2 ^ (n - 1) ≡ 2 ^ 63)
top_field n h = elim (Bool-cases (leb 64 n)) [
  | inl e ↦ let whole : n ≡ 64 = omega (arith, leb→le 64 n e) in inr (rw whole)
  | inr e ↦ inl (power n (ground arith) 0 (omega arith))
]

-- The numbers of a field of `n` bits: in two's complement, unsigned, or in one of the two ways.
abbrev pub in_field : ℕ → ℕ → ℕ → Bool
in_field t n x =
    let signed_range = ltb x (2 ^ (n - 1)) || leb (2 ^ 64 - 2 ^ (n - 1)) x in
    if ltb t first_cpu_reloc && rel_mod_s t
    then signed_range
    else if ltb t first_cpu_reloc && rel_mod_u t
    then ltb x (2 ^ n)
    else ltb x (2 ^ n) || signed_range

-- For a field of 1 to 64 bits, the test reports the numbers that are out of the range of the
-- relocation's type: in two's complement if it is signed, unsigned, or else in both of these.
pub reloc_field_overflow-in_field :
    (t n x : ℕ) → 1 ≤ n → n ≤ 64 → x < 2 ^ 64 → reloc_field_overflow t n x ≡ not (in_field t n x)
unfolding reloc_field_overflow
reloc_field_overflow-in_field t n x pos le fits =
    let j : n - 1 < 64 = omega arith in
    let le_half = power (n - 1) j x fits in
    let top = top_field n le in
    let mono : 2 ^ (n - 1) ≤ 2 ^ n = pow-le-pow_right {n = 2} (omega arith) (omega arith) in
    rw (above_clear n x le fits, mask_clear (n - 1) j x fits, mask_full (n - 1) j x fits)
      (ground arith)
