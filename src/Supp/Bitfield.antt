-- ===== src/Supp/Bitfield.antt =====
-- `readbits` and `setbits`.
use native.Mathlib.Nat.{
  mod-lt, mod-eq_of_lt, div-div-eq-div-mul, pow-le-pow_right, mul-le-mul_right,
}
use vasm_ext.Common.Bits.{bit_and_split, bit_and_mask, bit_or_split, bit_or_fields, bit_or-zero}
use vasm_ext.Common.Power.{
  two_pow_pos, two_pow-add, pow_split, div_unique, mod_unique, mod-mul, high_field-lt,
}
use vasm_ext.Common.Word.{cpl64, shl64}
use vasm_ext.Common.{
  ℕ, ◌+◌, ◌-◌, ◌*◌, ◌/◌, ◌%◌, ◌^◌, ◌≤◌, ◌<◌, ◌≡◌, refl, ap, sym, ◌∙◌, arith, inl, inr, Bool-cases,
  leb→le, bit_and, bit_or, leb,
}
use vasm_ext.Supp.{makemask}

-- The field of `n` bits from the bit `s` on.
abbrev pub field : ℕ → ℕ → ℕ → ℕ
field x s n = x / 2 ^ s % 2 ^ n

-- A power below 2 ^ 64, or 2 ^ 64 itself.
power-le : (n : ℕ) → n ≤ 64 → 2 ^ n ≤ 2 ^ 64
power-le n h = pow-le-pow_right (omega arith) {i = n} {j = 64} h

power-lt : (n : ℕ) → n < 64 → 2 ^ n < 2 ^ 64
power-lt n h = omega (arith, pow-le-pow_right {n = 2} (omega arith) {i = n} {j = 63} (omega arith))

pub makemask-eq : (n : ℕ) → n ≤ 64 → makemask n ≡ 2 ^ n - 1
makemask-eq n h = elim (Bool-cases (leb 64 n)) [
  | inl e ↦ let whole : n ≡ 64 = omega (arith, leb→le 64 n e) in rw (e, whole)
  | inr e ↦ rw e (omega (arith, power-lt n (ground arith)))
]

low_low : (s n x : ℕ) → x % 2 ^ (s + n) % 2 ^ s ≡ x % 2 ^ s
low_low s n x =
    let both = two_pow-add s n in
    let e = mod-mul x (2 ^ s) (2 ^ n) (two_pow_pos s) (two_pow_pos n) in
    mod_unique _ (2 ^ s) (x / 2 ^ s % 2 ^ n) (x % 2 ^ s)
      (omega (arith, e, both, ap (λ (t : ℕ). x % t) both)) (mod-lt x (two_pow_pos s))

-- The bits above the field, its new value and the bits below it.
abbrev pub replaced : ℕ → ℕ → ℕ → ℕ → ℕ
replaced x s n d = (x / 2 ^ (s + n) * 2 ^ n + d % 2 ^ n) * 2 ^ s + x % 2 ^ s

module _ (s n : ℕ) (fits : s + n ≤ 64) where
  top : 2 ^ (s + n) * 2 ^ (64 - (s + n)) ≡ 2 ^ 64
  top = pow_split (s + n) 64 fits

  both : 2 ^ (s + n) ≡ 2 ^ s * 2 ^ n
  both = two_pow-add s n

  bound : 2 ^ (s + n) ≤ 2 ^ 64
  bound = power-le (s + n) fits

  low-le : 2 ^ s ≤ 2 ^ (s + n)
  low-le = pow-le-pow_right (omega arith) {i = s} {j = s + n} (omega arith)

  product : (2 ^ n - 1) * 2 ^ s ≡ 2 ^ (s + n) - 2 ^ s
  product =
      let e : (2 ^ n - 1 + 1) * 2 ^ s ≡ 2 ^ n * 2 ^ s =
        ap (λ (t : ℕ). t * 2 ^ s) (omega (arith, two_pow_pos n)) in
      omega (arith, e, both)

  mask-shifted : shl64 (makemask n) s ≡ 2 ^ (s + n) - 2 ^ s
  mask-shifted = rw (makemask-eq n (omega arith), product) (omega (arith, bound, two_pow_pos s))

  cleared_mask : cpl64 (2 ^ (s + n) - 2 ^ s) ≡ (2 ^ (64 - (s + n)) - 1) * 2 ^ (s + n) + (2 ^ s - 1)
  cleared_mask =
      let e : (2 ^ (64 - (s + n)) - 1 + 1) * 2 ^ (s + n) ≡ 2 ^ (64 - (s + n)) * 2 ^ (s + n) =
        ap (λ (t : ℕ). t * 2 ^ (s + n)) (omega (arith, two_pow_pos (64 - (s + n)))) in
      omega (arith, e, top, bound, low-le, two_pow_pos s)

  high-lt : (x : ℕ) → x < 2 ^ 64 → x / 2 ^ (s + n) < 2 ^ (64 - (s + n))
  high-lt x h =
      high_field-lt (2 ^ (64 - (s + n))) (2 ^ (s + n)) (2 ^ 64) (omega (arith, top)) (two_pow_pos _)
        (two_pow_pos _) x h

  shifted-small : (d : ℕ) → d < 2 ^ n → d * 2 ^ s % 2 ^ 64 ≡ d * 2 ^ s
  shifted-small d h =
      let e : d * 2 ^ s ≤ (2 ^ n - 1) * 2 ^ s = mul-le-mul_right (2 ^ s) (omega arith) in
      omega (arith, e, product, bound, two_pow_pos s, low-le)

  -- The value without the field.
  cleared :
      (x : ℕ)
      → x < 2 ^ 64
      → bit_and x (cpl64 (shl64 (makemask n) s)) ≡ x / 2 ^ (s + n) * 2 ^ (s + n) + x % 2 ^ s
  cleared x h =
      rw
        (
          mask-shifted,
          cleared_mask,
          bit_and_split (s + n) x (2 ^ (64 - (s + n)) - 1) (2 ^ s - 1)
              (omega (arith, low-le, two_pow_pos s)),
          bit_and_mask (64 - (s + n)) (x / 2 ^ (s + n)),
          bit_and_mask s (x % 2 ^ (s + n)),
          mod-eq_of_lt (high-lt x h),
        )
        (rw (low_low s n x) refl)

  pub replace-field :
      (x d : ℕ)
      → x < 2 ^ 64
      → bit_or (bit_and x (cpl64 (shl64 (makemask n) s))) (shl64 (bit_and d (makemask n)) s)
        ≡ replaced x s n d
  replace-field x d h =
      let high = x / 2 ^ (s + n) in
      let low = x % 2 ^ s in
      let new = d % 2 ^ n in
      let fits_new = mod-lt d (two_pow_pos n) in
      let e : high * 2 ^ (s + n) + low ≡ high * 2 ^ n * 2 ^ s + low =
        omega (arith, ap (λ (t : ℕ). high * t) both) in
      let f : new * 2 ^ s ≡ new * 2 ^ s + 0 = omega arith in
      rw (
        cleared x h,
        makemask-eq n (omega arith),
        bit_and_mask n d,
        shifted-small new fits_new,
        e,
        f,
        bit_or_split s (high * 2 ^ n) low new 0 (mod-lt x (two_pow_pos s)) (two_pow_pos s),
        bit_or_fields n high new fits_new,
        bit_or-zero low,
      )

  pub replaced-field : (x d : ℕ) → field (replaced x s n d) s n ≡ d % 2 ^ n
  replaced-field x d =
      let q : replaced x s n d / 2 ^ s ≡ x / 2 ^ (s + n) * 2 ^ n + d % 2 ^ n =
        div_unique _ (2 ^ s) _ (x % 2 ^ s) refl (mod-lt x (two_pow_pos s)) in
      rw q (mod_unique _ (2 ^ n) (x / 2 ^ (s + n)) _ refl (mod-lt d (two_pow_pos n)))

  new-lt : (x d : ℕ) → d % 2 ^ n * 2 ^ s + x % 2 ^ s < 2 ^ (s + n)
  new-lt x d =
      let le : d % 2 ^ n ≤ 2 ^ n - 1 = omega (arith, mod-lt d (two_pow_pos n)) in
      omega (
        arith,
        mul-le-mul_right (2 ^ s) le,
        product,
        mod-lt x (two_pow_pos s),
        two_pow_pos s,
        low-le,
      )

  regrouped :
      (x d : ℕ) → replaced x s n d ≡ x / 2 ^ (s + n) * 2 ^ (s + n) + (d % 2 ^ n * 2 ^ s + x % 2 ^ s)
  regrouped x d = omega (arith, ap (λ (t : ℕ). x / 2 ^ (s + n) * t) both)

  -- The rest of the value is as it was.
  pub replaced-high : (x d : ℕ) → replaced x s n d / 2 ^ (s + n) ≡ x / 2 ^ (s + n)
  replaced-high x d = div_unique _ (2 ^ (s + n)) _ _ (regrouped x d) (new-lt x d)

  pub replaced-low : (x d : ℕ) → replaced x s n d % 2 ^ s ≡ x % 2 ^ s
  replaced-low x d = mod_unique _ (2 ^ s) _ (x % 2 ^ s) refl (mod-lt x (two_pow_pos s))

  module _ (w : ℕ) (inside : s + n ≤ w) (x : ℕ) (x_fits : x < 2 ^ w) where
    pub replaced-lt : (d : ℕ) → replaced x s n d < 2 ^ w
    replaced-lt d =
        let whole : 2 ^ (w - (s + n)) * 2 ^ (s + n) ≡ 2 ^ w =
          omega (arith, pow_split (s + n) w inside) in
        let high : x / 2 ^ (s + n) < 2 ^ (w - (s + n)) =
          high_field-lt (2 ^ (w - (s + n))) (2 ^ (s + n)) (2 ^ w) whole (two_pow_pos _)
            (two_pow_pos _) x x_fits in
        let le : (x / 2 ^ (s + n) + 1) * 2 ^ (s + n) ≤ 2 ^ (w - (s + n)) * 2 ^ (s + n) =
          mul-le-mul_right (2 ^ (s + n)) (omega arith) in
        omega (arith, regrouped x d, new-lt x d, le, whole)

field-quotient : (z t n : ℕ) → z % 2 ^ (t + n) / 2 ^ t ≡ field z t n
field-quotient z t n =
    let both = two_pow-add t n in
    let e = mod-mul z (2 ^ t) (2 ^ n) (two_pow_pos t) (two_pow_pos n) in
    div_unique _ (2 ^ t) _ (z % 2 ^ t) (omega (arith, e, ap (λ (m : ℕ). z % m) both))
      (mod-lt z (two_pow_pos t))

-- A field is determined by the bits up to its end, and by those from its start.
pub field-low : (x y s t n : ℕ) → t + n ≤ s → x % 2 ^ s ≡ y % 2 ^ s → field x t n ≡ field y t n
field-low x y s t n h e =
    let from : (z : ℕ) → z % 2 ^ s % 2 ^ (t + n) ≡ z % 2 ^ (t + n) = λ z.
      (let whole : t + n + (s - (t + n)) ≡ s = omega arith in
        rw whole at (low_low (t + n) (s - (t + n)) z)) in
    let same : x % 2 ^ (t + n) ≡ y % 2 ^ (t + n) =
      sym (from x) ∙ ap (λ m. m % 2 ^ (t + n)) e ∙ from y in
    sym (field-quotient x t n) ∙ ap (λ m. m / 2 ^ t) same ∙ field-quotient y t n

pub field-high : (x y s t n : ℕ) → s ≤ t → x / 2 ^ s ≡ y / 2 ^ s → field x t n ≡ field y t n
field-high x y s t n h e =
    let split = pow_split s t h in
    let from : (z : ℕ) → z / 2 ^ s / 2 ^ (t - s) ≡ z / 2 ^ t =
      λ z. div-div-eq-div-mul z (2 ^ s) (2 ^ (t - s)) ∙ ap (λ m. z / m) split in
    ap (λ m. m % 2 ^ n) (sym (from x) ∙ ap (λ m. m / 2 ^ (t - s)) e ∙ from y)
