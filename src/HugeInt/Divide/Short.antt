-- ===== src/HugeInt/Divide/Short.antt =====
-- The branch of `divmod` for a divisor below 2 ^ 32, against division of numbers.
use native.Mathlib.Nat.{div-le_self, div-add-mod', mod-lt, div-lt_iff_lt-mul}
use vasm_ext.Common.Run.{ok}
use vasm_ext.Common.Power.{div_unique, mod_unique}
use vasm_ext.Common.Bits.{bit_or_fields, bit_and_mask}
use vasm_ext.Common.{ℕ, ◌+◌, ◌*◌, ◌/◌, ◌%◌, ◌^◌, ◌<◌, ◌≡◌, sym, arith, [], ◌∷◌}
use vasm_ext.HugeInt.{Thuge, huge_zero, hihalf, lohalf, base}
use vasm_ext.HugeInt.Value.{value, IsHuge, of_value}
use vasm_ext.HugeInt.Divide.{divmod, divmod_digit, combine, significant, digits}

combine-eq : (r u : ℕ) → r < 2 ^ 32 → u < 2 ^ 32 → combine r u ≡ r * 2 ^ 32 + u
combine-eq r u h k =
    let whole : r * 2 ^ 32 % 2 ^ 64 ≡ r * 2 ^ 32 = omega arith in rw whole (bit_or_fields 32 r u k)

-- One digit of the quotient and what is left.
module _ (t : ℕ) (t_pos : 0 < t) (t_fits : t < 2 ^ 32) where
  round-lt : (r u : ℕ) → r < t → u < 2 ^ 32 → (r * 2 ^ 32 + u) / t < 2 ^ 32
  round-lt r u h k = (div-lt_iff_lt-mul t_pos).1 (omega arith)

  module _ (u₁ u₂ u₃ u₄ : ℕ) (h₁ : u₁ < 2 ^ 32) (h₂ : u₂ < 2 ^ 32) (h₃ : u₃ < 2 ^ 32)
      (h₄ : u₄ < 2 ^ 32) where
    abbrev r₁ : ℕ
    r₁ = u₁ % t * 2 ^ 32 + u₂

    abbrev r₂ : ℕ
    r₂ = r₁ % t * 2 ^ 32 + u₃

    abbrev r₃ : ℕ
    r₃ = r₂ % t * 2 ^ 32 + u₄

    long_division :
        ((u₁ * 2 ^ 32 + u₂) * 2 ^ 32 + u₃) * 2 ^ 32 + u₄
        ≡ (((u₁ / t * 2 ^ 32 + r₁ / t) * 2 ^ 32 + r₂ / t) * 2 ^ 32 + r₃ / t) * t + r₃ % t
    long_division =
        omega (arith, div-add-mod' u₁ t, div-add-mod' r₁ t, div-add-mod' r₂ t, div-add-mod' r₃ t)

half-lt : (x : ℕ) → x < 2 ^ 64 → hihalf x < 2 ^ 32
half-lt x h = omega arith

low-lt : (x : ℕ) → lohalf x < 2 ^ 32
low-lt x = omega (arith, bit_and_mask 32 x)

halves : (x : ℕ) → hihalf x * 2 ^ 32 + lohalf x ≡ x
halves x = omega (arith, bit_and_mask 32 x)

module _ (t : ℕ) (t_pos : 0 < t) (t_fits : t < 2 ^ 32) where
  joined : (r u : ℕ) → u < 2 ^ 32 → combine (r % t) u ≡ r % t * 2 ^ 32 + u
  joined r u h = combine-eq (r % t) u (omega (arith, mod-lt r t_pos)) h

  digit : (r u : ℕ) → u < 2 ^ 32 → (r % t * 2 ^ 32 + u) / t % base ≡ (r % t * 2 ^ 32 + u) / t
  digit r u h = omega (arith, round-lt t t_pos t_fits (r % t) u (mod-lt r t_pos) h)

  -- Each pair of digits of the quotient fits a word.
  pair :
      (r u s v : ℕ)
      → u < 2 ^ 32
      → v < 2 ^ 32
      → combine ((r % t * 2 ^ 32 + u) / t % base) ((s % t * 2 ^ 32 + v) / t % base)
        ≡ (r % t * 2 ^ 32 + u) / t * 2 ^ 32 + (s % t * 2 ^ 32 + v) / t
  pair r u s v h k =
      rw (digit r u h, digit s v k)
        (combine-eq _ _ (round-lt t t_pos t_fits (r % t) u (mod-lt r t_pos) h)
          (round-lt t t_pos t_fits (s % t) v (mod-lt s t_pos) k))

  first_pair :
      (u s v : ℕ)
      → u < 2 ^ 32
      → v < 2 ^ 32
      → combine (u / t % base) ((s % t * 2 ^ 32 + v) / t % base)
        ≡ u / t * 2 ^ 32 + (s % t * 2 ^ 32 + v) / t
  first_pair u s v h k =
      let below : u / t < 2 ^ 32 = omega (arith, div-le_self u t) in
      let whole : u / t % base ≡ u / t = omega arith in
      rw (whole, digit s v k)
        (combine-eq _ _ below (round-lt t t_pos t_fits (s % t) v (mod-lt s t_pos) k))

  divmod_digit-rest :
      (a : Thuge) → IsHuge a → value a ≡ value (divmod_digit a t).0 * t + value (divmod_digit a t).1
  unfolding divmod_digit
  divmod_digit-rest a w =
      let h₁ = half-lt a.hi w.hi_fits in
      let h₃ = half-lt a.lo w.lo_fits in
      let r₁ = hihalf a.hi % t * 2 ^ 32 + lohalf a.hi in
      let r₂ = r₁ % t * 2 ^ 32 + hihalf a.lo in
      rw
        (
          joined (hihalf a.hi) (lohalf a.hi) (low-lt a.hi),
          joined r₁ (hihalf a.lo) h₃,
          joined r₂ (lohalf a.lo) (low-lt a.lo),
          first_pair (hihalf a.hi) (hihalf a.hi) (lohalf a.hi) h₁ (low-lt a.hi),
          pair r₁ (hihalf a.lo) r₂ (lohalf a.lo) h₃ (low-lt a.lo),
        )
        (omega (
          arith,
          halves a.hi,
          halves a.lo,
          long_division t t_pos t_fits (hihalf a.hi) (lohalf a.hi) (hihalf a.lo) (lohalf a.lo) h₁
              (low-lt a.hi) h₃ (low-lt a.lo),
        ))

combine-lt : (x y : ℕ) → y < 2 ^ 32 → combine (x % base) y < 2 ^ 64
combine-lt x y h = omega (arith, combine-eq (x % base) y (omega arith) h)

of_value-value : (h : Thuge) → h.hi < 2 ^ 64 → h.lo < 2 ^ 64 → of_value (value h) ≡ h
of_value-value h j k = ground arith

module _ (t : ℕ) (t_pos : 0 < t) (t_fits : t < 2 ^ 32) (a : Thuge) (w : IsHuge a) where
  rest-lt : value (divmod_digit a t).1 < t
  unfolding divmod_digit
  rest-lt = omega (
    arith,
    mod-lt
        (combine (combine (combine (hihalf a.hi % t) (lohalf a.hi) % t) (hihalf a.lo) % t)
          (lohalf a.lo))
        t_pos,
  )

  divmod_digit-quotient : value (divmod_digit a t).0 ≡ value a / t
  divmod_digit-quotient =
      sym (div_unique (value a) t _ _ (divmod_digit-rest t t_pos t_fits a w) rest-lt)

  divmod_digit-remainder : value (divmod_digit a t).1 ≡ value a % t
  divmod_digit-remainder =
      sym (mod_unique (value a) t _ _ (divmod_digit-rest t t_pos t_fits a w) rest-lt)

  divmod_digit-eq : divmod_digit a t ≡ (of_value (value a / t), of_value (value a % t))
  unfolding divmod_digit
  divmod_digit-eq =
      let (q, r) = divmod_digit a t in
      let qe : of_value (value a / t) ≡ q =
        rw (← divmod_digit-quotient)
          (of_value-value q (combine-lt _ _ (omega arith)) (combine-lt _ _ (omega arith))) in
      let re : of_value (value a % t) ≡ r = rw (← divmod_digit-remainder) (
        of_value-value r (omega arith) (
          omega (
            arith,
            mod-lt
                (combine (combine (combine (hihalf a.hi % t) (lohalf a.hi) % t) (hihalf a.lo) % t)
                  (lohalf a.lo))
                t_pos,
          ))) in
      rw (qe, re)

one_digit :
    (b : Thuge) → IsHuge b → 0 < value b → value b < 2 ^ 32 → significant (digits b) ≡ value b ∷ []
unfolding significant
one_digit b w pos fits =
    let e : b.hi ≡ 0 = omega arith in
    let lo : lohalf b.lo ≡ b.lo = omega (arith, bit_and_mask 32 b.lo) in
    let hi : hihalf b.lo ≡ 0 = omega arith in rw (e, hi, lo) (ground arith)

-- For a divisor from 1 to 2 ^ 32 - 1, `divmod` returns the quotient and the remainder of the
-- numbers.
pub divmod_short :
    (a b : Thuge)
    → IsHuge a
    → IsHuge b
    → 0 < value b
    → value b < 2 ^ 32
    → divmod a b ≡ ok (of_value (value a / value b), of_value (value a % value b))
unfolding divmod huge_zero
divmod_short a b w x pos fits =
    let long : divmod_digit a (value b) ≡ _ = divmod_digit-eq (value b) pos fits a w in
    let small : value a < value b → value a / value b ≡ 0 =
      λ h. div_unique (value a) (value b) 0 (value a) (omega arith) h in
    let same : value a < value b → value a % value b ≡ value a =
      λ h. mod_unique (value a) (value b) 0 (value a) (omega arith) h in
    rw (one_digit b x pos fits, long) (ground (arith, small, same))
