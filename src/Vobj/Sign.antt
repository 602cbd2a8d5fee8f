-- ===== src/Vobj/Sign.antt =====
-- Version 1 of the format: numbers that are read as signed have the sign of the target's addresses.
use Prim.Native.Nat.{bit_and-bitwise}
use native.Mathlib.Nat.{pow-le-pow_right, mod-eq_of_lt, div-eq_of_lt}
use vasm_ext.Common.Bits.{bit_or_self, bit_and_shifted, bit_or_split, bit_or-zero}
use vasm_ext.Common.Power.{two_pow_pos, pow_split}
use vasm_ext.Common.Word.{shl64, cpl64}
use vasm_ext.Common.{
  ℕ, ◌+◌, ◌-◌, ◌*◌, ◌/◌, ◌^◌, ◌≤◌, ◌<◌, ◌≡◌, refl, sym, ◌∙◌, ap, arith, bit_and, bit_or, Bool, true,
  false, leb, ◌==◌, not, ◌&&◌, if◌then◌else◌, ◌⊎◌, inl, inr, Bool-cases,
}
use vasm_ext.Supp.{makemask}
use vasm_ext.Vobj.{sign_extended}

-- Numbers that are read as signed lie in the range of the target's address type.
abbrev pub Readable : ℕ → Bool → ℕ → Type 0
Readable bits is_signed val =
    (is_signed ≡ false)
    ⊎ ((0 < bits) × (bits ≤ 64) × ((val < 2 ^ (bits - 1)) ⊎ (2 ^ 64 ≤ val + 2 ^ (bits - 1))))

if_same : (c : Bool) (a : ℕ) → (if c then a else a) ≡ a
if_same true a = refl
if_same false a = refl

and-false : (b : Bool) → (b && false) ≡ false
and-false true = refl
and-false false = refl

zero-bit_and : (a : ℕ) → bit_and 0 a ≡ 0
zero-bit_and a = simp bit_and-bitwise

-- The bit of the sign, and the bits from it on.
sign_bit :
    (val bits : ℕ)
    → 0 < bits
    → bits ≤ 64
    → bit_and val (shl64 1 (bits - 1)) ≡ bit_and (val / 2 ^ (bits - 1)) 1 * 2 ^ (bits - 1)
sign_bit val bits pos h =
    let fits : 2 ^ (bits - 1) ≤ 2 ^ 63 =
      let le : bits - 1 ≤ 63 = omega arith in pow-le-pow_right {n = 2} (omega arith) le in
    let shifted : shl64 1 (bits - 1) ≡ 1 * 2 ^ (bits - 1) = mod-eq_of_lt (omega arith) in
    rw shifted (bit_and_shifted (bits - 1) val 1)

sign_filled :
    (val bits : ℕ)
    → 0 < bits
    → bits ≤ 64
    → val < 2 ^ 64
    → 2 ^ 64 ≤ val + 2 ^ (bits - 1)
    → bit_or val (cpl64 (makemask bits)) ≡ val
sign_filled val bits pos b h large = elim (Bool-cases (leb 64 bits)) [
  | inl e ↦ rw (e, bit_or-zero val) refl
  | inr e ↦
      let less : bits ≤ 63 = ground arith in
      let p = 2 ^ bits in
      let q = 2 ^ (64 - bits) in
      let whole : p * q ≡ 2 ^ 64 = pow_split bits 64 b in
      let half : 2 ^ (bits - 1) ≤ p =
        let le : bits - 1 ≤ bits = omega arith in pow-le-pow_right {n = 2} (omega arith) le in
      let fits : p ≤ 2 ^ 63 = pow-le-pow_right {n = 2} (omega arith) less in
      let shifted : shl64 1 bits ≡ 1 * p = mod-eq_of_lt (omega arith) in
      let one : 1 * p - 1 ≡ p - 1 = omega arith in
      let product : (q - 1) * p ≡ 2 ^ 64 - p =
        let pos_q = two_pow_pos (64 - bits) in
        let split : q ≡ q - 1 + 1 = omega arith in
        omega (arith, whole, ap (λ (t : ℕ). t * p) split) in
      let upper : cpl64 (p - 1) ≡ (q - 1) * p + 0 = omega (arith, product, two_pow_pos bits) in
      let fields : (q - 1) * p + (val + p - 2 ^ 64) ≡ val = omega (arith, product) in
      rw (e, shifted, one, upper)
        (ap (λ (t : ℕ). bit_or t ((q - 1) * p + 0)) (sym fields)
          ∙ bit_or_split bits (q - 1) (val + p - 2 ^ 64) (q - 1) 0 (omega arith) (two_pow_pos bits)
          ∙ rw (bit_or_self (q - 1), bit_or-zero (val + p - 2 ^ 64)) fields)
]

pub sign_extended-Readable :
    (bits : ℕ) (is_signed : Bool) (val : ℕ)
    → val < 2 ^ 64
    → Readable bits is_signed val
    → sign_extended is_signed bits val ≡ val
sign_extended-Readable bits is_signed val h (inl e) = rw e refl
sign_extended-Readable bits is_signed val h (inr (pos, b, inl small)) =
    let clear : (0 * 2 ^ (bits - 1) == 0) ≡ true = ground arith in
    rw (sign_bit val bits pos b, div-eq_of_lt small, zero-bit_and 1, clear, and-false is_signed)
      refl
sign_extended-Readable bits is_signed val h (inr (pos, b, inr large)) =
    rw (sign_filled val bits pos b h large)
      (if_same (is_signed && not (bit_and val (shl64 1 (bits - 1)) == 0)) val)
