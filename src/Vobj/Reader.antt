-- ===== src/Vobj/Reader.antt =====
-- What `read_number` makes of the octets of a number, by its head.
use native.Mathlib.Nat.{pow-suc, one-le-pow, pow-le-pow_right, mul-le-mul_right, mod-eq_of_lt}
use vasm_ext.Common.Bits.{bit_and_mask, bit_or_fields, bit_or_split, bit_or-zero}
use vasm_ext.Common.Octets.{le_value, IsOctets, power_of_octets}
use vasm_ext.Common.Power.{two_pow-add, two_pow_pos}
use vasm_ext.Common.Word.{shl64, cpl64}
use vasm_ext.Common.{
  ℕ, suc, ◌+◌, ◌-◌, ◌*◌, ◌%◌, ◌^◌, ◌≤◌, ◌<◌, ◌≡◌, refl, sym, ◌∙◌, ap, arith, bit_and, bit_or, Bool,
  true, false, some, List, [], ◌∷◌, ◌++◌, length, length-append, leb, ltb, if◌then◌else◌, inl, inr,
  Bool-cases,
}
use vasm_ext.Supp.{makemask}
use vasm_ext.Vobj.{read_number, read_low_octets, sign_extended}

-- The fields of an octet that is written into a number: `h` above it and `low` below.
into_field :
    (i h low b : ℕ)
    → b < 256
    → low < 2 ^ i
    → bit_or (h * 256 * 2 ^ i + low) (b * 2 ^ i) ≡ (h * 256 + b) * 2 ^ i + low
into_field i h low b bb lb =
    let zero_low : b * 2 ^ i ≡ b * 2 ^ i + 0 = omega arith in
    rw
      (
        zero_low,
        bit_or_split i (h * 256) low b 0 lb (one-le-pow i 2 (omega arith)),
        bit_or_fields 8 h b bb,
        bit_or-zero low,
      )
      refl

shift_in : (i b : ℕ) → b < 256 → i + 8 ≤ 64 → (if leb 64 i then 0 else shl64 b i) ≡ b * 2 ^ i
shift_in i b bb h =
    let small : leb 64 i ≡ false = ground arith in
    let fits : 2 ^ (i + 8) ≤ 2 ^ 64 = pow-le-pow_right {n = 2} (omega arith) h in
    let room : b * 2 ^ i < 2 ^ 64 =
      omega (arith, two_pow-add i 8, two_pow_pos i, mul-le-mul_right (2 ^ i) bb) in
    rw (small, mod-eq_of_lt room) refl

-- The octets of the list take the place of the 0 bits below `h`.
read_low_octets-append :
    (l rest : List ℕ) (i h low : ℕ)
    → IsOctets l
    → i + length l * 8 ≤ 64
    → low < 2 ^ i
    → read_low_octets (length l) i (h * 256 ^ length l * 2 ^ i + low) (l ++ rest)
      ≡ some ((h * 256 ^ length l + le_value l) * 2 ^ i + low, rest)
unfolding read_low_octets
read_low_octets-append [] rest i h low o b lb =
    let e : h * 1 ≡ h * 1 + 0 = omega arith in rw (← e) refl
read_low_octets-append (x ∷ l) rest i h low o b lb =
    let k = length l in
    let q = 256 ^ k in
    let p = 2 ^ i in
    let power : 2 ^ (i + 8) ≡ p * 256 = two_pow-add i 8 in
    let up : h * 256 ^ suc k * p ≡ h * q * 256 * p =
      omega (arith, ap (λ (t : ℕ). h * t * p) (pow-suc 256 k)) in
    let new : (h * q * 256 + x) * p + low ≡ h * q * 2 ^ (i + 8) + (x * p + low) =
      rw power (omega arith) in
    let end : (h * q + le_value l) * 2 ^ (i + 8) + (x * p + low)
        ≡ (h * 256 ^ suc k + (x + 256 * le_value l)) * p + low =
      rw power (omega (arith, up)) in
    let fits : x * p + low < 2 ^ (i + 8) = rw power (omega (arith, mul-le-mul_right p o.0)) in
    rw
      (
        shift_in i x o.0 (omega arith),
        up,
        into_field i (h * q) low x o.0 lb,
        new,
        read_low_octets-append l rest (i + 8) h (x * p + low) o.1 (omega arith) fits,
        end,
      )
      refl

-- The octets are read into 0, and into a number whose upper bits are set.
read_plain :
    (l rest : List ℕ)
    → IsOctets l
    → length l ≤ 8
    → read_low_octets (length l) 0 0 (l ++ rest) ≡ some (le_value l, rest)
read_plain l rest o h =
    let start : 0 * 256 ^ length l * 2 ^ 0 + 0 ≡ 0 = omega arith in
    let end : (0 * 256 ^ length l + le_value l) * 2 ^ 0 + 0 ≡ le_value l = omega arith in
    rw (start, end) at (read_low_octets-append l rest 0 0 0 o (omega arith) (omega arith))

octets_of_word : (k : ℕ) → k ≤ 8 → 256 ^ (8 - k) * 256 ^ k ≡ 2 ^ 64
octets_of_word k h =
    let bits : (8 - k) * 8 + k * 8 ≡ 64 = omega arith in
    rw (power_of_octets (8 - k), power_of_octets k)
      (sym (two_pow-add ((8 - k) * 8) (k * 8)) ∙ ap (λ (t : ℕ). 2 ^ t) bits)

upper_bits : (k : ℕ) → k ≤ 8 → cpl64 (makemask (k * 8)) ≡ 2 ^ 64 - 256 ^ k
upper_bits k h = elim (Bool-cases (leb 64 (k * 8))) [
  | inl e ↦ let eight : k ≡ 8 = ground arith in rw eight refl
  | inr e ↦
      let seven : k ≤ 7 = ground arith in
      let fits : 256 ^ k ≤ 256 ^ 7 = pow-le-pow_right {n = 256} (omega arith) seven in
      let shifted : shl64 1 (k * 8) ≡ 256 ^ k = rw (← power_of_octets k) (omega arith) in
      rw (e, shifted) (omega (arith, one-le-pow k 256 (omega arith)))
]

read_negative :
    (l rest : List ℕ)
    → IsOctets l
    → length l ≤ 8
    → read_low_octets (length l) 0 (cpl64 (makemask (length l * 8))) (l ++ rest)
      ≡ some (2 ^ 64 - 256 ^ length l + le_value l, rest)
read_negative l rest o h =
    let q = 256 ^ length l in
    let upper = 256 ^ (8 - length l) - 1 in
    let pos = one-le-pow (8 - length l) 256 (omega arith) in
    let whole : 256 ^ (8 - length l) ≡ upper + 1 = omega arith in
    let product : upper * q ≡ 2 ^ 64 - q =
      omega (arith, octets_of_word (length l) h, ap (λ (t : ℕ). t * q) whole) in
    let start : upper * q * 2 ^ 0 + 0 ≡ 2 ^ 64 - q = omega (arith, product) in
    let end : (upper * q + le_value l) * 2 ^ 0 + 0 ≡ 2 ^ 64 - q + le_value l =
      omega (arith, product) in
    rw (upper_bits (length l) h)
      (rw (start, end) at (read_low_octets-append l rest 0 upper 0 o (omega arith) (omega arith)))

head_length : (k b : ℕ) → k ≤ 8 → b % 64 ≡ 0 → bit_and (b + k) 0x3f ≡ k
head_length k b h e = omega (arith, bit_and_mask 6 (b + k))

not_short : (l rest : List ℕ) → ltb (length (l ++ rest)) (length l) ≡ false
not_short l rest = let e = length-append l rest in ground arith

-- What the reader makes of the head and the octets.
pub read_counted_high :
    (bits : ℕ) (is_signed : Bool) (l rest : List ℕ)
    → IsOctets l
    → length l ≤ 8
    → read_number bits is_signed ((0xc0 + length l) ∷ l ++ rest)
      ≡ some (2 ^ 64 - 256 ^ length l + le_value l, rest)
unfolding read_number
read_counted_high bits is_signed l rest o h =
    let k = length l in
    let a : leb (0xc0 + k) 0x7f ≡ false = ground arith in
    let b : leb 0xc0 (0xc0 + k) ≡ true = ground arith in
    let c : 0xc0 + k - 0xc0 ≡ k = omega arith in
    rw (a, head_length k 0xc0 h (omega arith), not_short l rest, b, c) (read_negative l rest o h)

pub read_counted_low :
    (bits : ℕ) (is_signed : Bool) (l rest : List ℕ)
    → IsOctets l
    → length l ≤ 8
    → read_number bits is_signed ((0x80 + length l) ∷ l ++ rest)
      ≡ some (sign_extended is_signed bits (le_value l), rest)
unfolding read_number
read_counted_low bits is_signed l rest o h =
    let k = length l in
    let a : leb (0x80 + k) 0x7f ≡ false = ground arith in
    let b : leb 0xc0 (0x80 + k) ≡ false = ground arith in
    let c : 0x80 + k - 0x80 ≡ k = omega arith in
    rw (a, head_length k 0x80 h (omega arith), not_short l rest, b, c, read_plain l rest o h) refl
