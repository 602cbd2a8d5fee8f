-- ===== src/Vobj/Octet.antt =====
-- The octets that a `taddr` is written with, and the number that they are.
use native.Mathlib.Nat.{pow-suc, one-le-pow}
use mathlib.Core.List.{append_assoc, append-nil}
use vasm_ext.Common.Bits.{bit_and_mask}
use vasm_ext.Common.Octets.{le_value, IsOctets}
use vasm_ext.Common.Power.{mod-mul}
use vasm_ext.Common.{
  ℕ, zero, suc, ◌+◌, ◌-◌, ◌*◌, ◌/◌, ◌%◌, ◌^◌, ◌<◌, ◌≡◌, refl, ap, arith, bit_and, List, [], ◌∷◌,
  ◌++◌, length, ltb, ltb→lt, inl, inr, Bool-cases,
}
use vasm_ext.HugeInt.{shra64}
use vasm_ext.Supp.{fw8}
use vasm_ext.Vobj.{write_low_octets}

-- The octets from the lowest on.
abbrev pub octets : ℕ → ℕ → List ℕ
octets zero w = []
octets (suc n) w = w % 256 ∷ octets n (shra64 w 8)

pub low_octet : (w : ℕ) → bit_and w 255 ≡ w % 256
low_octet w = bit_and_mask 8 w

pub write_low_octets-append :
    (n : ℕ) (f : List ℕ) (w : ℕ) → write_low_octets n f w ≡ f ++ octets n w
unfolding write_low_octets fw8
write_low_octets-append zero f w = rw append-nil
write_low_octets-append (suc n) f w =
    let small : w % 256 % 2 ^ 8 ≡ w % 256 = omega arith in
    rw
      (low_octet w, small, write_low_octets-append n (f ++ w % 256 ∷ []) (shra64 w 8), append_assoc)
      refl

pub octets-IsOctets : (n w : ℕ) → IsOctets (octets n w)
octets-IsOctets zero w = tt
octets-IsOctets (suc n) w = (omega arith, octets-IsOctets n (shra64 w 8))

pub length-octets : (n w : ℕ) → length (octets n w) ≡ n
length-octets zero w = refl
length-octets (suc n) w = ap suc (length-octets n (shra64 w 8))

positive : (w : ℕ) → w < 2 ^ 63 → shra64 w 8 ≡ w / 256
positive w h = ground arith

negative : (x : ℕ) → x < 2 ^ 63 → shra64 (2 ^ 64 - 1 - x) 8 ≡ 2 ^ 64 - 1 - x / 256
negative x h = ground arith

modulus : (n w : ℕ) → w % 256 ^ suc n ≡ w % 256 + 256 * (w / 256 % 256 ^ n)
modulus n w =
    let e : 256 ^ suc n ≡ 256 * 256 ^ n = omega (arith, pow-suc 256 n) in
    rw (e, mod-mul w 256 (256 ^ n) (omega arith) (one-le-pow n 256 (omega arith))) refl

pub octets_positive : (n w : ℕ) → w < 2 ^ 63 → le_value (octets n w) ≡ w % 256 ^ n
octets_positive zero w h = omega arith
octets_positive (suc n) w h =
    rw (positive w h, modulus n w) (omega (arith, octets_positive n (w / 256) (omega arith)))

pub octets_negative :
    (n x : ℕ) → x < 2 ^ 63 → le_value (octets n (2 ^ 64 - 1 - x)) + x % 256 ^ n + 1 ≡ 256 ^ n
octets_negative zero x h = omega arith
octets_negative (suc n) x h =
    rw (negative x h, modulus n x)
      (omega (arith, octets_negative n (x / 256) (omega arith), pow-suc 256 n))

pub le_value-octets_lt : (n w : ℕ) → le_value (octets n w) < 256 ^ n
le_value-octets_lt zero w = omega arith
le_value-octets_lt (suc n) w = omega (arith, le_value-octets_lt n (shra64 w 8), pow-suc 256 n)

-- Eight of them are the whole value.
pub le_value-octets : (w : ℕ) → w < 2 ^ 64 → le_value (octets 8 w) ≡ w
le_value-octets w h = elim (Bool-cases (ltb w (2 ^ 63))) [
  | inl e ↦ omega (arith, octets_positive 8 w (ltb→lt w (2 ^ 63) e))
  | inr e ↦
      let back : 2 ^ 64 - 1 - (2 ^ 64 - 1 - w) ≡ w = omega arith in
      let n = octets_negative 8 (2 ^ 64 - 1 - w) (ground arith) in
      let m = rw back at n in omega arith
]
