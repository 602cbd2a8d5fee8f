-- ===== src/Vobj/Number.antt =====
-- A number that is written is read back.
use mathlib.Core.List.{append_assoc}
use native.Mathlib.Nat.{pow-le-pow_right, mod-eq_of_lt}
use vasm_ext.Common.Octets.{le_value}
use vasm_ext.Common.{
  ℕ, ◌+◌, ◌-◌, ◌%◌, ◌^◌, ◌≤◌, ◌<◌, ◌≡◌, refl, arith, Bool, true, some, List, [], ◌∷◌, ◌++◌, length,
  leb, leb→le, ltb, ltb→lt, inl, inr, Bool-cases,
}
use vasm_ext.Supp.{fw8}
use vasm_ext.Vobj.Octet.{
  octets, octets-IsOctets, length-octets, write_low_octets-append, le_value-octets, octets_positive,
  octets_negative,
}
use vasm_ext.Vobj.Scan.{Counted, needed_octets-Counted}
use vasm_ext.Vobj.{write_number, write_counted, needed_octets, read_number}
use vasm_ext.Vobj.Reader.{read_counted_high, read_counted_low}
use vasm_ext.Vobj.Sign.{Readable, sign_extended-Readable}

-- What is written goes behind the octets that the file has.
write_counted-append :
    (f : List ℕ) (val s u : ℕ) → write_counted f val s u ≡ f ++ write_counted [] val s u
unfolding fw8
write_counted-append f val s u = elim (Bool-cases (ltb u s)) [
  | inl e ↦
      rw
        (
          e,
          write_low_octets-append u (f ++ (0xc0 + u) % 256 ∷ []) val,
          write_low_octets-append u ((0xc0 + u) % 256 ∷ []) val,
          append_assoc,
        )
        refl
  | inr e ↦
      rw
        (
          e,
          write_low_octets-append s (f ++ (0x80 + s) % 256 ∷ []) val,
          write_low_octets-append s ((0x80 + s) % 256 ∷ []) val,
          append_assoc,
        )
        refl
]

pub write_number-append :
    (version : ℕ) (f : List ℕ) (val : ℕ)
    → write_number version f val ≡ f ++ write_number version [] val
unfolding write_number
write_number-append version f val = elim (Bool-cases (leb val 127)) [
  | inl e ↦ rw e (unfold fw8 in refl)
  | inr e ↦
      rw e (write_counted-append f val (needed_octets version val).0 (needed_octets version val).1)
]

-- A number whose upper octets are 0xff, and one whose upper octets are 0.
upper_set :
    (val u : ℕ)
    → u < 8
    → val < 2 ^ 64
    → 2 ^ 64 ≤ val + 256 ^ u
    → 2 ^ 64 - 256 ^ u + le_value (octets u val) ≡ val
upper_set val u small h large =
    let p : 256 ^ u ≤ 256 ^ 7 =
      let le : u ≤ 7 = omega arith in pow-le-pow_right {n = 256} (omega arith) le in
    let back : 2 ^ 64 - 1 - (2 ^ 64 - 1 - val) ≡ val = omega arith in
    let n = octets_negative u (2 ^ 64 - 1 - val) (omega arith) in
    let rest : (2 ^ 64 - 1 - val) % 256 ^ u ≡ 2 ^ 64 - 1 - val = mod-eq_of_lt (omega arith) in
    omega (arith, rw (back, rest) at n)

upper_clear : (val s : ℕ) → s ≤ 8 → val < 256 ^ s → val < 2 ^ 64 → le_value (octets s val) ≡ val
upper_clear val s b small h = elim (Bool-cases (ltb s 8)) [
  | inl e ↦
      let less : s ≤ 7 = ground arith in
      let p : 256 ^ s ≤ 256 ^ 7 = pow-le-pow_right {n = 256} (omega arith) less in
      let rest : val % 256 ^ s ≡ val = mod-eq_of_lt small in
      omega (arith, octets_positive s val (omega arith), rest)
  | inr e ↦ let eight : s ≡ 8 = ground arith in rw eight (le_value-octets val h)
]

read_written :
    (bits : ℕ) (is_signed : Bool) (val s u : ℕ) (rest : List ℕ)
    → val < 2 ^ 64
    → Readable bits is_signed val
    → Counted val s u
    → read_number bits is_signed (write_counted [] val s u ++ rest) ≡ some (val, rest)
unfolding fw8
read_written bits is_signed val s u rest h r c = elim (Bool-cases (ltb u s)) [
  | inl e ↦
      let less : u < 8 = omega (arith, ltb→lt u s e, c.s_le) in
      let byte : (0xc0 + u) % 256 ≡ 0xc0 + length (octets u val) =
        omega (arith, length-octets u val) in
      rw
        (
          e,
          write_low_octets-append u ((0xc0 + u) % 256 ∷ []) val,
          byte,
          read_counted_high bits is_signed (octets u val) rest (octets-IsOctets u val)
              (omega (arith, length-octets u val)),
          length-octets u val,
          upper_set val u less h c.high,
        )
        refl
  | inr e ↦
      let byte : (0x80 + s) % 256 ≡ 0x80 + length (octets s val) =
        omega (arith, length-octets s val, c.s_le) in
      rw
        (
          e,
          write_low_octets-append s ((0x80 + s) % 256 ∷ []) val,
          byte,
          read_counted_low bits is_signed (octets s val) rest (octets-IsOctets s val)
              (omega (arith, length-octets s val, c.s_le)),
          upper_clear val s c.s_le c.low h,
          sign_extended-Readable bits is_signed val h r,
        )
        refl
]

read_small :
    (bits : ℕ) (is_signed : Bool) (val : ℕ) (rest : List ℕ)
    → val ≤ 127
    → read_number bits is_signed (val ∷ rest) ≡ some (val, rest)
unfolding read_number
read_small bits is_signed val rest h = let e : leb val 127 ≡ true = ground arith in rw e refl

-- A number of 64 bits is read back from what is written for it, and the octets behind it are left,
-- in each version of the format, if it lies in the range of the address type or is read as
-- unsigned.
pub read_number-write_number :
    (version bits : ℕ) (is_signed : Bool) (val : ℕ) (rest : List ℕ)
    → val < 2 ^ 64
    → Readable bits is_signed val
    → read_number bits is_signed (write_number version [] val ++ rest) ≡ some (val, rest)
unfolding write_number
read_number-write_number version bits is_signed val rest h r = elim (Bool-cases (leb val 127)) [
  | inl e ↦
      let small = leb→le val 127 e in
      let byte : val % 2 ^ 8 ≡ val = omega arith in
      rw e (unfold fw8 in rw byte (read_small bits is_signed val rest small))
  | inr e ↦ rw e (
      read_written bits is_signed val (needed_octets version val).0 (needed_octets version val).1
        rest h r (needed_octets-Counted version val h))
]
