-- ===== src/Leb128/Decode.antt =====
-- A reader of LEB128 data gets back the value, and where it ends.
use native.Mathlib.Nat.{pow-suc}
use vasm_ext.Common.Bits.{bit_and_mask, bit_or_comm, bit_or_fields}
use vasm_ext.Common.{
  ℕ, zero, suc, ◌+◌, ◌-◌, ◌*◌, ◌/◌, ◌%◌, ◌^◌, ◌<◌, ◌≡◌, ◌≢◌, refl, arith, bit_and, bit_or, true,
  false, List, [], ◌∷◌, ◌++◌, ltb, ◌==◌, if◌then◌else◌, inl, inr, Bool-cases, ==_iff,
}
use vasm_ext.Leb128.{add_leb128_atom, leb128_loop}

-- An octet of 128 or more has 7 bits, and others follow it.
abbrev pub decode : List ℕ → ℕ × List ℕ
decode [] = (0, [])
decode (b ∷ bs) =
    let (value, rest) = decode bs in if ltb b 128 then (b, bs) else (b - 128 + 128 * value, rest)

continued : (b : ℕ) → b < 128 → bit_or b 128 ≡ 128 + b
continued b h = omega (arith, bit_or_comm b 128, bit_or_fields 7 1 b h)

fuel_left : (n x : ℕ) → x < 128 ^ n → x ≢ 0 → 0 < n
fuel_left zero x h ne = absurd (ne (omega arith))
fuel_left (suc n) x h ne = omega arith

loop-decode :
    (n c : ℕ) (rest : List ℕ) → c < 128 ^ n → 0 < n → decode (leb128_loop n c ++ rest) ≡ (c, rest)
unfolding leb128_loop
loop-decode zero c rest h pos = absurd (omega arith)
loop-decode (suc n) c rest h pos = elim (Bool-cases (c / 2 ^ 7 == 0)) [
  | inl e ↦
      let none : c / 2 ^ 7 ≡ 0 = (==_iff (c / 2 ^ 7) 0).0 e in
      let b : bit_and c 127 ≡ c = omega (arith, bit_and_mask 7 c) in
      let small : ltb c 128 ≡ true = ground arith in rw (e, b, small)
  | inr e ↦
      let some : c / 2 ^ 7 ≢ 0 = λ z. ground arith in
      let low : bit_and c 127 ≡ c % 128 = bit_and_mask 7 c in
      let high : bit_or (c % 128) 128 ≡ 128 + c % 128 = continued (c % 128) (omega arith) in
      let large : ltb (128 + c % 128) 128 ≡ false = ground arith in
      let left = pow-suc 128 n in
      let fits : c / 2 ^ 7 < 128 ^ n = omega arith in
      let more : 0 < n = fuel_left n (c / 2 ^ 7) fits some in
      let sum : 128 + c % 128 - 128 + 128 * (c / 2 ^ 7) ≡ c = omega arith in
      rw (e, low, high, large, loop-decode n (c / 2 ^ 7) rest fits more, sum) refl
]

-- The octets of a 64-bit value are read back as the value, whatever follows them.
pub decode-add_leb128_atom :
    (c : ℕ) (rest : List ℕ) → c < 2 ^ 64 → decode (add_leb128_atom c ++ rest) ≡ (c, rest)
unfolding add_leb128_atom
decode-add_leb128_atom c rest h = loop-decode 10 c rest (omega arith) (omega arith)
