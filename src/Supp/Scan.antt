-- ===== src/Supp/Scan.antt =====
-- The loops over the bits of a `taddr`.
use vasm_ext.Common.Bits.{bit_and_mask}
use native.Mathlib.Nat.{div-add-mod', mod-lt, pow-succ', pow-suc}
use vasm_ext.Common.Power.{two_pow_pos, pow_split, mod_unique, mod-mul}
use vasm_ext.Common.Word.{cpl64, sign64}
use vasm_ext.Common.{
  ℕ, zero, suc, ◌+◌, ◌-◌, ◌*◌, ◌/◌, ◌%◌, ◌^◌, ◌≤◌, ◌<◌, ◌≡◌, ◌≢◌, refl, sym, ◌∙◌, arith, bit_and,
  false, ◌==◌, inl, inr, Bool-cases,
}
use vasm_ext.HugeInt.{shra64}
use vasm_ext.Supp.{countbits, count_bits, tffs, first_bit}

bit_and-one : (a : ℕ) → bit_and a 1 ≡ a % 2
bit_and-one a = bit_and_mask 1 a

count_bits-complement : (n val : ℕ) → val < 2 ^ 64 → count_bits n val + count_bits n (cpl64 val) ≡ n
unfolding count_bits
count_bits-complement zero val h = refl
count_bits-complement (suc n) val h =
    let e : shra64 (cpl64 val) 1 ≡ cpl64 (shra64 val 1) = ground arith in
    let rest = count_bits-complement n (shra64 val 1) (ground arith) in
    rw (bit_and-one, bit_and-one, e) (ground (arith, rest))

-- The bits of a number and of its complement are 64 together.
pub countbits-complement : (val : ℕ) → val < 2 ^ 64 → countbits val + countbits (cpl64 val) ≡ 64
unfolding countbits
countbits-complement val h = count_bits-complement 64 val h

-- The sign that is shifted in does not reach the lower bits.
shra64-low : (n val : ℕ) → n ≤ 63 → val < 2 ^ 64 → shra64 val 1 % 2 ^ n ≡ val / 2 % 2 ^ n
shra64-low n val le h =
    let p = 2 ^ n in
    let pos = two_pow_pos n in
    let rest = div-add-mod' (val / 2) p in
    elim (Bool-cases (sign64 val)) [
      | inl e ↦
          let e' : shra64 val 1 ≡ val / 2 + 2 ^ 63 = ground arith in
          mod_unique _ p (val / 2 / p + 2 ^ (63 - n)) _ (omega (arith, e', rest, pow_split n 63 le))
            (mod-lt (val / 2) pos)
      | inr e ↦ let e' : shra64 val 1 ≡ val / 2 = ground arith in rw e'
    ]

halved : (n val : ℕ) → val % 2 ≡ 0 → val % 2 ^ suc n ≡ 2 * (val / 2 % 2 ^ n)
halved n val e =
    let m = mod-mul val 2 (2 ^ n) (omega arith) (two_pow_pos n) in
    rw (pow-succ' 2 n) (omega (arith, m))

doubled : (k x : ℕ) → x % 2 ^ suc k ≡ 2 ^ k → 2 * (x % 2 ^ suc k) ≡ 2 ^ suc k
doubled k x e = omega (arith, e, pow-suc 2 k)

-- The scan of a number that is not 0 ends at its lowest bit.
first_bit-lowest :
    (n i val : ℕ)
    → n ≤ 64
    → val < 2 ^ 64
    → val % 2 ^ n ≢ 0
    → (k : ℕ) × (first_bit n i val ≡ i + k) × (k < n) × (val % 2 ^ suc k ≡ 2 ^ k)
unfolding first_bit
first_bit-lowest zero i val e h ne = absurd (ne (omega arith))
first_bit-lowest (suc n) i val e h ne = elim (Bool-cases (val % 2 == 0)) [
  | inl even ↦
      let low = shra64-low n val (omega arith) h in
      let half = halved n val (ground arith) in
      let (k, f, lt, m) =
        first_bit-lowest n (i + 1) (shra64 val 1) (omega arith) (ground arith)
          (λ z. ne (omega arith)) in
      (
        suc k,
        rw (bit_and-one, even) (omega (arith, f)),
        omega arith,
        halved (suc k) val (ground arith)
            ∙ doubled k (val / 2) (sym (shra64-low (suc k) val (omega arith) h) ∙ m),
      )
  | inr odd ↦ (0, rw (bit_and-one, odd) (omega arith), omega arith, ground arith)
]

-- The index that `tffs` returns for a number that is not 0 is that of its lowest bit, from 0.
pub tffs-lowest :
    (val : ℕ) → val < 2 ^ 64 → val ≢ 0 → (tffs val < 64) × (val % 2 ^ (tffs val + 1) ≡ 2 ^ tffs val)
unfolding tffs
tffs-lowest val h ne =
    let e : (val == 0) ≡ false = ground arith in
    let (k, f, lt, m) = first_bit-lowest 64 0 val (omega arith) h (λ z. ne (omega arith)) in
    let g : tffs val ≡ k = rw e (omega (arith, f)) in
    let next : k + 1 ≡ suc k = omega arith in rw (g, next) (lt, m)
