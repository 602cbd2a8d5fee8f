-- ===== src/Supp/Fields.antt =====
-- `setbits` and `readbits` on the octets of a buffer.
use native.Mathlib.Nat.{mod-eq_of_lt, div-add-mod', pow-le-pow_right}
use vasm_ext.Common.Bits.{bit_and_mask}
use vasm_ext.Common.Octets.{IsOctets, IsOctets-take, power_of_octets}
use vasm_ext.Common.Run.{ok}
use vasm_ext.Common.{
  ℕ, ◌+◌, ◌*◌, ◌/◌, ◌%◌, ◌^◌, ◌≤◌, ◌<◌, ◌≡◌, ◌⊎◌, inl, inr, refl, ap, sym, ◌∙◌, arith, Bool, true,
  false, List, ◌++◌, length, length-append, length-take, length-drop, take, drop, take-append,
  drop-append,
}
use vasm_ext.Supp.Bitfield.{
  field, replaced, makemask-eq, replace-field, replaced-field, replaced-high, replaced-low,
  replaced-lt, field-low, field-high,
}
use vasm_ext.Supp.Memory.{readval-value, readval-setval}
use vasm_ext.Supp.{field_shift, field_fits, readval, readbits, setbits}

-- A field that a buffer of `bfsize` bits has.
pub record IsField (bfsize offset size : ℕ) : Type 0 where
  pub not_empty : 1 ≤ size
  pub within : offset + size ≤ bfsize

-- The bits of a buffer, which are those of whole octets and at most 64.
pub record IsBuffer (p : List ℕ) (bfsize : ℕ) : Type 0 where
  pub octets : IsOctets p
  pub whole : bfsize % 8 ≡ 0
  pub readable : bfsize ≤ 64
  pub available : bfsize / 8 ≤ length p

shift-within :
    (bfsize o n : ℕ) → IsField bfsize o n → (be : Bool) → field_shift be bfsize o n + n ≤ bfsize
shift-within bfsize o n w true = omega arith
shift-within bfsize o n w false = omega arith

module _ (bfsize o n : ℕ) (w : IsField bfsize o n) (whole : bfsize % 8 ≡ 0)
    (readable : bfsize ≤ 64) where
  fits_true : field_fits bfsize o n ≡ true
  fits_true = ground arith

  readbits-field :
      (be : Bool) (p : List ℕ) (v : ℕ)
      → readval be (take (bfsize / 8) p) ≡ ok v
      → readbits be p bfsize o n ≡ ok (field v (field_shift be bfsize o n) n)
  unfolding readbits
  readbits-field be p v e =
      rw
        (
          fits_true,
          e,
          makemask-eq n (omega arith),
          bit_and_mask n (v / 2 ^ field_shift be bfsize o n),
        )
        refl

-- The octets are read as a number of `bfsize` bits.
buffer-value :
    (be : Bool) (p : List ℕ) (bfsize : ℕ)
    → IsBuffer p bfsize
    → (v : ℕ) × (readval be (take (bfsize / 8) p) ≡ ok v) × (v < 2 ^ bfsize)
buffer-value be p bfsize b =
    let k = bfsize / 8 in
    let l = length-take k p b.available in
    let bits : k * 8 ≡ bfsize = omega (arith, b.whole, div-add-mod' bfsize 8) in
    let (v, e, lt) =
      readval-value be (take k p) (IsOctets-take k p b.octets) (omega (arith, l, b.readable)) in
    (v, e, rw (l, power_of_octets k, bits) at lt)

-- The fields that end before or start after a field.
abbrev pub Apart : ℕ → ℕ → ℕ → ℕ → Type 0
Apart offset size o n = (o + n ≤ offset) ⊎ (offset + size ≤ o)

module _ (bfsize offset size : ℕ) (w : IsField bfsize offset size) (readable : bfsize ≤ 64)
    (x d : ℕ) where
  abbrev new_value : Bool → ℕ
  new_value be = replaced x (field_shift be bfsize offset size) size d

  Apart-shifted :
      (be : Bool) (o n : ℕ)
      → IsField bfsize o n
      → Apart offset size o n
      → (field_shift be bfsize o n + n ≤ field_shift be bfsize offset size)
        ⊎ (field_shift be bfsize offset size + size ≤ field_shift be bfsize o n)
  Apart-shifted true o n f (inl h) = inr (omega arith)
  Apart-shifted true o n f (inr h) = inl (omega arith)
  Apart-shifted false o n f h = h

  other-field :
      (be : Bool) (o n : ℕ)
      → IsField bfsize o n
      → Apart offset size o n
      → field (new_value be) (field_shift be bfsize o n) n ≡ field x (field_shift be bfsize o n) n
  other-field be o n f h =
      let s = field_shift be bfsize offset size in
      let inside : s + size ≤ 64 = omega (arith, shift-within bfsize offset size w be) in
      elim (Apart-shifted be o n f h) [
        | inl below ↦ field-low _ _ s _ n below (replaced-low s size inside x d)
        | inr above ↦ field-high _ _ (s + size) _ n above (replaced-high s size inside x d)
      ]

-- A field of a buffer is read back with the value that was written, modulo its size; any
-- field that is apart from it, the octets behind the buffer and their number are as before.
pub readbits-setbits :
    (be : Bool) (p : List ℕ) (bfsize offset size d o n : ℕ)
    → IsBuffer p bfsize
    → IsField bfsize offset size
    → IsField bfsize o n
    → Apart offset size o n
    → (q : List ℕ) × (setbits be p bfsize offset size d ≡ ok q)
      × (length q ≡ length p)
      × (drop (bfsize / 8) q ≡ drop (bfsize / 8) p)
      × (readbits be q bfsize offset size ≡ ok (d % 2 ^ size))
      × (readbits be q bfsize o n ≡ readbits be p bfsize o n)
unfolding setbits
readbits-setbits be p bfsize offset size d o n b w f h =
    let k = bfsize / 8 in
    let s = field_shift be bfsize offset size in
    let inside = shift-within bfsize offset size w be in
    let fits : s + size ≤ 64 = omega (arith, inside, b.readable) in
    let (x, e, lt) = buffer-value be p bfsize b in
    let x_word : x < 2 ^ 64 =
      omega (arith, lt, pow-le-pow_right {n = 2} (omega arith) {i = bfsize} {j = 64} b.readable) in
    let y = replaced x s size d in
    let bits : k * 8 ≡ bfsize = omega (arith, b.whole, div-add-mod' bfsize 8) in
    let y_fits : y < 256 ^ k =
      rw (power_of_octets k, bits) (replaced-lt s size fits bfsize inside x lt d) in
    let (l, written, len, back) = readval-setval be k y (omega (arith, b.readable)) in
    let read : readval be (take k (l ++ drop k p)) ≡ ok y =
      rw (take-append k l (drop k p) len, back, mod-eq_of_lt y_fits) in
    (
      l ++ drop k p,
      rw
          (
            fits_true bfsize offset size w b.whole b.readable,
            e,
            replace-field s size fits x d x_word,
            written,
          )
          refl,
      omega (arith, length-append l (drop k p), len, length-drop k p),
      drop-append k l (drop k p) len,
      readbits-field bfsize offset size w b.whole b.readable be _ y read
          ∙ ap ok (replaced-field s size fits x d),
      readbits-field bfsize o n f b.whole b.readable be _ y read
          ∙ ap ok (other-field bfsize offset size w b.readable x d be o n f h)
          ∙ sym (readbits-field bfsize o n f b.whole b.readable be p x e),
    )
