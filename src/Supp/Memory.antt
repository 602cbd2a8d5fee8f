-- ===== src/Supp/Memory.antt =====
-- `setval` and `readval`: the octets of a value and the value of the octets.
use mathlib.Core.List.{reverse, reverse-reverse, append_assoc}
use native.Mathlib.Nat.{pow-succ', one-le-pow, pow-le-pow_right}
use vasm_ext.Common.Octets.{
  le_value, IsOctets, horner, horner-reverse, length-reverse, le_value-lt, IsOctets-reverse,
}
use vasm_ext.Common.Power.{mod-mul}
use vasm_ext.Common.Run.{ok}
use vasm_ext.Common.Word.{add64, shl64, shr64}
use vasm_ext.Common.{
  ℕ, zero, suc, ◌+◌, ◌*◌, ◌/◌, ◌%◌, ◌^◌, ◌≤◌, ◌<◌, ◌≡◌, refl, ap, ◌∙◌, arith, Bool, true, false,
  List, [], ◌∷◌, ◌++◌, length, ltb,
}
use vasm_ext.Supp.{readval, setval, read_bytes, write_bytes, fw8, fw32}

horner_mod :
    (a b : ℕ) (l : List ℕ) → a % 2 ^ 64 ≡ b % 2 ^ 64 → horner a l % 2 ^ 64 ≡ horner b l % 2 ^ 64
horner_mod a b [] h = h
horner_mod a b (x ∷ l) h = horner_mod (a * 256 + x) (b * 256 + x) l (omega arith)

read_bytes-value : (l : List ℕ) (val : ℕ) → val < 2 ^ 64 → read_bytes val l ≡ horner val l % 2 ^ 64
unfolding read_bytes
read_bytes-value [] val h = omega arith
read_bytes-value (s ∷ l) val h =
    read_bytes-value l (add64 (shl64 val 8) s) (omega arith)
    ∙ horner_mod _ (val * 256 + s) l (omega arith)

write_bytes-value :
    (size val : ℕ)
    → IsOctets (write_bytes size val)
      × (length (write_bytes size val) ≡ size)
      × (le_value (write_bytes size val) ≡ val % 256 ^ size)
unfolding write_bytes
write_bytes-value zero val = (tt, refl, omega arith)
write_bytes-value (suc size) val =
    let (o, l, e) = write_bytes-value size (val / 2 ^ 8) in
    let m = mod-mul val 256 (256 ^ size) (omega arith) (one-le-pow size 256 (omega arith)) in
    let digits = rw (← pow-succ' 256 size) at m in ((omega arith, o), omega arith, omega arith)

-- Reading the octets from the high end gives their number.
read_octets_value : (l : List ℕ) → IsOctets l → length l ≤ 8 → read_bytes 0 (reverse l) ≡ le_value l
read_octets_value l o h =
    let bound : 256 ^ length l ≤ 256 ^ 8 = pow-le-pow_right (omega arith) h in
    read_bytes-value (reverse l) 0 (omega arith)
    ∙ ap (λ n. n % 2 ^ 64) (horner-reverse 0 l)
    ∙ omega (arith, le_value-lt l o)

-- A value that is written with a size of at most 8 octets, in either order, is read back modulo
-- `256 ^ size`.
pub readval-setval :
    (be : Bool) (size val : ℕ)
    → size ≤ 8
    → (d : List ℕ) × (setval be size val ≡ ok d)
      × (length d ≡ size)
      × (readval be d ≡ ok (val % 256 ^ size))
unfolding setval readval
readval-setval true size val le =
    let (o, l, e) = write_bytes-value size val in
    let d = write_bytes size val in
    let fits : ltb 8 size ≡ false = ground arith in
    let back : length (reverse d) ≡ size = length-reverse d ∙ l in
    (reverse d, rw fits, back, rw (back, fits) (ap ok (read_octets_value d o (omega arith) ∙ e)))
readval-setval false size val le =
    let (o, l, e) = write_bytes-value size val in
    let d = write_bytes size val in
    let fits : ltb 8 size ≡ false = ground arith in
    (d, rw fits, l, rw (l, fits) (ap ok (read_octets_value d o (omega arith) ∙ e)))

-- Up to 8 octets are read as a number that they can hold.
pub readval-value :
    (be : Bool) (l : List ℕ)
    → IsOctets l
    → length l ≤ 8
    → (v : ℕ) × (readval be l ≡ ok v) × (v < 256 ^ length l)
unfolding readval
readval-value true l o h =
    let fits : ltb 8 (length l) ≡ false = ground arith in
    let r : read_bytes 0 l ≡ le_value (reverse l) =
      rw reverse-reverse at
        (read_octets_value (reverse l) (IsOctets-reverse l o) (omega (arith, length-reverse l))) in
    (
      le_value (reverse l),
      rw fits (ap ok r),
      rw (length-reverse l) at (le_value-lt (reverse l) (IsOctets-reverse l o)),
    )
readval-value false l o h =
    let fits : ltb 8 (length l) ≡ false = ground arith in
    (le_value l, rw fits (ap ok (read_octets_value l o h)), le_value-lt l o)

four :
    (f : List ℕ) (a b c d : ℕ)
    → (((f ++ a ∷ []) ++ b ∷ []) ++ c ∷ []) ++ d ∷ [] ≡ f ++ a ∷ b ∷ c ∷ d ∷ []
four f a b c d = rw (append_assoc, append_assoc, append_assoc)

-- The octets that `fw32` appends to a file are those that `setval` stores.
pub fw32-setval :
    (f : List ℕ) (x : ℕ) (be : Bool)
    → (d : List ℕ) × (setval be 4 x ≡ ok d) × (fw32 f x be ≡ f ++ d)
unfolding setval fw32 write_bytes fw8
fw32-setval f x be =
    let two : shr64 (shr64 x 8) 8 ≡ shr64 x 16 = omega arith in
    let three : shr64 (shr64 (shr64 x 8) 8) 8 ≡ shr64 x 24 = omega arith in
    elim be as (λ b. (d : List ℕ) × (setval b 4 x ≡ ok d) × (fw32 f x b ≡ f ++ d)) [
      | true ↦ (_, refl, rw (three, two) (four f _ _ _ _))
      | false ↦ (_, refl, rw (three, two) (four f _ _ _ _))
    ]
