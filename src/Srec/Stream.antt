-- ===== src/Srec/Stream.antt =====
-- The records that a run of octets becomes.
use mathlib.Core.List.{append_assoc, append-nil}
use vasm_ext.Common.Word.{add64}
use vasm_ext.Common.{
  ℕ, ◌+◌, ◌^◌, ◌≤◌, ◌<◌, ◌≡◌, refl, sym, ap, ◌∙◌, arith, Bool, true, false, List, [], ◌∷◌, ◌++◌,
  length, length-append, ltb, leb, ◌==◌, if◌then◌else◌, inl, inr, Bool-cases,
}
use vasm_ext.Srec.Record.{line, write_data_buffer-line}
use vasm_ext.Srec.{Srec, write_data_buffer, put_byte_in_buffer, put_tbyte_in_buffer, put_tbytes}

-- The lines of records with consecutive addresses.
abbrev pub lines : Bool → ℕ → ℕ → List (List ℕ) → List ℕ
lines asciiout type a [] = []
lines asciiout type a (r ∷ rs) =
    line asciiout type a r ++ lines asciiout type (add64 a (length r)) rs

abbrev pub concat : List (List ℕ) → List ℕ
concat [] = []
concat (r ∷ rs) = r ++ concat rs

-- Every record has 1 to 32 octets.
abbrev pub Sized : List (List ℕ) → Type 0
Sized [] = Unit
Sized (r ∷ rs) = (0 < length r) × (length r ≤ 32) × Sized rs

-- What has been written when the buffer of `s` and the octets `bs` were, up to the state `t`.
abbrev pub Written : Srec → List ℕ → Srec → Type 0
Written s bs t =
    (rs : List (List ℕ)) × (t.file ≡ s.file ++ lines s.asciiout s.srecfmt s.srec_pc rs)
    × (concat rs ≡ s.buffer ++ bs)
    × Sized rs

module _ (s : Srec) (b : ℕ) where
  kept :
      leb 32 (length (s.buffer ++ b ∷ [])) ≡ false
      → put_tbyte_in_buffer s b ≡ record s { buffer = s.buffer ++ b ∷ []; pc = add64 s.pc 1 }
  unfolding put_tbyte_in_buffer put_byte_in_buffer
  kept e = rw e

  flushed :
      1 ≤ s.srecfmt
      → s.srecfmt ≤ 3
      → length s.buffer < 32
      → leb 32 (length (s.buffer ++ b ∷ [])) ≡ true
      → put_tbyte_in_buffer s b ≡ record s {
        file = s.file ++ line s.asciiout s.srecfmt s.srec_pc (s.buffer ++ b ∷ []);
        errors = if ltb s.srec_pc (256 ^ (s.srecfmt + 1)) then s.errors else 11 ∷ s.errors;
        srec_pc = add64 s.srec_pc (length (s.buffer ++ b ∷ []));
        buffer = [];
        pc = add64 s.pc 1;
      }
  unfolding put_tbyte_in_buffer put_byte_in_buffer
  flushed lo hi small e =
      let l = length-append s.buffer (b ∷ []) in
      let next = record s { buffer = s.buffer ++ b ∷ [] } in
      rw (e, write_data_buffer-line s.srecfmt next lo hi (omega (arith, l)) (omega (arith, l)))

empty_of_length : (xs : List ℕ) → length xs ≡ 0 → xs ≡ []
empty_of_length [] h = refl
empty_of_length (x ∷ xs) h = absurd (omega (arith, h))

-- An empty buffer is not written.
write_data_buffer-empty :
    (type : ℕ) (s : Srec) → 1 ≤ type → s.buffer ≡ [] → write_data_buffer type s ≡ s
unfolding write_data_buffer
write_data_buffer-empty type s lo e =
    let z : (length s.buffer == 0) ≡ true = rw e refl in
    let t : (type == 0) ≡ false = ground arith in rw (z, t)

-- In the formats 1 to 3 and with less than 32 octets in the buffer, octets that are put in the
-- buffer, and the buffer that is written after them, become records of 1 to 32 octets with
-- consecutive addresses from that of the buffer on, which together have the octets of the buffer
-- and then the others.
pub put_tbytes-Written :
    (bs : List ℕ) (s : Srec)
    → 1 ≤ s.srecfmt
    → s.srecfmt ≤ 3
    → length s.buffer < 32
    → Written s bs (write_data_buffer s.srecfmt (put_tbytes s bs))
unfolding put_tbytes
put_tbytes-Written [] s lo hi small = elim (Bool-cases (length s.buffer == 0)) [
  | inl e ↦
      let none = empty_of_length s.buffer (ground arith) in
      let same = write_data_buffer-empty s.srecfmt s (omega arith) none in
      ([], ap (λ t. t.file) same ∙ sym (append-nil s.file), sym (append-nil s.buffer ∙ none), tt)
  | inr e ↦ (
    s.buffer ∷ [],
    rw (write_data_buffer-line s.srecfmt s lo hi (ground arith) (omega arith)) (rw append-nil refl),
    refl,
    (ground arith, omega arith, tt),
  )
]
put_tbytes-Written (b ∷ bs) s lo hi small =
    elim (Bool-cases (leb 32 (length (s.buffer ++ b ∷ [])))) [
      | inl e ↦
          let l = length-append s.buffer (b ∷ []) in
          let next = record s {
            file = s.file ++ line s.asciiout s.srecfmt s.srec_pc (s.buffer ++ b ∷ []);
            errors = if ltb s.srec_pc (256 ^ (s.srecfmt + 1)) then s.errors else 11 ∷ s.errors;
            srec_pc = add64 s.srec_pc (length (s.buffer ++ b ∷ []));
            buffer = [];
            pc = add64 s.pc 1;
          } in
          let (rs, f, c, z) = put_tbytes-Written bs next lo hi (omega arith) in
          rw (flushed s b lo hi small e) (
            (s.buffer ++ b ∷ []) ∷ rs,
            f ∙ append_assoc s.file _ _,
            rw c (append_assoc s.buffer (b ∷ []) bs),
            (omega (arith, l), omega (arith, l), z),
          )
      | inr e ↦
          let next = record s { buffer = s.buffer ++ b ∷ []; pc = add64 s.pc 1 } in
          let (rs, f, c, z) = put_tbytes-Written bs next lo hi (ground arith) in
          rw (kept s b e) (rs, f, c ∙ append_assoc s.buffer (b ∷ []) bs, z)
    ]
