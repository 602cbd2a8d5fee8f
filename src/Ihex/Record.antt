-- ===== src/Ihex/Record.antt =====
-- The lines of an Intel HEX file.
use mathlib.Core.List.{append-nil}
use vasm_ext.Common.{
  ℕ, ◌+◌, ◌-◌, ◌*◌, ◌/◌, ◌%◌, ◌^◌, ◌≤◌, ◌<◌, ◌≡◌, ◌≢◌, refl, ◌∙◌, arith, Bool, false, List, [], ◌∷◌,
  ◌++◌, length, ◌==◌, if◌then◌else◌, inl, inr, Bool-cases,
}
use vasm_ext.Srec.Record.{hex, sum, newline}
use vasm_ext.Ihex.{Ihex, i16hex, i32hex, write_extended_record, write_data_record, csum_data}

-- A record: octets, and what makes their sum a multiple of 256.
abbrev pub record_line : Bool → List ℕ → List ℕ
record_line asciiout octets =
    58 ∷ (hex (octets ++ ((256 - sum octets % 256) % 256) ∷ []) ++ newline asciiout)

-- The data record of octets at an address below 2 ^ 16.
abbrev pub data_line : Bool → ℕ → List ℕ → List ℕ
data_line asciiout start octets =
    record_line asciiout (length octets ∷ (start / 256) ∷ (start % 256) ∷ 0 ∷ octets)

csum_data-sum : (bs : List ℕ) (c : ℕ) → c < 256 → csum_data c bs ≡ (c + sum bs) % 256
unfolding csum_data
csum_data-sum [] c h = omega arith
csum_data-sum (b ∷ bs) c h = csum_data-sum bs ((c + b) % 2 ^ 8) (omega arith) ∙ omega arith

-- The extended record of a segment address has the upper half of the address shifted by 4, so the
-- base that it gives, 16 times that, is never that of an upper half of 1 to 15.
pub write_extended_record-segment :
    (s : Ihex)
    → s.ihex_fmt ≡ i16hex
    → 0 < s.ext_addr
    → s.ext_addr < 16
    → (segment : ℕ) × ((write_extended_record s).file
        ≡ s.file ++ record_line s.asciiout (2 ∷ 0 ∷ 0 ∷ 2 ∷ (segment / 256) ∷ (segment % 256) ∷ []))
      × (16 * segment ≢ s.ext_addr * 2 ^ 16)
unfolding write_extended_record
write_extended_record-segment s f pos small =
    let segment = s.ext_addr * 2 ^ 4 % 2 ^ 16 in
    let check : (255 - (2 + 2 + segment / 2 ^ 8 + segment) % 2 ^ 8 + 1) % 2 ^ 8
        ≡ (256 - (2 + (0 + (0 + (2 + (segment / 256 + (segment % 256 + 0)))))) % 256) % 256 =
      omega arith in
    (segment, rw (f, check) refl, λ e. omega arith)

-- A data record of the linear format: an extended record when the upper half of the address has
-- changed, then the line of the octets at the lower half of the address.
pub write_data_record-line :
    (s : Ihex)
    → s.ihex_fmt ≡ i32hex
    → 0 < length s.buffer
    → length s.buffer ≤ s.addr
    → s.addr < 2 ^ 32
    → (write_data_record s).file
      ≡ (s.file
          ++ (if (s.addr - length s.buffer) / 2 ^ 16 == s.ext_addr
              then []
              else record_line s.asciiout (
                  let ext = (s.addr - length s.buffer) / 2 ^ 16 in
                  2 ∷ 0 ∷ 0 ∷ 4 ∷ (ext / 256) ∷ (ext % 256) ∷ [])))
        ++ data_line s.asciiout ((s.addr - length s.buffer) % 2 ^ 16) s.buffer
unfolding write_data_record write_extended_record
write_data_record-line s f pos le fits =
    let n = length s.buffer in
    let whole = s.addr - n in
    let z : (n == 0) ≡ false = ground arith in
    let w : (s.addr + 2 ^ 32 - n) % 2 ^ 32 ≡ whole = omega arith in
    let ext = whole / 2 ^ 16 in
    let start = whole % 2 ^ 16 in
    let total =
      csum_data-sum s.buffer (((start + start / 2 ^ 8) % 2 ^ 8 + n) % 2 ^ 8) (omega arith) in
    let data_check : (255 - csum_data (((start + start / 2 ^ 8) % 2 ^ 8 + n) % 2 ^ 8) s.buffer + 1)
          % 2 ^ 8
        ≡ (256 - sum (n ∷ (start / 256) ∷ (start % 256) ∷ 0 ∷ s.buffer) % 256) % 256 =
      omega (arith, total) in
    let ext_check : (255 - (4 + 2 + ext / 2 ^ 8 + ext) % 2 ^ 8 + 1) % 2 ^ 8
        ≡ (256 - sum (2 ∷ 0 ∷ 0 ∷ 4 ∷ (ext / 256) ∷ (ext % 256) ∷ []) % 256) % 256 =
      omega arith in
    elim (Bool-cases (ext == s.ext_addr)) [
      | inl e ↦ rw (z, w, data_check, f, e, append-nil s.file) refl
      | inr e ↦ rw (z, w, data_check, f, e, ext_check) refl
    ]
