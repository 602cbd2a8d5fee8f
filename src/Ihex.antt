-- ===== src/Ihex.antt =====
-- output_ihex.c: Intel HEX records. A target byte is an octet, the file is the list of the octets
-- written to it, and the static variables of the module are a record.
pub mod Record
mod Tests
use vasm_ext.Common.{
  ℕ, ◌+◌, ◌-◌, ◌*◌, ◌/◌, ◌%◌, ◌^◌, Bool, true, false, not, ◌&&◌, List, [], ◌∷◌, ◌++◌, length, ltb,
  ◌==◌, if◌then◌else◌,
}
use vasm_ext.Srec.Record.{hex, newline}

pub data Format : Type 0 where
  i8hex i16hex i32hex : Format

-- `buffer` has the octets of the source's buffer that are in use, `buffer_i` of them. `errors` has
-- the numbers of the messages, the last first. `junk` stands for the indeterminate `ext` and `type`
-- of an extended record in the format that has none.
pub record Ihex : Type 0 where
  pub file : List ℕ
  pub errors : List ℕ
  pub buffer : List ℕ
  pub buffer_s : ℕ
  pub addr : ℕ
  pub ext_addr : ℕ
  pub ihex_fmt : Format
  pub asciiout : Bool
  pub junk : ℕ × ℕ

-- `fprintf` of a colon and octets by `%02X`, then `write_newline`.
abbrev pub print_record : Ihex → List ℕ → Ihex
print_record s octets = record s { file = s.file ++ 58 ∷ (hex octets ++ newline s.asciiout) }

unfoldable pub write_eof_record : Ihex → Ihex
write_eof_record s = print_record s (0 ∷ 0 ∷ 0 ∷ 1 ∷ 255 ∷ [])

-- `ext` and `type` of an extended record.
abbrev pub extension : Format → ℕ → ℕ × ℕ → ℕ × ℕ
extension i8hex ext_addr junk = junk
extension i16hex ext_addr junk = (ext_addr * 2 ^ 4 % 2 ^ 16, 2)
extension i32hex ext_addr junk = (ext_addr, 4)

unfoldable pub write_extended_record : Ihex → Ihex
write_extended_record s =
    let (ext, type) = extension s.ihex_fmt s.ext_addr s.junk in
    let csum = (type + 2 + ext / 2 ^ 8 + ext) % 2 ^ 8 in
    print_record s
      (2 ∷ 0 ∷ 0 ∷ type ∷ (ext / 2 ^ 8) ∷ (ext % 2 ^ 8) ∷ ((255 - csum + 1) % 2 ^ 8) ∷ [])

-- The sum of the loop over the buffer.
unfoldable pub csum_data : ℕ → List ℕ → ℕ
csum_data csum [] = csum
csum_data csum (b ∷ bs) = csum_data ((csum + b) % 2 ^ 8) bs

-- Whether an address is too large for the format.
abbrev pub out_of_range : Format → ℕ → Bool
out_of_range i8hex last = ltb (2 ^ 16 - 1) last
out_of_range i16hex last = ltb (2 ^ 20 - 1) last
out_of_range i32hex last = false

-- The address is a `uint32_t`, so the address before it wraps.
unfoldable pub write_data_record : Ihex → Ihex
write_data_record s =
    let last = (s.addr + 2 ^ 32 - 1) % 2 ^ 32 in
    let whole = (s.addr + 2 ^ 32 - length s.buffer) % 2 ^ 32 in
    let s₁ = if out_of_range s.ihex_fmt last then record s { errors = 11 ∷ s.errors } else s in
    let ext = whole / 2 ^ 16 in
    let start = whole % 2 ^ 16 in
    let s₂ =
      if ext == s₁.ext_addr then s₁ else write_extended_record (record s₁ { ext_addr = ext }) in
    let csum = csum_data (((start + start / 2 ^ 8) % 2 ^ 8 + length s.buffer) % 2 ^ 8) s.buffer in
    let octets =
      length s.buffer
      ∷ (start / 2 ^ 8)
      ∷ (start % 2 ^ 8)
      ∷ 0
      ∷ (s.buffer ++ ((255 - csum + 1) % 2 ^ 8) ∷ []) in
    if length s.buffer == 0 then s else record (print_record s₂ octets) { buffer = [] }

unfoldable pub buffer_data : Ihex → ℕ → Ihex
buffer_data s b =
    let s' = record s { buffer = s.buffer ++ b ∷ []; addr = (s.addr + 1) % 2 ^ 32 } in
    if length s'.buffer == s.buffer_s then write_data_record s' else s'
