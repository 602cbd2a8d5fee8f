-- ===== src/Srec.antt =====
-- output_srec.c: Motorola S-records. A target byte is an octet, the file is the list of the octets
-- written to it, and the static variables of the module are a record.
pub mod Record
pub mod Stream
mod Tests
use vasm_ext.Common.Word.{u64, add64, shr64}
use vasm_ext.Common.{
  ℕ, zero, suc, ◌+◌, ◌-◌, ◌*◌, ◌/◌, ◌%◌, ◌^◌, bit_and, bit_xor, Bool, true, false, not, ◌&&◌, ◌||◌,
  List, [], ◌∷◌, ◌++◌, length, take, ltb, leb, ◌==◌, if◌then◌else◌,
}
use vasm_ext.Supp.{balign}

-- `file` is the output, `errors` the numbers of the messages, the last first; `data_size` is the
-- length of `buffer`, the octets of `data` that are in use. `asciiout` is the global.
pub record Srec : Type 0 where
  pub file : List ℕ
  pub errors : List ℕ
  pub buffer : List ℕ
  pub srec_pc : ℕ
  pub pc : ℕ
  pub start_addr : ℕ
  pub srecfmt : ℕ
  pub asciiout : Bool

unfoldable pub put : Srec → ℕ → Srec
put s x = record s { file = s.file ++ x % 2 ^ 8 ∷ [] }

unfoldable pub write_newline : Srec → Srec
write_newline s = if s.asciiout then put s 10 else put (put s 13) 10

unfoldable pub tohex : ℕ → ℕ
tohex v = let d = v % 16 in if ltb d 10 then 48 + d else 55 + d

unfoldable pub write_hex_byte : Srec → ℕ → Srec
write_hex_byte s b = put (put s (tohex (b / 16))) (tohex b)

-- The loop over the data: the file and the checksum.
unfoldable pub write_data : Srec → List ℕ → ℕ → Srec × ℕ
write_data s [] checksum = (s, checksum)
write_data s (d ∷ ds) checksum = write_data (write_hex_byte s d) ds ((checksum + d) % 2 ^ 8)

-- The address octets that a type of at least `min` has: the octet is written and added.
abbrev pub address_octet : ℕ → ℕ → ℕ → Srec × ℕ → Srec × ℕ
address_octet min type b r = if ltb min type then (write_hex_byte r.0 b, (r.1 + b) % 2 ^ 8) else r

unfoldable pub write_data_buffer : ℕ → Srec → Srec
write_data_buffer type s =
    let s₁ =
      if ltb 0 type && not (shr64 s.srec_pc ((type + 1) * 8) == 0)
      then record s { errors = 11 ∷ s.errors }
      else s in
    let count = (length s.buffer + 2 + (if type == 0 then 1 else type)) % 2 ^ 8 in
    let r₀ : Srec × ℕ = (write_hex_byte (put (put s₁ 83) (type + 48)) count, count) in
    let r₁ = address_octet 2 type (s.srec_pc / 2 ^ 24 % 2 ^ 8) r₀ in
    let r₂ = address_octet 1 type (s.srec_pc / 2 ^ 16 % 2 ^ 8) r₁ in
    let r₃ = address_octet 0 type (s.srec_pc / 2 ^ 8 % 2 ^ 8) r₂ in
    let r₄ = address_octet 0 type (s.srec_pc % 2 ^ 8) r₃ in
    let s₂ = if type == 0 then write_hex_byte (write_hex_byte r₄.0 0) 0 else r₄.0 in
    -- `checksum ^ 0xff` is the difference, since the checksum is an octet.
    let (s₃, checksum) = write_data s₂ s.buffer r₄.1 in
    let s₄ = write_newline (write_hex_byte s₃ (255 - checksum)) in
    if (length s.buffer == 0) && not (type == 0)
    then s
    else if ltb 3 type
    then s₁
    else record s₄ { srec_pc = add64 s.srec_pc (length s.buffer); buffer = [] }

-- `put_byte_in_buffer`
unfoldable pub put_byte_in_buffer : Srec → ℕ → Srec
put_byte_in_buffer s byte =
    let s' = record s { buffer = s.buffer ++ byte ∷ [] } in
    if leb 32 (length s'.buffer) then write_data_buffer s.srecfmt s' else s'

unfoldable pub put_tbyte_in_buffer : Srec → ℕ → Srec
put_tbyte_in_buffer s tbyte =
    let s' = put_byte_in_buffer s tbyte in record s' { pc = add64 s'.pc 1 }

unfoldable pub put_tbytes : Srec → List ℕ → Srec
put_tbytes s [] = s
put_tbytes s (b ∷ bs) = put_tbytes (put_tbyte_in_buffer s b) bs

-- `write_termination_record`
unfoldable pub write_termination_record : Srec → Srec
write_termination_record s =
    let s₁ =
      if ltb 0 s.srecfmt && not (shr64 s.start_addr ((s.srecfmt + 1) * 8) == 0)
      then record s { errors = 11 ∷ s.errors }
      else s in
    let s₂ = put (put s₁ 83) (10 - s.srecfmt + 48) in
    let r₀ : Srec × ℕ =
      if s.srecfmt == 3
      then (write_hex_byte s₂ 5, 5)
      else if s.srecfmt == 2
      then (write_hex_byte s₂ 4, 4)
      else if s.srecfmt == 1
      then (write_hex_byte s₂ 3, 3)
      else (s₂, 0) in
    let r₁ = address_octet 2 s.srecfmt (s.start_addr / 2 ^ 24 % 2 ^ 8) r₀ in
    let r₂ = address_octet 1 s.srecfmt (s.start_addr / 2 ^ 16 % 2 ^ 8) r₁ in
    let high = s.start_addr / 2 ^ 8 % 2 ^ 8 in
    let low = s.start_addr % 2 ^ 8 in
    let s₃ = write_hex_byte (write_hex_byte r₂.0 high) low in
    let checksum = (r₂.1 + high + low) % 2 ^ 8 in write_newline (write_hex_byte s₃ (255 - checksum))

-- An atom as the loop of `write_output` sees it: octets, or copies of a fill, which is also what
-- a space of no copies is aligned with.
pub data Atom : Type 0 where
  octets : ℕ → List ℕ → Atom
  space : ℕ → ℕ → List ℕ → ℕ → Atom
  other : ℕ → Atom

-- `space align copies fill maxalignbytes`
abbrev pub atom_align : Atom → ℕ
atom_align (octets align d) = align
atom_align (space align copies fill m) = align
atom_align (other align) = align

-- The loops of `addralign`; the fuel is the number of octets left.
unfoldable pub pad_front : ℕ → Srec → ℕ → ℕ → Srec × ℕ
pad_front zero s n patlen = (s, n)
pad_front (suc fuel) s n patlen =
    let r = pad_front fuel (put_tbyte_in_buffer s 0) (n - 1) patlen in
    if n % patlen == 0 then (s, n) else r

unfoldable pub pad_copies : ℕ → Srec → ℕ → List ℕ → Srec × ℕ
pad_copies zero s n pat = (s, n)
pad_copies (suc fuel) s n pat =
    let r = pad_copies fuel (put_tbytes s pat) (n - length pat) pat in
    if leb (length pat) n then r else (s, n)

unfoldable pub pad_rest : ℕ → Srec → Srec
pad_rest zero s = s
pad_rest (suc n) s = pad_rest n (put_tbyte_in_buffer s 0)

unfoldable pub pad_with : Srec → ℕ → List ℕ → Srec
pad_with s n pat =
    let (s₁, n₁) = pad_front n s n (length pat) in
    let (s₂, n₂) = pad_copies n s₁ n₁ pat in pad_rest n₂ s₂

-- `pad` is the padding of the section.
unfoldable pub addralign : Srec → Atom → List ℕ → Srec
addralign s (space align zero fill m) pad =
    let n = balign s.pc align in
    if n == 0 then s else if not (m == 0) && ltb m n then s else pad_with s n fill
addralign s (space align (suc copies) fill m) pad =
    let n = balign s.pc align in if n == 0 then s else pad_with s n pad
addralign s (octets align d) pad =
    let n = balign s.pc align in if n == 0 then s else pad_with s n pad
addralign s (other align) pad = let n = balign s.pc align in if n == 0 then s else pad_with s n pad

unfoldable pub put_copies : ℕ → Srec → List ℕ → Srec
put_copies zero s fill = s
put_copies (suc n) s fill = put_copies n (put_tbytes s fill) fill

unfoldable pub write_atoms : Srec → List Atom → List ℕ → Srec
write_atoms s [] pad = s
write_atoms s (octets align d ∷ atoms) pad =
    write_atoms (put_tbytes (addralign s (octets align d) pad) d) atoms pad
write_atoms s (space align n fill m ∷ atoms) pad =
    write_atoms (put_copies n (addralign s (space align n fill m) pad) fill) atoms pad
write_atoms s (other align ∷ atoms) pad = write_atoms (addralign s (other align) pad) atoms pad

pub record SrecSection : Type 0 where
  pub name : List ℕ
  pub org : ℕ
  pub atoms : List Atom
  pub pad : List ℕ

-- One round of the loop over the sections: a header record of the name, then the atoms.
unfoldable pub write_section : Srec → SrecSection → Srec
write_section s sec =
    let s₁ = write_data_buffer 0 (record s { buffer = take 32 sec.name }) in
    write_data_buffer s.srecfmt
      (write_atoms (record s₁ { pc = sec.org; srec_pc = sec.org }) sec.atoms sec.pad)
