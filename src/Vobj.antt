-- ===== src/Vobj.antt =====
-- output_vobj.c and vobjdump.c: the numbers, strings and symbols of VOBJ files, as the output module
-- writes them and the dumper reads them. A `taddr` has 64 bits and is given by its bit pattern; a
-- file is the list of its octets, and the pointer into it is what is left of the list.
pub mod Octet
pub mod Scan
pub mod Reader
pub mod Sign
pub mod Number
pub mod Symbol
pub mod Record
pub mod Header
mod Tests
use vasm_ext.Common.Word.{cpl64, shl64}
use vasm_ext.Common.{
  ℕ, zero, suc, ◌+◌, ◌-◌, ◌*◌, ◌/◌, ◌%◌, ◌^◌, bit_and, bit_or, Bool, true, false, not, ◌&&◌, ◌||◌,
  Option, none, some, List, [], ◌∷◌, length, ltb, leb, ◌==◌, if◌then◌else◌,
}
use vasm_ext.HugeInt.{shra64}
use vasm_ext.Supp.{fw8, makemask}

-- `VOBJ2`, `VOBJ3`; version 1 is 0.
abbrev pub vobj3 : ℕ
vobj3 = 8

-- The loop that looks for the octets that are needed: those up to the last that is not 0, and up to
-- the last that is not 0xff.
unfoldable pub count_octets : ℕ → ℕ → ℕ → ℕ → ℕ → ℕ × ℕ
count_octets zero i s u tmp = (s, u)
count_octets (suc n) i s u tmp =
    count_octets n (i + 1) (if bit_and tmp 0xff == 0 then s else i)
      (if bit_and tmp 0xff == 0xff then u else i) (shra64 tmp 8)

unfoldable pub write_low_octets : ℕ → List ℕ → ℕ → List ℕ
write_low_octets zero f val = f
write_low_octets (suc n) f val = write_low_octets n (fw8 f (bit_and val 0xff)) (shra64 val 8)

-- How many octets are needed: `s` before those that are 0, `u` before those that are 0xff.
unfoldable pub needed_octets : ℕ → ℕ → ℕ × ℕ
needed_octets version val = if version == 0 then (8, 8) else count_octets 8 1 1 1 val

-- The head of the number, and its octets.
abbrev pub write_counted : List ℕ → ℕ → ℕ → ℕ → List ℕ
write_counted f val s u =
    if ltb u s
    then write_low_octets u (fw8 f (0xc0 + u)) val
    else write_low_octets s (fw8 f (0x80 + s)) val

unfoldable pub write_number : ℕ → List ℕ → ℕ → List ℕ
write_number version f val =
    if leb val 127
    then fw8 f val
    else write_counted f val (needed_octets version val).0 (needed_octets version val).1

-- A string is given by the octets before its 0; a null pointer is the empty one.
unfoldable pub write_string : List ℕ → List ℕ → List ℕ
write_string f [] = fw8 f 0
write_string f (c ∷ cs) = write_string (fw8 f c) cs

-- `val |= (taddr)*p++ << i` for `n` octets; a shift by 64 or more, which C leaves open, is 0 here.
unfoldable pub read_low_octets : ℕ → ℕ → ℕ → List ℕ → Option (ℕ × List ℕ)
read_low_octets zero i val p = some (val, p)
read_low_octets (suc n) i val [] = none
read_low_octets (suc n) i val (b ∷ p) =
    read_low_octets n (i + 8) (bit_or val (if leb 64 i then 0 else shl64 b i)) p

-- Version 1: the sign of the target's address type.
abbrev pub sign_extended : Bool → ℕ → ℕ → ℕ
sign_extended is_signed bitspertaddr val =
    if is_signed && not (bit_and val (shl64 1 (bitspertaddr - 1)) == 0)
    then bit_or val (cpl64 (makemask bitspertaddr))
    else val

abbrev pub extend_read : Bool → ℕ → Option (ℕ × List ℕ) → Option (ℕ × List ℕ)
extend_read is_signed bitspertaddr none = none
extend_read is_signed bitspertaddr (some (val, p)) =
    some (sign_extended is_signed bitspertaddr val, p)

-- `none` is `obj_corrupt`, which ends the program.
unfoldable pub read_number : ℕ → Bool → List ℕ → Option (ℕ × List ℕ)
read_number bitspertaddr is_signed [] = none
read_number bitspertaddr is_signed (n ∷ p) =
    if leb n 0x7f
    then some (n, p)
    else if ltb (length p) (bit_and n 0x3f)
    then none
    else if leb 0xc0 n
    then read_low_octets (n - 0xc0) 0 (cpl64 (makemask ((n - 0xc0) * 8))) p
    else extend_read is_signed bitspertaddr (read_low_octets (n - 0x80) 0 0 p)

-- The string that the pointer stands at, and what is behind it.
unfoldable pub skip_string : List ℕ → Option (List ℕ × List ℕ)
skip_string [] = none
skip_string (c ∷ p) =
    let later = skip_string p in
    if c == 0 then some ([], p) else elim later [ none ↦ none | some (s, q) ↦ some (c ∷ s, q) ]
