-- ===== src/Supp.antt =====
-- supp.c: values in target memory and in files, alignment, and the ranges of sections. A target
-- byte is an octet, a `taddr` is a 64-bit integer and given by its bit pattern, and a file is the
-- list of the octets that are written to it.
pub mod Memory
pub mod Bitfield
pub mod Fields
pub mod Scan
pub mod Align
pub mod Overlap
pub mod Pattern
mod Tests
use mathlib.Core.List.{reverse}
use vasm_ext.Common.Run.{Run, ok, fatal, ◌>>=◌}
use vasm_ext.Common.Word.{add64, sub64, neg64, cpl64, shl64, shr64, sign64, ones64}
use vasm_ext.Common.{
  ℕ, zero, suc, ◌+◌, ◌-◌, ◌*◌, ◌/◌, ◌%◌, ◌^◌, bit_and, bit_or, Bool, true, false, not, ◌&&◌, ◌||◌,
  List, [], ◌∷◌, ◌++◌, length, replicate, take, drop, ltb, leb, ◌==◌, if◌then◌else◌,
}
use vasm_ext.HugeInt.{shra64}

-- `MAKEMASK`
abbrev pub makemask : ℕ → ℕ
makemask x = if leb 64 x then ones64 else shl64 1 x - 1

-- `numbits` is 1 to 64.
unfoldable pub bf_sign_extend : ℕ → ℕ → ℕ
bf_sign_extend val numbits =
    let himask = cpl64 (makemask numbits) in
    if (bit_and val himask == 0) && not (bit_and val (shl64 1 (numbits - 1)) == 0)
    then bit_or val himask
    else val

read_bytes : ℕ → List ℕ → ℕ
read_bytes val [] = val
read_bytes val (s ∷ src) = read_bytes (add64 (shl64 val 8) s) src

-- More than 8 octets are an internal error. A little-endian value is read from its end.
unfoldable pub readval : Bool → List ℕ → Run ℕ
unfolding read_bytes
readval be src =
    if ltb 8 (length src) then fatal 0 else ok (read_bytes 0 (if be then src else reverse src))

write_bytes : ℕ → ℕ → List ℕ
write_bytes zero val = []
write_bytes (suc size) val = val % 2 ^ 8 ∷ write_bytes size (shr64 val 8)

-- The octets that are written, from the low end: in order, or from the end of the buffer.
unfoldable pub setval : Bool → ℕ → ℕ → Run (List ℕ)
unfolding write_bytes
setval be size val =
    let d = write_bytes size val in if ltb 8 size then fatal 0 else ok (if be then reverse d else d)

write_signed : ℕ → ℕ → List ℕ
write_signed zero val = []
write_signed (suc size) val = val % 2 ^ 8 ∷ write_signed size (shra64 val 8)

unfoldable pub setval_signext : Bool → ℕ → ℕ → ℕ → Run (List ℕ)
unfolding write_signed
setval_signext be extsz valsz val =
    let sign = if sign64 val then 0xff else 0 in
    let d = write_signed valsz val in
    if ltb 8 valsz
    then fatal 0
    else ok (if be then replicate extsz sign ++ reverse d else d ++ replicate extsz sign)

-- The shift of a field of `size` bits at `offset` in a value of `bfsize` bits.
abbrev pub field_shift : Bool → ℕ → ℕ → ℕ → ℕ
field_shift be bfsize offset size = if be then bfsize - (offset + size) else offset

-- The test that both functions start with.
abbrev pub field_fits : ℕ → ℕ → ℕ → Bool
field_fits bfsize offset size = (bfsize % 8 == 0) && leb ((offset + size) % 2 ^ 32) bfsize

-- A bit field in the octets at `p`.
unfoldable pub readbits : Bool → List ℕ → ℕ → ℕ → ℕ → Run ℕ
readbits be p bfsize offset size =
    if field_fits bfsize offset size
    then (readval be (take (bfsize / 8) p) >>= λ val.
        ok (bit_and (shr64 val (field_shift be bfsize offset size)) (makemask size)))
    else fatal 0

-- The field is replaced in the octets, which are at least as many as those of `bfsize` bits.
unfoldable pub setbits : Bool → List ℕ → ℕ → ℕ → ℕ → ℕ → Run (List ℕ)
setbits be p bfsize offset size d =
    let mask = makemask size in
    let s = field_shift be bfsize offset size in
    if field_fits bfsize offset size
    then (readval be (take (bfsize / 8) p) >>= λ val.
        setval be (bfsize / 8)
          (bit_or (bit_and val (cpl64 (shl64 mask s))) (shl64 (bit_and d mask) s))
        >>= λ o. ok (o ++ drop (bfsize / 8) p))
    else fatal 0

-- The loop of `countbits` over the 64 bits of a `taddr`.
count_bits : ℕ → ℕ → ℕ
count_bits zero val = 0
count_bits (suc len) val =
    let later = count_bits len (shra64 val 1) in
    if not (bit_and val 1 == 0) then later + 1 else later

unfoldable pub countbits : ℕ → ℕ
unfolding count_bits
countbits val = count_bits 64 val

-- The loop of `tffs`, with the bits that are left and the index.
first_bit : ℕ → ℕ → ℕ → ℕ
first_bit zero i val = i
first_bit (suc n) i val =
    let later = first_bit n (i + 1) (shra64 val 1) in if not (bit_and val 1 == 0) then i else later

unfoldable pub tffs : ℕ → ℕ
unfolding first_bit
tffs val = if val == 0 then 0 else first_bit 64 0 val

unfoldable pub fw8 : List ℕ → ℕ → List ℕ
fw8 f x = f ++ x % 2 ^ 8 ∷ []

unfoldable pub fw16 : List ℕ → ℕ → Bool → List ℕ
unfolding fw8
fw16 f x be = if be then fw8 (fw8 f (shr64 x 8)) x else fw8 (fw8 f x) (shr64 x 8)

unfoldable pub fw24 : List ℕ → ℕ → Bool → List ℕ
unfolding fw8 fw16
fw24 f x be =
    if be
    then fw16 (fw8 f (shr64 x 16)) (x % 2 ^ 16) true
    else fw8 (fw16 f (x % 2 ^ 16) false) (shr64 x 16)

unfoldable pub fw32 : List ℕ → ℕ → Bool → List ℕ
unfolding fw8
fw32 f x be =
    if be
    then fw8 (fw8 (fw8 (fw8 f (shr64 x 24)) (shr64 x 16)) (shr64 x 8)) x
    else fw8 (fw8 (fw8 (fw8 f x) (shr64 x 8)) (shr64 x 16)) (shr64 x 24)

unfoldable pub fwspace : List ℕ → ℕ → List ℕ
fwspace f zero = f
fwspace f (suc n) = fwspace (f ++ 0 ∷ []) n

-- The loops of `fwpattern`: octets before the pattern, copies of it, octets after it. Each has the
-- octets that are left, and `n` is fuel enough since every round writes at least one.
front : ℕ → List ℕ → ℕ → ℕ → List ℕ × ℕ × Bool
unfolding fwspace
front zero f n patlen = (f, n, false)
front (suc fuel) f n patlen =
    let (f', n', w) = front fuel (fwspace f 1) (n - 1) patlen in
    if n % patlen == 0 then (f, n, false) else (f', n', true)

copies : ℕ → List ℕ → ℕ → List ℕ → ℕ → List ℕ × ℕ
copies zero f n pat patlen = (f, n)
copies (suc fuel) f n pat patlen =
    let r = copies fuel (f ++ take patlen pat) (n - patlen) pat patlen in
    if leb patlen n then r else (f, n)

-- The second result is the warning of an alignment that the pattern does not fill. `patlen` is at
-- least 1, and `pat` has as many octets or more.
unfoldable pub fwpattern : List ℕ → ℕ → List ℕ → ℕ → List ℕ × Bool
unfolding front copies fwspace
fwpattern f n pat patlen =
    let (f₁, n₁, w) = front n f n patlen in
    let (f₂, n₂) = copies n f₁ n₁ pat patlen in (fwspace f₂ n₂, w || not (n₂ == 0))

-- The remainder of C's `addr % a` for a positive `a`: it has the sign of `addr`.
abbrev pub remainder : ℕ → ℕ → ℕ
remainder addr a = if sign64 addr then neg64 (neg64 addr % a) else addr % a

-- `a` is not negative.
unfoldable pub balign : ℕ → ℕ → ℕ
balign addr a = if a == 0 then 0 else (let r = remainder addr a in if r == 0 then 0 else sub64 a r)

unfoldable pub palign : ℕ → ℕ → ℕ
unfolding balign
palign addr a = balign addr (shl64 1 a)

-- What an atom says about its alignment: `maxalignbytes` is 0 where the atom is not a space.
pub record Alignment : Type 0 where
  pub align : ℕ
  pub maxalignbytes : ℕ

unfoldable pub pcalign : Alignment → ℕ → ℕ
unfolding balign
pcalign a pc =
    let n = balign pc a.align in
    if not (a.maxalignbytes == 0) && ltb a.maxalignbytes n then pc else add64 pc n

-- The fields of a section that its ranges and its type are made of.
pub record Section : Type 0 where
  pub org : ℕ
  pub pc : ℕ
  pub attr : List ℕ
  pub unallocated : Bool
  pub absolute : Bool

unfoldable pub get_sec_size : Section → ℕ
get_sec_size s = sub64 s.pc s.org

pub data SecType : Type 0 where
  s_text s_data s_bss s_abs s_miss : SecType

type_of : List ℕ → SecType
type_of [] = s_miss
type_of (a ∷ rest) =
    let later = type_of rest in
    if a == 99 then s_text else if a == 100 then s_data else if a == 117 then s_bss else later

unfoldable pub get_sec_type : Section → SecType
unfolding type_of
get_sec_type s = if s.absolute then s_abs else type_of s.attr

-- The test of `chk_sec_overlap` on a section and one of those behind it.
abbrev pub clash : Section → Section → Bool
clash s s2 = (leb s.org s2.org && ltb s2.org s.pc) || (ltb s.org s2.pc && ltb s2.pc s.pc)

clashes : Section → List Section → Bool
clashes s [] = false
clashes s (s2 ∷ rest) =
    let later = clashes s rest in if not s2.unallocated && clash s s2 then true else later

-- Sections that overlap are a fatal error of the output; otherwise the allocated ones are counted.
pub chk_sec_overlap : List Section → ℕ → Run ℕ
unfolding clashes
chk_sec_overlap [] nsecs = ok nsecs
chk_sec_overlap (s ∷ rest) nsecs =
    let skipped = chk_sec_overlap rest nsecs in
    let counted = chk_sec_overlap rest (nsecs + 1) in
    if s.unallocated then skipped else if clashes s rest then fatal 0 else counted
