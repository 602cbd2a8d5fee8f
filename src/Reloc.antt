-- ===== src/Reloc.antt =====
-- reloc.c, reloc.h: relocations of fields in data, and the patching of these. A `taddr` is a 64-bit
-- integer and given by its bit pattern, and a target byte is an octet. A symbol is its number in
-- the table.
pub mod Overflow
pub mod Patch
mod Tests
use vasm_ext.Common.Run.{Run, ok, fatal, ◌>>=◌}
use vasm_ext.Common.Word.{sub64, cpl64, sign64, ones64}
use vasm_ext.Common.{
  ℕ, zero, suc, ◌+◌, ◌-◌, ◌*◌, ◌/◌, ◌%◌, ◌^◌, bit_and, Bool, true, false, not, ◌&&◌, ◌||◌, List, [],
  ◌∷◌, ◌++◌, Option, none, some, take, drop, ltb, leb, ◌==◌, if◌then◌else◌,
}
use vasm_ext.Expression.State.{
  SymbolType, labsym, import, expression, Symbol, Section, locref, extref, same, is_labsym,
  is_import,
}
use vasm_ext.Supp.{makemask, setbits}

-- `FIRST_CPU_RELOC`, and the standard types that the functions name.
abbrev pub first_cpu_reloc : ℕ
first_cpu_reloc = 0x80

abbrev pub rel_abs : ℕ
rel_abs = 1

abbrev pub rel_uabs : ℕ
rel_uabs = 11

abbrev pub last_standard_reloc : ℕ
last_standard_reloc = 17

-- `STD_REL_TYPE`, `REL_MOD_S`, `REL_MOD_U`
abbrev pub std_rel_type : ℕ → ℕ
std_rel_type t = t % 32

abbrev pub rel_mod_s : ℕ → Bool
rel_mod_s t = t / 32 % 2 == 1

abbrev pub rel_mod_u : ℕ → Bool
rel_mod_u t = t / 64 % 2 == 1

pub record Nreloc : Type 0 where
  pub byteoffset : ℕ
  pub bitoffset : ℕ
  pub size : ℕ
  pub mask : ℕ
  pub addend : ℕ
  pub sym : ℕ

-- An element of a list of relocations.
pub record Rlist : Type 0 where
  pub reloc : Nreloc
  pub type : ℕ

-- The atoms that have octets: data, and space with its fill pattern.
pub data Content : Type 0 where
  data_block : List ℕ → List Rlist → Content
  space_block : List ℕ → List Rlist → Content
  no_octets : Content

-- `new_nreloc`, for a symbol
abbrev pub new_nreloc : ℕ → Nreloc
new_nreloc s = record {
  byteoffset = 0;
  bitoffset = 0;
  size = 0;
  mask = ones64;
  addend = 0;
  sym = s;
}

-- The symbols and the list are returned as they are when there is no relocation; `none` is the null
-- pointer that is then returned.
pub record Added : Type 0 where
  pub symbols : ℕ → Symbol
  pub relocs : List Rlist
  pub added : Option Rlist

abbrev pub set_symbol : (ℕ → Symbol) → ℕ → Symbol → ℕ → Symbol
set_symbol symbols n s m = if m == n then s else symbols m

unfoldable pub add_extnreloc : (ℕ → Symbol) → List Rlist → ℕ → ℕ → ℕ → ℕ → ℕ → ℕ → Added
add_extnreloc symbols relocs s addend type bitoffs size byteoffs =
    let r : Nreloc = record (new_nreloc s) {
      byteoffset = byteoffs;
      bitoffset = bitoffs;
      size = size;
      addend = addend;
    } in
    let rl : Rlist = record { reloc = r; type = type } in
    if (symbols s).abslabel
    then record { symbols = symbols; relocs = relocs; added = none }
    else record {
      symbols = set_symbol symbols s (record (symbols s) { referenced = true });
      relocs = rl ∷ relocs;
      added = some rl;
    }

abbrev pub with_mask : ℕ → Rlist → Rlist
with_mask mask rl = record rl { reloc = record rl.reloc { mask = mask } }

-- The relocation that was added is the first of the list.
abbrev pub mask_first : ℕ → List Rlist → List Rlist
mask_first mask [] = []
mask_first mask (rl ∷ rest) = with_mask mask rl ∷ rest

abbrev pub masked : ℕ → Added → Option Rlist → Added
masked mask a none = a
masked mask a (some rl) = record a {
  relocs = mask_first mask a.relocs;
  added = some (with_mask mask rl);
}

unfoldable pub add_extnreloc_masked : (ℕ → Symbol) → List Rlist → ℕ → ℕ → ℕ → ℕ → ℕ → ℕ → ℕ → Added
add_extnreloc_masked symbols relocs s addend type bitoffs size byteoffs mask =
    let a = add_extnreloc symbols relocs s addend type bitoffs size byteoffs in
    masked mask a a.added

-- `sections n` is the section with the number `n`; `cur_sec` is the current one's.
unfoldable pub is_pc_reloc : (ℕ → Section) → Symbol → ℕ → Run Bool
is_pc_reloc sections s cur_sec =
    if extref s
    then ok true
    else if locref s
    then ok ((if (sections cur_sec).absolute then false else not (same s.sec (some cur_sec))))
    else fatal 0

-- `none` is -1.
unfoldable pub std_reloc : Rlist → Option ℕ
std_reloc rl =
    if ltb rl.type first_cpu_reloc && leb (std_rel_type rl.type) last_standard_reloc
    then some (std_rel_type rl.type)
    else none

abbrev pub has_std_reloc : Option ℕ → Bool
has_std_reloc none = false
has_std_reloc (some t) = true

-- The messages of the check: 34 for each absolute reference to a label or an exported import.
unfoldable pub do_pic_check : (ℕ → Symbol) → List Rlist → List ℕ
do_pic_check symbols [] = []
do_pic_check symbols (rl ∷ rest) =
    let later = do_pic_check symbols rest in
    let s = symbols rl.reloc.sym in
    if ((rl.type == rel_abs) || (rl.type == rel_uabs))
      && (is_labsym s.type || (is_import s.type && s.export))
    then 34 ∷ later
    else later

abbrev pub origin : (ℕ → Section) → Option ℕ → ℕ
origin sections none = 0
origin sections (some n) = (sections n).org

-- A label's address, less the start of its section, is taken off. A label has a section.
unfoldable pub nreloc_real_addend : (ℕ → Section) → Symbol → Nreloc → ℕ
nreloc_real_addend sections s nrel =
    if is_labsym s.type then sub64 nrel.addend (sub64 s.pc (origin sections s.sec)) else nrel.addend

-- The message: 4 for a standard type, or 5.
abbrev pub unsupp_reloc_error : Rlist → ℕ
unsupp_reloc_error rl = if ltb rl.type first_cpu_reloc then 4 else 5

-- Message 8 for a symbol that is not defined.
unfoldable pub checkdefined : Symbol → Rlist → Run (List ℕ)
checkdefined s rl =
    if has_std_reloc (std_reloc rl) then ok (if extref s then 8 ∷ [] else []) else fatal 0

unfoldable pub get_relocs : Content → List Rlist
get_relocs (data_block d r) = r
get_relocs (space_block f r) = r
get_relocs no_octets = []

-- Whether a value does not fit a field of `numbits` bits, which is at least 1, as the type has it:
-- signed, unsigned or either.
unfoldable pub reloc_field_overflow : ℕ → ℕ → ℕ → Bool
reloc_field_overflow rtype numbits val =
    let upper = cpl64 (makemask (numbits - 1)) in
    let above = cpl64 (makemask numbits) in
    if ltb rtype first_cpu_reloc && rel_mod_s rtype
    then (if sign64 val then not (bit_and val upper == upper) else not (bit_and val upper == 0))
    else if ltb rtype first_cpu_reloc && rel_mod_u rtype
    then not (bit_and val above == 0)
    else (if sign64 val then not (bit_and val upper == upper) else not (bit_and val above == 0))

-- The bits of the octets in which a field lies.
abbrev pub patched_bits : Nreloc → ℕ
patched_bits r = (r.bitoffset + r.size + 7) / 8 * 8

-- The octets are set from `get_nreloc_ptr` on.
unfoldable pub patch_content : Content → Nreloc → ℕ → Bool → Run Content
patch_content (data_block d l) r val be =
    setbits be (drop r.byteoffset d) (patched_bits r) r.bitoffset r.size val >>= λ q.
    ok (data_block (take r.byteoffset d ++ q) l)
patch_content (space_block f l) r val be =
    setbits be f (patched_bits r) r.bitoffset r.size val >>= λ q. ok (space_block q l)
patch_content no_octets r val be = ok no_octets

abbrev pub is_nreloc : (Rlist → ℕ) → Rlist → Bool
is_nreloc cpu_reloc_size rl = has_std_reloc (std_reloc rl) || (cpu_reloc_size rl == 0)

-- The atom, the messages, and the value that is returned. `cpu_reloc_size` is the processor
-- module's, which is not 0 for a relocation of its own format.
pub record Patched : Type 0 where
  pub content : Content
  pub errors : List ℕ
  pub done : Bool

unfoldable pub patch_nreloc : (Rlist → ℕ) → Content → Rlist → ℕ → Bool → Run Patched
patch_nreloc cpu_reloc_size a rl val be =
    if not (is_nreloc cpu_reloc_size rl)
    then ok (record { content = a; errors = unsupp_reloc_error rl ∷ []; done = false })
    else if reloc_field_overflow rl.type rl.reloc.size val
    then ok (record { content = a; errors = 12 ∷ []; done = false })
    else (patch_content a rl.reloc val be >>= λ q.
        ok (record { content = q; errors = []; done = true }))
