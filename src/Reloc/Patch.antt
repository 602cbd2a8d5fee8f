-- ===== src/Reloc/Patch.antt =====
-- `patch_nreloc` on data.
use vasm_ext.Common.Octets.{IsOctets, IsOctets-drop}
use vasm_ext.Common.Run.{ok}
use vasm_ext.Common.{
  ℕ, ◌+◌, ◌/◌, ◌%◌, ◌^◌, ◌≤◌, ◌<◌, ◌≡◌, refl, arith, Bool, true, false, not, List, [], ◌∷◌, ◌++◌,
  length, length-drop, take, drop,
}
use vasm_ext.Reloc.Overflow.{in_field, reloc_field_overflow-in_field}
use vasm_ext.Reloc.{
  Nreloc, Rlist, data_block, is_nreloc, patched_bits, patch_content, patch_nreloc,
  reloc_field_overflow,
}
use vasm_ext.Supp.Fields.{IsBuffer, IsField, Apart, readbits-setbits}
use vasm_ext.Supp.{readbits}

-- The field is in the data, which are octets, and in 64 bits.
pub record IsPatchable (d : List ℕ) (r : Nreloc) : Type 0 where
  pub octets : IsOctets d
  pub not_empty : 1 ≤ r.size
  pub readable : r.bitoffset + r.size ≤ 64
  pub available : r.byteoffset + (r.bitoffset + r.size + 7) / 8 ≤ length d

patched-IsBuffer :
    (d : List ℕ) (r : Nreloc) → IsPatchable d r → IsBuffer (drop r.byteoffset d) (patched_bits r)
patched-IsBuffer d r w = record {
  octets = IsOctets-drop r.byteoffset d w.octets;
  whole = omega arith;
  readable = omega (arith, w.readable);
  available = omega (arith, length-drop r.byteoffset d, w.available);
}

patched-IsField :
    (d : List ℕ) (r : Nreloc) → IsPatchable d r → IsField (patched_bits r) r.bitoffset r.size
patched-IsField d r w = record { not_empty = w.not_empty; within = omega arith }

module _ (cpu_reloc_size : Rlist → ℕ) (d : List ℕ) (l : List Rlist) (rl : Rlist) (val : ℕ)
    (be : Bool) (is : is_nreloc cpu_reloc_size rl ≡ true) (fits : val < 2 ^ 64)
    (w : IsPatchable d rl.reloc) where
  overflow :
      reloc_field_overflow rl.type rl.reloc.size val ≡ not (in_field rl.type rl.reloc.size val)
  overflow =
      reloc_field_overflow-in_field rl.type rl.reloc.size val w.not_empty
        (omega (arith, w.readable)) fits

  -- A value that the field of the relocation cannot hold is reported by message 12 and leaves the
  -- data as they are. The relocation is a standard one or has the common format, and its field is
  -- in the data.
  pub patch_nreloc_overflow :
      in_field rl.type rl.reloc.size val ≡ false
      → patch_nreloc cpu_reloc_size (data_block d l) rl val be
        ≡ ok (record { content = data_block d l; errors = 12 ∷ []; done = false })
  unfolding patch_nreloc
  patch_nreloc_overflow out = rw (is, overflow, out) refl

  -- A value that the field of the relocation can hold is written: the field is read back as the
  -- value, modulo its size, and the octets before the field, those behind it and any field in its
  -- octets that is apart from it are as before. The relocation is a standard one or has the common
  -- format, and its field is in the data.
  pub patch_nreloc-readbits :
      (o m : ℕ)
      → in_field rl.type rl.reloc.size val ≡ true
      → IsField (patched_bits rl.reloc) o m
      → Apart rl.reloc.bitoffset rl.reloc.size o m
      → (let r = rl.reloc in
          let n = patched_bits r in
          let p = drop r.byteoffset d in
          (q : List ℕ) × (patch_nreloc cpu_reloc_size (data_block d l) rl val be
            ≡ ok (record {
              content = data_block (take r.byteoffset d ++ q) l;
              errors = [];
              done = true;
            }))
          × (length q ≡ length p)
          × (drop (n / 8) q ≡ drop (n / 8) p)
          × (readbits be q n r.bitoffset r.size ≡ ok (val % 2 ^ r.size))
          × (readbits be q n o m ≡ readbits be p n o m))
  unfolding patch_nreloc patch_content
  patch_nreloc-readbits o m in_range f h =
      let r = rl.reloc in
      let (q, e, len, behind, own, other) =
        readbits-setbits be (drop r.byteoffset d) (patched_bits r) r.bitoffset r.size val o m
          (patched-IsBuffer d r w) (patched-IsField d r w) f h in
      (q, rw (is, overflow, in_range, e) refl, len, behind, own, other)
