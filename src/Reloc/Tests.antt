-- ===== src/Reloc/Tests.antt =====
-- Relocations of a table of symbols, and patches of some octets.
use vasm_ext.Common.Run.{ok}
use vasm_ext.Common.{
  ℕ, ◌-◌, ◌^◌, ◌≡◌, inl, refl, arith, Bool, true, false, List, [], ◌∷◌, length, drop, none, some,
}
use vasm_ext.Expression.State.{labsym, Symbol}
use vasm_ext.Reloc
use vasm_ext.Reloc.Overflow.{reloc_field_overflow-in_field}
use vasm_ext.Reloc.Patch.{IsPatchable, patch_nreloc_overflow, patch_nreloc-readbits}
use vasm_ext.Reloc.{
  Nreloc, Rlist, Content, data_block, patch_nreloc, reloc_field_overflow, do_pic_check,
  add_extnreloc_masked, std_reloc,
}
use vasm_ext.Supp.{readbits}

abbrev no_cpu_size : Rlist → ℕ
no_cpu_size rl = 8

-- A signed 12-bit field at the bit 4 of octet 1, whose type is absolute.
abbrev field12 : Rlist
field12 = record {
  reloc = record {
    byteoffset = 1;
    bitoffset = 4;
    size = 12;
    mask = 2 ^ 64 - 1;
    addend = 0;
    sym = 0;
  };
  type = 0x21;
}

abbrev octets : List ℕ
octets = 0x11 ∷ 0x22 ∷ 0x33 ∷ 0x44 ∷ []

octets-IsPatchable : IsPatchable octets field12.reloc
octets-IsPatchable = omega arith

reloc_field_overflow-in_field_example : reloc_field_overflow 0x21 12 2048 ≡ true
reloc_field_overflow-in_field_example =
    reloc_field_overflow-in_field 0x21 12 2048 (omega arith) (omega arith) (omega arith)

patch_nreloc_overflow_example :
    patch_nreloc no_cpu_size (data_block octets []) field12 2048 true
    ≡ ok (record { content = data_block octets []; errors = 12 ∷ []; done = false })
unfolding std_reloc
patch_nreloc_overflow_example =
    patch_nreloc_overflow no_cpu_size octets [] field12 2048 true refl (omega arith)
      octets-IsPatchable refl

patch_nreloc-readbits_example :
    (q : List ℕ) × (patch_nreloc no_cpu_size (data_block octets []) field12 (2 ^ 64 - 2) true
      ≡ ok (record { content = data_block (0x11 ∷ q) []; errors = []; done = true }))
    × (length q ≡ 3)
    × (drop 2 q ≡ 0x44 ∷ [])
    × (readbits true q 16 4 12 ≡ ok 4094)
    × (readbits true q 16 0 4 ≡ readbits true (0x22 ∷ 0x33 ∷ 0x44 ∷ []) 16 0 4)
unfolding std_reloc
patch_nreloc-readbits_example =
    patch_nreloc-readbits no_cpu_size octets [] field12 (2 ^ 64 - 2) true refl (omega arith)
      octets-IsPatchable 0 4 refl (omega arith) (inl (omega arith))

-- An absolute label has no relocation, and another one is marked as referenced.
abbrev label : Bool → Symbol
label abs = record {
  type = labsym;
  weak = false;
  abslabel = abs;
  ineval = false;
  export = false;
  referenced = false;
  sec = some 0;
  pc = 0;
}

absolute_label : (add_extnreloc_masked (λ n. label true) [] 3 0 1 0 8 0 255).added ≡ none
unfolding add_extnreloc_masked Reloc.add_extnreloc
absolute_label = refl

referenced_label :
    ((add_extnreloc_masked (λ n. label false) [] 3 0 1 0 8 0 255).symbols 3).referenced ≡ true
unfolding add_extnreloc_masked Reloc.add_extnreloc
referenced_label = refl

pic_message : do_pic_check (λ n. label false) (field12 ∷ record field12 { type = 1 } ∷ []) ≡ 34 ∷ []
unfolding do_pic_check
pic_message = refl
