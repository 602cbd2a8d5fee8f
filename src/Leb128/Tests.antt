-- ===== src/Leb128/Tests.antt =====
-- A LEB128 value on which the theorem is applied.
use vasm_ext.Common.{◌≡◌, refl, arith, [], ◌∷◌, ◌++◌}
use vasm_ext.Leb128.Decode.{decode, decode-add_leb128_atom}
use vasm_ext.Leb128.{add_leb128_atom}

octets_of_624485 : add_leb128_atom 624485 ≡ 0xe5 ∷ 0x8e ∷ 0x26 ∷ []
unfolding add_leb128_atom
octets_of_624485 = refl

decode-add_leb128_atom_example : decode (add_leb128_atom 624485 ++ 7 ∷ []) ≡ (624485, 7 ∷ [])
decode-add_leb128_atom_example = decode-add_leb128_atom 624485 (7 ∷ []) (omega arith)
