-- ===== src/Leb128.antt =====
-- atom.c: the octets of LEB128 data atoms, for a 64-bit `utaddr`.
pub mod Decode
mod Tests
use vasm_ext.Common.{
  ℕ, zero, suc, ◌/◌, ◌^◌, bit_and, bit_or, not, List, [], ◌∷◌, ◌==◌, if◌then◌else◌,
}
use vasm_ext.Common.Word.{shr64}

-- The loop of `add_leb128_atom`, with the octets of the atoms that it adds.
leb128_loop : ℕ → ℕ → List ℕ
leb128_loop zero c = []
leb128_loop (suc n) c =
    let b = bit_and c 0x7f in
    let next = shr64 c 7 in
    let later = leb128_loop n next in if not (next == 0) then bit_or b 0x80 ∷ later else b ∷ []

-- 10 rounds shift 70 bits out of a 64-bit value.
unfoldable pub add_leb128_atom : ℕ → List ℕ
unfolding leb128_loop
add_leb128_atom c = leb128_loop 10 c
