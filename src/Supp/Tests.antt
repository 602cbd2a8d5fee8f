-- ===== src/Supp/Tests.antt =====
-- Values, alignments and sections on which the theorems of the support routines are applied.
use vasm_ext.Common.Run.{ok}
use vasm_ext.Common.{
  ℕ, ◌+◌, ◌%◌, ◌≤◌, ◌<◌, ◌≡◌, refl, arith, true, false, ◌==◌, ◌||◌, leb, if◌then◌else◌, List, [],
  ◌∷◌, length, inr, drop,
}
use vasm_ext.Supp.Align.{balign-least, pcalign-aligned}
use vasm_ext.Supp.Fields.{readbits-setbits}
use vasm_ext.Supp.Memory.{readval-setval}
use vasm_ext.Supp.Overlap.{CoveredTwice, chk_sec_overlap-disjoint}
use vasm_ext.Supp.{
  readval, setval, readbits, setbits, balign, pcalign, Alignment, Section, chk_sec_overlap,
}

readval-setval_example :
    (d : List ℕ) × (setval true 2 0x12345 ≡ ok d) × (length d ≡ 2) × (readval true d ≡ ok 0x2345)
readval-setval_example = readval-setval true 2 0x12345 (omega arith)

readbits-setbits_example :
    (q : List ℕ) × (setbits false (0x12 ∷ 0x34 ∷ 0x56 ∷ []) 16 5 6 0x2a ≡ ok q)
    × (length q ≡ 3)
    × (drop 2 q ≡ 0x56 ∷ [])
    × (readbits false q 16 5 6 ≡ ok 0x2a)
    × (readbits false q 16 11 5 ≡ readbits false (0x12 ∷ 0x34 ∷ 0x56 ∷ []) 16 11 5)
readbits-setbits_example =
    readbits-setbits false (0x12 ∷ 0x34 ∷ 0x56 ∷ []) 16 5 6 0x2a 11 5 (omega arith) (omega arith)
      (omega arith) (inr (omega arith))

balign-least_example : (balign 0x1003 8 < 8) × ((0x1003 + balign 0x1003 8) % 8 ≡ 0)
balign-least_example = balign-least 0x1003 8 (omega arith) (omega arith) (omega arith)

abbrev at_most : ℕ → Alignment
at_most m = record { align = 8; maxalignbytes = m }

pcalign-aligned_example :
    (if (4 == 0) || leb (balign 0x1003 8) 4
      then (pcalign (at_most 4) 0x1003 % 8 ≡ 0)
        × (0x1003 ≤ pcalign (at_most 4) 0x1003)
        × (pcalign (at_most 4) 0x1003 < 0x1003 + 8)
      else (pcalign (at_most 4) 0x1003 ≡ 0x1003))
pcalign-aligned_example =
    pcalign-aligned (at_most 4) 0x1003 (omega arith) (omega arith) (omega arith)

abbrev section_at : ℕ → ℕ → Section
section_at org pc = record { org = org; pc = pc; attr = []; unallocated = false; absolute = true }

accepted : chk_sec_overlap (section_at 0x1000 0x1010 ∷ section_at 0x1010 0x1020 ∷ []) 0 ≡ ok 2
unfolding chk_sec_overlap
accepted = refl

chk_sec_overlap-disjoint_example :
    ¬ (CoveredTwice 0x1008 (section_at 0x1000 0x1010 ∷ section_at 0x1010 0x1020 ∷ []))
chk_sec_overlap-disjoint_example =
    chk_sec_overlap-disjoint (section_at 0x1000 0x1010 ∷ section_at 0x1010 0x1020 ∷ []) 0 2 0 0x1008
      (omega arith) accepted
