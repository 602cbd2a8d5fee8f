-- ===== src/Atoms/Layout.antt =====
-- Where the atoms of a section are, by their sizes: what the passes are to find.
use vasm_ext.Common.Word.{add64, sub64}
use vasm_ext.Common.{ℕ, ◌≡◌, refl, Bool, true, false, Option, some, List, [], ◌∷◌, if◌then◌else◌}
use vasm_ext.Expression.State.{Symbol, same}
use vasm_ext.Atoms.Resolve.{Pass}
use vasm_ext.Atoms.{
  AtomContent, label, rorg, rorgend, space, SecAtom, Sblock, alignment, maxalignbytes,
}
use vasm_ext.Supp.{pcalign}

-- An address, and where it goes on behind a relocated part.
pub record Place : Type 0 where
  pub pc : ℕ
  pub in_rorg : Bool
  pub saved_pc : ℕ
  pub rorg_pc : ℕ

unfoldable pub place_of : Pass → Place
place_of s = record { pc = s.pc; in_rorg = s.in_rorg; saved_pc = s.saved_pc; rorg_pc = s.rorg_pc }

unfoldable pub close : Place → Place
close w =
    if w.in_rorg
    then record w { pc = add64 w.saved_pc (sub64 w.pc w.rorg_pc); in_rorg = false }
    else w

unfoldable pub shift : AtomContent → Place → Place
shift (rorg r) w = record { pc = r; in_rorg = true; saved_pc = w.pc; rorg_pc = r }
shift rorgend w = close w
shift other w = w

-- The start of an atom, and the place behind it.
unfoldable pub start_of : SecAtom → Place → Place
start_of a w = shift a.content (record w { pc = pcalign (alignment a) w.pc })

abbrev pub advance : ℕ → Place → Place
advance size w = record w { pc = add64 w.pc size }

unfoldable pub behind : SecAtom → Place → Place
behind a w = advance a.lastsize (start_of a w)

unfoldable pub end_of : List SecAtom → Place → Place
end_of [] w = w
end_of (a ∷ rest) w = end_of rest (behind a w)

-- The address of a label, but for the symbol of the current pc.
unfoldable pub LabelAt : Option ℕ → (ℕ → Symbol) → AtomContent → Place → Type 0
LabelAt cpc symbols (label n) w = same (some n) cpc ≡ false → (symbols n).pc ≡ w.pc
LabelAt cpc symbols other w = Unit

-- Every label has the address that the sizes of the atoms before it give.
unfoldable pub LaidOut : Option ℕ → (ℕ → Symbol) → List SecAtom → Place → Type 0
LaidOut cpc symbols [] w = Unit
LaidOut cpc symbols (a ∷ rest) w =
    LabelAt cpc symbols a.content (start_of a w) × LaidOut cpc symbols rest (behind a w)

-- The content of an atom after its size is found: a space may have another number of elements.
pub data Updated : AtomContent → AtomContent → Type 0 where
  kept : (c : AtomContent) → Updated c c
  spaced : (sb : Sblock) (n : ℕ) → Updated (space sb) (space (record sb { space = n }))

-- The atoms are in their places whatever the space is.
pub shift_updated : {c d : AtomContent} (w : Place) → Updated c d → shift d w ≡ shift c w
unfolding shift
shift_updated w (kept c) = refl
shift_updated w (spaced sb n) = refl

pub maxalignbytes_updated : {c d : AtomContent} → Updated c d → maxalignbytes d ≡ maxalignbytes c
maxalignbytes_updated (kept c) = refl
maxalignbytes_updated (spaced sb n) = refl

pub LabelAt_updated :
    {c d : AtomContent} (cpc : Option ℕ) (symbols : ℕ → Symbol) (w : Place)
    → Updated c d
    → LabelAt cpc symbols c w
    → LabelAt cpc symbols d w
unfolding LabelAt
LabelAt_updated cpc symbols w (kept c) h = h
LabelAt_updated cpc symbols w (spaced sb n) h = tt
