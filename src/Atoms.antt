-- ===== src/Atoms.antt =====
-- atom.c and vasm.c: the atoms of a section, their sizes, and the passes of `resolve_section` and
-- `resolve` over them. Symbols, sections and messages are those of Expression/State.
pub mod Resolve
pub mod Layout
pub mod Sized
pub mod Stable
pub mod Passes
pub mod Ends
pub mod Returns
pub mod InPlace
pub mod Sections
mod Tests
use vasm_ext.Common.Word.{add64, sub64, mul64}
use vasm_ext.Common.{
  ℕ, zero, suc, ◌+◌, ◌/◌, ◌%◌, ◌^◌, Bool, true, false, not, ◌&&◌, ◌||◌, Option, none, some, List,
  [], ◌∷◌, ◌++◌, ltb, leb, ◌==◌, if◌then◌else◌,
}
use vasm_ext.Expression.Eval.{eval_expr}
use vasm_ext.Expression.State.{Context, Section, Eval, ◌>>=◌, ◌>>◌, pure, errors}
use vasm_ext.Expression.{Expr}
use vasm_ext.Supp.{Alignment, pcalign}

-- What a processor module and the build provide: the size of an instruction, which may depend on
-- whether RESOLVE_WARN is set; whether a message counts as an error; FASTOPTPHASE and `maxpasses`.
-- `nesting` bounds the nesting of equates in expressions.
pub record Processor : Type 0 where
  pub instruction_size : ℕ → Context → Bool → Eval ℕ
  pub is_error : ℕ → Bool
  pub fastoptphase : ℕ
  pub maxpasses : ℕ
  pub nesting : ℕ

pub record Sblock : Type 0 where
  pub space : ℕ
  pub space_exp : Expr
  pub size : ℕ
  pub maxalignbytes : ℕ

-- The types of atoms with their contents, for processors without HAVE_CPU_OPTS. A label is the
-- number of its symbol, an instruction its number and whether its code is not negative.
pub data AtomContent : Type 0 where
  vasmdebug srcline opts printtext printexpr assertion nlist rorgend : AtomContent
  label : ℕ → AtomContent
  datablock : ℕ → AtomContent
  instruction : ℕ → Bool → AtomContent
  space : Sblock → AtomContent
  datadef : ℕ → AtomContent
  roffs : Expr → AtomContent
  rorg : ℕ → AtomContent

pub record SecAtom : Type 0 where
  pub content : AtomContent
  pub align : ℕ
  pub lastsize : ℕ
  pub changes : ℕ

abbrev pub maxalignbytes : AtomContent → ℕ
maxalignbytes (space sb) = sb.maxalignbytes
maxalignbytes c = 0

abbrev pub alignment : SecAtom → Alignment
alignment a = record { align = a.align; maxalignbytes = maxalignbytes a.content }

-- `space_size` before the final pass, in which also the octets to fill the space are evaluated.
unfoldable pub space_size : Context → ℕ → Sblock → Eval (ℕ × AtomContent)
space_size c nesting sb = do
  v ← eval_expr c nesting sb.space_exp
  (if v.cnst || not c.final_pass
      then pure (mul64 sb.size v.result, space (record sb { space = v.result }))
      else (errors (30 ∷ []) >> pure (mul64 sb.size v.result, space sb)))

abbrev pub section_org : Context → Option ℕ → ℕ
section_org c none = 0
section_org c (some n) = (c.sections n).org

unfoldable pub roffs_size : Context → ℕ → Expr → Eval ℕ
roffs_size c nesting offset = do
  v ← eval_expr c nesting offset
  let there = add64 (section_org c c.sec) v.result
  pure (if ltb c.pc there then sub64 there c.pc else 0)

-- The size of an atom, and its content, in which the space is updated.
unfoldable pub atom_size : Processor → Context → Bool → AtomContent → Eval (ℕ × AtomContent)
atom_size p c warn (datablock size) = pure (size, datablock size)
atom_size p c warn (instruction n code) =
    if code
    then (p.instruction_size n c warn >>= λ size. pure (size, instruction n code))
    else pure (0, instruction n code)
atom_size p c warn (space sb) = space_size c p.nesting sb
atom_size p c warn (datadef bitsize) = pure ((bitsize + 7) / 8, datadef bitsize)
atom_size p c warn (roffs offset) =
    roffs_size c p.nesting offset >>= λ size. pure (size, roffs offset)
atom_size p c warn other = pure (0, other)

-- The section for which atoms are added: its atoms, the last one first, its pc and alignment.
pub record AtomList : Type 0 where
  pub atoms : List (SecAtom × ℕ)
  pub pc : ℕ
  pub align : ℕ

abbrev pub is_label : AtomContent → Bool
is_label (label n) = true
is_label c = false

abbrev pub takes_space : AtomContent → Bool
takes_space (instruction n code) = true
takes_space (datadef bitsize) = true
takes_space (space sb) = true
takes_space c = false

-- A label on the line of the atom gets its alignment; each atom is stored with its line.
abbrev pub align_label : SecAtom → ℕ → List (SecAtom × ℕ) → List (SecAtom × ℕ)
align_label a line [] = []
align_label a line ((pa, paline) ∷ rest) =
    if is_label pa.content && (paline == line) && takes_space a.content
    then (record pa { align = a.align }, paline) ∷ rest
    else (pa, paline) ∷ rest

-- `cur` is the context for the section at a pc; listings are left out.
unfoldable pub internal_add_atom :
    Processor → (ℕ → Context) → AtomList → SecAtom → ℕ → Eval AtomList
internal_add_atom p cur sec a line =
    let start = pcalign (alignment a) sec.pc in
    atom_size p (cur start) false a.content >>= λ r. pure (record {
      atoms =
          (record a { content = r.1; lastsize = r.0; changes = 0 }, line)
          ∷ align_label a line sec.atoms;
      pc = add64 start r.0;
      align = if ltb sec.align a.align then a.align else sec.align;
    })
