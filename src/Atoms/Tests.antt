-- ===== src/Atoms/Tests.antt =====
-- A section with a label and data, on which the theorems of the passes are applied.
use vasm_ext.Common.{ℕ, ◌≡◌, refl, arith, true, false, some, List, [], ◌∷◌, leb}
use vasm_ext.Expression.Addresses.{eval_expr-Frame}
use vasm_ext.Expression.Eval.{eval_expr}
use vasm_ext.Expression.Frame.{Frame, Frame-done}
use vasm_ext.Expression.State.{Context, State, Symbol, done, stop, pure, labsym}
use vasm_ext.Expression.{Build, num, symbol}
use vasm_ext.Supp.{pcalign}
use vasm_ext.Atoms.Ends.{Settled, resolve_section-Settled}
use vasm_ext.Atoms.InPlace.{InPlace, end_pc, resolve_section-InPlace}
use vasm_ext.Atoms.Resolve.{
  Pass, Resolved, resolve_section, resolve_loop, resolve_pass, resolve_atoms, resolve_atom,
  enter_atom, size_atom, resized,
}
use vasm_ext.Atoms.{
  Processor, SecAtom, AtomContent, label, datablock, instruction, space, rorg, atom_size,
}

-- Instructions of two octets.
abbrev processor : Processor
processor = record {
  instruction_size = λ n c warn. pure 2;
  is_error = λ n. true;
  fastoptphase = 200;
  maxpasses = 1500;
  nesting = 10;
}

abbrev build : Build
build = record {
  bitspertaddr = 64;
  target_bits = 32;
  true_is_minus_one = true;
  undefined_shift = λ op a b. 0;
  undefined_huge_shift = λ op h n. h;
  undefined_chkrange = λ h. true;
}

abbrev context : Context
context = record {
  build = build;
  final_pass = false;
  num_secs = 1;
  sections = λ k. record { org = 0x1000; unallocated = false; absolute = true };
  cpc = some 0;
  sec = some 0;
  pc = 0;
}

abbrev label_at : ℕ → Symbol
label_at pc = record {
  type = labsym;
  weak = false;
  abslabel = false;
  ineval = false;
  export = false;
  referenced = false;
  sec = some 0;
  pc = pc;
}

-- All symbols are labels behind three octets of data and one to align them.
abbrev state : State
state = record { symbols = λ n. label_at 0x1004; dep = λ d s. false; errors = [] }

abbrev atom : AtomContent → ℕ → ℕ → SecAtom
atom content align size = record { content = content; align = align; lastsize = size; changes = 0 }

abbrev atoms : List SecAtom
atoms = atom (datablock 3) 1 3 ∷ atom (label 1) 2 0 ∷ atom (datablock 4) 2 4 ∷ []

abbrev start : Pass
start = record {
  pc = 0;
  absolute = true;
  in_rorg = false;
  saved_pc = 0;
  rorg_pc = 0;
  stable = false;
  extrapass = false;
}

abbrev found : Resolved
found = record {
  passes = 1;
  atoms = atoms;
  section = record start {
    pc = end_pc atoms 0x1000;
    stable = true;
    extrapass = leb 1 processor.fastoptphase;
  };
}

eval_expr-Frame_example : Frame (some 0) (eval_expr context 10 (symbol 3))
eval_expr-Frame_example = eval_expr-Frame context 10 (symbol 3)

atoms-InPlace : InPlace state.symbols atoms 0x1000
unfolding pcalign
atoms-InPlace = (refl, tt, (refl, (refl, refl), (refl, tt, tt)))

resolve_section-InPlace_example :
    resolve_section processor context 0 atoms start state ≡ done found state
resolve_section-InPlace_example =
    resolve_section-InPlace processor context 0 atoms start state (omega arith) refl refl
      atoms-InPlace

in_one_pass : resolve_section processor context 0 atoms start state ≡ done found state
in_one_pass =
    resolve_section-InPlace processor context 0 atoms start state (omega arith) refl refl
      atoms-InPlace

resolve_section-Settled_example : Settled context 0 found state
resolve_section-Settled_example =
    resolve_section-Settled processor context 0 atoms start state found state
      (λ n c warn. Frame-done c.cpc 2) refl in_one_pass refl

-- An instruction and a space of four octets, whose sizes are not yet known.
abbrev unsized : List SecAtom
unsized =
    atom (instruction 0 true) 2 0
    ∷ atom (space (record { space = 0; space_exp = num 4; size = 1; maxalignbytes = 0 })) 1 0
    ∷ []

-- A RORG within another, and a section with no pass to spend.
nested_rorg :
    resolve_section processor context 0 (atom (rorg 0) 1 0 ∷ atom (rorg 0) 1 0 ∷ []) start state
    ≡ stop 43
unfolding resolve_section resolve_loop resolve_pass resolve_atoms resolve_atom enter_atom size_atom
    atom_size resized pcalign
nested_rorg = refl

no_pass : resolve_section (record processor { maxpasses = 1 }) context 0 atoms start state ≡ stop 7
unfolding resolve_section resolve_loop
no_pass = refl
