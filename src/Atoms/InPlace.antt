-- ===== src/Atoms/InPlace.antt =====
-- A section that is laid out already: one pass finds it as it is.
use vasm_ext.Common.Word.{add64}
use vasm_ext.Common.{
  ℕ, ◌+◌, ◌/◌, ◌<◌, ◌≡◌, refl, ap, ◌∙◌, arith, Bool, true, false, not, ◌&&◌, List, [], ◌∷◌, ltb,
  leb, ◌==◌, if◌then◌else◌, ==_iff,
}
use vasm_ext.Expression.State.{Symbol, State, Context, done, bind, ◌>>=◌, pure, is_labsym}
use vasm_ext.Supp.{pcalign}
use vasm_ext.Atoms.Resolve.{
  Pass, section_context, is_instruction, leave_rorg, enter_atom, resized, size_atom, resolve_atom,
  resolve_atoms, resolve_pass, resolve_loop, resolve_section, no_errors, any_error,
}
use vasm_ext.Atoms.{
  Processor, AtomContent, rorgend, label, datablock, instruction, space, datadef, roffs, rorg,
  SecAtom, alignment, atom_size,
}

-- Contents whose size does not depend on the pass, with that size.
abbrev pub HasSize : AtomContent → ℕ → Type 0
HasSize (datablock n) size = size ≡ n
HasSize (datadef bitsize) size = size ≡ (bitsize + 7) / 8
HasSize (instruction n true) size = ⊥
HasSize (instruction n false) size = size ≡ 0
HasSize (space sb) size = ⊥
HasSize (roffs offset) size = ⊥
HasSize (rorg r) size = ⊥
HasSize other size = size ≡ 0

-- A label is defined at the address.
abbrev pub IsAt : (ℕ → Symbol) → AtomContent → ℕ → Type 0
IsAt symbols (label n) pc = (is_labsym (symbols n).type ≡ true) × ((symbols n).pc ≡ pc)
IsAt symbols other pc = Unit

-- The atoms lie behind one another from the address on, each with its size.
abbrev pub InPlace : (ℕ → Symbol) → List SecAtom → ℕ → Type 0
InPlace symbols [] pc = Unit
InPlace symbols (a ∷ rest) pc =
    HasSize a.content a.lastsize
    × IsAt symbols a.content (pcalign (alignment a) pc)
    × InPlace symbols rest (add64 (pcalign (alignment a) pc) a.lastsize)

unfoldable pub end_pc : List SecAtom → ℕ → ℕ
end_pc [] pc = pc
end_pc (a ∷ rest) pc = end_pc rest (add64 (pcalign (alignment a) pc) a.lastsize)

enter_unmoved :
    (content : AtomContent) (size : ℕ) (s : Pass) (st : State)
    → s.in_rorg ≡ false
    → HasSize content size
    → IsAt st.symbols content s.pc
    → enter_atom content s st ≡ done s st
unfolding enter_atom leave_rorg
enter_unmoved (label n) size s st out h at =
    let p : ((st.symbols n).pc == s.pc) ≡ true = (==_iff _ _).1 at.1 in rw (at.0, p) refl
enter_unmoved rorgend size s st out h at = rw out refl
enter_unmoved (rorg r) size s st out h at = absurd h
enter_unmoved other size s st out h at = refl

atom_size-HasSize :
    (p : Processor) (c : Context) (warn : Bool) (content : AtomContent) (size : ℕ) (st : State)
    → HasSize content size
    → atom_size p c warn content st ≡ done (size, content) st
unfolding atom_size
atom_size-HasSize p c warn (datablock n) size st h = rw h refl
atom_size-HasSize p c warn (datadef b) size st h = rw h refl
atom_size-HasSize p c warn (instruction n true) size st h = absurd h
atom_size-HasSize p c warn (instruction n false) size st h = rw h refl
atom_size-HasSize p c warn (space sb) size st h = absurd h
atom_size-HasSize p c warn (roffs offset) size st h = absurd h
atom_size-HasSize p c warn (rorg r) size st h = absurd h
atom_size-HasSize p c warn other size st h = rw h refl

not_skipped : (fast stable inst : Bool) → stable ≡ true → (not fast && not stable && inst) ≡ false
not_skipped fast stable inst h = ground arith

size_unmoved :
    (p : Processor) (c : Context) (sec : ℕ) (fast : Bool) (a : SecAtom) (s : Pass) (st : State)
    → s.stable ≡ true
    → HasSize a.content a.lastsize
    → size_atom p c sec fast a s st ≡ done (a, record s { pc = add64 s.pc a.lastsize }) st
unfolding size_atom resized
size_unmoved p c sec fast a s st stable h =
    let found =
      atom_size-HasSize p (section_context c sec s) (ltb 5 a.changes) a.content a.lastsize st h in
    let equal : (a.lastsize == a.lastsize) ≡ true = (==_iff a.lastsize a.lastsize).1 refl in
    rw (not_skipped fast s.stable (is_instruction a.content) stable)
      (ap (λ o. bind o (λ r. pure (resized fast a s r))) found ∙ rw equal refl)

-- The atoms and the symbols are as before, and the pc is at the end.
resolve_atoms-InPlace :
    (p : Processor) (c : Context) (sec : ℕ) (fast : Bool) (atoms : List SecAtom) (s : Pass)
    (st : State)
    → s.stable ≡ true
    → s.in_rorg ≡ false
    → InPlace st.symbols atoms s.pc
    → resolve_atoms p c sec fast atoms s st ≡ done (atoms, record s { pc = end_pc atoms s.pc }) st
unfolding resolve_atoms resolve_atom end_pc
resolve_atoms-InPlace p c sec fast [] s st stable out h = refl
resolve_atoms-InPlace p c sec fast (a ∷ rest) s st stable out (size, at, later) =
    let aligned : Pass = record s { pc = pcalign (alignment a) s.pc } in
    let next : Pass = record aligned { pc = add64 aligned.pc a.lastsize } in
    let more =
      λ (x : SecAtom × Pass). resolve_atoms p c sec fast rest x.1 >>= λ l. pure (x.0 ∷ l.0, l.1) in
    ap (λ o. bind (bind o (size_atom p c sec fast a)) more)
      (enter_unmoved a.content a.lastsize aligned st out size at)
    ∙ ap (λ o. bind o more) (size_unmoved p c sec fast a aligned st stable size)
    ∙ ap (λ o. bind o (λ l. pure (a ∷ l.0, l.1)))
        (resolve_atoms-InPlace p c sec fast rest next st stable out later)

resolve_pass-InPlace :
    (p : Processor) (c : Context) (sec : ℕ) (fast : Bool) (atoms : List SecAtom) (s : Pass)
    (st : State)
    → s.in_rorg ≡ false
    → InPlace st.symbols atoms (c.sections sec).org
    → resolve_pass p c sec fast atoms s st
      ≡ done
          (
            atoms,
            record s { pc = end_pc atoms (c.sections sec).org; stable = true; extrapass = fast },
          )
          st
unfolding resolve_pass leave_rorg
resolve_pass-InPlace p c sec fast atoms s st out h =
    let start : Pass = record s { pc = (c.sections sec).org; stable = true; extrapass = fast } in
    ap (λ o. bind o (λ x. pure (x.0, leave_rorg x.1)))
      (resolve_atoms-InPlace p c sec fast atoms start st refl out h)
    ∙ rw out refl

-- A section whose atoms lie in place from its origin on, with no error so far, is found so by one
-- pass, which changes neither an atom nor a symbol; the section's pc is behind the atoms.
pub resolve_section-InPlace :
    (p : Processor) (c : Context) (sec : ℕ) (atoms : List SecAtom) (s : Pass) (st : State)
    → 1 < p.maxpasses
    → s.in_rorg ≡ false
    → any_error p st.errors ≡ false
    → InPlace st.symbols atoms (c.sections sec).org
    → resolve_section p c sec atoms s st
      ≡ done
          (record {
            passes = 1;
            atoms = atoms;
            section = record s {
              pc = end_pc atoms (c.sections sec).org;
              stable = true;
              extrapass = leb 1 p.fastoptphase;
            };
          })
          st
unfolding resolve_section resolve_loop
resolve_section-InPlace p c sec atoms s st many out errors h =
    let below : leb p.maxpasses 1 ≡ false = ground arith in
    let rest = λ (x : List SecAtom × Pass).
      (no_errors p >>= λ ok.
      if ok && not x.1.stable
      then resolve_loop p.maxpasses p c sec 1
          (if x.1.extrapass then p.fastoptphase + 1 else p.fastoptphase) x.0 x.1
      else pure (record { passes = 1; atoms = x.0; section = x.1 })) in
    rw below (
      ap (λ o. bind o rest) (resolve_pass-InPlace p c sec (leb 1 p.fastoptphase) atoms s st out h)
      ∙ rw errors refl)
