-- ===== src/Atoms/Resolve.antt =====
-- `resolve_section` and `resolve`: passes over the atoms until no size and no label changes.
use vasm_ext.Common.Word.{add64, sub64}
use vasm_ext.Common.{
  ℕ, zero, suc, ◌+◌, ◌%◌, ◌^◌, Bool, true, false, not, ◌&&◌, ◌||◌, some, List, [], ◌∷◌, ltb, leb,
  ◌==◌, if◌then◌else◌,
}
use vasm_ext.Expression.State.{
  Symbol, Context, done, Eval, ◌>>=◌, ◌>>◌, pure, get, put, stop, is_labsym, out_of_fuel,
}
use vasm_ext.Atoms.{
  Processor, AtomContent, rorgend, label, instruction, rorg, SecAtom, alignment, atom_size,
}
use vasm_ext.Supp.{pcalign}

-- The fields of the section that a pass changes, with its variables `done` and `extrapass`.
pub record Pass : Type 0 where
  pub pc : ℕ
  pub absolute : Bool
  pub in_rorg : Bool
  pub saved_pc : ℕ
  pub rorg_pc : ℕ
  pub stable : Bool
  pub extrapass : Bool

-- The section at the pc, before the final pass.
unfoldable pub section_context : Context → ℕ → Pass → Context
section_context c sec s = record c {
  final_pass = false;
  sections =
      λ k. if k == sec then record (c.sections k) { absolute = s.absolute } else c.sections k;
  sec = some sec;
  pc = s.pc;
}

unfoldable pub leave_rorg : Pass → Pass
leave_rorg s =
    if s.in_rorg
    then record s {
      pc = add64 s.saved_pc (sub64 s.pc s.rorg_pc);
      absolute = false;
      in_rorg = false;
    }
    else s

-- A label whose pc differs moves; `ierror(0)` for another symbol.
abbrev pub move_label : ℕ → Pass → Symbol → Eval Pass
move_label n s l =
    if not (is_labsym l.type)
    then (λ st. stop 0)
    else if l.pc == s.pc
    then pure s
    else (put n (record l { pc = s.pc }) >> pure (record s { stable = false }))

-- What an atom does to the pc before its size is added. Message 43, for a RORG within another, is
-- fatal.
unfoldable pub enter_atom : AtomContent → Pass → Eval Pass
enter_atom (rorg r) s =
    if s.in_rorg
    then (λ st. stop 43)
    else pure (record s { pc = r; absolute = true; in_rorg = true; saved_pc = s.pc; rorg_pc = r })
enter_atom (label n) s = get n >>= move_label n s
enter_atom rorgend s = pure (leave_rorg s)
enter_atom other s = pure s

abbrev pub is_instruction : AtomContent → Bool
is_instruction (instruction n code) = true
is_instruction c = false

abbrev pub maxsizechanges : ℕ
maxsizechanges = 5

-- The atom with its size, `fast` in the fast phase.
unfoldable pub resized : Bool → SecAtom → Pass → ℕ × AtomContent → SecAtom × Pass
resized fast a s (size, content) =
    if size == a.lastsize
    then (record a { content = content }, record s { pc = add64 s.pc size })
    else (
      record a {
        content = content;
        lastsize = size;
        changes = if fast then a.changes else (a.changes + 1) % 2 ^ 32;
      },
      record s {
        pc = add64 s.pc size;
        stable = false;
        extrapass = if fast && ltb a.lastsize size then false else s.extrapass;
      },
    )

-- Behind the fast phase an instruction keeps its size once another atom has changed in the pass.
unfoldable pub size_atom : Processor → Context → ℕ → Bool → SecAtom → Pass → Eval (SecAtom × Pass)
size_atom p c sec fast a s =
    if not fast && not s.stable && is_instruction a.content
    then pure (a, record s { pc = add64 s.pc a.lastsize })
    else (atom_size p (section_context c sec s) (ltb maxsizechanges a.changes) a.content >>= λ r.
        pure (resized fast a s r))

unfoldable pub resolve_atom :
    Processor → Context → ℕ → Bool → SecAtom → Pass → Eval (SecAtom × Pass)
resolve_atom p c sec fast a s =
    enter_atom a.content (record s { pc = pcalign (alignment a) s.pc }) >>= size_atom p c sec fast a

unfoldable pub resolve_atoms :
    Processor → Context → ℕ → Bool → List SecAtom → Pass → Eval (List SecAtom × Pass)
resolve_atoms p c sec fast [] s = pure ([], s)
resolve_atoms p c sec fast (a ∷ rest) s = do
  x ← resolve_atom p c sec fast a s
  later ← resolve_atoms p c sec fast rest x.1
  pure (x.0 ∷ later.0, later.1)

-- One pass; a RORG that is left open ends with the section.
unfoldable pub resolve_pass :
    Processor → Context → ℕ → Bool → List SecAtom → Pass → Eval (List SecAtom × Pass)
resolve_pass p c sec fast atoms s = do
  x ←
      resolve_atoms p c sec fast atoms
        (record s { pc = (c.sections sec).org; stable = true; extrapass = fast })
  pure (x.0, leave_rorg x.1)

abbrev pub any_error : Processor → List ℕ → Bool
any_error p [] = false
any_error p (n ∷ rest) = p.is_error n || any_error p rest

-- `errors==0`
abbrev pub no_errors : Processor → Eval Bool
no_errors p st = done (not (any_error p st.errors)) st

-- What `resolve_section` leaves: the number of passes, the atoms, and the section.
pub record Resolved : Type 0 where
  pub passes : ℕ
  pub atoms : List SecAtom
  pub section : Pass

-- The loop, with the passes so far and the end of the fast phase. At the limit the fatal message 7
-- ends the run.
unfoldable pub resolve_loop :
    ℕ → Processor → Context → ℕ → ℕ → ℕ → List SecAtom → Pass → Eval Resolved
resolve_loop zero p c sec pass fastphase atoms s = λ st. out_of_fuel
resolve_loop (suc n) p c sec pass fastphase atoms s =
    if leb p.maxpasses (pass + 1) then (λ st. stop 7) else (do
      x ← resolve_pass p c sec (leb (pass + 1) fastphase) atoms s
      ok ← no_errors p
      (if ok && not x.1.stable
          then resolve_loop n p c sec (pass + 1)
              (if x.1.extrapass then fastphase + 1 else fastphase) x.0 x.1
          else pure (record { passes = pass + 1; atoms = x.0; section = x.1 })))

-- A pass more than `maxpasses` is not begun.
unfoldable pub resolve_section : Processor → Context → ℕ → List SecAtom → Pass → Eval Resolved
resolve_section p c sec atoms s = resolve_loop (suc p.maxpasses) p c sec 0 p.fastoptphase atoms s
