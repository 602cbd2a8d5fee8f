-- ===== src/Atoms/Stable.antt =====
-- When a pass ends stable, every label is where the sizes of the atoms put it.
use mathlib.Core.Bool.{false≢true}
use vasm_ext.Common.{
  ℕ, ◌≡◌, refl, sym, ap, ◌∙◌, arith, Bool, true, false, not, ◌&&◌, Option, ltb, ◌==◌, Bool-cases,
  ==_iff, inl, inr,
}
use vasm_ext.Expression.Frame.{SamePc}
use vasm_ext.Expression.State.{
  State, Context, Outcome, done, stop, null_access, out_of_fuel, bind, pure, put, is_labsym,
}
use vasm_ext.Supp.{pcalign}
use vasm_ext.Atoms.Layout.{
  Place, place_of, close, shift, start_of, advance, behind, LabelAt, Updated, shift_updated,
  maxalignbytes_updated,
}
use vasm_ext.Atoms.Resolve.{
  Pass, section_context, leave_rorg, move_label, enter_atom, is_instruction, resized, size_atom,
  resolve_atom,
}
use vasm_ext.Atoms.{Processor, AtomContent, rorgend, label, rorg, SecAtom, alignment}
use vasm_ext.Atoms.Sized.{
  SparesLabels, Sized, sized, size_stops, size_faults, size_runs_out, here, atom_size-Sized,
}

-- An atom is entered: in a pass that stays stable no label moves, and the pc is at the atom's start.
record Entered (cpc : Option ℕ) (content : AtomContent) (s : Pass) (st : State) (s' : Pass)
    (t : State) : Type 0 where
  was_stable : s.stable ≡ true
  spares : SamePc cpc st t
  label_at : LabelAt cpc t.symbols content (shift content (place_of s))
  at_start : place_of s' ≡ shift content (place_of s)

data Enters (cpc : Option ℕ) (content : AtomContent) (s : Pass) (st : State)
    : Outcome Pass → Type 0 where
  enters :
      (s' : Pass) (t : State)
      → (s'.stable ≡ true → Entered cpc content s st s' t)
      → Enters cpc content s st (done s' t)
  enter_stops : (n : ℕ) → Enters cpc content s st (stop n)

move_label-Enters :
    (cpc : Option ℕ) (n : ℕ) (s : Pass) (st : State)
    → Enters cpc (label n) s st (move_label n s (st.symbols n) st)
unfolding put shift LabelAt place_of
move_label-Enters cpc n s st = elim (Bool-cases (is_labsym (st.symbols n).type)) [
  | inl e ↦ elim (Bool-cases ((st.symbols n).pc == s.pc)) [
    | inl p ↦
        rw (e, p)
          (enters s st (λ h. record {
            was_stable = h;
            spares = here cpc st;
            label_at = λ q. (==_iff _ _).0 p;
            at_start = refl;
          }))
    | inr p ↦ rw (e, p) (enters _ _ (λ h. absurd (false≢true h)))
  ]
  | inr e ↦ rw e (enter_stops 0)
]

pub close-leave_rorg : (s : Pass) → place_of (leave_rorg s) ≡ close (place_of s)
unfolding place_of leave_rorg close
close-leave_rorg s = elim (Bool-cases s.in_rorg) [ inl e ↦ rw e refl | inr e ↦ rw e refl ]

pub leave_rorg-stable : (s : Pass) → (leave_rorg s).stable ≡ s.stable
unfolding leave_rorg
leave_rorg-stable s = elim (Bool-cases s.in_rorg) [ inl e ↦ rw e refl | inr e ↦ rw e refl ]

enter_atom-Enters :
    (cpc : Option ℕ) (content : AtomContent) (s : Pass) (st : State)
    → Enters cpc content s st (enter_atom content s st)
unfolding enter_atom shift LabelAt place_of
enter_atom-Enters cpc (rorg r) s st = elim (Bool-cases s.in_rorg) [
  | inl e ↦ rw e (enter_stops 43)
  | inr e ↦ rw e (
      enters _ st
        (λ h. record { was_stable = h; spares = here cpc st; label_at = tt; at_start = refl }))
]
enter_atom-Enters cpc (label n) s st = move_label-Enters cpc n s st
enter_atom-Enters cpc rorgend s st = enters _ st (λ h. record {
  was_stable = sym (leave_rorg-stable s) ∙ h;
  spares = here cpc st;
  label_at = tt;
  at_start = close-leave_rorg s;
})
enter_atom-Enters cpc other s st =
    enters s st
      (λ h. record { was_stable = h; spares = here cpc st; label_at = tt; at_start = refl })

-- An atom is passed: nothing but the octets of a space has changed.
pub record Passed (cpc : Option ℕ) (a : SecAtom) (s : Pass) (st : State) (a' : SecAtom) (s' : Pass)
    (t : State) : Type 0 where
  pub was_stable : s.stable ≡ true
  pub spares : SamePc cpc st t
  pub updated : Updated a.content a'.content
  pub same_align : a'.align ≡ a.align
  pub same_size : a'.lastsize ≡ a.lastsize
  pub label_at : LabelAt cpc t.symbols a.content (start_of a (place_of s))
  pub at_end : place_of s' ≡ behind a (place_of s)

pub data Passes (cpc : Option ℕ) (a : SecAtom) (s : Pass) (st : State)
    : Outcome (SecAtom × Pass) → Type 0 where
  passes :
      (a' : SecAtom) (s' : Pass) (t : State)
      → (s'.stable ≡ true → Passed cpc a s st a' s' t)
      → Passes cpc a s st (done (a', s') t)
  pass_stops : (n : ℕ) → Passes cpc a s st (stop n)
  pass_faults : Passes cpc a s st null_access
  pass_runs_out : Passes cpc a s st out_of_fuel

-- The labels that are placed stay where they are while no pc of a symbol changes.
pub LabelAt-SamePc :
    (cpc : Option ℕ) (content : AtomContent) (w : Place) (s t : State)
    → SamePc cpc s t
    → LabelAt cpc s.symbols content w
    → LabelAt cpc t.symbols content w
unfolding LabelAt
LabelAt-SamePc cpc (label n) w s t h l = λ e. h n e ∙ l e
LabelAt-SamePc cpc other w s t h l = tt

skipped_unstable :
    (fast stable inst : Bool) → (not fast && not stable && inst) ≡ true → stable ≡ true → ⊥
skipped_unstable fast true inst e q = ground arith
skipped_unstable fast false inst e q = false≢true q

-- The size of an atom is found.
resized-Passes :
    (cpc : Option ℕ) (fast : Bool) (a : SecAtom) (s : Pass) (st : State) (s₁ : Pass) (t : State)
    (o : Outcome (ℕ × AtomContent))
    → (s₁.stable ≡ true
        → Entered cpc a.content (record s { pc = pcalign (alignment a) s.pc }) st s₁ t)
    → Sized cpc a.content t o
    → Passes cpc a s st (bind o (λ r. pure (resized fast a s₁ r)))
unfolding resized start_of behind place_of
resized-Passes cpc fast a s st s₁ t _ h (sized size d u k up) =
    elim (Bool-cases (size == a.lastsize)) [
      | inl e ↦ rw e (
          passes _ _ u (λ q.
            let n = h q in
            record {
              was_stable = n.was_stable;
              spares = λ m p. k m p ∙ n.spares m p;
              updated = up;
              same_align = refl;
              same_size = refl;
              label_at = LabelAt-SamePc cpc a.content _ t u k n.label_at;
              at_end =
                  ap (advance size) n.at_start
                  ∙ ap (λ k. advance k (start_of a (place_of s))) ((==_iff size a.lastsize).0 e);
            }))
      | inr e ↦ rw e (passes _ _ u (λ q. absurd (false≢true q)))
    ]
resized-Passes cpc fast a s st s₁ t _ h (size_stops n) = pass_stops n
resized-Passes cpc fast a s st s₁ t _ h size_faults = pass_faults
resized-Passes cpc fast a s st s₁ t _ h size_runs_out = pass_runs_out

size_atom-Passes :
    (p : Processor) (c : Context) (sec : ℕ) (fast : Bool) (a : SecAtom) (s : Pass) (st : State)
    (s₁ : Pass) (t : State)
    → SparesLabels p
    → (s₁.stable ≡ true
        → Entered c.cpc a.content (record s { pc = pcalign (alignment a) s.pc }) st s₁ t)
    → Passes c.cpc a s st (size_atom p c sec fast a s₁ t)
unfolding size_atom section_context start_of behind place_of
size_atom-Passes p c sec fast a s st s₁ t spare h =
    elim (Bool-cases (not fast && not s₁.stable && is_instruction a.content)) [
      | inl e ↦ rw e (
          passes _ _ t
            (λ q. absurd (skipped_unstable fast s₁.stable (is_instruction a.content) e q)))
      | inr e ↦ rw e (
          resized-Passes c.cpc fast a s st s₁ t _ h
            (atom_size-Sized p (section_context c sec s₁) (ltb 5 a.changes) a.content t spare))
    ]

enter_then :
    (p : Processor) (c : Context) (sec : ℕ) (fast : Bool) (a : SecAtom) (s : Pass) (st : State)
    (o : Outcome Pass)
    → SparesLabels p
    → Enters c.cpc a.content (record s { pc = pcalign (alignment a) s.pc }) st o
    → Passes c.cpc a s st (bind o (size_atom p c sec fast a))
enter_then p c sec fast a s st _ spare (enters s₁ t h) =
    size_atom-Passes p c sec fast a s st s₁ t spare h
enter_then p c sec fast a s st _ spare (enter_stops n) = pass_stops n

pub resolve_atom-Passes :
    (p : Processor) (c : Context) (sec : ℕ) (fast : Bool) (a : SecAtom) (s : Pass) (st : State)
    → SparesLabels p
    → Passes c.cpc a s st (resolve_atom p c sec fast a s st)
unfolding resolve_atom
resolve_atom-Passes p c sec fast a s st spare =
    let aligned : Pass = record s { pc = pcalign (alignment a) s.pc } in
    enter_then p c sec fast a s st _ spare (enter_atom-Enters c.cpc a.content aligned st)

-- The atom that is left is at the same place as the one before.
pub start_updated :
    (a b : SecAtom) (w : Place)
    → Updated a.content b.content
    → b.align ≡ a.align
    → start_of b w ≡ start_of a w
unfolding start_of
start_updated a b w up e = rw (e, maxalignbytes_updated up) (shift_updated _ up)
