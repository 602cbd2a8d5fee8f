-- ===== src/Atoms/Passes.antt =====
-- A pass over all atoms of a section, and what the last one leaves.
use vasm_ext.Common.{ℕ, ◌≡◌, refl, sym, ◌∙◌, Bool, true, Option, List, [], ◌∷◌, map}
use vasm_ext.Expression.Frame.{SamePc}
use vasm_ext.Expression.State.{
  State, Context, Outcome, done, stop, null_access, out_of_fuel, bind, ◌>>=◌, pure,
}
use vasm_ext.Atoms.Layout.{Place, place_of, start_of, behind, end_of, LaidOut, LabelAt_updated}
use vasm_ext.Atoms.Sized.{SparesLabels}
use vasm_ext.Atoms.Stable.{
  Passed, Passes, passes, pass_stops, pass_faults, pass_runs_out, resolve_atom-Passes,
  start_updated, LabelAt-SamePc,
}
use vasm_ext.Atoms.Resolve.{Pass, resolve_atoms}
use vasm_ext.Atoms.{Processor, SecAtom}

-- A whole pass.
pub record PassedAll (cpc : Option ℕ) (atoms : List SecAtom) (s : Pass) (st : State)
    (atoms' : List SecAtom) (s' : Pass) (t : State) : Type 0 where
  pub was_stable : s.stable ≡ true
  pub spares : SamePc cpc st t
  pub sizes : map (λ a. a.lastsize) atoms' ≡ map (λ a. a.lastsize) atoms
  pub laid_out : LaidOut cpc t.symbols atoms' (place_of s)
  pub at_end : place_of s' ≡ end_of atoms' (place_of s)

pub data PassesAll (cpc : Option ℕ) (atoms : List SecAtom) (s : Pass) (st : State)
    : Outcome (List SecAtom × Pass) → Type 0 where
  passes_all :
      (atoms' : List SecAtom) (s' : Pass) (t : State)
      → (s'.stable ≡ true → PassedAll cpc atoms s st atoms' s' t)
      → PassesAll cpc atoms s st (done (atoms', s') t)
  all_stops : (n : ℕ) → PassesAll cpc atoms s st (stop n)
  all_faults : PassesAll cpc atoms s st null_access
  all_runs_out : PassesAll cpc atoms s st out_of_fuel

behind_updated :
    (a b : SecAtom) (w : Place)
    → start_of b w ≡ start_of a w
    → b.lastsize ≡ a.lastsize
    → behind b w ≡ behind a w
unfolding behind
behind_updated a b w e f = rw (e, f) refl

module _ (p : Processor) (c : Context) (sec : ℕ) (fast : Bool) where
  other_atoms :
      (a : SecAtom) (rest : List SecAtom) (s : Pass) (st : State) (a' : SecAtom) (s' : Pass)
      (t : State) (o : Outcome (List SecAtom × Pass))
      → (s'.stable ≡ true → Passed c.cpc a s st a' s' t)
      → PassesAll c.cpc rest s' t o
      → PassesAll c.cpc (a ∷ rest) s st (bind o (λ later. pure (a' ∷ later.0, later.1)))
  unfolding LaidOut end_of
  other_atoms a rest s st a' s' t _ h (passes_all atoms' s'' u k) = passes_all _ s'' u (λ q.
      let later = k q in
      let first = h later.was_stable in
      let start = start_updated a a' (place_of s) first.updated first.same_align in
      let next = first.at_end ∙ sym (behind_updated a a' (place_of s) start first.same_size) in
      let label =
        LabelAt-SamePc c.cpc a.content (start_of a (place_of s)) t u later.spares first.label_at in
      record {
        was_stable = first.was_stable;
        spares = λ m e. later.spares m e ∙ first.spares m e;
        sizes = rw (first.same_size, later.sizes) refl;
        laid_out = (
          rw start (LabelAt_updated c.cpc u.symbols (start_of a (place_of s)) first.updated label),
          rw (← next) later.laid_out,
        );
        at_end = rw (← next) later.at_end;
      })
  other_atoms a rest s st a' s' t _ h (all_stops n) = all_stops n
  other_atoms a rest s st a' s' t _ h all_faults = all_faults
  other_atoms a rest s st a' s' t _ h all_runs_out = all_runs_out

  first_atom :
      (a : SecAtom) (rest : List SecAtom) (s : Pass) (st : State) (o : Outcome (SecAtom × Pass))
      → Passes c.cpc a s st o
      → ((s' : Pass) (t : State) → PassesAll c.cpc rest s' t (resolve_atoms p c sec fast rest s' t))
      → PassesAll c.cpc (a ∷ rest) s st (
          bind o
            (λ x. resolve_atoms p c sec fast rest x.1 >>= λ later. pure (x.0 ∷ later.0, later.1)))
  first_atom a rest s st _ (passes a' s' t h) k = other_atoms a rest s st a' s' t _ h (k s' t)
  first_atom a rest s st _ (pass_stops n) k = all_stops n
  first_atom a rest s st _ pass_faults k = all_faults
  first_atom a rest s st _ pass_runs_out k = all_runs_out

  pub resolve_atoms-PassesAll :
      (atoms : List SecAtom) (s : Pass) (st : State)
      → SparesLabels p
      → PassesAll c.cpc atoms s st (resolve_atoms p c sec fast atoms s st)
  unfolding resolve_atoms LaidOut end_of
  resolve_atoms-PassesAll [] s st spare = passes_all [] s st (λ q. record {
    was_stable = q;
    spares = λ m e. refl;
    sizes = refl;
    laid_out = tt;
    at_end = refl;
  })
  resolve_atoms-PassesAll (a ∷ rest) s st spare =
      first_atom a rest s st _ (resolve_atom-Passes p c sec fast a s st spare)
        (λ s' t. resolve_atoms-PassesAll rest s' t spare)
