-- ===== src/Atoms/Ends.antt =====
-- What `resolve_section` leaves when it ends stable.
use mathlib.Core.Path.{subst}
use vasm_ext.Common.{
  ℕ, zero, suc, ◌+◌, ◌≡◌, refl, sym, ap, ◌∙◌, true, false, not, ◌&&◌, List, leb, if◌then◌else◌,
  Bool-cases, inl, inr,
}
use vasm_ext.Expression.State.{
  State, Context, Outcome, done, stop, null_access, out_of_fuel, Eval, bind, ◌>>=◌, pure,
}
use vasm_ext.Atoms.Layout.{Place, place_of, close, end_of, LaidOut}
use vasm_ext.Atoms.Passes.{
  PassesAll, passes_all, all_stops, all_faults, all_runs_out, resolve_atoms-PassesAll,
}
use vasm_ext.Atoms.Sized.{SparesLabels}
use vasm_ext.Atoms.Stable.{close-leave_rorg, leave_rorg-stable}
use vasm_ext.Atoms.Resolve.{
  Pass, Resolved, leave_rorg, resolve_pass, resolve_loop, resolve_section, no_errors, any_error,
}
use vasm_ext.Atoms.{Processor, SecAtom}

-- The section as the sizes of its atoms lay it out from its origin, outside of a relocated part.
pub record Settled (c : Context) (sec : ℕ) (r : Resolved) (t : State) : Type 0 where
  pub origin : Place
  pub at_org : origin.pc ≡ (c.sections sec).org
  pub outside : origin.in_rorg ≡ false
  pub laid_out : LaidOut c.cpc t.symbols r.atoms origin
  pub at_end : r.section.pc ≡ (close (end_of r.atoms origin)).pc

data Ends (p : Processor) (c : Context) (sec : ℕ) : Outcome Resolved → Type 0 where
  ends :
      (r : Resolved) (t : State)
      → (r.section.stable ≡ true → Settled c sec r t)
      → Ends p c sec (done r t)
  end_stops : (n : ℕ) → Ends p c sec (stop n)
  end_faults : Ends p c sec null_access
  end_runs_out : Ends p c sec out_of_fuel

leave_rorg-outside : (s : Pass) → (leave_rorg s).in_rorg ≡ false
unfolding leave_rorg
leave_rorg-outside s = elim (Bool-cases s.in_rorg) [ inl e ↦ rw e refl | inr e ↦ rw e refl ]

place_of-pc : (s : Pass) → (place_of s).pc ≡ s.pc
unfolding place_of
place_of-pc s = refl

module _ (p : Processor) (c : Context) (sec : ℕ) where
  -- The rest of the loop behind a pass.
  next_pass : ℕ → ℕ → ℕ → List SecAtom × Pass → Eval Resolved
  next_pass n pass fastphase x = no_errors p >>= λ ok.
      if ok && not x.1.stable
      then resolve_loop n p c sec (pass + 1) (if x.1.extrapass then fastphase + 1 else fastphase)
          x.0 x.1
      else pure (record { passes = pass + 1; atoms = x.0; section = x.1 })

  begin : ℕ → ℕ → Pass → Pass
  begin pass fastphase s = record s {
    pc = (c.sections sec).org;
    stable = true;
    extrapass = leb (pass + 1) fastphase;
  }

  after_pass :
      (n pass fastphase : ℕ) (atoms : List SecAtom) (s : Pass) (st : State)
      (o : Outcome (List SecAtom × Pass))
      → s.in_rorg ≡ false
      → PassesAll c.cpc atoms (begin pass fastphase s) st o
      → ((fp : ℕ) (l : List SecAtom) (s' : Pass) (t : State)
          → s'.in_rorg ≡ false
          → Ends p c sec (resolve_loop n p c sec (pass + 1) fp l s' t))
      → Ends p c sec (bind (bind o (λ x. pure (x.0, leave_rorg x.1))) (next_pass n pass fastphase))
  unfolding next_pass begin
  after_pass n pass fastphase atoms s st _ out (passes_all l s' t h) k =
      elim (Bool-cases (not (any_error p t.errors) && not (leave_rorg s').stable)) [
        | inl e ↦ rw e (k _ l (leave_rorg s') t (leave_rorg-outside s'))
        | inr e ↦ rw e (
            ends (record { passes = pass + 1; atoms = l; section = leave_rorg s' }) t
              (λ q.
                let all = h (sym (leave_rorg-stable s') ∙ q) in
                record {
                  origin = place_of (begin pass fastphase s);
                  at_org = unfold place_of in refl;
                  outside = unfold place_of in out;
                  laid_out = all.laid_out;
                  at_end =
                      sym (place_of-pc (leave_rorg s'))
                      ∙ ap (λ w. w.pc) (close-leave_rorg s' ∙ ap close all.at_end);
                }))
      ]
  after_pass n pass fastphase atoms s st _ out (all_stops m) k = end_stops m
  after_pass n pass fastphase atoms s st _ out all_faults k = end_faults
  after_pass n pass fastphase atoms s st _ out all_runs_out k = end_runs_out

  resolve_loop-Ends :
      (n pass fastphase : ℕ) (atoms : List SecAtom) (s : Pass) (st : State)
      → SparesLabels p
      → s.in_rorg ≡ false
      → Ends p c sec (resolve_loop n p c sec pass fastphase atoms s st)
  unfolding resolve_loop resolve_pass next_pass begin
  resolve_loop-Ends zero pass fastphase atoms s st spare out = end_runs_out
  resolve_loop-Ends (suc n) pass fastphase atoms s st spare out =
      elim (Bool-cases (leb p.maxpasses (pass + 1))) [
        | inl e ↦ rw e (end_stops 7)
        | inr e ↦ rw e (
            after_pass n pass fastphase atoms s st _ out
              (resolve_atoms-PassesAll p c sec (leb (pass + 1) fastphase) atoms
                (begin pass fastphase s) st spare)
              (λ fp l s' t o. resolve_loop-Ends n (pass + 1) fp l s' t spare o))
      ]

-- The same, of an outcome that is known.
abbrev Wanted : Processor → Context → ℕ → Outcome Resolved → Type 0
Wanted p c sec (done r t) = r.section.stable ≡ true → Settled c sec r t
Wanted p c sec (stop n) = Unit
Wanted p c sec null_access = Unit
Wanted p c sec out_of_fuel = Unit

Ends-Wanted :
    (p : Processor) (c : Context) (sec : ℕ) {o : Outcome Resolved}
    → Ends p c sec o
    → Wanted p c sec o
Ends-Wanted p c sec (ends r t h) = h
Ends-Wanted p c sec (end_stops n) = tt
Ends-Wanted p c sec end_faults = tt
Ends-Wanted p c sec end_runs_out = tt

-- When the passes end stable, every label has the address that the sizes of the atoms give from the
-- origin of the section on, and the pc of the section is behind them.
pub resolve_section-Settled :
    (p : Processor) (c : Context) (sec : ℕ) (atoms : List SecAtom) (s : Pass) (st : State)
    (r : Resolved) (t : State)
    → SparesLabels p
    → s.in_rorg ≡ false
    → resolve_section p c sec atoms s st ≡ done r t
    → r.section.stable ≡ true
    → Settled c sec r t
unfolding resolve_section
resolve_section-Settled p c sec atoms s st r t spare out e q =
    subst (Wanted p c sec) e
      (Ends-Wanted p c sec
        (resolve_loop-Ends p c sec (suc p.maxpasses) 0 p.fastoptphase atoms s st spare out))
      q
