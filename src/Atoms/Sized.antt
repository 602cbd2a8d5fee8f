-- ===== src/Atoms/Sized.antt =====
-- Finding the size of an atom leaves the addresses of labels and all of the atom but a space as they
-- are.
use vasm_ext.Common.{ℕ, refl, ◌∙◌, Bool, true, false, not, ◌||◌, Option, if◌then◌else◌}
use vasm_ext.Expression.Frame.{
  SamePc, Keeps, returns, stops, faults, runs_out, Frame, Frame-bind, Frame-done,
}
use vasm_ext.Expression.Addresses.{eval_expr-Frame}
use vasm_ext.Expression.State.{
  State, Context, Outcome, done, stop, null_access, out_of_fuel, Eval, bind,
}
use vasm_ext.Atoms.Layout.{Updated, kept, spaced}
use vasm_ext.Atoms.{
  Processor, AtomContent, datablock, instruction, space, roffs, atom_size, space_size, roffs_size,
}

-- The processor module leaves the addresses of labels alone when it finds the size of an
-- instruction.
abbrev pub SparesLabels : Processor → Type 0
SparesLabels p = (n : ℕ) (c : Context) (warn : Bool) → Frame c.cpc (p.instruction_size n c warn)

-- What finding a size leaves alone.
pub data Sized (cpc : Option ℕ) (content : AtomContent) (s : State)
    : Outcome (ℕ × AtomContent) → Type 0 where
  sized :
      (n : ℕ) (d : AtomContent) (t : State)
      → SamePc cpc s t
      → Updated content d
      → Sized cpc content s (done (n, d) t)
  size_stops : (n : ℕ) → Sized cpc content s (stop n)
  size_faults : Sized cpc content s null_access
  size_runs_out : Sized cpc content s out_of_fuel

-- A run and a last step that changes no label.
Sized-bind :
    {A : Type 0} (cpc : Option ℕ) (content : AtomContent) (s : State) {o : Outcome A}
    (f : A → Eval (ℕ × AtomContent))
    → Keeps cpc s o
    → ((a : A) (t : State) → Sized cpc content t (f a t))
    → Sized cpc content s (bind o f)
Sized-bind cpc content s f (returns a t e) h = later (h a t)
  where
    later : {o : Outcome (ℕ × AtomContent)} → Sized cpc content t o → Sized cpc content s o
    later (sized n d u k up) = sized n d u (λ m q. k m q ∙ e m q) up
    later (size_stops n) = size_stops n
    later size_faults = size_faults
    later size_runs_out = size_runs_out
Sized-bind cpc content s f (stops n) h = size_stops n
Sized-bind cpc content s f faults h = size_faults
Sized-bind cpc content s f runs_out h = size_runs_out

pub here : (cpc : Option ℕ) (s : State) → SamePc cpc s s
here cpc s m e = refl

Sized-if :
    (cpc : Option ℕ) (content : AtomContent) (s : State) (b : Bool) (m n : Eval (ℕ × AtomContent))
    → Sized cpc content s (m s)
    → Sized cpc content s (n s)
    → Sized cpc content s ((if b then m else n) s)
Sized-if cpc content s true m n h k = h
Sized-if cpc content s false m n h k = k

pub atom_size-Sized :
    (p : Processor) (c : Context) (warn : Bool) (content : AtomContent) (s : State)
    → SparesLabels p
    → Sized c.cpc content s (atom_size p c warn content s)
unfolding atom_size space_size roffs_size
atom_size-Sized p c warn (instruction n true) s h =
    Sized-bind c.cpc _ s _ ((h n c warn).keeps s) (λ a t. sized a _ t (here c.cpc t) (kept _))
atom_size-Sized p c warn (instruction n false) s h = sized 0 _ s (here c.cpc s) (kept _)
atom_size-Sized p c warn (space sb) s h =
    Sized-bind c.cpc _ s _ ((eval_expr-Frame c p.nesting sb.space_exp).keeps s) (λ v t.
      Sized-if c.cpc (space sb) t (v.cnst || not c.final_pass) _ _
        (sized _ _ t (here c.cpc t) (spaced sb v.result)) (sized _ _ _ (λ m e. refl) (kept _)))
atom_size-Sized p c warn (roffs offset) s h =
    Sized-bind c.cpc _ s _
      ((Frame-bind c.cpc _ _ (eval_expr-Frame c p.nesting offset) (λ v. Frame-done c.cpc _)).keeps
        s)
      (λ a t. sized a _ t (here c.cpc t) (kept _))
atom_size-Sized p c warn (datablock n) s h = sized n _ s (here c.cpc s) (kept _)
atom_size-Sized p c warn other s h = sized _ _ s (here c.cpc s) (kept _)
