-- ===== src/Atoms/Returns.antt =====
-- How the passes of `resolve_section` end: by themselves, and before their limit.
use vasm_ext.Common.{ℕ, ◌<◌, ◌≡◌, Bool, true, ◌||◌, List, [], ◌∷◌}
use vasm_ext.Expression.Eval.{eval_expr}
use vasm_ext.Expression.State.{State, Context, Outcome, done, stop, null_access, out_of_fuel, Eval}
use vasm_ext.Expression.{Expr}
use vasm_ext.Atoms.Resolve.{Pass, Resolved, any_error}
use vasm_ext.Atoms.{Processor, AtomContent, instruction, space, roffs, SecAtom}

-- A run that does not run out of fuel, and whose result is as wanted.
abbrev pub Fuelled {ℓ} : {A : Type ℓ} → (A → State → Type 0) → Outcome A → Type 0
Fuelled P (done a st) = P a st
Fuelled P (stop n) = Unit
Fuelled P null_access = Unit
Fuelled P out_of_fuel = ⊥

-- The expression, and the size of the instruction, are evaluated with the fuel there is.
abbrev EvaluatesIn : ℕ → Expr → Type 0
EvaluatesIn nesting e =
    (c : Context) (st : State) → Fuelled (λ v t. Unit) (eval_expr c nesting e st)

abbrev pub IsFuelled : Processor → AtomContent → Type 0
IsFuelled p (instruction n true) =
    (c : Context) (warn : Bool) (st : State)
    → Fuelled (λ size t. Unit) (p.instruction_size n c warn st)
IsFuelled p (space sb) = EvaluatesIn p.nesting sb.space_exp
IsFuelled p (roffs offset) = EvaluatesIn p.nesting offset
IsFuelled p other = Unit

abbrev pub AreFuelled : Processor → List SecAtom → Type 0
AreFuelled p [] = Unit
AreFuelled p (a ∷ rest) = IsFuelled p a.content × AreFuelled p rest

-- What is wanted of the size of an atom, of the pc at its start, of the atom, and of all atoms.
abbrev Unmeant : {A : Type 0} → A → State → Type 0
Unmeant a st = Unit

abbrev SizeIs : Processor → ℕ × AtomContent → State → Type 0
SizeIs p r st = IsFuelled p r.1

abbrev AtomIs : Processor → SecAtom × Pass → State → Type 0
AtomIs p x st = IsFuelled p x.0.content

abbrev AtomsAre : Processor → List SecAtom × Pass → State → Type 0
AtomsAre p x st = AreFuelled p x.0

-- The passes are fewer than `maxpasses`, and the last one was stable or gave an error.
pub record HasEnded (p : Processor) (r : Resolved) (st : State) : Type 0 where
  pub has_passed : 0 < r.passes
  pub in_limit : r.passes < p.maxpasses
  pub is_settled : r.section.stable || any_error p st.errors ≡ true
