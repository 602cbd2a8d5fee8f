-- ===== src/Atoms/Sections.antt =====
-- `resolve`: the sections that are to be done, until none is left.
use vasm_ext.Common.{ℕ, zero, suc, Bool, true, false, ◌||◌, List, [], ◌∷◌, ltb, ◌==◌, if◌then◌else◌}
use vasm_ext.Expression.State.{State, Context, done, out_of_fuel, Eval, ◌>>=◌, pure}
use vasm_ext.Atoms.Resolve.{Pass, Resolved, resolve_section}
use vasm_ext.Atoms.{Processor, SecAtom}

-- The sections by their index, the bit vector `todo` and `finished`.
pub record Work : Type 0 where
  pub atoms : ℕ → List SecAtom
  pub section : ℕ → Pass
  pub todo : ℕ → Bool
  pub finished : Bool

abbrev pub set_at : {A : Type 0} → (ℕ → A) → ℕ → A → ℕ → A
set_at f k a n = if n == k then a else f n

-- The dependencies of the section are to be done again when it took more than one pass.
unfoldable pub note_resolved : ℕ → Work → Resolved → State → Work
note_resolved sec w r st = record {
  atoms = set_at w.atoms sec r.atoms;
  section = set_at w.section sec r.section;
  todo =
      if ltb 1 r.passes
      then (λ k. set_at w.todo sec false k || st.dep sec k)
      else set_at w.todo sec false;
  finished = false;
}

abbrev pub visit : Processor → Context → ℕ → Work → Eval Work
visit p c sec w =
    if w.todo sec
    then (resolve_section p c sec (w.atoms sec) (w.section sec) >>= λ r st.
        done (note_resolved sec w r st) st)
    else pure w

-- The loop over the sections.
unfoldable pub resolve_round : Processor → Context → List ℕ → Work → Eval Work
resolve_round p c [] w = pure w
resolve_round p c (sec ∷ rest) w = visit p c sec w >>= resolve_round p c rest

-- The outer loop, for `fuel` rounds.
unfoldable pub resolve : ℕ → Processor → Context → List ℕ → Work → Eval Work
resolve zero p c secs w = λ st. out_of_fuel
resolve (suc fuel) p c secs w = do
  w' ← resolve_round p c secs (record w { finished = true })
  (if w'.finished then pure w' else resolve fuel p c secs w')
