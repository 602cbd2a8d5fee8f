-- ===== src/Conditional/Errors.antt =====
-- The invariant of the levels, stray lines, and an `elseif` in a block that is skipped.
use mathlib.Core.Bool.{false≢true}
use vasm_ext.Common.Run.{Run, ok, fatal}
use vasm_ext.Common.{
  ℕ, ◌+◌, ◌<◌, ◌≡◌, refl, sym, ◌∙◌, arith, true, false, List, [], ◌∷◌, ltb, leb, ◌==◌, Bool-cases,
  inl, inr, ltb→lt,
}
use vasm_ext.Conditional.{
  Branch, on, off, done, Cond, maxcondlev, cond_init, cond_state, Line, if_line, handle_directive,
  skip_line, cond_if, cond_skipif, cond_else, cond_elseif, cond_skipelse, cond_endif, else_line,
  elseif_line, endif_line, other, parse_line, update,
}

-- The level indexes the array of `MAXCONDLEV + 1` branches, and outside of all blocks the source is
-- assembled.
pub record IsValid (s : Cond) : Type 0 where
  pub bounded : s.clev < maxcondlev
  pub outside : s.cond 0 ≡ on
  pub unnested : s.clev ≡ 0 → s.ifnesting ≡ 0

pub cond_init-IsValid : (s : Cond) → IsValid (cond_init s)
unfolding cond_init
cond_init-IsValid s = record { bounded = omega arith; outside = refl; unnested = λ e. refl }

-- A line ends in a valid state, or, when it is an `if` that is assembled at the last level, in the
-- fatal message 65.
abbrev pub Outcome : Cond → Run (Cond × List ℕ) → Type 0
Outcome s (ok r) = IsValid r.0
Outcome s (fatal m) = (m ≡ 65) × (s.clev + 1 ≡ maxcondlev) × (cond_state s ≡ true)

with_done :
    (s : Cond)
    → IsValid s
    → 0 < s.clev
    → (b : Branch) → IsValid (record s { cond = update s.cond s.clev b })
with_done s v pos b = record {
  bounded = v.bounded;
  outside = let e : (s.clev == 0) ≡ false = ground arith in rw (e, v.outside);
  unnested = v.unnested;
}

with_error : (s : Cond) → IsValid s → (m : ℕ) → IsValid (record s { errors = m ∷ s.errors })
with_error s v m = record { bounded = v.bounded; outside = v.outside; unnested = v.unnested }

cond_skipelse-IsValid : (s : Cond) → IsValid s → IsValid (cond_skipelse s)
unfolding cond_skipelse
cond_skipelse-IsValid s v = elim (Bool-cases (ltb 0 s.clev)) [
  | inl e ↦ rw e (with_done s v (omega (arith, ltb→lt 0 s.clev e)) done)
  | inr e ↦ rw e (with_error s v 63)
]

cond_endif-IsValid : (s : Cond) → IsValid s → IsValid (cond_endif s)
unfolding cond_endif
cond_endif-IsValid s v = elim (Bool-cases (s.ifnesting == 0)) [
  | inl e ↦ elim (Bool-cases (ltb 0 s.clev)) [
    | inl d ↦
        rw (e, d)
          (record {
            bounded = omega (arith, v.bounded);
            outside = v.outside;
            unnested = λ z. ground arith;
          })
    | inr d ↦ rw (e, d) (with_error s v 64)
  ]
  | inr e ↦ rw e (record {
    bounded = v.bounded;
    outside = v.outside;
    unnested = λ z. omega (arith, v.unnested z);
  })
]

handled :
    (n : ℕ) (l : Line) (s : Cond)
    → IsValid s
    → cond_state s ≡ true
    → Outcome s (handle_directive n l s)
unfolding handle_directive cond_if
handled n (if_line b) s v o = elim (Bool-cases (leb maxcondlev (s.clev + 1))) [
  | inl e ↦ rw e (refl, ground (arith, v.bounded), o)
  | inr e ↦ rw e (record {
    bounded = ground arith;
    outside = let d : (s.clev + 1 == 0) ≡ false = ground arith in rw (d, v.outside);
    unnested = λ z. absurd (omega arith);
  })
]
handled n else_line s v o = cond_skipelse-IsValid s v
handled n (elseif_line b) s v o = cond_skipelse-IsValid s v
handled n endif_line s v o = cond_endif-IsValid s v
handled n (other x) s v o = v

skipped : (l : Line) (s : Cond) → IsValid s → 0 < s.clev → IsValid (skip_line l s)
unfolding skip_line cond_skipif cond_else cond_elseif
skipped (if_line b) s v pos = record {
  bounded = v.bounded;
  outside = v.outside;
  unnested = λ e. absurd (omega arith);
}
skipped else_line s v pos = elim (Bool-cases (s.ifnesting == 0)) [
  | inl e ↦ rw e (with_done s v pos _)
  | inr e ↦ rw e v
]
skipped (elseif_line b) s v pos =
    let e : ltb 0 s.clev ≡ true = ground arith in rw e (with_done s v pos _)
skipped endif_line s v pos = cond_endif-IsValid s v
skipped (other x) s v pos = v

-- A skipped line is never at level 0, since level 0 is assembled.
inside_block : (s : Cond) → IsValid s → cond_state s ≡ false → 0 < s.clev
unfolding cond_state
inside_block s v e = elim (Bool-cases (ltb 0 s.clev)) [
  | inl d ↦ ground arith
  | inr d ↦ let z : s.clev ≡ 0 = ground arith in absurd (false≢true (sym e ∙ rw (z, v.outside)))
]

-- From a valid state, every line ends in a valid state, except an `if` that is assembled at the
-- last level, which ends in the fatal message 65 and is the only line that does.
pub parse_line-Outcome : (n : ℕ) (l : Line) (s : Cond) → IsValid s → Outcome s (parse_line n l s)
unfolding parse_line
parse_line-Outcome n l s v = elim (Bool-cases (cond_state s)) [
  | inl e ↦ rw e (handled n l s v e)
  | inr e ↦ rw e (skipped l s v (inside_block s v e))
]

-- An `elseif` whose condition holds, nested in `if`s of a branch that was not taken and so is
-- skipped as a whole, resumes the assembly although the `if`s around it are still open.
pub elseif_nested :
    (n : ℕ) (s : Cond)
    → 0 < s.clev
    → 0 < s.ifnesting
    → s.cond s.clev ≡ off
    → (v : Cond) × (parse_line n (elseif_line true) s ≡ ok (v, []))
      × (cond_state v ≡ true)
      × (v.ifnesting ≡ s.ifnesting)
unfolding parse_line skip_line cond_elseif
elseif_nested n s pos nested o =
    let d : ltb 0 s.clev ≡ true = ground arith in rw (o, d) (_, refl, ground arith, refl)
