-- ===== src/Conditional.antt =====
-- cond.c: the levels of conditional assembly, and the part of the syntax modules' line loop
-- (syntax/std/syntax.c) that calls them.
pub mod Blocks
pub mod Skip
pub mod Levels
pub mod Refine
pub mod Errors
mod Tests
use vasm_ext.Common.Run.{Run, ok, fatal, ◌>>=◌}
use vasm_ext.Common.{
  ℕ, zero, suc, ◌+◌, ◌-◌, Bool, true, false, not, List, [], ◌∷◌, ◌++◌, ltb, leb, ◌==◌,
  if◌then◌else◌,
}

-- The `signed char` of a level: 1 while its lines are assembled, 0 until a branch is taken, and -1
-- after that.
pub data Branch : Type 0 where
  on off done : Branch

abbrev pub maxcondlev : ℕ
maxcondlev = 63

-- `errors` has the numbers of the messages, the last first. `condline` stands for `condsrc` and
-- `condline`: where a level was opened. A level that is not open keeps its last contents.
pub record Cond : Type 0 where
  pub clev : ℕ
  pub cond : ℕ → Branch
  pub condline : ℕ → ℕ
  pub ifnesting : ℕ
  pub errors : List ℕ

-- A write to one element of an array.
abbrev pub update {ℓ} : {A : Type ℓ} → (ℕ → A) → ℕ → A → ℕ → A
update f i a j = if i == j then a else f j

abbrev pub to_branch : Bool → Branch
to_branch true = on
to_branch false = off

abbrev pub is_on : Branch → Bool
is_on on = true
is_on off = false
is_on done = false

abbrev pub is_off : Branch → Bool
is_off on = false
is_off off = true
is_off done = false

unfoldable pub cond_init : Cond → Cond
cond_init s = record s { cond = update s.cond 0 on; clev = 0; ifnesting = 0 }

unfoldable pub cond_state : Cond → Bool
cond_state s = is_on (s.cond s.clev)

unfoldable pub cond_check : Cond → Cond
cond_check s = if ltb 0 s.clev then record s { errors = 66 ∷ s.errors } else s

-- `line` is the current line of the source. The message of too many levels is fatal.
unfoldable pub cond_if : ℕ → Bool → Cond → Run Cond
cond_if line flag s =
    let clev = s.clev + 1 in
    if leb maxcondlev clev
    then fatal 65
    else ok (record s {
      clev = clev;
      cond = update s.cond clev (to_branch flag);
      condline = update s.condline clev line;
    })

unfoldable pub cond_skipif : Cond → Cond
cond_skipif s = record s { ifnesting = s.ifnesting + 1 }

unfoldable pub cond_else : Cond → Cond
cond_else s =
    if s.ifnesting == 0
    then record s { cond = update s.cond s.clev (if is_off (s.cond s.clev) then on else done) }
    else s

unfoldable pub cond_skipelse : Cond → Cond
cond_skipelse s =
    if ltb 0 s.clev
    then record s { cond = update s.cond s.clev done }
    else record s { errors = 63 ∷ s.errors }

unfoldable pub cond_elseif : Bool → Cond → Cond
cond_elseif flag s =
    if ltb 0 s.clev
    then record s {
      cond = update s.cond s.clev (if is_off (s.cond s.clev) then to_branch flag else done);
    }
    else record s { errors = 63 ∷ s.errors }

unfoldable pub cond_endif : Cond → Cond
cond_endif s =
    if s.ifnesting == 0
    then (if ltb 0 s.clev
        then record s { clev = s.clev - 1 }
        else record s { errors = 64 ∷ s.errors })
    else record s { ifnesting = s.ifnesting - 1 }

-- A source line as the line loop sees it. The condition of an `if` or `elseif` is the value that it
-- has where the loop evaluates it; any other line is a number.
pub data Line : Type 0 where
  if_line : Bool → Line
  else_line : Line
  elseif_line : Bool → Line
  endif_line : Line
  other : ℕ → Line

-- The loop on a line that is assembled, and on one that is skipped. The second result is what is
-- assembled.
handle_directive : ℕ → Line → Cond → Run (Cond × List ℕ)
handle_directive n (if_line b) s = cond_if n b s >>= λ s. ok (s, [])
handle_directive n else_line s = ok (cond_skipelse s, [])
handle_directive n (elseif_line b) s = ok (cond_skipelse s, [])
handle_directive n endif_line s = ok (cond_endif s, [])
handle_directive n (other x) s = ok (s, x ∷ [])

skip_line : Line → Cond → Cond
skip_line (if_line b) s = cond_skipif s
skip_line else_line s = cond_else s
skip_line (elseif_line b) s = cond_elseif b s
skip_line endif_line s = cond_endif s
skip_line (other x) s = s

pub parse_line : ℕ → Line → Cond → Run (Cond × List ℕ)
unfolding handle_directive skip_line cond_state cond_if cond_skipif cond_else cond_skipelse
    cond_elseif cond_endif
parse_line n l s = if cond_state s then handle_directive n l s else ok (skip_line l s, [])

-- The lines of a source, the first of which has number `n`.
pub parse : ℕ → List Line → Cond → List ℕ → Run (Cond × List ℕ)
parse n [] s out = ok (s, out)
parse n (l ∷ ls) s out = parse_line n l s >>= λ r. parse (n + 1) ls r.0 (out ++ r.1)
