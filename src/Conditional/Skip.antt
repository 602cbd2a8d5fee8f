-- ===== src/Conditional/Skip.antt =====
-- Blocks without `elseif` in a branch that is not assembled are skipped as a whole.
use mathlib.Core.List.{append-nil, append_assoc}
use native.Mathlib.Nat.{add_assoc}
use vasm_ext.Common.Run.{ok}
use vasm_ext.Common.{
  ℕ, suc, ◌+◌, ◌-◌, ◌≡◌, refl, ◌∙◌, arith, true, false, List, [], ◌∷◌, ◌++◌, length, length-append,
  ◌==◌,
}
use mathlib.Core.Bool.{false≢true}
use vasm_ext.Conditional.Blocks.{
  Items, Tail, nil, text, block, end_if, or_else, or_elseif, lines, tail_lines, plain, plain_tail,
}
use vasm_ext.Conditional.{
  Cond, cond_state, cond_skipif, cond_else, cond_endif, skip_line, Line, if_line, else_line,
  endif_line, other, parse_line, parse,
}

-- `ls` is read from state `u` up to state `v`, and `out'` is the output then.
abbrev pub Reads : ℕ → List Line → Cond → List ℕ → Cond → List ℕ → Type 0
Reads n ls u out v out' =
    (rest : List Line) → parse n (ls ++ rest) u out ≡ parse (n + length ls) rest v out'

pub Reads-line :
    (n : ℕ) (l : Line) (u v : Cond) (out new : List ℕ)
    → parse_line n l u ≡ ok (v, new)
    → Reads n (l ∷ []) u out v (out ++ new)
unfolding parse
Reads-line n l u v out new e rest = rw e

-- Reading one line, then others.
pub Reads-cons :
    (n : ℕ) (l : Line) (ls : List Line) (u v w : Cond) (out out' : List ℕ)
    → parse_line n l u ≡ ok (v, [])
    → Reads (n + 1) ls v out w out'
    → Reads n (l ∷ ls) u out w out'
unfolding parse
Reads-cons n l ls u v w out out' e r rest =
    let count : n + suc (length ls) ≡ n + 1 + length ls = omega arith in
    rw (e, append-nil out, count) (r rest)

pub Reads-append :
    (n : ℕ) (xs ys : List Line) (u v w : Cond) (out mid out' : List ℕ)
    → Reads n xs u out v mid
    → Reads (n + length xs) ys v mid w out'
    → Reads n (xs ++ ys) u out w out'
Reads-append n xs ys u v w out mid out' r q rest =
    rw (append_assoc, length-append xs ys, ← add_assoc n (length xs) (length ys))
      (r (ys ++ rest) ∙ q rest)

pub Reads-nil : (n : ℕ) (u : Cond) (out : List ℕ) → Reads n [] u out u out
Reads-nil n u out rest = let same : n + 0 ≡ n = omega arith in rw same

endif-skipif : (s : Cond) → cond_endif (cond_skipif s) ≡ s
unfolding cond_endif cond_skipif
endif-skipif s =
    let more : (s.ifnesting + 1 == 0) ≡ false = ground arith in
    let back : s.ifnesting + 1 - 1 ≡ s.ifnesting = omega arith in rw (more, back)

else-skipif : (s : Cond) → cond_else (cond_skipif s) ≡ cond_skipif s
unfolding cond_else cond_skipif
else-skipif s = let more : (s.ifnesting + 1 == 0) ≡ false = ground arith in rw more

state-skipif : (s : Cond) → cond_state (cond_skipif s) ≡ cond_state s
unfolding cond_state cond_skipif
state-skipif s = refl

skip_parse :
    (n : ℕ) (l : Line) (s : Cond) → cond_state s ≡ false → parse_line n l s ≡ ok (skip_line l s, [])
unfolding parse_line
skip_parse n l s h = rw h

skipped_endif :
    (n : ℕ) (s : Cond) → cond_state s ≡ false → parse_line n endif_line (cond_skipif s) ≡ ok (s, [])
unfolding skip_line
skipped_endif n s o =
    rw endif-skipif at (skip_parse n endif_line (cond_skipif s) (state-skipif s ∙ o))

skipped_else :
    (n : ℕ) (s : Cond)
    → cond_state s ≡ false
    → parse_line n else_line (cond_skipif s) ≡ ok (cond_skipif s, [])
unfolding skip_line
skipped_else n s o = rw else-skipif at (skip_parse n else_line (cond_skipif s) (state-skipif s ∙ o))

-- Blocks without `elseif` are skipped as a whole, and leave the state as it was.
mutual
  unfolding lines tail_lines plain plain_tail skip_line

  pub skip_items :
      (p : Items) (n : ℕ) (s : Cond) (out : List ℕ)
      → plain p ≡ true
      → cond_state s ≡ false
      → Reads n (lines p) s out s out
  skip_items nil n s out h o = Reads-nil n s out
  skip_items (text x r) n s out h o =
      Reads-cons n (other x) (lines r) s s s out out (skip_parse n (other x) s o)
        (skip_items r (n + 1) s out h o)
  skip_items (block b body t r) n s out h o =
      let o' : cond_state (cond_skipif s) ≡ false = state-skipif s ∙ o in
      Reads-cons n (if_line b) _ s (cond_skipif s) s out out (skip_parse n (if_line b) s o) (
        Reads-append (n + 1) (lines body) _ (cond_skipif s) (cond_skipif s) s out out out
          (skip_items body (n + 1) (cond_skipif s) out (ground arith) o')
          (Reads-append _ (tail_lines t) (lines r) (cond_skipif s) s s out out out
            (skip_tail t _ s out (ground arith) o) (skip_items r _ s out (ground arith) o)))

  skip_tail :
      (t : Tail) (n : ℕ) (s : Cond) (out : List ℕ)
      → plain_tail t ≡ true
      → cond_state s ≡ false
      → Reads n (tail_lines t) (cond_skipif s) out s out
  skip_tail end_if n s out h o =
      Reads-cons n endif_line [] (cond_skipif s) s s out out (skipped_endif n s o)
        (Reads-nil (n + 1) s out)
  skip_tail (or_else body) n s out h o =
      let o' : cond_state (cond_skipif s) ≡ false = state-skipif s ∙ o in
      Reads-cons n else_line _ (cond_skipif s) (cond_skipif s) s out out (skipped_else n s o) (
        Reads-append (n + 1) (lines body) (endif_line ∷ []) (cond_skipif s) (cond_skipif s) s out
          out out (skip_items body (n + 1) (cond_skipif s) out h o')
          (Reads-cons _ endif_line [] (cond_skipif s) s s out out (skipped_endif _ s o)
            (Reads-nil _ s out)))
  skip_tail (or_elseif b body t) n s out h o = absurd (false≢true h)
