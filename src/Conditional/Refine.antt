-- ===== src/Conditional/Refine.antt =====
-- The line loop assembles exactly the lines that the blocks of a source choose.
use mathlib.Core.List.{append-nil, append_assoc}
use vasm_ext.Common.Run.{ok}
use vasm_ext.Common.{
  ℕ, ◌+◌, ◌<◌, ◌≡◌, refl, sym, ap, ◌∙◌, arith, true, false, List, [], ◌∷◌, ◌++◌, length,
}
use vasm_ext.Conditional.Blocks.{
  Items, Tail, nil, text, block, end_if, or_else, or_elseif, lines, tail_lines, chosen, chosen_tail,
  depth, tail_depth, plain, supported, skipped_tail, supported_tail,
}
use vasm_ext.Conditional.Levels.{
  Same, Inside, Same-refl, Same-trans, Inside-Same, opened, switched, open_level, switched-Inside,
  close_level, else_level, elseif_level,
}
use vasm_ext.Conditional.Skip.{Reads, Reads-line, Reads-cons, Reads-append, Reads-nil, skip_items}
use vasm_ext.Conditional.{
  Branch, on, off, done, Cond, maxcondlev, is_on, is_off, cond_state, Line, if_line, else_line,
  elseif_line, endif_line, other, handle_directive, parse_line, parse,
}

text_line : (n x : ℕ) (s : Cond) → cond_state s ≡ true → parse_line n (other x) s ≡ ok (s, x ∷ [])
unfolding parse_line handle_directive
text_line n x s o = rw o

-- The lines are read from `u` up to a state in which what is open in `s` is as it was.
abbrev Leads : ℕ → List Line → Cond → List ℕ → Cond → List ℕ → Type 0
Leads n ls u out s out' = (v : Cond) × Reads n ls u out v out' × Same s v

Inside-state : (s u : Cond) (b : Branch) → Inside s b u → cond_state u ≡ is_on b
unfolding cond_state
Inside-state s u b i = ap is_on i.branch

Same-state : (s v : Cond) → Same s v → cond_state v ≡ cond_state s
unfolding cond_state
Same-state s v e = rw e.level (ap is_on (e.kept s.clev (omega arith)))

module _ (s : Cond) where
  Leads-cons :
      (n : ℕ) (l : Line) (ls : List Line) (u v : Cond) (out out' : List ℕ)
      → parse_line n l u ≡ ok (v, [])
      → Leads (n + 1) ls v out s out'
      → Leads n (l ∷ ls) u out s out'
  Leads-cons n l ls u v out out' e (w, r, same) = (w, Reads-cons n l ls u v w out out' e r, same)

  Leads-append :
      (n : ℕ) (xs ys : List Line) (u t : Cond) (out mid out' : List ℕ)
      → Leads n xs u out t mid
      → ((v : Cond) → Same t v → Leads (n + length xs) ys v mid s out')
      → Leads n (xs ++ ys) u out s out'
  Leads-append n xs ys u t out mid out' (v, r, e) k =
      let (w, q, same) = k v e in (w, Reads-append n xs ys u v w out mid out' r q, same)

-- The same from a later state.
Leads-Same :
    (n : ℕ) (ls : List Line) (s v : Cond) (out out' : List ℕ)
    → Same s v
    → Leads n ls v out v out'
    → Leads n ls v out s out'
Leads-Same n ls s v out out' e (w, r, e') = (w, r, Same-trans s v w e e')

skips :
    (p : Items) (n : ℕ) (u : Cond) (out : List ℕ)
    → plain p ≡ true
    → cond_state u ≡ false
    → Leads n (lines p) u out u out
skips p n u out h o = (u, skip_items p n u out h o, Same-refl u)

module _ (s : Cond) (clear : s.ifnesting ≡ 0) where
  closes :
      (n : ℕ) (u : Cond) (b : Branch) (out : List ℕ)
      → Inside s b u
      → Leads n (endif_line ∷ []) u out s out
  closes n u b out i =
      let (e, same) = close_level n s u b i clear in
      Leads-cons s n endif_line [] u _ out out e (_, Reads-nil _ _ out, same)

  -- A branch that is skipped, then others.
  skips_branch :
      (p : Items) (n : ℕ) (ls : List Line) (u : Cond) (b : Branch) (out out' : List ℕ)
      → plain p ≡ true
      → Inside s b u
      → is_on b ≡ false
      → ((m : ℕ) (v : Cond) → Inside s b v → Leads m ls v out s out')
      → Leads n (lines p ++ ls) u out s out'
  skips_branch p n ls u b out out' h i o k =
      Leads-append s n (lines p) ls u u out out out' (skips p n u out h (Inside-state s u b i ∙ o))
        (λ v e. k _ v (Inside-Same s u v b i e))

  -- After a branch was taken, the others are skipped.
  taken :
      (t : Tail) (n : ℕ) (u : Cond) (b : Branch) (out : List ℕ)
      → skipped_tail t ≡ true
      → is_off b ≡ false
      → Inside s b u
      → Leads n (tail_lines t) u out s out
  unfolding tail_lines skipped_tail
  taken end_if n u b out h o i = closes n u b out i
  taken (or_else body) n u b out h o i =
      Leads-cons s n else_line _ u (switched done u) out out (rw o at (else_level n s u b i)) (
        skips_branch body (n + 1) _ (switched done u) done out out h (switched-Inside s u b done i)
          refl (λ m v j. closes m v done out j))
  taken (or_elseif c body t) n u b out h o i =
      Leads-cons s n (elseif_line c) _ u (switched done u) out out
        (rw o at (elseif_level n s u c b i))
        (skips_branch body (n + 1) _ (switched done u) done out out (ground arith)
          (switched-Inside s u b done i) refl (λ m v j. taken t m v done out (ground arith) refl j))

mutual
  unfolding lines tail_lines chosen chosen_tail depth tail_depth supported supported_tail

  assembles :
      (p : Items) (n : ℕ) (s : Cond) (out : List ℕ)
      → supported p ≡ true
      → cond_state s ≡ true
      → s.ifnesting ≡ 0
      → s.clev + depth p < maxcondlev
      → Leads n (lines p) s out s (out ++ chosen p)
  assembles nil n s out h o z d = rw append-nil (s, Reads-nil n s out, Same-refl s)
  assembles (text x r) n s out h o z d =
      let e : out ++ x ∷ chosen r ≡ (out ++ x ∷ []) ++ chosen r =
        sym (append_assoc out (x ∷ []) (chosen r)) in
      rw e (
        Leads-append s n (other x ∷ []) (lines r) s s out (out ++ x ∷ []) _
          (s, Reads-line n (other x) s s out (x ∷ []) (text_line n x s o), Same-refl s)
          λ v e. Leads-Same _ (lines r) s v _ _ e (
            assembles r _ v (out ++ x ∷ []) h (Same-state s v e ∙ o) (e.nesting ∙ z)
              (omega (arith, e.level))))
  assembles (block true body t r) n s out h o z d =
      let (e, i) = open_level n true s o z (omega arith) in
      rw (← append_assoc) (
        Leads-cons s n (if_line true) _ s (opened n true s) out _ e (
          Leads-append s (n + 1) (lines body) _ (opened n true s) (opened n true s) out _ _
            (assembles body (n + 1) (opened n true s) out (ground arith) (Inside-state s _ on i)
              i.nesting (omega (arith, i.level)))
            λ v e.
              Leads-append s _ (tail_lines t) (lines r) v s _ _ _
                (taken s z t _ v on (out ++ chosen body) (ground arith) refl
                  (Inside-Same s _ v on i e))
                λ w e'. Leads-Same _ (lines r) s w _ _ e' (
                  assembles r _ w (out ++ chosen body) (ground arith) (Same-state s w e' ∙ o)
                    (e'.nesting ∙ z) (omega (arith, e'.level)))))
  assembles (block false body t r) n s out h o z d =
      let (e, i) = open_level n false s o z (omega arith) in
      rw (← append_assoc) (
        Leads-cons s n (if_line false) _ s (opened n false s) out _ e (
          skips_branch s z body (n + 1) _ (opened n false s) off out _ (ground arith) i refl
            λ m v j.
              Leads-append s m (tail_lines t) (lines r) v s out _ _
                (assembles_tail t m s v out (ground arith) z (omega arith) j)
                λ w e'. Leads-Same _ (lines r) s w _ _ e' (
                  assembles r _ w (out ++ chosen_tail t) (ground arith) (Same-state s w e' ∙ o)
                    (e'.nesting ∙ z) (omega (arith, e'.level)))))

  assembles_tail :
      (t : Tail) (n : ℕ) (s u : Cond) (out : List ℕ)
      → supported_tail t ≡ true
      → s.ifnesting ≡ 0
      → s.clev + 1 + tail_depth t < maxcondlev
      → Inside s off u
      → Leads n (tail_lines t) u out s (out ++ chosen_tail t)
  assembles_tail end_if n s u out h z d i = rw append-nil (closes s z n u off out i)
  assembles_tail (or_else body) n s u out h z d i =
      let j = switched-Inside s u off on i in
      Leads-cons s n else_line _ u (switched on u) out _ (else_level n s u off i) (
        Leads-append s (n + 1) (lines body) _ (switched on u) (switched on u) out _ _
          (assembles body (n + 1) (switched on u) out h (Inside-state s _ on j) j.nesting
            (omega (arith, j.level)))
          (λ v e. closes s z _ v on (out ++ chosen body) (Inside-Same s _ v on j e)))
  assembles_tail (or_elseif true body t) n s u out h z d i =
      let j = switched-Inside s u off on i in
      Leads-cons s n (elseif_line true) _ u (switched on u) out _ (elseif_level n s u true off i) (
        Leads-append s (n + 1) (lines body) _ (switched on u) (switched on u) out _ _
          (assembles body (n + 1) (switched on u) out (ground arith) (Inside-state s _ on j)
            j.nesting (omega (arith, j.level)))
          λ v e.
            taken s z t _ v on (out ++ chosen body) (ground arith) refl (Inside-Same s _ v on j e))
  assembles_tail (or_elseif false body t) n s u out h z d i =
      let j = switched-Inside s u off off i in
      Leads-cons s n (elseif_line false) _ u (switched off u) out _ (elseif_level n s u false off i)
        (skips_branch s z body (n + 1) _ (switched off u) off out _ (ground arith) j refl
          (λ m v k. assembles_tail t m s v out (ground arith) z (omega arith) k))

-- From a state that assembles, with room for the levels it opens, a source whose skipped branches
-- have no nested `elseif` assembles what its blocks choose, without a message, and ends on the
-- level at which it began.
pub parse-chosen :
    (p : Items) (n : ℕ) (s : Cond) (out : List ℕ)
    → supported p ≡ true
    → cond_state s ≡ true
    → s.ifnesting ≡ 0
    → s.clev + depth p < maxcondlev
    → (v : Cond) × (parse n (lines p) s out ≡ ok (v, out ++ chosen p)) × Same s v
unfolding parse
parse-chosen p n s out h o z d =
    let (v, r, same) = assembles p n s out h o z d in (v, rw append-nil at (r []), same)
