-- ===== src/Conditional/Levels.antt =====
-- The lines that open, switch and close a level, from a state that assembles.
use vasm_ext.Common.Run.{ok}
use vasm_ext.Common.{
  ℕ, ◌+◌, ◌≤◌, ◌<◌, ◌≡◌, refl, sym, ◌∙◌, arith, Bool, true, false, [], ltb, leb, ◌==◌,
  if◌then◌else◌, inl, inr, Bool-cases,
}
use vasm_ext.Conditional.{
  Branch, on, off, done, Cond, maxcondlev, update, to_branch, is_off, cond_state, cond_if,
  cond_else, cond_skipelse, cond_elseif, cond_endif, handle_directive, skip_line, if_line,
  else_line, elseif_line, endif_line, parse_line,
}

-- Nothing that is open in `s` has changed in `t`.
pub record Same (s t : Cond) : Type 0 where
  pub level : t.clev ≡ s.clev
  pub nesting : t.ifnesting ≡ s.ifnesting
  pub messages : t.errors ≡ s.errors
  pub kept : (i : ℕ) → i ≤ s.clev → t.cond i ≡ s.cond i

-- `u` has one more level open than `s`, in the state `b`.
pub record Inside (s : Cond) (b : Branch) (u : Cond) : Type 0 where
  pub level : u.clev ≡ s.clev + 1
  pub nesting : u.ifnesting ≡ 0
  pub messages : u.errors ≡ s.errors
  pub kept : (i : ℕ) → i ≤ s.clev → u.cond i ≡ s.cond i
  pub branch : u.cond u.clev ≡ b

pub Same-refl : (s : Cond) → Same s s
Same-refl s = record { level = refl; nesting = refl; messages = refl; kept = λ i h. refl }

pub Same-trans : (s t u : Cond) → Same s t → Same t u → Same s u
Same-trans s t u p q = record {
  level = q.level ∙ p.level;
  nesting = q.nesting ∙ p.nesting;
  messages = q.messages ∙ p.messages;
  kept = λ i h. q.kept i (omega (arith, p.level)) ∙ p.kept i h;
}

-- What is assembled inside of a branch leaves the branch as it was.
pub Inside-Same : (s u v : Cond) (b : Branch) → Inside s b u → Same u v → Inside s b v
Inside-Same s u v b i e = record {
  level = e.level ∙ i.level;
  nesting = e.nesting ∙ i.nesting;
  messages = e.messages ∙ i.messages;
  kept = λ j h. e.kept j (omega (arith, i.level)) ∙ i.kept j h;
  branch = rw e.level (e.kept u.clev (omega arith) ∙ i.branch);
}

-- The state after `if b`, and after a branch was switched to `b`.
pub opened : ℕ → Bool → Cond → Cond
opened n b s = record s {
  clev = s.clev + 1;
  cond = update s.cond (s.clev + 1) (to_branch b);
  condline = update s.condline (s.clev + 1) n;
}

pub switched : Branch → Cond → Cond
switched b u = record u { cond = update u.cond u.clev b }

pub open_level :
    (n : ℕ) (b : Bool) (s : Cond)
    → cond_state s ≡ true
    → s.ifnesting ≡ 0
    → s.clev + 1 < maxcondlev
    → (parse_line n (if_line b) s ≡ ok (opened n b s, [])) × Inside s (to_branch b) (opened n b s)
unfolding parse_line handle_directive cond_if opened
open_level n b s o z h =
    let room : leb maxcondlev (s.clev + 1) ≡ false = ground arith in
    (
      rw (o, room),
      record {
        level = refl;
        nesting = z;
        messages = refl;
        kept = λ i le. ground arith;
        branch = ground arith;
      },
    )

pub switched-Inside : (s u : Cond) (b c : Branch) → Inside s b u → Inside s c (switched c u)
unfolding switched
switched-Inside s u b c i = record {
  level = i.level;
  nesting = i.nesting;
  messages = i.messages;
  kept = λ j le. ground (arith, i.kept j, i.level);
  branch = ground arith;
}

inner :
    {s u : Cond} {b : Branch} → Inside s b u → ((u.ifnesting == 0) ≡ true) × (ltb 0 u.clev ≡ true)
inner {s} {u} i = (ground (arith, i.nesting), ground (arith, i.level))

pub close_level :
    (n : ℕ) (s u : Cond) (b : Branch)
    → Inside s b u
    → s.ifnesting ≡ 0
    → (parse_line n endif_line u ≡ ok (cond_endif u, [])) × Same s (cond_endif u)
unfolding parse_line handle_directive skip_line cond_endif
close_level n s u b i z = (
  elim (Bool-cases (cond_state u)) [ inl e ↦ rw e | inr e ↦ rw e ],
  let (none, deep) = inner i in
      rw (none, deep)
        (record {
          level = omega (arith, i.level);
          nesting = i.nesting ∙ sym z;
          messages = i.messages;
          kept = i.kept;
        }),
)

module _ (n : ℕ) (s u : Cond) where
  pub else_level :
      (b : Branch)
      → Inside s b u
      → parse_line n else_line u ≡ ok (switched (if is_off b then on else done) u, [])
  unfolding parse_line handle_directive skip_line cond_state cond_else cond_skipelse switched
  else_level on i = let (none, deep) = inner i in rw (i.branch, deep)
  else_level off i = let (none, deep) = inner i in rw (i.branch, none)
  else_level done i = let (none, deep) = inner i in rw (i.branch, none)

  pub elseif_level :
      (c : Bool) (b : Branch)
      → Inside s b u
      → parse_line n (elseif_line c) u
        ≡ ok (switched (if is_off b then to_branch c else done) u, [])
  unfolding parse_line handle_directive skip_line cond_state cond_elseif cond_skipelse switched
  elseif_level c on i = let (none, deep) = inner i in rw (i.branch, deep)
  elseif_level c off i = let (none, deep) = inner i in rw (i.branch, deep)
  elseif_level c done i = let (none, deep) = inner i in rw (i.branch, deep)
