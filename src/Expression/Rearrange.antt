-- ===== src/Expression/Rearrange.antt =====
-- "const-symbol-symbol": the rearrangement in `simplify_expr` of the difference.
use mathlib.Core.List.{append-nil}
use vasm_ext.Common.Run.{ok}
use vasm_ext.Common.{
  ℕ, suc, ◌+◌, ◌-◌, ◌%◌, ◌^◌, ◌≡◌, refl, Bool, ◌||◌, true, false, [], Option, none, if◌then◌else◌,
}
use vasm_ext.Expression.State.{
  labsym, Symbol, State, Context, Eval, done, errors, skip, update_curpc, add_dep,
}
use vasm_ext.Expression.Simplify
use vasm_ext.Expression.Simplify.{simplify_expr, rearrange, rearrange_left}
use vasm_ext.Expression.Eval.{
  Value, Base, eval_expr, eval_tree, eval_op, in_final_pass, eval_symbol, eval_label,
  in_unallocated,
}
use vasm_ext.Expression.{Expr, num, symbol, binary, op_sub}
use vasm_ext.Expression.Operators.{eval_binary}

-- An absolute label that is not weak.
pub record IsAbsolute (s : Symbol) : Type 0 where
  pub is_labsym : s.type ≡ labsym
  pub is_strong : s.weak ≡ false
  pub is_absolute : s.abslabel ≡ true

-- The difference of two numbers of `w` bits.
abbrev pub minus : ℕ → ℕ → ℕ → ℕ
minus w a b = (a + 2 ^ w - b) % 2 ^ w

abbrev pub difference : ℕ → ℕ → ℕ → Expr
difference n a b = binary op_sub (binary op_sub (num n) (symbol a)) (symbol b)

simplify-difference :
    (c : Context) (defined : ℕ → Option Expr) (n a b : ℕ)
    → defined a ≡ none
    → defined b ≡ none
    → simplify_expr c.build defined (difference n a b)
      ≡ ok (binary op_sub (num n) (binary op_sub (symbol a) (symbol b)), [])
unfolding simplify_expr Simplify.fold_symbol Simplify.fold_node Simplify.fold_binary rearrange
    rearrange_left
simplify-difference c defined n a b p q = rw (p, q) refl

pub update_curpc-none :
    (c : Context) → c.cpc ≡ none → (a : ℕ) (st : State) → update_curpc c a st ≡ done tt st
unfolding update_curpc
update_curpc-none c no_cpc a st = rw no_cpc refl

or_true : (p : Bool) → p || true ≡ true
or_true true = refl
or_true false = refl

eval_label-absolute :
    (c : Context)
    → c.sec ≡ none
    → (st : State) (l : Symbol) → IsAbsolute l
    → eval_label c l st ≡ done (record { result = l.pc; cnst = true }) st
unfolding add_dep
eval_label-absolute c no_sec st l w =
    rw (w.is_absolute, or_true (in_unallocated c l.sec), no_sec) refl

message : (b : Bool) (st : State) → (if b then errors [] else skip) st ≡ done tt st
message true st = rw append-nil refl
message false st = refl

pub no_message : (c : Context) (st : State) → in_final_pass c [] st ≡ done tt st
no_message c st = message c.final_pass st

module _ (c : Context) (no_cpc : c.cpc ≡ none) (no_sec : c.sec ≡ none) (call : Expr → Eval Value)
    (find : Expr → Option ℕ → Eval Base) where
  eval-label :
      (st : State) (a : ℕ)
      → IsAbsolute (st.symbols a)
      → eval_tree c call find (symbol a) st
        ≡ done (record { result = (st.symbols a).pc; cnst = true }) st
  unfolding eval_tree eval_symbol
  eval-label st a w =
      rw (w.is_labsym, w.is_strong, update_curpc-none c no_cpc a st)
        (eval_label-absolute c no_sec st _ w)

  eval-number :
      (st : State) (n : ℕ)
      → eval_tree c call find (num n) st ≡ done (record { result = n; cnst = true }) st
  unfolding eval_tree
  eval-number st n = refl

  eval_sub :
      (st : State) (x y : Expr) (a b : ℕ)
      → eval_tree c call find x st ≡ done (record { result = a; cnst = true }) st
      → eval_tree c call find y st ≡ done (record { result = b; cnst = true }) st
      → eval_tree c call find (binary op_sub x y) st
        ≡ done (record { result = minus c.build.bitspertaddr a b; cnst = true }) st
  unfolding eval_tree eval_op eval_binary
  eval_sub st x y a b p q = rw (p, q, no_message c st) refl

-- For absolute labels `a` and `b`, `n - a - b` evaluates to that number, but what `simplify_expr`
-- makes of the expression evaluates to `n - (a - b)`. No section is given, so that no dependency is
-- noted.
pub simplify_expr-rearranged :
    (c : Context) (defined : ℕ → Option Expr) (fuel : ℕ) (st : State) (n a b : ℕ)
    → c.cpc ≡ none
    → c.sec ≡ none
    → defined a ≡ none
    → defined b ≡ none
    → IsAbsolute (st.symbols a)
    → IsAbsolute (st.symbols b)
    → (let w = c.build.bitspertaddr in
        let pa = (st.symbols a).pc in
        let pb = (st.symbols b).pc in
        (eval_expr c (suc fuel) (difference n a b) st
          ≡ done (record { result = minus w (minus w n pa) pb; cnst = true }) st)
        × (e : Expr) × (simplify_expr c.build defined (difference n a b) ≡ ok (e, []))
        × (eval_expr c (suc fuel) e st
            ≡ done (record { result = minus w n (minus w pa pb); cnst = true }) st))
unfolding eval_expr
simplify_expr-rearranged c defined fuel st n a b no_cpc no_sec p q u v =
    let eval = eval_sub c no_cpc no_sec _ _ st in
    let number = eval-number c no_cpc no_sec _ _ st in
    let label = eval-label c no_cpc no_sec _ _ st in
    (
      eval _ (symbol b) _ _ (eval (num n) (symbol a) _ _ (number n) (label a u)) (label b v),
      binary op_sub (num n) (binary op_sub (symbol a) (symbol b)),
      simplify-difference c defined n a b p q,
      eval (num n) _ _ _ (number n) (eval (symbol a) (symbol b) _ _ (label a u) (label b v)),
    )
