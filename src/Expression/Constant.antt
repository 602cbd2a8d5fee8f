-- ===== src/Expression/Constant.antt =====
-- Expressions of numbers only: `simplify_expr` and `eval_expr` compute the same.
use mathlib.Core.List.{append_assoc, append-nil}
use vasm_ext.Common.Run.{ok}
use vasm_ext.Common.{ℕ, suc, ◌≡◌, refl, true, List, [], ◌++◌, Option}
use vasm_ext.Expression.State.{State, Context, Eval, done}
use vasm_ext.Expression.Simplify
use vasm_ext.Expression.Simplify.{simplify_expr, rearrange, fold_unary, fold_binary}
use vasm_ext.Expression.Eval.{Value, Base, eval_expr, eval_tree, eval_op}
use vasm_ext.Expression.Operators.{eval_unary, eval_binary}
use vasm_ext.Expression.{
  Build, Expr, UnaryOp, num, unary, binary, num_unary, num_binary, BinaryOp, op_sub, op_neg,
}

-- An expression of numbers, its value and its messages: those of its operands come first.
pub data Means (c : Build) : Expr → ℕ → List ℕ → Type 0 where
  number : (v : ℕ) → Means c (num v) v []
  unary_of :
      (op : UnaryOp) (x : Expr) (v : ℕ) (l : List ℕ)
      → Means c x v l
      → Means c (unary op x) (num_unary c op v) l
  binary_of :
      (op : BinaryOp) (x y : Expr) (a b : ℕ) (l m : List ℕ)
      → Means c x a l
      → Means c y b m
      → Means c (binary op x y) (num_binary c op a b).0 (l ++ m ++ (num_binary c op a b).1)

no_rearrange : (op : BinaryOp) (a b : ℕ) → rearrange op (num a) (num b) ≡ binary op (num a) (num b)
unfolding rearrange
no_rearrange op_sub a b = refl
no_rearrange _ a b = refl

simplify-Means :
    (c : Build) (defined : ℕ → Option Expr) {e : Expr} {v : ℕ} {l : List ℕ}
    → Means c e v l
    → simplify_expr c defined e ≡ ok (num v, l)
unfolding simplify_expr fold_unary fold_binary Simplify.fold_node
simplify-Means c defined (number v) = refl
simplify-Means c defined (unary_of op x v l m) =
    rw (simplify-Means c defined m) (rw append-nil refl)
simplify-Means c defined (binary_of op x y a b l m p q) =
    rw (simplify-Means c defined p, simplify-Means c defined q, no_rearrange op a b) refl

-- The two switches agree.
same_unary : (c : Build) (op : UnaryOp) (v : ℕ) → eval_unary c op v ≡ num_unary c op v
unfolding eval_unary num_unary
same_unary c op_neg v = refl
same_unary c _ v = refl

same_binary : (c : Build) (op : BinaryOp) (a b : ℕ) → eval_binary c op a b ≡ num_binary c op a b
unfolding eval_binary num_binary
same_binary c op_sub a b = refl
same_binary c _ a b = refl

eval_tree-Means :
    (c : Context) (call : Expr → Eval Value) (find : Expr → Option ℕ → Eval Base)
    → c.final_pass ≡ true
    → {e : Expr} {v : ℕ} {l : List ℕ} → Means c.build e v l
    → (st : State)
    → eval_tree c call find e st
      ≡ done (record { result = v; cnst = true }) (record st { errors = st.errors ++ l })
unfolding eval_tree eval_op
eval_tree-Means c call find final (number v) st = rw append-nil refl
eval_tree-Means c call find final (unary_of op x v l m) st =
    rw (eval_tree-Means c call find final m st, same_unary c.build op v) refl
eval_tree-Means c call find final (binary_of op x y a b l m p q) st =
    rw
      (
        eval_tree-Means c call find final p st,
        eval_tree-Means c call find final q (record st { errors = st.errors ++ l }),
        final,
        same_binary c.build op a b,
      )
      (rw (append_assoc, append_assoc, append_assoc) refl)

-- No node holds a symbol or a 128-bit integer.
pub data IsConstant : Expr → Type 0 where
  number_constant : (v : ℕ) → IsConstant (num v)
  unary_constant : (op : UnaryOp) {x : Expr} → IsConstant x → IsConstant (unary op x)
  binary_constant :
      (op : BinaryOp) {x y : Expr} → IsConstant x → IsConstant y → IsConstant (binary op x y)

meaning : (c : Build) {e : Expr} → IsConstant e → (v : ℕ) × (l : List ℕ) × Means c e v l
meaning c (number_constant v) = (v, [], number v)
meaning c (unary_constant op {x} p) =
    let (v, l, m) = meaning c p in (num_unary c op v, l, unary_of op x v l m)
meaning c (binary_constant op {x} {y} p q) =
    let (a, l, m) = meaning c p in
    let (b, k, n) = meaning c q in
    ((num_binary c op a b).0, l ++ k ++ (num_binary c op a b).1, binary_of op x y a b l k m n)

-- Of an expression of numbers only, in the final pass, `simplify_expr` leaves the number that
-- `eval_expr` returns as constant, with the same messages: those of the operators in the order of
-- the operands.
pub simplify_expr-eval_expr :
    (c : Context) (defined : ℕ → Option Expr) (fuel : ℕ) (st : State) (e : Expr)
    → IsConstant e
    → c.final_pass ≡ true
    → (v : ℕ) × (l : List ℕ) × Means c.build e v l
      × (simplify_expr c.build defined e ≡ ok (num v, l))
      × (eval_expr c (suc fuel) e st
          ≡ done (record { result = v; cnst = true }) (record st { errors = st.errors ++ l }))
unfolding eval_expr
simplify_expr-eval_expr c defined fuel st e p final =
    let (v, l, m) = meaning c.build p in
    (v, l, m, simplify-Means c.build defined m, eval_tree-Means c _ _ final m st)
