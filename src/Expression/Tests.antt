-- ===== src/Expression/Tests.antt =====
-- Expressions over a table of six symbols.
use mathlib.Core.Path.{subst}
use vasm_ext.Expression.Literal.{small, read_literal, read_value, next_value, digit_of}
use vasm_ext.Expression.Literal.Value.{number, read_literal-number}
use vasm_ext.Common.Run.{ok}
use vasm_ext.Common.{
  ℕ, zero, suc, ◌-◌, ◌^◌, ◌≡◌, refl, arith, Bool, true, false, List, [], ◌∷◌, ◌++◌, Option, none,
  some, get_or, ap, not, ◌&&◌, ◌||◌, ◌==◌, inl, inr,
}
use vasm_ext.Expression.Constant.{
  Means, IsConstant, number_constant, unary_constant, binary_constant, simplify_expr-eval_expr,
}
use vasm_ext.Expression.Eval.{base_pcrel, eval_expr, find_base}
use vasm_ext.Expression.HugeEval.{eval_expr_huge, huge_tree, huge_symbol}
use vasm_ext.Expression.Labels.{IsLabelIn, outside_label, eval_expr-same_section, eval_expr-pcrel}
use vasm_ext.Expression.Operators.{eval_binary}
use vasm_ext.Expression.Rearrange.{difference, simplify_expr-rearranged}
use vasm_ext.Expression.Simplify.{simplify_expr}
use vasm_ext.Expression.State.{
  SymbolType, labsym, import, expression, Symbol, State, Context, done, stop, put,
}
use vasm_ext.Expression.Terminates.{idle, Scoped, IsScoped, Finishes, eval_expr_huge-Finishes}
use vasm_ext.Expression.{
  Build, Expr, num, symbol, unary, binary, op_neg, op_add, op_sub, op_div, op_mod, signed_div,
  signed_mod, num_binary,
}

abbrev build : Build
build = record {
  bitspertaddr = 32;
  target_bits = 32;
  true_is_minus_one = true;
  undefined_shift = λ op v sh. 0;
  undefined_huge_shift = λ op h sh. h;
  undefined_chkrange = λ h. true;
}

abbrev entry : SymbolType → Bool → Option ℕ → ℕ → Symbol
entry t abs sec pc = record {
  type = t;
  weak = false;
  abslabel = abs;
  ineval = false;
  export = false;
  referenced = false;
  sec = sec;
  pc = pc;
}

abbrev import_of : Symbol
import_of = entry import false none 0

-- Two labels of section 0, one of section 1, an import and two absolute labels.
abbrev table : ℕ → Symbol
table n =
    get_or
      (entry labsym false (some 0) 100
        ∷ entry labsym false (some 0) 40
        ∷ entry labsym false (some 1) 12
        ∷ import_of
        ∷ entry labsym true (some 2) 7
        ∷ entry labsym true (some 2) 3
        ∷ [])
      n import_of

abbrev context : Option ℕ → Context
context sec = record {
  build = build;
  final_pass = true;
  num_secs = 3;
  sections = λ n. record { org = 0; unallocated = false; absolute = n == 2 };
  cpc = none;
  sec = sec;
  pc = 60;
}

abbrev start : State
start = record { symbols = table; dep = λ d s. false; errors = [] }

-- -7 / 2 is -3, and the remainder is -1.
rounds_to_zero :
    (signed_div 32 (2 ^ 32 - 7) 2 ≡ 2 ^ 32 - 3) × (signed_mod 32 (2 ^ 32 - 7) 2 ≡ 2 ^ 32 - 1)
unfolding signed_div signed_mod
rounds_to_zero = (refl, refl)

-- - 4 / 0
abbrev by_zero : Expr
by_zero = unary op_neg (binary op_div (num 4) (num 0))

by_zero-IsConstant : IsConstant by_zero
by_zero-IsConstant =
    unary_constant op_neg (binary_constant op_div (number_constant 4) (number_constant 0))

simplify_expr-eval_expr_example :
    (v : ℕ) × (l : List ℕ) × Means build by_zero v l
    × (simplify_expr build (λ n. none) by_zero ≡ ok (num v, l))
    × (eval_expr (context none) 1 by_zero start
        ≡ done (record { result = v; cnst = true }) (record start { errors = start.errors ++ l }))
simplify_expr-eval_expr_example =
    simplify_expr-eval_expr (context none) (λ n. none) 0 start by_zero by_zero-IsConstant refl

simplify_expr-rearranged_example :
    (eval_expr (context none) 1 (difference 20 4 5) start
      ≡ done (record { result = 10; cnst = true }) start)
    × (e : Expr) × (simplify_expr build (λ n. none) (difference 20 4 5) ≡ ok (e, []))
    × (eval_expr (context none) 1 e start ≡ done (record { result = 16; cnst = true }) start)
simplify_expr-rearranged_example =
    simplify_expr-rearranged (context none) (λ n. none) 0 start 20 4 5 refl refl refl refl
      (record { is_labsym = refl; is_strong = refl; is_absolute = refl })
      (record { is_labsym = refl; is_strong = refl; is_absolute = refl })

abbrev label_in :
    (here k : ℕ) (s : Symbol)
    → s.type ≡ labsym
    → s.weak ≡ false
    → s.abslabel ≡ false
    → s.sec ≡ some k
    → IsLabelIn (context (some here)) k s
label_in here k s t w a i = record {
  is_labsym = t;
  is_strong = w;
  is_relative = a;
  is_in = i;
  allocated = refl;
}

-- In section 1, which section 0 then depends on.
eval_expr-same_section_example :
    eval_expr (context (some 1)) 1 (binary op_sub (symbol 0) (symbol 1)) start
    ≡ done
        (record { result = 60; cnst = true })
        (record start { dep = λ e t. ((e == 0) && (t == 1) && not (1 == 0)) || start.dep e t })
eval_expr-same_section_example =
    eval_expr-same_section (context (some 1)) 0 start 1 0 0 1 refl refl (omega arith)
      (label_in 1 0 (table 0) refl refl refl refl) (label_in 1 0 (table 1) refl refl refl refl)

eval_expr-pcrel_example :
    (find_base (context (some 0)) 1 (binary op_sub (symbol 2) (symbol 1)) start
      ≡ done (record { code = base_pcrel; base = some 2 }) start)
    × (eval_expr (context (some 0)) 1 (binary op_sub (symbol 2) (symbol 1)) start
        ≡ done (record { result = 32; cnst = false }) start)
eval_expr-pcrel_example =
    eval_expr-pcrel (context (some 0)) 0 start 0 2 1 12 refl refl
      (outside_label 1 (label_in 0 1 (table 2) refl refl refl refl) refl)
      (label_in 0 0 (table 1) refl refl refl refl)

-- An equate `e + 1` of an absolute label, and one that refers to itself.
abbrev equates : ℕ → Symbol
equates zero = entry (expression (binary op_add (symbol 1) (num 1))) false none 0
equates (suc zero) = entry labsym true (some 2) 7
equates (suc (suc zero)) = entry (expression (symbol 2)) false none 0
equates (suc (suc (suc n))) = import_of

abbrev equated : State
equated = record { symbols = equates; dep = λ d s. false; errors = [] }

recursive_equate : eval_expr_huge (context none) 4 (symbol 2) equated ≡ stop 18
unfolding eval_expr_huge huge_tree huge_symbol put
recursive_equate = refl

abbrev tree_of : SymbolType → Expr
tree_of labsym = num 0
tree_of import = num 0
tree_of (expression e) = e

equates-IsScoped : IsScoped 3 equates
unfolding Scoped
equates-IsScoped zero e p = subst (Scoped 3) (ap tree_of p) (omega arith, tt)
equates-IsScoped (suc zero) e p = cc p
equates-IsScoped (suc (suc zero)) e p = subst (Scoped 3) (ap tree_of p) (omega arith)
equates-IsScoped (suc (suc (suc n))) e p = cc p

eval_expr_huge-Finishes_example :
    Finishes equates (eval_expr_huge (context none) 4 (symbol 0) equated)
unfolding Scoped idle
eval_expr_huge-Finishes_example =
    eval_expr_huge-Finishes (context none) 3 4 (symbol 0) equated (omega arith) equates-IsScoped
      (omega arith)

-- "1f)" in base 16.
read_literal-number_example :
    read_literal 32 16 (49 ∷ 102 ∷ 41 ∷ []) ≡ small (number 16 0 (1 ∷ 15 ∷ [])) (41 ∷ [])
unfolding number digit_of
read_literal-number_example =
    read_literal-number 32 16 49 (102 ∷ []) 1 (15 ∷ []) (41 ∷ []) (inr (inl refl)) (inr (inr refl))
      (refl, omega arith, (refl, omega arith, tt)) refl

-- 18446744073709551616 is read as 0.
two_to_64 :
    read_literal 64 10 (
      49 ∷ 56 ∷ 52 ∷ 52 ∷ 54 ∷ 55 ∷ 52 ∷ 52 ∷ 48 ∷ 55 ∷ 51 ∷ 55 ∷ 48 ∷ 57 ∷ 53 ∷ 53 ∷ 49 ∷ 54 ∷ 49
      ∷ 54 ∷ [])
    ≡ small 0 []
unfolding read_literal read_value next_value digit_of
two_to_64 = refl

-- 4294967296, where `utaddr` has 32 bits.
two_to_32 : read_literal 32 10 (52 ∷ 50 ∷ 57 ∷ 52 ∷ 57 ∷ 54 ∷ 55 ∷ 50 ∷ 57 ∷ 54 ∷ []) ≡ small 0 []
unfolding read_literal read_value next_value digit_of
two_to_32 = refl

-- The remainder of -7 by 2, and the sum of 2 ^ 31 and itself, in both switches.
both_switches :
    (num_binary build op_mod (2 ^ 32 - 7) 2 ≡ (2 ^ 32 - 1, []))
    × (eval_binary build op_mod (2 ^ 32 - 7) 2 ≡ (2 ^ 32 - 1, []))
    × (num_binary build op_add (2 ^ 31) (2 ^ 31) ≡ (0, []))
    × (eval_binary build op_add (2 ^ 31) (2 ^ 31) ≡ (0, []))
unfolding num_binary eval_binary signed_mod
both_switches = (refl, refl, refl, refl)
