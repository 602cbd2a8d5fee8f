-- ===== src/Expression/Eval.antt =====
-- `eval_expr` and `find_base`: the value of an expression, whether it is constant, and the symbol
-- that it is based on.
use vasm_ext.Common.{
  ℕ, zero, suc, ◌+◌, ◌-◌, ◌%◌, ◌^◌, Bool, true, false, not, ◌&&◌, ◌||◌, List, [], ◌∷◌, Option, none,
  some, if◌then◌else◌,
}
use vasm_ext.HugeInt.{Thuge}
use vasm_ext.Expression.State.{
  SymbolType, labsym, import, expression, Symbol, Context, Eval, ◌>>=◌, ◌>>◌, pure, skip, errors,
  get, put, same, locref, extref, update_curpc, add_dep, out_of_fuel, null_access, stop,
}
use vasm_ext.Expression.{
  BinaryOp, op_add, op_sub, Expr, num, hug, symbol, unary, binary, to_taddr, in_range,
}
use vasm_ext.Expression.Operators.{eval_unary, eval_binary}

-- The result of `eval_expr` and its return value.
pub record Value : Type 0 where
  pub result : ℕ
  pub cnst : Bool

pub data BaseCode : Type 0 where
  base_illegal : BaseCode
  base_ok : BaseCode
  base_pcrel : BaseCode

-- The return value of `_find_base` and `*base`.
pub record Base : Type 0 where
  pub code : BaseCode
  pub base : Option ℕ

abbrev pub is_ok : Base → Bool
is_ok b = elim b.code [ base_illegal ↦ false | base_ok ↦ true | base_pcrel ↦ false ]

-- The symbol that a base points to.
abbrev pub deref : Option ℕ → Eval Symbol
deref none st = null_access
deref (some n) st = get n st

-- Messages of the switch on the operator are for the final pass.
abbrev pub in_final_pass : Context → List ℕ → Eval (Unit {0})
in_final_pass c l = if c.final_pass then errors l else skip

unfoldable pub eval_op : Context → BinaryOp → Value → Value → Bool → Eval Value
eval_op c op l r cnst = do
  in_final_pass c (eval_binary c.build op l.result r.result).1
  pure (record { result = (eval_binary c.build op l.result r.result).0; cnst = cnst })

unfoldable pub eval_hug : Context → Thuge → Eval Value
eval_hug c h = do
  in_final_pass c (if in_range c.build h c.build.target_bits then [] else 21 ∷ [])
  pure (record { result = to_taddr c.build h; cnst = true })

abbrev pub org_of : Context → Option ℕ → ℕ
org_of c none = 0
org_of c (some n) = (c.sections n).org

abbrev pub in_unallocated : Context → Option ℕ → Bool
in_unallocated c none = false
in_unallocated c (some n) = (c.sections n).unallocated

-- "symbol-symbol" as the addend of a pc-relative relocation
abbrev pub pcrel_addend : Context → Value → Value → Option ℕ → ℕ
pcrel_addend c l r s =
    let w = 2 ^ c.build.bitspertaddr in ((c.pc + w - r.result) % w + l.result + w - org_of c s) % w

-- The difference of a left operand based on `lsym`, if it has a base, and a right one based on the
-- label `rsym`.
abbrev pub label_difference : Context → Value → Value → Bool → Symbol → Symbol → Eval Value
label_difference c l r lbok lsym rsym =
    if lbok && locref lsym && same lsym.sec rsym.sec
    then (do add_dep c c.sec lsym.sec; eval_op c op_sub l r true)
    else if lbok && same rsym.sec c.sec && (extref lsym || locref lsym)
    then (if rsym.abslabel && lsym.abslabel
        then (do add_dep c c.sec lsym.sec; add_dep c c.sec rsym.sec; eval_op c op_sub l r true)
        else pure (record { result = pcrel_addend c l r lsym.sec; cnst = false }))
    else if not lbok && rsym.abslabel
    then (do add_dep c c.sec rsym.sec; eval_op c op_sub l r true)
    else eval_op c op_sub l r false

-- The right operand is based on `rsym`; `find` finds the base of the left one.
abbrev pub left_of : Context → Value → Value → Eval Base → Symbol → Eval Value
left_of c l r find rsym =
    if locref rsym
    then (find >>= λ lb.
        if is_ok lb
        then (do lsym ← deref lb.base; label_difference c l r true lsym rsym)
        else label_difference c l r false rsym rsym)
    else eval_op c op_sub l r false

-- SUB with an operand that is not constant, when the base of the right one is found; `find` finds
-- that of the left one.
unfoldable pub eval_difference : Context → Value → Value → Eval Base → Base → Eval Value
eval_difference c l r find rb =
    if is_ok rb then (deref rb.base >>= left_of c l r find) else eval_op c op_sub l r false

-- A label that is not weak, after `cpc` is updated.
abbrev pub eval_label : Context → Symbol → Eval Value
eval_label c l =
    let cnst = in_unallocated c l.sec || l.abslabel in
    (if cnst then add_dep c c.sec l.sec else skip) >> pure (record { result = l.pc; cnst = cnst })

-- The tree `e` of the symbol `n`, with INEVAL set meanwhile; `call` evaluates it.
abbrev pub eval_equate : {A : Type 0} → (Expr → Eval A) → ℕ → Symbol → Expr → Eval A
eval_equate call n s e = do
  put n (record s { ineval = true })
  v ← call e
  after ← get n
  put n (record after { ineval = false })
  pure v

-- SYM
unfoldable pub eval_symbol : Context → (Expr → Eval Value) → ℕ → Symbol → SymbolType → Eval Value
eval_symbol c call n s (expression e) = if s.ineval then (λ st. stop 18) else eval_equate call n s e
eval_symbol c call n s labsym =
    if s.weak
    then pure (record { result = 0; cnst = false })
    else (update_curpc c n >> get n >>= eval_label c)
eval_symbol c call n s import = pure (record { result = 0; cnst = false })

-- `_find_base` for SYM; `call` goes through the tree of an equate.
unfoldable pub base_symbol : Context → (Expr → Option ℕ → Eval Base) → ℕ → Option ℕ → Eval Base
base_symbol c call n base = do
  update_curpc c n
  s ← get n
  elim s.type [
    | expression e ↦ call e base
    | labsym ↦ pure (record { code = base_ok; base = some n })
    | import ↦ pure (record { code = base_ok; base = some n })
  ]

abbrev pub illegal : Option ℕ → Eval Base
illegal base = pure (record { code = base_illegal; base = base })

-- A constant operand and one with a base.
abbrev pub if_const : Eval Value → Eval Base → Option ℕ → Eval Base
if_const eval find base = do v ← eval; if v.cnst then find else illegal base

-- Both operands have a base.
abbrev pub pc_difference : Context → Base → Base → Eval Base
pc_difference c lb rb = do
  pcsym ← deref rb.base
  l ← deref lb.base
  pure (record {
    code =
        if locref pcsym && same pcsym.sec c.sec && (locref l || extref l)
        then base_pcrel
        else base_illegal;
    base = lb.base;
  })

-- The end of SUB: "symbol-pcsymbol"
unfoldable pub base_difference : Context → Eval Base → Base → Eval Base
base_difference c find lb =
    if is_ok lb
    then (find >>= λ rb. if is_ok rb then pc_difference c lb rb else illegal lb.base)
    else illegal lb.base

abbrev pub is_sub : BinaryOp → Bool
is_sub op_sub = true
is_sub _ = false

-- Both functions on a tree; `call` and `find` are the recursive calls on the tree of an equate.
unfoldable mutual
  pub eval_tree : Context → (Expr → Eval Value) → (Expr → Option ℕ → Eval Base) → Expr → Eval Value
  eval_tree c call find (num v) = pure (record { result = v; cnst = true })
  eval_tree c call find (hug h) = eval_hug c h
  eval_tree c call find (symbol n) = do s ← get n; eval_symbol c call n s s.type
  eval_tree c call find (unary op x) = do
    v ← eval_tree c call find x
    pure (record { result = eval_unary c.build op v.result; cnst = v.cnst })
  eval_tree c call find (binary op x y) = do
    l ← eval_tree c call find x
    r ← eval_tree c call find y
    (if (l.cnst && r.cnst) || not (is_sub op)
        then eval_op c op l r (l.cnst && r.cnst)
        else base_tree c call find y none >>= eval_difference c l r (base_tree c call find x none))

  pub base_tree :
      Context → (Expr → Eval Value) → (Expr → Option ℕ → Eval Base) → Expr → Option ℕ → Eval Base
  base_tree c call find (num v) base = illegal base
  base_tree c call find (hug h) base = illegal base
  base_tree c call find (symbol n) base = base_symbol c find n base
  base_tree c call find (unary op x) base = illegal base
  base_tree c call find (binary op_add x y) base = do
    b ← if_const (eval_tree c call find x) (base_tree c call find y base) base
    (if is_ok b
        then pure b
        else if_const (eval_tree c call find y) (base_tree c call find x b.base) b.base)
  base_tree c call find (binary op_sub x y) base = do
    b ← if_const (eval_tree c call find y) (base_tree c call find x base) base
    (if is_ok b
        then pure b
        else base_tree c call find x b.base >>= base_difference c (base_tree c call find y none))
  base_tree c call find (binary op x y) base = illegal base

-- The two functions, for `fuel` nested equates.
unfoldable mutual
  pub eval_expr : Context → ℕ → Expr → Eval Value
  eval_expr c zero e = λ st. out_of_fuel
  eval_expr c (suc fuel) e = eval_tree c (eval_expr c fuel) (find_base_from c fuel) e

  pub find_base_from : Context → ℕ → Expr → Option ℕ → Eval Base
  find_base_from c zero e base = λ st. out_of_fuel
  find_base_from c (suc fuel) e base = base_tree c (eval_expr c fuel) (find_base_from c fuel) e base

unfoldable pub find_base : Context → ℕ → Expr → Eval Base
find_base c fuel e = find_base_from c fuel e none
