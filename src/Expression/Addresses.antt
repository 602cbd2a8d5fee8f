-- ===== src/Expression/Addresses.antt =====
-- `eval_expr` and `find_base` keep the addresses of symbols, but for the symbol of the current pc.
use vasm_ext.Common.{
  ℕ, zero, suc, ◌≡◌, refl, Bool, true, false, not, ◌&&◌, ◌||◌, List, Option, none, some, ◌==◌,
  if◌then◌else◌, Bool-cases, inl, inr,
}
use vasm_ext.HugeInt.{Thuge}
use vasm_ext.Expression.State.{
  SymbolType, labsym, import, expression, Symbol, State, Context, null_access, Eval, ◌>>◌, pure,
  skip, errors, get, same, update_curpc, set_curpc, add_dep, set_dep, locref, extref,
}
use vasm_ext.Expression.Eval.{
  Value, Base, base_ok, eval_op, eval_hug, label_difference, eval_difference, eval_label,
  eval_equate, eval_symbol, base_symbol, if_const, base_difference, deref, is_ok, eval_tree,
  base_tree, eval_expr, find_base_from, pcrel_addend, is_sub, in_final_pass,
}
use vasm_ext.Expression.{BinaryOp, op_add, op_sub, Expr, num, hug, symbol, unary, binary}
use vasm_ext.Expression.Frame.{
  Keeps, returns, stops, faults, runs_out, Frame, Keeps-bind, Frame-bind, Frame-if, Frame-done,
  Frame-get, Frame-errors, put_kept, put_curpc, Frame-put_from,
}

Frame-update_curpc : (c : Context) (n : ℕ) → Frame c.cpc (update_curpc c n)
unfolding update_curpc
Frame-update_curpc c n = elim (Bool-cases (same (some n) c.cpc)) [
  | inl e ↦ rw e (set c.sec e)
  | inr e ↦ rw e (Frame-done c.cpc tt)
]
  where
    set : (o : Option ℕ) → same (some n) c.cpc ≡ true → Frame c.cpc (set_curpc c n o)
    set none e = unfold set_curpc in Frame-done c.cpc tt
    set (some k) e = unfold set_curpc in (record { keeps = λ s. put_curpc c.cpc n _ s e })

Frame-add_dep : (c : Context) (a b : Option ℕ) → Frame c.cpc (add_dep c a b)
unfolding add_dep
Frame-add_dep c none b = Frame-done c.cpc tt
Frame-add_dep c (some a) none =
    Frame-if c.cpc (c.num_secs == 0) skip (λ st. null_access) (Frame-done c.cpc tt)
      (record { keeps = λ s. faults })
Frame-add_dep c (some a) (some b) =
    Frame-if c.cpc ((c.num_secs == 0) || (a == b)) skip (set_dep b a) (Frame-done c.cpc tt)
      (record { keeps = λ s. returns tt _ (λ m e. refl) })

Frame-final : (c : Context) (l : List ℕ) → Frame c.cpc (in_final_pass c l)
Frame-final c l =
    Frame-if c.cpc c.final_pass (errors l) skip (Frame-errors c.cpc l) (Frame-done c.cpc tt)

Frame-eval_op :
    (c : Context) (op : BinaryOp) (l r : Value) (k : Bool) → Frame c.cpc (eval_op c op l r k)
unfolding eval_op
Frame-eval_op c op l r k = Frame-bind c.cpc _ _ (Frame-final c _) (λ _. Frame-done c.cpc _)

Frame-eval_hug : (c : Context) (h : Thuge) → Frame c.cpc (eval_hug c h)
unfolding eval_hug
Frame-eval_hug c h = Frame-bind c.cpc _ _ (Frame-final c _) (λ _. Frame-done c.cpc _)

Frame-deref : (cpc b : Option ℕ) → Frame cpc (deref b)
Frame-deref cpc none = record { keeps = λ s. faults }
Frame-deref cpc (some n) = Frame-get cpc n

module _ (c : Context) where
  Frame-dep_then :
      {A : Type 0} (a b : Option ℕ) (m : Eval A) → Frame c.cpc m → Frame c.cpc (add_dep c a b >> m)
  Frame-dep_then a b m h = Frame-bind c.cpc (add_dep c a b) (λ _. m) (Frame-add_dep c a b) (λ _. h)

  Frame-label_difference :
      (l r : Value) (lbok : Bool) (lsym rsym : Symbol)
      → Frame c.cpc (label_difference c l r lbok lsym rsym)
  Frame-label_difference l r lbok lsym rsym =
      let one = Frame-dep_then c.sec lsym.sec _ (Frame-eval_op c op_sub l r true) in
      let two =
        Frame-dep_then c.sec lsym.sec _
          (Frame-dep_then c.sec rsym.sec _ (Frame-eval_op c op_sub l r true)) in
      Frame-if c.cpc (lbok && locref lsym && same lsym.sec rsym.sec) _ _ one (
        Frame-if c.cpc (lbok && same rsym.sec c.sec && (extref lsym || locref lsym)) _ _
          (Frame-if c.cpc (rsym.abslabel && lsym.abslabel) _ _ two
            (Frame-done c.cpc (record { result = pcrel_addend c l r lsym.sec; cnst = false })))
          (Frame-if c.cpc (not lbok && rsym.abslabel) _ _
            (Frame-dep_then c.sec rsym.sec _ (Frame-eval_op c op_sub l r true))
            (Frame-eval_op c op_sub l r false)))

  Frame-eval_difference :
      (l r : Value) (find : Eval Base) (rb : Base)
      → Frame c.cpc find
      → Frame c.cpc (eval_difference c l r find rb)
  unfolding eval_difference
  Frame-eval_difference l r find rb h =
      let left = λ (rsym : Symbol).
        Frame-if c.cpc (locref rsym) _ _
          (Frame-bind c.cpc find _ h (λ lb.
            Frame-if c.cpc (is_ok lb) _ _
              (Frame-bind c.cpc (deref lb.base) _ (Frame-deref c.cpc lb.base)
                (λ lsym. Frame-label_difference l r true lsym rsym))
              (Frame-label_difference l r false rsym rsym)))
          (Frame-eval_op c op_sub l r false) in
      Frame-if c.cpc (is_ok rb) _ _
        (Frame-bind c.cpc (deref rb.base) _ (Frame-deref c.cpc rb.base) left)
        (Frame-eval_op c op_sub l r false)

  Keeps-eval_equate :
      {A : Type 0} (call : Expr → Eval A) (n : ℕ) (e : Expr) (s : State)
      → Frame c.cpc (call e)
      → Keeps c.cpc s (eval_equate call n (s.symbols n) e s)
  Keeps-eval_equate call n e s h = Keeps-bind c.cpc s _ (put_kept c.cpc n _ s refl) (λ _.
      Frame-bind c.cpc (call e) _ h (λ v.
        Frame-put_from c.cpc n (λ x. record x { ineval = false }) (pure v) (λ x. refl)
          (Frame-done c.cpc v)))

  Keeps-if :
      {A : Type 0} (b : Bool) (m n : Eval A) (s : State)
      → Keeps c.cpc s (m s)
      → Keeps c.cpc s (n s)
      → Keeps c.cpc s ((if b then m else n) s)
  Keeps-if true m n s h k = h
  Keeps-if false m n s h k = k

  Frame-eval_label : (l : Symbol) → Frame c.cpc (eval_label c l)
  Frame-eval_label l =
      Frame-bind c.cpc _ _
        (Frame-if c.cpc _ _ _ (Frame-add_dep c c.sec l.sec) (Frame-done c.cpc tt))
        (λ _. Frame-done c.cpc _)

  Keeps-eval_symbol :
      (call : Expr → Eval Value) (n : ℕ) (s : State) (t : SymbolType)
      → ((e : Expr) → Frame c.cpc (call e))
      → Keeps c.cpc s (eval_symbol c call n (s.symbols n) t s)
  unfolding eval_symbol
  Keeps-eval_symbol call n s labsym h =
      Keeps-if (s.symbols n).weak _ _ s (returns _ s (λ m e. refl)) (
        (Frame-bind c.cpc _ _
            (Frame-bind c.cpc _ _ (Frame-update_curpc c n) (λ _. Frame-get c.cpc n))
            Frame-eval_label).keeps
          s)
  Keeps-eval_symbol call n s import h = returns _ s (λ m e. refl)
  Keeps-eval_symbol call n s (expression e) h =
      Keeps-if (s.symbols n).ineval _ _ s (stops 18) (Keeps-eval_equate call n e s (h e))

  Frame-base_symbol :
      (call : Expr → Option ℕ → Eval Base) (n : ℕ) (base : Option ℕ)
      → ((e : Expr) (b : Option ℕ) → Frame c.cpc (call e b))
      → Frame c.cpc (base_symbol c call n base)
  unfolding base_symbol
  Frame-base_symbol call n base h =
      Frame-bind c.cpc (update_curpc c n) _ (Frame-update_curpc c n)
        (λ _. Frame-bind c.cpc (get n) _ (Frame-get c.cpc n) (λ s. by_type s.type))
    where
      by_type :
          (t : SymbolType)
          → Frame {A = Base} c.cpc (elim t [
            | expression e ↦ call e base
            | labsym ↦ pure (record { code = base_ok; base = some n })
            | import ↦ pure (record { code = base_ok; base = some n })
          ])
      by_type labsym = Frame-done c.cpc _
      by_type import = Frame-done c.cpc _
      by_type (expression e) = h e base

  Frame-if_const :
      (eval : Eval Value) (find : Eval Base) (base : Option ℕ)
      → Frame c.cpc eval
      → Frame c.cpc find
      → Frame c.cpc (if_const eval find base)
  Frame-if_const eval find base h k =
      Frame-bind c.cpc eval _ h (λ v. Frame-if c.cpc v.cnst _ _ k (Frame-done c.cpc _))

  Frame-base_difference :
      (find : Eval Base) (lb : Base) → Frame c.cpc find → Frame c.cpc (base_difference c find lb)
  unfolding base_difference
  Frame-base_difference find lb h =
      Frame-if c.cpc (is_ok lb) _ _
        (Frame-bind c.cpc find _ h (λ rb.
          Frame-if c.cpc (is_ok rb) _ _
            (Frame-bind c.cpc (deref rb.base) _ (Frame-deref c.cpc rb.base) (λ _.
              Frame-bind c.cpc (deref lb.base) _ (Frame-deref c.cpc lb.base)
                (λ _. Frame-done c.cpc _)))
            (Frame-done c.cpc _)))
        (Frame-done c.cpc _)

module _ (c : Context) (call : Expr → Eval Value) (find : Expr → Option ℕ → Eval Base)
    (h : (e : Expr) → Frame c.cpc (call e))
    (k : (e : Expr) (b : Option ℕ) → Frame c.cpc (find e b)) where
  mutual
    unfolding eval_tree base_tree

    Frame-eval_tree : (e : Expr) → Frame c.cpc (eval_tree c call find e)
    Frame-eval_tree (num v) = Frame-done c.cpc _
    Frame-eval_tree (hug g) = Frame-eval_hug c g
    Frame-eval_tree (symbol n) = record {
      keeps = λ s. Keeps-eval_symbol c call n s (s.symbols n).type h;
    }
    Frame-eval_tree (unary op x) =
        Frame-bind c.cpc _ _ (Frame-eval_tree x) (λ v. Frame-done c.cpc _)
    Frame-eval_tree (binary op x y) = Frame-bind c.cpc _ _ (Frame-eval_tree x) (λ l.
        Frame-bind c.cpc _ _ (Frame-eval_tree y) (λ r.
          Frame-if c.cpc ((l.cnst && r.cnst) || not (is_sub op)) _ _
            (Frame-eval_op c op l r (l.cnst && r.cnst))
            (Frame-bind c.cpc _ _ (Frame-base_tree y none)
              (λ rb. Frame-eval_difference c l r _ rb (Frame-base_tree x none)))))

    Frame-base_tree : (e : Expr) (base : Option ℕ) → Frame c.cpc (base_tree c call find e base)
    Frame-base_tree (symbol n) base = Frame-base_symbol c find n base k
    Frame-base_tree (binary op_add x y) base =
        Frame-bind c.cpc _ _
          (Frame-if_const c _ _ base (Frame-eval_tree x) (Frame-base_tree y base))
          (λ b.
            Frame-if c.cpc (is_ok b) _ _ (Frame-done c.cpc b)
              (Frame-if_const c _ _ b.base (Frame-eval_tree y) (Frame-base_tree x b.base)))
    Frame-base_tree (binary op_sub x y) base =
        Frame-bind c.cpc _ _
          (Frame-if_const c _ _ base (Frame-eval_tree y) (Frame-base_tree x base))
          (λ b. Frame-if c.cpc (is_ok b) _ _ (Frame-done c.cpc b) (
            Frame-bind c.cpc _ _ (Frame-base_tree x b.base)
              (λ lb. Frame-base_difference c _ lb (Frame-base_tree y none))))
    Frame-base_tree _ base = Frame-done c.cpc _

mutual
  unfolding eval_expr find_base_from

  eval_expr_keeps : (c : Context) (fuel : ℕ) (e : Expr) → Frame c.cpc (eval_expr c fuel e)
  eval_expr_keeps c zero e = record { keeps = λ s. runs_out }
  eval_expr_keeps c (suc fuel) e =
      Frame-eval_tree c (eval_expr c fuel) (find_base_from c fuel) (eval_expr_keeps c fuel)
        (find_base_keeps c fuel) e

  find_base_keeps :
      (c : Context) (fuel : ℕ) (e : Expr) (b : Option ℕ) → Frame c.cpc (find_base_from c fuel e b)
  find_base_keeps c zero e b = record { keeps = λ s. runs_out }
  find_base_keeps c (suc fuel) e b =
      Frame-base_tree c (eval_expr c fuel) (find_base_from c fuel) (eval_expr_keeps c fuel)
        (find_base_keeps c fuel) e b

-- The evaluation of an expression changes no symbol's pc but that of the symbol of the current pc.
pub eval_expr-Frame : (c : Context) (fuel : ℕ) (e : Expr) → Frame c.cpc (eval_expr c fuel e)
eval_expr-Frame c fuel e = eval_expr_keeps c fuel e
