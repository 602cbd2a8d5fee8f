-- ===== src/Expression/Labels.antt =====
-- Differences of labels in relocatable sections.
use mathlib.Core.Path.{fun_ext}
use vasm_ext.Common.{
  ℕ, suc, ◌+◌, ◌-◌, ◌%◌, ◌^◌, ◌<◌, ◌≡◌, refl, ap, ◌∙◌, arith, Bool, true, false, not, ◌&&◌, ◌||◌,
  ◌==◌, Option, none, some, Bool-cases, inl, inr,
}
use vasm_ext.Expression.Eval.{
  Value, Base, base_ok, base_pcrel, eval_expr, eval_tree, eval_op, eval_symbol, eval_difference,
  base_difference, label_difference, pcrel_addend, org_of, find_base, find_base_from, base_tree,
  base_symbol,
}
use vasm_ext.Expression.Rearrange.{minus, update_curpc-none, no_message}
use vasm_ext.Expression.State.{
  labsym, import, Symbol, State, Context, Eval, done, bind, ◌>>◌, pure, add_dep, same, locref,
  extref,
}
use vasm_ext.Expression.{Expr, symbol, binary, op_sub}
use vasm_ext.Expression.Operators.{eval_binary}

-- A label that is not weak, in the section `k`, whose address is not yet known.
pub record IsLabelIn (c : Context) (k : ℕ) (s : Symbol) : Type 0 where
  pub is_labsym : s.type ≡ labsym
  pub is_strong : s.weak ≡ false
  pub is_relative : s.abslabel ≡ false
  pub is_in : s.sec ≡ some k
  pub allocated : (c.sections k).unallocated ≡ false

same-some : (k : ℕ) → same (some k) (some k) ≡ true
same-some k = ground arith

eval_op-sub :
    (c : Context) (l r : Value) (cnst : Bool)
    → eval_op c op_sub l r cnst
      ≡ pure (record { result = minus c.build.bitspertaddr l.result r.result; cnst = cnst })
unfolding eval_op eval_binary
eval_op-sub c l r cnst = fun_ext (λ st. rw (no_message c st) refl)

module _ (c : Context) (no_cpc : c.cpc ≡ none) (call : Expr → Eval Value)
    (find : Expr → Option ℕ → Eval Base) (st : State) where
  eval-relative :
      (k a : ℕ)
      → IsLabelIn c k (st.symbols a)
      → eval_tree c call find (symbol a) st
        ≡ done (record { result = (st.symbols a).pc; cnst = false }) st
  unfolding eval_tree eval_symbol
  eval-relative k a w =
      rw
        (
          w.is_labsym,
          w.is_strong,
          update_curpc-none c no_cpc a st,
          w.is_in,
          w.allocated,
          w.is_relative,
        )
        refl

  base-label :
      (a : ℕ)
      → (st.symbols a).type ≡ labsym
      → base_symbol c find a none st ≡ done (record { code = base_ok; base = some a }) st
  unfolding base_symbol
  base-label a e = rw (update_curpc-none c no_cpc a st, e) refl

  locref-label : (k a : ℕ) → IsLabelIn c k (st.symbols a) → locref (st.symbols a) ≡ true
  locref-label k a w = rw (w.is_labsym, w.is_strong) refl

  eval-same_section :
      (k a b : ℕ)
      → IsLabelIn c k (st.symbols a)
      → IsLabelIn c k (st.symbols b)
      → eval_tree c call find (binary op_sub (symbol a) (symbol b)) st
        ≡ (add_dep c c.sec (some k)
              >> pure (record {
                result = minus c.build.bitspertaddr (st.symbols a).pc (st.symbols b).pc;
                cnst = true;
              }))
            st
  unfolding eval_tree base_tree eval_difference
  eval-same_section k a b v w =
      rw (eval-relative k a v, eval-relative k b w, base-label b w.is_labsym)
        (rw
          (
            locref-label k b w,
            base-label a v.is_labsym,
            locref-label k a v,
            v.is_in,
            w.is_in,
            same-some k,
            eval_op-sub,
          )
          refl)

or_comm : (p q : Bool) → p || q ≡ true → q || p ≡ true
or_comm true true h = refl
or_comm true false h = refl
or_comm false q h = rw h refl

and_false : (p : Bool) → p && false ≡ false
and_false true = refl
and_false false = refl

-- What a difference to a label in the section `k` may refer to, with its own value: an import, or a
-- label in another section.
pub data IsOutside (c : Context) (k : ℕ) (s : Symbol) : ℕ → Type 0 where
  outside_import : s.type ≡ import → s.sec ≡ none → IsOutside c k s 0
  outside_label : (j : ℕ) → IsLabelIn c j s → (j == k) ≡ false → IsOutside c k s s.pc

difference-pcrel :
    (c : Context) (l r : Value) (lsym rsym : Symbol) (st : State)
    → same lsym.sec rsym.sec ≡ false
    → same rsym.sec c.sec ≡ true
    → (extref lsym || locref lsym) ≡ true
    → rsym.abslabel ≡ false
    → label_difference c l r true lsym rsym st
      ≡ done (record { result = pcrel_addend c l r lsym.sec; cnst = false }) st
difference-pcrel c l r lsym rsym st apart here reference relative =
    rw (label_difference, apart, and_false (locref lsym), here, reference, relative) refl

module _ (c : Context) (k : ℕ) {s : Symbol} where
  outside-extref : {v : ℕ} → IsOutside c k s v → (extref s || locref s) ≡ true
  outside-extref (outside_import e n) = rw e refl
  outside-extref (outside_label j w e) = rw (w.is_labsym, w.is_strong) refl

  outside-apart : {v : ℕ} → IsOutside c k s v → same s.sec (some k) ≡ false
  outside-apart (outside_import e n) = rw n refl
  outside-apart (outside_label j w e) = rw (w.is_in) e

module _ (c : Context) (no_cpc : c.cpc ≡ none) (call : Expr → Eval Value)
    (find : Expr → Option ℕ → Eval Base) (st : State) (k a : ℕ) where
  base-outside :
      {v : ℕ}
      → IsOutside c k (st.symbols a) v
      → base_symbol c find a none st ≡ done (record { code = base_ok; base = some a }) st
  unfolding base_symbol
  base-outside (outside_import e n) = rw (update_curpc-none c no_cpc a st, e) refl
  base-outside (outside_label j w e) = base-label c no_cpc call find st a w.is_labsym

  eval-outside :
      {v : ℕ}
      → IsOutside c k (st.symbols a) v
      → eval_tree c call find (symbol a) st ≡ done (record { result = v; cnst = false }) st
  unfolding eval_tree eval_symbol
  eval-outside (outside_import e n) = rw e refl
  eval-outside (outside_label j w e) = eval-relative c no_cpc call find st j a w

  module _ (b : ℕ) (w : IsLabelIn c k (st.symbols b)) (here : c.sec ≡ some k) {v : ℕ}
      (o : IsOutside c k (st.symbols a) v) where
    in_section : same (st.symbols b).sec c.sec ≡ true
    in_section = rw (w.is_in, here) (same-some k)

    either : locref (st.symbols a) || extref (st.symbols a) ≡ true
    either = or_comm (extref (st.symbols a)) (locref (st.symbols a)) (outside-extref c k o)

    eval-pcrel :
        eval_tree c call find (binary op_sub (symbol a) (symbol b)) st
        ≡ done
            (record {
              result =
                  pcrel_addend c
                    (record { result = v; cnst = false })
                    (record { result = (st.symbols b).pc; cnst = false })
                    (st.symbols a).sec;
              cnst = false;
            })
            st
    unfolding eval_tree base_tree eval_difference
    eval-pcrel =
        rw
          (
            eval-outside o,
            eval-relative c no_cpc call find st k b w,
            base-label c no_cpc call find st b w.is_labsym,
            locref-label c no_cpc call find st k b w,
            base-outside o,
          )
          (difference-pcrel c _ _ (st.symbols a) (st.symbols b) st
            (rw w.is_in (outside-apart c k o)) in_section (outside-extref c k o) w.is_relative)

    base-pcrel :
        base_tree c call find (binary op_sub (symbol a) (symbol b)) none st
        ≡ done (record { code = base_pcrel; base = some a }) st
    unfolding base_tree base_difference
    base-pcrel = rw (eval-relative c no_cpc call find st k b w) (
        rw
          (
            base-outside o,
            base-label c no_cpc call find st b w.is_labsym,
            locref-label c no_cpc call find st k b w,
            in_section,
            either,
          )
          refl)

-- Section `k` gets the current section `d` as one to be done again, unless it is the same.
add_dep-noted :
    (c : Context) (d k : ℕ) (st : State)
    → 0 < c.num_secs
    → add_dep c (some d) (some k) st
      ≡ done tt (record st { dep = λ e t. ((e == k) && (t == d) && not (d == k)) || st.dep e t })
unfolding add_dep
add_dep-noted c d k st some_secs =
    let secs : (c.num_secs == 0) ≡ false = ground arith in
    elim (Bool-cases (d == k)) [
      | inl e ↦
          rw (secs, e)
            (ap (λ f. done tt (record st { dep = f }))
              (fun_ext (λ x. fun_ext (λ y. unnoted (x == k) (y == d) (st.dep x y)))))
      | inr e ↦
          rw (secs, e)
            (ap (λ f. done tt (record st { dep = f }))
              (fun_ext (λ x. fun_ext (λ y. noted (x == k) (y == d) (st.dep x y)))))
    ]
  where
    unnoted : (p q r : Bool) → r ≡ (p && q && false) || r
    unnoted p q r = ground arith

    noted : (p q r : Bool) → (p && q) || r ≡ (p && q && true) || r
    noted p q r = ground arith

-- The difference of two labels of one relocatable section `k` is constant, and bit `d` is set in the
-- dependencies of `k`, where `d` is the current section and another one; nothing else changes.
pub eval_expr-same_section :
    (c : Context) (fuel : ℕ) (st : State) (d k a b : ℕ)
    → c.cpc ≡ none
    → c.sec ≡ some d
    → 0 < c.num_secs
    → IsLabelIn c k (st.symbols a)
    → IsLabelIn c k (st.symbols b)
    → (let w = 2 ^ c.build.bitspertaddr in
        eval_expr c (suc fuel) (binary op_sub (symbol a) (symbol b)) st
        ≡ done
            (record { result = ((st.symbols a).pc + w - (st.symbols b).pc) % w; cnst = true })
            (record st { dep = λ e t. ((e == k) && (t == d) && not (d == k)) || st.dep e t }))
unfolding eval_expr
eval_expr-same_section c fuel st d k a b no_cpc here some_secs v w =
    let difference : Value = record {
      result = minus c.build.bitspertaddr (st.symbols a).pc (st.symbols b).pc;
      cnst = true;
    } in
    eval-same_section c no_cpc _ _ st k a b v w
    ∙ ap (λ sec. bind (add_dep c sec (some k) st) (λ u. pure difference)) here
    ∙ ap (λ o. bind o (λ u. pure difference)) (add_dep-noted c d k st some_secs)

-- The difference of an import, or a label in another relocatable section, and a label in the
-- current one: `find_base` reports a pc-relative reference to the first, and `eval_expr` returns
-- the addend for it, the pc less the second plus the first's value, from the start of its section.
-- Neither changes the state.
pub eval_expr-pcrel :
    (c : Context) (fuel : ℕ) (st : State) (k a b v : ℕ)
    → c.cpc ≡ none
    → c.sec ≡ some k
    → IsOutside c k (st.symbols a) v
    → IsLabelIn c k (st.symbols b)
    → (let difference = binary op_sub (symbol a) (symbol b) in
        let w = 2 ^ c.build.bitspertaddr in
        (find_base c (suc fuel) difference st
          ≡ done (record { code = base_pcrel; base = some a }) st)
        × (eval_expr c (suc fuel) difference st
            ≡ done
                (record {
                  result =
                      ((c.pc + w - (st.symbols b).pc) % w + v + w - org_of c (st.symbols a).sec)
                      % w;
                  cnst = false;
                })
                st))
unfolding eval_expr find_base find_base_from
eval_expr-pcrel c fuel st k a b v no_cpc here o w =
    (base-pcrel c no_cpc _ _ st k a b w here o, eval-pcrel c no_cpc _ _ st k a b w here o)
