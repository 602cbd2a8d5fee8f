-- ===== src/Expression/Terminates.antt =====
-- `eval_expr_huge` ends: INEVAL is set at each equate once, so that the nesting is bounded by the
-- number of symbols, and is clear again afterwards.
use vasm_ext.Common.Run.{Run, ok, fatal}
use vasm_ext.Common.{
  ℕ, zero, suc, ◌+◌, ◌≤◌, ◌<◌, ◌≡◌, ◌≢◌, ◌⊎◌, inl, inr, refl, sym, ap, ◌∙◌, arith, Bool, true,
  false, List, Option, none, some, ◌==◌, if◌then◌else◌, Bool-cases, ==_iff,
}
use vasm_ext.HugeInt.{Thuge}
use vasm_ext.Expression.State.{
  SymbolType, labsym, import, expression, Symbol, State, Context, Outcome, done, stop, Eval, bind,
  ◌>>=◌, ◌>>◌, get, pure, put,
}
use vasm_ext.Expression.Eval.{eval_equate}
use vasm_ext.Expression.Huge.{Computed, huge_binary}
use vasm_ext.Expression.HugeEval.{or_none, computed, huge_symbol, huge_tree, eval_expr_huge}
use vasm_ext.Expression.{Expr, num, hug, symbol, unary, binary}

-- The symbols below `n` that are not in evaluation.
unfoldable pub idle : ℕ → (ℕ → Symbol) → ℕ
idle zero s = 0
idle (suc n) s = (if (s n).ineval then 0 else 1) + idle n s

-- All symbols of a tree are below `n`.
unfoldable pub Scoped : ℕ → Expr → Type 0
Scoped n (num v) = Unit
Scoped n (hug h) = Unit
Scoped n (symbol m) = m < n
Scoped n (unary op x) = Scoped n x
Scoped n (binary op x y) = Scoped n x × Scoped n y

-- All trees of equates are.
abbrev pub IsScoped : ℕ → (ℕ → Symbol) → Type 0
IsScoped n s = (m : ℕ) (e : Expr) → (s m).type ≡ expression e → Scoped n e

-- The same symbols at each number.
abbrev pub Same : (ℕ → Symbol) → (ℕ → Symbol) → Type 0
Same s t = (m : ℕ) → t m ≡ s m

-- A run that returns, with the symbols as they were, or ends with a fatal message.
pub data Finishes {A : Type 0} (s : ℕ → Symbol) : Outcome A → Type 0 where
  returns : (a : A) (st : State) → Same s st.symbols → Finishes s (done a st)
  stops : (n : ℕ) → Finishes s (stop n)

idle-Same : (n : ℕ) (s t : ℕ → Symbol) → Same s t → idle n t ≡ idle n s
unfolding idle
idle-Same zero s t h = refl
idle-Same (suc n) s t h = rw (h n, idle-Same n s t h) refl

-- Setting INEVAL at a symbol takes it from the idle ones.
idle-above :
    (n k : ℕ) (s t : ℕ → Symbol) → n ≤ k → ((m : ℕ) → m ≢ k → t m ≡ s m) → idle n t ≡ idle n s
unfolding idle
idle-above zero k s t b h = refl
idle-above (suc n) k s t b h = rw (h n (omega arith), idle-above n k s t (omega arith) h) refl

at_last : (n k : ℕ) → k < suc n → (k < n) ⊎ (k ≡ n)
at_last n k h = ground arith

idle-set :
    (n k : ℕ) (s t : ℕ → Symbol)
    → k < n
    → (s k).ineval ≡ false
    → (t k).ineval ≡ true
    → ((m : ℕ) → m ≢ k → t m ≡ s m)
    → suc (idle n t) ≡ idle n s
unfolding idle
idle-set zero k s t b clear set h = omega arith
idle-set (suc n) k s t b clear set h = elim (at_last n k b) [
  | inl less ↦ rw (h n (omega arith)) (omega (arith, idle-set n k s t less clear set h))
  | inr e ↦
      let s_clear : (s n).ineval ≡ false = ap (λ m. (s m).ineval) (sym e) ∙ clear in
      let t_set : (t n).ineval ≡ true = ap (λ m. (t m).ineval) (sym e) ∙ set in
      rw (s_clear, t_set) (omega (arith, idle-above n k s t (omega arith) h))
]

Same-trans : {r s t : ℕ → Symbol} → Same r s → Same s t → Same r t
Same-trans h k m = k m ∙ h m

IsScoped-Same : (n : ℕ) (s t : ℕ → Symbol) → Same s t → IsScoped n s → IsScoped n t
IsScoped-Same n s t h w m e p = w m e (sym (ap (λ x. x.type) (h m)) ∙ p)

Finishes-from :
    {A : Type 0} {s t : ℕ → Symbol} (o : Outcome A) → Same s t → Finishes t o → Finishes s o
Finishes-from _ h (returns a st k) = returns a st (Same-trans h k)
Finishes-from _ h (stops n) = stops n

and_then-Finishes :
    (s : ℕ → Symbol) (o : Outcome (Option Thuge)) (f : Thuge → Eval (Option Thuge))
    → Finishes s o
    → ((h : Thuge) (st : State) → Same s st.symbols → Finishes s (f h st))
    → Finishes s (bind o (or_none f))
and_then-Finishes s _ f (returns none st h) k = returns none st h
and_then-Finishes s _ f (returns (some a) st h) k = k a st h
and_then-Finishes s _ f (stops n) k = stops n

-- The table with another symbol at one place.
abbrev pub with_symbol : (ℕ → Symbol) → ℕ → Symbol → ℕ → Symbol
with_symbol s n x m = if m == n then x else s m

with_symbol-other :
    (s : ℕ → Symbol) (n : ℕ) (x : Symbol) (m : ℕ) → m ≢ n → with_symbol s n x m ≡ s m
with_symbol-other s n x m h = ground (arith, h)

with_symbol-false :
    (s : ℕ → Symbol) (n : ℕ) (x : Symbol) (m : ℕ) → (m == n) ≡ false → with_symbol s n x m ≡ s m
with_symbol-false s n x m e = rw e refl

with_symbol-here : (s : ℕ → Symbol) (n : ℕ) (x : Symbol) → with_symbol s n x n ≡ x
with_symbol-here s n x = ground arith

module _ (s : ℕ → Symbol) (k : ℕ) where
  abbrev busy : ℕ → Symbol
  busy = with_symbol s k (record (s k) { ineval = true })

  busy-type : (m : ℕ) → (busy m).type ≡ (s m).type
  busy-type m = elim (Bool-cases (m == k)) [
    | inl e ↦ rw e (ap (λ x. (s x).type) (sym ((==_iff m k).0 e)))
    | inr e ↦ rw e refl
  ]

  -- Clearing the flag again gives the symbols back.
  cleared :
      (t : ℕ → Symbol)
      → Same busy t
      → (s k).ineval ≡ false
      → Same s (with_symbol t k (record (t k) { ineval = false }))
  cleared t h clear m = elim (Bool-cases (m == k)) [
    | inl e ↦ rw e (
        ap (λ (x : Symbol). record x { ineval = false })
          (h k ∙ with_symbol-here s k (record (s k) { ineval = true }))
        ∙ ap (λ (b : Bool). record (s k) { ineval = b }) (sym clear)
        ∙ ap s (sym ((==_iff m k).0 e)))
    | inr e ↦ rw e (h m ∙ with_symbol-false s k _ m e)
  ]

abbrev clear_after : ℕ → Option Thuge → Eval (Option Thuge)
clear_after k v = get k >>= λ after. put k (record after { ineval = false }) >> pure v

clear_after-Finishes :
    (s : ℕ → Symbol) (k : ℕ)
    → (s k).ineval ≡ false
    → (o : Outcome (Option Thuge)) → Finishes (busy s k) o
    → Finishes s (bind o (clear_after k))
unfolding put
clear_after-Finishes s k clear _ (returns a st h) = returns a _ (cleared s k st.symbols h clear)
clear_after-Finishes s k clear _ (stops n) = stops n

module _ (c : Context) (n fuel : ℕ) (call : Expr → Eval (Option Thuge))
    (call_ends : (e : Expr) (st : State)
      → Scoped n e
      → IsScoped n st.symbols
      → idle n st.symbols < fuel
      → Finishes st.symbols (call e st)) where
  equate-Finishes :
      (k : ℕ) (e : Expr) (st : State)
      → k < n
      → IsScoped n st.symbols
      → idle n st.symbols ≤ fuel
      → (st.symbols k).type ≡ expression e
      → (st.symbols k).ineval ≡ false
      → Finishes st.symbols (eval_equate call k (st.symbols k) e st)
  unfolding put
  equate-Finishes k e st below scoped room is clear =
      let t = busy st.symbols k in
      let fewer : idle n t < fuel = omega (
        arith,
        idle-set n k st.symbols t below clear (ap (λ x. x.ineval) (with_symbol-here st.symbols k _))
            (with_symbol-other st.symbols k _),
      ) in
      let t_scoped : IsScoped n t = λ m d p. scoped m d (sym (busy-type st.symbols k m) ∙ p) in
      clear_after-Finishes st.symbols k clear _
        (call_ends e (record st { symbols = t }) (scoped k e is) t_scoped fewer)

  symbol-Finishes :
      (k : ℕ) (st : State)
      → k < n
      → IsScoped n st.symbols
      → idle n st.symbols ≤ fuel
      → (x : SymbolType) → (st.symbols k).type ≡ x
      → Finishes st.symbols (huge_symbol c call k (st.symbols k) x st)
  unfolding huge_symbol
  symbol-Finishes k st below scoped room (expression e) is =
      elim (Bool-cases (st.symbols k).ineval) [
        | inl busy_now ↦ rw busy_now (stops 18)
        | inr clear ↦ rw clear (equate-Finishes k e st below scoped room is clear)
      ]
  symbol-Finishes k st below scoped room labsym is = elim (Bool-cases (st.symbols k).abslabel) [
    | inl e ↦ rw e (returns _ st (λ m. refl))
    | inr e ↦ rw e (returns _ st (λ m. refl))
  ]
  symbol-Finishes k st below scoped room import is = returns _ st (λ m. refl)

  computed-Finishes :
      (s : ℕ → Symbol) (r : Run (Computed × List ℕ)) (st : State)
      → Same s st.symbols
      → Finishes s (computed c r st)
  unfolding computed
  computed-Finishes s (fatal m) st h = stops m
  computed-Finishes s (ok (v, l)) st h = elim (Bool-cases c.final_pass) [
    | inl e ↦ rw e (returns _ _ h)
    | inr e ↦ rw e (returns _ _ h)
  ]

  tree-Finishes :
      (e : Expr) (st : State)
      → Scoped n e
      → IsScoped n st.symbols
      → idle n st.symbols ≤ fuel
      → Finishes st.symbols (huge_tree c call e st)
  unfolding huge_tree Scoped
  tree-Finishes (num v) st w scoped room = returns _ st (λ m. refl)
  tree-Finishes (hug h) st w scoped room = returns _ st (λ m. refl)
  tree-Finishes (symbol k) st w scoped room = symbol-Finishes k st w scoped room _ refl
  tree-Finishes (unary op x) st w scoped room =
      and_then-Finishes st.symbols _ _ (tree-Finishes x st w scoped room) (λ h u k. returns _ u k)
  tree-Finishes (binary op x y) st (v, w) scoped room =
      and_then-Finishes st.symbols _ _ (tree-Finishes x st v scoped room) (λ a t p.
        and_then-Finishes st.symbols _ _
          (Finishes-from _ p (
            tree-Finishes y t w (IsScoped-Same n st.symbols t.symbols p scoped)
              (omega (arith, idle-Same n st.symbols t.symbols p))))
          (λ b u q. computed-Finishes st.symbols (huge_binary c.build op a b) u q))

-- The function never runs out of fuel that is above the number of symbols not in evaluation, when
-- the expression and the trees of all equates have only symbols below `n`: it returns, with the
-- symbols as they were, or stops with a fatal message.
pub eval_expr_huge-Finishes :
    (c : Context) (n fuel : ℕ) (e : Expr) (st : State)
    → Scoped n e
    → IsScoped n st.symbols
    → idle n st.symbols < fuel
    → Finishes st.symbols (eval_expr_huge c fuel e st)
unfolding eval_expr_huge
eval_expr_huge-Finishes c n zero e st w scoped room = grind arith
eval_expr_huge-Finishes c n (suc fuel) e st w scoped room =
    tree-Finishes c n fuel (eval_expr_huge c fuel) (eval_expr_huge-Finishes c n fuel) e st w scoped
      (omega arith)
