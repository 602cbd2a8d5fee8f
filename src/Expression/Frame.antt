-- ===== src/Expression/Frame.antt =====
-- Evaluation leaves the addresses of labels as they are, but for the symbol of the current pc.
use vasm_ext.Common.{
  ℕ, ◌≡◌, refl, ◌∙◌, arith, Bool, true, false, List, Option, some, ◌==◌, if◌then◌else◌, Bool-cases,
  ==_iff, inl, inr,
}
use vasm_ext.Expression.State.{
  Symbol, State, Outcome, done, stop, null_access, out_of_fuel, Eval, bind, ◌>>=◌, ◌>>◌, pure,
  errors, get, put, same,
}

-- The same pc at each symbol but that of the current pc.
abbrev pub SamePc : Option ℕ → State → State → Type 0
SamePc cpc s t = (m : ℕ) → same (some m) cpc ≡ false → (t.symbols m).pc ≡ (s.symbols m).pc

-- What a run that returns leaves alone.
pub data Keeps {A : Type 0} (cpc : Option ℕ) (s : State) : Outcome A → Type 0 where
  returns : (a : A) (t : State) → SamePc cpc s t → Keeps cpc s (done a t)
  stops : (n : ℕ) → Keeps cpc s (stop n)
  faults : Keeps cpc s null_access
  runs_out : Keeps cpc s out_of_fuel

pub record Frame {A : Type 0} (cpc : Option ℕ) (m : Eval A) : Type 0 where
  pub keeps : (s : State) → Keeps cpc s (m s)

pub Keeps-from :
    {A : Type 0} (cpc : Option ℕ) (r s : State) {o : Outcome A}
    → SamePc cpc r s
    → Keeps cpc s o
    → Keeps cpc r o
Keeps-from cpc r s h (returns a t k) = returns a t (λ m e. k m e ∙ h m e)
Keeps-from cpc r s h (stops n) = stops n
Keeps-from cpc r s h faults = faults
Keeps-from cpc r s h runs_out = runs_out

pub Keeps-bind :
    {A B : Type 0} (cpc : Option ℕ) (s : State) {o : Outcome A} (f : A → Eval B)
    → Keeps cpc s o
    → ((a : A) → Frame cpc (f a))
    → Keeps cpc s (bind o f)
Keeps-bind cpc s f (returns a t e) k = Keeps-from cpc s t e ((k a).keeps t)
Keeps-bind cpc s f (stops n) k = stops n
Keeps-bind cpc s f faults k = faults
Keeps-bind cpc s f runs_out k = runs_out

pub Frame-bind :
    {A B : Type 0} (cpc : Option ℕ) (m : Eval A) (f : A → Eval B)
    → Frame cpc m
    → ((a : A) → Frame cpc (f a))
    → Frame cpc (m >>= f)
Frame-bind cpc m f h k = record { keeps = λ s. Keeps-bind cpc s f (h.keeps s) k }

pub Frame-if :
    {A : Type 0} (cpc : Option ℕ) (b : Bool) (m n : Eval A)
    → Frame cpc m
    → Frame cpc n
    → Frame cpc (if b then m else n)
Frame-if cpc true m n h k = h
Frame-if cpc false m n h k = k

pub Frame-done : {A : Type 0} (cpc : Option ℕ) (a : A) → Frame cpc (pure a)
Frame-done cpc a = record { keeps = λ s. returns a s (λ m e. refl) }

pub Frame-get : (cpc : Option ℕ) (n : ℕ) → Frame cpc (get n)
Frame-get cpc n = record { keeps = λ s. returns (s.symbols n) s (λ m e. refl) }

pub Frame-errors : (cpc : Option ℕ) (l : List ℕ) → Frame cpc (errors l)
Frame-errors cpc l = record { keeps = λ s. returns tt _ (λ m e. refl) }

-- A symbol with the pc that it has, or that of the current pc.
pub put_kept :
    (cpc : Option ℕ) (n : ℕ) (x : Symbol) (s : State)
    → x.pc ≡ (s.symbols n).pc
    → Keeps cpc s (put n x s)
unfolding put
put_kept cpc n x s h = returns tt _ (λ m e. kept m)
  where
    kept : (m : ℕ) → (if m == n then x else s.symbols m).pc ≡ (s.symbols m).pc
    kept m = elim (Bool-cases (m == n)) [ inl e ↦ rw (e, (==_iff m n).0 e) h | inr e ↦ rw e refl ]

pub put_curpc :
    (cpc : Option ℕ) (n : ℕ) (x : Symbol) (s : State)
    → same (some n) cpc ≡ true
    → Keeps cpc s (put n x s)
unfolding put
put_curpc cpc n x s h = returns tt _ kept
  where
    kept :
        (m : ℕ)
        → same (some m) cpc ≡ false
        → (if m == n then x else s.symbols m).pc ≡ (s.symbols m).pc
    kept m e = elim (Bool-cases (m == n)) [
      | inl p ↦ absurd (ground (arith, (==_iff m n).0 p))
      | inr p ↦ rw p refl
    ]

pub Frame-put_from :
    {B : Type 0} (cpc : Option ℕ) (n : ℕ) (change : Symbol → Symbol) (m : Eval B)
    → ((x : Symbol) → (change x).pc ≡ x.pc)
    → Frame cpc m
    → Frame cpc (get n >>= λ x. put n (change x) >> m)
Frame-put_from cpc n change m h k = record {
  keeps = λ s.
      Keeps-bind cpc s (λ _. m) (put_kept cpc n (change (s.symbols n)) s (h (s.symbols n)))
        (λ _. k);
}
