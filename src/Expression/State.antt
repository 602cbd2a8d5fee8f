-- ===== src/Expression/State.antt =====
-- What the evaluation of expressions reads and changes: symbols, sections, messages and the
-- dependencies between sections.
use vasm_ext.Common.{
  ℕ, Bool, true, false, not, ◌&&◌, ◌||◌, List, ◌++◌, Option, none, some, ◌==◌, if◌then◌else◌,
}
use vasm_ext.Expression.{Build, Expr}

-- The type of a symbol; an EXPRESSION has a tree.
pub data SymbolType : Type 0 where
  labsym : SymbolType
  import : SymbolType
  expression : Expr → SymbolType

pub record Symbol : Type 0 where
  pub type : SymbolType
  pub weak : Bool
  pub abslabel : Bool
  pub ineval : Bool
  pub export : Bool
  pub referenced : Bool
  pub sec : Option ℕ
  pub pc : ℕ

pub record Section : Type 0 where
  pub org : ℕ
  pub unallocated : Bool
  pub absolute : Bool

-- `dep d s` is bit `s` of the bit vector `deps` of section `d`.
pub record State : Type 0 where
  pub symbols : ℕ → Symbol
  pub dep : ℕ → ℕ → Bool
  pub errors : List ℕ

-- What an evaluation does not change: the build, the pass, the sections, the number of the symbol
-- `cpc`, and the section and the pc for which it is done.
pub record Context : Type 0 where
  pub build : Build
  pub final_pass : Bool
  pub num_secs : ℕ
  pub sections : ℕ → Section
  pub cpc : Option ℕ
  pub sec : Option ℕ
  pub pc : ℕ

-- `stop` is a fatal message, `null_access` a read through a null pointer.
pub data Outcome {ℓ} (A : Type ℓ) : Type ℓ where
  done : A → State → Outcome A
  stop : ℕ → Outcome A
  null_access : Outcome A
  out_of_fuel : Outcome A

abbrev pub Eval : Type 0 → Type 0
Eval A = State → Outcome A

abbrev pub bind : {A B : Type 0} → Outcome A → (A → Eval B) → Outcome B
bind (done a st) f = f a st
bind (stop n) f = stop n
bind null_access f = null_access
bind out_of_fuel f = out_of_fuel

infixl 5 ◌>>=◌ ◌>>◌
abbrev pub ◌>>=◌ : {A B : Type 0} → Eval A → (A → Eval B) → Eval B
◌>>=◌ m f st = bind (m st) f

abbrev pub ◌>>◌ : {B : Type 0} → Eval (Unit {0}) → Eval B → Eval B
m >> k = m >>= λ _. k

abbrev pub pure : {A : Type 0} → A → Eval A
pure a st = done a st

abbrev pub skip : Eval (Unit {0})
skip = pure tt

-- A message that is not fatal.
abbrev pub errors : List ℕ → Eval (Unit {0})
errors l st = done tt (record st { errors = st.errors ++ l })

abbrev pub get : ℕ → Eval Symbol
get n st = done (st.symbols n) st

unfoldable pub put : ℕ → Symbol → Eval (Unit {0})
put n s st = done tt (record st { symbols = λ m. if m == n then s else st.symbols m })

abbrev pub same : Option ℕ → Option ℕ → Bool
same none none = true
same (some a) (some b) = a == b
same none (some b) = false
same (some a) none = false

abbrev pub is_some : Option ℕ → Bool
is_some none = false
is_some (some n) = true

abbrev pub is_labsym : SymbolType → Bool
is_labsym labsym = true
is_labsym import = false
is_labsym (expression e) = false

abbrev pub is_import : SymbolType → Bool
is_import labsym = false
is_import import = true
is_import (expression e) = false

-- `LOCREF`, `EXTREF`
abbrev pub locref : Symbol → Bool
locref s = is_labsym s.type && not s.weak

abbrev pub extref : Symbol → Bool
extref s = is_import s.type || s.weak

unfoldable pub set_curpc : Context → ℕ → Option ℕ → Eval (Unit {0})
set_curpc c n none = skip
set_curpc c n (some s) = do
  cpc ← get n
  put n (record cpc { sec = some s; pc = c.pc; abslabel = (c.sections s).absolute })

unfoldable pub update_curpc : Context → ℕ → Eval (Unit {0})
update_curpc c n = if same (some n) c.cpc then set_curpc c n c.sec else skip

abbrev pub set_dep : ℕ → ℕ → Eval (Unit {0})
set_dep d s st = done tt (record st { dep = λ e t. ((e == d) && (t == s)) || st.dep e t })

unfoldable pub add_dep : Context → Option ℕ → Option ℕ → Eval (Unit {0})
add_dep c none dest = skip
add_dep c (some s) none = if c.num_secs == 0 then skip else λ st. null_access
add_dep c (some s) (some d) = if (c.num_secs == 0) || (s == d) then skip else set_dep d s
