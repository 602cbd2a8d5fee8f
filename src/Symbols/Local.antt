-- ===== src/Symbols/Local.antt =====
-- The names of local labels.
use vasm_ext.Common.{
  ℕ, ◌≡◌, ◌≢◌, refl, arith, true, false, some, List, [], ◌∷◌, ◌++◌, ◌==◌, if◌then◌else◌,
}
use vasm_ext.Symbols.{
  Table, from_space, is_empty, is_local_symbol_name, real_symbol_name, make_local_label,
}

-- No octet is a space.
abbrev pub HasNoSpace : List ℕ → Type 0
HasNoSpace [] = Unit
HasNoSpace (c ∷ cs) = (c ≢ 32) × HasNoSpace cs

from_space-append : (g l : List ℕ) → HasNoSpace g → from_space (g ++ 32 ∷ l) ≡ some (32 ∷ l)
unfolding from_space
from_space-append [] l h = refl
from_space-append (c ∷ g) l (h, k) =
    let e : (c == 32) ≡ false = ground (arith, h) in rw e (from_space-append g l k)

-- The global label's name, or that of the last one.
abbrev pub scope : Table → List ℕ → List ℕ
scope s glob = if is_empty glob then s.last_global_label else glob

-- The name of a local label has a local scope, and is the label's own behind it, when the name of
-- the global label has no space; an empty one stands for the last global label.
pub real_symbol_name-make_local_label :
    (s : Table) (glob loc : List ℕ)
    → HasNoSpace (scope s glob)
    → (is_local_symbol_name (make_local_label s glob loc) ≡ true)
      × (real_symbol_name (make_local_label s glob loc) ≡ loc)
unfolding is_local_symbol_name real_symbol_name make_local_label
real_symbol_name-make_local_label s glob loc h =
    rw (from_space-append (scope s glob) loc h) (refl, refl)
