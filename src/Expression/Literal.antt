-- ===== src/Expression/Literal.antt =====
-- `primary_expr`: constants that are numbers, for builds without floats. The string is the list of
-- its octets; the syntax module has found the base, 2 to 10 or 16, and where the digits begin. The
-- type `utaddr` of the processor module has `w` bits, which are 16, 32 or 64.
pub mod Value
use vasm_ext.Common.{
  ℕ, zero, suc, ◌+◌, ◌-◌, ◌*◌, ◌/◌, ◌%◌, ◌^◌, Bool, true, false, not, ◌&&◌, Option, none, some,
  List, [], ◌∷◌, ltb, leb, ◌==◌, if◌then◌else◌,
}
use vasm_ext.HugeInt.{Thuge, huge_zero, haddi, hmuli}

-- The value of a digit.
unfoldable pub digit_of : ℕ → ℕ → Option ℕ
digit_of base c =
    if leb base 10
    then (if leb 48 c && ltb c (base + 48) then some (c - 48) else none)
    else if leb 48 c && leb c 57
    then some (c - 48)
    else if leb 97 c && leb c 102
    then some (c - 97 + 10)
    else if leb 65 c && leb c 70
    then some (c - 65 + 10)
    else none

-- A digit more for a `utaddr`, unless its overflow is noticed.
unfoldable pub next_value : ℕ → ℕ → ℕ → ℕ → Option ℕ
next_value w base val d =
    if leb base 10
    then (let nval = base * val % 2 ^ w in
        if nval / base == val then some ((nval + d) % 2 ^ w) else none)
    else (let nval = (val * 2 ^ 4 % 2 ^ w + d) % 2 ^ w in
        if nval / 2 ^ 4 == val then some nval else none)

-- The value and the rest, or none for `goto hugeval`.
unfoldable pub read_value : ℕ → ℕ → List ℕ → ℕ → Option (ℕ × List ℕ)
read_value w base [] val = some (val, [])
read_value w base (c ∷ s) val = elim (digit_of base c) [
  | none ↦ some (val, c ∷ s)
  | some d ↦ elim (next_value w base val d) [ none ↦ none | some v ↦ read_value w base s v ]
]

unfoldable pub read_huge : ℕ → List ℕ → Thuge → Thuge × List ℕ
read_huge base [] huge = (huge, [])
read_huge base (c ∷ s) huge = elim (digit_of base c) [
  | none ↦ (huge, c ∷ s)
  | some d ↦ read_huge base s (haddi (hmuli huge base) d)
]

-- The constant and the rest; without a digit message 75 is given, and the constant is -1.
pub data Literal : Type 0 where
  small : ℕ → List ℕ → Literal
  big : Thuge → List ℕ → Literal
  no_digits : Literal

abbrev pub small_or_huge : ℕ → List ℕ → Option (ℕ × List ℕ) → Literal
small_or_huge base m none = let (h, s) = read_huge base m huge_zero in big h s
small_or_huge base m (some (val, s)) = small val s

abbrev pub is_digit : Option ℕ → Bool
is_digit none = false
is_digit (some d) = true

abbrev pub starts_with_digit : ℕ → List ℕ → Bool
starts_with_digit base [] = false
starts_with_digit base (c ∷ s) = is_digit (digit_of base c)

-- For the expression type NUM.
unfoldable pub read_literal : ℕ → ℕ → List ℕ → Literal
read_literal w base m =
    if starts_with_digit base m then small_or_huge base m (read_value w base m 0) else no_digits
