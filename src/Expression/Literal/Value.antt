-- ===== src/Expression/Literal/Value.antt =====
-- The value of a constant that is read.
use vasm_ext.Common.Power.{two_pow_pos, mod_unique}
use vasm_ext.HugeInt.Product.{hmuli-exact, hmuli-IsHuge}
use vasm_ext.HugeInt.Sum.{haddi-value, haddi-IsHuge}
use vasm_ext.HugeInt.Value.{value, IsHuge}
use vasm_ext.Common.{
  ℕ, ◌+◌, ◌-◌, ◌*◌, ◌/◌, ◌%◌, ◌^◌, ◌<◌, ◌≤◌, ◌≡◌, ◌⊎◌, inl, inr, refl, sym, ap, ◌∙◌, arith, Bool,
  true, false, none, some, List, [], ◌∷◌, ◌++◌, ltb, ◌==◌, if◌then◌else◌, Bool-cases, ltb→lt,
}
use vasm_ext.HugeInt.{Thuge, huge_zero, haddi, hmuli, huge_from_int}
use vasm_ext.Expression.Literal.{
  digit_of, next_value, read_value, read_huge, small, big, no_digits, small_or_huge, is_digit,
  starts_with_digit, read_literal,
}

-- The bases with which no overflow is missed.
abbrev pub IsPowerBase : ℕ → Type 0
IsPowerBase base = (base ≡ 2) ⊎ (base ≡ 8) ⊎ (base ≡ 16)

-- The widths of `utaddr`.
abbrev pub IsWidth : ℕ → Type 0
IsWidth w = (w ≡ 16) ⊎ (w ≡ 32) ⊎ (w ≡ 64)

-- A string of digits, with their values.
abbrev pub AreDigits : ℕ → List ℕ → List ℕ → Type 0
AreDigits base [] [] = Unit
AreDigits base [] (d ∷ ds) = ⊥
AreDigits base (c ∷ cs) [] = ⊥
AreDigits base (c ∷ cs) (d ∷ ds) = (digit_of base c ≡ some d) × (d < base) × AreDigits base cs ds

-- The number that the digits are, behind those that `acc` has.
unfoldable pub number : ℕ → ℕ → List ℕ → ℕ
number base acc [] = acc
number base acc (d ∷ ds) = number base (acc * base + d) ds

number_le : (base acc : ℕ) (ds : List ℕ) → 0 < base → acc ≤ number base acc ds
unfolding number
number_le base acc [] pos = omega arith
number_le base acc (d ∷ ds) pos = grind (arith, number_le base (acc * base + d) ds pos)

-- No digit follows.
abbrev pub EndsHere : ℕ → List ℕ → Type 0
EndsHere base [] = Unit
EndsHere base (c ∷ s) = digit_of base c ≡ none

next_exact :
    (w base val d : ℕ)
    → IsWidth w
    → IsPowerBase base
    → val < 2 ^ w
    → d < base
    → next_value w base val d
      ≡ (if ltb (val * base + d) (2 ^ w) then some (val * base + d) else none)
unfolding next_value
next_exact w base val d wide b h k = ground (arith, wide, b)

pos_base : (base : ℕ) → IsPowerBase base → 0 < base
pos_base base b = ground arith

-- The digits end.
stop_value :
    (w base c : ℕ) (s : List ℕ) (val : ℕ)
    → digit_of base c ≡ none
    → read_value w base (c ∷ s) val ≡ some (val, c ∷ s)
unfolding read_value
stop_value w base c s val e = rw (e, read_value) refl

step_value :
    (w base c d v : ℕ) (s : List ℕ) (val : ℕ)
    → digit_of base c ≡ some d
    → next_value w base val d ≡ some v
    → read_value w base (c ∷ s) val ≡ read_value w base s v
unfolding read_value
step_value w base c d v s val e f = rw (e, read_value) (rw (f, read_value) refl)

over_value :
    (w base c d : ℕ) (s : List ℕ) (val : ℕ)
    → digit_of base c ≡ some d
    → next_value w base val d ≡ none
    → read_value w base (c ∷ s) val ≡ none
unfolding read_value
over_value w base c d s val e f = rw (e, read_value) (rw (f, read_value) refl)

stop_huge :
    (base c : ℕ) (s : List ℕ) (huge : Thuge)
    → digit_of base c ≡ none
    → read_huge base (c ∷ s) huge ≡ (huge, c ∷ s)
unfolding read_huge
stop_huge base c s huge e = rw (e, read_huge) refl

step_huge :
    (base c d : ℕ) (s : List ℕ) (huge : Thuge)
    → digit_of base c ≡ some d
    → read_huge base (c ∷ s) huge ≡ read_huge base s (haddi (hmuli huge base) d)
unfolding read_huge
step_huge base c d s huge e = rw (e, read_huge) refl

-- The value below 2 ^ w, or the switch to 128 bits.
read_value-number :
    (w base : ℕ) (cs ds rest : List ℕ) (val : ℕ)
    → IsWidth w
    → IsPowerBase base
    → AreDigits base cs ds
    → EndsHere base rest
    → val < 2 ^ w
    → read_value w base (cs ++ rest) val
      ≡ (if ltb (number base val ds) (2 ^ w) then some (number base val ds, rest) else none)
unfolding read_value number
read_value-number w base [] [] [] val wide b a e h =
    let lt : ltb val (2 ^ w) ≡ true = ground arith in rw lt refl
read_value-number w base [] [] (c ∷ s) val wide b a e h =
    let lt : ltb val (2 ^ w) ≡ true = ground arith in
    stop_value w base c s val e ∙ sym (ap (λ t. if t then some (val, c ∷ s) else none) lt)
read_value-number w base [] (d ∷ ds) rest val wide b a e h = absurd a
read_value-number w base (c ∷ cs) [] rest val wide b a e h = absurd a
read_value-number w base (c ∷ cs) (d ∷ ds) rest val wide b (x, lt, a) e h =
    elim (Bool-cases (ltb (val * base + d) (2 ^ w))) [
      | inl q ↦
          let next =
            next_exact w base val d wide b h lt
            ∙ ap (λ t. if t then some (val * base + d) else none) q in
          step_value w base c d (val * base + d) (cs ++ rest) val x next
          ∙ read_value-number w base cs ds rest (val * base + d) wide b a e (ltb→lt _ _ q)
      | inr q ↦
          let next =
            next_exact w base val d wide b h lt
            ∙ ap (λ t. if t then some (val * base + d) else none) q in
          let over : ltb (number base (val * base + d) ds) (2 ^ w) ≡ false =
            ground (arith, number_le base (val * base + d) ds (pos_base base b)) in
          over_value w base c d (cs ++ rest) val x next
          ∙ sym (ap (λ t. if t then some (number base (val * base + d) ds, rest) else none) over)
    ]

small_value : (d : ℕ) → d < 2 ^ 63 → value (huge_from_int d) ≡ d
unfolding huge_from_int
small_value d h = ground arith

mod_product :
    (acc base : ℕ) → IsPowerBase base → acc % 2 ^ 128 * base % 2 ^ 128 ≡ acc * base % 2 ^ 128
mod_product acc base (inl e) = rw e (omega arith)
mod_product acc base (inr (inl e)) = rw e (omega arith)
mod_product acc base (inr (inr e)) = rw e (omega arith)

next_huge :
    (base d : ℕ) (huge : Thuge) (acc : ℕ)
    → IsPowerBase base
    → d < base
    → IsHuge huge
    → value huge ≡ acc % 2 ^ 128
    → value (haddi (hmuli huge base) d) ≡ (acc * base + d) % 2 ^ 128
next_huge base d huge acc b lt v h =
    let product = hmuli-exact huge base v b in
    let small : d < 16 = ground arith in
    let sum = haddi-value (hmuli huge base) d (hmuli-IsHuge huge base) (omega arith) in
    let digit : value (huge_from_int d) ≡ d = small_value d (omega arith) in
    let scaled : value huge * base % 2 ^ 128 ≡ acc * base % 2 ^ 128 =
      rw h (mod_product acc base b) in
    omega (arith, product, sum, digit, scaled)

-- The value modulo 2 ^ 128.
read_huge-number :
    (base : ℕ) (cs ds rest : List ℕ) (huge : Thuge) (acc : ℕ)
    → IsPowerBase base
    → AreDigits base cs ds
    → EndsHere base rest
    → IsHuge huge
    → value huge ≡ acc % 2 ^ 128
    → ((read_huge base (cs ++ rest) huge).1 ≡ rest)
      × (value (read_huge base (cs ++ rest) huge).0 ≡ number base acc ds % 2 ^ 128)
unfolding read_huge number
read_huge-number base [] [] [] huge acc b a e v h = (refl, h)
read_huge-number base [] [] (c ∷ s) huge acc b a e v h =
    let stop = stop_huge base c s huge e in (ap (λ r. r.1) stop, ap (λ r. value r.0) stop ∙ h)
read_huge-number base [] (d ∷ ds) rest huge acc b a e v h = absurd a
read_huge-number base (c ∷ cs) [] rest huge acc b a e v h = absurd a
read_huge-number base (c ∷ cs) (d ∷ ds) rest huge acc b (x, lt, a) e v h =
    let step = step_huge base c d (cs ++ rest) huge x in
    let later =
      read_huge-number base cs ds rest (haddi (hmuli huge base) d) (acc * base + d) b a e
        (haddi-IsHuge (hmuli huge base) d (hmuli-IsHuge huge base))
        (next_huge base d huge acc b lt v h) in
    (ap (λ r. r.1) step ∙ later.0, ap (λ r. value r.0) step ∙ later.1)

zero_IsHuge : IsHuge huge_zero
unfolding huge_zero
zero_IsHuge = record { hi_fits = omega arith; lo_fits = omega arith }

zero_value : value huge_zero ≡ 0
unfolding huge_zero
zero_value = refl

-- A constant of base 2, 8 or 16 is the number of its digits: of the type NUM where it fits the 16,
-- 32 or 64 bits of `utaddr`, and else modulo 2 ^ 128 of the type HUG; what follows the digits is
-- left.
pub read_literal-number :
    (w base : ℕ) (c : ℕ) (cs : List ℕ) (d : ℕ) (ds rest : List ℕ)
    → IsWidth w
    → IsPowerBase base
    → AreDigits base (c ∷ cs) (d ∷ ds)
    → EndsHere base rest
    → (if ltb (number base 0 (d ∷ ds)) (2 ^ w)
        then read_literal w base (c ∷ cs ++ rest) ≡ small (number base 0 (d ∷ ds)) rest
        else ((h : Thuge) × (read_literal w base (c ∷ cs ++ rest) ≡ big h rest)
            × (value h ≡ number base 0 (d ∷ ds) % 2 ^ 128)))
unfolding read_literal
read_literal-number w base c cs d ds rest wide b a e =
    let n = number base 0 (d ∷ ds) in
    let text = c ∷ cs ++ rest in
    let value_case = read_value-number w base (c ∷ cs) (d ∷ ds) rest 0 wide b a e (two_pow_pos w) in
    let huge_case =
      read_huge-number base (c ∷ cs) (d ∷ ds) rest huge_zero 0 b a e zero_IsHuge zero_value in
    let start : starts_with_digit base text ≡ true = ap is_digit a.0 in
    let read = λ (t : Bool). small_or_huge base text (if t then some (n, rest) else none) in
    let literal : read_literal w base text ≡ read (ltb n (2 ^ w)) =
      ap (λ t. if t then small_or_huge base text (read_value w base text 0) else no_digits) start
      ∙ ap (small_or_huge base text) value_case in
    elim (Bool-cases (ltb n (2 ^ w))) [
      | inl q ↦ rw q (literal ∙ ap read q)
      | inr q ↦
          let huge = (read_huge base text huge_zero).0 in
          rw q (huge, literal ∙ ap read q ∙ ap (big huge) huge_case.0, huge_case.1)
    ]

-- A decimal constant from 2 ^ w on whose digits but the last, times 10, are below 2 ^ w: the
-- overflow of the last digit is missed, and 2 ^ w is lost.
pub next_value_missed :
    (w val d : ℕ)
    → val * 10 < 2 ^ w
    → d < 10
    → 2 ^ w ≤ val * 10 + d
    → 10 ≤ 2 ^ w
    → next_value w 10 val d ≡ some (val * 10 + d - 2 ^ w)
unfolding next_value
next_value_missed w val d h k over wide =
    let whole : 10 * val % 2 ^ w ≡ val * 10 =
      mod_unique (10 * val) (2 ^ w) 0 (val * 10) (omega arith) h in
    let same : (val * 10 / 10 == val) ≡ true = ground arith in
    let wraps : (val * 10 + d) % 2 ^ w ≡ val * 10 + d - 2 ^ w =
      mod_unique (val * 10 + d) (2 ^ w) 1 (val * 10 + d - 2 ^ w) (omega arith) (omega arith) in
    rw (whole, same, wraps) refl
