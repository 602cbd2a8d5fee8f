-- ===== src/HugeInt/Divide.antt =====
-- Division of hugeint.c: Knuth's algorithm D on digits of 32 bits.
pub mod Short
mod Tests
use vasm_ext.Common.Run.{Run, ok, fatal, ◌>>=◌}
use vasm_ext.Common.Word.{add64, sub64, mul64}
use vasm_ext.Common.{
  ℕ, zero, suc, ◌+◌, ◌-◌, ◌*◌, ◌/◌, ◌%◌, ◌^◌, bit_or, Bool, true, false, not, ◌&&◌, ◌||◌, List, [],
  ◌∷◌, ◌++◌, length, replicate, drop, take, get_or, set, ltb, leb, ◌==◌, if◌then◌else◌,
}
use vasm_ext.HugeInt.{Thuge, huge_zero, hugesign, hneg, hihalf, lohalf, base}

-- `COMBINE`
abbrev pub combine : ℕ → ℕ → ℕ
combine a b = bit_or (a * 2 ^ 32 % 2 ^ 64) b

-- The digits of a number, the highest first, and those from the first that is not 0.
abbrev pub digits : Thuge → List ℕ
digits a = hihalf a.hi ∷ lohalf a.hi ∷ hihalf a.lo ∷ lohalf a.lo ∷ []

unfoldable pub significant : List ℕ → List ℕ
significant [] = []
significant (d ∷ ds) = let later = significant ds in if d == 0 then later else d ∷ ds

-- The branch for a divisor of one digit: quotient and remainder.
unfoldable pub divmod_digit : Thuge → ℕ → Thuge × Thuge
divmod_digit a t =
    let u₁ = hihalf a.hi in
    let r₁ = combine (u₁ % t) (lohalf a.hi) in
    let r₂ = combine (r₁ % t) (hihalf a.lo) in
    let r₃ = combine (r₂ % t) (lohalf a.lo) in
    (
      record {
        hi = combine (u₁ / t % base) (r₁ / t % base);
        lo = combine (r₂ / t % base) (r₃ / t % base);
      },
      record { hi = 0; lo = r₃ % t },
    )

-- A shift of the digits to the left by 1 to 31 bits.
unfoldable pub shift_digits : ℕ → List ℕ → List ℕ
shift_digits sh [] = []
shift_digits sh (x ∷ []) = x * 2 ^ sh % base ∷ []
shift_digits sh (x ∷ y ∷ r) =
    bit_or (x * 2 ^ sh % base) (y / 2 ^ (32 - sh)) ∷ shift_digits sh (y ∷ r)

-- How often `t` is doubled until its digit's top bit is set: at most 31 times.
unfoldable pub leading_zeros : ℕ → ℕ → ℕ
leading_zeros zero t = 0
leading_zeros (suc n) t =
    let later = leading_zeros n (t * 2) in if ltb t (base / 2) then suc later else 0

-- The loop that corrects the guess of a quotient's digit; `v1` has its top bit set, so that `rhat`
-- reaches the base in two rounds.
unfoldable pub correct : ℕ → ℕ → ℕ → ℕ → ℕ → ℕ → ℕ
correct zero v1 v2 uj2 qhat rhat = qhat
correct (suc n) v1 v2 uj2 qhat rhat =
    let later = correct n v1 v2 uj2 (qhat - 1) (rhat + v1) in
    if ltb (combine rhat uj2) (mul64 v2 qhat)
    then (if leb base (rhat + v1) then qhat - 1 else later)
    else qhat

-- When the first digits are equal, the loop is entered in its middle.
unfoldable pub guess : ℕ → ℕ → ℕ → ℕ → ℕ → ℕ
guess v1 v2 uj0 uj1 uj2 =
    if uj0 == v1
    then (if leb base (uj1 + v1) then base - 1 else correct 2 v1 v2 uj2 (base - 1) (uj1 + v1))
    else correct 2 v1 v2 uj2 (combine uj0 uj1 / v1) (combine uj0 uj1 % v1)

-- The digits `u[i+j]` less `v[i] * qhat` for the `i` from `n` down to 1, and the borrow. `v` starts
-- with `v[1]`.
unfoldable pub subtract : ℕ → ℕ → List ℕ → ℕ → ℕ → List ℕ → List ℕ × ℕ
subtract zero j v qhat t u = (u, t)
subtract (suc i) j v qhat t u =
    let t₁ = sub64 (sub64 (get_or u (suc i + j) 0) (mul64 (get_or v i 0) qhat)) t in
    subtract i j v qhat ((base - hihalf t₁) % base) (set u (suc i + j) (lohalf t₁))

-- The digits `u[i+j]` and `v[i]` added, as sums of 32 bits: what they carry is lost.
unfoldable pub add_back : ℕ → ℕ → List ℕ → ℕ → List ℕ → List ℕ × ℕ
add_back zero j v t u = (u, t)
add_back (suc i) j v t u =
    let t₁ = t + (get_or u (suc i + j) 0 + get_or v i 0) % base in
    add_back i j v (hihalf t₁) (set u (suc i + j) (lohalf t₁))

-- One round of the main loop: the digit of the quotient and the digits that are left.
unfoldable pub divmod_step : ℕ → List ℕ → ℕ → List ℕ → ℕ × List ℕ
divmod_step n v j u =
    let qhat =
      guess (get_or v 0 0) (get_or v 1 0) (get_or u j 0) (get_or u (j + 1) 0)
        (get_or u (j + 2) 0) in
    let (u₁, t) = subtract n j v qhat 0 u in
    let t₁ = sub64 (get_or u₁ j 0) t in
    let u₂ = set u₁ j (lohalf t₁) in
    let (u₃, c) = add_back n j v 0 u₂ in
    if not (hihalf t₁ == 0)
    then ((qhat - 1) % base, set u₃ j (lohalf (get_or u₃ j 0 + c)))
    else (qhat % base, u₂)

unfoldable pub divmod_loop : ℕ → ℕ → List ℕ → ℕ → List ℕ → List ℕ × List ℕ
divmod_loop zero n v j u = ([], u)
divmod_loop (suc rounds) n v j u =
    let (q, u₁) = divmod_step n v j u in
    let (qs, u₂) = divmod_loop rounds n v (suc j) u₁ in (q ∷ qs, u₂)

-- The digits shifted back to the right; the digit before the first is 0.
unfoldable pub shift_back : ℕ → ℕ → List ℕ → List ℕ
shift_back d before [] = []
shift_back d before (x ∷ r) = bit_or (x / 2 ^ d) (lohalf (before * 2 ^ (32 - d))) ∷ shift_back d x r

abbrev pub from_digits : List ℕ → Thuge
from_digits l = record {
  hi = combine (get_or l 0 0) (get_or l 1 0);
  lo = combine (get_or l 2 0) (get_or l 3 0);
}

-- The digits in the last places of a space for `n` digits, whose first places are 0.
abbrev pub padded : ℕ → List ℕ → List ℕ
padded n l = replicate (n - length l) 0 ++ l

-- The main branch, for a divisor of two digits or more, which are `v`, and the digits `us` of the
-- dividend.
unfoldable pub divmod_digits : List ℕ → List ℕ → Thuge × Thuge
divmod_digits us v =
    let n = length v in
    let m = length us - n in
    let d = leading_zeros 31 (get_or v 0 0) in
    let v₁ = if d == 0 then v else shift_digits d v in
    let u₁ = if d == 0 then 0 ∷ us else shift_digits d (0 ∷ us) in
    let (qs, u₂) = divmod_loop (m + 1) n v₁ 0 u₁ in
    let shifted = take m u₂ ++ 0 ∷ shift_back d (get_or u₂ m 0) (drop (m + 1) u₂) in
    let r = if d == 0 then u₂ else shifted in
    (from_digits (padded 4 qs), from_digits (drop 1 (padded 5 r)))

-- Quotient and remainder of unsigned numbers. Division by zero is an internal error.
unfoldable pub divmod : Thuge → Thuge → Run (Thuge × Thuge)
divmod a b =
    let v = significant (digits b) in
    if (b.hi == 0) && (b.lo == 0)
    then fatal 0
    else if ltb a.hi b.hi || ((a.hi == b.hi) && ltb a.lo b.lo)
    then ok (huge_zero, a)
    else if length v == 1
    then ok (divmod_digit a (get_or v 0 0))
    else ok (divmod_digits (significant (digits a)) v)

abbrev pub magnitude : Thuge → Thuge
magnitude a = if hugesign a then hneg a else a

abbrev pub differ : Bool → Bool → Bool
differ true b = not b
differ false b = b

unfoldable pub hdiv : Thuge → Thuge → Run Thuge
hdiv a b = divmod (magnitude a) (magnitude b) >>= λ r.
    ok (if differ (hugesign a) (hugesign b) then hneg r.0 else r.0)

unfoldable pub hmod : Thuge → Thuge → Run Thuge
hmod a b = divmod (magnitude a) (magnitude b) >>= λ r.
    ok (if differ (hugesign a) (hugesign b) then hneg r.1 else r.1)
