-- ===== src/Common/Bits.antt =====
-- `&`, `|` and `^` on words, as arithmetic, at every width.
mod Digit
use Prim.Native.Nat.{bit_or-bitwise, bit_xor-bitwise}
use mathlib.Core.Path.{ap, ◌≡◌, refl}
use mathlib.Core.WellFounded
use native.Mathlib.Omega.{arith}
use vasm_ext.Common.Power.{mod-mul}
use native.Mathlib.Nat.{pow-suc, one-le-pow, div-div-eq-div-mul}
use Prim.Native.Nat.{ℕ, zero, suc, ◌+◌, ◌-◌, ◌*◌, ◌/◌, ◌%◌, ◌^◌, ◌≤◌, ◌<◌, bit_and, bit_or, bit_xor}
use vasm_ext.Common.Order.{lt_wf}
use Digit.{bit_and_digit, bit_or_digit, bit_xor_digit}

-- Each law goes from `a / 2` to `a` by the lowest digit.
half_induction : (P : ℕ → Type 0) → P 0 → ((n : ℕ) → P (suc n / 2) → P (suc n)) → (a : ℕ) → P a
half_induction P base step a = WellFounded.induction lt_wf {C = P} a go
  where
    go : (n : ℕ) → ((m : ℕ) → m < n → P m) → P n
    go zero ih = base
    go (suc n) ih = step n (ih (suc n / 2) (omega arith))

pub bit_or-zero : (a : ℕ) → bit_or a 0 ≡ a
bit_or-zero =
    half_induction (λ a. bit_or a 0 ≡ a) refl (λ n h. omega (arith, bit_or_digit (suc n) 0))

pub bit_and-zero : (a : ℕ) → bit_and a 0 ≡ 0
bit_and-zero =
    half_induction (λ a. bit_and a 0 ≡ 0) refl (λ n h. omega (arith, bit_and_digit (suc n) 0))

pub mul-two_pow-suc : (q k : ℕ) → q * 2 ^ suc k ≡ 2 * (q * 2 ^ k)
mul-two_pow-suc q k = omega (arith, ap (λ (t : ℕ). q * t) (pow-suc 2 k))

-- `(q << k) | r` is a sum when `r` fits `k` bits.
pub bit_or_fields : (k q r : ℕ) → r < 2 ^ k → bit_or (q * 2 ^ k) r ≡ q * 2 ^ k + r
bit_or_fields zero q r fits = ground (arith, bit_or-zero q)
bit_or_fields (suc k) q r fits = ground (
  arith,
  bit_or_digit (q * 2 ^ suc k) r,
  mul-two_pow-suc q k,
  pow-suc 2 k,
  bit_or_fields k q (r / 2),
)

pub zero-bit_or : (b : ℕ) → bit_or 0 b ≡ b
zero-bit_or b = simp bit_or-bitwise

pub bit_or_comm : (a b : ℕ) → bit_or a b ≡ bit_or b a
bit_or_comm =
    half_induction (λ a. (b : ℕ) → bit_or a b ≡ bit_or b a)
      (λ b. omega (arith, zero-bit_or b, bit_or-zero b))
      (λ n ih b. omega (arith, bit_or_digit (suc n) b, bit_or_digit b (suc n), ih (b / 2)))

-- Masking with a mask whose low `k` bits are clear drops the low `k` bits.
pub bit_and_shifted : (k a q : ℕ) → bit_and a (q * 2 ^ k) ≡ bit_and (a / 2 ^ k) q * 2 ^ k
bit_and_shifted zero a q = ground arith
bit_and_shifted (suc k) a q = ground (
  arith,
  bit_and_digit a (q * 2 ^ suc k),
  mul-two_pow-suc q k,
  mul-two_pow-suc (bit_and (a / 2 ^ suc k) q) k,
  pow-suc 2 k,
  div-div-eq-div-mul a 2 (2 ^ k),
  bit_and_shifted k (a / 2) q,
)

-- The fields of two numbers.
pub bit_or_split :
    (k q r t u : ℕ)
    → r < 2 ^ k
    → u < 2 ^ k
    → bit_or (q * 2 ^ k + r) (t * 2 ^ k + u) ≡ bit_or q t * 2 ^ k + bit_or r u
bit_or_split zero q r t u h k =
    let e : r ≡ 0 = omega arith in
    let f : u ≡ 0 = omega arith in
    let one : q * 2 ^ 0 + 0 ≡ q = omega arith in
    let two : t * 2 ^ 0 + 0 ≡ t = omega arith in rw (e, f, one, two, bit_or-zero 0) (omega arith)
bit_or_split (suc k) q r t u h j = ground (
  arith,
  bit_or_digit (q * 2 ^ suc k + r) (t * 2 ^ suc k + u),
  bit_or_digit r u,
  mul-two_pow-suc q k,
  mul-two_pow-suc t k,
  mul-two_pow-suc (bit_or q t) k,
  pow-suc 2 k,
  bit_or_split k q (r / 2) t (u / 2),
)

-- A mask of two fields.
pub bit_and_split :
    (k a q r : ℕ)
    → r < 2 ^ k
    → bit_and a (q * 2 ^ k + r) ≡ bit_and (a / 2 ^ k) q * 2 ^ k + bit_and (a % 2 ^ k) r
bit_and_split zero a q r h =
    let e : r ≡ 0 = omega arith in
    let m : a % 2 ^ 0 ≡ 0 = omega arith in
    let d : a / 2 ^ 0 ≡ a = omega arith in
    let one : q * 2 ^ 0 + 0 ≡ q = omega arith in rw (e, m, d, one, bit_and-zero 0) (omega arith)
bit_and_split (suc k) a q r h = ground (
  arith,
  bit_and_digit a (q * 2 ^ suc k + r),
  bit_and_digit (a % 2 ^ suc k) r,
  mul-two_pow-suc q k,
  mul-two_pow-suc (bit_and (a / 2 ^ suc k) q) k,
  pow-suc 2 k,
  div-div-eq-div-mul a 2 (2 ^ k),
  mod-mul a 2 (2 ^ k) (omega arith) (one-le-pow k 2 (omega arith)),
  bit_and_split k (a / 2) q (r / 2),
)

bit_and_fields : (k q r : ℕ) → r < 2 ^ k → bit_and (q * 2 ^ k + r) (2 ^ k - 1) ≡ r
bit_and_fields zero q r fits = rw bit_and-zero (omega arith)
bit_and_fields (suc k) q r fits = ground (
  arith,
  bit_and_digit (q * 2 ^ suc k + r) (2 ^ suc k - 1),
  mul-two_pow-suc q k,
  pow-suc 2 k,
  one-le-pow k 2,
  bit_and_fields k q (r / 2),
)

-- A mask of `k` low bits is the remainder by `2 ^ k`.
pub bit_and_mask : (k a : ℕ) → bit_and a (2 ^ k - 1) ≡ a % 2 ^ k
bit_and_mask k a = ground (arith, one-le-pow k 2, bit_and_fields k (a / 2 ^ k) (a % 2 ^ k))

pub bit_or_self : (a : ℕ) → bit_or a a ≡ a
bit_or_self =
    half_induction (λ a. bit_or a a ≡ a) refl (λ n h. omega (arith, bit_or_digit (suc n) (suc n)))

-- Exclusive or is 0 of equal numbers only.
pub bit_xor_self : (a : ℕ) → bit_xor a a ≡ 0
bit_xor_self =
    half_induction (λ a. bit_xor a a ≡ 0) refl (λ n h. omega (arith, bit_xor_digit (suc n) (suc n)))

pub bit_xor-eq-zero : (a b : ℕ) → bit_xor a b ≡ 0 → a ≡ b
bit_xor-eq-zero a =
    half_induction (λ a. (b : ℕ) → bit_xor a b ≡ 0 → a ≡ b) (λ b h. omega (arith, bit_xor_zero b))
      (λ n ih b h.
        omega (arith, bit_xor_digit (suc n) b, ih (b / 2) (omega (arith, bit_xor_digit (suc n) b))))
      a
  where
    bit_xor_zero : (b : ℕ) → bit_xor 0 b ≡ b
    bit_xor_zero b = simp bit_xor-bitwise
