-- ===== src/Common/Octets.antt =====
-- Octets in a buffer, and the number that they are.
use mathlib.Core.List.{reverse, reverse-cons}
use Prim.Native.Nat.{ℕ, zero, suc, ◌+◌, ◌*◌, ◌^◌, ◌<◌}
use mathlib.Core.Path.{◌≡◌, refl, ap}
use mathlib.Core.List.{List, [], ◌∷◌, ◌++◌}
use native.Mathlib.Nat.{pow-suc}
use native.Mathlib.Omega.{arith}
use vasm_ext.Common.Lists.{length, length-append, take, drop}
use vasm_ext.Common.Power.{two_pow-add}

-- The number of some octets, the lowest first.
abbrev pub le_value : List ℕ → ℕ
le_value [] = 0
le_value (x ∷ xs) = x + 256 * le_value xs

abbrev pub IsOctets : List ℕ → Type 0
IsOctets [] = Unit
IsOctets (x ∷ xs) = (x < 256) × IsOctets xs

-- The number that a loop of `acc = acc << 8 | octet` ends with.
abbrev pub horner : ℕ → List ℕ → ℕ
horner acc [] = acc
horner acc (x ∷ xs) = horner (acc * 256 + x) xs

-- A big-endian reading of the octets in reverse order.
pub horner-append : (acc : ℕ) (xs ys : List ℕ) → horner acc (xs ++ ys) ≡ horner (horner acc xs) ys
horner-append acc [] ys = refl
horner-append acc (x ∷ xs) ys = horner-append (acc * 256 + x) xs ys

pub horner-reverse :
    (acc : ℕ) (l : List ℕ) → horner acc (reverse l) ≡ acc * 256 ^ length l + le_value l
horner-reverse acc [] = omega arith
horner-reverse acc (x ∷ l) =
    rw (reverse-cons, horner-append, horner-reverse acc l)
      (omega (arith, ap (λ (t : ℕ). acc * t) (pow-suc 256 (length l))))

pub le_value-lt : (l : List ℕ) → IsOctets l → le_value l < 256 ^ length l
le_value-lt [] h = omega arith
le_value-lt (x ∷ l) h = omega (arith, h.0, le_value-lt l h.1, pow-suc 256 (length l))

IsOctets-append : (xs ys : List ℕ) → IsOctets xs → IsOctets ys → IsOctets (xs ++ ys)
IsOctets-append [] ys h k = k
IsOctets-append (x ∷ xs) ys h k = (h.0, IsOctets-append xs ys h.1 k)

pub IsOctets-reverse : (l : List ℕ) → IsOctets l → IsOctets (reverse l)
IsOctets-reverse [] h = tt
IsOctets-reverse (x ∷ l) h =
    rw reverse-cons (IsOctets-append (reverse l) (x ∷ []) (IsOctets-reverse l h.1) (h.0, tt))

pub length-reverse : (l : List ℕ) → length (reverse l) ≡ length l
length-reverse [] = refl
length-reverse (x ∷ l) =
    rw (reverse-cons, length-append (reverse l) (x ∷ [])) (omega (arith, length-reverse l))

pub IsOctets-take : (n : ℕ) (l : List ℕ) → IsOctets l → IsOctets (take n l)
IsOctets-take zero l o = tt
IsOctets-take (suc n) [] o = tt
IsOctets-take (suc n) (x ∷ l) (b, o) = (b, IsOctets-take n l o)

pub IsOctets-drop : (n : ℕ) (l : List ℕ) → IsOctets l → IsOctets (drop n l)
IsOctets-drop zero l o = o
IsOctets-drop (suc n) [] o = tt
IsOctets-drop (suc n) (x ∷ l) (b, o) = IsOctets-drop n l o

-- The octets of a value are as many as its bits.
pub power_of_octets : (k : ℕ) → 256 ^ k ≡ 2 ^ (k * 8)
power_of_octets zero = refl
power_of_octets (suc k) =
    let e : suc k * 8 ≡ 8 + k * 8 = omega arith in
    rw (e, two_pow-add 8 (k * 8), pow-suc 256 k, power_of_octets k) (omega arith)
