-- ===== src/HugeInt.antt =====
-- hugeint.c: integers of 128 bits as two 64-bit halves. A negative number is its two's complement,
-- and an `int64_t` argument is its bit pattern.
pub mod Value
pub mod Sum
pub mod Shift
pub mod Product
pub mod Range
pub mod Memory
pub mod Divide
mod Tests
use Prim.Native.Nat.{Ordering}
use mathlib.Core.List.{reverse}
use vasm_ext.Common.Word.{u64, add64, sub64, mul64, neg64, cpl64, shl64, shr64, sign64, ones64}
use vasm_ext.Common.{
  ℕ, zero, suc, ◌+◌, ◌-◌, ◌*◌, ◌/◌, ◌%◌, ◌^◌, bit_and, bit_or, bit_xor, Bool, true, not, ◌&&◌, List,
  [], ◌∷◌, Option, none, some, length, get_or, ltb, leb, ◌==◌, if◌then◌else◌,
}

pub record Thuge : Type 0 where
  pub hi : ℕ
  pub lo : ℕ

abbrev pub hugebits : ℕ
hugebits = 128

-- `HUGESIGN`: the top bit of the upper half
abbrev pub hugesign : Thuge → Bool
hugesign h = sign64 h.hi

unfoldable pub huge_zero : Thuge
huge_zero = record { hi = 0; lo = 0 }

unfoldable pub huge_from_int : ℕ → Thuge
huge_from_int i = record { hi = if sign64 i then ones64 else 0; lo = i }

unfoldable pub huge_to_int : Thuge → ℕ
huge_to_int h = h.lo

unfoldable pub hneg : Thuge → Thuge
hneg a = record {
  hi = if not (a.lo == 0) then sub64 (neg64 a.hi) 1 else neg64 a.hi;
  lo = neg64 a.lo;
}

unfoldable pub hcpl : Thuge → Thuge
hcpl a = record { hi = cpl64 a.hi; lo = cpl64 a.lo }

unfoldable pub hnot : Thuge → Thuge
hnot a = record { hi = 0; lo = if (a.hi == 0) && (a.lo == 0) then 1 else 0 }

unfoldable pub hand : Thuge → Thuge → Thuge
hand a b = record { hi = bit_and a.hi b.hi; lo = bit_and a.lo b.lo }

unfoldable pub hor : Thuge → Thuge → Thuge
hor a b = record { hi = bit_or a.hi b.hi; lo = bit_or a.lo b.lo }

unfoldable pub hxor : Thuge → Thuge → Thuge
hxor a b = record { hi = bit_xor a.hi b.hi; lo = bit_xor a.lo b.lo }

unfoldable pub haddi : Thuge → ℕ → Thuge
haddi a b =
    let lo = add64 a.lo b in
    record {
      hi =
          if sign64 b
          then (if ltb a.lo lo then sub64 a.hi 1 else a.hi)
          else (if ltb lo a.lo then add64 a.hi 1 else a.hi);
      lo = lo;
    }

unfoldable pub hadd : Thuge → Thuge → Thuge
hadd a b =
    let lo = add64 a.lo b.lo in
    record {
      hi =
          if hugesign b
          then (if ltb a.lo lo then sub64 (add64 a.hi b.hi) 1 else add64 a.hi b.hi)
          else (if ltb lo a.lo then add64 (add64 a.hi b.hi) 1 else add64 a.hi b.hi);
      lo = lo;
    }

unfoldable pub hsub : Thuge → Thuge → Thuge
hsub a b =
    let lo = sub64 a.lo b.lo in
    record {
      hi =
          if hugesign b
          then (if ltb lo a.lo then add64 (sub64 a.hi b.hi) 1 else sub64 a.hi b.hi)
          else (if ltb a.lo lo then sub64 (sub64 a.hi b.hi) 1 else sub64 a.hi b.hi);
      lo = lo;
    }

-- The results -1, 0 and 1 are `lt`, `eq` and `gt`.
unfoldable pub hcmp : Thuge → Thuge → Ordering
hcmp a b =
    let c = hsub a b in
    if (c.hi == 0) && (c.lo == 0)
    then Ordering.eq
    else if hugesign c
    then Ordering.lt
    else Ordering.gt

-- `(int64_t)a >> k`, for `k` below 64: the sign is shifted in
abbrev pub shra64 : ℕ → ℕ → ℕ
shra64 a k = if sign64 a then ones64 - (ones64 - a) / 2 ^ k else a / 2 ^ k

-- The shift counts are those for which C defines the shifts, 0 to 127.
unfoldable pub hshra : Thuge → ℕ → Thuge
hshra a b =
    if leb 64 b
    then record { hi = if hugesign a then ones64 else 0; lo = shra64 a.hi (b - 64) }
    else if b == 0
    then record { hi = a.hi; lo = a.lo }
    else record { hi = shra64 a.hi b; lo = bit_or (shl64 a.hi (64 - b)) (shr64 a.lo b) }

unfoldable pub hshr : Thuge → ℕ → Thuge
hshr a b =
    if leb 64 b
    then record { hi = 0; lo = shr64 a.hi (b - 64) }
    else if b == 0
    then record { hi = a.hi; lo = a.lo }
    else record { hi = shr64 a.hi b; lo = bit_or (shl64 a.hi (64 - b)) (shr64 a.lo b) }

unfoldable pub hshl : Thuge → ℕ → Thuge
hshl a b =
    if leb 64 b
    then record { hi = shl64 a.lo (b - 64); lo = 0 }
    else if b == 0
    then record { hi = a.hi; lo = a.lo }
    else record { hi = bit_or (shr64 a.lo (64 - b)) (shl64 a.hi b); lo = shl64 a.lo b }

-- `HIHALF`, `LOHALF`, `BASE`
abbrev pub hihalf : ℕ → ℕ
hihalf x = shr64 x 32

abbrev pub lohalf : ℕ → ℕ
lohalf x = bit_and x (2 ^ 32 - 1)

abbrev pub base : ℕ
base = 2 ^ 32

-- The tail that `hmuli` and `hmul` share: the carry out of the lower product is added to `hi`.
-- `x` and `y` are the lower halves.
hmul_carry : ℕ → ℕ → ℕ → ℕ
hmul_carry hi x y =
    let tmp = mul64 (hihalf x) (lohalf y) in
    let carry = add64 tmp (mul64 (lohalf x) (hihalf y)) in
    let hi₁ = if ltb carry tmp then add64 hi base else hi in
    let hi₂ = add64 hi₁ (hihalf carry) in
    let tmp₂ = mul64 (hihalf x) (hihalf y) in
    let hi₃ = add64 hi₂ tmp₂ in if ltb (add64 tmp₂ (shl64 carry 32)) tmp₂ then add64 hi₃ 1 else hi₃

unfoldable pub hmuli : Thuge → ℕ → Thuge
unfolding hmul_carry
hmuli a ub = record { hi = hmul_carry (mul64 a.hi ub) a.lo ub; lo = mul64 a.lo ub }

unfoldable pub hmul : Thuge → Thuge → Thuge
unfolding hmul_carry
hmul a b = record {
  hi = hmul_carry (add64 (mul64 a.hi b.lo) (mul64 b.hi a.lo)) a.lo b.lo;
  lo = mul64 a.lo b.lo;
}

-- `bits` is 1 to 63, 65 to 127, or at least 128; at 64 the source shifts by -1.
unfoldable pub huge_chkrange : Thuge → ℕ → Bool
huge_chkrange h bits =
    if leb hugebits bits
    then true
    else if leb 64 bits
    then (let mask = shl64 ones64 (bits - 64) in
        let v = bit_and h.hi mask in
        if bit_xor v mask == 0 then not (bit_and h.hi (2 ^ (bits - 64 - 1)) == 0) else v == 0)
    else (let mask = shl64 ones64 bits in
        let v = bit_and h.lo mask in
        if (h.hi == ones64) && (bit_xor v mask == 0)
        then not (bit_and h.lo (2 ^ (bits - 1)) == 0)
        else (h.hi == 0) && (v == 0))

-- The loops of `huge_from_mem` and `huge_to_mem` over a buffer of octets.
pub read_octets : Thuge → List ℕ → Thuge
read_octets r [] = r
read_octets r (s ∷ src) =
    let r' = hshl r 8 in read_octets (record { hi = r'.hi; lo = bit_or r'.lo s }) src

pub write_octets : ℕ → Thuge → List ℕ
write_octets zero h = []
write_octets (suc size) h = (h.lo % 2 ^ 8) ∷ write_octets size (hshr h 8)

-- `none` is the internal error for a size over 16. A big-endian read takes the octets in order and
-- a little-endian one from the end of the buffer; the first one read has the sign. (The source
-- reads outside of a buffer of size 0.)
unfoldable pub huge_from_mem : Bool → List ℕ → Option Thuge
unfolding read_octets
huge_from_mem be src =
    let s = if be then src else reverse src in
    let fill = if leb 0x80 (get_or s 0 0) then ones64 else 0 in
    if ltb 16 (length src) then none else some (read_octets (record { hi = fill; lo = fill }) s)

-- The octets are written from the low end: in order, or from the end of the buffer.
unfoldable pub huge_to_mem : Bool → ℕ → Thuge → Option (List ℕ)
unfolding write_octets
huge_to_mem be size h =
    let d = write_octets size h in if ltb 16 size then none else some (if be then reverse d else d)
