-- ===== src/Vobj/Scan.antt =====
-- How many octets `write_number` finds to be needed.
use native.Mathlib.Nat.{pow-suc, one-le-pow}
use vasm_ext.Common.Octets.{le_value}
use vasm_ext.Common.{
  ℕ, zero, suc, ◌+◌, ◌-◌, ◌*◌, ◌%◌, ◌^◌, ◌≤◌, ◌<◌, ◌≡◌, refl, arith, ◌==◌, if◌then◌else◌, ◌⊎◌, inl,
  inr, Bool-cases, leb, leb→le,
}
use vasm_ext.HugeInt.{shra64}
use vasm_ext.Vobj.Octet.{octets, low_octet, le_value-octets_lt, le_value-octets}
use vasm_ext.Vobj.{count_octets, needed_octets}

-- One round of the loop.
next_s : ℕ → ℕ → ℕ → ℕ
next_s i s w = if w % 256 == 0 then s else i

next_u : ℕ → ℕ → ℕ → ℕ
next_u i u w = if w % 256 == 255 then u else i

next :
    (n i s u w : ℕ)
    → count_octets (suc n) i s u w
      ≡ count_octets n (i + 1) (next_s i s w) (next_u i u w) (shra64 w 8)
unfolding count_octets next_s next_u
next n i s u w = rw (low_octet w) refl

next_bounds :
    (i s u w : ℕ)
    → s < i
    → u < i
    → (s ≤ next_s i s w) × (next_s i s w < i + 1) × (u ≤ next_u i u w) × (next_u i u w < i + 1)
unfolding next_s next_u
next_bounds i s u w h k = ground arith

-- The counts lie in their range.
pub count_octets-bounds :
    (n i s u w : ℕ)
    → s < i
    → u < i
    → (s ≤ (count_octets n i s u w).0)
      × ((count_octets n i s u w).0 < i + n)
      × (u ≤ (count_octets n i s u w).1)
      × ((count_octets n i s u w).1 < i + n)
count_octets-bounds zero i s u w h k =
    unfold count_octets in (omega arith, omega arith, omega arith, omega arith)
count_octets-bounds (suc n) i s u w h k =
    let b = next_bounds i s u w h k in
    let ih =
      count_octets-bounds n (i + 1) (next_s i s w) (next_u i u w) (shra64 w 8) (omega (arith, b))
        (omega (arith, b)) in
    rw (next n i s u w)
      (omega (arith, b, ih), omega (arith, b, ih), omega (arith, b, ih), omega (arith, b, ih))

power_step : (r i : ℕ) → i ≤ r → 256 ^ (r + 1 - i) ≡ 256 * 256 ^ (r + 1 - (i + 1))
power_step r i h =
    let e : r + 1 - i ≡ suc (r + 1 - (i + 1)) = omega arith in
    rw e (omega (arith, pow-suc 256 (r + 1 - (i + 1))))

none_left : (r i : ℕ) → r < i → (256 ^ (r + 1 - i) ≡ 1) × (256 ^ (r + 1 - (i + 1)) ≡ 1)
none_left r i h =
    let e : r + 1 - i ≡ 0 = omega arith in
    let f : r + 1 - (i + 1) ≡ 0 = omega arith in (rw e refl, rw f refl)

-- An octet in front of others that are 0 behind the `r` of them that are counted.
low_step :
    (r i d v : ℕ)
    → d < 256
    → v < 256 ^ (r + 1 - (i + 1))
    → (d ≡ 0) ⊎ (i ≤ r)
    → d + 256 * v < 256 ^ (r + 1 - i)
low_step r i d v b h c = elim (Bool-cases (leb i r)) [
  | inl e ↦ rw (power_step r i (leb→le i r e)) (omega arith)
  | inr e ↦
      let less : r < i = ground arith in
      rw (none_left r i less).0 (ground (arith, none_left r i less))
]

high_step :
    (r i d v m : ℕ)
    → d < 256
    → m ≤ v + 256 ^ (r + 1 - (i + 1))
    → v < m
    → (d ≡ 255) ⊎ (i ≤ r)
    → 256 * m ≤ d + 256 * v + 256 ^ (r + 1 - i)
high_step r i d v m b h k c = elim (Bool-cases (leb i r)) [
  | inl e ↦ rw (power_step r i (leb→le i r e)) (omega arith)
  | inr e ↦
      let less : r < i = ground arith in
      rw (none_left r i less).0 (ground (arith, none_left r i less))
]

next_s_cases : (i s w r : ℕ) → next_s i s w ≤ r → (w % 256 ≡ 0) ⊎ (i ≤ r)
unfolding next_s
next_s_cases i s w r h = ground arith

next_u_cases : (i u w r : ℕ) → next_u i u w ≤ r → (w % 256 ≡ 255) ⊎ (i ≤ r)
unfolding next_u
next_u_cases i u w r h = ground arith

-- The octets behind those that `s` counts are 0.
pub count_octets-low :
    (n i s u w : ℕ)
    → s < i
    → u < i
    → le_value (octets n w) < 256 ^ ((count_octets n i s u w).0 + 1 - i)
count_octets-low zero i s u w h k =
    one-le-pow ((count_octets 0 i s u w).0 + 1 - i) 256 (omega arith)
count_octets-low (suc n) i s u w h k =
    let b = next_bounds i s u w h k in
    let s' = next_s i s w in
    let u' = next_u i u w in
    let v = shra64 w 8 in
    let r = (count_octets n (i + 1) s' u' v).0 in
    let ih = count_octets-low n (i + 1) s' u' v (omega (arith, b)) (omega (arith, b)) in
    let c = count_octets-bounds n (i + 1) s' u' v (omega (arith, b)) (omega (arith, b)) in
    rw (next n i s u w)
      (low_step r i (w % 256) (le_value (octets n v)) (omega arith) ih (next_s_cases i s w r c.0))

-- The octets behind those that `u` counts are 0xff.
pub count_octets-high :
    (n i s u w : ℕ)
    → s < i
    → u < i
    → 256 ^ n ≤ le_value (octets n w) + 256 ^ ((count_octets n i s u w).1 + 1 - i)
count_octets-high zero i s u w h k =
    omega (arith, one-le-pow ((count_octets 0 i s u w).1 + 1 - i) 256 (omega arith))
count_octets-high (suc n) i s u w h k =
    let b = next_bounds i s u w h k in
    let s' = next_s i s w in
    let u' = next_u i u w in
    let v = shra64 w 8 in
    let r = (count_octets n (i + 1) s' u' v).1 in
    let ih = count_octets-high n (i + 1) s' u' v (omega (arith, b)) (omega (arith, b)) in
    let c = count_octets-bounds n (i + 1) s' u' v (omega (arith, b)) (omega (arith, b)) in
    let fits = le_value-octets_lt n v in
    let power : 256 ^ suc n ≡ 256 * 256 ^ n = omega (arith, pow-suc 256 n) in
    rw (next n i s u w, power)
      (high_step r i (w % 256) (le_value (octets n v)) (256 ^ n) (omega arith) ih fits
        (next_u_cases i u w r c.2))

-- The octets of a value that are counted: those behind `s` of them are 0, those behind `u` 0xff.
pub record Counted (val s u : ℕ) : Type 0 where
  pub s_le : s ≤ 8
  pub u_le : u ≤ 8
  pub low : val < 256 ^ s
  pub high : 2 ^ 64 ≤ val + 256 ^ u

next_first : (w : ℕ) → (next_s 1 1 w ≡ 1) × (next_u 1 1 w ≡ 1)
unfolding next_s next_u
next_first w = (ground arith, ground arith)

count_octets-Counted :
    (val : ℕ) → val < 2 ^ 64 → Counted val (count_octets 8 1 1 1 val).0 (count_octets 8 1 1 1 val).1
count_octets-Counted val h =
    let v = shra64 val 8 in
    let b = count_octets-bounds 7 2 1 1 v (omega arith) (omega arith) in
    let whole = le_value-octets val h in
    let s = (count_octets 7 2 1 1 v).0 in
    let u = (count_octets 7 2 1 1 v).1 in
    let low =
      low_step s 1 (val % 256) (le_value (octets 7 v)) (omega arith)
        (count_octets-low 7 2 1 1 v (omega arith) (omega arith)) (inr b.0) in
    let high =
      high_step u 1 (val % 256) (le_value (octets 7 v)) (256 ^ 7) (omega arith)
        (count_octets-high 7 2 1 1 v (omega arith) (omega arith)) (le_value-octets_lt 7 v)
        (inr b.2) in
    let es : s + 1 - 1 ≡ s = omega arith in
    let eu : u + 1 - 1 ≡ u = omega arith in
    rw (next 7 1 1 1 val, (next_first val).0, (next_first val).1)
      (record {
        s_le = omega (arith, b);
        u_le = omega (arith, b);
        low = omega (arith, whole, rw es at low);
        high = omega (arith, whole, rw eu at high);
      })

pub needed_octets-Counted :
    (version val : ℕ)
    → val < 2 ^ 64
    → Counted val (needed_octets version val).0 (needed_octets version val).1
unfolding needed_octets
needed_octets-Counted version val h = elim (Bool-cases (version == 0)) [
  | inl e ↦ rw e (record { s_le = omega arith; u_le = omega arith; low = h; high = omega arith })
  | inr e ↦ rw e (count_octets-Counted val h)
]
