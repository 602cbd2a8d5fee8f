-- ===== src/Supp/Align.antt =====
-- Alignment: the padding is the least that is enough, for addresses whose top bit is clear.
use native.Mathlib.Nat.{div-add-mod', mod-lt}
use vasm_ext.Common.Power.{mod_unique}
use vasm_ext.Common.Word.{sub64, neg64, sign64, add64}
use vasm_ext.Common.{
  ℕ, ◌+◌, ◌-◌, ◌/◌, ◌%◌, ◌^◌, ◌≤◌, ◌<◌, ◌≡◌, ◌≢◌, ◌∙◌, arith, true, false, ◌==◌, leb, ltb, ◌||◌,
  if◌then◌else◌, inl, inr, Bool-cases,
}
use vasm_ext.Supp.{balign, pcalign, Alignment}

-- The next multiple of `a` from `addr` on.
round_up : (addr a : ℕ) → 0 < a → addr % a ≢ 0 → (addr + (a - addr % a)) % a ≡ 0
round_up addr a pos ne =
    mod_unique (addr + (a - addr % a)) a (addr / a + 1) 0
      (omega (arith, div-add-mod' addr a, mod-lt addr pos)) pos

balign-value :
    (addr a : ℕ)
    → addr < 2 ^ 63
    → 0 < a
    → a < 2 ^ 63
    → balign addr a ≡ (if addr % a == 0 then 0 else a - addr % a)
unfolding balign
balign-value addr a h pos ah =
    let s : sign64 addr ≡ false = ground arith in
    let z : (a == 0) ≡ false = ground arith in
    let r : sub64 a (addr % a) ≡ a - addr % a = omega (arith, mod-lt addr pos) in rw (z, s, r)

-- For an address and an alignment below 2 ^ 63, the padding is below the alignment, and the
-- address that it leads to is aligned.
pub balign-least :
    (addr a : ℕ)
    → addr < 2 ^ 63
    → 0 < a
    → a < 2 ^ 63
    → (balign addr a < a) × ((addr + balign addr a) % a ≡ 0)
balign-least addr a h pos ah = elim (Bool-cases (addr % a == 0)) [
  | inl e ↦
      let b : balign addr a ≡ 0 = balign-value addr a h pos ah ∙ rw e in
      let same : addr + 0 ≡ addr = omega arith in rw (b, same) (pos, ground arith)
  | inr e ↦
      let b : balign addr a ≡ a - addr % a = balign-value addr a h pos ah ∙ rw e in
      let small = mod-lt addr pos in rw b (ground arith, round_up addr a pos (ground arith))
]

-- For an address whose top bit is set, that is negative as a `taddr`, and that is not aligned, the
-- padding is greater than the alignment.
pub balign_negative :
    (x a : ℕ)
    → 0 < x
    → x ≤ 2 ^ 63
    → 0 < a
    → a < 2 ^ 62
    → x % a ≢ 0
    → balign (2 ^ 64 - x) a ≡ a + x % a
unfolding balign
balign_negative x a pos h apos ah ne =
    let s : sign64 (2 ^ 64 - x) ≡ true = ground arith in
    let z : (a == 0) ≡ false = ground arith in
    let n : neg64 (2 ^ 64 - x) ≡ x = omega arith in
    let small = mod-lt x apos in
    let r : (neg64 (x % a) == 0) ≡ false = ground arith in rw (z, s, n, r) (omega (arith, small))

-- For an address and an alignment below 2 ^ 63, `pcalign` leads to the next aligned address, except
-- that it leaves the address where it is when the padding exceeds a maximum that is not 0.
pub pcalign-aligned :
    (a : Alignment) (pc : ℕ)
    → pc < 2 ^ 63
    → 0 < a.align
    → a.align < 2 ^ 63
    → (if (a.maxalignbytes == 0) || leb (balign pc a.align) a.maxalignbytes
        then (pcalign a pc % a.align ≡ 0) × (pc ≤ pcalign a pc) × (pcalign a pc < pc + a.align)
        else (pcalign a pc ≡ pc))
unfolding pcalign
pcalign-aligned a pc h pos ah =
    let (lt, e) = balign-least pc a.align h pos ah in
    let sum : add64 pc (balign pc a.align) ≡ pc + balign pc a.align = omega arith in
    elim (Bool-cases (a.maxalignbytes == 0)) [
      | inl z ↦ rw (z, sum) (e, omega arith, omega arith)
      | inr z ↦ elim (Bool-cases (ltb a.maxalignbytes (balign pc a.align))) [
        | inl m ↦
            let n : leb (balign pc a.align) a.maxalignbytes ≡ false = ground arith in rw (z, n, m)
        | inr m ↦
            let n : leb (balign pc a.align) a.maxalignbytes ≡ true = ground arith in
            rw (z, n, m, sum) (e, omega arith, omega arith)
      ]
    ]
