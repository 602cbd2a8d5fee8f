-- ===== src/Supp/Pattern.antt =====
-- The padding that `fwpattern` writes.
use mathlib.Core.List.{append_assoc, append-nil}
use native.Mathlib.Nat.{mod-lt, div-add-mod', div-le_self, suc-mul}
use vasm_ext.Common.Power.{mod_unique}
use vasm_ext.Common.{
  ℕ, zero, suc, ◌+◌, ◌-◌, ◌*◌, ◌/◌, ◌%◌, ◌≤◌, ◌<◌, ◌≡◌, refl, sym, ap, ◌∙◌, arith, Bool, true,
  false, not, ◌==◌, ◌||◌, leb, List, [], ◌∷◌, ◌++◌, replicate, take,
}
use vasm_ext.Supp.{fwspace, fwpattern, front, copies}

abbrev pub repeat : ℕ → List ℕ → List ℕ
repeat zero pat = []
repeat (suc k) pat = pat ++ repeat k pat

front_lem :
    (fuel r q : ℕ) (f : List ℕ) (patlen : ℕ)
    → r < patlen
    → r ≤ fuel
    → front fuel f (q * patlen + r) patlen ≡ (f ++ replicate r 0, q * patlen, not (r == 0))
unfolding front fwspace
front_lem zero zero q f patlen lt le =
    let e : q * patlen + 0 ≡ q * patlen = omega arith in rw (e, append-nil)
front_lem (suc fuel) zero q f patlen lt le =
    let e : q * patlen + 0 ≡ q * patlen = omega arith in
    let z : (q * patlen % patlen == 0) ≡ true =
      ground (arith, mod_unique (q * patlen) patlen q 0 (omega arith) lt) in
    rw (e, z, append-nil)
front_lem zero (suc r) q f patlen lt le = absurd (omega arith)
front_lem (suc fuel) (suc r) q f patlen lt le =
    let m = mod_unique (q * patlen + suc r) patlen q (suc r) refl lt in
    let z : ((q * patlen + suc r) % patlen == 0) ≡ false = ground (arith, m) in
    let less : q * patlen + suc r - 1 ≡ q * patlen + r = omega arith in
    let k : (suc r == 0) ≡ false = ground arith in
    rw (
      z,
      less,
      front_lem fuel r q (f ++ 0 ∷ []) patlen (omega arith) (omega arith),
      append_assoc,
      k,
    )

copies_lem :
    (fuel q : ℕ) (f pat : List ℕ) (patlen : ℕ)
    → 0 < patlen
    → q ≤ fuel
    → copies fuel f (q * patlen) pat patlen ≡ (f ++ repeat q (take patlen pat), 0)
unfolding copies
copies_lem zero zero f pat patlen pos le =
    let e : 0 * patlen ≡ 0 = omega arith in rw (e, append-nil)
copies_lem (suc fuel) zero f pat patlen pos le =
    let e : 0 * patlen ≡ 0 = omega arith in
    let z : leb patlen 0 ≡ false = ground arith in rw (e, z, append-nil)
copies_lem zero (suc q) f pat patlen pos le = absurd (omega arith)
copies_lem (suc fuel) (suc q) f pat patlen pos le =
    let s : suc q * patlen ≡ q * patlen + patlen = suc-mul q patlen in
    let z : leb patlen (q * patlen + patlen) ≡ true = ground arith in
    let less : q * patlen + patlen - patlen ≡ q * patlen = omega arith in
    rw (
      s,
      z,
      less,
      copies_lem fuel q (f ++ take patlen pat) pat patlen pos (omega arith),
      append_assoc,
    )

or_false : (b : Bool) → (b || false) ≡ b
or_false true = refl
or_false false = refl

-- `n` octets of padding are as many zeros as the pattern leaves over, then copies of the pattern;
-- the warning is given if there are such zeros.
pub fwpattern-octets :
    (f : List ℕ) (n : ℕ) (pat : List ℕ) (patlen : ℕ)
    → 0 < patlen
    → fwpattern f n pat patlen ≡ (
      (f ++ replicate (n % patlen) 0) ++ repeat (n / patlen) (take patlen pat),
      not (n % patlen == 0),
    )
unfolding fwpattern
fwpattern-octets f n pat patlen pos =
    let r = n % patlen in
    let q = n / patlen in
    let whole : n ≡ q * patlen + r = sym (div-add-mod' n patlen) in
    let lt = mod-lt n pos in
    let a = front_lem n r q f patlen lt (omega (arith, whole)) in
    let b = copies_lem n q (f ++ replicate r 0) pat patlen pos (div-le_self n patlen) in
    let start = ap (λ k. front n f k patlen) whole ∙ a in rw (start, b, or_false)
