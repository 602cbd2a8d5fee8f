-- ===== src/HugeInt/Memory.antt =====
-- `huge_to_mem` and `huge_from_mem`: the octets of a number and the number of the octets.
use mathlib.Core.List.{reverse, reverse-cons}
use native.Mathlib.Nat.{pow-suc, pow-succ', one-le-pow, pow-le-pow_right}
use vasm_ext.Common.Bits.{bit_or_fields}
use vasm_ext.Common.Octets.{
  le_value, IsOctets, horner, horner-reverse, le_value-lt, IsOctets-reverse, length-reverse,
}
use vasm_ext.Common.Power.{mod-mul}
use vasm_ext.Common.Word.{ones64}
use vasm_ext.Common.{
  ℕ, zero, suc, ◌+◌, ◌-◌, ◌*◌, ◌/◌, ◌%◌, ◌^◌, ◌≤◌, ◌<◌, ◌≡◌, refl, ◌∙◌, arith, bit_or, Bool, true,
  false, List, [], ◌∷◌, ◌++◌, some, length, length-append, get_or, ltb, leb, if◌then◌else◌,
}
use vasm_ext.HugeInt.Shift.{hshl-value, hshr-value}
use vasm_ext.HugeInt.Value.{value, IsHuge}
use vasm_ext.HugeInt.{Thuge, hshl, hshr, read_octets, write_octets, huge_from_mem, huge_to_mem}

hshl_octet : (r : Thuge) → IsHuge r → IsHuge (hshl r 8) × ((hshl r 8).lo % 256 ≡ 0)
unfolding hshl
hshl_octet r w =
    let e = hshl-value r 8 w (omega arith) in
    (record { hi_fits = omega arith; lo_fits = omega arith }, omega arith)

hshr_octet : (r : Thuge) → IsHuge r → IsHuge (hshr r 8)
unfolding hshr
hshr_octet r w =
    let e = hshr-value r 8 w (omega arith) in
    record { hi_fits = omega arith; lo_fits = omega (arith, w.hi_fits) }

-- One round of the reading loop.
read_step :
    (r : Thuge) (s : ℕ)
    → IsHuge r
    → s < 256
    → let r' = hshl r 8 in
      let next : Thuge = record { hi = r'.hi; lo = bit_or r'.lo s } in
      IsHuge next × (value next ≡ (value r * 256 + s) % 2 ^ 128)
read_step r s w h =
    ground (
      arith,
      hshl_octet r w,
      hshl-value r 8 w (omega arith),
      bit_or_fields 8 ((hshl r 8).lo / 256) s,
    )

horner_mod :
    (a b : ℕ) (l : List ℕ) → a % 2 ^ 128 ≡ b % 2 ^ 128 → horner a l % 2 ^ 128 ≡ horner b l % 2 ^ 128
horner_mod a b [] h = h
horner_mod a b (x ∷ l) h = horner_mod (a * 256 + x) (b * 256 + x) l (omega arith)

read_octets-value :
    (r : Thuge) (l : List ℕ)
    → IsHuge r
    → IsOctets l
    → IsHuge (read_octets r l) × (value (read_octets r l) ≡ horner (value r) l % 2 ^ 128)
unfolding read_octets
read_octets-value r [] w h = (w, omega arith)
read_octets-value r (s ∷ l) w h =
    let (w', e) = read_step r s w h.0 in
    let r' = hshl r 8 in
    let (w'', e') = read_octets-value (record { hi = r'.hi; lo = bit_or r'.lo s }) l w' h.1 in
    (w'', e' ∙ horner_mod _ (value r * 256 + s) l (omega arith))

write_octets-value :
    (size : ℕ) (h : Thuge)
    → IsHuge h
    → IsOctets (write_octets size h)
      × (length (write_octets size h) ≡ size)
      × (le_value (write_octets size h) ≡ value h % 256 ^ size)
unfolding write_octets
write_octets-value zero h w = (tt, refl, omega arith)
write_octets-value (suc size) h w =
    let (o, l, e) = write_octets-value size (hshr h 8) (hshr_octet h w) in
    let m = mod-mul (value h) 256 (256 ^ size) (omega arith) (one-le-pow size 256 (omega arith)) in
    let digits = rw (← pow-succ' 256 size) at m in
    let rest : le_value (write_octets size (hshr h 8)) ≡ value h / 256 % 256 ^ size =
      rw (hshr-value h 8 w (omega arith)) at e in
    ((omega arith, o), omega arith, omega arith)

-- The octet that is read first has the sign: it is 128 or more when the number fills its octets.
get_or-append : (l : List ℕ) (x : ℕ) → 0 < length l → get_or (l ++ x ∷ []) 0 0 ≡ get_or l 0 0
get_or-append [] x h = elim h [ ]
get_or-append (y ∷ l) x h = refl

sign_octet :
    (x : ℕ) (l : List ℕ)
    → IsOctets (x ∷ l)
    → (leb 0x80 (get_or (reverse (x ∷ l)) 0 0) ≡ leb (256 ^ suc (length l)) (2 * le_value (x ∷ l)))
      × (0 < length (reverse (x ∷ l)))
sign_octet x [] h = (ground arith, omega arith)
sign_octet x (y ∷ l) h =
    let (e, pos) = sign_octet y l h.1 in
    (
      rw (reverse-cons x (y ∷ l), get_or-append (reverse (y ∷ l)) x pos)
          (ground (arith, e, pow-suc 256 (suc (length l)), pow-suc 256 (length l))),
      rw (reverse-cons x (y ∷ l), length-append (reverse (y ∷ l)) (x ∷ [])) (omega arith),
    )

-- A number below 256 ^ size, read as a signed number of `size` octets, modulo 2 ^ 128.
abbrev pub sign_extend : ℕ → ℕ → ℕ
sign_extend size v = if leb (256 ^ size) (2 * v) then 2 ^ 128 - 256 ^ size + v else v

-- What `huge_from_mem` starts with.
abbrev fill_of : List ℕ → ℕ
fill_of s = if leb 0x80 (get_or s 0 0) then ones64 else 0

abbrev filled : List ℕ → Thuge
filled s = record { hi = fill_of s; lo = fill_of s }

filled-IsHuge : (s : List ℕ) → IsHuge (filled s)
filled-IsHuge s = ground arith

read_back :
    (d : List ℕ)
    → IsOctets d
    → 1 ≤ length d
    → length d ≤ 16
    → value (read_octets (filled (reverse d)) (reverse d)) ≡ sign_extend (length d) (le_value d)
read_back [] o pos le = elim pos [ ]
read_back (x ∷ l) o pos le =
    let d = x ∷ l in
    let (_, e) =
      read_octets-value (filled (reverse d)) (reverse d) (filled-IsHuge (reverse d))
        (IsOctets-reverse d o) in
    let small : 256 ^ length d ≤ 256 ^ 16 =
      pow-le-pow_right (omega arith) {i = length d} {j = 16} le in
    rw (e, horner-reverse (value (filled (reverse d))) d, (sign_octet x l o).0)
      (ground (arith, small, le_value-lt d o))

reads :
    (be : Bool) (m s : List ℕ)
    → (if be then m else reverse m) ≡ s
    → length m ≤ 16
    → huge_from_mem be m ≡ some (read_octets (filled s) s)
unfolding huge_from_mem
reads be m s e le = let fits : ltb 16 (length m) ≡ false = ground arith in rw (e, fits)

writes :
    (be : Bool) (size : ℕ) (h : Thuge)
    → size ≤ 16
    → huge_to_mem be size h
      ≡ some (if be then reverse (write_octets size h) else write_octets size h)
unfolding huge_to_mem
writes be size h le = let fits : ltb 16 size ≡ false = ground arith in rw fits

-- Writing a number to a buffer of 1 to 16 octets, in either order, and reading it back gives its
-- sign-extended lower octets.
pub huge_from_mem-huge_to_mem :
    (be : Bool) (size : ℕ) (h : Thuge)
    → IsHuge h
    → 1 ≤ size
    → size ≤ 16
    → (m : List ℕ) × (r : Thuge) × (huge_to_mem be size h ≡ some m)
      × (length m ≡ size)
      × (huge_from_mem be m ≡ some r)
      × (value r ≡ sign_extend size (value h % 256 ^ size))
huge_from_mem-huge_to_mem be size h w pos le =
    let d = write_octets size h in
    let (o, l, v) = write_octets-value size h w in
    let back : value (read_octets (filled (reverse d)) (reverse d))
        ≡ sign_extend size (value h % 256 ^ size) =
      rw (l, v) at (read_back d o (omega arith) (omega arith)) in
    let long : length (reverse d) ≡ size = length-reverse d ∙ l in
    elim be
      as (λ be.
        (m : List ℕ) × (r : Thuge) × (huge_to_mem be size h ≡ some m)
        × (length m ≡ size)
        × (huge_from_mem be m ≡ some r)
        × (value r ≡ sign_extend size (value h % 256 ^ size))) [
          | true ↦
              (reverse d, _, writes true size h le, long, reads true _ _ refl (omega arith), back)
          | false ↦ (d, _, writes false size h le, l, reads false _ _ refl (omega arith), back)
        ]
