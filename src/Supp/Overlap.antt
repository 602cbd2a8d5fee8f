-- ===== src/Supp/Overlap.antt =====
-- What `chk_sec_overlap` accepts.
use mathlib.Core.Bool.{false≢true}
use vasm_ext.Common.Run.{ok, fatal}
use vasm_ext.Common.{
  ℕ, ◌+◌, ◌≤◌, ◌<◌, ◌≡◌, sym, ◌∙◌, arith, true, false, ◌⊎◌, if◌then◌else◌, inl, inr, Bool-cases,
  List, [], ◌∷◌,
}
use vasm_ext.Supp.{Section, clash, clashes, chk_sec_overlap}

-- An address in the range of a section.
abbrev pub Covers : Section → ℕ → Type 0
Covers s a = (s.org ≤ a) × (a < s.pc)

-- The allocated sections start in ascending order, from `low` on.
abbrev pub Ascending : ℕ → List Section → Type 0
Ascending low [] = Unit
Ascending low (s ∷ rest) =
    if s.unallocated then Ascending low rest else (low ≤ s.org) × Ascending s.org rest

-- The address is in the range of two allocated sections of the list.
abbrev pub CoveredBy : ℕ → List Section → Type 0
CoveredBy a [] = ⊥
CoveredBy a (s ∷ rest) = ((s.unallocated ≡ false) × Covers s a) ⊎ CoveredBy a rest

abbrev pub CoveredTwice : ℕ → List Section → Type 0
CoveredTwice a [] = ⊥
CoveredTwice a (s ∷ rest) =
    ((s.unallocated ≡ false) × Covers s a × CoveredBy a rest) ⊎ CoveredTwice a rest

clash_of_cover :
    (s s2 : Section) (a : ℕ) → s.org ≤ s2.org → Covers s a → Covers s2 a → clash s s2 ≡ true
clash_of_cover s s2 a le c d = ground arith

clashes_of_cover :
    (s : Section) (rest : List Section) (low a : ℕ)
    → s.org ≤ low
    → Ascending low rest
    → Covers s a
    → CoveredBy a rest
    → clashes s rest ≡ true
unfolding clashes
clashes_of_cover s [] low a le asc c h = absurd h
clashes_of_cover s (s2 ∷ rest) low a le asc c h = elim (Bool-cases s2.unallocated) [
  | inl u ↦ elim h [
    | inl (v, d) ↦ absurd (false≢true (sym v ∙ u))
    | inr h' ↦ rw (u, clashes_of_cover s rest low a le (rw u at asc) c h')
  ]
  | inr u ↦
      let (first, later) = rw u at asc in
      elim h [
        | inl (v, d) ↦ rw (u, clash_of_cover s s2 a (omega arith) c d)
        | inr h' ↦
            let e = clashes_of_cover s rest s2.org a (omega arith) later c h' in
            elim (Bool-cases (clash s s2)) [ inl k ↦ rw (u, k) | inr k ↦ rw (u, k, e) ]
      ]
]

fatal-ok {ℓ} : {A : Type ℓ} {n : ℕ} {a : A} → fatal n ≡ ok a → ⊥
fatal-ok h = cc h

-- If the allocated sections start in ascending order, the check accepts only lists in which no
-- address is in the ranges of two of them.
pub chk_sec_overlap-disjoint :
    (sections : List Section) (n m low a : ℕ)
    → Ascending low sections
    → chk_sec_overlap sections n ≡ ok m
    → ¬ (CoveredTwice a sections)
unfolding chk_sec_overlap
chk_sec_overlap-disjoint [] n m low a asc e = λ h. h
chk_sec_overlap-disjoint (s ∷ rest) n m low a asc e = λ h. elim (Bool-cases s.unallocated) [
  | inl u ↦ elim h [
    | inl (v, c, d) ↦ absurd (false≢true (sym v ∙ u))
    | inr h' ↦ chk_sec_overlap-disjoint rest n m low a (rw u at asc) (rw u at e) h'
  ]
  | inr u ↦
      let (first, later) = rw u at asc in
      elim (Bool-cases (clashes s rest)) [
        | inl k ↦ absurd (fatal-ok (rw (u, k) at e))
        | inr k ↦ elim h [
          | inl (v, c, d) ↦
              absurd (false≢true (sym k ∙ clashes_of_cover s rest s.org a (omega arith) later c d))
          | inr h' ↦ chk_sec_overlap-disjoint rest (n + 1) m s.org a later (rw (u, k) at e) h'
        ]
      ]
]

-- A section that encloses one before it in the list is accepted, although every address of the
-- enclosed one is in the ranges of both.
pub chk_sec_overlap_enclosed :
    (s s2 : Section) (a : ℕ)
    → s.unallocated ≡ false
    → s2.unallocated ≡ false
    → s2.org < s.org
    → s.pc ≤ s2.pc
    → Covers s a
    → (chk_sec_overlap (s ∷ s2 ∷ []) 0 ≡ ok 2) × Covers s2 a
unfolding chk_sec_overlap clashes
chk_sec_overlap_enclosed s s2 a u u2 before behind c =
    let e : clash s s2 ≡ false = ground arith in
    (rw (u, u2, e), (omega (arith, c.0), omega (arith, c.1)))
