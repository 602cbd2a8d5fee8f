-- ===== src/SymTab/Removal.antt =====
-- Tables whose names differ, and the removal of a name from them.
use vasm_ext.Common.Chars.{strcmp_eq, IsName}
use vasm_ext.Common.{
  ℕ, ◌≡◌, refl, sym, ap, ◌∙◌, Bool, true, false, ◌&&◌, ◌||◌, List, [], ◌∷◌, none, some,
  if◌then◌else◌, Bool-cases, inl, inr,
}
use vasm_ext.Names.{stricmp, is_zero}
use vasm_ext.SymTab.Key.{
  key, eq_of_strcmp, matches, slot, key_of_matches, matches_of_key, matches_cong,
  matches_cong_right,
}
use vasm_ext.SymTab.{HashEntry, unlink, search}

or_false : (b : Bool) → (b || false) ≡ b
or_false true = refl
or_false false = refl

-- Whether the test of `rem_hashentry` is that of the lookups.
unlink_test :
    (no_case : Bool) (a b : List ℕ)
    → IsName a
    → IsName b
    → (strcmp_eq a b || (no_case && is_zero (stricmp a b))) ≡ matches no_case a b
unlink_test false a b na nb = or_false (strcmp_eq a b)
unlink_test true a b na nb = elim (Bool-cases (strcmp_eq a b)) [
  | inl e ↦ rw e (sym (matches_of_key true a b na nb (ap (key true) (eq_of_strcmp a b e))))
  | inr e ↦ rw e refl
]

none-some {ℓ} : {A : Type ℓ} {a : A} → none ≡ some a → ⊥
none-some h = cc h

same_branches {ℓ} : {A : Type ℓ} (b : Bool) {a : A} → (if b then a else a) ≡ a
same_branches true = refl
same_branches false = refl

module _ {A : Type 0} where
  -- A chain of entries, with names that differ and that belong into the bucket.
  unfoldable pub Chain : ℕ → Bool → ℕ → List (HashEntry A) → Type 0
  Chain size no_case i [] = Unit
  Chain size no_case i (e ∷ es) =
      IsName e.name
      × (slot size no_case e.name ≡ i)
      × ((search (matches no_case e.name) es).0 ≡ none)
      × Chain size no_case i es

  search-cons :
      (test : List ℕ → Bool) (p : HashEntry A) (ps : List (HashEntry A))
      → (search test (p ∷ ps)).0 ≡ (if test p.name then some p.data_of else (search test ps).0)
  unfolding search
  search-cons test p ps = elim (Bool-cases (test p.name)) [ inl e ↦ rw e | inr e ↦ rw e ]

  -- Names with one key are found alike.
  search_cong :
      (size i : ℕ) (no_case : Bool) (a b : List ℕ) (es : List (HashEntry A))
      → IsName a
      → IsName b
      → key no_case a ≡ key no_case b
      → Chain size no_case i es
      → (search (matches no_case a) es).0 ≡ (search (matches no_case b) es).0
  unfolding Chain search
  search_cong size i no_case a b [] na nb k c = refl
  search_cong size i no_case a b (e ∷ es) na nb k (ne, s, f, c) = rw (
    search-cons,
    search-cons,
    matches_cong no_case a b e.name na nb ne k,
    search_cong size i no_case a b es na nb k c,
  )

  -- What the removal of a name from a chain leaves.
  pub unlink-search :
      (size i : ℕ) (no_case : Bool) (name : List ℕ) (es : List (HashEntry A)) (d : A)
      → IsName name
      → Chain size no_case i es
      → (search (matches no_case name) es).0 ≡ some d
      → (es' : List (HashEntry A)) × (unlink name no_case es ≡ some es')
        × Chain size no_case i es'
        × ((other : List ℕ)
            → IsName other
            → (search (matches no_case other) es').0 ≡ (
                if matches no_case other name then none else (search (matches no_case other) es).0))
  unfolding Chain search unlink
  unlink-search size i no_case name [] d n c h = absurd (none-some h)
  unlink-search size i no_case name (p ∷ ps) d n (np, s, f, c) h =
      elim (Bool-cases (matches no_case name p.name)) [
        | inl e ↦ (
          ps,
          rw (unlink_test no_case name p.name n np, e) refl,
          c,
          λ other no. elim (Bool-cases (matches no_case other name)) [
            | inl t ↦ rw t (
                search_cong size i no_case other p.name ps no np
                  (key_of_matches no_case other name no n t
                    ∙ key_of_matches no_case name p.name n np e)
                  c
                ∙ f)
            | inr t ↦
                let m =
                  sym (
                    matches_cong_right no_case name p.name other n np no
                      (key_of_matches no_case name p.name n np e))
                  ∙ t in
                rw (t, search-cons, m)
          ],
        )
        | inr e ↦
            let (qs, u, cq, look) = unlink-search size i no_case name ps d n c (rw e at h) in
            (
              p ∷ qs,
              rw (unlink_test no_case name p.name n np, e, u) refl,
              (np, s, look p.name np ∙ rw f (same_branches (matches no_case p.name name)), cq),
              λ other no. elim (Bool-cases (matches no_case other name)) [
                | inl t ↦
                    let m =
                      matches_cong no_case other name p.name no n np
                        (key_of_matches no_case other name no n t)
                      ∙ e in
                    rw (t, search-cons, m, look other no, t)
                | inr t ↦ rw (t, search-cons, search-cons, look other no, t)
              ],
            )
      ]

  -- A name that is not in the chain is not unlinked.
  pub unlink-absent :
      (size i : ℕ) (no_case : Bool) (name : List ℕ) (es : List (HashEntry A))
      → IsName name
      → Chain size no_case i es
      → (search (matches no_case name) es).0 ≡ none
      → unlink name no_case es ≡ none
  unfolding Chain search unlink
  unlink-absent size i no_case name [] n c h = refl
  unlink-absent size i no_case name (p ∷ ps) n (np, s, f, c) h =
      elim (Bool-cases (matches no_case name p.name)) [
        | inl e ↦ absurd (none-some (sym (rw e at h)))
        | inr e ↦ rw (
          unlink_test no_case name p.name n np,
          e,
          unlink-absent size i no_case name ps n c (rw e at h),
        )
      ]
