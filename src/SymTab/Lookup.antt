-- ===== src/SymTab/Lookup.antt =====
-- The table as a map from names to data: what the lookups find after an entry is added or removed.
use vasm_ext.Common.Chars.{IsName}
use vasm_ext.Common.{
  ℕ, ◌≡◌, refl, sym, ap, ◌∙◌, arith, Bool, true, false, List, ◌∷◌, Option, some, ◌==◌,
  if◌then◌else◌, Bool-cases, inl, inr, ==_iff,
}
use vasm_ext.SymTab.Key.{matches, slot, bucket-slot, matches-slot}
use vasm_ext.SymTab.{
  HashEntry, HashTable, bucket, set_bucket, add_hashentry, search, found, find_name, find_name_nc,
}

-- The lookup that fits the flag with which the entries were added.
abbrev pub lookup {ℓ} : {A : Type ℓ} → Bool → HashTable A → List ℕ → Option A
lookup true ht name = (find_name_nc ht name).0
lookup false ht name = (find_name ht name).0

module _ {ℓ} {A : Type ℓ} where
  pub lookup-search :
      (no_case : Bool) (ht : HashTable A) (name : List ℕ)
      → lookup no_case ht name
        ≡ (search (matches no_case name) (ht.entries (slot ht.size no_case name))).0
  unfolding find_name find_name_nc found bucket
  lookup-search true ht name = rw (← bucket-slot ht name true) refl
  lookup-search false ht name = rw (← bucket-slot ht name false) refl

  -- An entry goes before the others of its bucket, where alone it is looked for.
  search-set_bucket :
      (test : List ℕ → Bool) (f : ℕ → List (HashEntry A)) (i j : ℕ) (e : HashEntry A)
      → (test e.name ≡ true → i ≡ j)
      → (search test (set_bucket f i (e ∷ f i) j)).0
        ≡ (if test e.name then some e.data_of else (search test (f j)).0)
  unfolding search
  search-set_bucket test f i j e h = elim (Bool-cases (test e.name)) [
    | inl t ↦ let q : (i == j) ≡ true = ground (arith, h t) in rw (q, t)
    | inr t ↦ elim (Bool-cases (i == j)) [ inl q ↦ rw (q, t, (==_iff i j).0 q) | inr q ↦ rw (q, t) ]
  ]

  -- A name that is added is found with its data, and every other name is found as before, with
  -- case and without; the names have no octet that is 0.
  pub lookup-add_hashentry :
      (debug no_case : Bool) (ht : HashTable A) (name other : List ℕ) (d : A)
      → IsName name
      → IsName other
      → lookup no_case (add_hashentry debug ht name d no_case) other
        ≡ (if matches no_case other name then some d else lookup no_case ht other)
  unfolding add_hashentry
  lookup-add_hashentry debug no_case ht name other d n o =
      let e : HashEntry A = record { name = name; data_of = d } in
      let same = bucket-slot ht name no_case in
      let added = add_hashentry debug ht name d no_case in
      lookup-search no_case added other
      ∙ ap
          (λ i.
            (search (matches no_case other)
              (set_bucket ht.entries i (e ∷ ht.entries i) (slot ht.size no_case other))).0)
          same
      ∙ search-set_bucket (matches no_case other) ht.entries (slot ht.size no_case name)
          (slot ht.size no_case other) e (λ h. sym (matches-slot no_case other name o n ht.size h))
      ∙ ap (λ r. if matches no_case other name then some d else r)
          (sym (lookup-search no_case ht other))
