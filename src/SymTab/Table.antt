-- ===== src/SymTab/Table.antt =====
-- Every table that is made by adding new names and removing known ones has each name once.
use vasm_ext.Common.Chars.{IsName}
use vasm_ext.Common.Run.{ok, fatal}
use vasm_ext.Common.{
  ℕ, ◌≡◌, sym, ap, ◌∙◌, arith, Bool, List, none, some, ◌==◌, if◌then◌else◌, Bool-cases, inl, inr,
  ==_iff,
}
use vasm_ext.SymTab.Key.{matches, slot, bucket-slot, matches-slot}
use vasm_ext.SymTab.Lookup.{lookup, lookup-search}
use vasm_ext.SymTab.Removal.{Chain, unlink-search, unlink-absent}
use vasm_ext.SymTab.{
  HashEntry, HashTable, bucket, set_bucket, new_hashtable, add_hashentry, rem_hashentry, unlinked,
  search,
}

-- Every entry stands in the bucket of its name, and no two entries have the same name.
pub record IsValid {A : Type 0} (no_case : Bool) (ht : HashTable A) : Type 0 where
  pub chains : (i : ℕ) → Chain ht.size no_case i (ht.entries i)

module _ {A : Type 0} (no_case : Bool) where
  pub new_hashtable-IsValid : (size : ℕ) → IsValid no_case (new_hashtable {A = A} size)
  unfolding new_hashtable Chain
  new_hashtable-IsValid size = record { chains = λ i. tt }

  -- The lookup in the bucket of the name.
  lookup-bucket :
      (ht : HashTable A) (name : List ℕ)
      → lookup no_case ht name
        ≡ (search (matches no_case name) (ht.entries (bucket ht name no_case))).0
  lookup-bucket ht name =
      lookup-search no_case ht name
      ∙ ap (λ i. (search (matches no_case name) (ht.entries i)).0)
          (sym (bucket-slot ht name no_case))

  set_bucket-Chain :
      (ht : HashTable A) (i : ℕ) (es : List (HashEntry A)) (j : ℕ)
      → IsValid no_case ht
      → Chain ht.size no_case i es
      → Chain ht.size no_case j (set_bucket ht.entries i es j)
  set_bucket-Chain ht i es j v c = elim (Bool-cases (i == j)) [
    | inl e ↦ rw e (rw ((==_iff i j).0 e) at c)
    | inr e ↦ rw e (v.chains j)
  ]

  -- A table stays valid when a name is added that is not in it.
  pub add_hashentry-IsValid :
      (debug : Bool) (ht : HashTable A) (name : List ℕ) (d : A)
      → IsName name
      → IsValid no_case ht
      → lookup no_case ht name ≡ none
      → IsValid no_case (add_hashentry debug ht name d no_case)
  unfolding add_hashentry Chain
  add_hashentry-IsValid debug ht name d n v h = record {
    chains = λ j.
        set_bucket-Chain ht (bucket ht name no_case) _ j v
          (n, sym (bucket-slot ht name no_case), sym (lookup-bucket ht name) ∙ h, v.chains _);
  }

  -- What a lookup finds when a bucket was replaced by one in which the name does not stand.
  lookup-set_bucket :
      (ht : HashTable A) (name other : List ℕ) (es : List (HashEntry A))
      → IsName name
      → IsName other
      → (search (matches no_case other) es).0 ≡ (
          if matches no_case other name
          then none
          else (search (matches no_case other) (ht.entries (bucket ht name no_case))).0)
      → lookup no_case
          (record ht { entries = set_bucket ht.entries (bucket ht name no_case) es })
          other
        ≡ (if matches no_case other name then none else lookup no_case ht other)
  lookup-set_bucket ht name other es n o h =
      let i = bucket ht name no_case in
      let j = slot ht.size no_case other in
      let left = lookup-search no_case (record ht { entries = set_bucket ht.entries i es }) other in
      let right = lookup-search no_case ht other in
      elim (Bool-cases (i == j)) [
        | inl e ↦ left ∙ rw (e, right, ← (==_iff i j).0 e) h
        | inr e ↦ left ∙ elim (Bool-cases (matches no_case other name)) [
          | inl t ↦
              let same : i ≡ j =
                bucket-slot ht name no_case ∙ sym (matches-slot no_case other name o n ht.size t) in
              absurd (ground arith)
          | inr t ↦ rw (e, t) (sym right)
        ]
      ]

  -- A name of a valid table is removed without an error; the table that is left is valid, does not
  -- have the name, and has every other name as before.
  pub lookup-rem_hashentry :
      (ht : HashTable A) (name other : List ℕ) (d : A)
      → IsName name
      → IsName other
      → IsValid no_case ht
      → lookup no_case ht name ≡ some d
      → (ht' : HashTable A) × (rem_hashentry ht name no_case ≡ ok ht')
        × IsValid no_case ht'
        × (lookup no_case ht' other
            ≡ (if matches no_case other name then none else lookup no_case ht other))
  unfolding rem_hashentry
  lookup-rem_hashentry ht name other d n o v h =
      let i = bucket ht name no_case in
      let (es, u, c, look) =
        unlink-search ht.size i no_case name (ht.entries i) d n (v.chains i)
          (sym (lookup-bucket ht name) ∙ h) in
      (
        record ht { entries = set_bucket ht.entries i es },
        ap (unlinked ht i) u,
        record { chains = λ j. set_bucket-Chain ht i es j v c },
        lookup-set_bucket ht name other es n o (look other o),
      )

  -- The removal of a name that a valid table does not have is an internal error.
  pub rem_hashentry-absent :
      (ht : HashTable A) (name : List ℕ)
      → IsName name
      → IsValid no_case ht
      → lookup no_case ht name ≡ none
      → rem_hashentry ht name no_case ≡ fatal 0
  unfolding rem_hashentry
  rem_hashentry-absent ht name n v h = ap (unlinked ht (bucket ht name no_case)) (
      unlink-absent ht.size (bucket ht name no_case) no_case name _ n (v.chains _)
        (sym (lookup-bucket ht name) ∙ h))
