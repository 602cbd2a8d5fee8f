-- ===== src/SymTab/Prefix.antt =====
-- The lookups of a name that stands in a longer text find what those of the name itself find.
use vasm_ext.Common.Chars.{tolower, char, strcmp_eq, strncmp_eq, IsName}
use vasm_ext.Common.{
  ℕ, zero, suc, ◌≡◌, refl, sym, ap, ◌∙◌, ◌≤◌, ◌+◌, arith, Bool, true, false, ◌&&◌, List, [], ◌∷◌,
  ◌==◌, Bool-cases, inl, inr, length, take, drop,
}
use vasm_ext.Names.{stricmp, strnicmp, is_zero}
use vasm_ext.SymTab.Key.{difference_zero, tolower_pos}
use vasm_ext.SymTab.Removal.{Chain}
use vasm_ext.SymTab.Table.{IsValid}
use vasm_ext.SymTab.{
  HashEntry, HashTable, hashcode, hashcodelen, hashcode_nc, hashcodelen_nc, hash_from,
  hash_len_from, hash_nc_from, hash_len_nc_from, hash_step, search, found, find_name, find_namelen,
  find_name_nc, find_namelen_nc,
}

hash_len_from-take :
    (len : ℕ) (name : List ℕ) (h : ℕ)
    → len ≤ length name
    → hash_len_from h name len ≡ hash_from h (take len name)
unfolding hash_len_from hash_from
hash_len_from-take zero name h le = refl
hash_len_from-take (suc len) [] h le = absurd (omega arith)
hash_len_from-take (suc len) (c ∷ cs) h le = hash_len_from-take len cs (hash_step h c) (omega arith)

hash_len_nc_from-take :
    (len : ℕ) (name : List ℕ) (h : ℕ)
    → len ≤ length name
    → hash_len_nc_from h name len ≡ hash_nc_from h (take len name)
unfolding hash_len_nc_from hash_nc_from
hash_len_nc_from-take zero name h le = refl
hash_len_nc_from-take (suc len) [] h le = absurd (omega arith)
hash_len_nc_from-take (suc len) (c ∷ cs) h le =
    hash_len_nc_from-take len cs (hash_step h (tolower c)) (omega arith)

strncmp-take :
    (len : ℕ) (name p : List ℕ)
    → len ≤ length name
    → IsName name
    → IsName p
    → (strncmp_eq name p len && (char (drop len p) == 0)) ≡ strcmp_eq (take len name) p
unfolding strncmp_eq strcmp_eq
strncmp-take zero name [] le n np = refl
strncmp-take zero name (d ∷ ds) le n np = ground (arith, np.0)
strncmp-take (suc len) [] p le n np = absurd (omega arith)
strncmp-take (suc len) (c ∷ cs) [] le n np =
    let e : (c == 0) ≡ false = ground (arith, n.0) in rw e refl
strncmp-take (suc len) (c ∷ cs) (d ∷ ds) le n np =
    let e : (c == 0) ≡ false = ground (arith, n.0) in
    elim (Bool-cases (c == d)) [
      | inl t ↦ rw (e, t) (strncmp-take len cs ds (omega arith) n.1 np.1)
      | inr t ↦ rw t refl
    ]

end_of : (p : List ℕ) → IsName p → (char p == 0) ≡ (0 == tolower (char p))
end_of [] n = refl
end_of (d ∷ ds) n = ground (arith, n.0)

strnicmp-take :
    (len : ℕ) (name p : List ℕ)
    → len ≤ length name
    → IsName name
    → IsName p
    → (is_zero (strnicmp name p len) && (char (drop len p) == 0))
      ≡ is_zero (stricmp (take len name) p)
unfolding strnicmp stricmp
strnicmp-take zero name [] le n np = refl
strnicmp-take zero name (d ∷ ds) le n np =
    (ground (arith, np.0, tolower_pos d np.0)) ∙ sym (difference_zero 0 (tolower d))
strnicmp-take (suc len) [] p le n np = absurd (omega arith)
strnicmp-take (suc zero) (c ∷ cs) [] le n np =
    let e : (tolower c == 0) ≡ false = ground (arith, tolower_pos c n.0) in
    rw (e, difference_zero (tolower c) 0, e) refl
strnicmp-take (suc zero) (c ∷ cs) (d ∷ ds) le n np = elim (Bool-cases (tolower c == tolower d)) [
  | inl t ↦
      rw (t, difference_zero (tolower c) (tolower d), t, difference_zero 0 (tolower (char ds)))
        (end_of ds np.1)
  | inr t ↦ rw (t, difference_zero (tolower c) (tolower d), t) refl
]
strnicmp-take (suc (suc len)) (c ∷ cs) [] le n np =
    let e : (tolower c == 0) ≡ false = ground (arith, tolower_pos c n.0) in
    rw (e, difference_zero (tolower c) 0, e) refl
strnicmp-take (suc (suc len)) (c ∷ cs) (d ∷ ds) le n np =
    let e : (c == 0) ≡ false = ground (arith, n.0) in
    elim (Bool-cases (tolower c == tolower d)) [
      | inl t ↦ rw (e, t) (strnicmp-take (suc len) cs ds (omega arith) n.1 np.1)
      | inr t ↦ rw (t, difference_zero (tolower c) (tolower d), t) refl
    ]

module _ {A : Type 0} where
  search_same :
      (size i : ℕ) (no_case : Bool) (test test' : List ℕ → Bool) (es : List (HashEntry A))
      → ((p : List ℕ) → IsName p → test p ≡ test' p)
      → Chain size no_case i es
      → search test es ≡ search test' es
  unfolding search Chain
  search_same size i no_case test test' [] h c = refl
  search_same size i no_case test test' (e ∷ es) h (ne, s, f, c) =
      rw (h e.name ne, search_same size i no_case test test' es h c) refl

  module _ (ht : HashTable A) (name : List ℕ) (len : ℕ) (le : len ≤ length name)
      (n : IsName name) where
    -- In a valid table, the lookup of the first `len` octets of a text, none of which is 0, is that
    -- of the name which they are, with the same count of collisions.
    pub find_namelen-take :
        IsValid false ht → find_namelen ht name len ≡ find_name ht (take len name)
    unfolding find_namelen find_name found hashcodelen hashcode
    find_namelen-take v = rw (hash_len_from-take len name 5381 le) (
        ap (λ r. (r.0, record ht { collisions = ht.collisions + r.1 }))
          (search_same ht.size _ false _ _ _ (λ p np. strncmp-take len name p le n np)
            (v.chains _)))

    -- In a valid table without case, the lookup of the first `len` octets of a text, none of which
    -- is 0, is that of the name which they are, with the same count of collisions.
    pub find_namelen_nc-take :
        IsValid true ht → find_namelen_nc ht name len ≡ find_name_nc ht (take len name)
    unfolding find_namelen_nc find_name_nc found hashcodelen_nc hashcode_nc
    find_namelen_nc-take v = rw (hash_len_nc_from-take len name 5381 le) (
        ap (λ r. (r.0, record ht { collisions = ht.collisions + r.1 }))
          (search_same ht.size _ true _ _ _ (λ p np. strnicmp-take len name p le n np)
            (v.chains _)))
