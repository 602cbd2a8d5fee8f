-- ===== src/SymTab.antt =====
-- symtab.c: hash tables from names to data.
pub mod Key
pub mod Lookup
pub mod Removal
pub mod Table
pub mod Prefix
mod Tests
use vasm_ext.Common.Chars.{tolower, char, rest, strcmp_eq, strncmp_eq}
use vasm_ext.Common.Run.{Run, ok, fatal}
use vasm_ext.Common.Word.{add64, shl64}
use vasm_ext.Common.{
  ℕ, zero, suc, ◌+◌, ◌%◌, Bool, true, false, ◌&&◌, ◌||◌, Option, none, some, List, [], ◌∷◌, take,
  drop, ◌==◌, if◌then◌else◌,
}
use vasm_ext.Names.{stricmp, strnicmp, is_zero}

-- `hashdata` is what the table's users store.
pub record HashEntry {ℓ} (A : Type ℓ) : Type ℓ where
  pub name : List ℕ
  pub data_of : A

-- A bucket is the list of its entries, from the first on.
pub record HashTable {ℓ} (A : Type ℓ) : Type ℓ where
  pub size : ℕ
  pub entries : ℕ → List (HashEntry A)
  pub collisions : ℕ

unfoldable pub new_hashtable {ℓ} : {A : Type ℓ} → ℕ → HashTable A
new_hashtable size = record { size = size; entries = λ i. []; collisions = 0 }

-- One step of every hash code: `((h << 5) + h) + c`.
abbrev pub hash_step : ℕ → ℕ → ℕ
hash_step h c = add64 (add64 (shl64 h 5) h) c

hash_from : ℕ → List ℕ → ℕ
hash_from h [] = h
hash_from h (c ∷ cs) = hash_from (hash_step h c) cs

unfoldable pub hashcode : List ℕ → ℕ
unfolding hash_from
hashcode name = hash_from 5381 name

hash_len_from : ℕ → List ℕ → ℕ → ℕ
hash_len_from h name zero = h
hash_len_from h name (suc len) = hash_len_from (hash_step h (char name)) (rest name) len

unfoldable pub hashcodelen : List ℕ → ℕ → ℕ
unfolding hash_len_from
hashcodelen name len = hash_len_from 5381 name len

hash_nc_from : ℕ → List ℕ → ℕ
hash_nc_from h [] = h
hash_nc_from h (c ∷ cs) = hash_nc_from (hash_step h (tolower c)) cs

unfoldable pub hashcode_nc : List ℕ → ℕ
unfolding hash_nc_from
hashcode_nc name = hash_nc_from 5381 name

hash_len_nc_from : ℕ → List ℕ → ℕ → ℕ
hash_len_nc_from h name zero = h
hash_len_nc_from h name (suc len) =
    hash_len_nc_from (hash_step h (tolower (char name))) (rest name) len

unfoldable pub hashcodelen_nc : List ℕ → ℕ → ℕ
unfolding hash_len_nc_from
hashcodelen_nc name len = hash_len_nc_from 5381 name len

-- A write to one bucket.
abbrev pub set_bucket {ℓ} :
    {A : Type ℓ} → (ℕ → List (HashEntry A)) → ℕ → List (HashEntry A) → ℕ → List (HashEntry A)
set_bucket f i es j = if i == j then es else f j

module _ {ℓ} {A : Type ℓ} where
  unfoldable pub bucket : HashTable A → List ℕ → Bool → ℕ
  unfolding hashcode hashcode_nc
  bucket ht name no_case = if no_case then hashcode_nc name % ht.size else hashcode name % ht.size

  abbrev add_collisions : Bool → List (HashEntry A) → ℕ → ℕ
  add_collisions false ps n = n
  add_collisions true [] n = n
  add_collisions true (p ∷ ps) n = suc n

  -- `debug` is the global of the same name, with which collisions are counted here.
  unfoldable pub add_hashentry : Bool → HashTable A → List ℕ → A → Bool → HashTable A
  unfolding bucket
  add_hashentry debug ht name d no_case =
      let i = bucket ht name no_case in
      record ht {
        entries = set_bucket ht.entries i (record { name = name; data_of = d } ∷ ht.entries i);
        collisions = add_collisions debug (ht.entries i) ht.collisions;
      }

  -- The bucket without the first entry of the name.
  pub unlink : List ℕ → Bool → List (HashEntry A) → Option (List (HashEntry A))
  unlink name no_case [] = none
  unlink name no_case (p ∷ ps) =
      let later = unlink name no_case ps in
      if strcmp_eq name p.name || (no_case && is_zero (stricmp name p.name))
      then some ps
      else elim later [ none ↦ none | some qs ↦ some (p ∷ qs) ]

  abbrev pub unlinked : HashTable A → ℕ → Option (List (HashEntry A)) → Run (HashTable A)
  unlinked ht i none = fatal 0
  unlinked ht i (some ps) = ok (record ht { entries = set_bucket ht.entries i ps })

  -- A name that is not there is an internal error.
  unfoldable pub rem_hashentry : HashTable A → List ℕ → Bool → Run (HashTable A)
  unfolding bucket unlink
  rem_hashentry ht name no_case =
      let i = bucket ht name no_case in unlinked ht i (unlink name no_case (ht.entries i))

  -- The loop of the lookups: the data of the first entry that passes the test, and the entries
  -- before it, which are the collisions.
  pub search : (List ℕ → Bool) → List (HashEntry A) → Option A × ℕ
  search test [] = (none, 0)
  search test (p ∷ ps) =
      let r = search test ps in if test p.name then (some p.data_of, 0) else (r.0, suc r.1)

  unfoldable pub found : HashTable A → ℕ → (List ℕ → Bool) → Option A × HashTable A
  unfolding search
  found ht i test =
      let r = search test (ht.entries i) in (r.0, record ht { collisions = ht.collisions + r.1 })

  unfoldable pub find_name : HashTable A → List ℕ → Option A × HashTable A
  unfolding found hashcode
  find_name ht name = found ht (hashcode name % ht.size) (λ p. strcmp_eq name p)

  unfoldable pub find_namelen : HashTable A → List ℕ → ℕ → Option A × HashTable A
  unfolding found hashcodelen
  find_namelen ht name len =
      found ht (hashcodelen name len % ht.size)
        (λ p. strncmp_eq name p len && (char (drop len p) == 0))

  unfoldable pub find_name_nc : HashTable A → List ℕ → Option A × HashTable A
  unfolding found hashcode_nc
  find_name_nc ht name = found ht (hashcode_nc name % ht.size) (λ p. is_zero (stricmp name p))

  unfoldable pub find_namelen_nc : HashTable A → List ℕ → ℕ → Option A × HashTable A
  unfolding found hashcodelen_nc
  find_namelen_nc ht name len =
      found ht (hashcodelen_nc name len % ht.size)
        (λ p. is_zero (strnicmp name p len) && (char (drop len p) == 0))
