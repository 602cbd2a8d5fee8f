-- ===== src/SymTab/Tests.antt =====
-- Tables on which the theorems of the hash table are applied. The names are `ab`, `aB` and `c`.
use vasm_ext.Common.Chars.{IsName}
use vasm_ext.Common.Run.{ok}
use vasm_ext.Common.{
  ℕ, ◌≡◌, refl, arith, Bool, true, false, none, some, List, [], ◌∷◌, if◌then◌else◌,
}
use vasm_ext.Common.Chars
use vasm_ext.Names
use vasm_ext.SymTab.Key.{matches}
use vasm_ext.SymTab.Lookup.{lookup, lookup-add_hashentry}
use vasm_ext.SymTab.Table.{
  IsValid, new_hashtable-IsValid, add_hashentry-IsValid, lookup-rem_hashentry,
}
use vasm_ext.SymTab.{
  HashTable, new_hashtable, add_hashentry, rem_hashentry, find_name, find_name_nc,
}

abbrev ab : List ℕ
ab = 97 ∷ 98 ∷ []

abbrev a_b : List ℕ
a_b = 97 ∷ 66 ∷ []

abbrev empty : HashTable ℕ
empty = new_hashtable 16

abbrev one : Bool → HashTable ℕ
one no_case = add_hashentry false empty ab 7 no_case

ab-IsName : IsName ab
ab-IsName = omega arith

a_b-IsName : IsName a_b
a_b-IsName = omega arith

empty-lookup : (no_case : Bool) → lookup no_case empty ab ≡ none
unfolding new_hashtable find_name find_name_nc
empty-lookup true = refl
empty-lookup false = refl

one-IsValid : (no_case : Bool) → IsValid no_case (one no_case)
one-IsValid no_case =
    add_hashentry-IsValid no_case false empty ab 7 ab-IsName (new_hashtable-IsValid no_case 16)
      (empty-lookup no_case)

one_found : (no_case : Bool) → lookup no_case (one no_case) ab ≡ some 7
unfolding add_hashentry find_name find_name_nc new_hashtable Chars.strcmp_eq Names.stricmp
one_found true = refl
one_found false = refl

one_not_found : lookup false (one false) a_b ≡ none
unfolding add_hashentry find_name new_hashtable Chars.strcmp_eq
one_not_found = refl

lookup-add_hashentry_example :
    lookup true (one true) a_b ≡ (if matches true a_b ab then some 7 else lookup true empty a_b)
lookup-add_hashentry_example = lookup-add_hashentry false true empty ab a_b 7 ab-IsName a_b-IsName

add_hashentry-IsValid_example : IsValid true (add_hashentry false empty ab 7 true)
add_hashentry-IsValid_example =
    add_hashentry-IsValid true false empty ab 7 ab-IsName (new_hashtable-IsValid true 16)
      (empty-lookup true)

lookup-rem_hashentry_example :
    (ht' : HashTable ℕ) × (rem_hashentry (one true) ab true ≡ ok ht')
    × IsValid true ht'
    × (lookup true ht' a_b ≡ (if matches true a_b ab then none else lookup true (one true) a_b))
lookup-rem_hashentry_example =
    lookup-rem_hashentry true (one true) ab a_b 7 ab-IsName a_b-IsName (one-IsValid true)
      (one_found true)
