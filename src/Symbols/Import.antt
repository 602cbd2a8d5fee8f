-- ===== src/Symbols/Import.antt =====
-- The symbol that `new_import` returns.
use vasm_ext.Common.Chars.{IsName}
use vasm_ext.Common.{
  ℕ, suc, ◌≡◌, arith, ◌==◌, ◌||◌, ◌∷◌, refl, sym, ap, ◌∙◌, Bool, true, false, Option, none, some,
  List, if◌then◌else◌,
}
use vasm_ext.Expression.State.{import}
use vasm_ext.SymTab.Key.{matches, matches_of_key}
use vasm_ext.SymTab.Lookup.{lookup, lookup-search, lookup-add_hashentry}
use vasm_ext.SymTab
use vasm_ext.SymTab.{HashTable, find_name, find_name_nc}
use vasm_ext.Symbols.{Table, add_symbol, allocate, find_symbol, new_entry, new_import, import_found}

-- The symbol `n` and the table that `new_import` returns, when the search of the name gave `r`. A
-- new symbol is an import, which has no flags and no section.
pub data Imported (s t : Table) (name : List ℕ) : ℕ → Option ℕ → Type 0 where
  known :
      {p : ℕ}
      → t.store ≡ s.store
      → t.list ≡ s.list
      → t.fresh ≡ s.fresh
      → Imported s t name p (some p)
  added :
      t.fresh ≡ suc s.fresh
      → t.list ≡ s.fresh ∷ s.list
      → (λ m. if m == s.fresh then t.store s.fresh else s.store m) ≡ t.store
      → (t.store s.fresh).name ≡ name
      → (t.store s.fresh).body.type ≡ import
      → (t.store s.fresh).body.sec ≡ none
      → ((t.store s.fresh).body.export || (t.store s.fresh).body.weak) ≡ false
      → Imported s t name s.fresh none

-- A lookup changes the count of collisions only.
counted :
    (b : Bool) (ht : HashTable ℕ) (name other : List ℕ)
    → lookup b (if b then find_name_nc ht name else find_name ht name).1 other ≡ lookup b ht other
unfolding find_name find_name_nc SymTab.found
counted true ht name other =
    lookup-search true (find_name_nc ht name).1 other ∙ sym (lookup-search true ht other)
counted false ht name other =
    lookup-search false (find_name ht name).1 other ∙ sym (lookup-search false ht other)

found-lookup :
    (b : Bool) (ht : HashTable ℕ) (name : List ℕ)
    → (if b then find_name_nc ht name else find_name ht name).0 ≡ lookup b ht name
found-lookup true ht name = refl
found-lookup false ht name = refl

find_symbol-lookup :
    (s : Table) (name : List ℕ) → (find_symbol s name).0 ≡ lookup s.nocase s.symhash name
unfolding find_symbol
find_symbol-lookup s name = found-lookup s.nocase s.symhash name

-- The table after a search.
abbrev searched : Table → List ℕ → Table
searched s name = (find_symbol s name).1

searched-lookup :
    (s : Table) (name other : List ℕ)
    → (find_symbol (searched s name) other).0 ≡ (find_symbol s other).0
unfolding find_symbol
searched-lookup s name other =
    found-lookup s.nocase _ other
    ∙ counted s.nocase s.symhash name other
    ∙ sym (found-lookup s.nocase s.symhash other)

allocate-find_symbol :
    (s : Table) (name other : List ℕ)
    → IsName name
    → IsName other
    → (find_symbol (allocate s (new_entry name import)).1 other).0
      ≡ (if matches s.nocase other name then some s.fresh else (find_symbol s other).0)
unfolding find_symbol allocate add_symbol
allocate-find_symbol s name other n o =
    let here : (s.fresh == s.fresh) ≡ true = ground arith in
    rw here (
      found-lookup s.nocase _ other
      ∙ lookup-add_hashentry s.debug s.nocase s.symhash name other s.fresh n o
      ∙ ap (λ r. if matches s.nocase other name then some s.fresh else r)
          (sym (found-lookup s.nocase s.symhash other)))

added-find_symbol :
    (s : Table) (name other : List ℕ)
    → IsName name
    → IsName other
    → (find_symbol (allocate (searched s name) (new_entry name import)).1 other).0 ≡ (
        if matches s.nocase other name
        then some (searched s name).fresh
        else (find_symbol s other).0)
unfolding find_symbol
added-find_symbol s name other n o =
    allocate-find_symbol (searched s name) name other n o
    ∙ ap (λ r. if matches s.nocase other name then some (searched s name).fresh else r)
        (searched-lookup s name other)

import-find_symbol :
    (s : Table) (name other : List ℕ)
    → IsName name
    → IsName other
    → matches s.nocase other name ≡ false
    → (r : Option ℕ) → (find_symbol s name).0 ≡ r
    → (let (n, t) = import_found name r (searched s name) in
        ((find_symbol t name).0 ≡ some n) × ((find_symbol t other).0 ≡ (find_symbol s other).0))
unfolding allocate
import-find_symbol s name other n o differs (some p) e =
    (searched-lookup s name name ∙ e, searched-lookup s name other)
import-find_symbol s name other n o differs none e =
    let same = matches_of_key s.nocase name name n n refl in
    (
      added-find_symbol s name name n n
          ∙ ap (λ b. if b then some (searched s name).fresh else (find_symbol s name).0) same,
      added-find_symbol s name other n o
          ∙ ap (λ b. if b then some (searched s name).fresh else (find_symbol s other).0) differs,
    )

-- What a search and an allocation leave.
import_found-Imported :
    (s : Table) (name : List ℕ) (r : Option ℕ)
    → (let (n, t) = import_found name r (searched s name) in Imported s t name n r)
unfolding find_symbol allocate add_symbol
import_found-Imported s name (some p) = known refl refl refl
import_found-Imported s name none =
    let here : (s.fresh == s.fresh) ≡ true = ground arith in
    let store = λ (b : Bool) (m : ℕ).
      if m == s.fresh then (if b then new_entry name import else s.store s.fresh) else s.store m in
    added refl refl (ap store here) (rw here refl) (rw here refl) (rw here refl) (rw here refl)

-- A symbol of the name, defined or not, is returned as it is; else a new import is put in front of
-- the list, and no other symbol changes. The symbol that is returned is then found by the name, and
-- the lookup of a name that does not match it gives what it gave. The names have no octet that is 0.
pub new_import-find_symbol :
    (s : Table) (name other : List ℕ)
    → IsName name
    → IsName other
    → matches s.nocase other name ≡ false
    → (let (n, t) = new_import s name in
        Imported s t name n (find_symbol s name).0
        × ((find_symbol t name).0 ≡ some n)
        × ((find_symbol t other).0 ≡ (find_symbol s other).0))
unfolding new_import
new_import-find_symbol s name other n o differs =
    let kept = import-find_symbol s name other n o differs _ refl in
    (import_found-Imported s name (find_symbol s name).0, kept.0, kept.1)
