-- ===== src/Symbols/Tests.antt =====
-- A table of two symbols, and the theorems at it.
use vasm_ext.Common.Chars.{strcmp_eq}
use vasm_ext.Common.{ℕ, ◌+◌, ◌≡◌, refl, arith, true, false, none, some, [], ◌∷◌}
use vasm_ext.Expression.State.{import}
use vasm_ext.SymTab
use vasm_ext.SymTab.{HashTable, HashEntry, new_hashtable, add_hashentry, find_name, hashcode}
use vasm_ext.SymTab.Lookup.{lookup}
use vasm_ext.SymTab.Table.{IsValid, new_hashtable-IsValid, add_hashentry-IsValid}
use vasm_ext.Symbols.Import.{Imported, new_import-find_symbol}
use vasm_ext.Symbols.Local.{real_symbol_name-make_local_label}
use vasm_ext.Symbols.Restore.{restore_symbols-Restored}
use vasm_ext.Symbols.{
  Table, restored, restore_symbols, find_symbol, new_import, new_entry, make_local_label,
  is_local_symbol_name, real_symbol_name,
}

-- "a", "b", "l"
abbrev empty_table : Table
empty_table = record {
  store = λ n. new_entry ((97 + n) ∷ []) import;
  fresh = 0;
  list = [];
  symhash = new_hashtable 16;
  saved_symbol = none;
  last_global_label = 109 ∷ [];
  nocase = false;
  debug = false;
  errors = [];
}

real_symbol_name-make_local_label_example :
    (is_local_symbol_name (make_local_label empty_table [] (108 ∷ [])) ≡ true)
    × (real_symbol_name (make_local_label empty_table [] (108 ∷ [])) ≡ 108 ∷ [])
real_symbol_name-make_local_label_example =
    real_symbol_name-make_local_label empty_table [] (108 ∷ []) (omega arith)

new_import-find_symbol_example :
    (let (n, t) = new_import empty_table (97 ∷ []) in
      Imported empty_table t (97 ∷ []) n (find_symbol empty_table (97 ∷ [])).0
      × ((find_symbol t (97 ∷ [])).0 ≡ some n)
      × ((find_symbol t (98 ∷ [])).0 ≡ (find_symbol empty_table (98 ∷ [])).0))
unfolding strcmp_eq
new_import-find_symbol_example =
    new_import-find_symbol empty_table (97 ∷ []) (98 ∷ []) (omega arith) (omega arith) refl

-- The symbol 0, "a", is saved; the symbol 1, "b", is added.
abbrev old_hash : HashTable ℕ
old_hash = add_hashentry false (new_hashtable 16) (97 ∷ []) 0 false

abbrev two_symbols : Table
two_symbols = record empty_table {
  list = 1 ∷ 0 ∷ [];
  saved_symbol = some 0;
  symhash = add_hashentry false old_hash (98 ∷ []) 1 false;
}

not_in_empty : lookup {A = ℕ} false (new_hashtable 16) (97 ∷ []) ≡ none
unfolding find_name SymTab.found hashcode strcmp_eq new_hashtable
not_in_empty = refl

not_in_old : lookup false old_hash (98 ∷ []) ≡ none
unfolding find_name SymTab.found hashcode strcmp_eq add_hashentry new_hashtable
not_in_old = refl

two_symbols-IsValid : IsValid false two_symbols.symhash
two_symbols-IsValid =
    add_hashentry-IsValid false false old_hash (98 ∷ []) 1 (omega arith)
      (add_hashentry-IsValid false false (new_hashtable 16) (97 ∷ []) 0 (omega arith)
        (new_hashtable-IsValid false 16) not_in_empty)
      not_in_old

found_b : lookup false two_symbols.symhash (98 ∷ []) ≡ some 1
unfolding find_name SymTab.found hashcode strcmp_eq add_hashentry new_hashtable
found_b = refl

restore_symbols-Restored_example :
    (ht : HashTable ℕ) × (restore_symbols two_symbols
      ≡ restored (record two_symbols { list = 0 ∷ []; saved_symbol = none; symhash = ht }))
    × IsValid false ht
    × (lookup false ht (98 ∷ []) ≡ none)
unfolding strcmp_eq
restore_symbols-Restored_example =
    restore_symbols-Restored 0 [] (1 ∷ []) two_symbols (98 ∷ []) refl refl (refl, tt) (tt, tt)
      (omega arith, (1, found_b), tt) two_symbols-IsValid (omega arith)
