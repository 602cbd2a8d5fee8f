-- ===== src/Symbols/Label.antt =====
-- `new_labsym`: labels of a section.
use vasm_ext.Common.{
  ℕ, suc, Bool, true, false, not, ◌&&◌, Option, none, some, List, [], ◌∷◌, ◌++◌, ◌==◌,
  if◌then◌else◌,
}
use vasm_ext.Expression.State.{labsym, Symbol, is_import}
use vasm_ext.SymTab.{HashTable, find_name_nc}
use vasm_ext.Symbols.{
  Table, set_entry, general_error, find_symbol, tail, is_local_symbol_name, make_local_label,
  new_entry, allocate, new_import,
}

-- What `new_labsym` reads of a section, and HAS_SYMBOLS, which it sets.
pub record LabelSection : Type 0 where
  pub name : List ℕ
  pub pc : ℕ
  pub absolute : Bool
  pub labels_are_local : Bool
  pub has_symbols : Bool

-- The tables of mnemonics and directives, and the options that their check depends on.
pub record Reserved : Type 0 where
  pub mnemohash : HashTable ℕ
  pub dirhash : HashTable ℕ
  pub chklabels : Bool
  pub dotdirs : Bool

abbrev pub is_found : Option ℕ → Bool
is_found none = false
is_found (some n) = true

abbrev pub starts_with_dot : List ℕ → Bool
starts_with_dot [] = false
starts_with_dot (c ∷ cs) = c == 46

-- The message for a name of a mnemonic or of a directive.
unfoldable pub check_label : Reserved → List ℕ → List ℕ
check_label r name =
    let is_directive =
      if r.dotdirs
      then starts_with_dot name && is_found (find_name_nc r.dirhash (tail name)).0
      else is_found (find_name_nc r.dirhash name).0 in
    if not r.chklabels
    then []
    else if is_found (find_name_nc r.mnemohash name).0
    then 39 ∷ []
    else if is_directive
    then 40 ∷ []
    else []

-- The symbol for the label: a new one, the import of the name, or, with message 74, a copy of the
-- symbol that is there, which is in no list.
abbrev pub label_found : List ℕ → Option ℕ → Table → ℕ × Table
label_found name none t = allocate t (new_entry name labsym)
label_found name (some p) t =
    let e = t.store p in
    if is_import e.body.type then (p, if e.xref then general_error 85 t else t) else (
      t.fresh,
      general_error 74 (record t { store = set_entry t.store t.fresh e; fresh = suc t.fresh }),
    )

-- The symbol becomes a label at the section's pc.
abbrev pub define_label : LabelSection → ℕ → List ℕ → ℕ × Table → ℕ × Table
define_label section sec name (n, t) =
    let e = t.store n in
    let body : Symbol = record e.body {
      type = labsym;
      sec = some sec;
      pc = section.pc;
      abslabel = section.absolute;
    } in
    (
      n,
      record t {
        store = set_entry t.store n (record e { body = body });
        last_global_label = if is_local_symbol_name name then t.last_global_label else e.name;
      },
    )

-- In a section with local labels the name gets a dot and the section's name as its scope.
abbrev pub label_name : Table → LabelSection → List ℕ → List ℕ
label_name s section name =
    if section.labels_are_local then make_local_label s section.name (46 ∷ name) else name

unfoldable pub label_in : Table → (ℕ → LabelSection) → ℕ → List ℕ → ℕ × Table × (ℕ → LabelSection)
label_in s sections sec name =
    let section = sections sec in
    let full = label_name s section name in
    let (n, t) =
      define_label section sec full
        (label_found full (find_symbol s full).0 (find_symbol s full).1) in
    (n, t, λ k. if k == sec then record section { has_symbols = true } else sections k)

-- `default` is what `default_section` returns. With no section the symbol is an import.
unfoldable pub new_labsym :
    Table
    → Reserved
    → (ℕ → LabelSection)
    → Option ℕ
    → Option ℕ
    → List ℕ
    → ℕ × Table × (ℕ → LabelSection)
new_labsym s r sections default sec name =
    let t = record s { errors = s.errors ++ check_label r name } in
    let (n, u) = new_import (general_error 3 t) name in
    elim sec [
      | some k ↦ label_in t sections k name
      | none ↦ elim default [ some k ↦ label_in t sections k name | none ↦ (n, u, sections) ]
    ]
