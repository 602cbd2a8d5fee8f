-- ===== src/Symbols.antt =====
-- symbol.c: the list of the symbols and their hash table, and the names of local labels. A pointer
-- to a symbol is its number in the store; a null pointer is `none`. A name is the list of its
-- octets.
pub mod Local
pub mod Import
pub mod Restore
pub mod Label
pub mod Register
mod Tests
use vasm_ext.Common.Run.{Run, ok, fatal, ◌>>=◌}
use vasm_ext.Common.{
  ℕ, zero, suc, ◌+◌, Bool, true, false, not, ◌&&◌, ◌||◌, Option, none, some, List, [], ◌∷◌, ◌++◌,
  ◌==◌, if◌then◌else◌,
}
use vasm_ext.Expression.State.{
  SymbolType, labsym, import, expression, Symbol, Section, is_labsym, is_import,
}
use vasm_ext.Expression.{Expr}
use vasm_ext.SymTab.{HashTable, add_hashentry, rem_hashentry, find_name, find_name_nc}

-- A symbol with its name and the flags EQUATE, PROTECTED and XREF.
pub record Entry : Type 0 where
  pub name : List ℕ
  pub body : Symbol
  pub equate : Bool
  pub protected : Bool
  pub xref : Bool

-- The static variables: `first_symbol` with the `next` pointers is a list, and `store n` is the
-- memory of the symbol `n`. A new symbol gets the number `fresh`. `nocase` and `debug` are globals.
pub record Table : Type 0 where
  pub store : ℕ → Entry
  pub fresh : ℕ
  pub list : List ℕ
  pub symhash : HashTable ℕ
  pub saved_symbol : Option ℕ
  pub last_global_label : List ℕ
  pub nocase : Bool
  pub debug : Bool
  pub errors : List ℕ

abbrev pub set_entry : (ℕ → Entry) → ℕ → Entry → ℕ → Entry
set_entry store n e m = if m == n then e else store m

abbrev pub general_error : ℕ → Table → Table
general_error n s = record s { errors = s.errors ++ n ∷ [] }

unfoldable pub add_symbol : Table → ℕ → Table
add_symbol s p = record s {
  list = p ∷ s.list;
  symhash = add_hashentry s.debug s.symhash (s.store p).name p s.nocase;
}

-- The list without the first node of the symbol.
unfoldable pub unlist : ℕ → List ℕ → List ℕ
unlist symp [] = []
unlist symp (p ∷ ps) = let later = unlist symp ps in if p == symp then ps else p ∷ later

unfoldable pub rem_symbol : Table → ℕ → Run Table
rem_symbol s symp = rem_hashentry s.symhash (s.store symp).name s.nocase >>= λ ht.
    ok (record s { list = unlist symp s.list; symhash = ht })

-- The symbol, and the table, in which the collisions are counted.
unfoldable pub find_symbol : Table → List ℕ → Option ℕ × Table
find_symbol s name =
    let (d, ht) = if s.nocase then find_name_nc s.symhash name else find_name s.symhash name in
    (d, record s { symhash = ht })

unfoldable pub refer_symbol : Table → ℕ → List ℕ → Table
refer_symbol s sym refname = record s {
  symhash = add_hashentry s.debug s.symhash refname sym s.nocase;
}

abbrev pub first_symbol : List ℕ → Option ℕ
first_symbol [] = none
first_symbol (p ∷ ps) = some p

unfoldable pub save_symbols : Table → Table
save_symbols s = record s { saved_symbol = first_symbol s.list }

-- `null_access` is the read through the null pointer at the end of the list, if the symbol that was
-- saved is not in it.
pub data Restored : Type 0 where
  restored : Table → Restored
  internal_error : ℕ → Restored
  null_access : Restored

abbrev pub with_list : List ℕ → Table → Table
with_list l s = record s { list = l }

-- The table without an entry, or the internal error.
abbrev pub and_then : Run (HashTable ℕ) → (HashTable ℕ → Restored) → Restored
and_then (ok ht) f = f ht
and_then (fatal n) f = internal_error n

-- The loop, with the list that is left and the protected symbols that were kept.
unfoldable pub restore_loop : ℕ → List ℕ → List ℕ → Table → Restored
restore_loop saved kept [] s = null_access
restore_loop saved kept (p ∷ ps) s =
    let keep = restore_loop saved (p ∷ kept) ps s in
    let removed = λ (ht : HashTable ℕ). restore_loop saved kept ps (record s { symhash = ht }) in
    if p == saved
    then restored (record s { list = kept ++ p ∷ ps; saved_symbol = none })
    else if (s.store p).protected
    then keep
    else and_then (rem_hashentry s.symhash (s.store p).name s.nocase) removed

-- Nothing is done when the list was empty, or not saved.
abbrev pub restore_saved : Option ℕ → Table → Restored
restore_saved none s = restored s
restore_saved (some saved) s = restore_loop saved [] s.list s

unfoldable pub restore_symbols : Table → Restored
restore_symbols s = restore_saved s.saved_symbol s

-- Whether an entry that is found is defined here, and no import.
abbrev pub is_defined : (ℕ → Entry) → Option ℕ → Bool
is_defined store none = false
is_defined store (some n) = not (is_import (store n).body.type)

-- Message 67 for a symbol that is defined already.
unfoldable pub check_symbol : Table → List ℕ → Bool × Table
check_symbol s name =
    let (n, t) = find_symbol s name in
    if is_defined s.store n then (true, general_error 67 t) else (false, t)

unfoldable pub set_last_global_label : Table → List ℕ → List ℕ × Table
set_last_global_label s name = (s.last_global_label, record s { last_global_label = name })

-- `strchr(name,' ')`: the rest of the name from its first space on.
unfoldable pub from_space : List ℕ → Option (List ℕ)
from_space [] = none
from_space (c ∷ cs) = let later = from_space cs in if c == 32 then some (c ∷ cs) else later

abbrev pub tail : List ℕ → List ℕ
tail [] = []
tail (c ∷ cs) = cs

abbrev pub has_space : Option (List ℕ) → Bool
has_space none = false
has_space (some r) = true

unfoldable pub is_local_symbol_name : List ℕ → Bool
is_local_symbol_name [] = false
is_local_symbol_name (c ∷ cs) = (c == 32) && has_space (from_space cs)

abbrev pub after_space : Option (List ℕ) → List ℕ
after_space none = []
after_space (some r) = tail r

unfoldable pub real_symbol_name : List ℕ → List ℕ
real_symbol_name name =
    if is_local_symbol_name name then after_space (from_space (tail name)) else name

abbrev pub is_empty : List ℕ → Bool
is_empty [] = true
is_empty (c ∷ cs) = false

unfoldable pub make_local_label : Table → List ℕ → List ℕ → List ℕ
make_local_label s glob loc = 32 ∷ (if is_empty glob then s.last_global_label else glob) ++ 32 ∷ loc

-- A new symbol, whose flags are 0.
abbrev pub new_entry : List ℕ → SymbolType → Entry
new_entry name t = record {
  name = name;
  body = record {
    type = t;
    weak = false;
    abslabel = false;
    ineval = false;
    export = false;
    referenced = false;
    sec = none;
    pc = 0;
  };
  equate = false;
  protected = false;
  xref = false;
}

-- The memory of a new symbol, which is added to the list and the table.
unfoldable pub allocate : Table → Entry → ℕ × Table
allocate s e =
    let n = s.fresh in (n, add_symbol (record s { store = set_entry s.store n e; fresh = suc n }) n)

abbrev pub is_expression : SymbolType → Bool
is_expression labsym = false
is_expression import = false
is_expression (expression e) = true

-- A symbol that exists: message 67 for an equate, 5 for a label.
abbrev pub redefine : Table → ℕ → Expr → ℕ × Table
redefine s n tree =
    let e = s.store n in
    let equ = if e.equate then general_error 67 s else s in
    let lab = if is_labsym e.body.type then general_error 5 equ else equ in
    (
      n,
      record lab {
        store =
            set_entry lab.store n
              (record e { body = record e.body { type = expression tree; sec = none } });
      },
    )

-- What the functions do with the symbol that was found.
abbrev pub abs_found : List ℕ → Expr → Option ℕ → Table → ℕ × Table
abs_found name tree none t = allocate t (new_entry name (expression tree))
abs_found name tree (some p) t = redefine t p tree

abbrev pub import_found : List ℕ → Option ℕ → Table → ℕ × Table
import_found name none t = allocate t (new_entry name import)
import_found name (some p) t = (p, t)

unfoldable pub new_abs : Table → List ℕ → Expr → ℕ × Table
new_abs s name tree = abs_found name tree (find_symbol s name).0 (find_symbol s name).1

unfoldable pub new_equate : Table → List ℕ → Expr → ℕ × Table
new_equate s name tree =
    let checked = check_symbol s name in
    let (n, t) = new_abs checked.1 name tree in
    (n, record t { store = set_entry t.store n (record (t.store n) { equate = true }) })

unfoldable pub new_import : Table → List ℕ → ℕ × Table
new_import s name = import_found name (find_symbol s name).0 (find_symbol s name).1

-- The binding, as the words of the source: EXPORT, WEAK and LOCAL.
pub data BindName : Type 0 where
  global_bind : BindName
  weak_bind : BindName
  local_bind : BindName
  unknown_bind : BindName

unfoldable pub get_bind_name : Symbol → Bool → BindName
get_bind_name p local =
    if p.export
    then global_bind
    else if p.weak
    then weak_bind
    else if local
    then local_bind
    else unknown_bind
