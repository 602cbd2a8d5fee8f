-- ===== src/Symbols/Register.antt =====
-- The register symbols, which have a hash table of their own.
use vasm_ext.Common.Run.{Run, ok, ◌>>=◌}
use vasm_ext.Common.{
  ℕ, suc, Bool, true, false, Option, none, some, List, [], ◌∷◌, length, ◌==◌, if◌then◌else◌,
}
use vasm_ext.SymTab.{HashTable, add_hashentry, rem_hashentry, find_namelen, find_namelen_nc}

pub record Regsym : Type 0 where
  pub reg_name : List ℕ
  pub reg_type : ℕ
  pub reg_flags : ℕ
  pub reg_num : ℕ

-- A pointer is a number in the store, `fresh` the next one.
pub record Registers : Type 0 where
  pub store : ℕ → Regsym
  pub fresh : ℕ
  pub regsymhash : HashTable ℕ
  pub debug : Bool

abbrev pub set_regsym : (ℕ → Regsym) → ℕ → Regsym → ℕ → Regsym
set_regsym store n r m = if m == n then r else store m

unfoldable pub add_regsym : Registers → ℕ → Bool → Registers
add_regsym s rsym no_case = record s {
  regsymhash = add_hashentry s.debug s.regsymhash (s.store rsym).reg_name rsym no_case;
}

unfoldable pub find_regsym : Registers → List ℕ → ℕ → Option ℕ × Registers
find_regsym s name len =
    let (d, ht) = find_namelen s.regsymhash name len in (d, record s { regsymhash = ht })

unfoldable pub find_regsym_nc : Registers → List ℕ → ℕ → Option ℕ × Registers
find_regsym_nc s name len =
    let (d, ht) = find_namelen_nc s.regsymhash name len in (d, record s { regsymhash = ht })

abbrev pub find_any : Registers → Bool → List ℕ → Option ℕ × Registers
find_any s no_case name =
    if no_case then find_regsym_nc s name (length name) else find_regsym s name (length name)

-- The symbol and the messages.
abbrev pub regsym_found : Registers → Bool → Bool → Regsym → Option ℕ → ℕ × Registers × List ℕ
regsym_found s redef no_case r none =
    let t = record s { store = set_regsym s.store s.fresh r; fresh = suc s.fresh } in
    (s.fresh, add_regsym t s.fresh no_case, [])
regsym_found s redef no_case r (some p) =
    let kept = record r { reg_name = (s.store p).reg_name } in
    if redef then (p, record s { store = set_regsym s.store p kept }, []) else (p, s, 58 ∷ [])

unfoldable pub new_regsym : Registers → Bool → Bool → List ℕ → ℕ → ℕ → ℕ → ℕ × Registers × List ℕ
new_regsym s redef no_case name type flags n =
    let r : Regsym = record { reg_name = name; reg_type = type; reg_flags = flags; reg_num = n } in
    regsym_found (find_any s no_case name).1 redef no_case r (find_any s no_case name).0

-- Whether the symbol was removed, and the messages.
abbrev pub regsym_removed :
    Registers → List ℕ → Bool → ℕ → Option ℕ → Run (Bool × Registers × List ℕ)
regsym_removed s name no_case type none = ok (false, s, 69 ∷ [])
regsym_removed s name no_case type (some p) =
    if (s.store p).reg_type == type
    then (rem_hashentry s.regsymhash name no_case >>= λ ht.
        ok (true, record s { regsymhash = ht }, []))
    else ok (false, s, 70 ∷ [])

unfoldable pub undef_regsym : Registers → List ℕ → Bool → ℕ → Run (Bool × Registers × List ℕ)
undef_regsym s name no_case type =
    regsym_removed (find_any s no_case name).1 name no_case type (find_any s no_case name).0
