-- ===== src/Vobj/Symbol.antt =====
-- The symbols of a VOBJ file, as `write_output` writes them and `read_symbol` reads them.
use vasm_ext.Common.{
  ℕ, zero, suc, ◌+◌, ◌%◌, ◌^◌, Bool, true, false, not, ◌&&◌, Option, none, some, List, [], ◌∷◌, ltb,
  ◌==◌, if◌then◌else◌, bit_and,
}
use vasm_ext.Vobj.{write_number, write_string, read_number, skip_string, vobj3}

-- The types of symbols and their numbers: LABSYM, IMPORT and EXPRESSION.
pub data OutputType : Type 0 where
  labsym import expression : OutputType

abbrev pub type_number : OutputType → ℕ
type_number labsym = 1
type_number import = 2
type_number expression = 3

-- A symbol: `flags` is a word of 32 bits, `sec` the index of its section, `expr` and `size` what
-- its trees evaluate to, and `indir` the index of the symbol that an indirect one stands for.
pub record OutputSymbol : Type 0 where
  pub name : List ℕ
  pub type : OutputType
  pub flags : ℕ
  pub sec : Option ℕ
  pub pc : ℕ
  pub align : ℕ
  pub expr : ℕ
  pub size : Option ℕ
  pub indir : ℕ

-- A flag, by its value.
abbrev pub has : OutputSymbol → ℕ → Bool
has s flag = not (bit_and s.flags flag == 0)

abbrev pub export : ℕ
export = 8

abbrev pub common : ℕ
common = 32

abbrev pub vasmintern : ℕ
vasmintern = 256

abbrev pub symindir : ℕ
symindir = 2 ^ 18

abbrev pub symbol_value : OutputType → OutputSymbol → ℕ
symbol_value labsym s = s.pc
symbol_value import s = 0
symbol_value expression s = s.expr

unfoldable pub get_sym_value : OutputSymbol → ℕ
get_sym_value s = if has s common then s.align else symbol_value s.type s

abbrev pub or_zero : Option ℕ → ℕ
or_zero none = 0
or_zero (some n) = n

unfoldable pub get_sym_size : OutputSymbol → ℕ
get_sym_size s = or_zero s.size

abbrev pub is_import : OutputType → Bool
is_import t = type_number t == 2

abbrev pub is_expression : OutputType → Bool
is_expression t = type_number t == 3

abbrev pub starts_with_space : List ℕ → Bool
starts_with_space [] = false
starts_with_space (c ∷ cs) = c == 32

-- TYPE_SECTION is 3.
unfoldable pub sym_valid : Bool → OutputSymbol → Bool
sym_valid no_symbols s =
    if starts_with_space s.name
    then false
    else if has s vasmintern
    then false
    else if no_symbols && not (is_import s.type) && not (has s export) && ltb (bit_and s.flags 7) 3
    then false
    else true

-- The three numbers that differ for an indirect symbol.
abbrev pub is_indirect : OutputSymbol → Bool
is_indirect s = is_expression s.type && has s symindir

abbrev pub section_index : OutputSymbol → ℕ
section_index s = if is_indirect s then 0 else or_zero s.sec

abbrev pub size_or_index : OutputSymbol → ℕ
size_or_index s = if is_indirect s then s.indir else get_sym_size s

unfoldable pub write_symbol : ℕ → List ℕ → OutputSymbol → List ℕ
write_symbol version f s =
    let f₁ = write_string f s.name in
    let f₂ = write_number version f₁ (type_number s.type) in
    let f₃ = write_number version f₂ s.flags in
    let f₄ = write_number version f₃ (section_index s) in
    let f₅ = write_number version f₄ (get_sym_value s) in write_number version f₅ (size_or_index s)

-- The loop over the symbols, with the messages.
unfoldable pub write_symbols : ℕ → Bool → List ℕ → List OutputSymbol → List ℕ × List ℕ
write_symbols version no_symbols f [] = (f, [])
write_symbols version no_symbols f (s ∷ rest) =
    let skipped = write_symbols version no_symbols f rest in
    let (g, messages) = write_symbols version no_symbols (write_symbol version f s) rest in
    if not (sym_valid no_symbols s)
    then skipped
    else (g, if is_indirect s && ltb version vobj3 then 25 ∷ messages else messages)

-- The indices of the symbols from `nsyms` on, and the next one.
unfoldable pub number_symbols : Bool → ℕ → List OutputSymbol → List ℕ × ℕ
number_symbols no_symbols nsyms [] = ([], nsyms)
number_symbols no_symbols nsyms (s ∷ rest) =
    let (idx, next) =
      number_symbols no_symbols (if sym_valid no_symbols s then nsyms + 1 else nsyms) rest in
    ((if sym_valid no_symbols s then nsyms else 0) ∷ idx, next)

-- A symbol that is read; the numbers of type `int` are words of 32 bits.
pub record VobjSymbol : Type 0 where
  pub name : List ℕ
  pub type : ℕ
  pub flags : ℕ
  pub sec : ℕ
  pub val : ℕ
  pub size : ℕ

infixl 5 ◌>>=◌
abbrev pub ◌>>=◌ : {A B : Type 0} → Option A → (A → Option B) → Option B
none >>= f = none
some a >>= f = f a

unfoldable pub read_symbol : ℕ → List ℕ → Option (VobjSymbol × List ℕ)
read_symbol bits p = do
  name ← skip_string p
  type ← read_number bits false name.1
  flags ← read_number bits false type.1
  sec ← read_number bits false flags.1
  val ← read_number bits true sec.1
  size ← read_number bits false val.1
  some (
    record {
      name = name.0;
      type = type.0 % 2 ^ 32;
      flags = flags.0 % 2 ^ 32;
      sec = sec.0 % 2 ^ 32;
      val = val.0;
      size = size.0 % 2 ^ 32;
    },
    size.1,
  )

-- The loop of `vobjdump`.
unfoldable pub read_symbols : ℕ → ℕ → List ℕ → Option (List VobjSymbol × List ℕ)
read_symbols zero bits p = some ([], p)
read_symbols (suc n) bits p = do
  s ← read_symbol bits p
  rest ← read_symbols n bits s.1
  some (s.0 ∷ rest.0, rest.1)
