-- ===== src/Vobj/Record.antt =====
-- The dumper reads the symbols of a VOBJ file back.
use mathlib.Core.List.{append_assoc, append-nil}
use native.Mathlib.Nat.{mod-eq_of_lt}
use vasm_ext.Common.Octets.{IsOctets}
use vasm_ext.Common.Chars.{IsName}
use vasm_ext.Common.{
  ℕ, ◌+◌, ◌%◌, ◌^◌, ◌<◌, ◌≡◌, refl, sym, ap, ◌∙◌, arith, Bool, true, false, some, List, [], ◌∷◌,
  ◌++◌, map, length, ◌-◌, ◌==◌, if◌then◌else◌, inl, inr, Bool-cases,
}
use vasm_ext.Supp.{fw8}
use vasm_ext.Vobj.Number.{read_number-write_number, write_number-append}
use vasm_ext.Vobj.Sign.{Readable}
use vasm_ext.Vobj.Symbol.{
  OutputSymbol, VobjSymbol, type_number, section_index, size_or_index, get_sym_value, sym_valid,
  write_symbol, write_symbols, number_symbols, read_symbol, read_symbols, OutputType, labsym,
  import, expression,
}
use vasm_ext.Vobj.{write_number, write_string, read_number, skip_string}

pub write_string-append : (f s : List ℕ) → write_string f s ≡ f ++ write_string [] s
unfolding write_string fw8
write_string-append f [] = refl
write_string-append f (c ∷ s) =
    rw
      (
        write_string-append (f ++ c % 2 ^ 8 ∷ []) s,
        write_string-append (c % 2 ^ 8 ∷ []) s,
        append_assoc,
      )
      refl

-- A string of octets that are not 0 is read back.
pub skip_string-write_string :
    (s rest : List ℕ)
    → IsName s
    → IsOctets s
    → skip_string (write_string [] s ++ rest) ≡ some (s, rest)
unfolding skip_string write_string fw8
skip_string-write_string [] rest n o = refl
skip_string-write_string (c ∷ s) rest n o =
    let octet : c % 2 ^ 8 ≡ c = mod-eq_of_lt o.0 in
    let more : (c == 0) ≡ false = ground arith in
    rw (octet, write_string-append (c ∷ []) s, more, skip_string-write_string s rest n.1 o.1) refl

-- What the octets of a symbol can hold.
pub record IsWritable (bits : ℕ) (s : OutputSymbol) : Type 0 where
  pub name_octets : IsOctets s.name
  pub name_chars : IsName s.name
  pub flags_lt : s.flags < 2 ^ 32
  pub sec_lt : section_index s < 2 ^ 31
  pub val_lt : get_sym_value s < 2 ^ 64
  pub val_readable : Readable bits true (get_sym_value s)
  pub size_lt : size_or_index s < 2 ^ 64

-- What is read of a symbol: its numbers, but the lower 32 bits of the size.
pub as_read : OutputSymbol → VobjSymbol
as_read s = record {
  name = s.name;
  type = type_number s.type;
  flags = s.flags;
  sec = section_index s;
  val = get_sym_value s;
  size = size_or_index s % 2 ^ 32;
}

type_lt : (t : OutputType) → type_number t < 4
type_lt labsym = omega arith
type_lt import = omega arith
type_lt expression = omega arith

pub after_number :
    (version val : ℕ) {f g : List ℕ}
    → f ≡ g
    → write_number version f val ≡ g ++ write_number version [] val
after_number version val {f} {g} e =
    ap (λ l. write_number version l val) e ∙ write_number-append version g val

-- The octets of a symbol.
symbol_octets :
    (version : ℕ) (f : List ℕ) (s : OutputSymbol)
    → write_symbol version f s
      ≡ f
        ++ write_string [] s.name
        ++ write_number version [] (type_number s.type)
        ++ write_number version [] s.flags
        ++ write_number version [] (section_index s)
        ++ write_number version [] (get_sym_value s)
        ++ write_number version [] (size_or_index s)
unfolding write_symbol
symbol_octets version f s = after_number version (size_or_index s) (
    after_number version (get_sym_value s) (
      after_number version (section_index s) (
        after_number version s.flags
          (after_number version (type_number s.type) (write_string-append f s.name)))))

pub unsigned :
    (version bits val : ℕ) (rest : List ℕ)
    → val < 2 ^ 64
    → read_number bits false (write_number version [] val ++ rest) ≡ some (val, rest)
unsigned version bits val rest h = read_number-write_number version bits false val rest h (inl refl)

pub read_symbol-write_symbol :
    (version bits : ℕ) (s : OutputSymbol) (rest : List ℕ)
    → IsWritable bits s
    → read_symbol bits (write_symbol version [] s ++ rest) ≡ some (as_read s, rest)
unfolding read_symbol as_read
read_symbol-write_symbol version bits s rest w =
    let n = λ (v : ℕ). write_number version [] v in
    let type = type_number s.type in
    let r₁ = n (size_or_index s) ++ rest in
    let r₂ = n (get_sym_value s) ++ r₁ in
    let r₃ = n (section_index s) ++ r₂ in
    let r₄ = n s.flags ++ r₃ in
    let r₅ = n type ++ r₄ in
    let small : type % 2 ^ 32 ≡ type = omega (arith, type_lt s.type) in
    let flags : s.flags % 2 ^ 32 ≡ s.flags = mod-eq_of_lt w.flags_lt in
    let sec : section_index s % 2 ^ 32 ≡ section_index s = omega (arith, w.sec_lt) in
    rw
      (
        symbol_octets version [] s,
        append_assoc
            (write_string [] s.name
              ++ n type
              ++ n s.flags
              ++ n (section_index s)
              ++ n (get_sym_value s))
            (n (size_or_index s)) rest,
        append_assoc (write_string [] s.name ++ n type ++ n s.flags ++ n (section_index s))
            (n (get_sym_value s)) r₁,
        append_assoc (write_string [] s.name ++ n type ++ n s.flags) (n (section_index s)) r₂,
        append_assoc (write_string [] s.name ++ n type) (n s.flags) r₃,
        append_assoc (write_string [] s.name) (n type) r₄,
        skip_string-write_string s.name r₅ w.name_chars w.name_octets,
        unsigned version bits type r₄ (omega (arith, type_lt s.type)),
        unsigned version bits s.flags r₃ (omega (arith, w.flags_lt)),
        unsigned version bits (section_index s) r₂ (omega (arith, w.sec_lt)),
        read_number-write_number version bits true (get_sym_value s) r₁ w.val_lt w.val_readable,
        unsigned version bits (size_or_index s) rest w.size_lt,
        small,
        flags,
        sec,
      )
      refl

write_symbol-append :
    (version : ℕ) (f : List ℕ) (s : OutputSymbol)
    → write_symbol version f s ≡ f ++ write_symbol version [] s
write_symbol-append version f s =
    let n = λ (v : ℕ). write_number version [] v in
    let type = type_number s.type in
    let q = write_string [] s.name in
    symbol_octets version f s ∙ rw (symbol_octets version [] s) (simp append_assoc)

-- The symbols that are written.
unfoldable pub valid : Bool → List OutputSymbol → List OutputSymbol
valid no_symbols [] = []
valid no_symbols (s ∷ rest) =
    if sym_valid no_symbols s then s ∷ valid no_symbols rest else valid no_symbols rest

abbrev pub AllWritable : ℕ → List OutputSymbol → Type 0
AllWritable bits [] = Unit
AllWritable bits (s ∷ rest) = IsWritable bits s × AllWritable bits rest

write_symbols-append :
    (version : ℕ) (no_symbols : Bool) (f : List ℕ) (l : List OutputSymbol)
    → (write_symbols version no_symbols f l).0 ≡ f ++ (write_symbols version no_symbols [] l).0
unfolding write_symbols
write_symbols-append version no_symbols f [] = sym (append-nil f)
write_symbols-append version no_symbols f (s ∷ rest) = elim (Bool-cases (sym_valid no_symbols s)) [
  | inl e ↦
      rw
        (
          e,
          write_symbols-append version no_symbols (write_symbol version f s) rest,
          write_symbols-append version no_symbols (write_symbol version [] s) rest,
          write_symbol-append version f s,
          append_assoc,
        )
        refl
  | inr e ↦ rw e (write_symbols-append version no_symbols f rest)
]

number_symbols-valid :
    (no_symbols : Bool) (n : ℕ) (l : List OutputSymbol)
    → (number_symbols no_symbols n l).1 ≡ n + length (valid no_symbols l)
unfolding number_symbols valid
number_symbols-valid no_symbols n [] = omega arith
number_symbols-valid no_symbols n (s ∷ rest) = elim (Bool-cases (sym_valid no_symbols s)) [
  | inl e ↦ rw e (omega (arith, number_symbols-valid no_symbols (n + 1) rest))
  | inr e ↦ rw e (number_symbols-valid no_symbols n rest)
]

read_valid :
    (version bits : ℕ) (no_symbols : Bool) (l : List OutputSymbol) (rest : List ℕ)
    → AllWritable bits (valid no_symbols l)
    → read_symbols
        (length (valid no_symbols l))
        bits
        ((write_symbols version no_symbols [] l).0 ++ rest)
      ≡ some (map as_read (valid no_symbols l), rest)
unfolding write_symbols valid read_symbols
read_valid version bits no_symbols [] rest w = refl
read_valid version bits no_symbols (s ∷ l) rest w = elim (Bool-cases (sym_valid no_symbols s)) [
  | inl e ↦
      let ws : AllWritable bits (s ∷ valid no_symbols l) = rw e at w in
      let later = (write_symbols version no_symbols [] l).0 in
      rw
        (
          e,
          write_symbols-append version no_symbols (write_symbol version [] s) l,
          append_assoc (write_symbol version [] s) later rest,
          read_symbol-write_symbol version bits s (later ++ rest) ws.0,
          read_valid version bits no_symbols l rest ws.1,
        )
        refl
  | inr e ↦ rw e (read_valid version bits no_symbols l rest (rw e at w))
]

-- As many symbols as the header counts are read back: those that are written, in their order, up to
-- the size, of which 32 bits are kept; the octets behind them are left.
pub read_symbols-write_symbols :
    (version bits : ℕ) (no_symbols : Bool) (l : List OutputSymbol) (rest : List ℕ)
    → AllWritable bits (valid no_symbols l)
    → read_symbols
        ((number_symbols no_symbols 1 l).1 - 1)
        bits
        ((write_symbols version no_symbols [] l).0 ++ rest)
      ≡ some (map as_read (valid no_symbols l), rest)
read_symbols-write_symbols version bits no_symbols l rest w =
    let count : (number_symbols no_symbols 1 l).1 - 1 ≡ length (valid no_symbols l) =
      omega (arith, number_symbols-valid no_symbols 1 l) in
    rw count (read_valid version bits no_symbols l rest w)
