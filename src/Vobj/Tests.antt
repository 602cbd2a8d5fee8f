-- ===== src/Vobj/Tests.antt =====
-- Numbers, symbols and a header on which the theorems of VOBJ files are applied.
use vasm_ext.Common.{
  ℕ, ◌-◌, ◌^◌, ◌≡◌, refl, arith, true, false, none, some, List, [], ◌∷◌, ◌++◌, map, inl, inr,
}
use vasm_ext.Vobj.Header.{Target, header, write_header, read_header, read_header-write_header}
use vasm_ext.Vobj.Number.{read_number-write_number}
use vasm_ext.Vobj.Record.{IsWritable, valid, as_read, read_symbols-write_symbols}
use vasm_ext.Vobj.Symbol.{
  OutputSymbol, labsym, number_symbols, write_symbols, read_symbols, sym_valid, get_sym_value,
  get_sym_size,
}
use vasm_ext.Supp.{fw8}
use vasm_ext.Vobj.{write_number, write_low_octets, count_octets, needed_octets, read_number}

-- The octets of -2 in version 2, and of 0x1234.
minus_two : write_number 4 [] (2 ^ 64 - 2) ≡ 0xc1 ∷ 0xfe ∷ []
unfolding write_number needed_octets count_octets write_low_octets fw8
minus_two = refl

positive : write_number 4 [] 0x1234 ≡ 0x82 ∷ 0x34 ∷ 0x12 ∷ []
unfolding write_number needed_octets count_octets write_low_octets fw8
positive = refl

read_number-write_number_example :
    read_number 32 true (write_number 4 [] (2 ^ 64 - 300) ++ 7 ∷ []) ≡ some (2 ^ 64 - 300, 7 ∷ [])
read_number-write_number_example =
    read_number-write_number 4 32 true (2 ^ 64 - 300) (7 ∷ []) (omega arith)
      (inr (omega arith, omega arith, inr (omega arith)))

abbrev label : List ℕ → ℕ → OutputSymbol
label name pc = record {
  name = name;
  type = labsym;
  flags = 8;
  sec = some 1;
  pc = pc;
  align = 0;
  expr = 0;
  size = none;
  indir = 0;
}

-- `main`, and a temporary label, which is not written.
abbrev symbols : List OutputSymbol
symbols = label (109 ∷ 97 ∷ 105 ∷ 110 ∷ []) 0x1000 ∷ label (32 ∷ 116 ∷ []) 2 ∷ []

one_valid : valid false symbols ≡ label (109 ∷ 97 ∷ 105 ∷ 110 ∷ []) 0x1000 ∷ []
unfolding valid sym_valid
one_valid = refl

main_IsWritable : IsWritable 32 (label (109 ∷ 97 ∷ 105 ∷ 110 ∷ []) 0x1000)
unfolding get_sym_value get_sym_size
main_IsWritable = record {
  name_octets = omega arith;
  name_chars = omega arith;
  flags_lt = omega arith;
  sec_lt = omega arith;
  val_lt = omega arith;
  val_readable = inr (omega arith, omega arith, inl (omega arith));
  size_lt = omega arith;
}

read_symbols-write_symbols_example :
    read_symbols
      ((number_symbols false 1 symbols).1 - 1)
      32
      ((write_symbols 4 false [] symbols).0 ++ 1 ∷ [])
    ≡ some (map as_read (valid false symbols), 1 ∷ [])
read_symbols-write_symbols_example =
    read_symbols-write_symbols 4 32 false symbols (1 ∷ []) (rw one_valid (main_IsWritable, tt))

abbrev m68k : Target
m68k = record { bigendian = true; bitsperbyte = 8; bytespertaddr = 4; cpuname = 77 ∷ 54 ∷ [] }

read_header-write_header_example :
    read_header (write_header 4 [] m68k 2 5 ++ 3 ∷ [])
    ≡ header (record { ver = 2; target = m68k; nsecs = 2; nsyms = 5 }) (3 ∷ [])
read_header-write_header_example =
    read_header-write_header 4 m68k 2 5 (3 ∷ []) (inr (inl refl))
      (record {
        octets = refl;
        bits = omega arith;
        bitsperbyte_lt = omega arith;
        bytespertaddr_lt = omega arith;
        name_octets = omega arith;
        name_chars = omega arith;
      })
      (omega arith) (omega arith)
