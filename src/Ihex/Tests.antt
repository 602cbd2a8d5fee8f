-- ===== src/Ihex/Tests.antt =====
-- An Intel HEX file on which the theorems are applied: three octets at 0x10000.
use vasm_ext.Common.{ℕ, ◌≡◌, refl, arith, true, [], ◌∷◌, ◌++◌, ◌==◌, if◌then◌else◌}
use vasm_ext.Ihex.Record.{record_line, data_line, write_data_record-line}
use vasm_ext.Ihex.{Ihex, Format, i32hex, write_data_record}

abbrev state : Format → ℕ → Ihex
state format ext_addr = record {
  file = [];
  errors = [];
  buffer = 1 ∷ 2 ∷ 10 ∷ [];
  buffer_s = 32;
  addr = 0x10003;
  ext_addr = ext_addr;
  ihex_fmt = format;
  asciiout = true;
  junk = (0, 0);
}

write_data_record-line_example :
    (write_data_record (state i32hex 0)).file
    ≡ ([] ++ (if 1 == 0 then [] else record_line true (2 ∷ 0 ∷ 0 ∷ 4 ∷ 0 ∷ 1 ∷ [])))
      ++ data_line true 0 (1 ∷ 2 ∷ 10 ∷ [])
write_data_record-line_example =
    write_data_record-line (state i32hex 0) refl (omega arith) (omega arith) (omega arith)
