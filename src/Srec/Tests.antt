-- ===== src/Srec/Tests.antt =====
-- An S-record file on which the theorems are applied: three octets at 0x1000, as an S19 record.
use vasm_ext.Common.Word.{add64}
use vasm_ext.Common.{ℕ, ◌+◌, ◌^◌, ◌≡◌, refl, arith, true, List, [], ◌∷◌, ◌++◌, ltb, if◌then◌else◌}
use vasm_ext.Srec.Record.{line, write_data_buffer-line}
use vasm_ext.Srec.Stream.{Written, put_tbytes-Written}
use vasm_ext.Srec.{Srec, write_data_buffer, put_tbytes, tohex}

abbrev state : List ℕ → Srec
state buffer = record {
  file = [];
  errors = [];
  buffer = buffer;
  srec_pc = 0x1000;
  pc = 0x1000;
  start_addr = 0;
  srecfmt = 1;
  asciiout = true;
}

-- The line `S106100001020AD2`.
line_of_three :
    line true 1 0x1000 (1 ∷ 2 ∷ 10 ∷ [])
    ≡ 83 ∷ 49 ∷ 48 ∷ 54 ∷ 49 ∷ 48 ∷ 48 ∷ 48 ∷ 48 ∷ 49 ∷ 48 ∷ 50 ∷ 48 ∷ 65 ∷ 68 ∷ 67 ∷ 10 ∷ []
unfolding tohex
line_of_three = refl

write_data_buffer-line_example :
    write_data_buffer 1 (state (1 ∷ 2 ∷ 10 ∷ [])) ≡ record (state (1 ∷ 2 ∷ 10 ∷ [])) {
      file = [] ++ line true 1 0x1000 (1 ∷ 2 ∷ 10 ∷ []);
      errors = if ltb 0x1000 (256 ^ (1 + 1)) then [] else 11 ∷ [];
      srec_pc = add64 0x1000 3;
      buffer = [];
    }
write_data_buffer-line_example =
    write_data_buffer-line 1 (state (1 ∷ 2 ∷ 10 ∷ [])) (omega arith) (omega arith) (omega arith)
      (omega arith)

put_tbytes-Written_example :
    Written
      (state [])
      (1 ∷ 2 ∷ 10 ∷ [])
      (write_data_buffer 1 (put_tbytes (state []) (1 ∷ 2 ∷ 10 ∷ [])))
put_tbytes-Written_example =
    put_tbytes-Written (1 ∷ 2 ∷ 10 ∷ []) (state []) (omega arith) (omega arith) (omega arith)
