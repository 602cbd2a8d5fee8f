-- ===== src/Lib.antt =====
-- vasm is an assembler that is built from a processor module, a syntax module and the files at
-- the top of the repository, which do not depend on either. This library models parts of those
-- files and proves what they do, and where they do something else than they mean to.
--
-- The parts and their files:
--
-- HugeInt (hugeint.c, hugeint.h) has the 128-bit integers in which the expressions of data
-- directives are evaluated. `Thuge` is `thuge`, two 64-bit halves; the functions have the names
-- of the C functions, in lower case for macros. An `int64_t` is its bit pattern. HugeInt/Value
-- gives the number of a `Thuge`, and HugeInt/Sum, Product, Shift, Range, Memory and Divide/Short
-- compare the operations with arithmetic on it. HugeInt/Divide has the division in digits of 32
-- bits; its loop that corrects a guess has fuel for two rounds, after which the remainder has
-- left the range of a digit. Not modelled: the conversions from and to floats. The shifts are
-- those by 0 to 127, for which C defines them, and the range check excludes 64 bits, at which the
-- source shifts by -1.
--
-- Conditional (cond.c, cond.h, and in syntax/std/syntax.c the start of the line loop `parse` with
-- `handle_else`, `handle_elseif` and `handle_endif`) has the levels of conditional assembly.
-- `Cond` has the static variables; a message is its number, and a fatal one ends the run
-- (Common/Run). A line is an `if`, `else`, `elseif`, `endif` or another one, and the value of a
-- condition is part of the line. Conditional/Blocks has sources as trees, which
-- Conditional/Refine relates to the loop by Conditional/Skip and Conditional/Levels;
-- Conditional/Errors has the invariant.
--
-- SymTab (symtab.c, symtab.h) has the hash tables that symbols, mnemonics, directives and macros
-- are found in. A bucket is the list of its entries, and a name is the list of its octets before
-- the one that is 0. SymTab/Key has what makes two names the same with and without case,
-- SymTab/Lookup, Removal and Table the table as a map, and SymTab/Prefix the lookups of a name
-- inside of a line. Names (supp.c: `stricmp`, `strnicmp`) compares without case. The C library's
-- `tolower` is that of the C locale (Common/Chars), which the program does not leave. Not
-- modelled: the smaller tables of LOWMEM builds.
--
-- Supp (supp.c, `MAKEMASK` of reloc.h) has the values in target memory and in files, scans of
-- bits, alignment and the ranges of sections, for target bytes of 8 bits and a 64-bit `taddr`.
-- The fuel of the loops of `fwpattern` is the number of octets left, of which each round writes
-- at least one. Not modelled: memory management, linked lists, string buffers and floats, and
-- write errors of the host.
--
-- Srec (output_srec.c) is the writer of Motorola S-records, for target bytes of one octet; the
-- buffer, the addresses and the file are a state that each function returns. Srec/Record has the
-- line of a record, Srec/Stream the records of a run of octets. Srec uses `balign` of Supp, and
-- Supp and Srec use the words of Common. Not modelled: the search for the start symbol and the
-- options of the command line.
--
-- Ihex (output_ihex.c) is the writer of Intel HEX records, again for target bytes of one octet.
-- The two variables that the 16-bit format leaves without a value are a field of the state.
-- Ihex/Record has the lines, which use the digits of Srec/Record. Not modelled: the loop over
-- sections and atoms and the options of the command line.
--
-- Leb128 (atom.c: `add_leb128_atom`) has the octets of LEB128 data. The loop has fuel for 10
-- rounds, which shift 70 bits out of a 64-bit value, so it always ends by itself; Leb128/Decode
-- reads the octets back.
--
-- Expression (expr.c, expr.h, symbol.h) has the trees of expressions, for builds without floats
-- and without unary operators of a processor. A `taddr` is its bit pattern of `bitspertaddr`
-- bits; `Build` has this width, the value of a true condition, and functions for what the host
-- does where C leaves it open. Expression/Simplify has `simplify_expr`, Expression/Eval
-- `eval_expr` and `find_base`, Expression/HugeEval `eval_expr_huge`, with the operators of
-- 128-bit integers in Expression/Huge, which uses HugeInt. Expression/State has the symbols,
-- which the evaluation marks and where it updates the one of the current pc, the dependencies
-- between sections and the messages. The functions go through the trees of equates on fuel;
-- Expression/Terminates has how much is enough for `eval_expr_huge`. Expression/Constant,
-- Division, Rearrange and Labels have the values, Frame and Addresses what an evaluation leaves
-- alone. Expression/Query has `type_of_expr` and `find_sym_expr`, which returns the way from the
-- root to a symbol. Expression/Operators has the switch of `eval_expr` on the operator,
-- Expression/Literal the constants that are numbers, for a `utaddr` of 16, 32 or 64 bits and from
-- where the syntax module has found their base. Not modelled: the other parsers of expressions,
-- printing, and a base that a processor module finds.
--
-- Reloc (reloc.c, reloc.h) has the relocations of fields in data: how they are added, checked and
-- patched. A list of relocations is a list of `Rlist`, and `Content` is what an atom with octets
-- has. Reloc/Overflow has the range of the values of a field, Reloc/Patch the octets after a
-- patch, by the bit fields of Supp, whose arithmetic is in Supp/Bitfield and Supp/Fields. Symbols
-- and sections are those of Expression/State. Not modelled: printing.
--
-- Symbols (symbol.c) has the list of symbols and their hash table, which is that of SymTab; a
-- pointer to a symbol is a number in a store. Symbols/Import and Restore have the table after
-- imports and after `restore_symbols`, Symbols/Local the names of local labels, Symbols/Label
-- `new_labsym`, Symbols/Register the register symbols. Not modelled: temporary labels, internal
-- symbols, and the printing of symbols.
--
-- Vobj (output_vobj.c, vobjdump.c, vobjdump.h) has VOBJ files: the numbers in Vobj, the symbols
-- in Vobj/Symbol and the header in Vobj/Header, each with what the output module writes and what
-- the dumper reads. Vobj/Octet, Scan, Reader, Sign and Number are about the octets of a number,
-- Vobj/Record about symbols. What `get_sym_value` and `get_sym_size` evaluate is given with a
-- symbol. Not modelled: the sections of the files, and the dumper's printing.
--
-- Atoms (atom.c, atom.h, and of vasm.c `resolve_section` and `resolve`) has the atoms of a
-- section and the passes that find their sizes. Symbols, messages and dependencies are those of
-- Expression/State, sizes are evaluated by Expression/Eval, with its fuel, and places aligned by
-- Supp. A processor module is the record `Processor`, without options in the code;
-- `resolve_section` has a round more than `maxpasses`, `resolve` runs on fuel. Atoms/Layout has
-- where sizes put the atoms, Atoms/Sized, Stable, Passes and Ends what a stable pass leaves, by
-- Expression/Frame and Addresses, Atoms/Returns how the passes end, Atoms/InPlace a section that
-- is laid out already. Not modelled: listings, debug output, the octets that fill a space, and
-- `assemble`.
--
-- The other output modules, sources, macros, listings and the processor and syntax modules are
-- not modelled.
pub mod Common
pub mod HugeInt
pub mod Conditional
pub mod Names
pub mod SymTab
pub mod Supp
pub mod Srec
pub mod Ihex
pub mod Leb128
pub mod Expression
pub mod Reloc
pub mod Symbols
pub mod Vobj
pub mod Atoms
