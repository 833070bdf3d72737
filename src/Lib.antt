-- ===== src/Lib.antt =====
-- Verification of hif-backend: the tools that write VHDL, Verilog and SystemC from the trees of
-- HIF, and the run-time library of the SystemC code.
--
-- The program. src/hif2vhdl, src/hif2verilog and src/hif2sc each read a tree with hif-core, rewrite
-- it by passes (PreRefine_*, PostRefine_*) until the target language can say it, and print it
-- (VHDLPrinter, VerilogPrinter, PrintSystemCVisitor). The SystemC code calls hif2scSupport
-- (src/hif2scSupport and include/hif2scSupport), which has the operations of VHDL's packages and of
-- Verilog's system tasks that SystemC lacks. hif-core and SystemC are libraries of other projects:
-- what the code asks of them is a parameter or a field here.
--
-- The files.
-- - Hif2verilog/ClockedProcess: src/hif2verilog/PostRefine_process.cpp. A state table is a record,
--   and each part of `visitStateTable` a function with its name's words (`check_reset`,
--   `sensitise_clock`, `move_reset`, `finish`); every early return is a `Refusal`. ProcessInfos is
--   what hif-core's `analyzeProcesses` answers. Semantics.antt says what a process does at an event
--   under the rules of VHDL and of Verilog, apart from the pass; the events are arbitrary changes of
--   the values by the rest of the design.
-- - Hif2verilog/Literals: src/hif2verilog/VerilogPrinter.cpp, `isVerilogBinaryLiteral`,
--   `is_integer`, `isUnknownLiteral` and the bits and bit vectors of `getValue`.
-- - Hif2verilog/Timescale: src/hif2verilog/VerilogPrinter.cpp, `resolveTimescale` and its helpers,
--   `printTimescaleDirective` and `renderDelay`. A view is its declarations and the delays found in
--   it; the doubles with their order, conversion and spelling are parameters, and so is the order of
--   hif-core's enumeration of units.
-- - Hif2verilog/Waits: the same file, `visitWait`, `printEventControl`, `printMultiClauseWait` and
--   `isRetriggerable`. The text printed is kept as the statement that it is of. Meaning.antt says,
--   over numbered steps of simulation, when a wait of the design is over and when a process goes on
--   behind such a statement; a condition is read by its level, as the printer says it reads it.
-- - Hif2verilog/ContinuousDrivers: the same file, `collectContinuouslyDrivenDeclarations` and
--   `isContinuouslyDriven`, over the declarations that hif-core resolves the targets to.
-- - Hif2verilog/InoutPorts: src/hif2verilog/PostRefine_inoutPort.cpp. The assignments of a view with
--   their targets and the names they read; the fresh names of hif-core are a parameter.
-- - Hif2verilog/ForIndices: src/hif2verilog/PostRefine_forIndex.cpp. The statements of a process as a
--   tree in which a loop has its header and its body, any other statement the statements within it.
-- - Hif2sc/Expressions: src/hif2sc/PrintSystemCVisitor.cpp, the printing of expressions, subscripts,
--   casts and conditionals, `_needWrapParen` and `_getOperatorPrecedence`. Grammar.antt has the
--   levels of the grammar of C++; the texts of other values are taken as they are.
-- - Hif2sc/ConflictingSubPrograms: src/hif2sc/PreRefine_conflictingSubPrograms.cpp. Subprograms and
--   calls are numbers, a state has their names; what hif-core finds for a call and its fresh names
--   are parameters.
-- - Hif2vhdl/Sensitivity: src/hif2vhdl/VhdlPreRefine_misc.cpp, `visitStateTable` with what it calls.
--   The sensitivity lists and the actions of a process; Events.antt says when a process runs.
-- - Hif2vhdl/ForRanges: `visitFor` of the same file, which gives a loop that counts a range;
--   Runs.antt says what loops do.
-- - Hif2verilog/Expressions and Hif2vhdl/Expressions: src/hif2verilog/VerilogPrinter.cpp and
--   src/hif2vhdl/VHDLPrinter.cpp, `visitExpression`, which put every operand that is no name,
--   constant or call in parentheses; Hif/Grammar has the values and the grammar that reads them.
-- - Hif2vhdl/ReadOutPorts: src/hif2vhdl/PreRefine_readOutPorts.cpp, in the same manner.
-- - Hif: what these share of hif-core's trees.
-- - Hif2vhdl/IdentifierNames: src/hif2vhdl/PreRefine_identifierNames.cpp. `_analyzeString` with its
--   loop on fuel, and `BeforeVisit` and `AfterVisit` on the objects in the order of their visits.
-- - Support/Readmem: `$readmemb` and `$readmemh` of
--   include/hif2scSupport/hif2scSupport/hif_verilog_standard.i.hpp, from the bytes of a file, with
--   the wrap-around of `int` and `size_t` written out. The overloads are values of one record,
--   Binary.antt and Hex.antt; what SystemC makes of a text is their parameter.
-- - Support/After: src/hif2scSupport/hif_after.cpp and
--   include/hif2scSupport/hif2scSupport/hif_after.i.hpp, the delayed assignments. Objects stand in a
--   store at their addresses; a run is a sequence of constructions, copies, calls and destructions.
-- - Support/FileTable: the table of files of src/hif2scSupport/hif_verilog_standard.cpp, with `fdopen` of
--   the C library as a parameter and what is printed or scanned left out.
-- - Support/LogicTextio: the reading of a word and of hexadecimal and octal vectors of
--   src/hif2scSupport/hif_vhdl_ieee_std_logic_textio.cpp and src/hif2scSupport/hif_vhdl_std_textio.cpp;
--   a `switch` on a character is a table, and the vector that SystemC makes of bits a parameter.
-- - Support/Textio: src/hif2scSupport/hif_vhdl_std_textio.cpp, the reads and writes of bits, bit
--   vectors, truth values and characters, and of whole lines; a line and a file are their bytes.
-- - Support/FourState, Support/VectorOps: the logic values and vectors of SystemC as the library
--   uses them, each a record of operations and a record of what SystemC documents of these. A
--   vector is the list of its values from index 0 on. The examples fill both.
-- - Support/StdLogic1164: src/hif2scSupport/hif_vhdl_ieee_std_logic_1164.cpp over these values.
-- - Support/Vectors: the templates on vectors of
--   include/hif2scSupport/hif2scSupport/hif_systemc_extensions.i.hpp: sign extension, equality, case
--   match, shifts and orders; `none` is an access out of range.
-- - Support/LastValue: `hif_lastValue` of the same file, on the bits of a value.
-- - Support/Uniform: src/hif2scSupport/hif_vhdl_ieee_math_real.cpp, `hif_vhdl_uniform` up to its
--   scaling to a double.
-- - Support/Modulo, Support/Parity: `hif_mod` and `hif_xorrd` of
--   src/hif2scSupport/hif_systemc_extensions.cpp; a result that a long long int does not hold is
--   `none`.
-- - Prelude: shared names, tests, lists and signed integers. Examples: tests and instances.
--
-- Fuel. `replace_double_underscore` takes one round for each pair of underscores, fewer than the
-- name has bytes; `rounds` reads at least one byte in each round that goes on, and `readmem` gives it
-- one round more than the file has bytes; `xor_loop` takes one round for each bit, and a word has 64.
-- The statements for waits are run for a number of steps, and the results hold for every number; with
-- a time, one step more than it is long is enough.
--
-- Not modelled: most of the printers, since they write text class by class; the other passes over
-- the tree; the drivers and command lines; floating point; of hif2scSupport the text input and
-- output of numbers, reals and times, which the streams of C++ do, the packages for arithmetic on
-- vectors, aggregates and assignments; and the variants for the library HDTLib, which repeat those
-- for SystemC.
pub mod Prelude
pub mod Hif
pub mod Hif2verilog
pub mod Hif2sc
pub mod Hif2vhdl
pub mod Support
mod Examples
