-- ===== src/Support/FileTable.antt =====
-- src/hif2scSupport/hif_verilog_standard.cpp: the table of the files behind `$fdisplay`, `$fwrite`,
-- `$fscanf`, `$fflush`, `$fclose` and `$feof`. A FILE pointer is a number; `fdopen` of the C library is a
-- parameter that sees which pointers are open, and what is printed or scanned is left out.
pub mod Open
use hif_backend.Prelude.{
  ℕ, Bool, true, false, List, [], ◌∷◌, Option, none, some, ◌==◌, if◌then◌else◌,
}

pub record Files : Type 0 where
  pub io_map : ℕ → Option ℕ
  pub is_open : ℕ → Bool

pub data Mode : Type 0 where
  append read_write : Mode

-- How an operation ends: `exited` is exit(EXIT_FAILURE), and `misused` the use of a pointer that is
-- not open.
pub data Outcome : Type 0 where
  done : Files → Outcome
  exited : Outcome
  misused : Outcome

unfoldable pub set : {A : Type 0} → ℕ → A → (ℕ → A) → ℕ → A
set i a f j = if j == i then a else f j

unfoldable pub use_file : ℕ → Files → Outcome
use_file f s = if s.is_open f then done s else misused

module _ (fdopen : ℕ → Mode → (ℕ → Bool) → Option ℕ) where
  -- `_hif_verilog_system_vfdisplay` and `_hif_verilog_system_vfscanf`.
  unfoldable pub with_file : Mode → ℕ → Files → Outcome
  with_file mode fd s = elim (s.io_map fd) [
    | some f ↦ use_file f s
    | none ↦ elim (fdopen fd mode s.is_open) [
      | none ↦ exited
      | some f ↦
          use_file f
            (record s { io_map = set fd (some f) s.io_map; is_open = set f true s.is_open })
    ]
  ]

  -- `hif_verilog__system_fdisplay`, and `hif_verilog__system_fwrite` alike.
  unfoldable pub fdisplay : ℕ → Files → Outcome
  fdisplay = with_file append

  unfoldable pub fscanf : ℕ → Files → Outcome
  fscanf = with_file read_write

unfoldable pub fflush : ℕ → Files → Outcome
fflush fd s = elim (s.io_map fd) [ none ↦ done s | some f ↦ use_file f s ]

unfoldable pub fclose : ℕ → Files → Outcome
fclose fd s = elim (s.io_map fd) [
  | none ↦ done s
  | some f ↦
      if s.is_open f
      then done (record s { io_map = set fd none s.io_map; is_open = set f false s.is_open })
      else misused
]

-- `hif_verilog__system_feof`, given what `feof` answers of the pointer: `some` of its answer, and `none`
-- for a pointer that is not open.
unfoldable pub feof : (ℕ → ℕ) → ℕ → Files → Option ℕ
feof at_end fd s = elim (s.io_map fd) [
  | none ↦ some 0
  | some f ↦ if s.is_open f then some (at_end f) else none
]
