-- ===== src/Examples/Files.antt =====
-- The table of open files.
use hif_backend.Prelude.{
  ℕ, ◌==◌, arith, ◌≡◌, Bool, Option, none, some, if◌then◌else◌, Bool-cases, inl, inr, some-inj, ap,
  ◌∙◌, sym,
}
use hif_backend.Support.FileTable.{Files, Mode, fclose, fdisplay, fscanf, fflush}
use hif_backend.Support.FileTable.Open.{IsFresh, IsFine, IsOpen, tasks-IsFine}

-- A library that opens the descriptor's own number, unless it is in use.
abbrev fdopen : ℕ → Mode → (ℕ → Bool) → Option ℕ
fdopen fd mode is_open = if is_open fd then none else some fd

fdopen-IsFresh : IsFresh fdopen
fdopen-IsFresh fd f mode is_open h = elim (Bool-cases (is_open fd)) [
  | inl e ↦ let clash : none ≡ some f = rw e at h in cc
  | inr e ↦ let same : some fd ≡ some f = rw e at h in ap is_open (sym (some-inj fd f same)) ∙ e
]

abbrev one_file : Files
one_file = record { io_map = λ fd. if 3 == fd then some 3 else none; is_open = λ f. 3 == f }

one_file-IsOpen : IsOpen one_file
one_file-IsOpen = ((λ fd f h. ground arith), (λ fd fd' f h h'. ground arith))

tasks-IsFine_example :
    IsFine (fdisplay fdopen 4 one_file)
    × IsFine (fscanf fdopen 4 one_file)
    × IsFine (fflush 4 one_file)
    × IsFine (fclose 4 one_file)
tasks-IsFine_example = tasks-IsFine fdopen 4 one_file fdopen-IsFresh one_file-IsOpen
