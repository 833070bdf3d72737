-- ===== src/Examples/Loops.antt =====
-- Loops within loops that declare their indices.
use hif_backend.Prelude.{◌≡◌, ℕ, [], ◌∷◌, none, some, codes, Option, Bytes}
use hif_backend.Hif2verilog.ForIndices.{
  Declaration, Statements, done, statement, for_loop, visit_statements,
}
use hif_backend.Hif2verilog.ForIndices.Hoisting.{visit-cleared}

abbrev declare : Bytes → Option ℕ → Declaration ℕ ℕ
declare n v = record { name = n; type = 32; value = v }

-- A loop over i from 1 on, in which a loop over j from 2 on stands, and a loop that declares k
-- without a value.
abbrev loops : Statements ℕ ℕ ℕ
loops =
    for_loop (declare (codes "i") (some 1) ∷ []) []
      (statement 7 done (for_loop (declare (codes "j") (some 2) ∷ []) [] done done))
      (for_loop (declare (codes "k") none ∷ []) ((codes "k", 3) ∷ []) done done)

abbrev hoisted : Statements ℕ ℕ ℕ
hoisted =
    for_loop [] ((codes "i", 1) ∷ [])
      (statement 7 done (for_loop [] ((codes "j", 2) ∷ []) done done))
      (for_loop [] ((codes "k", 3) ∷ []) done done)

visit-cleared_example :
    visit_statements ℕ ℕ ℕ loops (some (declare (codes "x") none ∷ []))
    ≡ some (
      hoisted,
      some (
          declare (codes "x") none
          ∷ declare (codes "j") none
          ∷ declare (codes "i") none
          ∷ declare (codes "k") none
          ∷ []),
    )
visit-cleared_example = visit-cleared loops (declare (codes "x") none ∷ [])
