-- ===== src/Examples/Loads.antt =====
-- Loads of memories.
use hif_backend.Prelude.{ℕ, ◌+◌, ◌-◌, ◌*◌, ◌≡◌, refl, List, [], ◌∷◌, ◌++◌, Bytes, codes, arith}
use hif_backend.Prelude.Int.{pos, negsuc}
use hif_backend.Support.Readmem.{readmem, finished, Request}
use hif_backend.Support.Readmem.Bounds.{Keeps, readmem-Keeps}
use hif_backend.Support.Readmem.Words.{lines}
use hif_backend.Support.Readmem.Loading.{upward, readmem-lines}
use hif_backend.Support.Readmem.Binary

-- The number of a text of binary digits.
abbrev value_from : ℕ → Bytes → ℕ
value_from acc [] = acc
value_from acc (c ∷ s) = value_from (acc * 2 + (c - b'0')) s

abbrev value : ℕ → Bytes → ℕ
value w s = value_from 0 s

abbrev request : Request
request = record { start_addr = pos 3; stop_addr = pos 0; min = negsuc 0; direction = negsuc 0 }

abbrev empty_memory : List ℕ
empty_memory = 0 ∷ 0 ∷ 0 ∷ 0 ∷ 0 ∷ []

readmem-Keeps_example :
    Keeps
      (Binary.uint8 value)
      5
      (readmem (Binary.uint8 value) request (codes "101 @7f 1\n@-1 1\n") empty_memory)
readmem-Keeps_example =
    readmem-Keeps (Binary.uint8 value) request (codes "101 @7f 1\n@-1 1\n") empty_memory
      (omega arith) (omega arith)

-- The stop is the address 5, the cell of index 1, and three cells are stored.
readmem-lines_example :
    readmem
      (Binary.uint8 value)
      (upward 0 4 0 1)
      (lines (codes "101" ∷ codes "11" ∷ codes "1" ∷ []) ++ codes "111")
      empty_memory
    ≡ finished (5 ∷ 3 ∷ 1 ∷ 0 ∷ 0 ∷ [])
unfolding Binary.uint8
readmem-lines_example =
    readmem-lines (Binary.uint8 value) 0 4 0 1 (codes "101" ∷ codes "11" ∷ codes "1" ∷ [])
      (codes "111") empty_memory (omega arith) (omega arith) (omega arith) (omega arith)
      (
        (refl, refl, (refl, (refl, (refl, tt)))),
        ((refl, refl, (refl, (refl, tt))), ((refl, refl, (refl, tt)), tt)),
      )
      (refl, (refl, (refl, tt))) (refl, (refl, (refl, tt)))
