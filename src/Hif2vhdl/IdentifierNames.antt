-- ===== src/Hif2vhdl/IdentifierNames.antt =====
-- src/hif2vhdl/PreRefine_identifierNames.cpp: the pass that makes every declared name a VHDL
-- identifier.
pub mod Spacing
pub mod Names
pub mod Renaming
use hif_backend.Prelude.{
  ℕ, zero, suc, ◌≡◌, refl, ◌&&◌, [], ◌∷◌, ◌++◌, Option, none, some, Bytes, codes, ◌==◌,
  if◌then◌else◌,
}

abbrev pub underscore : ℕ
underscore = b'_'

-- The text "id" that both repairs insert.
abbrev pub id_text : Bytes
id_text = codes "id"

-- `_replaceFirstUnderscore`.
pub replace_first_underscore : Bytes → Bytes
replace_first_underscore [] = []
replace_first_underscore (c ∷ s) = if c == underscore then id_text ++ c ∷ s else c ∷ s

-- One round of the loop of `_replaceDoubleUnderscore`: `find("__")`, and "id" inserted at
-- `found + 1`; `none` where `find` answers `npos`.
pub insert_at_found : Bytes → Option Bytes
insert_at_found [] = none
insert_at_found (c ∷ []) = none
insert_at_found (c ∷ d ∷ s) =
    let rest = insert_at_found (d ∷ s) in
    if c == underscore && d == underscore
    then some (c ∷ id_text ++ d ∷ s)
    else elim rest [ none ↦ none | some r ↦ some (c ∷ r) ]

-- The loop runs until `find` answers `npos`; `none` means that the fuel ran out.
pub replace_double_underscore : ℕ → Bytes → Option Bytes
replace_double_underscore zero s = none
replace_double_underscore (suc fuel) s = elim (insert_at_found s) [
  | none ↦ some s
  | some t ↦ replace_double_underscore fuel t
]

-- `_analyzeString`.
pub analyze_string : ℕ → Bytes → Option Bytes
analyze_string fuel n = replace_double_underscore fuel (replace_first_underscore n)

clock_pair : analyze_string 9 (codes "__a___b") ≡ some (codes "id_id_a_id_id_b")
unfolding analyze_string replace_double_underscore insert_at_found replace_first_underscore
clock_pair = refl
