-- ===== src/Support/FourState.antt =====
-- The logic values of SystemC, sc_dt::sc_logic, as hif2scSupport sees them: a type with its
-- conversions from and to characters, its equality and its test is_01. What SystemC documents of
-- them is a record of its own.
use hif_backend.Prelude.{ℕ, ◌≡◌, ◌↔◌, Bool, true, false}

-- The four values.
pub data Level : Type 0 where
  logic_0 logic_1 logic_z logic_x : Level

unfoldable pub level_char : Level → ℕ
level_char logic_0 = b'0'
level_char logic_1 = b'1'
level_char logic_z = b'Z'
level_char logic_x = b'X'

unfoldable pub is_binary : Level → Bool
is_binary logic_0 = true
is_binary logic_1 = true
is_binary logic_z = false
is_binary logic_x = false

pub record FourState : Type 1 where
  pub Logic : Type 0
  pub of_char : ℕ → Logic
  pub to_char : Logic → ℕ
  pub logic_eq : Logic → Logic → Bool
  pub is_01 : Logic → Bool

-- The documented behaviour: there are the four values and no others, a value keeps its character,
-- and a small z is read as a large one.
pub record IsFourState (F : FourState) : Type 0 where
  pub to_char-of_char : (l : Level) → F.to_char (F.of_char (level_char l)) ≡ level_char l
  pub of_char_lower : F.of_char b'z' ≡ F.of_char b'Z'
  pub levels : (v : F.Logic) → (l : Level) × (v ≡ F.of_char (level_char l))
  pub logic_eq_iff : (v w : F.Logic) → (F.logic_eq v w ≡ true) ↔ (v ≡ w)
  pub is_01-of_char : (l : Level) → F.is_01 (F.of_char (level_char l)) ≡ is_binary l
