-- ===== src/Examples/Logic.antt =====
-- The drivers of a signal and vectors of logic values, on the four values themselves.
use mathlib.Core.Quot
use hif_backend.Prelude.{ℕ, ◌≡◌, refl, ◌↔◌, true, [], ◌∷◌, some, ◌==◌, arith, if◌then◌else◌}
use hif_backend.Support.FourState.{
  Level, logic_0, logic_1, logic_z, logic_x, level_char, is_binary, FourState, IsFourState,
}
use hif_backend.Support.StdLogic1164.{
  hif_vhdl_resolved, resolve_loop, resolve_step, logic_index, resolution_table,
}
use hif_backend.Support.StdLogic1164.Resolution.{resolution, hif_vhdl_resolved-resolution}

abbrev pub level_of : ℕ → Level
level_of c =
    if c == b'0'
    then logic_0
    else if c == b'1'
    then logic_1
    else if c == b'Z'
    then logic_z
    else if c == b'z'
    then logic_z
    else logic_x

abbrev pub four_state : FourState
four_state = record {
  Logic = Level;
  of_char = level_of;
  to_char = level_char;
  logic_eq = λ v w. level_char v == level_char w;
  is_01 = is_binary;
}

pub level_of-level_char : (l : Level) → level_of (level_char l) ≡ l
unfolding level_char
level_of-level_char l = ground arith

level_char_inj : (l m : Level) → ((level_char l == level_char m) ≡ true) ↔ (l ≡ m)
unfolding level_char
level_char_inj l m = ground arith

pub four_state-IsFourState : IsFourState four_state
four_state-IsFourState = record {
  to_char-of_char = λ l. rw (level_of-level_char l) refl;
  of_char_lower = refl;
  levels = λ v. (v, rw (level_of-level_char v) refl);
  logic_eq_iff = level_char_inj;
  is_01-of_char = λ l. rw (level_of-level_char l) refl;
}

hif_vhdl_resolved-resolution_example :
    hif_vhdl_resolved four_state (logic_z ∷ logic_1 ∷ logic_z ∷ [])
    ≡ some
        (level_of (level_char (resolution four_state (Quot.mk (logic_z ∷ logic_1 ∷ logic_z ∷ [])))))
hif_vhdl_resolved-resolution_example =
    hif_vhdl_resolved-resolution four_state four_state-IsFourState
      (logic_z ∷ logic_1 ∷ logic_z ∷ [])

-- A conflict of two drivers is unknown.
resolved_conflict : hif_vhdl_resolved four_state (logic_0 ∷ logic_z ∷ logic_1 ∷ []) ≡ some logic_x
unfolding hif_vhdl_resolved resolve_loop resolve_step logic_index level_char resolution_table
resolved_conflict = refl
