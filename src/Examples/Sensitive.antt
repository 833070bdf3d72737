-- ===== src/Examples/Sensitive.antt =====
-- Processes with an edge of a clock and of a reset, translated to VHDL.
use hif_backend.Prelude.{
  ℕ, ◌≡◌, refl, Bool, true, ◌&&◌, ◌||◌, List, [], ◌∷◌, ◌++◌, Option, none, some, ◌==◌,
  if◌then◌else◌,
}
use hif_backend.Hif2vhdl.Sensitivity.{
  synchronous, style_3, style_6, ProcessStyle, ProcessInfos, Body, StateTable, is_same,
  visit_state_table,
}
use hif_backend.Hif2vhdl.Sensitivity.Events.{Event, member, wakes, executed}
use hif_backend.Hif2vhdl.Sensitivity.Triggers.{any_listed_level, any_listed_edge, all_signals}
use hif_backend.Hif2vhdl.Sensitivity.Processes.{visit_state_table-runs, visit_state_table-chains}

-- Signal 0 is the clock and 1 the reset; both have one bit, and the reset is a bool.
abbrev is_one_bit : ℕ → Bool
is_one_bit s = s == 0 || s == 1

abbrev has_bool : ℕ → Bool
has_bool s = s == 1

-- Action 9 is `if rst then 10 else 11`; a condition is the level of a signal.
abbrev as_if : ℕ → Option (ℕ × List ℕ × List ℕ)
as_if a = if a == 9 then some (1, 10 ∷ [], 11 ∷ []) else none

abbrev test : ℕ → Event → Bool
test s e = e.level s

abbrev infos : ProcessStyle → ProcessInfos
infos style = record {
  process_kind = synchronous;
  process_style = style;
  clock = some 0;
  reset = some 1;
  sensitivity = [];
  rising_sensitivity = 0 ∷ 1 ∷ [];
  falling_sensitivity = [];
}

-- always @(posedge clk or posedge rst) with the action 9.
abbrev flip_flop : StateTable (List ℕ)
flip_flop = record {
  is_process = true;
  sensitivity = [];
  sensitivity_pos = 0 ∷ 1 ∷ [];
  sensitivity_neg = [];
  body = 9 ∷ [];
}

visit_state_table-runs_example :
    (q : StateTable (Body ℕ ℕ)) × (visit_state_table is_one_bit has_bool as_if
        (infos style_3)
        flip_flop
      ≡ some q)
    × ((e : Event)
        → executed test e q ≡ (
            if wakes e flip_flop
              || member e.changed (all_signals is_one_bit has_bool (infos style_3) flip_flop)
                && any_listed_level is_one_bit has_bool (infos style_3) e
            then 9 ∷ []
            else []))
visit_state_table-runs_example =
    visit_state_table-runs is_one_bit has_bool as_if (infos style_3) test flip_flop refl refl
      (refl, refl, refl) (tt, (refl, (refl, tt)), tt) refl

visit_state_table-chains_example :
    (q : StateTable (Body ℕ ℕ)) × (visit_state_table is_one_bit has_bool as_if
        (infos style_6)
        flip_flop
      ≡ some q)
    × ((e : Event)
        → wakes e flip_flop ≡ true
        → (is_same (some 1) e.changed ≡ true → test 1 e ≡ true)
        → executed test e q ≡ (if test 1 e then 10 ∷ [] else 11 ∷ []) ++ [])
    × ((e : Event)
        → executed test e q ≡ (
            if member e.changed (all_signals is_one_bit has_bool (infos style_6) flip_flop)
            then (if test 1 e
                then 10 ∷ []
                else if any_listed_edge is_one_bit has_bool (infos style_6) e (some 1)
                then 11 ∷ []
                else [])
              ++ []
            else []))
visit_state_table-chains_example =
    visit_state_table-chains is_one_bit has_bool as_if (infos style_6) test flip_flop refl refl
      (refl, refl, refl) (tt, (refl, (refl, tt)), tt) 9 [] 1 (10 ∷ []) (11 ∷ []) refl refl refl
