-- ===== src/Examples/Clocked.antt =====
-- A flip-flop with an asynchronous reset, and one without, through the pass of hif2verilog.
use hif_backend.Prelude.{
  ℕ, ◌≡◌, refl, Bool, true, List, [], ◌∷◌, none, some, Bytes, codes, leb, ◌==◌, arith,
  if◌then◌else◌, inr,
}
use hif_backend.Hif2verilog.ClockedProcess.{
  Value, literal, identifier, function_call, no_values, values, assign, Actions, no_actions,
  actions, StateTable, ProcessInfos, synchronous, rising_edge, asynchronous_reset, no_reset,
  high_phase, rewritten, refused, other_sensitivity, visit_state_table, drop_edge_test, alts,
  no_alts, rebuild, move_reset, finish, split_last, sensitise_clock, sensitise_reset, check_reset,
  alt_for_reset, add_sensitivity, remove_sensitivity, states_calls, actions_calls, value_calls,
  action_tests, is_edge_function_name, reads_mutable_state,
}
use hif_backend.Hif2verilog.ClockedProcess.Semantics.{
  Env, update, vhdl_step, verilog_step, run, eval, exec,
}
use hif_backend.Hif2verilog.ClockedProcess.Reset.{drives}
use hif_backend.Hif2verilog.ClockedProcess.Rewriting.{with_reset, contains}
use hif_backend.Hif2verilog.ClockedProcess.Equivalence.{IsAnalysed, run-visit_state_table}
use hif_backend.Hif2verilog.ClockedProcess.Unreset.{without_reset, run-clocked}

-- Declarations 0 to 3 are the clock, the reset, the output and the input; 4 and up are constants.
abbrev is_mutable : ℕ → Bool
is_mutable d = leb d 3

-- The only other function is the comparison for equality.
abbrev apply : Bytes → List ℕ → ℕ
apply f (a ∷ b ∷ vs) = if a == b then 1 else 0
apply f _ = 0

abbrev perform : List ℕ → Env → Env
perform vs e = e

abbrev reset_test : Value
reset_test = function_call (codes "=") (values (identifier 1) (values (literal 1) no_values))

abbrev edge_test : Value
edge_test = function_call (codes "hif_vhdl_rising_edge") (values (identifier 0) no_values)

abbrev clear : Actions
clear = actions (assign 2 (literal 0)) no_actions

abbrev capture : Actions
capture = actions (assign 2 (identifier 3)) no_actions

abbrev infos : ProcessInfos
infos = record {
  process_kind = synchronous;
  working_edge = rising_edge;
  clock = some 0;
  reset_kind = asynchronous_reset;
  reset = some 1;
  reset_phase = high_phase;
}

abbrev flip_flop : StateTable
flip_flop = record {
  is_process = true;
  sensitivity = identifier 0 ∷ identifier 1 ∷ [];
  sensitivity_pos = [];
  sensitivity_neg = [];
  front = with_reset reset_test clear edge_test capture;
  other_states = [];
}

abbrev rebuilt : StateTable
rebuilt = record {
  is_process = true;
  sensitivity = [];
  sensitivity_pos = identifier 0 ∷ identifier 1 ∷ [];
  sensitivity_neg = [];
  front = drop_edge_test (alts reset_test clear no_alts) capture;
  other_states = [];
}

flip_flop-rebuilt : visit_state_table infos is_mutable flip_flop ≡ rewritten rebuilt
unfolding visit_state_table rebuild move_reset finish split_last sensitise_clock sensitise_reset
    check_reset alt_for_reset add_sensitivity remove_sensitivity states_calls actions_calls
    value_calls action_tests is_edge_function_name reads_mutable_state
flip_flop-rebuilt = refl

analysed :
    IsAnalysed apply perform is_mutable infos 0 1 reset_test clear edge_test capture flip_flop
unfolding eval contains remove_sensitivity
analysed = record {
  clock_found = refl;
  reset_kind_found = refl;
  reset_found = refl;
  front_found = refl;
  clock_listed = refl;
  reset_listed = refl;
  edge_tested = λ old new. ground arith;
  level_tested = λ old new. ground arith;
}

-- The input goes to 1, the clock rises, the reset is asserted.
abbrev events : List (Env → Env)
events = (λ e. update e 3 1) ∷ (λ e. update e 0 1) ∷ (λ e. update e 1 1) ∷ []

run-visit_state_table_example :
    run (vhdl_step apply perform flip_flop) events (λ d. 0)
    ≡ run (verilog_step apply perform rebuilt) events (λ d. 0)
unfolding exec eval drives
run-visit_state_table_example =
    run-visit_state_table apply perform is_mutable infos 0 1 reset_test clear edge_test capture
      flip_flop rebuilt events (λ d. 0) flip_flop-rebuilt analysed
      (λ old new. (ground arith, λ d m. ground arith))
      (
        (λ e. (λ d m. ground arith, λ x d. ground arith)),
        (
          (λ e. (λ d m. ground arith, λ x d. ground arith)),
          ((λ e. (λ d m. ground arith, λ x d. ground arith)), tt),
        ),
      )
      (λ r. cc)

abbrev plain_infos : ProcessInfos
plain_infos = record infos { reset_kind = no_reset; reset = none }

abbrev plain : StateTable
plain = record flip_flop {
  sensitivity = identifier 0 ∷ [];
  front = without_reset edge_test capture;
}

abbrev plain_rebuilt : StateTable
plain_rebuilt = record plain {
  sensitivity = [];
  sensitivity_pos = identifier 0 ∷ [];
  front = drop_edge_test no_alts capture;
}

plain_is_rebuilt : visit_state_table plain_infos is_mutable plain ≡ rewritten plain_rebuilt
unfolding visit_state_table rebuild move_reset finish split_last sensitise_clock add_sensitivity
    remove_sensitivity states_calls actions_calls value_calls action_tests is_edge_function_name
plain_is_rebuilt = refl

run-clocked_example :
    run (vhdl_step apply perform plain) events (λ d. 0)
    ≡ run (verilog_step apply perform plain_rebuilt) events (λ d. 0)
unfolding eval contains
run-clocked_example =
    run-clocked apply perform is_mutable plain_infos 0 edge_test capture plain plain_rebuilt events
      (λ d. 0) plain_is_rebuilt
      (record {
        clock_found = refl;
        no_asynchronous = inr refl;
        front_found = refl;
        clock_listed = refl;
        edge_tested = λ old new. ground arith;
      })

-- A process that also waits for its input is refused: the input would run the clocked branch.
latch_refused :
    visit_state_table infos is_mutable
      (record flip_flop { sensitivity = identifier 0 ∷ identifier 1 ∷ identifier 3 ∷ [] })
    ≡ refused other_sensitivity
unfolding visit_state_table rebuild move_reset finish split_last sensitise_clock sensitise_reset
    check_reset alt_for_reset add_sensitivity remove_sensitivity states_calls actions_calls
    value_calls action_tests is_edge_function_name reads_mutable_state
latch_refused = refl
