-- ===== src/Hif2verilog/ClockedProcess.antt =====
-- src/hif2verilog/PostRefine_process.cpp: `PostRefine_process::visitStateTable`, which rebuilds the
-- edge sensitivity of Verilog for a process that tests its clock's edge in its body, as VHDL does.
-- The trees are hif-core's, cut down to what the pass reads: declarations are numbers, and an
-- action that is neither an assignment nor an if keeps only its values. What hif-core's
-- `analyzeProcesses` answers is the argument `infos`, what its `getAllReferences` finds to be a
-- signal, a port or a variable is `is_mutable`.
pub mod Semantics
pub mod Reset
pub mod Rewriting
pub mod Equivalence
pub mod Unreset
pub mod EdgeFree
use hif_backend.Prelude.{
  ℕ, zero, suc, ◌+◌, ◌≡◌, refl, Bool, true, false, ◌&&◌, ◌||◌, not, List, [], ◌∷◌, ◌++◌, Option,
  none, some, Bytes, codes, bytes_eq, is_empty, ◌==◌, if◌then◌else◌,
}

mutual
  pub data Value : Type 0 where
    literal : ℕ → Value
    identifier : ℕ → Value
    function_call : Bytes → Values → Value

  pub data Values : Type 0 where
    no_values : Values
    values : Value → Values → Values

mutual
  pub data Action : Type 0 where
    assign : ℕ → Value → Action
    if_action : Alts → Actions → Action
    other_action : Values → Action

  pub data Actions : Type 0 where
    no_actions : Actions
    actions : Action → Actions → Actions

  pub data Alts : Type 0 where
    no_alts : Alts
    alts : Value → Actions → Alts → Alts

-- A `StateTable`; `front` is the first of its states.
pub record StateTable : Type 0 where
  pub is_process : Bool
  pub sensitivity : List Value
  pub sensitivity_pos : List Value
  pub sensitivity_neg : List Value
  pub front : Actions
  pub other_states : List Actions

pub data ProcessKind : Type 0 where
  synchronous derived_synchronous asynchronous : ProcessKind

pub data WorkingEdge : Type 0 where
  rising_edge falling_edge both_edges no_edge : WorkingEdge

pub data ResetKind : Type 0 where
  no_reset synchronous_reset asynchronous_reset : ResetKind

pub data ResetPhase : Type 0 where
  low_phase high_phase : ResetPhase

-- `analysis::ProcessInfos`.
pub record ProcessInfos : Type 0 where
  pub process_kind : ProcessKind
  pub working_edge : WorkingEdge
  pub clock : Option ℕ
  pub reset_kind : ResetKind
  pub reset : Option ℕ
  pub reset_phase : ResetPhase

-- The assertions of the pass, in their order.
pub data Refusal : Type 0 where
  already_edge_qualified : Refusal
  unsupported_form : Refusal
  not_a_condition : Refusal
  statements_outside : Refusal
  not_the_last : Refusal
  reset_does_more : Refusal
  reset_reads_state : Refusal
  other_sensitivity : Refusal

pub data Outcome : Type 0 where
  unchanged : Outcome
  rewritten : StateTable → Outcome
  refused : Refusal → Outcome

-- `isEdgeFunctionName`.
unfoldable pub is_edge_function_name : Bytes → Bool
is_edge_function_name n =
    bytes_eq n (codes "hif_vhdl_event")
    || bytes_eq n (codes "hif_vhdl_rising_edge")
    || bytes_eq n (codes "hif_vhdl_falling_edge")

-- `collectEdgeCalls`: how many calls of an edge function stand under an object.
unfoldable mutual
  pub value_calls : Value → ℕ
  value_calls (literal n) = 0
  value_calls (identifier d) = 0
  value_calls (function_call f vs) =
      let below = values_calls vs in if is_edge_function_name f then suc below else below

  pub values_calls : Values → ℕ
  values_calls no_values = 0
  values_calls (values v vs) = value_calls v + values_calls vs

unfoldable mutual
  pub action_calls : Action → ℕ
  action_calls (assign t v) = value_calls v
  action_calls (if_action acts ds) = alts_calls acts + actions_calls ds
  action_calls (other_action vs) = values_calls vs

  pub actions_calls : Actions → ℕ
  actions_calls no_actions = 0
  actions_calls (actions a acts) = action_calls a + actions_calls acts

  pub alts_calls : Alts → ℕ
  alts_calls no_alts = 0
  alts_calls (alts c acts rest) = value_calls c + actions_calls acts + alts_calls rest

unfoldable pub states_calls : List Actions → ℕ
states_calls [] = 0
states_calls (s ∷ ss) = actions_calls s + states_calls ss

-- The call stands in the condition of the innermost if alternative around it: with one call in the
-- process, some condition holds it.
unfoldable mutual
  pub action_tests : Action → Bool
  action_tests (assign t v) = false
  action_tests (if_action acts ds) = alts_test acts || actions_test ds
  action_tests (other_action vs) = false

  pub actions_test : Actions → Bool
  actions_test no_actions = false
  actions_test (actions a acts) = action_tests a || actions_test acts

  pub alts_test : Alts → Bool
  alts_test no_alts = false
  alts_test (alts c acts rest) = not (value_calls c == 0) || actions_test acts || alts_test rest

states_test : List Actions → Bool
states_test [] = false
states_test (s ∷ ss) = actions_test s || states_test ss

-- A condition of these alternatives holds the call.
own_test : Alts → Bool
own_test no_alts = false
own_test (alts c acts rest) = not (value_calls c == 0) || own_test rest

-- The last alternative: those before it, its condition and its actions.
unfoldable pub split_last : Alts → Option (Alts × Value × Actions)
split_last no_alts = none
split_last (alts c acts no_alts) = some (no_alts, c, acts)
split_last (alts c acts (alts c' acts' rest)) = elim (split_last (alts c' acts' rest)) [
  | none ↦ none
  | some (before, last, body) ↦ some (alts c acts before, last, body)
]

-- `readsMutableState`.
unfoldable mutual
  pub reads_mutable_state : (ℕ → Bool) → Value → Bool
  reads_mutable_state is_mutable (literal n) = false
  reads_mutable_state is_mutable (identifier d) = is_mutable d
  reads_mutable_state is_mutable (function_call f vs) = values_read is_mutable vs

  pub values_read : (ℕ → Bool) → Values → Bool
  values_read is_mutable no_values = false
  values_read is_mutable (values v vs) =
      reads_mutable_state is_mutable v || values_read is_mutable vs

-- `altForReset`: the actions of the first alternative other than the clocked one.
unfoldable pub alt_for_reset : Alts → Actions
alt_for_reset no_alts = no_actions
alt_for_reset (alts c acts rest) = acts

-- The loop over the reset branch; `none` means that every action passes.
unfoldable pub check_reset : (ℕ → Bool) → Actions → Option Refusal
check_reset is_mutable no_actions = none
check_reset is_mutable (actions (assign t v) acts) =
    if reads_mutable_state is_mutable v then some reset_reads_state else check_reset is_mutable acts
check_reset is_mutable (actions (if_action bs ds) acts) = some reset_does_more
check_reset is_mutable (actions (other_action vs) acts) = some reset_does_more

names : ℕ → Value → Bool
names d (literal n) = false
names d (identifier e) = e == d
names d (function_call f vs) = false

-- `_addSensitivity`: appended, unless the list names the declaration already.
unfoldable pub add_sensitivity : List Value → ℕ → List Value
unfolding names
add_sensitivity [] d = identifier d ∷ []
add_sensitivity (v ∷ vs) d = if names d v then v ∷ vs else v ∷ add_sensitivity vs d

-- `_removeSensitivity`: the first entry that names the declaration.
unfoldable pub remove_sensitivity : List Value → ℕ → List Value
unfolding names
remove_sensitivity [] d = []
remove_sensitivity (v ∷ vs) d = if names d v then vs else v ∷ remove_sensitivity vs d

-- The tests that the classification has to pass: one clock, one edge, one place of the test.
unfoldable pub is_synchronous : ProcessKind → Bool
is_synchronous asynchronous = false
is_synchronous _ = true

unfoldable pub has_single_edge : WorkingEdge → Bool
has_single_edge rising_edge = true
has_single_edge falling_edge = true
has_single_edge _ = false

-- The edge of the clock, moved into the sensitivity lists.
unfoldable pub sensitise_clock : WorkingEdge → ℕ → StateTable → StateTable
sensitise_clock rising_edge clock o = record o {
  sensitivity_pos = add_sensitivity o.sensitivity_pos clock;
  sensitivity = remove_sensitivity o.sensitivity clock;
}
sensitise_clock _ clock o = record o {
  sensitivity_neg = add_sensitivity o.sensitivity_neg clock;
  sensitivity = remove_sensitivity o.sensitivity clock;
}

-- The assertion edge of an asynchronous reset.
unfoldable pub sensitise_reset : ResetPhase → ℕ → StateTable → StateTable
sensitise_reset low_phase reset o = record o {
  sensitivity_neg = add_sensitivity o.sensitivity_neg reset;
  sensitivity = remove_sensitivity o.sensitivity reset;
}
sensitise_reset high_phase reset o = record o {
  sensitivity_pos = add_sensitivity o.sensitivity_pos reset;
  sensitivity = remove_sensitivity o.sensitivity reset;
}

-- The clocked branch becomes the else; with no other alternative it replaces the statement.
unfoldable pub drop_edge_test : Alts → Actions → Actions
drop_edge_test no_alts body = body
drop_edge_test (alts c acts rest) body = actions (if_action (alts c acts rest) body) no_actions

-- From the point where all sensitivities are moved.
unfoldable pub finish : Alts → Actions → StateTable → Outcome
finish before body o =
    if not (is_empty o.sensitivity)
    then refused other_sensitivity
    else rewritten (record o { front = drop_edge_test before body })

-- The treatment of the reset, where there is an asynchronous one.
unfoldable pub move_reset : ProcessInfos → (ℕ → Bool) → Alts → Actions → StateTable → Outcome
move_reset infos is_mutable before body o = elim infos.reset_kind [
  | asynchronous_reset ↦ elim infos.reset [
    | none ↦ finish before body o
    | some reset ↦ elim (check_reset is_mutable (alt_for_reset before)) [
      | none ↦ finish before body (sensitise_reset infos.reset_phase reset o)
      | some why ↦ refused why
    ]
  ]
  | _ ↦ finish before body o
]

-- The shape of the body: one if, whose last alternative tests the edge and which has no else.
unfoldable pub rebuild : ProcessInfos → (ℕ → Bool) → ℕ → StateTable → Actions → Outcome
unfolding own_test
rebuild infos is_mutable clock o (actions (if_action others defaults) no_actions) =
    if not (own_test others) then refused statements_outside else elim (split_last others) [
      | none ↦ refused statements_outside
      | some (before, test, body) ↦ elim defaults [
        | no_actions ↦
            if value_calls test == 0
            then refused not_the_last
            else move_reset infos is_mutable before body
                (sensitise_clock infos.working_edge clock o)
        | actions a acts ↦ refused not_the_last
      ]
    ]
rebuild infos is_mutable clock o _ = refused statements_outside

unfoldable pub visit_state_table : ProcessInfos → (ℕ → Bool) → StateTable → Outcome
unfolding is_synchronous has_single_edge states_calls states_test
visit_state_table infos is_mutable o =
    let calls = states_calls (o.front ∷ o.other_states) in
    if not o.is_process
    then unchanged
    else if calls == 0
    then unchanged
    else if not (is_empty o.sensitivity_pos && is_empty o.sensitivity_neg)
    then refused already_edge_qualified
    else if not
        (is_synchronous infos.process_kind && has_single_edge infos.working_edge && calls == 1)
    then refused unsupported_form
    else elim infos.clock [
      | none ↦ refused unsupported_form
      | some clock ↦
          if not (states_test (o.front ∷ o.other_states))
          then refused not_a_condition
          else rebuild infos is_mutable clock o o.front
    ]
