-- ===== src/Hif2vhdl/Sensitivity.antt =====
-- src/hif2vhdl/VhdlPreRefine_misc.cpp: visitStateTable, _buildAndExpression,
-- _buildSensitivityCondition, _moveSensitivities and _fixSynchronousProcess. VHDL wakes a process at
-- every change of a signal of its list; the edges that Verilog lists become a condition. Signals are
-- numbers, `A` are the actions and `C` the conditions of hif-core.
pub mod Events
pub mod Levels
pub mod Triggers
pub mod Processes
use hif_backend.Prelude.{
  ℕ, Bool, true, false, ◌&&◌, ◌||◌, not, List, [], ◌∷◌, ◌++◌, Option, none, some, ◌==◌, is_empty,
  if◌then◌else◌, ◌>>=◌,
}

-- The values that the pass builds.
pub data Condition : Type 0 where
  identifier : ℕ → Condition
  op_not_of op_bnot_of boolean_cast : Condition → Condition
  hif_vhdl_event : ℕ → Condition
  op_and_of op_or_of : Condition → Condition → Condition

pub data ProcessKind : Type 0 where
  asynchronous synchronous derived_synchronous mixed derived_mixed other_kind : ProcessKind

pub data ProcessStyle : Type 0 where
  no_style style_1 style_2 style_3 style_4 style_5 style_6 other_style : ProcessStyle

-- What hif-core finds out about a process.
pub record ProcessInfos : Type 0 where
  pub process_kind : ProcessKind
  pub process_style : ProcessStyle
  pub clock : Option ℕ
  pub reset : Option ℕ
  pub sensitivity : List ℕ
  pub rising_sensitivity : List ℕ
  pub falling_sensitivity : List ℕ

module _ (A C : Type 0) where
  -- The actions of a process: as they are; below an `if`; or with an `if` in front that has one
  -- condition with its actions and a built one with the actions that were its default.
  pub data Body : Type 0 where
    plain : List A → Body
    wrapped : Option Condition → List A → Body
    chained : C → List A → Option Condition → List A → List A → Body

-- A process with a body.
pub record StateTable (B : Type 0) : Type 0 where
  pub is_process : Bool
  pub sensitivity : List ℕ
  pub sensitivity_pos : List ℕ
  pub sensitivity_neg : List ℕ
  pub body : B

abbrev pub is_same : Option ℕ → ℕ → Bool
is_same none s = false
is_same (some d) s = s == d

-- `is_one_bit` and `is_bool` are what hif-core says of the type of a signal.
module _ (is_one_bit is_bool : ℕ → Bool) where
  -- The value for one signal.
  unfoldable pub edge_condition : Option ℕ → Bool → ℕ → Condition
  edge_condition clock is_rising ref =
      let v =
        if is_rising
        then identifier ref
        else if is_bool ref
        then op_not_of (identifier ref)
        else op_bnot_of (identifier ref) in
      let c = if is_bool ref then v else boolean_cast v in
      if is_same clock ref then op_and_of (hif_vhdl_event ref) c else c

  abbrev pub joined : Option Condition → Condition → Condition
  joined none v = v
  joined (some e) v = op_or_of e v

  -- The loop over the signals: nothing where one is not of one bit.
  unfoldable pub build_sensitivity_condition :
      Option ℕ → Option ℕ → Bool → List ℕ → Option Condition → Option (Option Condition)
  build_sensitivity_condition clock skip_reset is_rising [] expr = some expr
  build_sensitivity_condition clock skip_reset is_rising (ref ∷ refs) expr =
      let skipped = build_sensitivity_condition clock skip_reset is_rising refs expr in
      let taken =
        build_sensitivity_condition clock skip_reset is_rising refs
          (some (joined expr (edge_condition clock is_rising ref))) in
      if is_same skip_reset ref then skipped else if is_one_bit ref then taken else none

  unfoldable pub build_and_expression : ProcessInfos → Bool → Option (Option Condition)
  build_and_expression infos skip_reset = do
    high ←
        build_sensitivity_condition infos.clock (if skip_reset then infos.reset else none) true
          infos.sensitivity none
    any ←
        build_sensitivity_condition infos.clock (if skip_reset then infos.reset else none) false
          infos.sensitivity high
    rising ←
        build_sensitivity_condition infos.clock (if skip_reset then infos.reset else none) true
          infos.rising_sensitivity any
    build_sensitivity_condition infos.clock (if skip_reset then infos.reset else none) false
        infos.falling_sensitivity rising

  -- `as_if` gives the condition, the actions and the default actions of an `if` with one
  -- alternative.
  module _ {A C : Type 0} (as_if : A → Option (C × List A × List A)) where
    unfoldable pub wrap : ProcessInfos → List A → Option (Body A C)
    wrap infos actions = do expr ← build_and_expression infos false; some (wrapped expr actions)

    unfoldable pub chain : ProcessInfos → List A → Option (Body A C)
    chain infos [] = none
    chain infos (front ∷ rest) = do
      alt ← as_if front
      expr ← build_and_expression infos true
      some (chained alt.0 alt.1 expr alt.2 rest)

    unfoldable pub fix_synchronous_process : ProcessInfos → List A → Option (Body A C)
    fix_synchronous_process infos actions = elim infos.process_style [
      | style_1 ↦ some (plain actions)
      | style_2 ↦ some (plain actions)
      | style_3 ↦ wrap infos actions
      | style_5 ↦ wrap infos actions
      | style_6 ↦ chain infos actions
      | _ ↦ none
    ]

    abbrev pub fix_body : ProcessInfos → List A → Option (Body A C)
    fix_body infos actions = elim infos.process_kind [
      | asynchronous ↦ wrap infos actions
      | synchronous ↦ fix_synchronous_process infos actions
      | derived_synchronous ↦ fix_synchronous_process infos actions
      | _ ↦ none
    ]

    abbrev pub with_body : StateTable (List A) → Body A C → StateTable (Body A C)
    with_body o b = record {
      is_process = o.is_process;
      sensitivity = o.sensitivity;
      sensitivity_pos = o.sensitivity_pos;
      sensitivity_neg = o.sensitivity_neg;
      body = b;
    }

    unfoldable pub move_sensitivities : StateTable (Body A C) → StateTable (Body A C)
    move_sensitivities o = record o {
      sensitivity = o.sensitivity ++ o.sensitivity_pos ++ o.sensitivity_neg;
      sensitivity_pos = [];
      sensitivity_neg = [];
    }

    -- Nothing where an error ends the program.
    unfoldable pub visit_state_table :
        ProcessInfos → StateTable (List A) → Option (StateTable (Body A C))
    visit_state_table infos o =
        if not o.is_process
        then some (with_body o (plain o.body))
        else if is_empty o.sensitivity_neg && is_empty o.sensitivity_pos
        then some (with_body o (plain o.body))
        else do b ← fix_body infos o.body; some (move_sensitivities (with_body o b))
