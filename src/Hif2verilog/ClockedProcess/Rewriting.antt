-- ===== src/Hif2verilog/ClockedProcess/Rewriting.antt =====
-- src/hif2verilog/PostRefine_process.cpp: the shape of an accepted process and of what the pass
-- makes of it, and when either wakes and runs.
use Prim.Native.Nat.{ℕ, ◌≤◌}
use hif_backend.Prelude.{
  ◌≡◌, ◌≢◌, refl, Bool, true, ◌||◌, List, [], ◌∷◌, none, some, Bytes, ◌==◌, arith, any,
  if◌then◌else◌,
}
use hif_backend.Hif2verilog.ClockedProcess.{
  Value, literal, identifier, function_call, if_action, Actions, no_actions, actions, Alts, alts,
  no_alts, StateTable, ProcessInfos, WorkingEdge, rising_edge, ResetPhase, low_phase, high_phase,
  asynchronous_reset, rewritten, value_calls, actions_calls, check_reset, add_sensitivity,
  remove_sensitivity, visit_state_table, names, rebuild, move_reset, sensitise_clock,
  sensitise_reset, finish, drop_edge_test, split_last, alt_for_reset,
}
use hif_backend.Hif2verilog.ClockedProcess.Semantics.{Env, rose, fell, eval, exec, any_read}

-- The list names the declaration.
unfoldable pub contains : List Value → ℕ → Bool
unfolding names
contains vs d = any (names d) vs

-- An event on the clock that the process works on.
abbrev pub working : WorkingEdge → Env → Env → ℕ → Bool
working rising_edge old new d = rose old new d
working _ old new d = fell old new d

-- The reset is active.
abbrev pub active : ResetPhase → Env → ℕ → Bool
active low_phase e d = e d == 0
active high_phase e d = e d == 1

pub any-remove_sensitivity :
    (vs : List Value) (d : ℕ) (test : ℕ → Bool)
    → contains vs d ≡ true
    → any (any_read test) vs ≡ (test d || any (any_read test) (remove_sensitivity vs d))
unfolding contains remove_sensitivity any_read
any-remove_sensitivity [] d test h = cc
any-remove_sensitivity (literal n ∷ vs) d test h = ground (arith, any-remove_sensitivity vs d test)
any-remove_sensitivity (identifier e ∷ vs) d test h =
    ground (arith, any-remove_sensitivity vs d test)
any-remove_sensitivity (function_call f ws ∷ vs) d test h =
    ground (arith, any-remove_sensitivity vs d test)

-- The body of a process with an asynchronous reset: `if c then branch elsif test then body`.
abbrev pub with_reset : Value → Actions → Value → Actions → Actions
with_reset c branch test body =
    actions (if_action (alts c branch (alts test body no_alts)) no_actions) no_actions

module _ (infos : ProcessInfos) (is_mutable : ℕ → Bool) (clock reset : ℕ) (c : Value)
    (branch : Actions) (test : Value) (body : Actions) where
  pub visit-rebuild :
      (o : StateTable) {o' : StateTable}
      → infos.clock ≡ some clock
      → visit_state_table infos is_mutable o ≡ rewritten o'
      → (o.sensitivity_pos ≡ [])
        × (o.sensitivity_neg ≡ [])
        × (actions_calls o.front ≤ 1)
        × (rebuild infos is_mutable clock o o.front ≡ rewritten o')
  unfolding visit_state_table
  visit-rebuild o hc h = ground arith

  pub rebuild-move_reset :
      (o : StateTable) {o' : StateTable}
      → rebuild infos is_mutable clock o (with_reset c branch test body) ≡ rewritten o'
      → (value_calls test ≢ 0)
        × (move_reset infos is_mutable
              (alts c branch no_alts)
              body
              (sensitise_clock infos.working_edge clock o)
            ≡ rewritten o')
  unfolding rebuild split_last
  rebuild-move_reset o h = ground arith

  pub move_reset-finish :
      (o : StateTable) {o' : StateTable}
      → infos.reset_kind ≡ asynchronous_reset
      → infos.reset ≡ some reset
      → move_reset infos is_mutable (alts c branch no_alts) body o ≡ rewritten o'
      → (check_reset is_mutable branch ≡ none)
        × (finish (alts c branch no_alts) body (sensitise_reset infos.reset_phase reset o)
            ≡ rewritten o')
  unfolding move_reset alt_for_reset
  move_reset-finish o hk hr h = ground arith

  pub finish-inv :
      (before : Alts) (o : StateTable) {o' : StateTable}
      → finish before body o ≡ rewritten o'
      → (o.sensitivity ≡ []) × (o' ≡ record o { front = drop_edge_test before body })
  unfolding finish
  finish-inv before o h = ground arith

-- The reset becomes active by this event.
abbrev pub asserted : ResetPhase → Env → Env → ℕ → Bool
asserted low_phase old new d = fell old new d
asserted high_phase old new d = rose old new d

-- After the pass the process wakes on the clock's working edge and on the reset's assertion.
pub wakes_rewritten :
    (edge : WorkingEdge) (phase : ResetPhase) (clock reset : ℕ) (o : StateTable) (old new : Env)
    → o.sensitivity_pos ≡ []
    → o.sensitivity_neg ≡ []
    → let t = sensitise_reset phase reset (sensitise_clock edge clock o) in
      (any (any_read (rose old new)) t.sensitivity_pos
        || any (any_read (fell old new)) t.sensitivity_neg)
      ≡ (working edge old new clock || asserted phase old new reset)
unfolding sensitise_reset sensitise_clock add_sensitivity any_read
wakes_rewritten edge phase clock reset o old new p n = ground arith

pub sensitivity_rewritten :
    (edge : WorkingEdge) (phase : ResetPhase) (clock reset : ℕ) (o : StateTable)
    → (sensitise_reset phase reset (sensitise_clock edge clock o)).sensitivity
      ≡ remove_sensitivity (remove_sensitivity o.sensitivity clock) reset
unfolding sensitise_reset sensitise_clock
sensitivity_rewritten edge phase clock reset o = ground arith

module _ (apply : Bytes → List ℕ → ℕ) (perform : List ℕ → Env → Env) (c : Value) (branch : Actions)
    (test : Value) (body : Actions) where
  pub exec-with_reset :
      (old new : Env)
      → exec apply perform old new new (with_reset c branch test body) ≡ (
          if eval apply perform old new c == 0
          then (if eval apply perform old new test == 0
              then new
              else exec apply perform old new new body)
          else exec apply perform old new new branch)
  unfolding exec
  exec-with_reset old new = refl

  pub exec-drop_edge_test :
      (old new : Env)
      → exec apply perform old new new (drop_edge_test (alts c branch no_alts) body) ≡ (
          if eval apply perform old new c == 0
          then exec apply perform old new new body
          else exec apply perform old new new branch)
  unfolding exec drop_edge_test
  exec-drop_edge_test old new = refl

  -- With one call in the whole, and that in the last condition, the reset branch holds none.
  pub calls-branch :
      actions_calls (with_reset c branch test body) ≤ 1
      → value_calls test ≢ 0
      → actions_calls branch ≡ 0
  unfolding actions_calls
  calls-branch h n = ground arith
