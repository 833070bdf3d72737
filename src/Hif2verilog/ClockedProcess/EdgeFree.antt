-- ===== src/Hif2verilog/ClockedProcess/EdgeFree.antt =====
-- src/hif2verilog/PostRefine_process.cpp: what the pass accepts, refuses and leaves alone.
use Prim.Native.Nat.{ℕ}
use hif_backend.Prelude.{◌≡◌, ◌≢◌, Bool, false, [], ◌∷◌, arith, inl, inr, ◌⊎◌, ◌↔◌, Option-cases}
use hif_backend.Hif2verilog.ClockedProcess.{
  Actions, no_actions, actions, assign, other_action, if_action, Alts, StateTable, ProcessInfos,
  rewritten, unchanged, visit_state_table, sensitise_clock, drop_edge_test, move_reset, rebuild,
  split_last, finish, states_calls,
}

module _ (infos : ProcessInfos) (is_mutable : ℕ → Bool) where
  finish-calls :
      (before : Alts) (body : Actions) (o : StateTable) {o' : StateTable}
      → finish before body o ≡ rewritten o'
      → (o'.front ≡ drop_edge_test before body)
        × (o'.other_states ≡ o.other_states)
        × (o'.sensitivity ≡ [])
  unfolding finish
  finish-calls before body o h = ground arith

  move_reset-ne :
      (before : Alts) (body : Actions) (o : StateTable)
      → move_reset infos is_mutable before body o ≢ unchanged
  unfolding move_reset finish
  move_reset-ne before body o h = ground arith

  rebuild-ne :
      (clock : ℕ) (front : Actions) (o : StateTable)
      → rebuild infos is_mutable clock o front ≢ unchanged
  unfolding rebuild
  rebuild-ne clock no_actions o h = cc
  rebuild-ne clock (actions (assign t v) acts) o h = cc
  rebuild-ne clock (actions (other_action vs) acts) o h = cc
  rebuild-ne clock (actions (if_action others defaults) (actions a acts)) o h = cc
  rebuild-ne clock (actions (if_action others defaults) no_actions) o h =
      elim (Option-cases (split_last others)) [
        | inl e ↦ ground (arith, e)
        | inr ((before, test, body), e) ↦
            let t : StateTable = sensitise_clock infos.working_edge clock o in
            ground (
              arith,
              e,
              λ (u : move_reset infos is_mutable before body t ≡ unchanged).
                  move_reset-ne before body t u,
            )
      ]

  -- The pass leaves a state table as it is exactly if it is no process or calls no edge function in
  -- any state.
  visit-unchanged :
      (o : StateTable)
      → (visit_state_table infos is_mutable o ≡ unchanged)
        ↔ ((o.is_process ≡ false) ⊎ (states_calls (o.front ∷ o.other_states) ≡ 0))
  unfolding visit_state_table
  visit-unchanged o = (
    λ h. elim (Option-cases infos.clock) [
      | inl e ↦ ground (arith, e)
      | inr (clock, e) ↦ ground (
        arith,
        e,
        λ (u : rebuild infos is_mutable clock o o.front ≡ unchanged). rebuild-ne clock o.front o u,
      )
    ],
    λ h. ground arith,
  )
