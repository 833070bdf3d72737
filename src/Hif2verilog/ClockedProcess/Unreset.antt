-- ===== src/Hif2verilog/ClockedProcess/Unreset.antt =====
-- src/hif2verilog/PostRefine_process.cpp: clocked processes with no asynchronous reset.
use Prim.Native.Nat.{ℕ}
use mathlib.Core.Path.{subst}
use hif_backend.Prelude.{
  ◌≡◌, refl, ◌∙◌, ap, Bool, true, ◌||◌, not, List, [], ◌∷◌, some, Bytes, ◌==◌, arith, any,
  if◌then◌else◌, ◌⊎◌,
}
use hif_backend.Hif2verilog.ClockedProcess.{
  Value, Actions, no_actions, actions, if_action, alts, no_alts, StateTable, ProcessInfos,
  synchronous_reset, no_reset, rewritten, remove_sensitivity, visit_state_table, sensitise_clock,
  drop_edge_test, move_reset, rebuild, split_last, add_sensitivity, finish,
}
use hif_backend.Hif2verilog.ClockedProcess.Semantics.{
  Env, changed, rose, fell, eval, exec, any_read, vhdl_step, verilog_step, run,
}
use hif_backend.Hif2verilog.ClockedProcess.Rewriting.{
  contains, working, visit-rebuild, finish-inv, any-remove_sensitivity,
}

-- The body of a process without one: `if test then body`.
abbrev pub without_reset : Value → Actions → Actions
without_reset test body = actions (if_action (alts test body no_alts) no_actions) no_actions

sensitise_clock_lem :
    (infos : ProcessInfos) (clock : ℕ) (o : StateTable) (old new : Env)
    → o.sensitivity_pos ≡ []
    → o.sensitivity_neg ≡ []
    → let t = sensitise_clock infos.working_edge clock o in
      (t.sensitivity ≡ remove_sensitivity o.sensitivity clock)
      × ((any (any_read (rose old new)) t.sensitivity_pos
            || any (any_read (fell old new)) t.sensitivity_neg)
          ≡ working infos.working_edge old new clock)
unfolding sensitise_clock add_sensitivity any_read
sensitise_clock_lem infos clock o old new p n = ground arith

module _ (apply : Bytes → List ℕ → ℕ) (perform : List ℕ → Env → Env) (is_mutable : ℕ → Bool)
    (infos : ProcessInfos) (clock : ℕ) (test : Value) (body : Actions) where
  -- What hif-core's analysis says is so: the process is sensitive to the clock it names, has no
  -- asynchronous reset, and its one condition tests the clock's working edge.
  pub record IsClocked (o : StateTable) : Type 0 where
    pub clock_found : infos.clock ≡ some clock
    pub no_asynchronous : (infos.reset_kind ≡ synchronous_reset) ⊎ (infos.reset_kind ≡ no_reset)
    pub front_found : o.front ≡ without_reset test body
    pub clock_listed : contains o.sensitivity clock ≡ true
    pub edge_tested :
        (old new : Env)
        → (eval apply perform old new test == 0) ≡ not (working infos.working_edge old new clock)

  rebuild-finish :
      (o : StateTable) {o' : StateTable}
      → (infos.reset_kind ≡ synchronous_reset) ⊎ (infos.reset_kind ≡ no_reset)
      → rebuild infos is_mutable clock o (without_reset test body) ≡ rewritten o'
      → finish no_alts body (sensitise_clock infos.working_edge clock o) ≡ rewritten o'
  unfolding rebuild split_last move_reset
  rebuild-finish o k h = ground arith

  exec-without_reset :
      (old new : Env)
      → exec apply perform old new new (without_reset test body) ≡ (
          if eval apply perform old new test == 0 then new else exec apply perform old new new body)
  unfolding exec
  exec-without_reset old new = refl

  step-clocked :
      (o : StateTable) {o' : StateTable} (old new : Env)
      → visit_state_table infos is_mutable o ≡ rewritten o'
      → IsClocked o
      → vhdl_step apply perform o old new ≡ verilog_step apply perform o' old new
  unfolding vhdl_step verilog_step drop_edge_test
  step-clocked o {o'} old new h a =
      let (p, n, few, r) =
        visit-rebuild infos is_mutable clock clock test body test body o a.clock_found h in
      let f = rebuild-finish o a.no_asynchronous (
        subst (λ (t : Actions). rebuild infos is_mutable clock o t ≡ rewritten o') a.front_found
          r) in
      let (levels, result) =
        finish-inv infos is_mutable clock clock test body test body no_alts _ f in
      ground (
        arith,
        sensitise_clock_lem infos clock o old new p n,
        any-remove_sensitivity o.sensitivity clock (changed old new) a.clock_listed,
        exec-without_reset old new,
        a.edge_tested old new,
      )

  -- If the pass rewrites a process that is sensitive to its clock, has no asynchronous reset and
  -- whose one condition tests the working edge of the clock, as the analysis says, then from any
  -- values and at every sequence of events the rewritten process under the rules of Verilog leaves
  -- the values that the given one leaves under those of VHDL.
  pub run-clocked :
      (o o' : StateTable) (events : List (Env → Env)) (e : Env)
      → visit_state_table infos is_mutable o ≡ rewritten o'
      → IsClocked o
      → run (vhdl_step apply perform o) events e ≡ run (verilog_step apply perform o') events e
  unfolding run
  run-clocked o o' [] e h a = refl
  run-clocked o o' (event ∷ events) e h a =
      run-clocked o o' events (vhdl_step apply perform o e (event e)) h a
      ∙ ap (run (verilog_step apply perform o') events) (step-clocked o e (event e) h a)
