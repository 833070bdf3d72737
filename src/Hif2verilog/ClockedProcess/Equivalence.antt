-- ===== src/Hif2verilog/ClockedProcess/Equivalence.antt =====
-- src/hif2verilog/PostRefine_process.cpp: clocked processes with an asynchronous reset, before and
-- after the pass.
use Prim.Native.Nat.{ℕ, ◌≤◌}
use mathlib.Core.Path.{subst}
use hif_backend.Prelude.{
  ◌≡◌, refl, sym, ◌∙◌, ap, Bool, true, ◌||◌, not, List, [], ◌∷◌, none, some, Bytes, ◌==◌, arith,
  Bool-cases, inl, inr, if◌then◌else◌, All,
}
use hif_backend.Hif2verilog.ClockedProcess.{
  Value, Actions, alts, no_alts, StateTable, ProcessInfos, asynchronous_reset, rewritten, rebuild,
  actions_calls, check_reset, remove_sensitivity, visit_state_table, sensitise_clock,
  sensitise_reset, drop_edge_test,
}
use hif_backend.Hif2verilog.ClockedProcess.Semantics.{
  Env, changed, eval, exec, vhdl_step, verilog_step, run,
}
use hif_backend.Hif2verilog.ClockedProcess.Reset.{
  drives, Agree, IsHeld, exec_of_IsHeld, exec-IsHeld,
}
use hif_backend.Hif2verilog.ClockedProcess.Rewriting.{
  contains, working, active, asserted, with_reset, visit-rebuild, rebuild-move_reset,
  move_reset-finish, calls-branch, finish-inv, wakes_rewritten, sensitivity_rewritten,
  any-remove_sensitivity, exec-with_reset, exec-drop_edge_test,
}

module _ (apply : Bytes → List ℕ → ℕ) (perform : List ℕ → Env → Env) (is_mutable : ℕ → Bool)
    (infos : ProcessInfos) (clock reset : ℕ) (c : Value) (branch : Actions) (test : Value)
    (body : Actions) where
  -- What hif-core's analysis says of the process is so: the process is sensitive to the clock it
  -- names and to the reset, the last condition tests the clock's working edge, and the first one
  -- the reset's active level.
  pub record IsAnalysed (o : StateTable) : Type 0 where
    pub clock_found : infos.clock ≡ some clock
    pub reset_kind_found : infos.reset_kind ≡ asynchronous_reset
    pub reset_found : infos.reset ≡ some reset
    pub front_found : o.front ≡ with_reset c branch test body
    pub clock_listed : contains o.sensitivity clock ≡ true
    pub reset_listed : contains (remove_sensitivity o.sensitivity clock) reset ≡ true
    pub edge_tested :
        (old new : Env)
        → (eval apply perform old new test == 0) ≡ not (working infos.working_edge old new clock)
    pub level_tested :
        (old new : Env)
        → (eval apply perform old new c == 0) ≡ not (active infos.reset_phase new reset)

  -- A run of the process changes neither the reset nor a constant.
  abbrev pub Spares : StateTable → Type 0
  Spares o =
      (old new : Env)
      → (exec apply perform old new new o.front reset ≡ new reset)
        × Agree is_mutable new (exec apply perform old new new o.front)

  -- The rest of the design changes neither a constant nor what the reset branch assigns.
  abbrev pub Respects : (Env → Env) → Type 0
  Respects event =
      (e : Env)
      → Agree is_mutable e (event e) × ((x : ℕ) → drives branch x ≡ true → event e x ≡ e x)

  -- While the reset is active, the values are as the reset branch leaves them.
  abbrev pub IsReset : Env → Type 0
  IsReset e = active infos.reset_phase e reset ≡ true → IsHeld apply perform is_mutable branch e

  -- What acceptance by the pass says.
  pub record IsAccepted (o o' : StateTable) : Type 0 where
    pub settled : check_reset is_mutable branch ≡ none
    pub calls : actions_calls branch ≡ 0
    pub pos_empty : o.sensitivity_pos ≡ []
    pub neg_empty : o.sensitivity_neg ≡ []
    pub levels_empty : remove_sensitivity (remove_sensitivity o.sensitivity clock) reset ≡ []
    pub result :
        o'
        ≡ record (sensitise_reset infos.reset_phase reset
            (sensitise_clock infos.working_edge clock o)) {
              front = drop_edge_test (alts c branch no_alts) body;
            }

  accepted :
      (o : StateTable) {o' : StateTable}
      → IsAnalysed o
      → visit_state_table infos is_mutable o ≡ rewritten o'
      → IsAccepted o o'
  accepted o {o'} a h =
      let (p, n, few, r) =
        visit-rebuild infos is_mutable clock reset c branch test body o a.clock_found h in
      let (tested, m) = rebuild-move_reset infos is_mutable clock reset c branch test body o (
        subst (λ (t : Actions). rebuild infos is_mutable clock o t ≡ rewritten o') a.front_found
          r) in
      let (settled, f) =
        move_reset-finish infos is_mutable clock reset c branch test body
          (sensitise_clock infos.working_edge clock o) a.reset_kind_found a.reset_found m in
      let (levels, result) =
        finish-inv infos is_mutable clock reset c branch test body (alts c branch no_alts) _ f in
      record {
        settled = settled;
        calls =
            calls-branch apply perform c branch test body
              (subst (λ (t : Actions). actions_calls t ≤ 1) a.front_found few) tested;
        pos_empty = p;
        neg_empty = n;
        levels_empty =
            sym (sensitivity_rewritten infos.working_edge infos.reset_phase clock reset o) ∙ levels;
        result = result;
      }

  vhdl_step_lem :
      (o : StateTable) {o' : StateTable} (old new : Env)
      → IsAnalysed o
      → IsAccepted o o'
      → vhdl_step apply perform o old new ≡ (
          if changed old new clock || changed old new reset
          then exec apply perform old new new (with_reset c branch test body)
          else new)
  unfolding vhdl_step
  vhdl_step_lem o old new a k = ground (
    arith,
    any-remove_sensitivity o.sensitivity clock (changed old new),
    any-remove_sensitivity (remove_sensitivity o.sensitivity clock) reset (changed old new),
  )

  verilog_step_lem :
      (o : StateTable) {o' : StateTable} (old new : Env)
      → IsAccepted o o'
      → verilog_step apply perform o' old new ≡ (
          if working infos.working_edge old new clock || asserted infos.reset_phase old new reset
          then exec apply perform old new new (drop_edge_test (alts c branch no_alts) body)
          else new)
  unfolding verilog_step
  verilog_step_lem o {o'} old new k = ground (
    arith,
    sensitivity_rewritten infos.working_edge infos.reset_phase clock reset o,
    wakes_rewritten infos.working_edge infos.reset_phase clock reset o old new,
  )

  -- One event, from values that are reset while the reset is active.
  step-eq :
      (o : StateTable) {o' : StateTable} (old new : Env)
      → IsAnalysed o
      → IsAccepted o o'
      → IsReset old
      → Agree is_mutable old new
      → ((x : ℕ) → drives branch x ≡ true → new x ≡ old x)
      → vhdl_step apply perform o old new ≡ verilog_step apply perform o' old new
  step-eq o old new a k held agree kept =
      let idle : active infos.reset_phase old reset ≡ true
          → exec apply perform old new new branch ≡ new =
        λ r.
          exec_of_IsHeld apply perform is_mutable branch old old new k.settled k.calls (held r)
            agree kept in
      rw (vhdl_step_lem o old new a k, verilog_step_lem o old new k)
        (ground (
          arith,
          exec-with_reset apply perform c branch test body old new,
          exec-drop_edge_test apply perform c branch test body old new,
          a.edge_tested old new,
          a.level_tested old new,
          idle,
        ))

  abbrev SparesAt : Env → Env → Actions → Type 0
  SparesAt old new front =
      (exec apply perform old new new front reset ≡ new reset)
      × Agree is_mutable new (exec apply perform old new new front)

  -- A run that ends with the reset active has run the reset branch.
  run_of_active :
      {o o' : StateTable} (old new : Env)
      → IsAnalysed o
      → IsAccepted o o'
      → SparesAt old new (with_reset c branch test body)
      → IsReset (exec apply perform old new new (with_reset c branch test body))
  run_of_active old new a k (same, agree) r =
      let out = exec apply perform old new new (with_reset c branch test body) in
      let on : active infos.reset_phase new reset ≡ true = ground (arith, same) in
      let e : out ≡ exec apply perform old new new branch = ground (
        arith,
        on,
        a.level_tested old new,
        exec-with_reset apply perform c branch test body old new,
      ) in
      subst (IsHeld apply perform is_mutable branch) (sym e) (
        exec-IsHeld apply perform is_mutable branch old new k.settled k.calls
          (subst (Agree is_mutable new) e agree))

  -- After it the values are reset again, if the reset is active.
  step-IsReset :
      (o : StateTable) {o' : StateTable} (old new : Env)
      → IsAnalysed o
      → IsAccepted o o'
      → Spares o
      → IsReset old
      → Agree is_mutable old new
      → ((x : ℕ) → drives branch x ≡ true → new x ≡ old x)
      → IsReset (vhdl_step apply perform o old new)
  step-IsReset o old new a k spares held agree kept =
      elim (Bool-cases (changed old new clock || changed old new reset)) [
        | inl y ↦
            rw (vhdl_step_lem o old new a k, y)
              (run_of_active old new a k (subst (SparesAt old new) a.front_found (spares old new)))
        | inr n ↦
            rw (vhdl_step_lem o old new a k, n)
              (λ r old' x d.
                let before : active infos.reset_phase old reset ≡ true = ground arith in
                ap (λ (f : Env). f x)
                  (exec_of_IsHeld apply perform is_mutable branch old' old new k.settled k.calls
                    (held before) agree kept))
      ]

  -- If the pass rewrites a process whose one condition tests an asynchronous reset and then the edge
  -- of the clock, and the analysis describes that process rightly (it is sensitive to the clock and
  -- to the reset, its first test holds exactly where the reset is active and its second one exactly
  -- at the working edge of the clock); if a run of the process changes neither the reset nor a
  -- constant, and the rest of the design changes neither a constant nor what the reset branch
  -- assigns; and if the first values are as the reset branch leaves them where the reset is active:
  -- then, from those values and at every sequence of events, the rewritten process under the rules
  -- of Verilog leaves the values that the given one leaves under those of VHDL.
  pub run-visit_state_table :
      (o o' : StateTable) (events : List (Env → Env)) (e : Env)
      → visit_state_table infos is_mutable o ≡ rewritten o'
      → IsAnalysed o
      → Spares o
      → All Respects events
      → IsReset e
      → run (vhdl_step apply perform o) events e ≡ run (verilog_step apply perform o') events e
  unfolding run
  run-visit_state_table o o' [] e h a spares hs held = refl
  run-visit_state_table o o' (event ∷ events) e h a spares (hv, hs) held =
      let k = accepted o a h in
      let (agree, kept) = hv e in
      let same = step-eq o e (event e) a k held agree kept in
      run-visit_state_table o o' events (vhdl_step apply perform o e (event e)) h a spares hs
        (step-IsReset o e (event e) a k spares held agree kept)
      ∙ ap (run (verilog_step apply perform o') events) same
