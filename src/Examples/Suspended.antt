-- ===== src/Examples/Suspended.antt =====
-- Waits with several clauses over a few steps of simulation.
use hif_backend.Prelude.{
  ℕ, ◌≤◌, ◌≡◌, refl, Bool, true, false, [], ◌∷◌, none, some, codes, leb, ◌==◌,
}
use hif_backend.Hif2verilog.Waits.{
  Edge, level, Wait, delay, disable, event_control, disable_if, once, forever, Statement,
  named_fork, visit_wait, is_retriggerable, resumable, print_multi_clause_wait, resuming_branch,
  print_event_control, says_nothing,
}
use hif_backend.Hif2verilog.Waits.Meaning.{first, resumes, resumes_after}
use hif_backend.Hif2verilog.Waits.Resumption.{visit_wait-resumes}
use hif_backend.Hif2verilog.Waits.Timeout.{visit_wait-goes_on}

-- `wait on 0 until 5 for 8`: condition n holds from step n on, and signal 0 changes at step 3 only.
abbrev holds : ℕ → ℕ → Bool
holds c k = leb c k

abbrev changes : Edge → ℕ → ℕ → Bool
changes e s k = k == 3

abbrev gated : Wait ℕ ℕ ℕ
gated = record {
  condition = some 5;
  sensitivity = 0 ∷ [];
  sensitivity_pos = [];
  sensitivity_neg = [];
  time = some 8;
  has_repetitions = false;
  has_actions = false;
  is_loop_tail = false;
}

abbrev forked : Statement ℕ ℕ ℕ
forked =
    named_fork (codes "hif_wait")
      (forever (event_control ((level, 0) ∷ []) ∷ disable_if 5 (codes "hif_wait") ∷ []))
      (once (delay 8 ∷ disable (codes "hif_wait") ∷ []))

visit_wait-resumes_example :
    resumes_after ℕ ℕ ℕ holds changes (λ d. d) 20 forked
    ≡ first (resumes ℕ ℕ ℕ holds changes (λ d. d) gated) 20 0
unfolding visit_wait print_multi_clause_wait resuming_branch print_event_control says_nothing
visit_wait-resumes_example =
    visit_wait-resumes ℕ ℕ ℕ holds changes (λ d. d) (codes "hif_wait") gated forked 20 refl refl

-- The event at step 3 comes before the condition holds, so that the time ends the wait.
gated_resumes : resumes_after ℕ ℕ ℕ holds changes (λ d. d) 20 forked ≡ some 8
gated_resumes = refl

visit_wait-goes_on_example :
    (k : ℕ) × (resumes_after ℕ ℕ ℕ holds changes (λ d. d) 9 forked ≡ some k)
    × (k ≤ 8)
    × (resumes ℕ ℕ ℕ holds changes (λ d. d) gated k ≡ true)
unfolding visit_wait print_multi_clause_wait resuming_branch print_event_control
visit_wait-goes_on_example =
    visit_wait-goes_on ℕ ℕ ℕ holds changes (λ d. d) (codes "hif_wait") gated forked 8 refl refl

-- A process that only waits in this way is retriggerable; one that also suspends for ever is not.
gated_retriggerable : is_retriggerable ℕ ℕ ℕ false (gated ∷ []) ≡ true
unfolding is_retriggerable resumable says_nothing
gated_retriggerable = refl

abbrev suspended : Wait ℕ ℕ ℕ
suspended = record gated { condition = none; sensitivity = []; time = none }

suspended_once : is_retriggerable ℕ ℕ ℕ false (gated ∷ suspended ∷ []) ≡ false
unfolding is_retriggerable resumable says_nothing
suspended_once = refl
