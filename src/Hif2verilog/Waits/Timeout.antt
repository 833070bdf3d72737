-- ===== src/Hif2verilog/Waits/Timeout.antt =====
-- src/hif2verilog/VerilogPrinter.cpp: the waits with a time always go on.
use hif_backend.Prelude.{
  ℕ, zero, suc, ◌+◌, ◌≤◌, ◌<◌, ◌≡◌, ◌≢◌, refl, ap, ◌∙◌, Bool, true, false, inl, inr, some, Bytes,
  arith, Bool-cases,
}
use hif_backend.Hif2verilog.Waits.{Edge, Wait, Statement, printed, visit_wait, says_nothing}
use hif_backend.Hif2verilog.Waits.Meaning.{first, resumes, resumes_after}
use hif_backend.Hif2verilog.Waits.Resumption.{visit_wait-resumes}

first-within :
    (p : ℕ → Bool) (n k m : ℕ)
    → p m ≡ true
    → k ≤ m
    → m < k + n
    → (j : ℕ) × (first p n k ≡ some j) × (j ≤ m) × (p j ≡ true)
first-within p zero k m h le lt = let absurd : ⊥ = omega arith in elim absurd [ ]
first-within p (suc n) k m h le lt = elim (Bool-cases (p k)) [
  | inl now ↦ (k, rw now refl, le, now)
  | inr later ↦
      let other : k ≢ m = λ e. let at_m : p k ≡ true = ap p e ∙ h in cc in
      let after : suc k ≤ m = omega (arith, le, other) in
      let (j, e, below, holds_then) = first-within p n (suc k) m h after (omega arith) in
      (j, rw later e, below, holds_then)
]

module _ (C S D : Type 0) (holds : C → ℕ → Bool) (changes : Edge → S → ℕ → Bool)
    (steps : D → ℕ) where
  -- A process that reaches a wait with a time, and goes on behind what is printed for it, goes on
  -- within that time, whatever the signals and the condition do, and at a step at which the wait
  -- is over.
  pub visit_wait-goes_on :
      (label : Bytes) (o : Wait C S D) (s : Statement C S D) (d : D)
      → visit_wait C S D label o ≡ printed s
      → o.time ≡ some d
      → (k : ℕ) × (resumes_after C S D holds changes steps (suc (steps d)) s ≡ some k)
        × (k ≤ steps d)
        × (resumes C S D holds changes steps o k ≡ true)
  unfolding says_nothing
  visit_wait-goes_on label o s d h timed =
      let speaks : says_nothing C S D o ≡ false = rw timed (ground arith) in
      let over : resumes C S D holds changes steps o (steps d) ≡ true = rw timed (ground arith) in
      let (k, e, le, held) =
        first-within (resumes C S D holds changes steps o) (suc (steps d)) 0 (steps d) over
          (omega arith) (omega arith) in
      (
        k,
        visit_wait-resumes C S D holds changes steps label o s (suc (steps d)) h speaks ∙ e,
        le,
        held,
      )
