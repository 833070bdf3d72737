-- ===== src/Hif2verilog/Waits/Meaning.antt =====
-- What a wait means in a design, and what the statements mean that src/hif2verilog/VerilogPrinter.cpp
-- prints for it, both over numbered steps of simulation, of which the process reaches the wait at
-- step 0.
use hif_backend.Prelude.{
  ℕ, zero, suc, ◌+◌, Bool, true, false, ◌&&◌, ◌||◌, List, [], ◌∷◌, Option, none, some, any, ltb,
  leb, if◌then◌else◌,
}
use hif_backend.Hif2verilog.Waits.{
  Edge, level, posedge, negedge, Wait, Atom, wait_for, delay, event_control, disable, disable_if,
  Branch, once, forever, Statement, nothing, single, named_block, named_fork, has_sensitivity,
}

-- The first step from a given one on at which something happens, within a number of steps.
abbrev pub first : (ℕ → Bool) → ℕ → ℕ → Option ℕ
first p zero k = none
first p (suc n) k = let later = first p n (suc k) in if p k then some k else later

-- Where a branch stands: what is left of it, and since which step it waits; or it has ended or
-- left the block.
pub data Thread (C S D : Type 0) : Type 0 where
  blocked : ℕ → List (Atom C S D) → Thread C S D
  ended : Thread C S D
  left : Thread C S D

abbrev pub start : {C S D : Type 0} → Branch C S D → Thread C S D
start (once body) = blocked 0 body
start (forever body) = blocked 0 body

abbrev pub has_left : {C S D : Type 0} → Thread C S D → Bool
has_left t = elim t [ left ↦ true | _ ↦ false ]

abbrev pub has_ended : {C S D : Type 0} → Thread C S D → Bool
has_ended t = elim t [ ended ↦ true | _ ↦ false ]

-- `holds` is the value of a condition, `changes` whether a signal has an event of this kind, both at
-- a step, and `steps` how long a delay is.
module _ (C S D : Type 0) (holds : C → ℕ → Bool) (changes : Edge → S → ℕ → Bool)
    (steps : D → ℕ) where
  -- The wait of a design, with the condition read by its level: the process goes on at a step if
  -- the time is over, or if one of the signals has an event and the condition, where there is one,
  -- holds, or, with no signals, if the condition holds.
  abbrev pub has_event : Wait C S D → ℕ → Bool
  has_event o k =
      any (λ s. changes level s k) o.sensitivity
      || any (λ s. changes posedge s k) o.sensitivity_pos
      || any (λ s. changes negedge s k) o.sensitivity_neg

  abbrev pub is_woken : Wait C S D → ℕ → Bool
  is_woken o k = elim o.condition [
    | none ↦ ltb 0 k && has_event o k
    | some c ↦ if has_sensitivity C S D o then ltb 0 k && has_event o k && holds c k else holds c k
  ]

  abbrev pub is_over : Wait C S D → ℕ → Bool
  is_over o k = elim o.time [ none ↦ false | some d ↦ leb (steps d) k ]

  abbrev pub resumes : Wait C S D → ℕ → Bool
  resumes o k = is_woken o k || is_over o k

  -- Whether a statement that waits since a step lets the process pass at another one.
  abbrev pub passes : Atom C S D → ℕ → ℕ → Bool
  passes (wait_for c) since k = holds c k
  passes (delay d) since k = leb (since + steps d) k
  passes (event_control signals) since k = ltb since k && any (λ s. changes s.0 s.1 k) signals
  passes (disable label) since k = true
  passes (disable_if c label) since k = true

  -- One step of a branch: it runs until a statement does not let it pass.
  abbrev pub run_atoms : ℕ → ℕ → List (Atom C S D) → Thread C S D
  run_atoms k since [] = ended
  run_atoms k since (disable label ∷ rest) = left
  run_atoms k since (disable_if c label ∷ rest) =
      let next = run_atoms k since rest in if holds c k then left else next
  run_atoms k since (wait_for c ∷ rest) =
      let next = run_atoms k k rest in
      if passes (wait_for c) since k then next else blocked since (wait_for c ∷ rest)
  run_atoms k since (delay d ∷ rest) =
      let next = run_atoms k k rest in
      if passes (delay d) since k then next else blocked since (delay d ∷ rest)
  run_atoms k since (event_control signals ∷ rest) =
      let next = run_atoms k k rest in
      if passes (event_control signals) since k
      then next
      else blocked since (event_control signals ∷ rest)

  -- A loop that has come to its end waits in its first statement from this step on.
  abbrev pub step : Branch C S D → ℕ → Thread C S D → Thread C S D
  step b k ended = ended
  step b k left = left
  step (once body) k (blocked since rest) = run_atoms k since rest
  step (forever body) k (blocked since rest) = elim (run_atoms k since rest) [
    | ended ↦ blocked k body
    | left ↦ left
    | blocked s r ↦ blocked s r
  ]

  -- When one of two branches leaves the block or both have ended, from a step on and within a
  -- number of steps.
  abbrev pub run_branches :
      Branch C S D → Branch C S D → ℕ → ℕ → Thread C S D → Thread C S D → Option ℕ
  run_branches a b zero k s t = none
  run_branches a b (suc n) k s t =
      let s' = step a k s in
      let t' = step b k t in
      let later = run_branches a b n (suc k) s' t' in
      if has_left s' || has_left t' || (has_ended s' && has_ended t') then some k else later

  -- The step at which the process goes on behind a statement; a statement that is not there lets it
  -- pass at once.
  abbrev pub resumes_after : ℕ → Statement C S D → Option ℕ
  resumes_after n nothing = first (λ k. true) n 0
  resumes_after n (single a) = first (passes a 0) n 0
  resumes_after n (named_block label b) = run_branches b (once []) n 0 (start b) ended
  resumes_after n (named_fork label a b) = run_branches a b n 0 (start a) (start b)
