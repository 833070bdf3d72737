-- ===== src/Hif2verilog/Waits/Branches.antt =====
-- The branches of the blocks that src/hif2verilog/VerilogPrinter.cpp prints for a wait: at which
-- step each leaves its block.
use hif_backend.Prelude.{
  ℕ, zero, suc, ◌+◌, ◌≤◌, ◌≡◌, refl, ap, ◌∙◌, Bool, true, false, ◌&&◌, ◌||◌, inl, inr, List, [],
  ◌∷◌, Bytes, any, ltb, leb, if◌then◌else◌, arith, Bool-cases,
}
use hif_backend.Hif2verilog.Waits.{
  Edge, Atom, wait_for, delay, event_control, disable, disable_if, Branch, once, forever,
}
use hif_backend.Hif2verilog.Waits.Meaning.{
  first, Thread, blocked, ended, left, run_atoms, step, start, has_left, has_ended, run_branches,
}

pub first-ext : (p q : ℕ → Bool) (n k : ℕ) → ((i : ℕ) → p i ≡ q i) → first p n k ≡ first q n k
first-ext p q zero k same = refl
first-ext p q (suc n) k same = rw (same k, first-ext p q n (suc k) same) refl

module _ {C S D : Type 0} where
  looped :
      (j k : ℕ) (body : List (Atom C S D)) (e h : Bool)
      → (elim (if e then (if h then left else ended) else blocked j body) [
        | ended ↦ blocked k body
        | left ↦ left
        | blocked s r ↦ blocked s r
      ])
        ≡ (if e then (if h then left else blocked k body) else blocked j body)
  looped j k body true true = refl
  looped j k body true false = refl
  looped j k body false h = refl

module _ {A : Type 0} (a b c : A) where
  freed : (x y z : Bool) → (x && y && z) ≡ true → (if x && y then (if z then a else b) else c) ≡ a
  freed true true true h = refl
  freed true true false h = cc
  freed true false z h = cc
  freed false y z h = cc

  rearmed :
      (x y z : Bool)
      → (x && y) ≡ true
      → (x && y && z) ≡ false
      → (if x && y then (if z then a else b) else c) ≡ b
  rearmed true true true h g = cc
  rearmed true true false h g = refl
  rearmed true false z h g = cc
  rearmed false y z h g = cc

module _ (C S D : Type 0) (holds : C → ℕ → Bool) (changes : Edge → S → ℕ → Bool)
    (steps : D → ℕ) where
  abbrev Moves : Branch C S D → ℕ → Thread C S D → Thread C S D
  Moves b k t = step C S D holds changes steps b k t

  -- A branch that leaves its block at the first step at which `p` holds and does not end before.
  pub record Follows (b : Branch C S D) (p : ℕ → Bool) : Type 1 where
    pub Waiting : ℕ → Thread C S D → Type 0
    pub first_waiting : Waiting 0 (start b)
    pub leaves : (k : ℕ) (t : Thread C S D) → Waiting k t → p k ≡ true → Moves b k t ≡ left
    pub goes_on :
        (k : ℕ) (t : Thread C S D) → Waiting k t → p k ≡ false → Waiting (suc k) (Moves b k t)
    pub stays :
        (k : ℕ) (t : Thread C S D) → Waiting k t → (has_left t ≡ false) × (has_ended t ≡ false)

  pub run_fork :
      (a b : Branch C S D) (p q : ℕ → Bool) (f : Follows a p) (g : Follows b q) (n k : ℕ)
      (s t : Thread C S D)
      → f.Waiting k s
      → g.Waiting k t
      → run_branches C S D holds changes steps a b n k s t ≡ first (λ i. p i || q i) n k
  run_fork a b p q f g zero k s t u v = refl
  run_fork a b p q f g (suc n) k s t u v = elim (Bool-cases (p k)) [
    | inl now ↦ rw (f.leaves k s u now, now) refl
    | inr not_p ↦
        let later = f.goes_on k s u not_p in
        let (in_block, running) = f.stays (suc k) (Moves a k s) later in
        elim (Bool-cases (q k)) [
          | inl now ↦ rw (not_p, now, in_block, g.leaves k t v now) refl
          | inr not_q ↦
              let next = g.goes_on k t v not_q in
              let (other_in, other_running) = g.stays (suc k) (Moves b k t) next in
              rw (not_p, not_q, in_block, other_in, running)
                (run_fork a b p q f g n (suc k) (Moves a k s) (Moves b k t) later next)
        ]
  ]

  pub run_single :
      (b : Branch C S D) (p : ℕ → Bool) (f : Follows b p) (n k : ℕ) (t : Thread C S D)
      → f.Waiting k t
      → run_branches C S D holds changes steps b (once []) n k t ended ≡ first p n k
  run_single b p f zero k t u = refl
  run_single b p f (suc n) k t u = elim (Bool-cases (p k)) [
    | inl now ↦ rw (f.leaves k t u now, now) refl
    | inr not_p ↦
        let later = f.goes_on k t u not_p in
        let (in_block, running) = f.stays (suc k) (Moves b k t) later in
        rw (not_p, in_block, running) (run_single b p f n (suc k) (Moves b k t) later)
  ]

  -- A branch that waits in its first statement and then leaves.
  once-Follows :
      (a : Atom C S D) (label : Bytes) (p : ℕ → Bool)
      → ((k : ℕ)
          → run_atoms C S D holds changes steps k 0 (a ∷ disable label ∷ [])
            ≡ (if p k then left else blocked 0 (a ∷ disable label ∷ [])))
      → Follows (once (a ∷ disable label ∷ [])) p
  once-Follows a label p runs = record {
    Waiting = λ k t. t ≡ blocked 0 (a ∷ disable label ∷ []);
    first_waiting = refl;
    leaves = λ k t e now. ap (Moves (once (a ∷ disable label ∷ [])) k) e ∙ runs k ∙ rw now refl;
    goes_on = λ k t e wait. ap (Moves (once (a ∷ disable label ∷ [])) k) e ∙ runs k ∙ rw wait refl;
    stays = λ k t e. rw e (refl, refl);
  }

  pub wait_for-Follows :
      (c : C) (label : Bytes) → Follows (once (wait_for c ∷ disable label ∷ [])) (λ k. holds c k)
  wait_for-Follows c label = once-Follows (wait_for c) label (λ k. holds c k) (λ k. refl)

  pub delay-Follows :
      (d : D) (label : Bytes)
      → Follows (once (delay d ∷ disable label ∷ [])) (λ k. leb (0 + steps d) k)
  delay-Follows d label = once-Follows (delay d) label (λ k. leb (0 + steps d) k) (λ k. refl)

  abbrev pub signalled : List (Edge × S) → ℕ → Bool
  signalled signals k = any (λ s. changes s.0 s.1 k) signals

  pub event_control-Follows :
      (signals : List (Edge × S)) (label : Bytes)
      → Follows
          (once (event_control signals ∷ disable label ∷ []))
          (λ k. ltb 0 k && signalled signals k)
  event_control-Follows signals label =
      once-Follows (event_control signals) label (λ k. ltb 0 k && signalled signals k) (λ k. refl)

  abbrev guarded : List (Edge × S) → C → Bytes → List (Atom C S D)
  guarded signals c label = event_control signals ∷ disable_if c label ∷ []

  -- A step of the loop that waits for a signal until the condition holds.
  forever_step :
      (signals : List (Edge × S)) (c : C) (label : Bytes) (j k : ℕ)
      → ltb j k ≡ ltb 0 k
      → Moves (forever (guarded signals c label)) k (blocked j (guarded signals c label)) ≡ (
          if ltb 0 k && signalled signals k
          then (if holds c k then left else blocked k (guarded signals c label))
          else blocked j (guarded signals c label))
  forever_step signals c label j k e =
      looped j k (guarded signals c label) (ltb j k && signalled signals k) (holds c k)
      ∙ ap
          (λ b.
            if b && signalled signals k
            then (if holds c k then left else blocked k (guarded signals c label))
            else blocked j (guarded signals c label))
          e

  -- The loop waits since an earlier step, or since step 0 at step 0.
  abbrev Armed : List (Atom C S D) → ℕ → Thread C S D → Type 0
  Armed body k t = (j : ℕ) × (t ≡ blocked j body) × (j ≤ k) × (ltb j k ≡ ltb 0 k)

  forever-goes_on :
      (signals : List (Edge × S)) (c : C) (label : Bytes) (k : ℕ) (t : Thread C S D)
      → Armed (guarded signals c label) k t
      → (ltb 0 k && signalled signals k && holds c k) ≡ false
      → Armed (guarded signals c label) (suc k) (Moves (forever (guarded signals c label)) k t)
  forever-goes_on signals c label k t (j, at_j, le, e) wait =
      let moved =
        ap (Moves (forever (guarded signals c label)) k) at_j
        ∙ forever_step signals c label j k e in
      elim (Bool-cases (ltb 0 k && signalled signals k)) [
        | inl woken ↦ (
          k,
          moved ∙ rearmed _ _ _ (ltb 0 k) (signalled signals k) (holds c k) woken wait,
          omega arith,
          ground arith,
        )
        | inr quiet ↦ (j, moved ∙ rw quiet refl, omega (arith, le), ground (arith, le))
      ]

  pub forever-Follows :
      (signals : List (Edge × S)) (c : C) (label : Bytes)
      → Follows
          (forever (guarded signals c label))
          (λ k. ltb 0 k && signalled signals k && holds c k)
  forever-Follows signals c label = record {
    Waiting = Armed (guarded signals c label);
    first_waiting = (0, refl, omega arith, refl);
    leaves = λ k t w now.
        ap (Moves (forever (guarded signals c label)) k) w.1
        ∙ forever_step signals c label w.0 k w.3
        ∙ freed _ _ _ (ltb 0 k) (signalled signals k) (holds c k) now;
    goes_on = forever-goes_on signals c label;
    stays = λ k t w. rw (w.1) (refl, refl);
  }
