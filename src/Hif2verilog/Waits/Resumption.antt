-- ===== src/Hif2verilog/Waits/Resumption.antt =====
-- src/hif2verilog/VerilogPrinter.cpp: when a process goes on behind the statement that is printed
-- for a wait.
use hif_backend.Prelude.{
  ℕ, ◌+◌, ◌≡◌, refl, sym, ap, ◌∙◌, Bool, true, false, ◌&&◌, ◌||◌, not, ◌⊎◌, inl, inr, List, [], ◌∷◌,
  ◌++◌, map, Option, none, some, Bytes, any, is_empty, ltb, leb, ◌==◌, if◌then◌else◌, arith,
}
use hif_backend.Hif2verilog.Waits.{
  Edge, level, posedge, negedge, Wait, wait_for, delay, event_control, disable, disable_if, Branch,
  once, forever, Statement, nothing, single, named_block, named_fork, refused, printed,
  repeated_wait, wait_with_actions, is_some, flag, has_condition, has_sensitivity, has_time,
  print_event_control, resuming_branch, print_multi_clause_wait, print_single_clause_wait,
  visit_wait, says_nothing,
}
use hif_backend.Hif2verilog.Waits.Meaning.{
  first, start, has_event, is_woken, resumes, resumes_after,
}
use hif_backend.Hif2verilog.Waits.Branches.{
  Follows, first-ext, run_fork, run_single, wait_for-Follows, delay-Follows, event_control-Follows,
  forever-Follows, signalled,
}

or_both : {a b c d : Bool} → a ≡ b → c ≡ d → (a || c) ≡ (b || d)
or_both e f = rw (e, f) refl

or_false : (b : Bool) → (b || false) ≡ b
or_false b = ground arith

quiet_or : (b c : Bool) → c ≡ ((b && false) || c)
quiet_or b c = ground arith

leb-zero_add : (a k : ℕ) → leb (0 + a) k ≡ leb a k
leb-zero_add a k = let e : 0 + a ≡ a = omega arith in ap (λ m. leb m k) e

absurd_sum : {B : Type 0} (a b : ℕ) → (a == b) ≡ false → a ≡ b → B
absurd_sum a b ne h = let absurd : ⊥ = ground (arith, h) in elim absurd [ ]

-- Some clause besides the time, exactly one, and none.
several_clauses : (c s t : Bool) → ltb 1 (flag c + flag s + flag t) ≡ true → (c || s) ≡ true
several_clauses c s t h = ground arith

one_clause : (n : ℕ) → ltb 1 n ≡ false → (n == 0) ≡ false → n ≡ 1
one_clause n h g = ground arith

no_clause :
    (c s t : Bool)
    → ((flag c + flag s + flag t) == 0) ≡ true
    → (not c && not t && not false && not s) ≡ true
no_clause c s t h = ground arith

said :
    (c t r s : Bool)
    → r ≡ false
    → (not c && not t && not false && not s) ≡ true
    → (not c && not t && not r && not s) ≡ false
    → ⊥
said c t r s e h g = ground arith

-- What visit_wait has chosen if it printed a statement.
chosen :
    {A : Type 0} (r a m z : Bool) (x y e s : A)
    → (if r
        then refused repeated_wait
        else if a
        then refused wait_with_actions
        else if m
        then printed x
        else if z
        then printed e
        else printed y)
      ≡ printed s
    → (r ≡ false)
      × (((m ≡ true) × (s ≡ x))
          ⊎ (((m ≡ false) × (z ≡ false) × (s ≡ y)) ⊎ ((m ≡ false) × (z ≡ true))))
chosen true a m z x y e s h = cc
chosen false true m z x y e s h = cc
chosen false false true z x y e s h = (refl, inl (refl, cc))
chosen false false false true x y e s h = (refl, inr (inr (refl, refl)))
chosen false false false false x y e s h = (refl, inr (inl (refl, refl, cc)))

module _ (C S D : Type 0) (holds : C → ℕ → Bool) (changes : Edge → S → ℕ → Bool)
    (steps : D → ℕ) where
  any-append :
      {A : Type 0} (p : A → Bool) (xs ys : List A) → any p (xs ++ ys) ≡ (any p xs || any p ys)
  any-append p [] ys = refl
  any-append p (x ∷ xs) ys = ground (arith, any-append p xs ys)

  any-map :
      {A B : Type 0} (p : B → Bool) (f : A → B) (xs : List A)
      → any p (map f xs) ≡ any (λ x. p (f x)) xs
  any-map p f [] = refl
  any-map p f (x ∷ xs) = ground (arith, any-map p f xs)

  abbrev tag : Edge → S → Edge × S
  tag e s = (e, s)

  abbrev signals_of : Wait C S D → List (Edge × S)
  signals_of o =
      map (λ s. (level, s)) o.sensitivity
      ++ map (λ s. (posedge, s)) o.sensitivity_pos
      ++ map (λ s. (negedge, s)) o.sensitivity_neg

  signalled-event :
      (o : Wait C S D) (k : ℕ)
      → signalled C S D holds changes steps (signals_of o) k
        ≡ has_event C S D holds changes steps o k
  signalled-event o k =
      let p : Edge × S → Bool = λ x. changes x.0 x.1 k in
      let levels = map (tag level) o.sensitivity in
      let rises = map (tag posedge) o.sensitivity_pos in
      let falls = map (tag negedge) o.sensitivity_neg in
      any-append p (levels ++ rises) falls
      ∙ or_both
          (any-append p levels rises
            ∙ or_both (any-map p (tag level) o.sensitivity)
                (any-map p (tag posedge) o.sensitivity_pos))
          (any-map p (tag negedge) o.sensitivity_neg)

  Follows-ext :
      (b : Branch C S D) (p q : ℕ → Bool)
      → ((k : ℕ) → q k ≡ p k)
      → Follows C S D holds changes steps b p
      → Follows C S D holds changes steps b q
  Follows-ext b p q same f = record {
    Waiting = f.Waiting;
    first_waiting = f.first_waiting;
    leaves = λ k t w now. f.leaves k t w (sym (same k) ∙ now);
    goes_on = λ k t w wait. f.goes_on k t w (sym (same k) ∙ wait);
    stays = f.stays;
  }

  branch-Follows :
      (condition : Option C) (sensitive : Bool) (signals : List (Edge × S)) (label : Bytes)
      (event : ℕ → Bool)
      → ((k : ℕ) → signalled C S D holds changes steps signals k ≡ event k)
      → Follows C S D holds changes steps
          (elim condition [
            | none ↦ once (event_control signals ∷ disable label ∷ [])
            | some c ↦
                if sensitive
                then forever (event_control signals ∷ disable_if c label ∷ [])
                else once (wait_for c ∷ disable label ∷ [])
          ])
          (λ k. elim condition [
            | none ↦ ltb 0 k && event k
            | some c ↦ if sensitive then ltb 0 k && event k && holds c k else holds c k
          ])
  branch-Follows none b signals label event same =
      Follows-ext _ _ _ (λ k. ap (λ e. ltb 0 k && e) (sym (same k)))
        (event_control-Follows C S D holds changes steps signals label)
  branch-Follows (some c) true signals label event same =
      Follows-ext _ _ _ (λ k. ap (λ e. ltb 0 k && e && holds c k) (sym (same k)))
        (forever-Follows C S D holds changes steps signals c label)
  branch-Follows (some c) false signals label event same =
      wait_for-Follows C S D holds changes steps c label

  -- The branch leaves its block when the wait is woken.
  resuming_branch-Follows :
      (label : Bytes) (o : Wait C S D)
      → Follows C S D holds changes steps
          (resuming_branch C S D label o)
          (is_woken C S D holds changes steps o)
  unfolding resuming_branch print_event_control
  resuming_branch-Follows label o =
      branch-Follows o.condition (has_sensitivity C S D o) (signals_of o) label
        (has_event C S D holds changes steps o) (signalled-event o)

  abbrev after : ℕ → Statement C S D → Option ℕ
  after n s = resumes_after C S D holds changes steps n s

  abbrev over : Option D → ℕ → Bool
  over time k = elim time [ none ↦ false | some d ↦ leb (steps d) k ]

  -- A block whose branch leaves it when `p` holds, with or without the fork for the time.
  block-first :
      (time : Option D) (b : Branch C S D) (p : ℕ → Bool) (label : Bytes) (n : ℕ) (clauses : Bool)
      → Follows C S D holds changes steps b p
      → clauses ≡ true
      → after n (elim time [
        | none ↦ named_block label b
        | some d ↦
            if clauses
            then named_fork label b (once (delay d ∷ disable label ∷ []))
            else named_block label b
      ])
        ≡ first (λ k. p k || over time k) n 0
  block-first none b p label n clauses f h =
      run_single C S D holds changes steps b p f n 0 (start b) f.first_waiting
      ∙ first-ext p (λ k. p k || false) n 0 (λ k. sym (or_false (p k)))
  block-first (some d) b p label n clauses f h =
      let g = delay-Follows C S D holds changes steps d label in
      rw h (
        run_fork C S D holds changes steps b (once (delay d ∷ disable label ∷ [])) p
          (λ k. leb (0 + steps d) k) f g n 0 (start b) (start (once (delay d ∷ disable label ∷ [])))
          f.first_waiting g.first_waiting
        ∙ first-ext (λ k. p k || leb (0 + steps d) k) (λ k. p k || leb (steps d) k) n 0
            (λ k. ap (λ e. p k || e) (leb-zero_add (steps d) k)))

  -- The statement of a wait with one clause.
  single-first :
      (condition : Option C) (time : Option D) (sensitive : Bool) (signals : List (Edge × S))
      (event : ℕ → Bool) (n : ℕ)
      → ((k : ℕ) → signalled C S D holds changes steps signals k ≡ event k)
      → (sensitive ≡ false → (k : ℕ) → event k ≡ false)
      → flag (is_some condition) + flag sensitive + flag (is_some time) ≡ 1
      → after n (elim condition [
        | some c ↦ single (wait_for c)
        | none ↦ elim time [
          | some d ↦ single (delay d)
          | none ↦ if sensitive then single (event_control signals) else nothing
        ]
      ])
        ≡ first
            (λ k.
              (elim condition [
                | none ↦ ltb 0 k && event k
                | some c ↦ if sensitive then ltb 0 k && event k && holds c k else holds c k
              ])
              || over time k)
            n
            0
  single-first (some c) none false signals event n same quiet h =
      first-ext (λ k. holds c k) (λ k. holds c k || false) n 0 (λ k. sym (or_false (holds c k)))
  single-first none (some d) false signals event n same quiet h =
      first-ext (λ k. leb (0 + steps d) k) (λ k. (ltb 0 k && event k) || leb (steps d) k) n 0
        (λ k. rw (quiet refl k, leb-zero_add (steps d) k) (quiet_or (ltb 0 k) (leb (steps d) k)))
  single-first none none true signals event n same quiet h =
      first-ext (λ k. ltb 0 k && signalled C S D holds changes steps signals k)
        (λ k. (ltb 0 k && event k) || false) n 0
        (λ k. rw (same k) (sym (or_false (ltb 0 k && event k))))
  single-first none none false signals event n same quiet h = absurd_sum 0 1 refl h
  single-first none (some d) true signals event n same quiet h = absurd_sum 2 1 refl h
  single-first (some c) none true signals event n same quiet h = absurd_sum 2 1 refl h
  single-first (some c) (some d) true signals event n same quiet h = absurd_sum 3 1 refl h
  single-first (some c) (some d) false signals event n same quiet h = absurd_sum 2 1 refl h

  quiet_event :
      (o : Wait C S D)
      → has_sensitivity C S D o ≡ false
      → (k : ℕ) → has_event C S D holds changes steps o k ≡ false
  quiet_event o h k = no_event o.sensitivity o.sensitivity_pos o.sensitivity_neg h
    where
      no_event :
          (a b c : List S)
          → (not (is_empty a) || not (is_empty b) || not (is_empty c)) ≡ false
          → (any (λ s. changes level s k) a
              || any (λ s. changes posedge s k) b
              || any (λ s. changes negedge s k) c)
            ≡ false
      no_event [] [] [] h = refl
      no_event (x ∷ a) b c h = cc
      no_event [] (x ∷ b) c h = cc
      no_event [] [] (x ∷ c) h = cc

  -- A process that reaches a wait with at least one clause and goes on behind what is printed for
  -- it goes on at the first step, of any number of steps looked at, at which the wait is over: at
  -- which its time has passed, one of its signals has an event while its condition, if it has one,
  -- holds, or, if it names no signals, its condition holds.
  pub visit_wait-resumes :
      (label : Bytes) (o : Wait C S D) (s : Statement C S D) (n : ℕ)
      → visit_wait C S D label o ≡ printed s
      → says_nothing C S D o ≡ false
      → resumes_after C S D holds changes steps n s
        ≡ first (resumes C S D holds changes steps o) n 0
  unfolding visit_wait says_nothing print_multi_clause_wait print_single_clause_wait
      print_event_control
  visit_wait-resumes label o s n h g =
      let forms =
        flag (has_condition C S D o) + flag (has_sensitivity C S D o) + flag (has_time C S D o) in
      let (once_only, choice) =
        chosen o.has_repetitions o.has_actions (ltb 1 forms) (forms == 0)
          (print_multi_clause_wait C S D label o) (print_single_clause_wait C S D o) nothing s h in
      elim choice [
        | inl (many, e) ↦
            ap (after n) e
            ∙ block-first o.time (resuming_branch C S D label o)
                (is_woken C S D holds changes steps o) label n _ (resuming_branch-Follows label o)
                (several_clauses (has_condition C S D o) (has_sensitivity C S D o)
                  (has_time C S D o) many)
        | inr (inl (few, some_clause, e)) ↦
            ap (after n) e
            ∙ single-first o.condition o.time (has_sensitivity C S D o) (signals_of o)
                (has_event C S D holds changes steps o) n (signalled-event o) (quiet_event o)
                (one_clause forms few some_clause)
        | inr (inr (few, empty)) ↦
            let silent =
              no_clause (has_condition C S D o) (has_sensitivity C S D o) (has_time C S D o)
                empty in
            elim (said (has_condition C S D o) (has_time C S D o) o.has_repetitions
              (has_sensitivity C S D o) once_only silent g) [ ]
      ]
