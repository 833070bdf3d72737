-- ===== src/Hif2verilog/Waits.antt =====
-- src/hif2verilog/VerilogPrinter.cpp: visitWait, printEventControl, printMultiClauseWait and
-- isRetriggerable. What the printer writes is kept as the statement that the text is of; `C` are
-- conditions, `S` signals and `D` delays of hif-core, and the fresh label is a parameter.
pub mod Meaning
pub mod Branches
pub mod Resumption
pub mod Timeout
use hif_backend.Prelude.{
  ℕ, ◌+◌, Bool, true, false, ◌&&◌, ◌||◌, not, List, [], ◌∷◌, ◌++◌, map, Option, none, some, Bytes,
  codes, ltb, ◌==◌, is_empty, if◌then◌else◌,
}

pub data Edge : Type 0 where
  level posedge negedge : Edge

module _ (C S D : Type 0) where
  pub record Wait : Type 0 where
    pub condition : Option C
    pub sensitivity : List S
    pub sensitivity_pos : List S
    pub sensitivity_neg : List S
    pub time : Option D
    pub has_repetitions : Bool
    pub has_actions : Bool
    pub is_loop_tail : Bool

  -- The statements inside a block: `wait ( c );`, `#d;`, `@( ... );`, `disable label;` and
  -- `if ( c ) disable label;`.
  pub data Atom : Type 0 where
    wait_for : C → Atom
    delay : D → Atom
    event_control : List (Edge × S) → Atom
    disable : Bytes → Atom
    disable_if : C → Bytes → Atom

  -- `begin ... end` and `forever begin ... end`.
  pub data Branch : Type 0 where
    once : List Atom → Branch
    forever : List Atom → Branch

  -- `begin : label ... end` with one branch, or with a fork of two that a join ends.
  pub data Statement : Type 0 where
    nothing : Statement
    single : Atom → Statement
    named_block : Bytes → Branch → Statement
    named_fork : Bytes → Branch → Branch → Statement

-- The refusals of visitWait, each a call of messageError.
pub data Refusal : Type 0 where
  repeated_wait wait_with_actions : Refusal

pub data Printed (A : Type 0) : Type 0 where
  refused : Refusal → Printed A
  printed : A → Printed A

abbrev pub is_some : {A : Type 0} → Option A → Bool
is_some none = false
is_some (some a) = true

abbrev pub flag : Bool → ℕ
flag b = if b then 1 else 0

module _ (C S D : Type 0) where
  abbrev pub has_condition : Wait C S D → Bool
  has_condition o = is_some o.condition

  abbrev pub has_sensitivity : Wait C S D → Bool
  has_sensitivity o =
      not (is_empty o.sensitivity)
      || not (is_empty o.sensitivity_pos)
      || not (is_empty o.sensitivity_neg)

  abbrev pub has_time : Wait C S D → Bool
  has_time o = is_some o.time

  -- The list that the event control holds.
  unfoldable pub print_event_control : Wait C S D → Atom C S D
  print_event_control o = event_control (
      map (λ s. (level, s)) o.sensitivity
      ++ map (λ s. (posedge, s)) o.sensitivity_pos
      ++ map (λ s. (negedge, s)) o.sensitivity_neg)

  -- The branch that waits for the condition or for the signals.
  unfoldable pub resuming_branch : Bytes → Wait C S D → Branch C S D
  resuming_branch label o = elim o.condition [
    | none ↦ once (print_event_control o ∷ disable label ∷ [])
    | some c ↦
        if has_sensitivity o
        then forever (print_event_control o ∷ disable_if c label ∷ [])
        else once (wait_for c ∷ disable label ∷ [])
  ]

  unfoldable pub print_multi_clause_wait : Bytes → Wait C S D → Statement C S D
  print_multi_clause_wait label o = elim o.time [
    | none ↦ named_block label (resuming_branch label o)
    | some d ↦
        if has_condition o || has_sensitivity o
        then named_fork label (resuming_branch label o) (once (delay d ∷ disable label ∷ []))
        else named_block label (resuming_branch label o)
  ]

  -- The statement of a wait with one clause or none.
  unfoldable pub print_single_clause_wait : Wait C S D → Statement C S D
  print_single_clause_wait o = elim o.condition [
    | some c ↦ single (wait_for c)
    | none ↦ elim o.time [
      | some d ↦ single (delay d)
      | none ↦ if has_sensitivity o then single (print_event_control o) else nothing
    ]
  ]

  unfoldable pub visit_wait : Bytes → Wait C S D → Printed (Statement C S D)
  visit_wait label o =
      let forms = flag (has_condition o) + flag (has_sensitivity o) + flag (has_time o) in
      if o.has_repetitions
      then refused repeated_wait
      else if o.has_actions
      then refused wait_with_actions
      else if ltb 1 forms
      then printed (print_multi_clause_wait label o)
      else if forms == 0
      then printed nothing
      else printed (print_single_clause_wait o)

  -- A wait with nothing set.
  unfoldable pub says_nothing : Wait C S D → Bool
  says_nothing o =
      not (has_condition o) && not (has_time o) && not o.has_repetitions && not (has_sensitivity o)

  -- The loop of isRetriggerable over the waits of a process.
  unfoldable pub resumable : List (Wait C S D) → Bool → Bool
  resumable [] has_resumable_wait = has_resumable_wait
  resumable (o ∷ rest) has_resumable_wait =
      let skipped = resumable rest has_resumable_wait in
      let counted = resumable rest true in
      if o.is_loop_tail then skipped else if says_nothing o then false else counted

  unfoldable pub is_retriggerable : Bool → List (Wait C S D) → Bool
  is_retriggerable is_sensitive waits = if is_sensitive then true else resumable waits false
