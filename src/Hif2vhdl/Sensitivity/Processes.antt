-- ===== src/Hif2vhdl/Sensitivity/Processes.antt =====
-- src/hif2vhdl/VhdlPreRefine_misc.cpp: the processes behind the pass.
use hif_backend.Prelude.{
  ℕ, ◌≡◌, refl, sym, ap, ◌∙◌, Bool, true, false, ◌&&◌, ◌||◌, List, [], ◌∷◌, ◌++◌, Option, some,
  is_empty, if◌then◌else◌, some-inj, arith, Bool-cases, inl, inr,
}
use hif_backend.Hif2vhdl.Sensitivity.{
  asynchronous, synchronous, derived_synchronous, ProcessStyle, style_3, style_5, style_6,
  ProcessInfos, Body, wrapped, chained, StateTable, is_same, wrap, chain, fix_synchronous_process,
  fix_body, with_body, move_sensitivities, visit_state_table,
}
use hif_backend.Hif2vhdl.Sensitivity.Events.{Event, holds_if_any, member, wakes, executed}
use hif_backend.Hif2vhdl.Sensitivity.Triggers.{
  AllOneBit, any_listed_level, any_listed_edge, build_and_expression_lem, Lists, all_signals,
  edge_exact, woken-member, woken-edge,
}

abbrev is_wrapped_style : ProcessStyle → Bool
is_wrapped_style style = elim style [ style_3 ↦ true | style_5 ↦ true | _ ↦ false ]

abbrev is_chained_style : ProcessStyle → Bool
is_chained_style style = elim style [ style_6 ↦ true | _ ↦ false ]

-- The processes whose actions come below a condition, and those whose `if` gets another one.
abbrev pub is_wrapped : ProcessInfos → Bool
is_wrapped infos = elim infos.process_kind [
  | asynchronous ↦ true
  | synchronous ↦ is_wrapped_style infos.process_style
  | derived_synchronous ↦ is_wrapped_style infos.process_style
  | _ ↦ false
]

abbrev pub is_chained : ProcessInfos → Bool
is_chained infos = elim infos.process_kind [
  | synchronous ↦ is_chained_style infos.process_style
  | derived_synchronous ↦ is_chained_style infos.process_style
  | _ ↦ false
]

both :
    {A : Type 0} (m h x : Bool) (body : List A)
    → (m && h) ≡ x
    → (if (m || false || false) then (if h then body else []) else []) ≡ (if x then body else [])
both true true x body e = rw (← e) refl
both true false x body e = rw (← e) refl
both false h x body e = rw (← e) refl

guarded :
    {A : Type 0} (m t h x : Bool) (actions others rest : List A)
    → h ≡ x
    → (if (m || false || false)
        then (if t then actions else if h then others else []) ++ rest
        else [])
      ≡ (if m then (if t then actions else if x then others else []) ++ rest else [])
guarded true t h x actions others rest e = rw e refl
guarded false t h x actions others rest e = refl

-- Some event, to build a condition.
abbrev any_event : Event
any_event = record { changed = 0; level = λ s. false }

module _ (is_one_bit is_bool : ℕ → Bool) {A C : Type 0} (as_if : A → Option (C × List A × List A))
    (infos : ProcessInfos) where
  fix_body-wrap :
      (actions : List A)
      → is_wrapped infos ≡ true
      → fix_body is_one_bit is_bool as_if infos actions
        ≡ wrap is_one_bit is_bool as_if infos actions
  unfolding fix_synchronous_process
  fix_body-wrap actions h = ground arith

  fix_body-chain :
      (actions : List A)
      → is_chained infos ≡ true
      → fix_body is_one_bit is_bool as_if infos actions
        ≡ chain is_one_bit is_bool as_if infos actions
  unfolding fix_synchronous_process
  fix_body-chain actions h = ground arith

  module _ (test : C → Event → Bool) (o : StateTable (List A)) (process : o.is_process ≡ true)
      (edges : (is_empty o.sensitivity_neg && is_empty o.sensitivity_pos) ≡ false)
      (lists : Lists is_one_bit is_bool infos o)
      (one_bit : AllOneBit is_one_bit is_bool infos) where
    visit-fixed :
        (b : Body A C)
        → fix_body is_one_bit is_bool as_if infos o.body ≡ some b
        → visit_state_table is_one_bit is_bool as_if infos o
          ≡ some
              (move_sensitivities is_one_bit is_bool as_if (with_body is_one_bit is_bool as_if o b))
    unfolding visit_state_table
    visit-fixed b h = rw (process, edges, h) refl

    -- For a process with an edge in its lists, whose signals hif-core lists and which are all of one
    -- bit, if it is asynchronous or synchronous of style 3 or 5, the pass succeeds, and behind it
    -- an event runs all actions of the process exactly if it woke the process before or is a
    -- change of a listed signal while a listed signal other than the clock is at its level, and
    -- none otherwise.
    pub visit_state_table-runs :
        is_wrapped infos ≡ true
        → (q : StateTable (Body A C)) × (visit_state_table is_one_bit is_bool as_if infos o
            ≡ some q)
          × ((e : Event)
              → executed test e q ≡ (
                  if wakes e o
                    || member e.changed (all_signals is_one_bit is_bool infos o)
                      && any_listed_level is_one_bit is_bool infos e
                  then o.body
                  else []))
    unfolding move_sensitivities wrap
    visit_state_table-runs w =
        let build = build_and_expression_lem is_one_bit is_bool infos false in
        let (r, built, _) = build any_event one_bit in
        let wrapping : fix_body is_one_bit is_bool as_if infos o.body ≡ some (wrapped r o.body) =
          fix_body-wrap o.body w ∙ rw built refl in
        (
          move_sensitivities is_one_bit is_bool as_if
              (with_body is_one_bit is_bool as_if o (wrapped r o.body)),
          visit-fixed (wrapped r o.body) wrapping,
          λ e.
              let (r', built', level) = build e one_bit in
              let same : r ≡ r' = some-inj r r' (sym built ∙ built') in
              both (member e.changed (all_signals is_one_bit is_bool infos o)) (holds_if_any e r)
                (wakes e o
                  || member e.changed (all_signals is_one_bit is_bool infos o)
                    && any_listed_level is_one_bit is_bool infos e)
                o.body
                (ap (λ h. member e.changed (all_signals is_one_bit is_bool infos o) && h)
                    (ap (holds_if_any e) same ∙ level)
                  ∙ edge_exact is_one_bit is_bool infos o e lists),
        )

    -- For such a process that is synchronous of style 6, whose first action is an `if` with one
    -- alternative, the pass succeeds, and behind it an event that woke the process before runs what
    -- it ran, if the condition holds whenever the reset wakes the process; and any event that is a
    -- change of a listed signal runs the actions of the `if` where its condition holds, else the
    -- default ones exactly if a listed signal other than the reset is at the level of its edge and,
    -- if it is the clock, has just changed, and behind these the other actions; another event runs
    -- nothing.
    pub visit_state_table-chains :
        (front : A) (rest : List A) (c : C) (actions others : List A)
        → o.body ≡ front ∷ rest
        → as_if front ≡ some (c, actions, others)
        → is_chained infos ≡ true
        → (q : StateTable (Body A C)) × (visit_state_table is_one_bit is_bool as_if infos o
            ≡ some q)
          × ((e : Event)
              → wakes e o ≡ true
              → (is_same infos.reset e.changed ≡ true → test c e ≡ true)
              → executed test e q ≡ (if test c e then actions else others) ++ rest)
          × ((e : Event)
              → executed test e q ≡ (
                  if member e.changed (all_signals is_one_bit is_bool infos o)
                  then (if test c e
                      then actions
                      else if any_listed_edge is_one_bit is_bool infos e infos.reset
                      then others
                      else [])
                    ++ rest
                  else []))
    unfolding move_sensitivities chain
    visit_state_table-chains front rest c actions others shape view w =
        let build = build_and_expression_lem is_one_bit is_bool infos true in
        let (r, built, _) = build any_event one_bit in
        let b : Body A C = chained c actions r others rest in
        let chaining : fix_body is_one_bit is_bool as_if infos o.body ≡ some b =
          ap (fix_body is_one_bit is_bool as_if infos) shape
          ∙ fix_body-chain (front ∷ rest) w
          ∙ rw (view, built) refl in
        (
          move_sensitivities is_one_bit is_bool as_if (with_body is_one_bit is_bool as_if o b),
          visit-fixed b chaining,
          λ e wake only.
              let woken = woken-member is_one_bit is_bool infos o e wake in
              let (r', built', level) = build e one_bit in
              let same : r ≡ r' = some-inj r r' (sym built ∙ built') in
              elim (Bool-cases (test c e)) [
                | inl t ↦ rw (woken, t) refl
                | inr t ↦
                    let other : is_same infos.reset e.changed ≡ false =
                      elim (Bool-cases (is_same infos.reset e.changed)) [
                        | inl s ↦ let reset = only s in let wrong : ⊥ = cc in absurd wrong
                        | inr n ↦ n
                      ] in
                    let edge : holds_if_any e r ≡ true =
                      ap (holds_if_any e) same
                      ∙ level
                      ∙ woken-edge is_one_bit is_bool infos o e infos.reset lists wake other in
                    rw (woken, t, edge) refl
              ],
          λ e.
              let (r', built', level) = build e one_bit in
              let same : r ≡ r' = some-inj r r' (sym built ∙ built') in
              let edges_of : holds_if_any e r
                  ≡ any_listed_edge is_one_bit is_bool infos e infos.reset =
                ap (holds_if_any e) same ∙ level in
              guarded (member e.changed (all_signals is_one_bit is_bool infos o)) (test c e)
                (holds_if_any e r) (any_listed_edge is_one_bit is_bool infos e infos.reset) actions
                others rest edges_of,
        )
