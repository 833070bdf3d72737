-- ===== src/Hif2vhdl/Sensitivity/Triggers.antt =====
-- src/hif2vhdl/VhdlPreRefine_misc.cpp: the events at which a process runs behind the pass.
use hif_backend.Prelude.{
  ℕ, ◌≡◌, refl, ap, ◌∙◌, Bool, true, false, ◌&&◌, ◌||◌, not, List, [], ◌∷◌, ◌++◌, Option, none,
  some, if◌then◌else◌, All, arith,
}
use hif_backend.Hif2vhdl.Sensitivity.{
  Condition, ProcessInfos, StateTable, is_same, build_and_expression,
}
use hif_backend.Hif2vhdl.Sensitivity.Events.{Event, holds_if_any, member, wakes}
use hif_backend.Hif2vhdl.Sensitivity.Levels.{
  at_level, any_edge, any_level, any_edge-member, any_edge-cases, build_sensitivity_condition_lem,
}

pub member-append : (s : ℕ) (xs ys : List ℕ) → member s (xs ++ ys) ≡ (member s xs || member s ys)
member-append s [] ys = refl
member-append s (x ∷ xs) ys = ground (arith, member-append s xs ys)

-- One list: `m` whether the signal is in it, `l` whether it is at the level, `x` whether there is an
-- edge and `v` whether another signal is at the level.
abbrev Row : Bool → Bool → Bool → Bool → Type 0
Row m l x v =
    (x ≡ true → ((m && l) || v) ≡ true) × (m ≡ true → l ≡ true → x ≡ true) × (v ≡ true → x ≡ true)

Row-eq : (m l x v : Bool) → Row m l x v → x ≡ ((m && l) || v)
Row-eq m l x v (f, g, h) = ground (arith, f, g, h)

gather :
    (a b c l v w x y : Bool)
    → ((a || b || c)
        && ((((a && l) || v) || ((a && not l) || w)) || ((b && l) || x) || ((c && not l) || y)))
      ≡ ((a || b && l || c && not l) || (a || b || c) && (v || w || x || y))
gather a b c l v w x y = ground arith

any_level-edge :
    (e : Event) (clock : Option ℕ) (b : Bool) (ss : List ℕ)
    → any_level e clock none b ss ≡ true
    → any_edge e clock none b ss ≡ true
any_level-edge e clock b [] h = h
any_level-edge e clock b (s ∷ ss) h = ground (arith, any_level-edge e clock b ss)

some_edge :
    (a b c l v w x y : Bool)
    → (a || b && l || c && not l) ≡ true
    → (a ≡ true → l ≡ true → v ≡ true)
    → (a ≡ true → not l ≡ true → w ≡ true)
    → (b ≡ true → l ≡ true → x ≡ true)
    → (c ≡ true → not l ≡ true → y ≡ true)
    → (v || w || x || y) ≡ true
some_edge a b c l v w x y h f g p q = ground (arith, h, f, g, p, q)

list-Row :
    (e : Event) (clock : Option ℕ) (b : Bool) (ss : List ℕ)
    → any_edge e clock none b ss
      ≡ ((member e.changed ss && at_level e clock none b e.changed) || any_level e clock none b ss)
list-Row e clock b ss =
    Row-eq (member e.changed ss) (at_level e clock none b e.changed) (any_edge e clock none b ss)
      (any_level e clock none b ss)
      (
        any_edge-cases e clock none b ss,
        λ m l. any_edge-member e clock none b ss m refl l,
        any_level-edge e clock b ss,
      )

module _ (is_one_bit is_bool : ℕ → Bool) (infos : ProcessInfos) where
  abbrev pub AllOneBit : Type 0
  AllOneBit =
      All (λ s. is_one_bit s ≡ true) infos.sensitivity
      × All (λ s. is_one_bit s ≡ true) infos.rising_sensitivity
      × All (λ s. is_one_bit s ≡ true) infos.falling_sensitivity

  abbrev pub any_listed_edge : Event → Option ℕ → Bool
  any_listed_edge e skip =
      any_edge e infos.clock skip true infos.sensitivity
      || any_edge e infos.clock skip false infos.sensitivity
      || any_edge e infos.clock skip true infos.rising_sensitivity
      || any_edge e infos.clock skip false infos.falling_sensitivity

  -- Whether a listed signal other than the clock is at its level.
  abbrev pub any_listed_level : Event → Bool
  any_listed_level e =
      any_level e infos.clock none true infos.sensitivity
      || any_level e infos.clock none false infos.sensitivity
      || any_level e infos.clock none true infos.rising_sensitivity
      || any_level e infos.clock none false infos.falling_sensitivity

  pub build_and_expression_lem :
      (skip_reset : Bool) (e : Event)
      → AllOneBit
      → (r : Option Condition) × (build_and_expression is_one_bit is_bool infos skip_reset ≡ some r)
        × (holds_if_any e r ≡ any_listed_edge e (if skip_reset then infos.reset else none))
  unfolding build_and_expression
  build_and_expression_lem skip_reset e h =
      let skip : Option ℕ = if skip_reset then infos.reset else none in
      let build = build_sensitivity_condition_lem e infos.clock skip is_one_bit is_bool in
      let (r1, q1, w1) = build true infos.sensitivity none h.0 in
      let (r2, q2, w2) = build false infos.sensitivity r1 h.0 in
      let (r3, q3, w3) = build true infos.rising_sensitivity r2 h.1 in
      let (r4, q4, w4) = build false infos.falling_sensitivity r3 h.2 in
      (
        r4,
        rw (q1, q2, q3) q4,
        w4
            ∙ ap (λ b. b || any_edge e infos.clock skip false infos.falling_sensitivity)
                (w3
                  ∙ ap (λ b. b || any_edge e infos.clock skip true infos.rising_sensitivity)
                      (w2 ∙ ap (λ b. b || any_edge e infos.clock skip false infos.sensitivity) w1)),
      )

  module _ {B : Type 0} (o : StateTable B) where
    -- The signals that hif-core lists are those of the process.
    abbrev pub Lists : Type 0
    Lists =
        (infos.sensitivity ≡ o.sensitivity)
        × (infos.rising_sensitivity ≡ o.sensitivity_pos)
        × (infos.falling_sensitivity ≡ o.sensitivity_neg)

    abbrev pub all_signals : List ℕ
    all_signals = o.sensitivity ++ o.sensitivity_pos ++ o.sensitivity_neg

    pub member-signals :
        (s : ℕ)
        → member s all_signals
          ≡ (member s o.sensitivity || member s o.sensitivity_pos || member s o.sensitivity_neg)
    member-signals s =
        member-append s (o.sensitivity ++ o.sensitivity_pos) o.sensitivity_neg
        ∙ ap (λ b. b || member s o.sensitivity_neg)
            (member-append s o.sensitivity o.sensitivity_pos)

    pub edge_exact :
        (e : Event)
        → Lists
        → (member e.changed all_signals && any_listed_edge e none)
          ≡ (wakes e o || member e.changed all_signals && any_listed_level e)
    edge_exact e h =
        rw
          (
            h.0,
            h.1,
            h.2,
            member-signals e.changed,
            list-Row e infos.clock true o.sensitivity,
            list-Row e infos.clock false o.sensitivity,
            list-Row e infos.clock true o.sensitivity_pos,
            list-Row e infos.clock false o.sensitivity_neg,
          )
          (gather (member e.changed o.sensitivity) (member e.changed o.sensitivity_pos)
            (member e.changed o.sensitivity_neg) (e.level e.changed) _ _ _ _)

    pub woken-member : (e : Event) → wakes e o ≡ true → member e.changed all_signals ≡ true
    woken-member e wake = rw (member-signals e.changed) (ground (arith, wake))

    -- What wakes a process is an edge, if it is not that of a signal that is skipped.
    pub woken-edge :
        (e : Event) (skip : Option ℕ)
        → Lists
        → wakes e o ≡ true
        → is_same skip e.changed ≡ false
        → any_listed_edge e skip ≡ true
    woken-edge e skip h wake n =
        let edge = any_edge-member e infos.clock skip in
        let high : member e.changed o.sensitivity ≡ true
            → at_level e infos.clock skip true e.changed ≡ true
            → any_edge e infos.clock skip true o.sensitivity ≡ true =
          λ m l. edge true o.sensitivity m n l in
        let low : member e.changed o.sensitivity ≡ true
            → at_level e infos.clock skip false e.changed ≡ true
            → any_edge e infos.clock skip false o.sensitivity ≡ true =
          λ m l. edge false o.sensitivity m n l in
        let rising : member e.changed o.sensitivity_pos ≡ true
            → at_level e infos.clock skip true e.changed ≡ true
            → any_edge e infos.clock skip true o.sensitivity_pos ≡ true =
          λ m l. edge true o.sensitivity_pos m n l in
        let falling : member e.changed o.sensitivity_neg ≡ true
            → at_level e infos.clock skip false e.changed ≡ true
            → any_edge e infos.clock skip false o.sensitivity_neg ≡ true =
          λ m l. edge false o.sensitivity_neg m n l in
        rw (h.0, h.1, h.2)
          (some_edge (member e.changed o.sensitivity) (member e.changed o.sensitivity_pos)
            (member e.changed o.sensitivity_neg) (e.level e.changed) _ _ _ _ wake high low rising
            falling)
