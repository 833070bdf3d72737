-- ===== src/Hif2vhdl/Sensitivity/Levels.antt =====
-- What the conditions of src/hif2vhdl/VhdlPreRefine_misc.cpp say of an event.
use hif_backend.Prelude.{
  ℕ, ◌≡◌, refl, ap, Bool, true, false, ◌&&◌, ◌||◌, not, List, [], ◌∷◌, Option, none, some, ◌==◌,
  if◌then◌else◌, All, arith, Bool-cases, inl, inr, ==_iff,
}
use hif_backend.Hif2vhdl.Sensitivity.{
  Condition, identifier, op_not_of, op_bnot_of, boolean_cast, is_same, edge_condition, joined,
  build_sensitivity_condition,
}
use hif_backend.Hif2vhdl.Sensitivity.Events.{Event, holds, holds_if_any, member}

or-right : (b c : Bool) → c ≡ true → (b || c) ≡ true
or-right b c h = ground arith

module _ (e : Event) (clock skip : Option ℕ) where
  -- Whether a signal is high or low.
  abbrev pub at_level : Bool → ℕ → Bool
  at_level is_high s = if is_high then e.level s else not (e.level s)

  -- Whether a signal is at the level of its edge, and has just changed if it is the clock.
  abbrev pub at_edge : Bool → ℕ → Bool
  at_edge is_rising s = (if is_same clock s then e.changed == s else true) && at_level is_rising s

  abbrev pub any_edge : Bool → List ℕ → Bool
  any_edge is_rising [] = false
  any_edge is_rising (s ∷ ss) = not (is_same skip s) && at_edge is_rising s || any_edge is_rising ss

  -- Whether a signal other than the clock is at the level of its edge.
  abbrev pub any_level : Bool → List ℕ → Bool
  any_level is_rising [] = false
  any_level is_rising (s ∷ ss) =
      not (is_same clock s) && at_level is_rising s || any_level is_rising ss

  same-level : (b : Bool) (s : ℕ) → (e.changed == s) ≡ true → at_level b e.changed ≡ at_level b s
  same-level b s q = ap (at_level b) ((==_iff e.changed s).0 q)

  same-skip : (o : Option ℕ) (s : ℕ) → (e.changed == s) ≡ true → is_same o e.changed ≡ is_same o s
  same-skip o s q = ap (is_same o) ((==_iff e.changed s).0 q)

  pub any_edge-member :
      (b : Bool) (ss : List ℕ)
      → member e.changed ss ≡ true
      → is_same skip e.changed ≡ false
      → at_level b e.changed ≡ true
      → any_edge b ss ≡ true
  any_edge-member b [] h n l = let wrong : ⊥ = cc in absurd wrong
  any_edge-member b (s ∷ ss) h n l = elim (Bool-cases (e.changed == s)) [
    | inl q ↦ elim (Bool-cases (is_same clock s)) [
      | inl c ↦ ground (arith, same-level b s q, same-skip skip s q, n, l)
      | inr c ↦ ground (arith, same-level b s q, same-skip skip s q, n, l)
    ]
    | inr q ↦
        or-right (not (is_same skip s) && at_edge b s) (any_edge b ss)
          (any_edge-member b ss (ground arith) n l)
  ]

  -- An edge in a list is one of the signal that changed, or a level of another signal.
  pub any_edge-cases :
      (b : Bool) (ss : List ℕ)
      → any_edge b ss ≡ true
      → ((member e.changed ss && at_level b e.changed) || any_level b ss) ≡ true
  any_edge-cases b [] h = let wrong : ⊥ = cc in absurd wrong
  any_edge-cases b (s ∷ ss) h = elim (Bool-cases (any_edge b ss)) [
    | inl later ↦ ground (arith, any_edge-cases b ss later)
    | inr no_later ↦
        let edge : at_edge b s ≡ true = ground arith in
        elim (Bool-cases (is_same clock s)) [
          | inl c ↦
              let q : (e.changed == s) ≡ true = ground arith in
              ground (arith, same-level b s q, edge, q, c)
          | inr c ↦ ground (arith, edge, c)
        ]
  ]

  module _ (is_one_bit is_bool : ℕ → Bool) where
    level-holds :
        (b : Bool) (s : ℕ)
        → holds e (
            let v =
              if b
              then identifier s
              else if is_bool s
              then op_not_of (identifier s)
              else op_bnot_of (identifier s) in
            if is_bool s then v else boolean_cast v)
          ≡ at_level b s
    level-holds true s = elim (Bool-cases (is_bool s)) [ inl k ↦ rw k refl | inr k ↦ rw k refl ]
    level-holds false s = elim (Bool-cases (is_bool s)) [ inl k ↦ rw k refl | inr k ↦ rw k refl ]

    joined-holds :
        (expr : Option Condition) (c : Condition)
        → holds e (joined is_one_bit is_bool expr c) ≡ (holds_if_any e expr || holds e c)
    joined-holds none c = refl
    joined-holds (some d) c = refl

    holds-edge_condition :
        (b : Bool) (s : ℕ) → holds e (edge_condition is_one_bit is_bool clock b s) ≡ at_edge b s
    unfolding edge_condition
    holds-edge_condition b s = elim (Bool-cases (is_same clock s)) [
      | inl c ↦ rw c (ap (e.changed == s &&◌) (level-holds b s))
      | inr c ↦ rw c (level-holds b s)
    ]

    pub build_sensitivity_condition_lem :
        (b : Bool) (ss : List ℕ) (expr : Option Condition)
        → All (λ s. is_one_bit s ≡ true) ss
        → (r : Option Condition) × (build_sensitivity_condition is_one_bit is_bool clock skip b ss
              expr
            ≡ some r)
          × (holds_if_any e r ≡ (holds_if_any e expr || any_edge b ss))
    unfolding build_sensitivity_condition
    build_sensitivity_condition_lem b [] expr h = (expr, refl, ground arith)
    build_sensitivity_condition_lem b (s ∷ ss) expr h = elim (Bool-cases (is_same skip s)) [
      | inl k ↦
          let (r, q, w) = build_sensitivity_condition_lem b ss expr h.1 in
          (r, rw k q, ground (arith, w, k))
      | inr k ↦
          let c : Condition = edge_condition is_one_bit is_bool clock b s in
          let (r, q, w) =
            build_sensitivity_condition_lem b ss (some (joined is_one_bit is_bool expr c)) h.1 in
          (r, rw (k, h.0) q, ground (arith, w, k, joined-holds expr c, holds-edge_condition b s))
    ]
