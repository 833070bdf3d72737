-- ===== src/Hif2vhdl/ForRanges/Runs.antt =====
-- What the loops of src/hif2vhdl/VhdlPreRefine_misc.cpp do when they run: one with a condition tests
-- it before each round, one over a range runs once for each value of it, which is taken first.
use hif_backend.Prelude.{
  ℕ, zero, suc, ◌+◌, ◌-◌, ◌≡◌, refl, Bool, true, false, List, [], ◌∷◌, Option, none, some, Bytes,
  bytes_eq, leb, if◌then◌else◌, arith,
}
use hif_backend.Prelude.Int.{ℤ, pos, pos_part, neg_part, ◌+ℤ◌, ◌-ℤ◌}
use hif_backend.Hif.{Operator, op_le, op_ge, op_plus, op_minus}
use hif_backend.Hif2vhdl.ForRanges.{
  Value, identifier, int_value, expression, other_value, Declaration, holds, upto, downto, Action,
  assignment, other_action, For,
}

-- What hif-core's other values, actions and operators mean, on integers without bounds.
pub record Machine (V S : Type 0) : Type 1 where
  pub State : Type 0
  pub get : Bytes → State → ℤ
  pub set : Bytes → ℤ → State → State
  pub value_of : V → State → ℤ
  pub act : S → State → State
  pub apply : Operator → ℤ → ℤ → ℤ
  pub is_true : ℤ → Bool

abbrev pub next : Bool → ℤ → ℤ
next true i = i +ℤ pos 1
next false i = i -ℤ pos 1

-- The number of values of a range.
abbrev pub span : Bool → ℤ → ℤ → ℕ
span true l r = suc (pos_part r + neg_part l) - (pos_part l + neg_part r)
span false l r = suc (pos_part l + neg_part r) - (pos_part r + neg_part l)

-- Whether `l` is not beyond `r`.
abbrev pub within : Bool → ℤ → ℤ → Bool
within true l r = leb (pos_part l + neg_part r) (pos_part r + neg_part l)
within false l r = leb (pos_part r + neg_part l) (pos_part l + neg_part r)

abbrev pub order : Bool → Operator
order up = if up then op_le else op_ge

abbrev pub step : Bool → Operator
step up = if up then op_plus else op_minus

pub record IsMachine {V S : Type 0} (m : Machine V S) : Type 0 where
  pub get-set : (n : Bytes) (z : ℤ) (s : m.State) → m.get n (m.set n z s) ≡ z
  pub set-set : (n : Bytes) (y z : ℤ) (s : m.State) → m.set n z (m.set n y s) ≡ m.set n z s
  pub set-get : (n : Bytes) (s : m.State) → m.set n (m.get n s) s ≡ s
  pub set-apart :
      (a b : Bytes) (y z : ℤ) (s : m.State)
      → bytes_eq a b ≡ false
      → m.set a y (m.set b z s) ≡ m.set b z (m.set a y s)
  pub apply-order : (up : Bool) (y z : ℤ) → m.is_true (m.apply (order up) y z) ≡ within up y z
  pub apply-step : (up : Bool) (y : ℤ) → m.apply (step up) y (pos 1) ≡ next up y

module _ {V S : Type 0} (m : Machine V S) where
  unfoldable pub eval : Value V → m.State → ℤ
  eval (identifier n) s = m.get n s
  eval (int_value z) s = z
  eval (expression op a b) s = m.apply op (eval a s) (eval b s)
  eval (other_value v) s = m.value_of v s

  unfoldable pub exec : List (Action V S) → m.State → m.State
  exec [] s = s
  exec (assignment n v ∷ rest) s = exec rest (m.set n (eval v s) s)
  exec (other_action a ∷ rest) s = exec rest (m.act a s)

  unfoldable pub declare : List (Declaration V) → m.State → m.State
  declare [] s = s
  declare (d ∷ rest) s =
      declare rest (elim d.value [ none ↦ s | some v ↦ m.set d.name (eval v s) s ])

  -- A loop with a condition, for so many tests of it at most.
  unfoldable pub while_loop :
      ℕ → Value V → List (Action V S) → List (Action V S) → m.State → Option m.State
  while_loop zero condition body steps s = none
  while_loop (suc n) condition body steps s =
      let rest = while_loop n condition body steps (exec steps (exec body s)) in
      if m.is_true (eval condition s) then rest else some s

  pub while_loop-false :
      (n : ℕ) (c : Value V) (body steps : List (Action V S)) (s : m.State)
      → m.is_true (eval c s) ≡ false
      → while_loop (suc n) c body steps s ≡ some s
  unfolding while_loop
  while_loop-false n c body steps s e = rw e refl

  pub while_loop-true :
      (n : ℕ) (c : Value V) (body steps : List (Action V S)) (s : m.State)
      → m.is_true (eval c s) ≡ true
      → while_loop (suc n) c body steps s ≡ while_loop n c body steps (exec steps (exec body s))
  unfolding while_loop
  while_loop-true n c body steps s e = rw e refl

  unfoldable pub for_range : ℕ → Bool → Bytes → ℤ → List (Action V S) → m.State → m.State
  for_range zero up name i body s = s
  for_range (suc n) up name i body s =
      for_range n up name (next up i) body (exec body (m.set name i s))

  -- The declaration of a loop over a range names its index, and its value is not used.
  unfoldable pub run_range :
      Bool → Value V → Value V → List (Declaration V) → List (Action V S) → m.State → Option m.State
  run_range up left right [] body s = none
  run_range up left right (d ∷ rest) body s =
      let l = eval left s in some (for_range (span up l (eval right s)) up d.name l body s)

  unfoldable pub run : ℕ → For V S → m.State → Option m.State
  run n l s = elim l.condition [
    | holds c ↦
        while_loop n c l.for_actions l.step_actions
          (exec l.init_values (declare l.init_declarations s))
    | upto a b ↦ run_range true a b l.init_declarations l.for_actions s
    | downto a b ↦ run_range false a b l.init_declarations l.for_actions s
  ]

pub next_span : (up : Bool) (l r : ℤ) (n : ℕ) → span up l r ≡ suc n → span up (next up l) r ≡ n
unfolding ◌+ℤ◌ ◌-ℤ◌
next_span true l r n e = ground arith
next_span false l r n e = ground arith

pub within-span_zero : (up : Bool) (l r : ℤ) → span up l r ≡ 0 → within up l r ≡ false
within-span_zero true l r e = ground arith
within-span_zero false l r e = ground arith

pub within-span_suc : (up : Bool) (l r : ℤ) (n : ℕ) → span up l r ≡ suc n → within up l r ≡ true
within-span_suc true l r n e = ground arith
within-span_suc false l r n e = ground arith
