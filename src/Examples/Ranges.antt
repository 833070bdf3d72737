-- ===== src/Examples/Ranges.antt =====
-- A loop that counts, and its range for VHDL.
use hif_backend.Prelude.{
  ℕ, zero, suc, ◌≡◌, refl, sym, ap, ◌∙◌, Bool, true, false, List, [], ◌∷◌, Option, some, none,
  Bytes, codes, bytes_eq, bytes_eq→eq, if◌then◌else◌, Bool-cases, inl, inr,
}
use hif_backend.Prelude.Int.{ℤ, pos, negsuc, ◌+ℤ◌, ◌-ℤ◌}
use hif_backend.Hif.{Operator, op_plus, op_minus, op_le, op_ge}
use hif_backend.Hif2vhdl.ForRanges.{
  Value, identifier, int_value, expression, Action, assignment, For, visit_for,
}
use hif_backend.Hif2vhdl.ForRanges.Runs.{
  Machine, IsMachine, eval, exec, while_loop, declare, run, within, order, step, next,
}
use hif_backend.Hif2vhdl.ForRanges.Iterations.{Form, index, supported, counting_loop, bytes_eq_refl}
use hif_backend.Hif2vhdl.ForRanges.Rounds.{visit_for-runs}

abbrev Values : Type 0
Values = Bytes → ℤ

abbrev set : Bytes → ℤ → Values → Values
set n z s k = if bytes_eq k n then z else s k

abbrev truth : Bool → ℤ
truth b = if b then pos 1 else pos 0

abbrev apply : Operator → ℤ → ℤ → ℤ
apply op y z = elim op [
  | op_plus ↦ y +ℤ z
  | op_minus ↦ y -ℤ z
  | op_le ↦ truth (within true y z)
  | op_ge ↦ truth (within false y z)
  | _ ↦ pos 0
]

abbrev machine : Machine ℕ ℕ
machine = record {
  State = Values;
  get = λ n s. s n;
  set = set;
  value_of = λ v s. pos v;
  act = λ a s. s;
  apply = apply;
  is_true = λ z. elim z [ pos n ↦ elim n [ zero ↦ false | suc m ↦ true ] | negsuc n ↦ true ];
}

get-set : (n : Bytes) (z : ℤ) (s : Values) → set n z s n ≡ z
get-set n z s = rw (bytes_eq_refl n) refl

set-set_at : (n : Bytes) (y z : ℤ) (s : Values) (k : Bytes) → set n z (set n y s) k ≡ set n z s k
set-set_at n y z s k = elim (Bool-cases (bytes_eq k n)) [ inl e ↦ rw e refl | inr e ↦ rw e refl ]

set-get_at : (n : Bytes) (s : Values) (k : Bytes) → set n (s n) s k ≡ s k
set-get_at n s k = elim (Bool-cases (bytes_eq k n)) [
  | inl e ↦ rw e (ap s (sym (bytes_eq→eq k n e)))
  | inr e ↦ rw e refl
]

set-apart_at :
    (a b : Bytes) (y z : ℤ) (s : Values) (k : Bytes)
    → bytes_eq a b ≡ false
    → set a y (set b z s) k ≡ set b z (set a y s) k
set-apart_at a b y z s k h = elim (Bool-cases (bytes_eq k a)) [
  | inl e ↦
      let f : bytes_eq k b ≡ false = ap (λ w. bytes_eq w b) (bytes_eq→eq k a e) ∙ h in
      rw (e, f) refl
  | inr e ↦ rw e refl
]

apply-order : (up : Bool) (y z : ℤ) → machine.is_true (apply (order up) y z) ≡ within up y z
apply-order true y z = elim (Bool-cases (within true y z)) [ inl e ↦ rw e refl | inr e ↦ rw e refl ]
apply-order false y z = elim (Bool-cases (within false y z)) [
  | inl e ↦ rw e refl
  | inr e ↦ rw e refl
]

apply-step : (up : Bool) (y : ℤ) → apply (step up) y (pos 1) ≡ next up y
apply-step true y = refl
apply-step false y = refl

machine-IsMachine : IsMachine machine
machine-IsMachine = record {
  get-set = get-set;
  set-set = λ n y z s i k. set-set_at n y z s k i;
  set-get = λ n s i k. set-get_at n s k i;
  set-apart = λ a b y z s h i k. set-apart_at a b y z s k h i;
  apply-order = apply-order;
  apply-step = apply-step;
}

-- for (i := 1, i_hif_support := 1; i_hif_support <= 3; i_hif_support := i_hif_support + 1)
--   { i := i_hif_support; sum := sum + i }
abbrev body : List (Action ℕ ℕ)
body =
    assignment (codes "sum")
      (expression op_plus (identifier (codes "sum")) (identifier (codes "i")))
    ∷ []

abbrev as_bound : Option (Value ℕ) → Option (Value ℕ)
as_bound v = v

abbrev support : Form ℕ
support = supported [] (int_value (pos 1))

abbrev counting : For ℕ ℕ
counting = counting_loop (codes "i") true support (int_value (pos 1)) (int_value (pos 3)) body

abbrev start : Values
start k = pos 0

abbrev sum_of : Option Values → ℤ
sum_of result = elim result [ none ↦ pos 0 | some s ↦ s (codes "sum") ]

sum_of_range : sum_of (run machine 4 counting start) ≡ pos 6
unfolding run exec eval declare while_loop ◌+ℤ◌
sum_of_range = refl

visit_for-runs_example :
    (translated : For ℕ ℕ) × (visit_for as_bound counting ≡ some translated)
    × (fuel : ℕ) × (end : Values) × (z x : ℤ) × (run machine fuel counting start
        ≡ some (set (index (codes "i") support) z (set (codes "i") x end)))
    × ((n : ℕ) → run machine n translated start ≡ some end)
unfolding exec eval
visit_for-runs_example =
    visit_for-runs machine machine-IsMachine (codes "i") true (int_value (pos 1))
      (int_value (pos 3)) body as_bound support (int_value (pos 1)) (int_value (pos 3)) refl refl
      (λ s. refl) (λ s. refl)
      (
        λ z s. sym (
            machine-IsMachine.set-apart (index (codes "i") support) (codes "sum") z
              (s (codes "sum") +ℤ s (codes "i")) s refl),
        λ s. refl,
      )
      (λ z s. refl, λ z s. refl, λ s. refl) start
