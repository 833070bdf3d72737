-- ===== src/Hif2vhdl/ForRanges/Iterations.antt =====
-- src/hif2vhdl/VhdlPreRefine_misc.cpp: the loops that visitFor translates, and what they do.
use hif_backend.Prelude.{
  ℕ, ◌≡◌, refl, Bool, true, false, List, [], ◌∷◌, ◌++◌, Option, some, Bytes, codes, bytes_eq, ◌∙◌,
  arith,
}
use hif_backend.Prelude.Int.{pos}
use hif_backend.Hif2vhdl.ForRanges.{
  Value, identifier, int_value, expression, Declaration, holds, Action, assignment, For, range,
  starts_with, visit_for, translated, counted, index_of, Counted,
}
use hif_backend.Hif2vhdl.ForRanges.Runs.{order, step}

pub bytes_eq_refl : (s : Bytes) → bytes_eq s s ≡ true
bytes_eq_refl [] = refl
bytes_eq_refl (c ∷ s) = let ih = bytes_eq_refl s in ground arith

starts_with-append : (s t : Bytes) → starts_with s (s ++ t) ≡ true
starts_with-append [] t = refl
starts_with-append (c ∷ s) t = let ih = starts_with-append s t in ground arith

pub bytes_eq-longer : (s w t : Bytes) (c : ℕ) → bytes_eq s ((s ++ c ∷ w) ++ t) ≡ false
bytes_eq-longer [] w t c = refl
bytes_eq-longer (d ∷ s) w t c = let ih = bytes_eq-longer s w t c in ground arith

-- A loop counts its variable, or a variable of its own from a first value on, which its body
-- assigns.
pub data Form (V : Type 0) : Type 0 where
  plain : Form V
  supported : Bytes → Value V → Form V

module _ {V : Type 0} where
  abbrev pub variable : Bytes → Value V → Declaration V
  variable n v = record { is_variable = true; name = n; value = some v }

module _ {V : Type 0} (name : Bytes) where
  abbrev pub index : Form V → Bytes
  index plain = name
  index (supported fresh first) = (name ++ codes "_hif_support") ++ fresh

  abbrev pub declarations : Form V → Value V → List (Declaration V)
  declarations plain left = variable name left ∷ []
  declarations (supported fresh first) left =
      variable name left ∷ variable (index (supported fresh first)) first ∷ []

  abbrev pub test : Bool → Form V → Value V → Value V
  test up form bound = expression (order up) (identifier (index form)) bound

module _ {V S : Type 0} (as_bound : Option (Value V) → Option (Value V)) where
  visit_for-translated :
      (l : For V S) (c : Counted V S)
      → counted l ≡ some c
      → visit_for as_bound l ≡ translated as_bound l c
  unfolding visit_for
  visit_for-translated l c e = rw (visit_for, e) refl

module _ {V S : Type 0} (name : Bytes) where
  abbrev pub actions : Form V → List (Action V S) → List (Action V S)
  actions plain body = body
  actions (supported fresh first) body =
      assignment name (identifier (index name (supported fresh first))) ∷ body

  abbrev pub steps : Bool → Form V → List (Action V S)
  steps up form =
      assignment (index name form)
        (expression (step up) (identifier (index name form)) (int_value (pos 1)))
      ∷ []

  abbrev pub counting_loop : Bool → Form V → Value V → Value V → List (Action V S) → For V S
  counting_loop up form left bound body = record {
    init_declarations = declarations name form left;
    init_values = [];
    condition = holds (test name up form bound);
    step_actions = steps up form;
    for_actions = actions form body;
  }

  abbrev pub range_loop : Bool → Value V → Value V → Value V → List (Action V S) → For V S
  range_loop up value left right body = record {
    init_declarations = variable name value ∷ [];
    init_values = [];
    condition = range up left right;
    step_actions = [];
    for_actions = body;
  }

  counted-counting_loop :
      (up : Bool) (form : Form V) (left bound : Value V) (body : List (Action V S))
      → counted (counting_loop up form left bound body)
        ≡ some (record {
          variable = variable name left;
          index = index name form;
          is_up = up;
          bound = bound;
          body = body;
        })
  unfolding counted index_of
  counted-counting_loop true plain left bound body = rw (bytes_eq_refl name) refl
  counted-counting_loop false plain left bound body = rw (bytes_eq_refl name) refl
  counted-counting_loop true (supported fresh first) left bound body =
      let n : Bytes = (name ++ codes "_hif_support") ++ fresh in
      rw (starts_with-append (name ++ codes "_hif_support") fresh, bytes_eq_refl name)
        (rw (bytes_eq_refl n) (rw (bytes_eq_refl n) refl))
  counted-counting_loop false (supported fresh first) left bound body =
      let n : Bytes = (name ++ codes "_hif_support") ++ fresh in
      rw (starts_with-append (name ++ codes "_hif_support") fresh, bytes_eq_refl name)
        (rw (bytes_eq_refl n) (rw (bytes_eq_refl n) refl))

  pub visit_for-counting :
      (as_bound : Option (Value V) → Option (Value V)) (up : Bool) (form : Form V)
      (left bound l r : Value V) (body : List (Action V S))
      → as_bound (some left) ≡ some l
      → as_bound (some bound) ≡ some r
      → visit_for as_bound (counting_loop up form left bound body)
        ≡ some (range_loop up left l r body)
  unfolding translated
  visit_for-counting as_bound up form left bound l r body e f =
      visit_for-translated as_bound _ _ (counted-counting_loop up form left bound body)
      ∙ rw (e, f) refl
