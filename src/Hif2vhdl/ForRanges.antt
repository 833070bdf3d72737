-- ===== src/Hif2vhdl/ForRanges.antt =====
-- src/hif2vhdl/VhdlPreRefine_misc.cpp: visitFor, which turns a loop that counts in ones into a loop
-- over a range. `V` and `S` are the other values and the other actions of hif-core.
pub mod Runs
pub mod Iterations
pub mod Rounds
use hif_backend.Prelude.{
  Bool, true, false, ◌&&◌, List, [], ◌∷◌, ◌++◌, Option, none, some, Bytes, codes, bytes_eq,
  is_empty, ◌==◌, if◌then◌else◌, ◌>>=◌,
}
use hif_backend.Prelude.Int.{ℤ, pos, negsuc}
use hif_backend.Hif.{Operator, op_le, op_ge, op_plus, op_minus}

module _ (V : Type 0) where
  pub data Value : Type 0 where
    identifier : Bytes → Value
    int_value : ℤ → Value
    expression : Operator → Value → Value → Value
    other_value : V → Value

  -- A declaration of a loop that is a variable or another one, with its value.
  pub record Declaration : Type 0 where
    pub is_variable : Bool
    pub name : Bytes
    pub value : Option Value

  pub data Condition : Type 0 where
    holds : Value → Condition
    upto : Value → Value → Condition
    downto : Value → Value → Condition

module _ (V S : Type 0) where
  -- An assignment to a name, or another action.
  pub data Action : Type 0 where
    assignment : Bytes → Value V → Action
    other_action : S → Action

  pub record For : Type 0 where
    pub init_declarations : List (Declaration V)
    pub init_values : List Action
    pub condition : Condition V
    pub step_actions : List Action
    pub for_actions : List Action

  -- A loop that can be translated: its first declaration, the name of the index that it counts,
  -- whether upwards, the last value, and the body without the assignment of the index.
  pub record Counted : Type 0 where
    pub variable : Declaration V
    pub index : Bytes
    pub is_up : Bool
    pub bound : Value V
    pub body : List Action

abbrev pub starts_with : Bytes → Bytes → Bool
starts_with [] t = true
starts_with (c ∷ s) [] = false
starts_with (c ∷ s) (d ∷ t) = c == d && starts_with s t

abbrev pub is_up_operator : Operator → Option Bool
is_up_operator op = elim op [ op_le ↦ some true | op_ge ↦ some false | _ ↦ none ]

abbrev pub is_step_operator : Bool → Operator → Bool
is_step_operator true op = elim op [ op_plus ↦ true | _ ↦ false ]
is_step_operator false op = elim op [ op_minus ↦ true | _ ↦ false ]

abbrev pub is_one : ℤ → Bool
is_one (pos n) = n == 1
is_one (negsuc n) = false

module _ {V : Type 0} where
  abbrev pub is_named : Bytes → Value V → Bool
  is_named name v = elim v [ identifier n ↦ bytes_eq n name | _ ↦ false ]

  abbrev pub is_one_value : Value V → Bool
  is_one_value v = elim v [ int_value z ↦ is_one z | _ ↦ false ]

  -- Whether the value is the name, one further.
  abbrev pub is_next : Bool → Bytes → Value V → Bool
  is_next up name v = elim v [
    | expression op a b ↦ is_step_operator up op && is_named name a && is_one_value b
    | _ ↦ false
  ]

  -- The direction of a comparison, and what it compares.
  abbrev pub comparison : Condition V → Option (Bool × Value V × Value V)
  comparison c = elim c [
    | holds v ↦ elim v [
      | expression op a b ↦ elim (is_up_operator op) [ none ↦ none | some up ↦ some (up, a, b) ]
      | _ ↦ none
    ]
    | _ ↦ none
  ]

module _ {V S : Type 0} where
  abbrev pub is_assignment : Bytes → (Value V → Bool) → Action V S → Bool
  is_assignment name test a = elim a [
    | assignment n v ↦ bytes_eq n name && test v
    | other_action s ↦ false
  ]

  -- The first declaration, the name of the index and the actions behind the assignment of it.
  unfoldable pub index_of :
      List (Declaration V) → List (Action V S) → Option (Declaration V × Bytes × List (Action V S))
  index_of [] actions = none
  index_of (v1 ∷ []) actions = if v1.is_variable then some (v1, v1.name, actions) else none
  index_of (v1 ∷ v2 ∷ []) [] = none
  index_of (v1 ∷ v2 ∷ []) (a ∷ rest) =
      if v1.is_variable
        && v2.is_variable
        && starts_with (v1.name ++ codes "_hif_support") v2.name
        && is_assignment v1.name (is_named v2.name) a
      then some (v1, v2.name, rest)
      else none
  index_of (v1 ∷ v2 ∷ v3 ∷ rest) actions = none

  abbrev pub is_step : Bool → Bytes → List (Action V S) → Bool
  is_step up index [] = false
  is_step up index (a ∷ []) = is_assignment index (is_next up index) a
  is_step up index (a ∷ b ∷ rest) = false

  -- What the checks of visitFor let through.
  unfoldable pub counted : For V S → Option (Counted V S)
  counted l = do
    compared ← comparison l.condition
    found ← index_of l.init_declarations l.for_actions
    if is_empty l.init_values
          && is_named found.1 compared.1
          && is_step compared.0 found.1 l.step_actions
        then some (record {
          variable = found.0;
          index = found.1;
          is_up = compared.0;
          bound = compared.2;
          body = found.2;
        })
        else none

module _ {V : Type 0} where
  abbrev pub range : Bool → Value V → Value V → Condition V
  range up left right = if up then upto left right else downto left right

-- `as_bound` is a bound with the type that VHDL has for it, or nothing if hif-core finds no type.
-- Nothing is an assertion that fails.
module _ {V S : Type 0} (as_bound : Option (Value V) → Option (Value V)) where
  unfoldable pub translated : For V S → Counted V S → Option (For V S)
  translated l c = do
    left ← as_bound c.variable.value
    right ← as_bound (some c.bound)
    some (record {
      init_declarations = c.variable ∷ [];
      init_values = [];
      condition = range c.is_up left right;
      step_actions = [];
      for_actions = c.body;
    })

  unfoldable pub visit_for : For V S → Option (For V S)
  visit_for l = elim (counted l) [ none ↦ some l | some c ↦ translated l c ]
