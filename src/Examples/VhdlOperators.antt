-- ===== src/Examples/VhdlOperators.antt =====
-- An expression that is printed for VHDL.
use hif_backend.Prelude.{◌≡◌, refl, Bool, true, false, [], ◌∷◌, some, Bytes, codes, leb}
use hif_backend.Hif.{op_and, op_eq, op_concat, op_plus, op_bnot}
use hif_backend.Hif.Grammar.{Value, bare, unary, binary, Reads}
use hif_backend.Hif2vhdl.Expressions.{visit_expression, operator_text}
use hif_backend.Hif2vhdl.Expressions.Reading.{vhdl, tree, IsPlain, visit_expression-vhdl}

-- Texts that begin with a digit or a letter.
abbrev begins : Bytes → Bool
begins [] = false
begins (c ∷ t) = leb 48 c

abbrev IsWord : Bytes → Type 0
IsWord t = begins t ≡ true

abbrev a : Value
a = bare (codes "a")

abbrev b : Value
b = bare (codes "b")

abbrev nested : Value
nested =
    binary op_and
      (binary op_eq (binary op_concat a (binary op_plus b (bare (codes "1")))) (unary op_bnot a)) b

nested_text : visit_expression nested ≡ some (codes "((a & (b + 1)) = (not a)) and b")
unfolding visit_expression operator_text
nested_text = refl

visit_expression-vhdl_example :
    (t : Bytes) × (visit_expression nested ≡ some t)
    × Reads (vhdl IsWord IsWord) false t (tree nested)
unfolding IsPlain
visit_expression-vhdl_example =
    visit_expression-vhdl IsWord IsWord nested
      (refl, (refl, (refl, refl, (refl, refl, refl)), (refl, refl)), refl)
