-- ===== src/Examples/Expressions.antt =====
-- Expressions that are printed for SystemC.
use hif_backend.Prelude.{
  ℕ, suc, ◌+◌, ◌%◌, ◌≡◌, refl, Bool, true, false, [], ◌∷◌, ◌++◌, some, Bytes, codes, leb, arith,
}
use hif_backend.Prelude.Int.{ℤ, pos, negsuc}
use hif_backend.Hif.{op_plus, op_minus, op_mult, op_concat, op_eq, op_gt, op_lt, op_pow}
use hif_backend.Hif2sc.Expressions.{
  Value, operand, int_value, unary, binary, member, static_cast, when, no_alternative, alternative,
  in_other, need_wrap_paren, expression_precedence,
}
use hif_backend.Hif2sc.Expressions.Printing.{visit_value, operator_text}
use hif_backend.Hif2sc.Expressions.Grammar.{
  Tree, name, prefix, infix_of, Reads, atom, before, at_least,
}
use hif_backend.Hif2sc.Expressions.Operators.{symbol_of}
use hif_backend.Hif2sc.Expressions.Reading.{tree, IsPlain, visit_value-Reads}
use hif_backend.Hif2sc.Expressions.Relational.{greater-less}

-- Texts that begin with a digit or a letter.
abbrev begins : Bytes → Bool
begins [] = false
begins (c ∷ t) = leb 48 c

abbrev IsWord : Bytes → Type 0
IsWord t = begins t ≡ true

-- Constants with their last digit.
abbrev digit : ℕ → Bytes
digit n = (48 + n % 10) ∷ codes "L"

abbrev int_text : ℤ → Bytes
int_text (pos n) = digit n
int_text (negsuc n) = codes "-" ++ digit (suc n)

abbrev int_tree : ℤ → Tree
int_tree (pos n) = name (digit n)
int_tree (negsuc n) = prefix (codes "-") (name (digit (suc n)))

digit-IsWord : (n : ℕ) → IsWord (digit n)
digit-IsWord n = ground arith

int_Reads : (z : ℤ) → Reads IsWord 12 (int_text z) (int_tree z)
int_Reads (pos n) = at_least {n = 12} {m = 13} (omega arith) (atom (digit-IsWord n))
int_Reads (negsuc n) =
    before (codes "-") refl (ground arith)
      (at_least {n = 12} {m = 13} (omega arith) (atom (digit-IsWord (suc n))))

abbrev a : Value
a = operand (codes "a")

abbrev b : Value
b = operand (codes "b")

-- a * (b + -3L), a conditional and a concatenation.
abbrev nested : Value
nested =
    when
      (alternative
        (binary false op_eq (binary false op_mult a (binary false op_plus b (int_value (negsuc 2))))
          b)
        (binary false op_concat a (member b (int_value (pos 1)))) no_alternative)
      (unary false op_minus (static_cast false (codes "int") (binary false op_concat a b)))

nested_text :
    visit_value int_text 0 nested in_other
    ≡ some (codes "a * (b + -3L) == b ? (a , b[1L]) : -static_cast< int >( (a , b) )")
unfolding visit_value operator_text need_wrap_paren expression_precedence
nested_text = refl

doubled_minus :
    visit_value int_text 0 (unary false op_minus (unary false op_minus a)) in_other
    ≡ some (codes "--a")
unfolding visit_value operator_text need_wrap_paren expression_precedence
doubled_minus = refl

power_of_four :
    visit_value int_text 0 (binary false op_pow (int_value (pos 4)) a) in_other
    ≡ some (codes "1L << a")
unfolding visit_value operator_text need_wrap_paren expression_precedence
power_of_four = refl

visit_value-Reads_example :
    (t : Bytes) × (visit_value int_text 0 nested in_other ≡ some t)
    × Reads IsWord 1 t (tree int_text int_tree nested)
unfolding IsPlain symbol_of operator_text
visit_value-Reads_example = visit_value-Reads int_text int_tree 0 IsWord int_Reads nested (
  refl,
  ((
    (refl, refl, (refl, refl, refl, (refl, refl, refl, tt)), refl),
    (refl, refl, refl, (refl, refl, tt)),
    tt,
  )),
  (refl, refl, (refl, refl, refl, refl)),
)

greater-less_example :
    (t : Bytes) × (visit_value int_text 0 (binary false op_gt a (binary false op_lt b a)) in_other
      ≡ some t)
    × Reads IsWord 1 t (
        infix_of
          (codes "<")
          (infix_of (codes ">") (tree int_text int_tree a) (tree int_text int_tree b))
          (tree int_text int_tree a))
unfolding IsPlain
greater-less_example = greater-less int_text int_tree IsWord int_Reads a b a refl refl refl refl
