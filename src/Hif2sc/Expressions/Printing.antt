-- ===== src/Hif2sc/Expressions/Printing.antt =====
-- src/hif2sc/PrintSystemCVisitor.cpp: the texts that the visits of values print, with nothing where
-- an error ends the program. The text of a constant of integers is a parameter.
use hif_backend.Prelude.{
  ℕ, ◌%◌, Bool, true, false, ◌&&◌, ◌||◌, ◌++◌, Option, none, some, Bytes, codes, ltb, ◌==◌,
  if◌then◌else◌, ◌>>=◌,
}
use hif_backend.Prelude.Int.{ℤ, pos, negsuc}
use hif_backend.Hif.{
  Operator, op_or, op_bor, op_and, op_band, op_xor, op_bxor, op_not, op_bnot, op_eq, op_neq,
  op_case_eq, op_case_neq, op_le, op_ge, op_lt, op_gt, op_sll, op_srl, op_sla, op_sra, op_rol,
  op_ror, op_plus, op_minus, op_mult, op_div, op_mod, op_rem, op_pow, op_abs, op_concat, op_ref,
  op_deref,
}
use hif_backend.Hif2sc.Expressions.{
  Value, operand, int_value, unary, binary, member, static_cast, c_cast, when, Alternatives,
  no_alternative, alternative, expression_precedence, Parent, in_expression, in_member, in_when,
  in_c_cast, in_other, need_wrap_paren, prec_min, prec_cast, prec_member, prec_when,
}

-- What is written for an operator of an expression that is of a string or not.
unfoldable pub operator_text : Bool → Operator → Option Bytes
operator_text is_string op = elim op [
  | op_not ↦ some (codes "!")
  | op_or ↦ some (codes "||")
  | op_xor ↦ some (codes "^")
  | op_and ↦ some (codes "&&")
  | op_bnot ↦ some (codes "~")
  | op_bor ↦ some (codes "|")
  | op_bxor ↦ some (codes "^")
  | op_band ↦ some (codes "&")
  | op_sll ↦ some (codes "<<")
  | op_srl ↦ some (codes ">>")
  | op_rol ↦ some (codes "ROL")
  | op_ror ↦ some (codes "ROR")
  | op_concat ↦ some (if is_string then codes "+" else codes ",")
  | op_eq ↦ some (codes "==")
  | op_case_eq ↦ some (codes "==")
  | op_neq ↦ some (codes "!=")
  | op_case_neq ↦ some (codes "!=")
  | op_lt ↦ some (codes "<")
  | op_le ↦ some (codes "<=")
  | op_gt ↦ some (codes ">")
  | op_ge ↦ some (codes ">=")
  | op_plus ↦ some (codes "+")
  | op_minus ↦ some (codes "-")
  | op_mult ↦ some (codes "*")
  | op_div ↦ some (codes "/")
  | op_rem ↦ some (codes "%")
  | op_abs ↦ some (codes "abs")
  | op_ref ↦ some (codes "&")
  | op_deref ↦ some (codes "*")
  | op_sla ↦ some (codes "<<")
  | op_sra ↦ some (codes ">>")
  | op_mod ↦ some (codes "%")
  | _ ↦ none
]

abbrev pub is_pow : Operator → Bool
is_pow op = elim op [ op_pow ↦ true | _ ↦ false ]

-- The operator that is left to print: a power is visited again as a shift.
abbrev pub printed_operator : Operator → Operator
printed_operator op = elim op [ op_pow ↦ op_sla | o ↦ o ]

-- Whether the first operand is a constant that is positive and even.
abbrev pub is_even_constant : Value → Bool
is_even_constant v = elim v [
  | int_value z ↦ elim z [ pos n ↦ ltb 0 n && n % 2 == 0 | negsuc n ↦ false ]
  | _ ↦ false
]

abbrev pub is_gt : Operator → Bool
is_gt op = elim op [ op_gt ↦ true | _ ↦ false ]

abbrev pub parenthesised : Bool → Bytes → Bytes
parenthesised wrap text = if wrap then codes "(" ++ text ++ codes ")" else text

abbrev pub spaced : Bytes → Bytes → Bytes → Bytes
spaced left symbol right = left ++ codes " " ++ symbol ++ codes " " ++ right

-- The texts around those of the parts.
abbrev pub member_text : Bytes → Bytes → Parent → Bytes
member_text prefix index parent =
    parenthesised (need_wrap_paren prec_member false parent)
      (prefix ++ codes "[" ++ index ++ codes "]")

abbrev pub static_cast_text : Bool → Bytes → Bytes → Parent → Bytes
static_cast_text is_address type value parent =
    parenthesised (need_wrap_paren prec_min false parent) (
      (if is_address then codes "reinterpret_cast< " else codes "static_cast< ")
      ++ type
      ++ codes " >( "
      ++ value
      ++ codes " )")

abbrev pub c_cast_text : Bytes → Bytes → Parent → Bytes
c_cast_text type value parent =
    parenthesised (need_wrap_paren prec_cast false parent)
      (codes "( " ++ type ++ codes ") " ++ value)

abbrev pub when_text : Bytes → Bytes → Parent → Bytes
when_text alternatives default_value parent =
    parenthesised (need_wrap_paren prec_when true parent) (alternatives ++ default_value)

-- `int_text` is what visitIntValue prints, `left_angular` the number of open angle brackets.
module _ (int_text : ℤ → Bytes) (left_angular : ℕ) where
  abbrev pub expression_wrap : Bool → Bool → Operator → Parent → Bool
  expression_wrap is_string has_value2 op parent =
      need_wrap_paren (expression_precedence is_string has_value2 op) false parent
      || is_gt op && ltb 0 left_angular

  -- The first operand as it is printed: a power has the constant replaced by one.
  abbrev pub first_operand : Operator → Value → Option Bytes → Option Bytes
  first_operand op v text =
      if is_pow op then if is_even_constant v then some (int_text (pos 1)) else none else text

  abbrev pub below : Bool → Bool → Operator → Bool → Parent
  below is_string has_value2 op second =
      in_expression (expression_precedence is_string has_value2 (printed_operator op)) second

  unfoldable mutual
    pub visit_value : Value → Parent → Option Bytes
    visit_value (operand text) parent = some text
    visit_value (int_value z) parent = some (int_text z)
    visit_value (unary is_string op v) parent = do
      symbol ← operator_text is_string (printed_operator op)
      value ← first_operand op v (visit_value v (below is_string false op false))
      some (
          parenthesised (expression_wrap is_string false (printed_operator op) parent)
            (symbol ++ value))
    visit_value (binary is_string op v w) parent = do
      left ← first_operand op v (visit_value v (below is_string true op false))
      symbol ← operator_text is_string (printed_operator op)
      right ← visit_value w (below is_string true op true)
      some (
          parenthesised (expression_wrap is_string true (printed_operator op) parent)
            (spaced left symbol right))
    visit_value (member prefix index) parent = do
      prefix_text ← visit_value prefix (in_member true)
      index_text ← visit_value index (in_member false)
      some (member_text prefix_text index_text parent)
    visit_value (static_cast is_address type v) parent = do
      text ← visit_value v in_other
      some (static_cast_text is_address type text parent)
    visit_value (c_cast type v) parent = do
      text ← visit_value v in_c_cast
      some (c_cast_text type text parent)
    visit_value (when no_alternative default_value) parent = some (codes "")
    visit_value (when (alternative condition value alts) default_value) parent = do
      texts ← visit_alternatives (alternative condition value alts)
      text ← visit_value default_value in_when
      some (when_text texts text parent)

    pub visit_alternatives : Alternatives → Option Bytes
    visit_alternatives no_alternative = some (codes "")
    visit_alternatives (alternative condition value alts) = do
      condition_text ← visit_value condition in_when
      value_text ← visit_value value in_when
      texts ← visit_alternatives alts
      some (condition_text ++ codes " ? " ++ value_text ++ codes " : " ++ texts)
