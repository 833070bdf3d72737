-- ===== src/Hif2verilog/Expressions.antt =====
-- src/hif2verilog/VerilogPrinter.cpp: visitExpression.
pub mod Reading
use hif_backend.Prelude.{
  Bool, true, false, ◌++◌, Option, none, some, Bytes, codes, if◌then◌else◌, ◌>>=◌,
}
use hif_backend.Hif.{
  Operator, op_or, op_bor, op_and, op_band, op_xor, op_bxor, op_not, op_bnot, op_eq, op_neq,
  op_case_eq, op_case_neq, op_le, op_ge, op_lt, op_gt, op_sll, op_srl, op_sla, op_sra, op_rol,
  op_ror, op_plus, op_minus, op_mult, op_div, op_mod, op_rem, op_pow, op_abs, op_concat, op_ref,
  op_deref, op_andrd, op_orrd, op_xorrd,
}
use hif_backend.Hif.Grammar.{Value, bare, enclosed, unary, binary, operand_text}

-- What is written for an operator, or nothing where it is an error.
unfoldable pub operator_text : Operator → Option Bytes
operator_text op = elim op [
  | op_not ↦ some (codes "!")
  | op_or ↦ some (codes "||")
  | op_xor ↦ some (codes "^")
  | op_and ↦ some (codes "&&")
  | op_bnot ↦ some (codes "~")
  | op_bor ↦ some (codes "|")
  | op_bxor ↦ some (codes "^")
  | op_band ↦ some (codes "&")
  | op_sll ↦ some (codes "<<")
  | op_srl ↦ some (codes ">>")
  | op_rol ↦ some (codes "rol")
  | op_ror ↦ some (codes "ror")
  | op_eq ↦ some (codes "==")
  | op_case_eq ↦ some (codes "===")
  | op_neq ↦ some (codes "!=")
  | op_case_neq ↦ some (codes "!==")
  | op_lt ↦ some (codes "<")
  | op_le ↦ some (codes "<=")
  | op_gt ↦ some (codes ">")
  | op_ge ↦ some (codes ">=")
  | op_plus ↦ some (codes "+")
  | op_minus ↦ some (codes "-")
  | op_mult ↦ some (codes "*")
  | op_div ↦ some (codes "/")
  | op_rem ↦ some (codes "rem")
  | op_pow ↦ some (codes "**")
  | op_abs ↦ some (codes "abs")
  | op_ref ↦ some (codes "")
  | op_deref ↦ some (codes "")
  | op_sla ↦ some (codes "sla")
  | op_sra ↦ some (codes ">>>")
  | op_mod ↦ some (codes "%")
  | op_andrd ↦ some (codes "&")
  | op_orrd ↦ some (codes "|")
  | op_xorrd ↦ some (codes "^")
  | _ ↦ none
]

abbrev pub is_concat : Operator → Bool
is_concat op = elim op [ op_concat ↦ true | _ ↦ false ]

unfoldable pub infix_text : Operator → Value → Value → Bytes → Bytes → Option Bytes
infix_text op v w left right =
    if is_concat op
    then some (codes "{" ++ left ++ codes ", " ++ right ++ codes "}")
    else elim (operator_text op) [
      | none ↦ none
      | some symbol ↦
          some (operand_text v left ++ codes " " ++ symbol ++ codes " " ++ operand_text w right)
    ]

-- A concatenation with one operand is no expression of hif-core.
unfoldable pub visit_expression : Value → Option Bytes
visit_expression (bare text) = some text
visit_expression (enclosed text) = some text
visit_expression (unary op v) = do
  symbol ← operator_text op
  text ← visit_expression v
  some (symbol ++ codes " " ++ operand_text v text)
visit_expression (binary op v w) = do
  left ← visit_expression v
  right ← visit_expression w
  infix_text op v w left right
