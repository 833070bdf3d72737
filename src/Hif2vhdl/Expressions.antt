-- ===== src/Hif2vhdl/Expressions.antt =====
-- src/hif2vhdl/VHDLPrinter.cpp: visitExpression.
pub mod Reading
use hif_backend.Prelude.{
  Bool, true, false, ◌++◌, Option, none, some, Bytes, codes, if◌then◌else◌, ◌>>=◌,
}
use hif_backend.Hif.{
  Operator, op_or, op_bor, op_and, op_band, op_xor, op_bxor, op_not, op_bnot, op_eq, op_neq,
  op_case_eq, op_case_neq, op_le, op_ge, op_lt, op_gt, op_sll, op_srl, op_sla, op_sra, op_rol,
  op_ror, op_plus, op_minus, op_mult, op_div, op_mod, op_rem, op_pow, op_abs, op_concat, op_ref,
  op_deref, op_andrd, op_orrd, op_xorrd,
}
use hif_backend.Hif.Grammar.{Value, bare, enclosed, unary, binary, operand_text}

-- What is written for an operator, or nothing where it is an error.
unfoldable pub operator_text : Operator → Option Bytes
operator_text op = elim op [
  | op_not ↦ some (codes "not")
  | op_or ↦ some (codes "or")
  | op_xor ↦ some (codes "xor")
  | op_and ↦ some (codes "and")
  | op_bnot ↦ some (codes "not")
  | op_bor ↦ some (codes "or")
  | op_bxor ↦ some (codes "xor")
  | op_band ↦ some (codes "and")
  | op_sll ↦ some (codes "sll")
  | op_srl ↦ some (codes "srl")
  | op_rol ↦ some (codes "rol")
  | op_ror ↦ some (codes "ror")
  | op_concat ↦ some (codes "&")
  | op_eq ↦ some (codes "=")
  | op_case_eq ↦ some (codes "=")
  | op_neq ↦ some (codes "/=")
  | op_case_neq ↦ some (codes "/=")
  | op_lt ↦ some (codes "<")
  | op_le ↦ some (codes "<=")
  | op_gt ↦ some (codes ">")
  | op_ge ↦ some (codes ">=")
  | op_plus ↦ some (codes "+")
  | op_minus ↦ some (codes "-")
  | op_mult ↦ some (codes "*")
  | op_div ↦ some (codes "/")
  | op_rem ↦ some (codes "rem")
  | op_pow ↦ some (codes "**")
  | op_abs ↦ some (codes "abs")
  | op_sla ↦ some (codes "sla")
  | op_sra ↦ some (codes "sra")
  | op_mod ↦ some (codes "mod")
  | _ ↦ none
]

unfoldable pub visit_expression : Value → Option Bytes
visit_expression (bare text) = some text
visit_expression (enclosed text) = some text
visit_expression (unary op v) = do
  symbol ← operator_text op
  text ← visit_expression v
  some (symbol ++ codes " " ++ operand_text v text)
visit_expression (binary op v w) = do
  left ← visit_expression v
  symbol ← operator_text op
  right ← visit_expression w
  some (operand_text v left ++ codes " " ++ symbol ++ codes " " ++ operand_text w right)
