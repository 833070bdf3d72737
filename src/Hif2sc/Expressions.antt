-- ===== src/Hif2sc/Expressions.antt =====
-- src/hif2sc/PrintSystemCVisitor.cpp: visitExpression, visitMember, visitCast, visitWhen and
-- visitWhenAlt with _needWrapParen and _getOperatorPrecedence.
pub mod Printing
pub mod Grammar
pub mod Precedence
pub mod Operators
pub mod Derivation
pub mod Reading
pub mod Relational
use hif_backend.Prelude.{
  ℕ, ◌+◌, ◌%◌, Bool, true, false, ◌&&◌, ◌||◌, not, List, [], ◌∷◌, ◌++◌, Option, none, some, Bytes,
  codes, ltb, leb, ◌==◌, if◌then◌else◌, ◌>>=◌,
}
use hif_backend.Prelude.Int.{ℤ, pos, negsuc}
use hif_backend.Hif.{
  Operator, op_none, op_or, op_bor, op_and, op_band, op_xor, op_bxor, op_not, op_bnot, op_eq,
  op_neq, op_case_eq, op_case_neq, op_le, op_ge, op_lt, op_gt, op_sll, op_srl, op_sla, op_sra,
  op_rol, op_ror, op_plus, op_minus, op_mult, op_div, op_mod, op_rem, op_pow, op_abs, op_concat,
  op_ref, op_deref, op_andrd, op_orrd, op_xorrd, op_assign, op_conv, op_bind, op_log, op_reverse,
  op_size,
}

-- The values that the printer may wrap in parentheses and those that hold them. An `operand` is a
-- value of another class, by its text; a type is its text as well. The flag of an expression says
-- whether its type is that of strings; a cast in a part in the
-- language C is a `c_cast`, and the flag of another cast says whether its type is a pointer or a
-- reference.
mutual
  pub data Value : Type 0 where
    operand : Bytes → Value
    int_value : ℤ → Value
    unary : Bool → Operator → Value → Value
    binary : Bool → Operator → Value → Value → Value
    member : Value → Value → Value
    static_cast : Bool → Bytes → Value → Value
    c_cast : Bytes → Value → Value
    when : Alternatives → Value → Value

  -- Conditions with their values.
  pub data Alternatives : Type 0 where
    no_alternative : Alternatives
    alternative : Value → Value → Alternatives → Alternatives

-- OperatorPecedenceEnum, by position.
abbrev pub prec_min : ℕ
prec_min = 0

abbrev pub prec_concat : ℕ
prec_concat = 1

abbrev pub prec_assign : ℕ
prec_assign = 2

abbrev pub prec_when : ℕ
prec_when = 3

abbrev pub prec_or : ℕ
prec_or = 4

abbrev pub prec_and : ℕ
prec_and = 5

abbrev pub prec_bor : ℕ
prec_bor = 6

abbrev pub prec_bxor : ℕ
prec_bxor = 7

abbrev pub prec_band : ℕ
prec_band = 8

abbrev pub prec_eq_neq : ℕ
prec_eq_neq = 9

abbrev pub prec_gt_ge : ℕ
prec_gt_ge = 10

abbrev pub prec_lt_le : ℕ
prec_lt_le = 11

abbrev pub prec_shifts : ℕ
prec_shifts = 12

abbrev pub prec_plus_minus : ℕ
prec_plus_minus = 13

abbrev pub prec_mult_div_mod : ℕ
prec_mult_div_mod = 14

abbrev pub prec_ref : ℕ
prec_ref = 15

abbrev pub prec_deref : ℕ
prec_deref = 16

abbrev pub prec_cast : ℕ
prec_cast = 17

abbrev pub prec_not_bnot : ℕ
prec_not_bnot = 18

abbrev pub prec_unary_plus_minus : ℕ
prec_unary_plus_minus = 19

abbrev pub prec_access : ℕ
prec_access = 20

abbrev pub prec_member : ℕ
prec_member = 21

abbrev pub prec_scope : ℕ
prec_scope = 23

-- The precedence of an expression that is of a string or not and has two operands or one.
unfoldable pub expression_precedence : Bool → Bool → Operator → ℕ
expression_precedence is_string has_value2 op = elim op [
  | op_or ↦ prec_or
  | op_bor ↦ prec_bor
  | op_and ↦ prec_and
  | op_band ↦ prec_band
  | op_xor ↦ prec_bxor
  | op_bxor ↦ prec_bxor
  | op_not ↦ prec_not_bnot
  | op_bnot ↦ prec_not_bnot
  | op_eq ↦ prec_eq_neq
  | op_neq ↦ prec_eq_neq
  | op_case_eq ↦ prec_eq_neq
  | op_case_neq ↦ prec_eq_neq
  | op_le ↦ prec_lt_le
  | op_ge ↦ prec_gt_ge
  | op_lt ↦ prec_lt_le
  | op_gt ↦ prec_gt_ge
  | op_sll ↦ prec_shifts
  | op_srl ↦ prec_shifts
  | op_sla ↦ prec_shifts
  | op_sra ↦ prec_shifts
  | op_plus ↦ if has_value2 then prec_plus_minus else prec_unary_plus_minus
  | op_minus ↦ if has_value2 then prec_plus_minus else prec_unary_plus_minus
  | op_mult ↦ prec_mult_div_mod
  | op_div ↦ prec_mult_div_mod
  | op_mod ↦ prec_mult_div_mod
  | op_rem ↦ prec_mult_div_mod
  | op_concat ↦ if is_string then prec_plus_minus else prec_concat
  | op_ref ↦ prec_ref
  | op_deref ↦ prec_deref
  | op_assign ↦ prec_assign
  | op_conv ↦ prec_assign
  | op_bind ↦ prec_assign
  | _ ↦ prec_min
]

-- Where a value stands: below an expression, with the precedence of that and whether the value is
-- its second operand; below a member, as the prefix or not; below a conditional or one of its
-- alternatives; below a cast in C or an assignment; or below another object, of no precedence.
pub data Parent : Type 0 where
  in_expression : ℕ → Bool → Parent
  in_member : Bool → Parent
  in_when in_c_cast in_assign in_other : Parent

abbrev pub parent_precedence : Parent → ℕ
parent_precedence (in_expression prec is_value2) = prec
parent_precedence (in_member is_prefix) = prec_member
parent_precedence in_when = prec_when
parent_precedence in_c_cast = prec_cast
parent_precedence in_assign = prec_assign
parent_precedence in_other = prec_min

abbrev pub is_index : Parent → Bool
is_index parent = elim parent [ in_member is_prefix ↦ not is_prefix | _ ↦ false ]

abbrev pub is_value2 : Parent → Bool
is_value2 parent = elim parent [ in_expression prec second ↦ second | _ ↦ false ]

abbrev pub is_in_when : Parent → Bool
is_in_when parent = elim parent [ in_when ↦ true | _ ↦ false ]

-- For a value of a precedence that is a conditional or not.
unfoldable pub need_wrap_paren : ℕ → Bool → Parent → Bool
need_wrap_paren prec is_when parent =
    if prec == prec_min
    then false
    else if prec == prec_concat && not (parent_precedence parent == prec_concat)
    then true
    else if is_index parent
    then false
    else if leb prec_access prec && leb prec prec_scope
    then false
    else if prec == parent_precedence parent && is_value2 parent
    then true
    else if prec == parent_precedence parent && (is_in_when parent && is_when)
    then true
    else ltb prec (parent_precedence parent)
