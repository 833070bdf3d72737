-- ===== src/Hif2sc/Expressions/Operators.antt =====
-- src/hif2sc/PrintSystemCVisitor.cpp: the operators that C++ has, by their texts and precedences.
use hif_backend.Prelude.{if◌then◌else◌, ◌≤◌, ◌≡◌, Bool, true, false, some, Bytes, codes, arith}
use hif_backend.Hif.{
  Operator, op_or, op_bor, op_and, op_band, op_xor, op_bxor, op_not, op_bnot, op_eq, op_neq,
  op_case_eq, op_case_neq, op_le, op_ge, op_lt, op_gt, op_sll, op_srl, op_sla, op_sra, op_plus,
  op_minus, op_mult, op_div, op_mod, op_rem, op_concat, op_ref, op_deref,
}
use hif_backend.Hif2sc.Expressions.{expression_precedence}
use hif_backend.Hif2sc.Expressions.Printing.{operator_text, printed_operator, is_pow}
use hif_backend.Hif2sc.Expressions.Grammar.{one_of, operators, prefix_operators}
use hif_backend.Hif2sc.Expressions.Precedence.{level_of}

-- The operators that C++ has between two operands, and those in front of one.
abbrev pub is_infix : Operator → Bool
is_infix op = elim op [
  | op_or ↦ true
  | op_bor ↦ true
  | op_and ↦ true
  | op_band ↦ true
  | op_xor ↦ true
  | op_bxor ↦ true
  | op_eq ↦ true
  | op_neq ↦ true
  | op_case_eq ↦ true
  | op_case_neq ↦ true
  | op_le ↦ true
  | op_ge ↦ true
  | op_lt ↦ true
  | op_gt ↦ true
  | op_sll ↦ true
  | op_srl ↦ true
  | op_sla ↦ true
  | op_sra ↦ true
  | op_plus ↦ true
  | op_minus ↦ true
  | op_mult ↦ true
  | op_div ↦ true
  | op_mod ↦ true
  | op_rem ↦ true
  | op_concat ↦ true
  | _ ↦ false
]

abbrev pub is_prefix : Operator → Bool
is_prefix op = elim op [
  | op_not ↦ true
  | op_bnot ↦ true
  | op_plus ↦ true
  | op_minus ↦ true
  | op_ref ↦ true
  | op_deref ↦ true
  | _ ↦ false
]

-- How C++ writes what an operator of hif-core means, whatever the printer writes: the shifts in
-- either direction, the remainders and the equalities are one operator each. SystemC joins vectors
-- by a comma, and texts are joined by a plus.
unfoldable pub symbol_of : Bool → Operator → Bytes
symbol_of is_string op = elim op [
  | op_or ↦ codes "||"
  | op_bor ↦ codes "|"
  | op_and ↦ codes "&&"
  | op_band ↦ codes "&"
  | op_xor ↦ codes "^"
  | op_bxor ↦ codes "^"
  | op_not ↦ codes "!"
  | op_bnot ↦ codes "~"
  | op_eq ↦ codes "=="
  | op_neq ↦ codes "!="
  | op_le ↦ codes "<="
  | op_ge ↦ codes ">="
  | op_lt ↦ codes "<"
  | op_gt ↦ codes ">"
  | op_sll ↦ codes "<<"
  | op_srl ↦ codes ">>"
  | op_plus ↦ codes "+"
  | op_minus ↦ codes "-"
  | op_mult ↦ codes "*"
  | op_div ↦ codes "/"
  | op_mod ↦ codes "%"
  | op_case_eq ↦ codes "=="
  | op_case_neq ↦ codes "!="
  | op_sla ↦ codes "<<"
  | op_sra ↦ codes ">>"
  | op_rem ↦ codes "%"
  | op_concat ↦ if is_string then codes "+" else codes ","
  | op_ref ↦ codes "&"
  | op_deref ↦ codes "*"
  | _ ↦ codes ""
]

-- What the printer does with these operators.
abbrev pub InfixRow : Bool → Operator → Type 0
InfixRow s op =
    let prec = expression_precedence s true op in
    (1 ≤ prec)
    × (prec ≤ 14)
    × (prec ≡ 2 → ⊥)
    × (prec ≡ 3 → ⊥)
    × (one_of (operators (level_of prec)) (symbol_of s op) ≡ true)
    × (operator_text s op ≡ some (symbol_of s op))
    × (printed_operator op ≡ op)
    × (is_pow op ≡ false)

abbrev pub PrefixRow : Bool → Operator → Type 0
PrefixRow s op =
    let prec = expression_precedence s false op in
    (15 ≤ prec)
    × (prec ≤ 19)
    × (one_of prefix_operators (symbol_of s op) ≡ true)
    × (operator_text s op ≡ some (symbol_of s op))
    × (printed_operator op ≡ op)
    × (is_pow op ≡ false)

pub infix-row : (s : Bool) (op : Operator) → is_infix op ≡ true → InfixRow s op
unfolding expression_precedence operator_text symbol_of
infix-row true op h = (
  ground arith,
  ground arith,
  ground arith,
  ground arith,
  ground arith,
  ground arith,
  ground arith,
  ground arith,
)
infix-row false op h = (
  ground arith,
  ground arith,
  ground arith,
  ground arith,
  ground arith,
  ground arith,
  ground arith,
  ground arith,
)

pub prefix-row : (s : Bool) (op : Operator) → is_prefix op ≡ true → PrefixRow s op
unfolding expression_precedence operator_text symbol_of
prefix-row s op h =
    (ground arith, ground arith, ground arith, ground arith, ground arith, ground arith)
