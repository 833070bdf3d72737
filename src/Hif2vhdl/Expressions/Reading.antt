-- ===== src/Hif2vhdl/Expressions/Reading.antt =====
-- src/hif2vhdl/VHDLPrinter.cpp: the texts of expressions, read by the grammar of VHDL.
use hif_backend.Prelude.{
  ◌≡◌, refl, Bool, true, false, List, [], ◌∷◌, ◌++◌, some, Bytes, codes, arith,
}
use hif_backend.Hif.{
  Operator, op_or, op_bor, op_and, op_band, op_xor, op_bxor, op_not, op_bnot, op_eq, op_neq,
  op_case_eq, op_case_neq, op_le, op_ge, op_lt, op_gt, op_sll, op_srl, op_sla, op_sra, op_rol,
  op_ror, op_plus, op_minus, op_mult, op_div, op_mod, op_rem, op_pow, op_abs, op_concat,
}
use hif_backend.Hif.Grammar.{
  Value, bare, enclosed, unary, binary, operand_text, Tree, text_of, prefix, infix_of, one_of,
  Language, Reads, atom, expression, before, between, ReadsAs, Reads-operand_text, ReadsAs-whole,
}
use hif_backend.Hif2vhdl.Expressions.{operator_text, visit_expression}

-- The operators of hif-core that VHDL has in front of an operand and between two.
abbrev pub is_prefix : Operator → Bool
is_prefix op = elim op [
  | op_not ↦ true
  | op_bnot ↦ true
  | op_plus ↦ true
  | op_minus ↦ true
  | op_abs ↦ true
  | _ ↦ false
]

abbrev pub is_infix : Operator → Bool
is_infix op = elim op [
  | op_or ↦ true
  | op_bor ↦ true
  | op_and ↦ true
  | op_band ↦ true
  | op_xor ↦ true
  | op_bxor ↦ true
  | op_eq ↦ true
  | op_neq ↦ true
  | op_case_eq ↦ true
  | op_case_neq ↦ true
  | op_le ↦ true
  | op_ge ↦ true
  | op_lt ↦ true
  | op_gt ↦ true
  | op_sll ↦ true
  | op_srl ↦ true
  | op_sra ↦ true
  | op_plus ↦ true
  | op_minus ↦ true
  | op_mult ↦ true
  | op_div ↦ true
  | op_mod ↦ true
  | op_pow ↦ true
  | op_concat ↦ true
  | op_rol ↦ true
  | op_ror ↦ true
  | op_rem ↦ true
  | op_sla ↦ true
  | _ ↦ false
]

abbrev pub prefixes : List Bytes
prefixes = codes "not" ∷ codes "+" ∷ codes "-" ∷ codes "abs" ∷ []

abbrev pub infixes : List Bytes
infixes =
    codes "and"
    ∷ codes "or"
    ∷ codes "xor"
    ∷ codes "="
    ∷ codes "/="
    ∷ codes "<"
    ∷ codes "<="
    ∷ codes ">"
    ∷ codes ">="
    ∷ codes "sll"
    ∷ codes "srl"
    ∷ codes "sla"
    ∷ codes "sra"
    ∷ codes "rol"
    ∷ codes "ror"
    ∷ codes "+"
    ∷ codes "-"
    ∷ codes "&"
    ∷ codes "*"
    ∷ codes "/"
    ∷ codes "mod"
    ∷ codes "rem"
    ∷ codes "**"
    ∷ []

-- How VHDL writes what an operator of hif-core means, whatever the printer writes.
unfoldable pub symbol_of : Operator → Bytes
symbol_of op = elim op [
  | op_or ↦ codes "or"
  | op_bor ↦ codes "or"
  | op_and ↦ codes "and"
  | op_band ↦ codes "and"
  | op_xor ↦ codes "xor"
  | op_bxor ↦ codes "xor"
  | op_not ↦ codes "not"
  | op_bnot ↦ codes "not"
  | op_eq ↦ codes "="
  | op_case_eq ↦ codes "="
  | op_neq ↦ codes "/="
  | op_case_neq ↦ codes "/="
  | op_le ↦ codes "<="
  | op_ge ↦ codes ">="
  | op_lt ↦ codes "<"
  | op_gt ↦ codes ">"
  | op_sll ↦ codes "sll"
  | op_srl ↦ codes "srl"
  | op_sla ↦ codes "sla"
  | op_sra ↦ codes "sra"
  | op_rol ↦ codes "rol"
  | op_ror ↦ codes "ror"
  | op_plus ↦ codes "+"
  | op_minus ↦ codes "-"
  | op_mult ↦ codes "*"
  | op_div ↦ codes "/"
  | op_mod ↦ codes "mod"
  | op_rem ↦ codes "rem"
  | op_pow ↦ codes "**"
  | op_abs ↦ codes "abs"
  | op_concat ↦ codes "&"
  | _ ↦ codes ""
]

-- The tree that a value stands for.
unfoldable pub tree : Value → Tree
tree (bare t) = text_of t
tree (enclosed t) = text_of t
tree (unary op v) = prefix (symbol_of op) (tree v)
tree (binary op v w) = infix_of (symbol_of op) (tree v) (tree w)

prefix-row :
    (op : Operator)
    → is_prefix op ≡ true
    → (operator_text op ≡ some (symbol_of op)) × (one_of prefixes (symbol_of op) ≡ true)
unfolding operator_text symbol_of
prefix-row op h = (ground arith, ground arith)

infix-row :
    (op : Operator)
    → is_infix op ≡ true
    → (operator_text op ≡ some (symbol_of op)) × (one_of infixes (symbol_of op) ≡ true)
unfolding operator_text symbol_of
infix-row op h = (ground arith, ground arith)

module _ (IsOperand IsText : Bytes → Type 0) where
  abbrev pub vhdl : Language
  vhdl = record {
    IsOperand = IsOperand;
    IsText = IsText;
    prefixes = prefixes;
    infixes = infixes;
    has_braces = false;
  }

  -- The operators are those of the language, in their places, and the other texts operands or
  -- expressions of it.
  unfoldable pub IsPlain : Value → Type 0
  IsPlain (bare t) = IsOperand t
  IsPlain (enclosed t) = IsText t
  IsPlain (unary op v) = (is_prefix op ≡ true) × IsPlain v
  IsPlain (binary op v w) = (is_infix op ≡ true) × IsPlain v × IsPlain w

  visit_expression-ReadsAs :
      (v : Value)
      → IsPlain v
      → (t : Bytes) × (visit_expression v ≡ some t) × ReadsAs vhdl v t (tree v)
  unfolding visit_expression tree IsPlain
  visit_expression-ReadsAs (bare t) h = (t, refl, atom h)
  visit_expression-ReadsAs (enclosed t) h = (t, refl, expression h)
  visit_expression-ReadsAs (unary op v) h =
      let (t, e, r) = visit_expression-ReadsAs v h.1 in
      let row = prefix-row op h.0 in
      (
        symbol_of op ++ codes " " ++ operand_text v t,
        rw (row.0, e) refl,
        before (symbol_of op) row.1 (Reads-operand_text vhdl v t (tree v) r),
      )
  visit_expression-ReadsAs (binary op v w) h =
      let (t, e, r) = visit_expression-ReadsAs v h.1 in
      let (u, f, q) = visit_expression-ReadsAs w h.2 in
      let row = infix-row op h.0 in
      (
        operand_text v t ++ codes " " ++ symbol_of op ++ codes " " ++ operand_text w u,
        rw (e, row.0, f) refl,
        between (symbol_of op) row.1 (Reads-operand_text vhdl v t (tree v) r)
            (Reads-operand_text vhdl w u (tree w) q),
      )

  -- A value whose operators are those of VHDL, in their places, and whose other texts are operands
  -- or expressions of VHDL is printed, and its text is an expression of VHDL of the tree that the
  -- value stands for, with the operators that VHDL has for its operators, whatever their
  -- precedences.
  pub visit_expression-vhdl :
      (v : Value)
      → IsPlain v
      → (t : Bytes) × (visit_expression v ≡ some t) × Reads vhdl false t (tree v)
  visit_expression-vhdl v h =
      let (t, e, r) = visit_expression-ReadsAs v h in (t, e, ReadsAs-whole vhdl v t (tree v) r)
