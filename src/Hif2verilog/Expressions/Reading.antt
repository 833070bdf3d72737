-- ===== src/Hif2verilog/Expressions/Reading.antt =====
-- src/hif2verilog/VerilogPrinter.cpp: the texts of expressions, read by the grammar of Verilog.
use hif_backend.Prelude.{
  ◌≡◌, refl, Bool, true, false, List, [], ◌∷◌, ◌++◌, some, Bytes, codes, if◌then◌else◌, arith,
  Bool-cases, inl, inr,
}
use hif_backend.Hif.{
  Operator, op_or, op_bor, op_and, op_band, op_xor, op_bxor, op_not, op_bnot, op_eq, op_neq,
  op_case_eq, op_case_neq, op_le, op_ge, op_lt, op_gt, op_sll, op_srl, op_sra, op_plus, op_minus,
  op_mult, op_div, op_mod, op_pow, op_concat, op_andrd, op_orrd, op_xorrd,
}
use hif_backend.Hif.Grammar.{
  Value, bare, enclosed, unary, binary, operand_text, Tree, text_of, prefix, infix_of,
  concatenation, one_of, Language, Reads, atom, expression, braces, before, between, ReadsAs,
  Reads-operand_text, ReadsAs-whole,
}
use hif_backend.Hif2verilog.Expressions.{operator_text, visit_expression, infix_text, is_concat}

-- The operators of hif-core that Verilog has in front of an operand and between two.
abbrev pub is_prefix : Operator → Bool
is_prefix op = elim op [
  | op_not ↦ true
  | op_bnot ↦ true
  | op_plus ↦ true
  | op_minus ↦ true
  | op_andrd ↦ true
  | op_orrd ↦ true
  | op_xorrd ↦ true
  | _ ↦ false
]

abbrev pub is_infix : Operator → Bool
is_infix op = elim op [
  | op_or ↦ true
  | op_bor ↦ true
  | op_and ↦ true
  | op_band ↦ true
  | op_xor ↦ true
  | op_bxor ↦ true
  | op_eq ↦ true
  | op_neq ↦ true
  | op_case_eq ↦ true
  | op_case_neq ↦ true
  | op_le ↦ true
  | op_ge ↦ true
  | op_lt ↦ true
  | op_gt ↦ true
  | op_sll ↦ true
  | op_srl ↦ true
  | op_sra ↦ true
  | op_plus ↦ true
  | op_minus ↦ true
  | op_mult ↦ true
  | op_div ↦ true
  | op_mod ↦ true
  | op_pow ↦ true
  | op_concat ↦ true
  | _ ↦ false
]

abbrev pub prefixes : List Bytes
prefixes = codes "!" ∷ codes "~" ∷ codes "+" ∷ codes "-" ∷ codes "&" ∷ codes "|" ∷ codes "^" ∷ []

abbrev pub infixes : List Bytes
infixes =
    codes "||"
    ∷ codes "&&"
    ∷ codes "|"
    ∷ codes "^"
    ∷ codes "&"
    ∷ codes "=="
    ∷ codes "!="
    ∷ codes "==="
    ∷ codes "!=="
    ∷ codes "<"
    ∷ codes "<="
    ∷ codes ">"
    ∷ codes ">="
    ∷ codes "<<"
    ∷ codes ">>"
    ∷ codes ">>>"
    ∷ codes "+"
    ∷ codes "-"
    ∷ codes "*"
    ∷ codes "/"
    ∷ codes "%"
    ∷ codes "**"
    ∷ []

-- How Verilog writes what an operator of hif-core means, whatever the printer writes.
unfoldable pub symbol_of : Operator → Bytes
symbol_of op = elim op [
  | op_or ↦ codes "||"
  | op_bor ↦ codes "|"
  | op_and ↦ codes "&&"
  | op_band ↦ codes "&"
  | op_xor ↦ codes "^"
  | op_bxor ↦ codes "^"
  | op_not ↦ codes "!"
  | op_bnot ↦ codes "~"
  | op_eq ↦ codes "=="
  | op_neq ↦ codes "!="
  | op_le ↦ codes "<="
  | op_ge ↦ codes ">="
  | op_lt ↦ codes "<"
  | op_gt ↦ codes ">"
  | op_sll ↦ codes "<<"
  | op_srl ↦ codes ">>"
  | op_plus ↦ codes "+"
  | op_minus ↦ codes "-"
  | op_mult ↦ codes "*"
  | op_div ↦ codes "/"
  | op_mod ↦ codes "%"
  | op_case_eq ↦ codes "==="
  | op_case_neq ↦ codes "!=="
  | op_sra ↦ codes ">>>"
  | op_pow ↦ codes "**"
  | op_andrd ↦ codes "&"
  | op_orrd ↦ codes "|"
  | op_xorrd ↦ codes "^"
  | _ ↦ codes ""
]

-- The tree that a value stands for.
unfoldable pub tree : Value → Tree
tree (bare t) = text_of t
tree (enclosed t) = text_of t
tree (unary op v) = prefix (symbol_of op) (tree v)
tree (binary op v w) =
    if is_concat op
    then concatenation (tree v) (tree w)
    else infix_of (symbol_of op) (tree v) (tree w)

prefix-row :
    (op : Operator)
    → is_prefix op ≡ true
    → (operator_text op ≡ some (symbol_of op)) × (one_of prefixes (symbol_of op) ≡ true)
unfolding operator_text symbol_of
prefix-row op h = (ground arith, ground arith)

infix-row :
    (op : Operator)
    → is_infix op ≡ true
    → is_concat op ≡ false
    → (operator_text op ≡ some (symbol_of op)) × (one_of infixes (symbol_of op) ≡ true)
unfolding operator_text symbol_of
infix-row op h n = (ground arith, ground arith)

module _ (IsOperand IsText : Bytes → Type 0) where
  abbrev pub verilog : Language
  verilog = record {
    IsOperand = IsOperand;
    IsText = IsText;
    prefixes = prefixes;
    infixes = infixes;
    has_braces = true;
  }

  -- The operators are those of the language, in their places, and the other texts operands or
  -- expressions of it.
  unfoldable pub IsPlain : Value → Type 0
  IsPlain (bare t) = IsOperand t
  IsPlain (enclosed t) = IsText t
  IsPlain (unary op v) = (is_prefix op ≡ true) × IsPlain v
  IsPlain (binary op v w) = (is_infix op ≡ true) × IsPlain v × IsPlain w

  visit_expression-ReadsAs :
      (v : Value)
      → IsPlain v
      → (t : Bytes) × (visit_expression v ≡ some t) × ReadsAs verilog v t (tree v)
  unfolding visit_expression tree IsPlain infix_text
  visit_expression-ReadsAs (bare t) h = (t, refl, atom h)
  visit_expression-ReadsAs (enclosed t) h = (t, refl, expression h)
  visit_expression-ReadsAs (unary op v) h =
      let (t, e, r) = visit_expression-ReadsAs v h.1 in
      let row = prefix-row op h.0 in
      (
        symbol_of op ++ codes " " ++ operand_text v t,
        rw (row.0, e) refl,
        before (symbol_of op) row.1 (Reads-operand_text verilog v t (tree v) r),
      )
  visit_expression-ReadsAs (binary op v w) h =
      let (t, e, r) = visit_expression-ReadsAs v h.1 in
      let (u, f, q) = visit_expression-ReadsAs w h.2 in
      elim (Bool-cases (is_concat op)) [
        | inl c ↦ (
          codes "{" ++ t ++ codes ", " ++ u ++ codes "}",
          rw (e, f, c) refl,
          rw c (
              braces refl (ReadsAs-whole verilog v t (tree v) r)
                (ReadsAs-whole verilog w u (tree w) q)),
        )
        | inr n ↦
            let row = infix-row op h.0 n in
            (
              operand_text v t ++ codes " " ++ symbol_of op ++ codes " " ++ operand_text w u,
              rw (e, f, n, row.0) refl,
              rw n (
                  between (symbol_of op) row.1 (Reads-operand_text verilog v t (tree v) r)
                    (Reads-operand_text verilog w u (tree w) q)),
            )
      ]

  -- A value whose operators are those of Verilog, in their places, and whose other texts are
  -- operands or expressions of Verilog is printed, and its text is an expression of Verilog of the
  -- tree that the value stands for, with the operators that Verilog has for its operators, whatever
  -- their precedences.
  pub visit_expression-verilog :
      (v : Value)
      → IsPlain v
      → (t : Bytes) × (visit_expression v ≡ some t) × Reads verilog false t (tree v)
  visit_expression-verilog v h =
      let (t, e, r) = visit_expression-ReadsAs v h in (t, e, ReadsAs-whole verilog v t (tree v) r)
