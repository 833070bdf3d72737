-- ===== src/Hif/Grammar.antt =====
-- Expressions whose operands are names or stand in parentheses, as src/hif2verilog/VerilogPrinter.cpp
-- and src/hif2vhdl/VHDLPrinter.cpp write them, with the grammar that reads them in Verilog and VHDL.
use hif_backend.Prelude.{
  ◌≡◌, Bool, true, false, ◌||◌, List, [], ◌∷◌, ◌++◌, Bytes, codes, bytes_eq, if◌then◌else◌,
}
use hif_backend.Hif.{Operator}

-- A `bare` value is printed without parentheses as an operand: a constant, an identifier, a call, a
-- cast or a member; another value that is no expression is an `enclosed` one. Both have a text.
pub data Value : Type 0 where
  bare : Bytes → Value
  enclosed : Bytes → Value
  unary : Operator → Value → Value
  binary : Operator → Value → Value → Value

abbrev pub need_paren : Value → Bool
need_paren v = elim v [ bare t ↦ false | _ ↦ true ]

-- The text of a value as an operand.
abbrev pub operand_text : Value → Bytes → Bytes
operand_text v text = if need_paren v then codes "(" ++ text ++ codes ")" else text

pub data Tree : Type 0 where
  text_of : Bytes → Tree
  prefix : Bytes → Tree → Tree
  infix_of : Bytes → Tree → Tree → Tree
  concatenation : Tree → Tree → Tree

abbrev pub one_of : List Bytes → Bytes → Bool
one_of [] text = false
one_of (t ∷ ts) text = bytes_eq t text || one_of ts text

-- A language: the texts that are operands by themselves and those that are expressions, its
-- operators in front of one operand and between two, and whether braces concatenate.
pub record Language : Type 1 where
  pub IsOperand : Bytes → Type 0
  pub IsText : Bytes → Type 0
  pub prefixes : List Bytes
  pub infixes : List Bytes
  pub has_braces : Bool

-- A text as an operand or as an expression, and the tree it is of. An operator has operands only.
module _ (l : Language) where
  pub data Reads : Bool → Bytes → Tree → Type 0 where
    atom : {t : Bytes} → l.IsOperand t → Reads true t (text_of t)
    expression : {t : Bytes} → l.IsText t → Reads false t (text_of t)
    parens : {t : Bytes} {c : Tree} → Reads false t c → Reads true (codes "(" ++ t ++ codes ")") c
    whole : {t : Bytes} {c : Tree} → Reads true t c → Reads false t c
    braces :
        {t u : Bytes} {c d : Tree}
        → l.has_braces ≡ true
        → Reads false t c
        → Reads false u d
        → Reads false (codes "{" ++ t ++ codes ", " ++ u ++ codes "}") (concatenation c d)
    before :
        (symbol : Bytes) {t : Bytes} {c : Tree}
        → one_of l.prefixes symbol ≡ true
        → Reads true t c
        → Reads false (symbol ++ codes " " ++ t) (prefix symbol c)
    between :
        (symbol : Bytes) {t u : Bytes} {c d : Tree}
        → one_of l.infixes symbol ≡ true
        → Reads true t c
        → Reads true u d
        → Reads false (t ++ codes " " ++ symbol ++ codes " " ++ u) (infix_of symbol c d)

  -- What is asked of the text of a value for it to be an operand.
  abbrev pub ReadsAs : Value → Bytes → Tree → Type 0
  ReadsAs v t c = if need_paren v then Reads false t c else Reads true t c

  pub Reads-operand_text :
      (v : Value) (t : Bytes) (c : Tree) → ReadsAs v t c → Reads true (operand_text v t) c
  Reads-operand_text (bare s) t c r = r
  Reads-operand_text (enclosed s) t c r = parens r
  Reads-operand_text (unary op w) t c r = parens r
  Reads-operand_text (binary op w x) t c r = parens r

  pub ReadsAs-whole : (v : Value) (t : Bytes) (c : Tree) → ReadsAs v t c → Reads false t c
  ReadsAs-whole (bare s) t c r = whole r
  ReadsAs-whole (enclosed s) t c r = r
  ReadsAs-whole (unary op w) t c r = r
  ReadsAs-whole (binary op w x) t c r = r
