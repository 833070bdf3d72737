-- ===== src/Hif2verilog/Literals.antt =====
-- src/hif2verilog/VerilogPrinter.cpp: how a bit and a bit vector are spelled in Verilog, and which
-- spellings count as unknown. Values and types are hif-core's, cut down to what the printer asks of
-- them; a text is its bytes.
pub mod Spelling
use hif_backend.Prelude.{
  ℕ, zero, suc, ◌+◌, ◌-◌, ◌≡◌, refl, Bool, true, false, ◌&&◌, ◌||◌, not, List, [], ◌∷◌, ◌++◌, map,
  Option, none, some, Bytes, codes, decimal, ltb, leb, ◌==◌, if◌then◌else◌, is_empty,
}
use hif_backend.Prelude.Int.{ℤ, pos, negsuc, ◌+ℤ◌, ◌-ℤ◌}

-- `std::tolower` in the C locale.
abbrev pub tolower : ℕ → ℕ
tolower c = if leb b'A' c && leb c b'Z' then c + 32 else c

-- What a stream prints of an integer.
unfoldable pub show : ℤ → Bytes
show (pos n) = decimal n
show (negsuc n) = b'-' ∷ decimal (suc n)

abbrev pub is_binary_digit : ℕ → Bool
is_binary_digit c =
    let lowered = tolower c in
    lowered == b'0' || lowered == b'1' || lowered == b'x' || lowered == b'z'

-- `isVerilogBinaryLiteral`.
unfoldable pub is_verilog_binary_literal : Bytes → Bool
is_verilog_binary_literal [] = true
is_verilog_binary_literal (c ∷ s) = (c == b'_' || is_binary_digit c) && is_verilog_binary_literal s

-- The type of a bit vector value, as far as it is one: its sign, and the bounds of its span that
-- are integer literals.
pub record Span : Type 0 where
  pub left_bound : Option ℤ
  pub right_bound : Option ℤ

pub record BitvectorType : Type 0 where
  pub is_signed : Bool
  pub span : Option Span

abbrev is_pos : ℤ → ℕ → Bool
is_pos (pos n) k = n == k
is_pos (negsuc n) k = false

-- `is_integer`: a signed vector with the bounds 31 and 0.
unfoldable pub is_integer : BitvectorType → Bool
is_integer t = t.is_signed && elim t.span [
  | none ↦ false
  | some s ↦ elim s.left_bound [
    | none ↦ false
    | some l ↦ elim s.right_bound [ none ↦ false | some r ↦ is_pos l 31 && is_pos r 0 ]
  ]
]

-- The size and the base of a literal, `<width>'b`, where both bounds are known.
unfoldable pub size_prefix : Option Span → Bytes
size_prefix none = []
size_prefix (some s) = elim s.left_bound [
  | none ↦ []
  | some l ↦ elim s.right_bound [ none ↦ [] | some r ↦ show (l -ℤ r +ℤ pos 1) ++ codes "'b" ]
]

-- The branch of `getValue` for a one-bit value, given its spelling in HIF.
unfoldable pub get_bit_value : Bytes → Bytes
get_bit_value [] = []
get_bit_value (c ∷ []) =
    if is_verilog_binary_literal (c ∷ []) then codes "1'b" ++ tolower c ∷ [] else []
get_bit_value (c ∷ d ∷ s) = []

pub record BitvectorValue : Type 0 where
  pub is01 : Bool
  pub digits : Bytes  -- getValue()
  pub as_signed : ℤ  -- getValueAsSigned()
  pub type : Option BitvectorType  -- none: the type is no bit vector

-- The branch of `getValue` for a bit vector.
unfoldable pub get_vector_value : BitvectorValue → Bytes
get_vector_value v = elim v.type [
  | none ↦ []
  | some t ↦
      if v.is01
      then (if is_integer t then show v.as_signed else size_prefix t.span ++ v.digits)
      else if is_verilog_binary_literal v.digits
      then size_prefix t.span ++ map tolower v.digits
      else []
]

abbrev pub is_unknown_digit : ℕ → Bool
is_unknown_digit c = c == b'x' || c == b'X' || c == b'z' || c == b'Z'

abbrev pub tail : Bytes → Bytes
tail [] = []
tail (d ∷ r) = r

-- What stands two bytes behind the first quote, if there is one.
unfoldable pub after_base : Bytes → Option Bytes
after_base [] = none
after_base (c ∷ s) = if c == b'\'' then some (tail s) else after_base s

-- The loop of `isUnknownLiteral` over the digits.
unfoldable pub unknown_from : Bytes → Bool → Bool
unknown_from [] saw_digit = saw_digit
unknown_from (c ∷ s) saw_digit =
    if c == b'_'
    then unknown_from s saw_digit
    else (if is_unknown_digit c then unknown_from s true else false)

-- `isUnknownLiteral`.
unfoldable pub is_unknown_literal : Bytes → Bool
is_unknown_literal literal = elim (after_base literal) [
  | none ↦ unknown_from literal false
  | some digits ↦ unknown_from digits false
]
