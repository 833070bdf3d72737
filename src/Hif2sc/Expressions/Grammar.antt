-- ===== src/Hif2sc/Expressions/Grammar.antt =====
-- The expressions of C++ that the visits of src/hif2sc/PrintSystemCVisitor.cpp write, by the levels
-- of the grammar of C++: from 0, of the comma, to 13, of names, calls and subscripts.
use hif_backend.Prelude.{
  ℕ, suc, ◌≤◌, ◌≡◌, Bool, true, false, ◌&&◌, ◌||◌, List, [], ◌∷◌, ◌++◌, Bytes, codes, bytes_eq,
  ◌==◌, if◌then◌else◌,
}

-- Trees of C++.
pub data Tree : Type 0 where
  name : Bytes → Tree
  prefix : Bytes → Tree → Tree
  infix_of : Bytes → Tree → Tree → Tree
  subscript : Tree → Tree → Tree
  static_cast_of : Bool → Bytes → Tree → Tree
  cast_of : Bytes → Tree → Tree
  conditional : Tree → Tree → Tree → Tree

-- A cast to a pointer or a reference is not checked.
abbrev pub cast_keyword : Bool → Bytes
cast_keyword is_address = if is_address then codes "reinterpret_cast< " else codes "static_cast< "

-- The texts among a list.
abbrev pub one_of : List Bytes → Bytes → Bool
one_of [] text = false
one_of (t ∷ ts) text = bytes_eq t text || one_of ts text

-- The operators of the levels from the comma to the multiplications, and those in front.
abbrev pub operators : ℕ → List Bytes
operators level =
    if level == 0
    then codes "," ∷ []
    else if level == 2
    then codes "||" ∷ []
    else if level == 3
    then codes "&&" ∷ []
    else if level == 4
    then codes "|" ∷ []
    else if level == 5
    then codes "^" ∷ []
    else if level == 6
    then codes "&" ∷ []
    else if level == 7
    then codes "==" ∷ codes "!=" ∷ []
    else if level == 8
    then codes "<" ∷ codes "<=" ∷ codes ">" ∷ codes ">=" ∷ []
    else if level == 9
    then codes "<<" ∷ codes ">>" ∷ []
    else if level == 10
    then codes "+" ∷ codes "-" ∷ []
    else if level == 11
    then codes "*" ∷ codes "/" ∷ codes "%" ∷ []
    else []

abbrev pub prefix_operators : List Bytes
prefix_operators = codes "!" ∷ codes "~" ∷ codes "+" ∷ codes "-" ∷ codes "&" ∷ codes "*" ∷ []

-- Whether C++ reads an operator and the first character behind it as one token: `++`, `--`, `&&`.
abbrev pub first_is : ℕ → Bytes → Bool
first_is c [] = false
first_is c (d ∷ text) = d == c

abbrev pub glued : Bytes → Bytes → Bool
glued [] text = false
glued (c ∷ symbol) text = (c == 43 || c == 45 || c == 38) && first_is c text

-- `IsName` are the texts that C++ reads as a name, a literal or a call.
module _ (IsName : Bytes → Type 0) where
  -- A text at a level, and the tree it is of.
  pub data Reads : ℕ → Bytes → Tree → Type 0 where
    atom : {t : Bytes} → IsName t → Reads 13 t (name t)
    parens : {t : Bytes} {c : Tree} → Reads 0 t c → Reads 13 (codes "(" ++ t ++ codes ")") c
    index :
        {t u : Bytes} {c d : Tree}
        → Reads 13 t c
        → Reads 0 u d
        → Reads 13 (t ++ codes "[" ++ u ++ codes "]") (subscript c d)
    new_cast :
        (is_address : Bool) (type : Bytes) {t : Bytes} {c : Tree}
        → Reads 0 t c
        → Reads 13
            (cast_keyword is_address ++ type ++ codes " >( " ++ t ++ codes " )")
            (static_cast_of is_address type c)
    old_cast :
        (type : Bytes) {t : Bytes} {c : Tree}
        → Reads 12 t c
        → Reads 12 (codes "( " ++ type ++ codes ") " ++ t) (cast_of type c)
    before :
        (symbol : Bytes) {t : Bytes} {c : Tree}
        → one_of prefix_operators symbol ≡ true
        → glued symbol t ≡ false
        → Reads 12 t c
        → Reads 12 (symbol ++ t) (prefix symbol c)
    between :
        (symbol : Bytes) {level : ℕ} {t u : Bytes} {c d : Tree}
        → one_of (operators level) symbol ≡ true
        → Reads level t c
        → Reads (suc level) u d
        → Reads level (t ++ codes " " ++ symbol ++ codes " " ++ u) (infix_of symbol c d)
    choose :
        {t u w : Bytes} {c d e : Tree}
        → Reads 2 t c
        → Reads 0 u d
        → Reads 1 w e
        → Reads 1 (t ++ codes " ? " ++ u ++ codes " : " ++ w) (conditional c d e)
    at_least : {n m : ℕ} {t : Bytes} {c : Tree} → n ≤ m → Reads m t c → Reads n t c
