-- ===== src/Support/LogicTextio.antt =====
-- src/hif2scSupport/hif_vhdl_ieee_std_logic_textio.cpp and, for the reading of a word,
-- src/hif2scSupport/hif_vhdl_std_textio.cpp: hexadecimal and octal input. A line is its bytes; a
-- result is the value and `good`, and none of the functions here changes the line.
pub mod Tables
pub mod Lines
pub mod Digits
use hif_backend.Prelude.{
  ℕ, ◌≡◌, Bool, true, false, ◌||◌, not, List, [], ◌∷◌, ◌++◌, Option, none, some, Bytes, codes, ◌==◌,
  if◌then◌else◌, is_empty, ◌&&◌,
}
use hif_backend.Support.Readmem.{extract}

abbrev pub is_blank : ℕ → Bool
is_blank c = c == b' ' || c == b'\t'

unfoldable pub trim_left : Bytes → Bytes
trim_left [] = []
trim_left (c ∷ s) = if is_blank c then trim_left s else c ∷ s

unfoldable pub trim_right : Bytes → Bytes
trim_right [] = []
trim_right (c ∷ s) = let rest = trim_right s in if is_blank c && is_empty rest then [] else c ∷ rest

-- `trim`.
unfoldable pub trim : Bytes → Bytes
trim s = trim_right (trim_left s)

-- The text before the first blank, `s.substr(0, s.find_first_of(" \t"))`.
unfoldable pub before_blank : Bytes → Bytes
before_blank [] = []
before_blank (c ∷ s) = if is_blank c then [] else c ∷ before_blank s

-- `hif_vhdl_read` of a text; `ss >> value` leaves the old value where it finds no word.
unfoldable pub read_text : Bytes → Bytes → Bytes × Bool
read_text line value =
    let s = before_blank (trim line) in
    ((extract (record { rest = s; good = true }) value).0, not (is_empty s))

-- A `switch` on a character: the first entry with its code.
abbrev pub lookup : ℕ → List (ℕ × Bytes) → Option Bytes
lookup c [] = none
lookup c ((d, bits) ∷ table) = if c == d then some bits else lookup c table

abbrev pub quad_table : List (ℕ × Bytes)
quad_table =
    (b'0', codes "0000")
    ∷ (b'1', codes "0001")
    ∷ (b'2', codes "0010")
    ∷ (b'3', codes "0011")
    ∷ (b'4', codes "0100")
    ∷ (b'5', codes "0101")
    ∷ (b'6', codes "0110")
    ∷ (b'7', codes "0111")
    ∷ (b'8', codes "1000")
    ∷ (b'9', codes "1001")
    ∷ (b'A', codes "1010")
    ∷ (b'a', codes "1010")
    ∷ (b'B', codes "1011")
    ∷ (b'b', codes "1011")
    ∷ (b'C', codes "1100")
    ∷ (b'c', codes "1100")
    ∷ (b'D', codes "1101")
    ∷ (b'd', codes "1101")
    ∷ (b'E', codes "1110")
    ∷ (b'e', codes "1110")
    ∷ (b'F', codes "1111")
    ∷ (b'f', codes "1111")
    ∷ []

-- `char2QuadBits`; `none` is `good = false`, with the message of the assertion.
unfoldable pub char_to_quad_bits : ℕ → Option Bytes
char_to_quad_bits c = lookup c quad_table

abbrev pub tri_table : List (ℕ × Bytes)
tri_table =
    (b'0', codes "000")
    ∷ (b'1', codes "001")
    ∷ (b'2', codes "010")
    ∷ (b'3', codes "011")
    ∷ (b'4', codes "100")
    ∷ (b'5', codes "101")
    ∷ (b'6', codes "110")
    ∷ (b'7', codes "111")
    ∷ []

-- `char2TriBits`.
unfoldable pub char_to_tri_bits : ℕ → Option Bytes
char_to_tri_bits c = lookup c tri_table

-- The loop of `string2QuadBits` and `string2TriBits`, which ends at the first bad character.
unfoldable pub bits_of : (ℕ → Option Bytes) → Bytes → Bool → Bytes × Bool
bits_of char_bits [] good = ([], good)
bits_of char_bits (c ∷ s) good =
    let rest = bits_of char_bits s true in
    elim (char_bits c) [ none ↦ ([], false) | some bits ↦ (bits ++ rest.0, rest.1) ]

unfoldable pub string_to_quad_bits : Bytes → Bool → Bytes × Bool
string_to_quad_bits = bits_of char_to_quad_bits

unfoldable pub string_to_tri_bits : Bytes → Bool → Bytes × Bool
string_to_tri_bits = bits_of char_to_tri_bits

-- The vector that SystemC makes of a text of bits is a parameter.
module _ {V : Type 0} (vector_of : Bytes → V) where
  unfoldable pub read_vector : (Bytes → Bool → Bytes × Bool) → Bytes → V → V × Bool
  read_vector to_bits line value =
      let (s, good) = read_text line [] in
      if not good
      then (value, false)
      else let (bits, fine) = to_bits s good in
        if not fine then (value, false) else (vector_of bits, true)

  -- `hif_vhdl_hread` of a logic vector.
  unfoldable pub hread : Bytes → V → V × Bool
  hread = read_vector string_to_quad_bits

  -- `hif_vhdl_oread` of a logic vector.
  unfoldable pub oread : Bytes → V → V × Bool
  oread = read_vector string_to_tri_bits
