-- ===== src/Support/Textio.antt =====
-- src/hif2scSupport/hif_vhdl_std_textio.cpp: reading and writing bits, bit vectors, truth values and
-- characters, a value at a time, and whole lines. A line is its bytes; a file is the bytes still to
-- be read, or those written; a result is the line left, the value and `good`.
pub mod Words
pub mod Values
use hif_backend.Prelude.{
  ℕ, zero, suc, ◌-◌, Bool, true, false, ◌&&◌, ◌||◌, not, [], ◌∷◌, ◌++◌, Bytes, codes, bytes_eq,
  length, replicate, is_empty, ◌==◌, if◌then◌else◌,
}
use hif_backend.Support.LogicTextio.{trim, before_blank}

pub data Side : Type 0 where
  hif_vhdl_right hif_vhdl_left : Side

-- `l->substr(n)`.
abbrev pub drop : ℕ → Bytes → Bytes
drop zero s = s
drop (suc n) [] = []
drop (suc n) (c ∷ s) = drop n s

pub record Reading (A : Type 0) : Type 0 where
  pub line : Bytes
  pub value : A
  pub good : Bool

-- The word that each read starts with.
unfoldable pub first_word : Bytes → Bytes
first_word line = before_blank (trim line)

unfoldable pub justify_print : Bytes → ℕ → ℕ → Side → Bytes
justify_print line size field hif_vhdl_left = line ++ replicate (field - size) b' '
justify_print line size field hif_vhdl_right = line

-- The blank between the values of a line.
unfoldable pub separate : Bytes → Bytes
separate line = if not (is_empty line) then line ++ b' ' ∷ [] else line

unfoldable pub write_bit : Bytes → Bool → Side → ℕ → Bytes
write_bit line value side field =
    let before = justify_print (separate line) 1 field side in
    justify_print (before ++ (if value then codes "1" else codes "0")) 1 field side

unfoldable pub write_vector : Bytes → Bytes → Side → ℕ → Bytes
write_vector line text side field =
    let before = justify_print (separate line) (length text) field side in
    justify_print (before ++ text) (length text) field side

unfoldable pub write_bool : Bytes → Bool → Side → ℕ → Bytes
write_bool line value side field =
    let before = justify_print (separate line) (if value then 4 else 5) field side in
    justify_print (before ++ (if value then codes "TRUE" else codes "FALSE")) 1 field side

unfoldable pub write_char : Bytes → ℕ → Side → ℕ → Bytes
write_char line value side field =
    let before = justify_print (separate line) 1 field side in
    justify_print (before ++ value ∷ []) 1 field side

unfoldable pub read_bit : Bytes → Bool → Reading Bool
read_bit line value =
    let s = first_word line in
    if not (length s == 1) && not (bytes_eq s (codes "1")) && not (bytes_eq s (codes "0"))
    then record { line = line; value = value; good = false }
    else record { line = drop 1 line; value = bytes_eq s (codes "1"); good = true }

-- Every character is 0 or 1: `find_first_not_of("01")` finds none.
unfoldable pub all_bits : Bytes → Bool
all_bits [] = true
all_bits (c ∷ s) = (c == b'0' || c == b'1') && all_bits s

-- The assignment of a text to a bit vector of SystemC is a parameter.
module _ {V : Type 0} (vector_of : Bytes → V) where
  unfoldable pub read_vector : Bytes → V → Reading V
  read_vector line value =
      let s = first_word line in
      if is_empty s || not (all_bits s)
      then record { line = line; value = value; good = false }
      else record { line = drop (length s) line; value = vector_of s; good = true }

unfoldable pub read_bool : Bytes → Bool → Reading Bool
read_bool line value =
    let s = first_word line in
    if not (bytes_eq s (codes "TRUE")) && not (bytes_eq s (codes "FALSE"))
    then record { line = line; value = value; good = false }
    else record { line = drop (length s) line; value = bytes_eq s (codes "TRUE"); good = true }

-- The only character of the word.
unfoldable pub read_char : Bytes → ℕ → Reading ℕ
read_char line value = elim (first_word line) [
  | [] ↦ record { line = line; value = value; good = false }
  | c ∷ s ↦
      if is_empty s
      then record { line = drop 1 line; value = c; good = true }
      else record { line = line; value = value; good = false }
]

-- The characters up to the end of the line, and what is left of the file.
unfoldable pub readline : Bytes → Bytes × Bytes
readline [] = ([], [])
readline (c ∷ file) =
    let rest = readline file in if c == b'\n' then ([], file) else (c ∷ rest.0, rest.1)

-- What `%s` prints of `l->c_str()`: the characters before the first NUL.
unfoldable pub c_str : Bytes → Bytes
c_str [] = []
c_str (c ∷ s) = let rest = c_str s in if c == 0 then [] else c ∷ rest

-- What a file holds once the line is written to it; the line is empty then.
unfoldable pub writeline : Bytes → Bytes → Bytes × Bytes
writeline file line = (file ++ c_str line, [])
