-- ===== src/Support/Textio/Values.antt =====
-- src/hif2scSupport/hif_vhdl_std_textio.cpp: a value that is written is read again.
use hif_backend.Prelude.{
  ℕ, ◌-◌, ◌≡◌, refl, sym, ap, ◌∙◌, Bool, true, false, ◌&&◌, not, [], ◌∷◌, ◌++◌, Bytes, codes,
  length, is_empty, ◌==◌, if◌then◌else◌, arith, append-nil, All, ◌⊎◌, inl, inr,
}
use hif_backend.Support.LogicTextio.{is_blank}
use hif_backend.Support.Textio.{
  Side, hif_vhdl_right, hif_vhdl_left, drop, first_word, justify_print, separate, write_bit,
  write_vector, write_bool, write_char, read_bit, all_bits, read_vector, read_bool, read_char,
  readline, writeline, c_str,
}
use hif_backend.Support.Textio.Words.{is_word, blanks, first_word-blanks}

-- How many blanks a justification writes.
abbrev pad : Side → ℕ → ℕ
pad hif_vhdl_left n = n
pad hif_vhdl_right n = 0

justify_print_lem :
    (line : Bytes) (size field : ℕ) (side : Side)
    → justify_print line size field side ≡ line ++ blanks (pad side (field - size))
unfolding justify_print
justify_print_lem line size field hif_vhdl_left = refl
justify_print_lem line size field hif_vhdl_right = sym (append-nil line)

-- What is written to an empty line: the value between blanks.
written :
    (s : Bytes) (a b field : ℕ) (side : Side)
    → justify_print (justify_print (separate []) a field side ++ s) b field side
      ≡ (blanks (pad side (field - a)) ++ s) ++ blanks (pad side (field - b))
unfolding separate
written s a b field side =
    justify_print_lem (justify_print [] a field side ++ s) b field side
    ∙ ap (λ t. (t ++ s) ++ blanks (pad side (field - b))) (justify_print_lem [] a field side)

found :
    (s : Bytes) (a b field : ℕ) (side : Side)
    → is_empty s ≡ false
    → is_word s ≡ true
    → first_word (justify_print (justify_print (separate []) a field side ++ s) b field side) ≡ s
found s a b field side e h =
    ap first_word (written s a b field side)
    ∙ first_word-blanks (pad side (field - a)) (pad side (field - b)) s e h

all_bits-is_word : (s : Bytes) → all_bits s ≡ true → is_word s ≡ true
unfolding all_bits
all_bits-is_word [] h = refl
all_bits-is_word (c ∷ s) h = ground (arith, all_bits-is_word s)

bool_text :
    (b : Bool)
    → (is_empty (if b then codes "TRUE" else codes "FALSE") ≡ false)
      × (is_word (if b then codes "TRUE" else codes "FALSE") ≡ true)
bool_text true = (refl, refl)
bool_text false = (refl, refl)

bit_text :
    (b : Bool)
    → (is_empty (if b then codes "1" else codes "0") ≡ false)
      × (is_word (if b then codes "1" else codes "0") ≡ true)
bit_text true = (refl, refl)
bit_text false = (refl, refl)

-- The reads of a line with a given first word.
read_bool-word :
    (line : Bytes) (old b : Bool)
    → first_word line ≡ (if b then codes "TRUE" else codes "FALSE")
    → read_bool line old ≡ record { line = drop (if b then 4 else 5) line; value = b; good = true }
unfolding read_bool
read_bool-word line old true h = rw h refl
read_bool-word line old false h = rw h refl

read_bit-word :
    (line : Bytes) (old b : Bool)
    → first_word line ≡ (if b then codes "1" else codes "0")
    → read_bit line old ≡ record { line = drop 1 line; value = b; good = true }
unfolding read_bit
read_bit-word line old true h = rw h refl
read_bit-word line old false h = rw h refl

read_char-word :
    (line : Bytes) (old c : ℕ)
    → first_word line ≡ c ∷ []
    → read_char line old ≡ record { line = drop 1 line; value = c; good = true }
unfolding read_char
read_char-word line old c h = rw (read_char, h) refl

module _ {V : Type 0} (vector_of : Bytes → V) where
  read_vector-word :
      (line : Bytes) (old : V) (s : Bytes)
      → first_word line ≡ s
      → is_empty s ≡ false
      → all_bits s ≡ true
      → read_vector vector_of line old
        ≡ record { line = drop (length s) line; value = vector_of s; good = true }
  unfolding read_vector
  read_vector-word line old s h e bits = rw (h, e, bits) refl

  -- A truth value, a bit, a character that is no blank and a bit vector that is not empty, written
  -- to an empty line on either side of a field of any width, are read from that line again, if
  -- SystemC reads the text of a vector as that vector; each read drops as many characters from the
  -- line as the word has.
  pub read-write :
      (field : ℕ) (side : Side) (old b : Bool) (c d : ℕ) (v w : V) (text : Bytes)
      → is_blank c ≡ false
      → is_empty text ≡ false
      → all_bits text ≡ true
      → vector_of text ≡ v
      → let bool_line = write_bool [] b side field in
        let bit_line = write_bit [] b side field in
        let char_line = write_char [] c side field in
        let vector_line = write_vector [] text side field in
        (read_bool bool_line old
          ≡ record { line = drop (if b then 4 else 5) bool_line; value = b; good = true })
        × (read_bit bit_line old ≡ record { line = drop 1 bit_line; value = b; good = true })
        × (read_char char_line d ≡ record { line = drop 1 char_line; value = c; good = true })
        × (read_vector vector_of vector_line w
            ≡ record { line = drop (length text) vector_line; value = v; good = true })
  unfolding write_bool write_bit write_char write_vector
  read-write field side old b c d v w text char_seen some_bits bits reads = (
    read_bool-word _ old b (
        found (if b then codes "TRUE" else codes "FALSE") (if b then 4 else 5) 1 field side
          (bool_text b).0 (bool_text b).1),
    read_bit-word _ old b
        (found (if b then codes "1" else codes "0") 1 1 field side (bit_text b).0 (bit_text b).1),
    read_char-word _ d c (found (c ∷ []) 1 1 field side refl (ground (arith, char_seen))),
    read_vector-word _ w text
          (found text (length text) (length text) field side some_bits (all_bits-is_word text bits))
          some_bits bits
        ∙ ap
            (λ u. record {
              line = drop (length text) (write_vector [] text side field);
              value = u;
              good = true;
            })
            reads,
  )

-- A text on one line, and the text before the first NUL.
abbrev pub one_line : Bytes → Bool
one_line [] = true
one_line (c ∷ s) = not (c == b'\n') && one_line s

-- `t` is what stands before the first NUL of `s`, or all of `s`.
abbrev pub EndsAtNul : Bytes → Bytes → Type 0
EndsAtNul s t = (All (λ c. (c == 0) ≡ false) t) × ((s ≡ t) ⊎ ((rest : Bytes) × (s ≡ t ++ 0 ∷ rest)))

c_str-whole : (t : Bytes) → All (λ c. (c == 0) ≡ false) t → c_str t ≡ t
unfolding c_str
c_str-whole [] h = refl
c_str-whole (c ∷ t) (h, hs) = rw h (ap (λ u. c ∷ u) (c_str-whole t hs))

c_str-cut : (t rest : Bytes) → All (λ c. (c == 0) ≡ false) t → c_str (t ++ 0 ∷ rest) ≡ t
unfolding c_str
c_str-cut [] rest h = refl
c_str-cut (c ∷ t) rest (h, hs) = rw h (ap (λ u. c ∷ u) (c_str-cut t rest hs))

c_str_lem : (s t : Bytes) → EndsAtNul s t → c_str s ≡ t
c_str_lem s t (h, inl e) = ap c_str e ∙ c_str-whole t h
c_str_lem s t (h, inr (rest, e)) = ap c_str e ∙ c_str-cut t rest h

readline-one_line : (s : Bytes) → one_line s ≡ true → readline s ≡ (s, [])
unfolding readline
readline-one_line [] h = refl
readline-one_line (c ∷ s) h = ground (arith, h, readline-one_line s)

one_line-append : (s t : Bytes) → one_line s ≡ true → one_line t ≡ true → one_line (s ++ t) ≡ true
one_line-append [] t h g = g
one_line-append (c ∷ s) t h g = ground (arith, h, one_line-append s t)

-- Two lines whose texts before the first NUL hold no line feed, written to an empty file one after
-- the other, are read as one line of these two texts, with which the file is at its end.
pub readline-writeline :
    (line next s t : Bytes)
    → EndsAtNul line s
    → EndsAtNul next t
    → one_line s ≡ true
    → one_line t ≡ true
    → readline (writeline (writeline [] line).0 next).0 ≡ (s ++ t, [])
unfolding writeline
readline-writeline line next s t e f h g =
    rw (c_str_lem line s e, c_str_lem next t f)
      (readline-one_line (s ++ t) (one_line-append s t h g))
