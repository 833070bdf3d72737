-- ===== src/Support/LogicTextio/Digits.antt =====
-- src/hif2scSupport/hif_vhdl_ieee_std_logic_textio.cpp: the number that a line of digits stands for
-- and the bits read from it.
use hif_backend.Prelude.{
  ℕ, ◌+◌, ◌*◌, ◌^◌, ◌≡◌, refl, sym, ap, ◌∙◌, Bool, true, false, [], ◌∷◌, ◌++◌, Option, none, some,
  Bytes, arith, Option-cases, ◌⊎◌, inl, inr, length, length-append,
}
use hif_backend.Support.LogicTextio.{
  lookup, quad_table, tri_table, char_to_quad_bits, char_to_tri_bits, bits_of, string_to_quad_bits,
  string_to_tri_bits, read_vector, hread, oread,
}
use hif_backend.Support.LogicTextio.Lines.{
  IsPlain, IsFirstWord, IsBlank, IsFirstWord-cases, read_text-word, read_text-blank,
}
use hif_backend.Support.LogicTextio.Tables.{
  number_from, binary_from, IsRow, quad_table-IsRow, tri_table-IsRow, lookup_lem, lookup-absent,
  next_number, quad_absent, tri_absent, long_suc, next_some,
}

-- A character either is a digit of the base and has the bits of a row, or is none and has no bits.
abbrev Reads : ℕ → ℕ → (ℕ → Option Bytes) → Type 0
Reads w base char_bits =
    (c : ℕ)
    → ((bits : Bytes) × (char_bits c ≡ some bits) × IsRow w base (c, bits))
      ⊎ ((char_bits c ≡ none) × ((n : ℕ) (s : Bytes) → number_from base n (c ∷ s) ≡ none))

bits_of-number :
    (w base : ℕ) (char_bits : ℕ → Option Bytes)
    → Reads w base char_bits
    → (s : Bytes) (n : ℕ)
    → ((bits : Bytes) × (bits_of char_bits s true ≡ (bits, true))
        × (number_from base n s ≡ some (binary_from n bits))
        × (length bits ≡ w * length s))
      ⊎ (((bits_of char_bits s true).1 ≡ false) × (number_from base n s ≡ none))
unfolding bits_of
bits_of-number w base char_bits reads [] n = inl ([], refl, refl, omega arith)
bits_of-number w base char_bits reads (c ∷ s) n = elim (reads c) [
  | inl (bits, e, (d, digits, below, wide, appends)) ↦
      elim (bits_of-number w base char_bits reads s (n * base + d)) [
        | inl (rest, f, number, long) ↦ inl (
          bits ++ rest,
          rw (bits_of, e, f) refl,
          ap (next_number base n s) digits
              ∙ next_some base n d s below
              ∙ number
              ∙ ap (λ m. some m) (sym (appends n rest)),
          length-append bits rest
              ∙ ap (λ m. m + length rest) wide
              ∙ long_suc w (length s) (length rest) long,
        )
        | inr (bad, none_of) ↦ inr (
          rw (bits_of, e) bad,
          ap (next_number base n s) digits ∙ next_some base n d s below ∙ none_of,
        )
      ]
  | inr (e, none_of) ↦ inr (rw (bits_of, e) refl, none_of n s)
]

quad-Reads : Reads 4 16 char_to_quad_bits
unfolding char_to_quad_bits
quad-Reads c = elim (Option-cases (lookup c quad_table)) [
  | inl e ↦
      inr (e, λ n s. ap (λ d. next_number 16 n s d) (quad_absent c (lookup-absent c quad_table e)))
  | inr (bits, e) ↦ inl (bits, e, lookup_lem 4 16 c bits quad_table quad_table-IsRow e)
]

tri-Reads : Reads 3 8 char_to_tri_bits
unfolding char_to_tri_bits
tri-Reads c = elim (Option-cases (lookup c tri_table)) [
  | inl e ↦ inr (e, λ n s. tri_absent c n s (lookup-absent c tri_table e))
  | inr (bits, e) ↦ inl (bits, e, lookup_lem 3 8 c bits tri_table tri_table-IsRow e)
]

-- What a read of a vector makes of a line: its bits stand for the number of the first word, w bits
-- for each digit, or the value is left and the read is not good, there being no word or no number.
abbrev pub IsRead : {V : Type 0} → ℕ → (Bytes → V) → Bytes → V → V × Bool → Type 0
IsRead w vector_of line value result =
    ((word : Bytes) × (bits : Bytes) × IsFirstWord line word
      × (result ≡ (vector_of bits, true))
      × (number_from (2 ^ w) 0 word ≡ some (binary_from 0 bits))
      × (length bits ≡ w * length word))
    ⊎ ((result ≡ (value, false))
        × (IsBlank line
            ⊎ ((word : Bytes) × IsFirstWord line word × (number_from (2 ^ w) 0 word ≡ none))))

read_vector-IsRead :
    {V : Type 0} (vector_of : Bytes → V) (w : ℕ) (char_bits : ℕ → Option Bytes)
    → Reads w (2 ^ w) char_bits
    → (line : Bytes) (value : V) → IsPlain line
    → IsRead w vector_of line value (read_vector vector_of (bits_of char_bits) line value)
unfolding read_vector
read_vector-IsRead vector_of w char_bits reads line value plain = elim (IsFirstWord-cases line) [
  | inl blanks ↦ inr (rw (read_text-blank line blanks) refl, inl blanks)
  | inr (word, is) ↦
      let e = read_text-word line word plain is in
      elim (bits_of-number w (2 ^ w) char_bits reads word 0) [
        | inl (bits, f, number, long) ↦ inl (word, bits, is, rw (e, f) refl, number, long)
        | inr (bad, none_of) ↦ inr (rw (e, bad) refl, inr (word, is, none_of))
      ]
]

-- On a line without line feeds, vertical tabs, form feeds and carriage returns hif_vhdl_hread either
-- reads the vector of bits that stand for the hexadecimal number of the first word, four for each
-- digit, or leaves the value and is not good, exactly as the line has blanks and tabs only or the
-- word is no such number.
pub hread-IsRead :
    {V : Type 0} (vector_of : Bytes → V) (line : Bytes) (value : V)
    → IsPlain line
    → IsRead 4 vector_of line value (hread vector_of line value)
unfolding hread string_to_quad_bits
hread-IsRead vector_of line value plain =
    read_vector-IsRead vector_of 4 char_to_quad_bits quad-Reads line value plain

-- On a line without line feeds, vertical tabs, form feeds and carriage returns hif_vhdl_oread either
-- reads the vector of bits that stand for the octal number of the first word, three for each digit,
-- or leaves the value and is not good, exactly as the line has blanks and tabs only or the word is
-- no such number.
pub oread-IsRead :
    {V : Type 0} (vector_of : Bytes → V) (line : Bytes) (value : V)
    → IsPlain line
    → IsRead 3 vector_of line value (oread vector_of line value)
unfolding oread string_to_tri_bits
oread-IsRead vector_of line value plain =
    read_vector-IsRead vector_of 3 char_to_tri_bits tri-Reads line value plain
