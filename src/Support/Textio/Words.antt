-- ===== src/Support/Textio/Words.antt =====
-- src/hif2scSupport/hif_vhdl_std_textio.cpp: the word that is found between the blanks of a line.
use hif_backend.Prelude.{
  ℕ, zero, suc, ◌≡◌, refl, ap, ◌∙◌, Bool, true, false, ◌&&◌, not, [], ◌∷◌, ◌++◌, Bytes, replicate,
  is_empty, arith, append_assoc,
}
use hif_backend.Support.LogicTextio.{is_blank, trim_left, trim_right, trim, before_blank}
use hif_backend.Support.Textio.{first_word}

-- A text without blanks.
abbrev pub is_word : Bytes → Bool
is_word [] = true
is_word (c ∷ s) = not (is_blank c) && is_word s

abbrev pub blanks : ℕ → Bytes
blanks n = replicate n b' '

is_word-head : (c : ℕ) (s : Bytes) → is_word (c ∷ s) ≡ true → is_blank c ≡ false
is_word-head c s h = ground arith

is_word-tail : (c : ℕ) (s : Bytes) → is_word (c ∷ s) ≡ true → is_word s ≡ true
is_word-tail c s h = ground arith

trim_left-blanks :
    (n c : ℕ) (s : Bytes) → is_blank c ≡ false → trim_left (blanks n ++ c ∷ s) ≡ c ∷ s
unfolding trim_left
trim_left-blanks zero c s h = ground (arith, h)
trim_left-blanks (suc n) c s h = trim_left-blanks n c s h

trim_right-blanks : (n : ℕ) → trim_right (blanks n) ≡ []
unfolding trim_right
trim_right-blanks zero = refl
trim_right-blanks (suc n) = rw (trim_right-blanks n) refl

trim_right-word : (s : Bytes) (n : ℕ) → is_word s ≡ true → trim_right (s ++ blanks n) ≡ s
unfolding trim_right
trim_right-word [] n h = trim_right-blanks n
trim_right-word (c ∷ s) n h = rw (trim_right-word s n (is_word-tail c s h)) (ground (arith, h))

before_blank-word : (s : Bytes) → is_word s ≡ true → before_blank s ≡ s
unfolding before_blank
before_blank-word [] h = refl
before_blank-word (c ∷ s) h = rw (before_blank-word s (is_word-tail c s h)) (ground (arith, h))

pub first_word-blanks :
    (m n : ℕ) (s : Bytes)
    → is_empty s ≡ false
    → is_word s ≡ true
    → first_word ((blanks m ++ s) ++ blanks n) ≡ s
unfolding first_word trim
first_word-blanks m n [] e h = cc
first_word-blanks m n (c ∷ s) e h =
    ap (λ t. before_blank (trim_right (trim_left t))) (append_assoc (blanks m) (c ∷ s) (blanks n))
    ∙ ap (λ t. before_blank (trim_right t))
        (trim_left-blanks m c (s ++ blanks n) (is_word-head c s h))
    ∙ ap before_blank (trim_right-word (c ∷ s) n h)
    ∙ before_blank-word (c ∷ s) h
