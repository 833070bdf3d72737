-- ===== src/Support/LogicTextio/Lines.antt =====
-- src/hif2scSupport/hif_vhdl_std_textio.cpp: the first word of a line, and the read of a text.
use hif_backend.Prelude.{
  ℕ, ◌≡◌, refl, sym, ap, ◌∙◌, Bool, true, false, ◌&&◌, ◌||◌, [], ◌∷◌, ◌++◌, Bytes, ◌==◌, leb, All,
  is_empty, arith, append-nil, Bool-cases, ◌⊎◌, inl, inr,
}
use hif_backend.Support.Readmem.{drop_spaces, take_word, extract}
use hif_backend.Support.LogicTextio.{trim_left, trim_right, trim, before_blank, read_text}

-- A blank or a tab, and a line feed or another white space that ends no word for `find_first_of`.
abbrev pub blank : ℕ → Bool
blank c = c == 32 || c == 9

abbrev pub breaks : ℕ → Bool
breaks c = leb 10 c && leb c 13

abbrev pub IsPlain : Bytes → Type 0
IsPlain line = All (λ c. breaks c ≡ false) line

abbrev pub BlankFirst : Bytes → Type 0
BlankFirst [] = Unit
BlankFirst (c ∷ s) = blank c ≡ true

-- The line has the word, not empty and without blanks, behind blanks only, and a blank behind it or
-- its end.
abbrev pub IsFirstWord : Bytes → Bytes → Type 0
IsFirstWord line word =
    (before : Bytes) × (rest : Bytes) × (line ≡ before ++ (word ++ rest))
    × All (λ c. blank c ≡ true) before
    × All (λ c. blank c ≡ false) word
    × BlankFirst rest
    × (is_empty word ≡ false)

-- The line has blanks only.
abbrev pub IsBlank : Bytes → Type 0
IsBlank line = All (λ c. blank c ≡ true) line

split_word :
    (s : Bytes)
    → (word : Bytes) × (rest : Bytes) × (s ≡ word ++ rest)
      × All (λ c. blank c ≡ false) word
      × BlankFirst rest
split_word [] = ([], [], refl, tt, tt)
split_word (c ∷ s) = elim (Bool-cases (blank c)) [
  | inl b ↦ ([], c ∷ s, refl, tt, b)
  | inr n ↦
      let (word, rest, e, h, f) = split_word s in (c ∷ word, rest, ap (λ t. c ∷ t) e, (n, h), f)
]

-- Every line has blanks only or a first word.
pub IsFirstWord-cases : (line : Bytes) → IsBlank line ⊎ ((word : Bytes) × IsFirstWord line word)
IsFirstWord-cases [] = inl tt
IsFirstWord-cases (c ∷ s) = elim (Bool-cases (blank c)) [
  | inr n ↦
      let (word, rest, e, h, f) = split_word s in
      inr (c ∷ word, ([], rest, ap (λ t. c ∷ t) e, tt, (n, h), f, refl))
  | inl b ↦ elim (IsFirstWord-cases s) [
    | inl blanks ↦ inl (b, blanks)
    | inr (word, (before, rest, e, bs, h, f, some_word)) ↦
        inr (word, (c ∷ before, rest, ap (λ t. c ∷ t) e, (b, bs), h, f, some_word))
  ]
]

trim_left-blank : (s t : Bytes) → IsBlank s → trim_left (s ++ t) ≡ trim_left t
unfolding trim_left
trim_left-blank [] t h = refl
trim_left-blank (c ∷ s) t (b, h) = ground (arith, b, trim_left-blank s t h)

trim_left-word : (c : ℕ) (s : Bytes) → blank c ≡ false → trim_left (c ∷ s) ≡ c ∷ s
unfolding trim_left
trim_left-word c s h = ground (arith, h)

before_blank-trim_right :
    (word rest : Bytes)
    → All (λ c. blank c ≡ false) word
    → BlankFirst rest
    → before_blank (trim_right (word ++ rest)) ≡ word
unfolding before_blank trim_right
before_blank-trim_right [] [] h f = refl
before_blank-trim_right [] (d ∷ rest) h f = elim (Bool-cases (is_empty (trim_right rest))) [
  | inl e ↦ ground (arith, e, f)
  | inr e ↦ ground (arith, e, f)
]
before_blank-trim_right (c ∷ word) rest (n, h) f =
    ground (arith, n, before_blank-trim_right word rest h f)

take_word-plain :
    (word : Bytes) → All (λ c. blank c ≡ false) word → IsPlain word → take_word word ≡ word
unfolding take_word
take_word-plain [] h p = refl
take_word-plain (c ∷ word) (n, h) (b, p) = ground (arith, n, b, take_word-plain word h p)

drop_spaces-plain :
    (c : ℕ) (s : Bytes) → blank c ≡ false → breaks c ≡ false → drop_spaces (c ∷ s) ≡ c ∷ s
unfolding drop_spaces
drop_spaces-plain c s n b = ground (arith, n, b)

extract-plain :
    (word : Bytes)
    → All (λ c. blank c ≡ false) word
    → IsPlain word
    → is_empty word ≡ false
    → (extract (record { rest = word; good = true }) []).0 ≡ word
unfolding extract
extract-plain [] h p e = cc
extract-plain (c ∷ word) (n, h) (b, p) e =
    rw (drop_spaces-plain c word n b) (take_word-plain (c ∷ word) (n, h) (b, p))

IsPlain-append : (s t : Bytes) → IsPlain (s ++ t) → IsPlain s × IsPlain t
IsPlain-append [] t h = (tt, h)
IsPlain-append (c ∷ s) t (b, h) = let (hs, ht) = IsPlain-append s t h in ((b, hs), ht)

trimmed :
    (before word rest : Bytes)
    → IsBlank before
    → All (λ c. blank c ≡ false) word
    → BlankFirst rest
    → is_empty word ≡ false
    → before_blank (trim (before ++ (word ++ rest))) ≡ word
unfolding trim
trimmed before [] rest bs h f e = cc
trimmed before (c ∷ word) rest bs (n, h) f e =
    ap (λ t. before_blank (trim_right t))
      (trim_left-blank before (c ∷ (word ++ rest)) bs ∙ trim_left-word c (word ++ rest) n)
    ∙ before_blank-trim_right (c ∷ word) rest (n, h) f

-- A line without line feeds and the like has its first word read, and a line of blanks is not good.
pub read_text-word :
    (line word : Bytes) → IsPlain line → IsFirstWord line word → read_text line [] ≡ (word, true)
unfolding read_text
read_text-word line word p (before, rest, e, bs, h, f, some_word) =
    let cut : before_blank (trim line) ≡ word =
      ap (λ l. before_blank (trim l)) e ∙ trimmed before word rest bs h f some_word in
    let plain : IsPlain word =
      (IsPlain-append word rest (IsPlain-append before (word ++ rest) (rw e at p)).1).0 in
    rw cut (rw (extract-plain word h plain some_word, some_word) refl)

blank_trimmed : (line : Bytes) → IsBlank line → before_blank (trim line) ≡ []
unfolding trim trim_left trim_right before_blank
blank_trimmed line bs =
    ap (λ l. before_blank (trim l)) (sym (append-nil line))
    ∙ ap (λ t. before_blank (trim_right t)) (trim_left-blank line [] bs)

pub read_text-blank : (line : Bytes) → IsBlank line → (read_text line []).1 ≡ false
unfolding read_text
read_text-blank line bs = rw (blank_trimmed line bs) refl
