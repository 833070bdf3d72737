-- ===== src/Support/Readmem/Words.antt =====
-- include/hif2scSupport/hif2scSupport/hif_verilog_standard.i.hpp: files of plain words, what `in >> str`
-- takes of them, and a memory with cells put over it.
use hif_backend.Prelude.{
  ℕ, zero, suc, ◌≡◌, refl, ap, true, false, List, [], ◌∷◌, ◌++◌, some, Bytes, length, ◌≤◌, ◌<◌, inl,
  inr, arith, Bool-cases, is_empty, All,
}
use hif_backend.Support.Readmem.{
  is_space, drop_spaces, take_word, drop_word, Stream, extract, store, starts_with_at,
}

-- The text of a file with a word on each line.
abbrev pub lines : List Bytes → Bytes
lines [] = []
lines (w ∷ ws) = w ++ b'\n' ∷ lines ws

-- No byte of it is a space.
abbrev pub IsSolid : Bytes → Type 0
IsSolid = All (λ c. is_space c ≡ false)

-- A word that is not empty and no address.
abbrev pub IsPlain : Bytes → Type 0
IsPlain w = (is_empty w ≡ false) × (starts_with_at w ≡ false) × IsSolid w

abbrev pub take : {A : Type 0} → ℕ → List A → List A
take zero xs = []
take (suc n) [] = []
take (suc n) (x ∷ xs) = x ∷ take n xs

-- A list with the cells of another put over it from an index on, as far as there is room.
abbrev pub overlay : {A : Type 0} → ℕ → List A → List A → List A
overlay k cells [] = []
overlay zero [] (x ∷ xs) = x ∷ xs
overlay zero (c ∷ cells) (x ∷ xs) = c ∷ overlay zero cells xs
overlay (suc k) cells (x ∷ xs) = x ∷ overlay k cells xs

module _ {A : Type 0} where
  pub overlay-nil : (k : ℕ) (xs : List A) → overlay k [] xs ≡ xs
  overlay-nil k [] = refl
  overlay-nil zero (x ∷ xs) = refl
  overlay-nil (suc k) (x ∷ xs) = ap (λ zs. x ∷ zs) (overlay-nil k xs)

  pub overlay-beyond : (k : ℕ) (cells xs : List A) → length xs ≤ k → overlay k cells xs ≡ xs
  overlay-beyond k cells [] h = refl
  overlay-beyond zero cells (x ∷ xs) h = absurd (omega arith)
  overlay-beyond (suc k) cells (x ∷ xs) h =
      ap (λ zs. x ∷ zs) (overlay-beyond k cells xs (omega arith))

  pub store-overlay :
      (k : ℕ) (c : A) (cells xs : List A)
      → k < length xs
      → (ys : List A) × (store k c xs ≡ some ys)
        × (length ys ≡ length xs)
        × (overlay (suc k) cells ys ≡ overlay k (c ∷ cells) xs)
  unfolding store
  store-overlay k c cells [] h = absurd (omega arith)
  store-overlay zero c cells (x ∷ xs) h = (c ∷ xs, refl, refl, refl)
  store-overlay (suc k) c cells (x ∷ xs) h =
      let (ys, e, l, o) = store-overlay k c cells xs (omega arith) in
      (x ∷ ys, rw e refl, omega arith, ap (λ zs. x ∷ zs) o)

pub drop_spaces-solid :
    (w s : Bytes) → is_empty w ≡ false → IsSolid w → drop_spaces (w ++ s) ≡ w ++ s
unfolding drop_spaces
drop_spaces-solid [] s h p = cc
drop_spaces-solid (c ∷ w) s h (p, q) = rw p refl

take_word-solid : (w s : Bytes) → IsSolid w → take_word (w ++ b'\n' ∷ s) ≡ w
unfolding take_word
take_word-solid [] s p = refl
take_word-solid (c ∷ w) s (p, q) = rw p (ap (λ zs. c ∷ zs) (take_word-solid w s q))

drop_word-solid : (w s : Bytes) → IsSolid w → drop_word (w ++ b'\n' ∷ s) ≡ b'\n' ∷ s
unfolding drop_word
drop_word-solid [] s p = refl
drop_word-solid (c ∷ w) s (p, q) = rw p (drop_word-solid w s q)

drop_word-last : (w : Bytes) → IsSolid w → drop_word (drop_spaces w) ≡ []
unfolding drop_word drop_spaces
drop_word-last [] p = refl
drop_word-last (c ∷ w) (p, q) = rw (p, p) (drop_word-rest w q)
  where
    drop_word-rest : (w : Bytes) → IsSolid w → drop_word w ≡ []
    drop_word-rest [] p = refl
    drop_word-rest (c ∷ w) (p, q) = rw p (drop_word-rest w q)

pub space : (s : Bytes) → drop_spaces (b'\n' ∷ s) ≡ drop_spaces s
unfolding drop_spaces
space s = refl

unfoldable pub good_stream : Bytes → Stream
good_stream s = record { rest = s; good = true }

pub extract_plain :
    (text w s : Bytes)
    → drop_spaces text ≡ w ++ b'\n' ∷ s
    → is_empty w ≡ false
    → IsSolid w
    → extract (good_stream text) [] ≡ (w, good_stream (b'\n' ∷ s))
unfolding extract good_stream
extract_plain text [] s e h p = cc
extract_plain text (c ∷ w) s e h p =
    rw (e, take_word-solid (c ∷ w) s p, drop_word-solid (c ∷ w) s p) refl

pub extract_last :
    (text w : Bytes)
    → drop_spaces text ≡ drop_spaces w
    → IsSolid w
    → (extract (good_stream text) []).1.good ≡ false
unfolding extract good_stream
extract_last text w e p = elim (Bool-cases (is_empty (drop_spaces w))) [
  | inl h ↦ rw (e, h) refl
  | inr h ↦ rw (e, h, drop_word-last w p) refl
]
