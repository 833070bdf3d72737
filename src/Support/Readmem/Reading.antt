-- ===== src/Support/Readmem/Reading.antt =====
-- include/hif2scSupport/hif2scSupport/hif_verilog_standard.i.hpp: what `in >> str` takes of a file.
use hif_backend.Prelude.{
  ℕ, ◌≡◌, refl, Bool, true, false, [], ◌∷◌, Bytes, length, ◌≤◌, ◌<◌, ◌⊎◌, inl, inr, arith,
  Bool-cases,
}
use hif_backend.Support.Readmem.{Stream, is_space, drop_spaces, drop_word, extract, reread}

drop_spaces-head :
    (s : Bytes)
    → (drop_spaces s ≡ [])
      ⊎ ((c : ℕ) × (t : Bytes) × (drop_spaces s ≡ c ∷ t)
          × (is_space c ≡ false)
          × (length t < length s))
unfolding drop_spaces
drop_spaces-head [] = inl refl
drop_spaces-head (c ∷ s) = elim (Bool-cases (is_space c)) [
  | inl e ↦ rw e (elim (drop_spaces-head s) [
    | inl h ↦ inl h
    | inr (d, t, h, f, l) ↦ inr (d, t, h, f, omega arith)
  ])
  | inr e ↦ rw e (inr (c, s, refl, e, omega arith))
]

length-drop_word : (s : Bytes) → length (drop_word s) ≤ length s
unfolding drop_word
length-drop_word [] = omega arith
length-drop_word (c ∷ s) = ground (arith, length-drop_word s)

good_stream : Bytes → Stream
good_stream s = record { rest = s; good = true }

length-extract_good :
    (s str : Bytes)
    → (length (extract (good_stream s) str).1.rest ≤ length s)
      × ((extract (good_stream s) str).1.good ≡ false
          ⊎ (length (extract (good_stream s) str).1.rest < length s))
unfolding extract drop_word good_stream
length-extract_good s str = elim (drop_spaces-head s) [
  | inl e ↦ rw e (omega arith, inl refl)
  | inr (c, t, e, f, l) ↦
      rw (e, f) (omega (arith, length-drop_word t), inr (omega (arith, length-drop_word t)))
]

-- A read never puts bytes back, and one that leaves the stream good takes some.
pub length-extract :
    (input : Stream) (str : Bytes)
    → (length (extract input str).1.rest ≤ length input.rest)
      × ((input.good ≡ false)
          ⊎ ((extract input str).1.good ≡ false)
          ⊎ (length (extract input str).1.rest < length input.rest))
unfolding extract good_stream
length-extract input str = elim (Bool-cases input.good) [
  | inl g ↦ let (l, h) = length-extract_good input.rest str in rw g (l, inr h)
  | inr b ↦ rw b (omega arith, inl refl)
]

pub length-reread :
    (again : Bool) (input : Stream) (str : Bytes)
    → length (reread again input str).1.rest ≤ length input.rest
unfolding reread
length-reread true input str = (length-extract input str).0
length-reread false input str = omega arith
