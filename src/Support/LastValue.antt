-- ===== src/Support/LastValue.antt =====
-- include/hif2scSupport/hif2scSupport/hif_systemc_extensions.i.hpp: hif_lastValue and
-- hif_lastValue_var, which keep for a signal of VHDL the value that each of its bits had before it
-- last changed. A value of the type T is the list of its bits.
use mathlib.Core.Bool.{xor}
use hif_backend.Prelude.{
  ℕ, zero, suc, ◌≡◌, refl, sym, ap, ◌∙◌, Bool, true, false, ◌&&◌, ◌||◌, not, List, [], ◌∷◌, map,
  length, if◌then◌else◌, arith, Bool-cases, inl, inr, All, zero-ne-suc,
}

abbrev pub Word : Type 0
Word = List Bool

-- The operators of T, bit by bit.
abbrev zip : (Bool → Bool → Bool) → Word → Word → Word
zip f [] w = []
zip f (a ∷ v) [] = []
zip f (a ∷ v) (b ∷ w) = f a b ∷ zip f v w

abbrev word_eq : Word → Word → Bool
word_eq [] [] = true
word_eq [] (b ∷ w) = false
word_eq (a ∷ v) [] = false
word_eq (a ∷ v) (b ∷ w) = not (xor a b) && word_eq v w

-- The arguments that the function changes.
pub record Held : Type 0 where
  pub last : Word
  pub prev : Word

-- The loop-free body: the state after a read of the value s; the function returns `last`.
unfoldable pub hif_last_value : Word → Held → Held
hif_last_value s held =
    let m = zip xor s held.prev in
    if not (word_eq s held.prev)
    then record {
      last = zip ◌||◌ (zip ◌&&◌ held.prev m) (zip ◌&&◌ held.last (map not m));
      prev = s;
    }
    else held

-- A sequence of reads.
unfoldable pub reads : List Word → Held → Held
reads [] held = held
reads (s ∷ rest) held = reads rest (hif_last_value s held)

abbrev pub bit_at : Word → ℕ → Bool
bit_at [] i = false
bit_at (a ∷ v) zero = a
bit_at (a ∷ v) (suc i) = bit_at v i

-- Whether a bit that starts so has another value somewhere in a sequence.
abbrev pub changes : ℕ → Bool → List Word → Bool
changes i b [] = false
changes i b (s ∷ rest) = xor (bit_at s i) b || changes i b rest

-- The value of a bit at the end of a sequence.
abbrev pub final_bit : ℕ → Bool → List Word → Bool
final_bit i b [] = b
final_bit i b (s ∷ rest) = final_bit i (bit_at s i) rest

-- The word that the body stores.
abbrev merged : Word → Word → Word → Word
merged s last prev =
    zip ◌||◌ (zip ◌&&◌ prev (zip xor s prev)) (zip ◌&&◌ last (map not (zip xor s prev)))

word_eq→eq : (v w : Word) → word_eq v w ≡ true → v ≡ w
unfolding xor
word_eq→eq [] [] h = refl
word_eq→eq [] (b ∷ w) h = cc
word_eq→eq (a ∷ v) [] h = cc
word_eq→eq (a ∷ v) (b ∷ w) h = ground (arith, word_eq→eq v w)

bit_at-merged :
    (i : ℕ) (s last prev : Word)
    → length s ≡ length prev
    → length last ≡ length prev
    → bit_at (merged s last prev) i
      ≡ (if xor (bit_at s i) (bit_at prev i) then bit_at prev i else bit_at last i)
unfolding xor
bit_at-merged i [] [] [] e f = refl
bit_at-merged i [] last (b ∷ prev) e f = zero-ne-suc (length prev) e
bit_at-merged i [] (c ∷ last) [] e f = zero-ne-suc (length last) (sym f)
bit_at-merged i (a ∷ s) last [] e f = zero-ne-suc (length s) (sym e)
bit_at-merged i (a ∷ s) [] (b ∷ prev) e f = zero-ne-suc (length prev) f
bit_at-merged zero (a ∷ s) (c ∷ last) (b ∷ prev) e f = ground arith
bit_at-merged (suc i) (a ∷ s) (c ∷ last) (b ∷ prev) e f =
    bit_at-merged i s last prev (omega (arith, e)) (omega (arith, f))

length-merged :
    (s last prev : Word)
    → length s ≡ length prev
    → length last ≡ length prev
    → length (merged s last prev) ≡ length prev
length-merged [] [] [] e f = refl
length-merged [] last (b ∷ prev) e f = zero-ne-suc (length prev) e
length-merged [] (c ∷ last) [] e f = zero-ne-suc (length last) (sym f)
length-merged (a ∷ s) last [] e f = zero-ne-suc (length s) (sym e)
length-merged (a ∷ s) [] (b ∷ prev) e f = zero-ne-suc (length prev) f
length-merged (a ∷ s) (c ∷ last) (b ∷ prev) e f =
    omega (arith, length-merged s last prev (omega (arith, e)) (omega (arith, f)))

-- The value of a bit before its last change, from the bit it was and the one that was kept for it.
abbrev kept_bit : ℕ → Bool → Bool → List Word → Bool
kept_bit i was kept samples = if changes i was samples then not (final_bit i was samples) else kept

unchanged_at :
    (i : ℕ) (x b : Bool) (rest : List Word)
    → (changes i x rest ≡ false → final_bit i x rest ≡ x)
    → (xor x b || changes i b rest) ≡ false
    → final_bit i x rest ≡ b
unfolding xor
unchanged_at i true true rest h e = h e
unchanged_at i true false rest h e = cc
unchanged_at i false true rest h e = cc
unchanged_at i false false rest h e = h e

final_bit-unchanged :
    (i : ℕ) (b : Bool) (samples : List Word)
    → changes i b samples ≡ false
    → final_bit i b samples ≡ b
unfolding xor
final_bit-unchanged i b [] h = refl
final_bit-unchanged i b (s ∷ rest) h =
    unchanged_at i (bit_at s i) b rest (final_bit-unchanged i (bit_at s i) rest) h

unflipped : (b : Bool) {c : Bool} → c ≡ (if xor b b then b else c)
unfolding xor
unflipped true = refl
unflipped false = refl

kept_bit-step :
    (i : ℕ) (x b c : Bool) (rest : List Word)
    → kept_bit i x (if xor x b then b else c) rest
      ≡ (if xor x b || changes i b rest then not (final_bit i x rest) else c)
unfolding xor
kept_bit-step i true true c rest = refl
kept_bit-step i false false c rest = refl
kept_bit-step i true false c rest = ground (arith, final_bit-unchanged i true rest)
kept_bit-step i false true c rest = ground (arith, final_bit-unchanged i false rest)

-- One read of a word of the same length.
hif_last_value_step :
    (n : ℕ) (s : Word) (held : Held) (i : ℕ)
    → length s ≡ n
    → length held.last ≡ n
    → length held.prev ≡ n
    → let next = hif_last_value s held in
      (next.prev ≡ s)
      × (length next.last ≡ n)
      × (bit_at next.last i ≡ (
          if xor (bit_at s i) (bit_at held.prev i) then bit_at held.prev i else bit_at held.last i))
unfolding hif_last_value
hif_last_value_step n s held i e l p = elim (Bool-cases (word_eq s held.prev)) [
  | inl unchanged ↦
      let same = word_eq→eq s held.prev unchanged in
      rw unchanged (sym same, l, rw same (unflipped (bit_at held.prev i)))
  | inr changed ↦ rw changed (
    refl,
    length-merged s held.last held.prev (e ∙ sym p) (l ∙ sym p) ∙ p,
    bit_at-merged i s held.last held.prev (e ∙ sym p) (l ∙ sym p),
  )
]

-- After any sequence of reads of words of one length, the value kept for each bit is, if the bit
-- has changed in it, the one it had before its last change, which is the other one than it has at
-- the end, and else the one that was kept before; and the word to compare the next one with holds
-- the bit's value at the end.
pub reads-kept :
    (n : ℕ) (samples : List Word) (held : Held) (i : ℕ)
    → All (λ s. length s ≡ n) samples
    → length held.last ≡ n
    → length held.prev ≡ n
    → (bit_at (reads samples held).last i ≡ (
        if changes i (bit_at held.prev i) samples
        then not (final_bit i (bit_at held.prev i) samples)
        else bit_at held.last i))
      × (bit_at (reads samples held).prev i ≡ final_bit i (bit_at held.prev i) samples)
unfolding reads
reads-kept n [] held i same l p = (refl, refl)
reads-kept n (s ∷ rest) held i (e, same) l p =
    let next = hif_last_value s held in
    let (now, long, bit) = hif_last_value_step n s held i e l p in
    let (kept, final) = reads-kept n rest next i same long (ap length now ∙ e) in
    let bit_now : bit_at next.prev i ≡ bit_at s i = ap (λ w. bit_at w i) now in
    (
      kept
          ∙ rw (bit_now, bit)
              (kept_bit-step i (bit_at s i) (bit_at held.prev i) (bit_at held.last i) rest),
      final ∙ ap (λ b. final_bit i b rest) bit_now,
    )
