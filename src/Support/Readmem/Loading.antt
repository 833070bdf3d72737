-- ===== src/Support/Readmem/Loading.antt =====
-- include/hif2scSupport/hif2scSupport/hif_verilog_standard.i.hpp: loads of files of plain words, from
-- a lower to a higher address.
use hif_backend.Prelude.{
  ℕ, zero, suc, ◌+◌, ◌-◌, ◌^◌, ◌≡◌, refl, sym, ap, ◌∙◌, Bool, true, false, not, List, [], ◌∷◌, ◌++◌,
  map, Bytes, length, ltb, ◌≤◌, ◌<◌, ◌⊎◌, inl, inr, arith, Bool-cases, if◌then◌else◌, All,
  append_assoc, length-append,
}
use hif_backend.Prelude.Int.{pos, ◌+ℤ◌, ◌-ℤ◌}
use hif_backend.Support.Readmem.{
  int32, as_size, drop_spaces, Stream, Overload, Request, index_of, finished, stop, continue,
  store_at, put_word, round, rounds, readmem, limit, ascending, passed, beyond, fails,
}
use hif_backend.Support.Readmem.Words.{
  lines, IsSolid, IsPlain, take, overlay, overlay-nil, overlay-beyond, store-overlay,
  drop_spaces-solid, space, good_stream, extract_plain, extract_last,
}

int32-pos : (n : ℕ) → n < 2 ^ 31 → int32 (pos n) ≡ pos n
unfolding int32
int32-pos n h = ground arith

plus_one : (k : ℕ) → pos k +ℤ pos 1 ≡ pos (suc k)
unfolding ◌+ℤ◌
plus_one k = ground arith

take-nil : {A : Type 0} (n : ℕ) → take {A = A} n [] ≡ []
take-nil zero = refl
take-nil (suc n) = refl

module _ {A : Type 0} (o : Overload A) (r : Request) (size : ℕ) (b : ℕ) (nonempty : 0 < size)
    (fits : size < 2 ^ 31) (up : ascending o r size ≡ true) (stops : limit o r size ≡ pos b)
    (reaches : suc b < 2 ^ 31) where
  passed-pos : (k : ℕ) → passed o r size (pos k) ≡ ltb b k
  unfolding passed
  passed-pos k = rw (up, stops) (ground arith)

  beyond-pos : (k : ℕ) → k < 2 ^ 31 → beyond o r size (pos k) ≡ not (ltb k size)
  unfolding beyond as_size
  beyond-pos k h = ground arith

  next-pos : (k : ℕ) → suc k < 2 ^ 31 → int32 (pos k +ℤ pos 1) ≡ pos (suc k)
  next-pos k h = ap int32 (plus_one k) ∙ int32-pos (suc k) h

  round-plain :
      (k : ℕ) (text w s : Bytes) (memory : List A)
      → drop_spaces text ≡ w ++ b'\n' ∷ s
      → IsPlain w
      → round o r size (pos k) (good_stream text) memory
        ≡ put_word o r size (pos k) w (good_stream (b'\n' ∷ s)) memory
  unfolding round good_stream
  round-plain k text w s memory e (n, a, p) = rw (extract_plain text w s e n p, a) refl

  round-last :
      (k : ℕ) (text last : Bytes) (memory : List A)
      → drop_spaces text ≡ drop_spaces last
      → IsSolid last
      → round o r size (pos k) (good_stream text) memory ≡ stop (finished memory)
  unfolding round good_stream
  round-last k text last memory e p = rw (extract_last text last e p) refl

  cell : Bytes → A
  cell w = o.decode (o.base ++ w)

  -- What the end of a round does with a word whose length is not refused.
  put_word-cases :
      (k : ℕ) (w : Bytes) (input : Stream) (memory : List A) (ws : List Bytes)
      → fails o.asserted w ≡ false
      → k < 2 ^ 31
      → length memory ≡ size
      → ((put_word o r size (pos k) w input memory ≡ stop (finished memory))
          × (overlay k (map cell (take (suc b - k) (w ∷ ws))) memory ≡ memory))
        ⊎ ((ys : List A) × (put_word o r size (pos k) w input memory
              ≡ continue (pos (suc k)) input ys)
            × (length ys ≡ size)
            × (suc k < 2 ^ 31)
            × (overlay (suc k) (map cell (take (suc b - suc k) ws)) ys
                ≡ overlay k (map cell (take (suc b - k) (w ∷ ws))) memory))
  unfolding put_word store_at cell
  put_word-cases k w input memory ws f h l = elim (Bool-cases (ltb b k)) [
    | inl t ↦
        let none_left : suc b - k ≡ 0 = ground arith in
        inl (rw (f, passed-pos k, t) refl, rw none_left (overlay-nil k memory))
    | inr t ↦ elim (Bool-cases (ltb k size)) [
      | inr g ↦ inl (
        rw (f, passed-pos k, t, beyond-pos k h, g) refl,
        overlay-beyond k _ memory (ground arith),
      )
      | inl g ↦
          let more : suc b - k ≡ suc (b - k) = ground arith in
          let same : suc b - suc k ≡ b - k = omega arith in
          let (ys, e, m, v) =
            store-overlay k (cell w) (map cell (take (b - k) ws)) memory (ground arith) in
          inr (
            ys,
            rw (f, passed-pos k, t, beyond-pos k h, g, e, up, next-pos k (ground arith)) refl,
            m ∙ l,
            ground arith,
            rw (more, same) v,
          )
    ]
  ]

  rounds-plain :
      (fuel k : ℕ) (ws : List Bytes) (text last : Bytes) (memory : List A)
      → length ws < fuel
      → k < 2 ^ 31
      → length memory ≡ size
      → drop_spaces text ≡ drop_spaces (lines ws ++ last)
      → All IsPlain ws
      → IsSolid last
      → All (λ w. fails o.asserted w ≡ false) ws
      → rounds o r size fuel (pos k) (good_stream text) memory
        ≡ finished (overlay k (map cell (take (suc b - k) ws)) memory)
  unfolding rounds
  rounds-plain zero k ws text last memory f h l e p q a = absurd (omega arith)
  rounds-plain (suc fuel) k [] text last memory f h l e p q a =
      rw (rounds, round-last k text last memory e q, take-nil {A = Bytes} (suc b - k))
        (ap finished (sym (overlay-nil k memory)))
  rounds-plain (suc fuel) k (w ∷ ws) text last memory f h l e (pw, p) q (aw, a) =
      let start =
        e
        ∙ ap drop_spaces (append_assoc w (b'\n' ∷ lines ws) last)
        ∙ drop_spaces-solid w _ pw.0 pw.2 in
      let behind = b'\n' ∷ lines ws ++ last in
      elim (put_word-cases k w (good_stream behind) memory ws aw h l) [
        | inl (v, m) ↦ rw (rounds, round-plain k text w _ memory start pw, v) (ap finished (sym m))
        | inr (ys, v, m, j, u) ↦
            rw (rounds, round-plain k text w _ memory start pw, v)
              (rounds-plain fuel (suc k) ws behind last ys (omega arith) j m (space _) p q a
                ∙ ap finished u)
      ]

-- The cells that an overload makes of words.
abbrev cells_of : {A : Type 0} → Overload A → List Bytes → List A
cells_of o ws = map (λ w. o.decode (o.base ++ w)) ws

-- A load from address m + a to address m + b of a memory whose lowest address is m, declared with
-- ascending addresses.
abbrev pub upward : (d m a b : ℕ) → Request
upward d m a b = record {
  start_addr = pos (m + a);
  stop_addr = pos (m + b);
  min = pos m;
  direction = pos d;
}

index_of-upward :
    (size d m a b k : ℕ) → m + k < 2 ^ 31 → index_of size (upward d m a b) (pos (m + k)) ≡ pos k
unfolding index_of ◌-ℤ◌
index_of-upward size d m a b k h =
    let less : pos (m + k) -ℤ pos m ≡ pos k = ground arith in
    ap int32 less ∙ int32-pos k (omega arith)

module _ {A : Type 0} (o : Overload A) (size d m a b : ℕ) (ab : a ≤ b)
    (bound : suc (m + b) < 2 ^ 31) where
  ascending-upward : ascending o (upward d m a b) size ≡ true
  unfolding ascending
  ascending-upward =
      rw
        (index_of-upward size d m a b a (omega arith), index_of-upward size d m a b b (omega arith))
        (ground arith)

  limit-upward : limit o (upward d m a b) size ≡ pos (if o.adjusted_stop then b else m + b)
  unfolding limit
  limit-upward = elim (Bool-cases o.adjusted_stop) [
    | inl e ↦ rw (e, index_of-upward size d m a b b (omega arith)) refl
    | inr e ↦ rw e refl
  ]

length-lines : (ws : List Bytes) (last : Bytes) → length ws ≤ length (lines ws ++ last)
length-lines [] last = omega arith
length-lines (w ∷ ws) last =
    let rest = length-lines ws last in
    rw (append_assoc w (b'\n' ∷ lines ws) last, length-append w (b'\n' ∷ lines ws ++ last))
      (omega arith)

-- A load from an address up to one that is not lower, into a memory of at least one and fewer than
-- 2^31 cells with ascending addresses below 2^31 - 1, of a file of plain words, one on each line
-- and of the length that the overload asserts, if it does, and then a last line with no line feed
-- and no space: the words go to the cells from the start on, in order, up to the index that the
-- overload compares with or the end of the memory. That index is that of the stop if the overload
-- adjusts it, and else the stop itself, whatever the lowest address is; and the last line is lost.
pub readmem-lines :
    {A : Type 0} (o : Overload A) (d m a b : ℕ) (ws : List Bytes) (last : Bytes) (memory : List A)
    → 0 < length memory
    → length memory < 2 ^ 31
    → a ≤ b
    → suc (m + b) < 2 ^ 31
    → All IsPlain ws
    → IsSolid last
    → All (λ w. fails o.asserted w ≡ false) ws
    → readmem o (upward d m a b) (lines ws ++ last) memory
      ≡ finished
          (overlay a (cells_of o (take (suc (if o.adjusted_stop then b else m + b) - a) ws)) memory)
unfolding readmem good_stream cell
readmem-lines o d m a b ws last memory nonempty fits ab bound p q f =
    let size = length memory in
    let final = if o.adjusted_stop then b else m + b in
    let below : suc final < 2 ^ 31 = below_bound o.adjusted_stop in
    rw (index_of-upward size d m a b a (omega arith)) (
      rounds-plain o (upward d m a b) size final nonempty fits
        (ascending-upward o size d m a b ab bound) (limit-upward o size d m a b ab bound) below
        (suc (length (lines ws ++ last))) a ws (lines ws ++ last) last memory
        (omega (arith, length-lines ws last)) (omega arith) refl refl p q f)
  where
    below_bound : (t : Bool) → suc (if t then b else m + b) < 2 ^ 31
    below_bound true = omega arith
    below_bound false = omega arith
