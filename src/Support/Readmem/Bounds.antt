-- ===== src/Support/Readmem/Bounds.antt =====
-- include/hif2scSupport/hif2scSupport/hif_verilog_standard.i.hpp: the stores and the rounds of a load.
use hif_backend.Prelude.{
  ℕ, zero, suc, ◌%◌, ◌^◌, ◌≡◌, ◌≢◌, refl, true, false, List, [], ◌∷◌, ◌++◌, Option, none, some,
  Bytes, length, ltb, ◌<◌, inl, inr, arith, Bool-cases,
}
use hif_backend.Prelude.Int.{ℤ, pos, negsuc, ◌-ℤ◌}
use hif_backend.Support.Readmem.{
  int32, as_size, Stream, extract, Overload, Request, index_of, is_negative, Result, finished,
  assertion_failed, out_of_bounds, out_of_fuel, Round, stop, continue, store, store_at, put_word,
  round, rounds, readmem, passed, beyond, fails, starts_with_at,
}
use hif_backend.Support.Readmem.Reading.{length-extract, length-reread}

-- A value of a 32-bit `int`.
abbrev pub IsInt : ℤ → Type 0
IsInt (pos n) = n < 2 ^ 31
IsInt (negsuc n) = n < 2 ^ 31

pub int32-IsInt : (n : ℤ) → IsInt (int32 n)
unfolding int32
int32-IsInt (pos n) = elim (Bool-cases (ltb (n % 2 ^ 32) (2 ^ 31))) [
  | inl e ↦ rw e (ground arith)
  | inr e ↦ rw e (ground arith)
]
int32-IsInt (negsuc n) = elim (Bool-cases (ltb (n % 2 ^ 32) (2 ^ 31))) [
  | inl e ↦ rw e (ground arith)
  | inr e ↦ rw e (ground arith)
]

index_of-IsInt : (size : ℕ) (r : Request) (a : ℤ) → IsInt (index_of size r a)
unfolding index_of
index_of-IsInt size r a = elim (Bool-cases (is_negative r.direction)) [
  | inl e ↦ rw e (int32-IsInt (pos size -ℤ int32 (a -ℤ r.min)))
  | inr e ↦ rw e (int32-IsInt (a -ℤ r.min))
]

module _ {A : Type 0} where
  length-store :
      (n : ℕ) (a : A) (xs : List A)
      → n < length xs
      → (ys : List A) × (store n a xs ≡ some ys) × (length ys ≡ length xs)
  unfolding store
  length-store n a [] h = absurd (omega arith)
  length-store zero a (x ∷ xs) h = (a ∷ xs, refl, refl)
  length-store (suc n) a (x ∷ xs) h =
      let (ys, e, l) = length-store n a xs (omega arith) in (x ∷ ys, rw e refl, omega arith)

  -- The memory keeps its size, or an assertion on the length of a word has failed.
  abbrev pub Keeps : Overload A → ℕ → Result A → Type 0
  Keeps o size (finished memory) = length memory ≡ size
  Keeps o size assertion_failed = o.asserted ≢ none
  Keeps o size out_of_bounds = zero ≡ 1
  Keeps o size out_of_fuel = zero ≡ 1

  Proceeds : Overload A → ℕ → ℕ → Round A → Type 0
  Proceeds o size left (stop result) = Keeps o size result
  Proceeds o size left (continue n input memory) =
      IsInt n × (length memory ≡ size) × (length input.rest < left)

fails-asserted : (w : Option ℕ) (str : Bytes) → fails w str ≡ true → w ≢ none
fails-asserted none str h = cc
fails-asserted (some w) str h = cc

shrinks :
    (text : Bytes)
    → (extract (record { rest = text; good = true }) []).1.good ≡ true
    → length (extract (record { rest = text; good = true }) []).1.rest < length text
shrinks text h = elim (length-extract (record { rest = text; good = true }) []).1 [
  | inl b ↦ cc
  | inr (inl b) ↦ cc
  | inr (inr l) ↦ l
]

module _ {A : Type 0} (o : Overload A) (r : Request) (size : ℕ) (nonempty : 0 < size)
    (fits : size < 2 ^ 63) where
  -- The test at the end of the memory lets no other index through than that of a cell.
  beyond-false : (n : ℤ) → IsInt n → beyond o r size n ≡ false → (k : ℕ) × (n ≡ pos k) × (k < size)
  unfolding beyond as_size
  beyond-false (pos k) i e = (k, refl, ground arith)
  beyond-false (negsuc k) i e = absurd (ground arith)

  put_word-Proceeds :
      (n : ℤ) (str : Bytes) (input : Stream) (memory : List A) (left : ℕ)
      → IsInt n
      → length memory ≡ size
      → length input.rest < left
      → Proceeds o size left (put_word o r size n str input memory)
  unfolding put_word store_at Proceeds
  put_word-Proceeds n str input memory left i e l = elim (Bool-cases (fails o.asserted str)) [
    | inl f ↦ rw f (fails-asserted o.asserted str f)
    | inr f ↦ elim (Bool-cases (passed o r size n)) [
      | inl p ↦ rw (f, p) e
      | inr p ↦ elim (Bool-cases (beyond o r size n)) [
        | inl b ↦ rw (f, p, b) e
        | inr b ↦
            let (k, en, lk) = beyond-false n i b in
            let (ys, es, ls) = length-store k (o.decode (o.base ++ str)) memory (omega arith) in
            rw (f, p, b, en, es) (int32-IsInt _, omega arith, l)
      ]
    ]
  ]

  good_round-Proceeds :
      (n : ℤ) (text : Bytes) (memory : List A)
      → IsInt n
      → length memory ≡ size
      → Proceeds o size
          (length text)
          (round o r size n (record { rest = text; good = true }) memory)
  unfolding round Proceeds
  good_round-Proceeds n text memory i e =
      let input : Stream = record { rest = text; good = true } in
      let index = index_of-IsInt size r in
      elim (Bool-cases ((extract input []).1.good)) [
        | inr b ↦ rw b e
        | inl h ↦
            let less = shrinks text h in
            elim (Bool-cases (starts_with_at (extract input []).0)) [
              | inr f ↦ rw (h, f) (put_word-Proceeds n _ _ memory _ i e less)
              | inl t ↦
                  let (str, behind) = extract input [] in
                  let kept = length-reread o.rereads behind str in
                  rw (h, t) (put_word-Proceeds _ _ _ memory _ (index _) e (omega arith))
            ]
      ]

  round-Proceeds :
      (n : ℤ) (input : Stream) (memory : List A)
      → IsInt n
      → length memory ≡ size
      → Proceeds o size (length input.rest) (round o r size n input memory)
  unfolding round Proceeds
  round-Proceeds n input memory i e = elim (Bool-cases input.good) [
    | inl g ↦ rw g (good_round-Proceeds n input.rest memory i e)
    | inr b ↦ rw b e
  ]

  rounds-Keeps :
      (fuel : ℕ) (n : ℤ) (input : Stream) (memory : List A)
      → IsInt n
      → length memory ≡ size
      → length input.rest < fuel
      → Keeps o size (rounds o r size fuel n input memory)
  unfolding rounds Proceeds
  rounds-Keeps zero n input memory i e l = absurd (omega arith)
  rounds-Keeps (suc fuel) n input memory i e l =
      next (rounds-Keeps fuel) (round o r size n input memory) (round-Proceeds n input memory i e)
    where
      next :
          ((m : ℤ) (behind : Stream) (stored : List A)
            → IsInt m
            → length stored ≡ size
            → length behind.rest < fuel
            → Keeps o size (rounds o r size fuel m behind stored))
          → (x : Round A) → Proceeds o size (length input.rest) x
          → Keeps o size (elim x [
            | stop result ↦ result
            | continue m behind stored ↦ rounds o r size fuel m behind stored
          ])
      next rec (stop result) h = h
      next rec (continue m behind stored) (j, f, k) = rec m behind stored j f (omega arith)

-- Whatever the overload, the request and the bytes of the file, a load into a memory of at least one and
-- fewer than 2^63 cells ends within its fuel without a store outside of the memory: it leaves as
-- many cells as there were, or fails an assertion on the length of a word, if the overload has one.
pub readmem-Keeps :
    {A : Type 0} (o : Overload A) (r : Request) (file : Bytes) (memory : List A)
    → 0 < length memory
    → length memory < 2 ^ 63
    → Keeps o (length memory) (readmem o r file memory)
unfolding readmem
readmem-Keeps o r file memory nonempty fits =
    rounds-Keeps o r (length memory) nonempty fits (suc (length file)) _ _ memory
      (index_of-IsInt _ r r.start_addr) refl (omega arith)
