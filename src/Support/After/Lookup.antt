-- ===== src/Support/After/Lookup.antt =====
-- src/hif2scSupport/hif_after.cpp: keys, and what a store or the table holds at an address or a key.
use hif_backend.Prelude.{
  ℕ, ◌≡◌, ◌≢◌, refl, true, false, Option, bytes_eq→eq, bytes_eq_refl, ◌==◌, arith, Bool-cases, ◌⊎◌,
  inl, inr,
}
use hif_backend.Support.After.{Key, key_eq, put, put_key}

key_eq→eq : (k l : Key) → key_eq k l ≡ true → k ≡ l
unfolding key_eq
key_eq→eq k l h =
    let line : k.line ≡ l.line = ground arith in
    let file : k.file ≡ l.file = ground (arith, bytes_eq→eq k.file l.file) in
    let time : k.time ≡ l.time = ground arith in
    λ i. record { line = line i; file = file i; time = time i }

key_eq_refl : (k : Key) → key_eq k k ≡ true
unfolding key_eq
key_eq_refl k = ground (arith, bytes_eq_refl k.file)

pub key_cases : (k l : Key) → ((k ≡ l) × (key_eq k l ≡ true)) ⊎ ((k ≢ l) × (key_eq k l ≡ false))
key_cases k l = elim (Bool-cases (key_eq k l)) [
  | inl e ↦ inl (key_eq→eq k l e, e)
  | inr f ↦ inr (λ (e : k ≡ l). let same = key_eq_refl l in cc, f)
]

pub put-same : {A : Type 0} (i : ℕ) (a : A) (f : ℕ → A) → put i a f i ≡ a
unfolding put
put-same i a f = ground arith

pub put-other : {A : Type 0} (i j : ℕ) (a : A) (f : ℕ → A) → j ≢ i → put i a f j ≡ f j
unfolding put
put-other i j a f h = ground arith

pub put_key-same : (k : Key) (i : Option ℕ) (f : Key → Option ℕ) → put_key k i f k ≡ i
unfolding put_key
put_key-same k i f = rw (key_eq_refl k) refl

pub put_key-other : (k l : Key) (i : Option ℕ) (f : Key → Option ℕ) → l ≢ k → put_key k i f l ≡ f l
unfolding put_key
put_key-other k l i f h = elim (key_cases l k) [ inl p ↦ absurd (h p.0) | inr p ↦ rw p.1 refl ]

pub same_or_not : (i j : ℕ) → (i ≡ j) ⊎ (i ≢ j)
same_or_not i j = elim (Bool-cases (i == j)) [
  | inl e ↦ inl (ground arith)
  | inr e ↦ inr (ground arith)
]
