-- ===== src/Hif2vhdl/IdentifierNames/Spacing.antt =====
-- src/hif2vhdl/PreRefine_identifierNames.cpp: the loop of `_replaceDoubleUnderscore` and a single
-- pass over the text.
use Prim.Native.Nat.{ℕ, zero, suc, ◌<◌}
use hif_backend.Prelude.{
  ◌≡◌, refl, Bool-cases, false, ◌&&◌, [], ◌∷◌, ◌++◌, none, some, Bytes, ◌==◌, if◌then◌else◌, arith,
  Option-cases, inl, inr,
}
use hif_backend.Hif2vhdl.IdentifierNames.{
  underscore, id_text, insert_at_found, replace_double_underscore,
}

-- How often two underscores stand next to one another.
unfoldable pub pairs : Bytes → ℕ
pairs [] = 0
pairs (c ∷ []) = 0
pairs (c ∷ d ∷ s) =
    if c == underscore && d == underscore then suc (pairs (d ∷ s)) else pairs (d ∷ s)

-- The text with "id" between any two underscores that stand next to one another.
unfoldable pub spaced : Bytes → Bytes
spaced [] = []
spaced (c ∷ []) = c ∷ []
spaced (c ∷ d ∷ s) =
    let rest = spaced (d ∷ s) in
    if c == underscore && d == underscore then c ∷ id_text ++ rest else c ∷ rest

insert_at_found-head :
    (c : ℕ) (s : Bytes) {t : Bytes} → insert_at_found (c ∷ s) ≡ some t → (r : Bytes) × (t ≡ c ∷ r)
unfolding insert_at_found
insert_at_found-head c [] h = cc
insert_at_found-head c (d ∷ s) h = ground arith

-- Where `find` answers `npos`, there is no pair and the single pass changes nothing.
insert_at_found-none : (s : Bytes) → insert_at_found s ≡ none → (pairs s ≡ 0) × (spaced s ≡ s)
unfolding insert_at_found pairs spaced
insert_at_found-none [] h = (refl, refl)
insert_at_found-none (c ∷ []) h = (refl, refl)
insert_at_found-none (c ∷ d ∷ s) h = ground (arith, insert_at_found-none (d ∷ s))

pairs-cons :
    (c d : ℕ) (s : Bytes)
    → (c == underscore && d == underscore) ≡ false
    → pairs (c ∷ d ∷ s) ≡ pairs (d ∷ s)
unfolding pairs
pairs-cons c d s h = rw h

spaced-cons :
    (c d : ℕ) (s : Bytes)
    → (c == underscore && d == underscore) ≡ false
    → spaced (c ∷ d ∷ s) ≡ c ∷ spaced (d ∷ s)
unfolding spaced
spaced-cons c d s h = rw h

-- What a round of the loop does to a text of two or more bytes.
insert_at_found-pair :
    (s : Bytes)
    → insert_at_found (underscore ∷ underscore ∷ s) ≡ some (underscore ∷ id_text ++ underscore ∷ s)
unfolding insert_at_found
insert_at_found-pair s = refl

insert_at_found-cons :
    (c d : ℕ) (s : Bytes) {t : Bytes}
    → (c == underscore && d == underscore) ≡ false
    → insert_at_found (c ∷ d ∷ s) ≡ some t
    → (r : Bytes) × (insert_at_found (d ∷ s) ≡ some (d ∷ r)) × (t ≡ c ∷ d ∷ r)
unfolding insert_at_found
insert_at_found-cons c d s n h = elim (Option-cases (insert_at_found (d ∷ s))) [
  | inl e ↦ absurd (ground (arith, e))
  | inr (u, e) ↦ let (r, hr) = insert_at_found-head d s e in (r, rw (← hr) e, ground (arith, e, hr))
]

-- A round removes one pair and leaves the text that the single pass computes.
insert_at_found-some :
    (s : Bytes) {t : Bytes}
    → insert_at_found s ≡ some t
    → (suc (pairs t) ≡ pairs s) × (spaced t ≡ spaced s)
unfolding insert_at_found pairs spaced
insert_at_found-some [] h = cc
insert_at_found-some (c ∷ []) h = cc
insert_at_found-some (c ∷ d ∷ s) h = elim (Bool-cases (c == underscore && d == underscore)) [
  | inl y ↦ ground arith
  | inr n ↦
      let (r, hr, ht) = insert_at_found-cons c d s n h in
      let (count, text) = insert_at_found-some (d ∷ s) hr in (ground arith, ground arith)
]

-- With more fuel than pairs the loop ends, with the text that the single pass computes.
pub replace_double_underscore-spaced :
    (fuel : ℕ) (s : Bytes) → pairs s < fuel → replace_double_underscore fuel s ≡ some (spaced s)
unfolding replace_double_underscore
replace_double_underscore-spaced zero s h = elim h [ ]
replace_double_underscore-spaced (suc fuel) s h = elim (Option-cases (insert_at_found s)) [
  | inl e ↦ ground (arith, e, insert_at_found-none s e)
  | inr (t, e) ↦
      ground (arith, e, insert_at_found-some s e, replace_double_underscore-spaced fuel t)
]

pub pairs-spaced : (s : Bytes) → pairs (spaced s) ≡ 0
unfolding pairs spaced
pairs-spaced [] = refl
pairs-spaced (c ∷ []) = refl
pairs-spaced (c ∷ d ∷ s) = ground (arith, pairs-spaced (d ∷ s))

pub spaced-eq_self : (s : Bytes) → pairs s ≡ 0 → spaced s ≡ s
unfolding pairs spaced
spaced-eq_self [] h = refl
spaced-eq_self (c ∷ []) h = refl
spaced-eq_self (c ∷ d ∷ s) h = ground (arith, spaced-eq_self (d ∷ s))
