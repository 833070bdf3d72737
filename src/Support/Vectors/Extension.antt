-- ===== src/Support/Vectors/Extension.antt =====
-- include/hif2scSupport/hif2scSupport/hif_systemc_extensions.i.hpp: the sign extension of a vector,
-- and its operands brought to one length.
use mathlib.Core.Path.{subst}
use native.Mathlib.Nat.{two-pow-succ, mul-add}
use hif_backend.Prelude.{
  ℕ, zero, suc, ◌+◌, ◌-◌, ◌*◌, ◌^◌, ◌≤◌, ◌<◌, false, some-inj, ◌≡◌, refl, sym, ap, ◌∙◌, List, [],
  ◌∷◌, ◌++◌, some, Bytes, length, length-append, replicate, leb, ◌==◌, if◌then◌else◌, append_assoc,
  append-nil, arith, Bool-cases, inl, inr, leb→le,
}
use hif_backend.Prelude.Int.{ℤ, sub_ℕ}
use hif_backend.Support.FourState.{FourState}
use hif_backend.Support.VectorOps.{take, text_of, VectorOps, IsVectorOps}
use hif_backend.Support.Vectors.{prepend, at, last, hif_sxt}

module _ {A : Type 0} where
  replicate-snoc : (k : ℕ) (x : A) → replicate k x ++ x ∷ [] ≡ x ∷ replicate k x
  replicate-snoc zero x = refl
  replicate-snoc (suc k) x = ap (λ t. x ∷ t) (replicate-snoc k x)

  pub length-replicate : (k : ℕ) (x : A) → length (replicate k x) ≡ k
  length-replicate zero x = refl
  length-replicate (suc k) x = omega (arith, length-replicate k x)

  at-append : (v w : List A) (i : ℕ) → at (v ++ w) (length v + i) ≡ at w i
  at-append [] w i = ap (at w) (omega arith)
  at-append (x ∷ v) w i =
      let e : suc (length v) + i ≡ suc (length v + i) = omega arith in
      ap (at (x ∷ (v ++ w))) e ∙ at-append v w i

  at-replicate : (k : ℕ) (x : A) → at (replicate (suc k) x) k ≡ some x
  at-replicate zero x = refl
  at-replicate (suc k) x = at-replicate k x

  last-append : (v w : List A) (x : A) → last (v ++ x ∷ w) ≡ last (x ∷ w)
  last-append [] w x = refl
  last-append (y ∷ v) w x =
      rw (length-append v (x ∷ w))
        (ap (at (y ∷ (v ++ x ∷ w))) (omega arith) ∙ at-append (y ∷ v) (x ∷ w) (length w))

  pub last-append_replicate :
      (k : ℕ) (x : A) (v : List A) → last v ≡ some x → last (v ++ replicate k x) ≡ some x
  last-append_replicate zero x v h = ap last (append-nil v) ∙ h
  last-append_replicate (suc k) x v h =
      last-append v (replicate k x) x
      ∙ ap (at (x ∷ replicate k x)) (length-replicate k x)
      ∙ at-replicate k x

  take-length : (v : List A) → take (length v) v ≡ v
  take-length [] = refl
  take-length (x ∷ v) = ap (λ t. x ∷ t) (take-length v)

  replicate-move : (k : ℕ) (c : A) (s : List A) → replicate k c ++ c ∷ s ≡ c ∷ (replicate k c ++ s)
  replicate-move zero c s = refl
  replicate-move (suc k) c s = ap (λ t. c ∷ t) (replicate-move k c s)

prepend_lem : (k c : ℕ) (s : Bytes) → prepend k c s ≡ replicate k c ++ s
unfolding prepend
prepend_lem zero c s = refl
prepend_lem (suc k) c s = prepend_lem k c (c ∷ s) ∙ replicate-move k c s

sub_ℕ-eq : (a b c d : ℕ) → a + d ≡ c + b → sub_ℕ a b ≡ sub_ℕ c d
sub_ℕ-eq a b c d h = ground arith

mul_two_pow : (b n : ℕ) → b * 2 ^ suc n ≡ 2 * (b * 2 ^ n)
mul_two_pow b n = rw (two-pow-succ n) (grind arith)

two_pow_mul : (n b : ℕ) → 2 ^ suc n * b ≡ 2 * (2 ^ n * b)
two_pow_mul n b = rw (two-pow-succ n) (grind arith)

two_pow_add : (m n : ℕ) → 2 ^ (m + n) ≡ 2 ^ m * 2 ^ n
two_pow_add zero n = let e : 0 + n ≡ n = omega arith in ap (λ k. 2 ^ k) e ∙ omega arith
two_pow_add (suc m) n =
    let e : suc m + n ≡ suc (m + n) = omega arith in
    ap (λ k. 2 ^ k) e ∙ two-pow-succ (m + n) ∙ omega (arith, two_pow_add m n, two_pow_mul m (2 ^ n))

extended_value : (u r b p q : ℕ) → r + b ≡ b * q → u + p * r + b * p ≡ u + b * (p * q)
extended_value u r b p q h = grind (arith, mul-add p r b, h)

not-leb : (a b : ℕ) → leb a b ≡ false → b < a
not-leb a b h = ground arith

module _ (F : FourState) where
  text_of-replicate : (k : ℕ) (x : F.Logic) → text_of F (replicate k x) ≡ replicate k (F.to_char x)
  text_of-replicate zero x = refl
  text_of-replicate (suc k) x = rw (text_of-replicate k x) (replicate-snoc k (F.to_char x))

  pub text_of-append :
      (v : List F.Logic) (w : List F.Logic) → text_of F (v ++ w) ≡ text_of F w ++ text_of F v
  text_of-append [] w = sym (append-nil (text_of F w))
  text_of-append (x ∷ v) w =
      rw (text_of-append v w) (append_assoc (text_of F w) (text_of F v) (F.to_char x ∷ []))

  -- What a vector of known bits stands for, unsigned and in two's complement.
  abbrev pub bit : F.Logic → ℕ
  bit v = if F.to_char v == b'1' then 1 else 0

  abbrev pub unsigned : List F.Logic → ℕ
  unsigned [] = 0
  unsigned (v ∷ s) = bit v + 2 * unsigned s

  abbrev pub signed : List F.Logic → F.Logic → ℤ
  signed s top = sub_ℕ (unsigned s) (bit top * 2 ^ length s)

  unsigned-replicate : (x : F.Logic) (k : ℕ) → unsigned (replicate k x) + bit x ≡ bit x * 2 ^ k
  unsigned-replicate x zero = omega arith
  unsigned-replicate x (suc k) = omega (arith, unsigned-replicate x k, mul_two_pow (bit x) k)

  unsigned-append :
      (s t : List F.Logic) → unsigned (s ++ t) ≡ unsigned s + 2 ^ length s * unsigned t
  unsigned-append [] t = omega arith
  unsigned-append (y ∷ s) t =
      omega (arith, unsigned-append s t, two_pow_mul (length s) (unsigned t))

  unsigned-extended :
      (s : List F.Logic) (x : F.Logic) (k : ℕ)
      → unsigned (s ++ replicate k x) + bit x * 2 ^ length s
        ≡ unsigned s + bit x * 2 ^ (length s + k)
  unsigned-extended s x k =
      rw (unsigned-append s (replicate k x), two_pow_add (length s) k)
        (extended_value (unsigned s) (unsigned (replicate k x)) (bit x) (2 ^ length s) (2 ^ k)
          (unsigned-replicate x k))

  extended_signed :
      (v : List F.Logic) (top : F.Logic) (n : ℕ)
      → length v ≤ n
      → length (v ++ replicate (n - length v) top) ≡ n
      → unsigned (v ++ replicate (n - length v) top) + bit top * 2 ^ length v
        ≡ unsigned v + bit top * 2 ^ length (v ++ replicate (n - length v) top)
  extended_signed v top n le long =
      unsigned-extended v top (n - length v)
      ∙ ap (λ m. unsigned v + bit top * 2 ^ m) (omega (arith, long))

  twice :
      (u : List F.Logic) (x : F.Logic) (j : ℕ)
      → (u ++ x ∷ []) ++ replicate (suc j) x ≡ ((u ++ replicate j x) ++ x ∷ []) ++ x ∷ []
  twice (y ∷ u) x j = ap (λ t. y ∷ t) (twice u x j)
  twice [] x zero = refl
  twice [] x (suc j) = ap (λ t. x ∷ t) (twice [] x j)

  last-split :
      (v : List F.Logic) (x : F.Logic) → last v ≡ some x → (u : List F.Logic) × (v ≡ u ++ x ∷ [])
  last-split [] x h = cc
  last-split (y ∷ []) x h = ([], ap (λ t. t ∷ []) (some-inj y x h))
  last-split (y ∷ z ∷ v) x h = let (u, e) = last-split (z ∷ v) x h in (y ∷ u, ap (λ t. y ∷ t) e)

  module _ (O : VectorOps F) (good : IsVectorOps F O) where
    of_string-extended :
        (v : List F.Logic) (top : F.Logic) (j : ℕ)
        → last v ≡ some top
        → let w = v ++ replicate (suc j) top in O.of_string (length w) (text_of F w) ≡ w
    of_string-extended v top j h =
        let (u, e) = last-split v top h in
        let whole : v ++ replicate (suc j) top ≡ ((u ++ replicate j top) ++ top ∷ []) ++ top ∷ [] =
          ap (λ t. t ++ replicate (suc j) top) e ∙ twice u top j in
        subst (λ w. O.of_string (length w) (text_of F w) ≡ w) (sym whole)
          (good.of_string-text_of (u ++ replicate j top) top)

    of_string-padded :
        (v : List F.Logic) (top : F.Logic) (k : ℕ)
        → last v ≡ some top
        → 0 < k
        → let w = v ++ replicate k top in O.of_string (length w) (text_of F w) ≡ w
    of_string-padded v top zero h more = let wrong : ⊥ = omega (arith, more) in absurd wrong
    of_string-padded v top (suc j) h more = of_string-extended v top j h

    padded :
        (v : List F.Logic) (top : F.Logic) (n : ℕ)
        → last v ≡ some top
        → length v < n
        → length (v ++ replicate (n - length v) top) ≡ n
        → O.of_string n (prepend (n - length v) (F.to_char top) (O.to_string v))
          ≡ v ++ replicate (n - length v) top
    padded v top n h more long =
        let w = v ++ replicate (n - length v) top in
        rw (good.to_string_lem v, prepend_lem (n - length v) (F.to_char top) (text_of F v))
          (ap (λ t. O.of_string n (t ++ text_of F v)) (sym (text_of-replicate (n - length v) top))
            ∙ ap (O.of_string n) (sym (text_of-append v (replicate (n - length v) top)))
            ∙ ap (λ m. O.of_string m (text_of F w)) (sym long)
            ∙ of_string-padded v top (n - length v) h (omega (arith, more)))

    kept :
        (v : List F.Logic) (top : F.Logic) (n : ℕ)
        → n ≡ length v
        → O.range v n ≡ v ++ replicate (n - length v) top
    kept v top n e =
        let none_added : 0 ≡ n - length v = omega (arith, e) in
        good.range_lem v n (omega (arith, e))
        ∙ rw e (take-length v)
        ∙ sym (append-nil v)
        ∙ ap (λ k. v ++ replicate k top) none_added

    pub hif_sxt_lem :
        (v : List F.Logic) (top : F.Logic) (n : ℕ)
        → last v ≡ some top
        → length v ≤ n
        → length (v ++ replicate (n - length v) top) ≡ n
        → hif_sxt F O n v ≡ some (v ++ replicate (n - length v) top)
    unfolding hif_sxt
    hif_sxt_lem [] top n h le long = cc
    hif_sxt_lem (x ∷ v) top n h le long = elim (Bool-cases (leb n (length (x ∷ v)))) [
      | inl short ↦
          ground (arith, kept (x ∷ v) top n (omega (arith, leb→le n (length (x ∷ v)) short)))
      | inr longer ↦
          ground (arith, h, padded (x ∷ v) top n h (not-leb n (length (x ∷ v)) longer) long)
    ]

  -- The extension of a vector that is not empty to a length that is not lower repeats its last
  -- value, which is the last one again, and keeps what its bits stand for in two's complement.
  pub hif_sxt-signed :
      (O : VectorOps F)
      → IsVectorOps F O
      → (v : List F.Logic) (top : F.Logic) (n : ℕ) → last v ≡ some top
      → length v ≤ n
      → let w = v ++ replicate (n - length v) top in
        (hif_sxt F O n v ≡ some w)
        × (length w ≡ n)
        × (last w ≡ some top)
        × (signed w top ≡ signed v top)
  unfolding hif_sxt
  hif_sxt-signed O good v top n h le =
      let k = n - length v in
      let long : length (v ++ replicate k top) ≡ n =
        length-append v (replicate k top)
        ∙ ap (λ m. length v + m) (length-replicate k top)
        ∙ omega arith in
      (
        hif_sxt_lem O good v top n h le long,
        long,
        last-append_replicate k top v h,
        sub_ℕ-eq _ _ _ _ (extended_signed v top n le long),
      )
