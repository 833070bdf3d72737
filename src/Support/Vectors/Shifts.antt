-- ===== src/Support/Vectors/Shifts.antt =====
-- include/hif2scSupport/hif2scSupport/hif_systemc_extensions.i.hpp: the arithmetic shift to the
-- right, which writes the sign over the lowest indices.
use hif_backend.Prelude.{
  ℕ, zero, suc, ◌-◌, ◌≤◌, ◌≡◌, refl, sym, ap, ◌∙◌, true, List, [], ◌∷◌, ◌++◌, some, length,
  length-append, replicate, append_assoc, some-inj, Bytes, ◌==◌, if◌then◌else◌, arith,
}
use hif_backend.Support.FourState.{logic_0, FourState, IsFourState}
use hif_backend.Support.VectorOps.{logic, drop, text_of, VectorOps, IsVectorOps}
use hif_backend.Support.Vectors.{at, last, put_at, fill, hif_op_shift_right_arith}
use hif_backend.Support.Vectors.Extension.{length-replicate}

module _ (F : FourState) where
  length-drop : (n : ℕ) (v : List F.Logic) → length (drop n v) ≡ length v - n
  length-drop zero v = omega arith
  length-drop (suc n) [] = omega arith
  length-drop (suc n) (x ∷ v) = omega (arith, length-drop n v)

  length-shifted :
      (n : ℕ) (v : List F.Logic)
      → n ≤ length v
      → n ≤ length (drop n v ++ replicate n (logic F logic_0))
  length-shifted n v le = omega (
    arith,
    length-append (drop n v) (replicate n (logic F logic_0)),
    length-replicate n (logic F logic_0),
  )

  of_char-to_char : IsFourState F → (v : F.Logic) → F.of_char (F.to_char v) ≡ v
  of_char-to_char good v = let (l, e) = good.levels v in rw (e, good.to_char-of_char l) refl

module _ (F : FourState) (O : VectorOps F) where
  put_at-append :
      (v w : List F.Logic) (x y : F.Logic) → put_at (v ++ x ∷ w) (length v) y ≡ some (v ++ y ∷ w)
  unfolding put_at
  put_at-append [] w x y = refl
  put_at-append (z ∷ v) w x y = rw (put_at-append v w x y) refl

  -- The loop writes the sign over the next indices.
  fill_lem :
      (n i : ℕ) (v w : List F.Logic) (sign : F.Logic)
      → i ≡ length v
      → n ≤ length w
      → fill F O n i sign (v ++ w) ≡ some (v ++ (replicate n sign ++ drop n w))
  unfolding fill
  fill_lem zero i v w sign e le = refl
  fill_lem (suc n) i v [] sign e le =
      let no : suc n ≤ 0 = le in let absurd : ⊥ = omega (arith, no) in elim absurd [ ]
  fill_lem (suc n) i v (x ∷ w) sign e le =
      let next : suc i ≡ length (v ++ sign ∷ []) = omega (arith, e, length-append v (sign ∷ [])) in
      rw (e, put_at-append v w x sign)
        (rw (sym e) (
          ap (fill F O n (suc i) sign) (sym (append_assoc v (sign ∷ []) w))
          ∙ fill_lem n (suc i) (v ++ sign ∷ []) w sign next (omega (arith, le))
          ∙ ap some (append_assoc v (sign ∷ []) (replicate n sign ++ drop n w))))

  at-append_first : (s t : Bytes) (c : ℕ) → at s 0 ≡ some c → at (s ++ t) 0 ≡ some c
  at-append_first [] t c h = cc
  at-append_first (d ∷ s) t c h = h

  -- The first character is that of the last value.
  at-text_of :
      (v : List F.Logic) (top : F.Logic)
      → last v ≡ some top
      → at (text_of F v) 0 ≡ some (F.to_char top)
  at-text_of [] top h = cc
  at-text_of (x ∷ []) top h = ap (λ y. some (F.to_char y)) (some-inj x top h)
  at-text_of (x ∷ y ∷ v) top h =
      at-append_first (text_of F (y ∷ v)) (F.to_char x ∷ []) (F.to_char top)
        (at-text_of (y ∷ v) top h)

  -- The arithmetic shift of a vector that is not empty by a known number that its length is not
  -- below: a vector whose last value is 0 is shifted to the right as SystemC does, and that of any
  -- other is shifted and then has its last value at that many of the lowest indices, not of the
  -- highest ones.
  pub hif_op_shift_right_arith-fill :
      IsFourState F
      → IsVectorOps F O
      → (v amount : List F.Logic) (top : F.Logic) → last v ≡ some top
      → O.vector_is_01 amount ≡ true
      → O.to_uint64 amount ≤ length v
      → let n = O.to_uint64 amount in
        let shifted = drop n v ++ replicate n (logic F logic_0) in
        hif_op_shift_right_arith F O v amount
        ≡ some (if F.to_char top == b'0' then shifted else replicate n top ++ drop n shifted)
  unfolding hif_op_shift_right_arith
  hif_op_shift_right_arith-fill good_logic good v amount top h known le =
      let n = O.to_uint64 amount in
      let shifted = drop n v ++ replicate n (logic F logic_0) in
      let filled = fill_lem n 0 [] shifted top refl (length-shifted F n v le) in
      rw
        (
          known,
          good.to_string_lem v,
          at-text_of v top h,
          good.shift_right_lem v n le,
          of_char-to_char F good_logic top,
        )
        (ground (arith, filled))
