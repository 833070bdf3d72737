-- ===== src/Support/Vectors/LogicEquals.antt =====
-- include/hif2scSupport/hif2scSupport/hif_systemc_extensions.i.hpp: the logical equality of two
-- vectors of any two lengths.
use hif_backend.Prelude.{
  ℕ, zero, suc, ◌-◌, ◌≡◌, refl, sym, ap, ◌∙◌, Bool, true, false, ◌&&◌, ◌||◌, not, List, [], ◌∷◌,
  ◌++◌, some, length, replicate, some-inj, ◌==◌, if◌then◌else◌, arith, zero-ne-suc, Bool-cases, inl,
  inr,
}
use hif_backend.Support.FourState.{
  Level, logic_0, logic_1, logic_x, level_char, is_binary, FourState, IsFourState,
}
use hif_backend.Support.VectorOps.{
  logic, all, level_xor, level_or, level_not, VectorOps, IsVectorOps,
}
use hif_backend.Support.Vectors.{last, max, hif_logic_equals}
use hif_backend.Support.Vectors.Equality.{
  padded, length-padded, extend_lem, le-max_left, le-max_right,
}

abbrev pub is_known : ℕ → Bool
is_known c = c == b'0' || c == b'1'

-- What an equality answers if the operands differ in a known bit and if they agree in all bits.
abbrev pub answer : Bool → Bool → Level
answer differs agrees = if differs then logic_0 else if agrees then logic_1 else logic_x

-- What the reduction of the differences is then.
abbrev reduced : Bool → Bool → Level
reduced differs agrees = if differs then logic_1 else if agrees then logic_0 else logic_x

level_not-reduced : (b c : Bool) → level_not (reduced b c) ≡ answer b c
unfolding level_not
level_not-reduced b c = ground arith

reduced_step :
    (l m : Level) (differs agrees : Bool)
    → level_or (level_xor l m) (reduced differs agrees)
      ≡ reduced
          ((is_known (level_char l)
              && is_known (level_char m)
              && not (level_char l == level_char m))
            || differs)
          ((is_known (level_char l) && level_char l == level_char m) && agrees)
unfolding level_or level_xor level_char
reduced_step l m differs agrees = ground arith

rest_all : (b c : Bool) → (elim b [ true ↦ c | false ↦ false ]) ≡ true → c ≡ true
rest_all b c h = ground arith

module _ (F : FourState) where
  -- At some index the two vectors have two different bits.
  abbrev pub differ : List F.Logic → List F.Logic → Bool
  differ [] w = false
  differ (a ∷ v) [] = false
  differ (a ∷ v) (b ∷ w) =
      (is_known (F.to_char a) && is_known (F.to_char b) && not (F.to_char a == F.to_char b))
      || differ v w

  -- At every index they have the same bit.
  abbrev pub agree : List F.Logic → List F.Logic → Bool
  agree [] w = true
  agree (a ∷ v) [] = true
  agree (a ∷ v) (b ∷ w) = (is_known (F.to_char a) && F.to_char a == F.to_char b) && agree v w

  module _ (good_logic : IsFourState F) (O : VectorOps F) (good : IsVectorOps F O) where
    or_reduce-vector_xor :
        (v w : List F.Logic)
        → length v ≡ length w
        → O.or_reduce (O.vector_xor v w) ≡ logic F (reduced (differ v w) (agree v w))
    unfolding level_char
    or_reduce-vector_xor [] [] e = ap O.or_reduce good.vector_xor-nil ∙ good.or_reduce-nil
    or_reduce-vector_xor [] (b ∷ w) e = zero-ne-suc (length w) e
    or_reduce-vector_xor (a ∷ v) [] e = zero-ne-suc (length v) (sym e)
    or_reduce-vector_xor (a ∷ v) (b ∷ w) e =
        let (l, el) = good_logic.levels a in
        let (m, em) = good_logic.levels b in
        let rest = or_reduce-vector_xor v w (omega (arith, e)) in
        rw
          (
            el,
            em,
            good.vector_xor-cons l m v w,
            good_logic.to_char-of_char l,
            good_logic.to_char-of_char m,
          )
          (good.or_reduce-cons (level_xor l m) _ (O.vector_xor v w) rest
            ∙ ap (logic F) (reduced_step l m (differ v w) (agree v w)))

    is_01-is_known : (a : F.Logic) → F.is_01 a ≡ is_known (F.to_char a)
    unfolding level_char is_binary
    is_01-is_known a =
        let (l, e) = good_logic.levels a in
        rw (e, good_logic.is_01-of_char l, good_logic.to_char-of_char l) (ground arith)

    to_char-inj : (a b : F.Logic) → F.to_char a ≡ F.to_char b → a ≡ b
    to_char-inj a b e =
        let (l, el) = good_logic.levels a in
        let (m, em) = good_logic.levels b in
        let from_a : F.of_char (F.to_char a) ≡ a = rw (el, good_logic.to_char-of_char l) refl in
        let from_b : F.of_char (F.to_char b) ≡ b = rw (em, good_logic.to_char-of_char m) refl in
        sym from_a ∙ ap F.of_char e ∙ from_b

    differ-agree :
        (v w : List F.Logic)
        → length v ≡ length w
        → all F.is_01 v ≡ true
        → all F.is_01 w ≡ true
        → differ v w ≡ not (agree v w)
    differ-agree [] [] e hv hw = refl
    differ-agree [] (b ∷ w) e hv hw = zero-ne-suc (length w) e
    differ-agree (a ∷ v) [] e hv hw = zero-ne-suc (length v) (sym e)
    differ-agree (a ∷ v) (b ∷ w) e hv hw =
        ground (arith, e, is_01-is_known a, is_01-is_known b, differ-agree v w)

    agree→eq : (v w : List F.Logic) → length v ≡ length w → agree v w ≡ true → v ≡ w
    agree→eq [] [] e h = refl
    agree→eq [] (b ∷ w) e h = zero-ne-suc (length w) e
    agree→eq (a ∷ v) [] e h = zero-ne-suc (length v) (sym e)
    agree→eq (a ∷ v) (b ∷ w) e h = ground (arith, e, to_char-inj a b, agree→eq v w)

    agree_refl : (v : List F.Logic) → all F.is_01 v ≡ true → agree v v ≡ true
    agree_refl [] h = refl
    agree_refl (a ∷ v) h = ground (arith, is_01-is_known a, agree_refl v)

    of_bool-vector_eq :
        (v w : List F.Logic)
        → length v ≡ length w
        → all F.is_01 v ≡ true
        → all F.is_01 w ≡ true
        → O.of_bool (O.vector_eq v w) ≡ logic F (answer (differ v w) (agree v w))
    of_bool-vector_eq v w e hv hw =
        rw (differ-agree v w e hv hw) (elim (Bool-cases (O.vector_eq v w)) [
          | inl same ↦
              let equal = (good.vector_eq_iff v w).0 same in
              let agrees : agree v w ≡ true = rw (sym equal) (agree_refl v hv) in
              rw (same, agrees) good.of_bool-true
          | inr other ↦ elim (Bool-cases (agree v w)) [
            | inl agrees ↦ let same = (good.vector_eq_iff v w).1 (agree→eq v w e agrees) in cc
            | inr disagree ↦ rw (other, disagree) good.of_bool-false
          ]
        ])

    all-append_replicate :
        (v : List F.Logic) (k : ℕ) (x : F.Logic)
        → all F.is_01 v ≡ true
        → F.is_01 x ≡ true
        → all F.is_01 (v ++ replicate k x) ≡ true
    all-append_replicate [] zero x h g = refl
    all-append_replicate [] (suc k) x h g = ground (arith, all-append_replicate [] k x h g)
    all-append_replicate (a ∷ v) k x h g = ground (arith, all-append_replicate v k x)

    is_01-last :
        (v : List F.Logic) (top : F.Logic)
        → last v ≡ some top
        → all F.is_01 v ≡ true
        → F.is_01 top ≡ true
    is_01-last [] top h g = cc
    is_01-last (a ∷ []) top h g = let e = some-inj a top h in ground (arith, e)
    is_01-last (a ∷ b ∷ v) top h g = is_01-last (b ∷ v) top h (rest_all (F.is_01 a) _ g)

    is_01-padded :
        (n : ℕ) (sign : Bool) (v : List F.Logic) (top : F.Logic)
        → last v ≡ some top
        → all F.is_01 v ≡ true
        → all F.is_01 (padded F n sign v top) ≡ true
    unfolding is_binary
    is_01-padded n true v top h g =
        all-append_replicate v (n - length v) top g (is_01-last v top h g)
    is_01-padded n false v top h g =
        all-append_replicate v (n - length v) (logic F logic_0) g (good_logic.is_01-of_char logic_0)

    -- The logical equality of two vectors that are not empty, of any two lengths, the shorter one
    -- extended, with its last value if the operands are signed and with zeros if not, is 0 if at
    -- some index they have two different bits, 1 if at each index they have the same bit, and else
    -- unknown.
    pub hif_logic_equals-answer :
        (v w : List F.Logic) (top_v top_w : F.Logic) (sign : Bool)
        → last v ≡ some top_v
        → last w ≡ some top_w
        → let n = max (length v) (length w) in
          let pv = padded F n sign v top_v in
          let pw = padded F n sign w top_w in
          hif_logic_equals F O v w sign ≡ some (logic F (answer (differ pv pw) (agree pv pw)))
    unfolding hif_logic_equals
    hif_logic_equals-answer v w top_v top_w sign hv hw =
        let n = max (length v) (length w) in
        let pv = padded F n sign v top_v in
        let pw = padded F n sign w top_w in
        let long_v = length-padded F n sign v top_v (le-max_left v w) in
        let long_w = length-padded F n sign w top_w (le-max_right v w) in
        let by_bits : O.not_logic (O.or_reduce (O.vector_xor pv pw))
            ≡ logic F (answer (differ pv pw) (agree pv pw)) =
          ap O.not_logic (or_reduce-vector_xor pv pw (long_v ∙ sym long_w))
          ∙ good.not_logic-logic (reduced (differ pv pw) (agree pv pw))
          ∙ ap (logic F) (level_not-reduced (differ pv pw) (agree pv pw)) in
        rw
          (
            extend_lem F O good n sign v top_v hv (le-max_left v w),
            extend_lem F O good n sign w top_w hw (le-max_right v w),
          )
          (elim (Bool-cases (O.vector_is_01 v)) [
            | inr unknown_v ↦ rw unknown_v (ap some by_bits)
            | inl known_v ↦ elim (Bool-cases (O.vector_is_01 w)) [
              | inr unknown_w ↦ rw (known_v, unknown_w) (ap some by_bits)
              | inl known_w ↦
                  rw (known_v, known_w)
                    (ap some (
                      of_bool-vector_eq pv pw (long_v ∙ sym long_w)
                        (is_01-padded n sign v top_v hv (sym (good.vector_is_01_lem v) ∙ known_v))
                        (is_01-padded n sign w top_w hw (sym (good.vector_is_01_lem w) ∙ known_w))))
            ]
          ])
