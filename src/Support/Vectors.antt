-- ===== src/Support/Vectors.antt =====
-- include/hif2scSupport/hif2scSupport/hif_systemc_extensions.i.hpp: the operations on vectors of
-- logic values that SystemC does not have. `none` stands for an access out of range.
pub mod Extension
pub mod Equality
pub mod LogicEquals
pub mod Shifts
pub mod Relations
use hif_backend.Prelude.{
  ℕ, zero, suc, ◌+◌, ◌-◌, Bool, true, false, ◌&&◌, ◌||◌, not, List, [], ◌∷◌, ◌++◌, Option, none,
  some, Bytes, length, ltb, leb, ◌==◌, ◌>>=◌, if◌then◌else◌,
}
use hif_backend.Prelude.Int.{ltb_ℤ}
use hif_backend.Support.FourState.{FourState}
use hif_backend.Support.VectorOps.{VectorOps}

-- The loop `for (int i = arg.length(); i < size2; ++i)`, which runs this often.
unfoldable pub prepend : ℕ → ℕ → Bytes → Bytes
prepend zero c s = s
prepend (suc n) c s = prepend n c (c ∷ s)

-- The value at an index; the one at the last index of an empty vector is none.
abbrev pub at : {A : Type 0} → List A → ℕ → Option A
at [] n = none
at (x ∷ xs) zero = some x
at (x ∷ xs) (suc n) = at xs n

abbrev pub last : {A : Type 0} → List A → Option A
last [] = none
last (x ∷ xs) = at (x ∷ xs) (length xs)

-- `a[i] = x`.
unfoldable pub put_at : {A : Type 0} → List A → ℕ → A → Option (List A)
put_at [] n x = none
put_at (y ∷ ys) zero x = some (x ∷ ys)
put_at (y ∷ ys) (suc n) x = do rest ← put_at ys n x; some (y ∷ rest)

-- Whether two characters match in a case statement; `x_matches` is param3, set for casex.
unfoldable pub chars_match : Bool → ℕ → ℕ → Bool
chars_match x_matches c d =
    c == d || (c == b'Z' || d == b'Z') || (x_matches && (c == b'X' || d == b'X'))

-- The loop of hif_caseXZ; s2[i] for the texts of two vectors of one length.
unfoldable pub texts_match : Bool → Bytes → Bytes → Option Bool
texts_match x_matches [] t = some true
texts_match x_matches (c ∷ s) [] = none
texts_match x_matches (c ∷ s) (d ∷ t) =
    let rest = texts_match x_matches s t in if chars_match x_matches c d then rest else some false

unfoldable pub max : ℕ → ℕ → ℕ
max a b = if ltb b a then a else b

module _ (F : FourState) (O : VectorOps F) where
  unfoldable pub hif_sxt : ℕ → List F.Logic → Option (List F.Logic)
  hif_sxt size2 arg =
      if size2 == 0
      then some (O.fresh size2)
      else if leb size2 (length arg)
      then some (O.range arg size2)
      else do
        top ← last arg
        some (O.of_string size2 (prepend (size2 - length arg) (F.to_char top) (O.to_string arg)))

  -- One operand at the common length: l1 or l2 of hif_logicEquals and hif_caseXZ.
  unfoldable pub extend : ℕ → Bool → List F.Logic → Option (List F.Logic)
  extend size sign param =
      if sign
      then (if not (length param == size) then hif_sxt size param else some param)
      else some (O.widen size param)

  unfoldable pub hif_logic_equals : List F.Logic → List F.Logic → Bool → Option F.Logic
  hif_logic_equals param1 param2 sign = do
    l1 ← extend (max (length param1) (length param2)) sign param1
    l2 ← extend (max (length param1) (length param2)) sign param2
    some (
        if O.vector_is_01 param1 && O.vector_is_01 param2
        then O.of_bool (O.vector_eq l1 l2)
        else O.not_logic (O.or_reduce (O.vector_xor l1 l2)))

  unfoldable pub hif_case_xz : List F.Logic → List F.Logic → Bool → Bool → Option Bool
  hif_case_xz param1 param2 param3 sign = do
    l1 ← extend (max (length param1) (length param2)) sign param1
    l2 ← extend (max (length param1) (length param2)) sign param2
    texts_match param3 (O.to_string l1) (O.to_string l2)

  unfoldable pub hif_op_shift_left : List F.Logic → List F.Logic → List F.Logic
  hif_op_shift_left param1 param2 =
      if not (O.vector_is_01 param2)
      then O.fresh (length param1)
      else O.shift_left param1 (O.to_uint64 param2)

  -- The loop that writes the sign: the indices below i, of those that are left the lowest first.
  unfoldable pub fill : ℕ → ℕ → F.Logic → List F.Logic → Option (List F.Logic)
  fill zero i sign v = some v
  fill (suc n) i sign v = do next ← put_at v i sign; fill n (suc i) sign next

  unfoldable pub hif_op_shift_right_arith : List F.Logic → List F.Logic → Option (List F.Logic)
  hif_op_shift_right_arith param1 param2 =
      if not (O.vector_is_01 param2) then some (O.fresh (length param1)) else do
        sign ← at (O.to_string param1) 0
        let shifted = O.shift_right param1 (O.to_uint64 param2) in
            if sign == b'0'
            then some shifted
            else fill (O.to_uint64 param2) 0 (F.of_char sign) shifted

  unfoldable pub hif_op_shift_right_logic : List F.Logic → List F.Logic → List F.Logic
  hif_op_shift_right_logic param1 param2 =
      if not (O.vector_is_01 param2)
      then O.fresh (length param1)
      else O.shift_right param1 (O.to_uint64 param2)

  unfoldable pub hif_op_lt_signed : List F.Logic → List F.Logic → F.Logic
  hif_op_lt_signed v1 v2 =
      if not (O.vector_is_01 v1) || not (O.vector_is_01 v2)
      then F.of_char b'X'
      else O.of_bool (ltb_ℤ (O.bigint v1) (O.bigint v2))

  unfoldable pub hif_op_gt_signed : List F.Logic → List F.Logic → F.Logic
  hif_op_gt_signed v1 v2 =
      if not (O.vector_is_01 v1) || not (O.vector_is_01 v2)
      then F.of_char b'X'
      else O.of_bool (ltb_ℤ (O.bigint v2) (O.bigint v1))

  unfoldable pub hif_op_le_signed : List F.Logic → List F.Logic → F.Logic
  hif_op_le_signed v1 v2 =
      if not (O.vector_is_01 v1) || not (O.vector_is_01 v2)
      then F.of_char b'X'
      else O.of_bool (not (ltb_ℤ (O.bigint v2) (O.bigint v1)))

  unfoldable pub hif_op_ge_signed : List F.Logic → List F.Logic → F.Logic
  hif_op_ge_signed v1 v2 =
      if not (O.vector_is_01 v1) || not (O.vector_is_01 v2)
      then F.of_char b'X'
      else O.of_bool (not (ltb_ℤ (O.bigint v1) (O.bigint v2)))

  unfoldable pub hif_op_lt_unsigned : List F.Logic → List F.Logic → F.Logic
  hif_op_lt_unsigned v1 v2 =
      if not (O.vector_is_01 v1) || not (O.vector_is_01 v2)
      then F.of_char b'X'
      else O.of_bool (ltb_ℤ (O.biguint v1) (O.biguint v2))

  unfoldable pub hif_op_gt_unsigned : List F.Logic → List F.Logic → F.Logic
  hif_op_gt_unsigned v1 v2 =
      if not (O.vector_is_01 v1) || not (O.vector_is_01 v2)
      then F.of_char b'X'
      else O.of_bool (ltb_ℤ (O.biguint v2) (O.biguint v1))

  unfoldable pub hif_op_le_unsigned : List F.Logic → List F.Logic → F.Logic
  hif_op_le_unsigned v1 v2 =
      if not (O.vector_is_01 v1) || not (O.vector_is_01 v2)
      then F.of_char b'X'
      else O.of_bool (not (ltb_ℤ (O.biguint v2) (O.biguint v1)))

  unfoldable pub hif_op_ge_unsigned : List F.Logic → List F.Logic → F.Logic
  hif_op_ge_unsigned v1 v2 =
      if not (O.vector_is_01 v1) || not (O.vector_is_01 v2)
      then F.of_char b'X'
      else O.of_bool (not (ltb_ℤ (O.biguint v1) (O.biguint v2)))
