-- ===== src/Support/Vectors/Relations.antt =====
-- include/hif2scSupport/hif2scSupport/hif_systemc_extensions.i.hpp: the orders of vectors, signed and
-- unsigned.
use hif_backend.Prelude.{
  ◌≡◌, Bool, true, false, not, ◌||◌, List, if◌then◌else◌, arith, ap, ◌∙◌, sym,
}
use hif_backend.Prelude.Int.{ltb_ℤ}
use hif_backend.Support.FourState.{logic_0, logic_1, logic_x, level_char, FourState}
use hif_backend.Support.VectorOps.{level_not, VectorOps, IsVectorOps}
use hif_backend.Support.Vectors.{
  hif_op_lt_signed, hif_op_gt_signed, hif_op_le_signed, hif_op_ge_signed, hif_op_lt_unsigned,
  hif_op_gt_unsigned, hif_op_le_unsigned, hif_op_ge_unsigned,
}

module _ (F : FourState) (O : VectorOps F) where
  or_comm : (b c : Bool) → (b || c) ≡ (c || b)
  or_comm b c = ground arith

  module _ (good : IsVectorOps F O) where
    not-of_bool : (b : Bool) → O.not_logic (O.of_bool b) ≡ O.of_bool (not b)
    unfolding level_not
    not-of_bool true =
        ap O.not_logic good.of_bool-true ∙ good.not_logic-logic logic_1 ∙ sym good.of_bool-false
    not-of_bool false =
        ap O.not_logic good.of_bool-false ∙ good.not_logic-logic logic_0 ∙ sym good.of_bool-true

    not-choice :
        (b c : Bool)
        → O.not_logic (if b then F.of_char b'X' else O.of_bool c)
          ≡ (if b then F.of_char b'X' else O.of_bool (not c))
    unfolding level_not level_char
    not-choice true c = good.not_logic-logic logic_x
    not-choice false c = not-of_bool c

    -- In the signed and in the unsigned order, of operands known or not, "greater" is "less" with
    -- the operands exchanged, "greater or equal" is the negation of "less", and "less or equal" is
    -- that of "greater".
    relations-Consistent :
        (v w : List F.Logic)
        → (hif_op_gt_signed F O v w ≡ hif_op_lt_signed F O w v)
          × (hif_op_ge_signed F O v w ≡ O.not_logic (hif_op_lt_signed F O v w))
          × (hif_op_le_signed F O v w ≡ O.not_logic (hif_op_gt_signed F O v w))
          × (hif_op_gt_unsigned F O v w ≡ hif_op_lt_unsigned F O w v)
          × (hif_op_ge_unsigned F O v w ≡ O.not_logic (hif_op_lt_unsigned F O v w))
          × (hif_op_le_unsigned F O v w ≡ O.not_logic (hif_op_gt_unsigned F O v w))
    unfolding hif_op_lt_signed hif_op_gt_signed hif_op_le_signed hif_op_ge_signed hif_op_lt_unsigned
        hif_op_gt_unsigned hif_op_le_unsigned hif_op_ge_unsigned
    relations-Consistent v w =
        let either = not (O.vector_is_01 v) || not (O.vector_is_01 w) in
        let swapped = or_comm (not (O.vector_is_01 v)) (not (O.vector_is_01 w)) in
        (
          ap (λ b. if b then F.of_char b'X' else O.of_bool (ltb_ℤ (O.bigint w) (O.bigint v)))
              swapped,
          sym (not-choice either (ltb_ℤ (O.bigint v) (O.bigint w))),
          sym (not-choice either (ltb_ℤ (O.bigint w) (O.bigint v))),
          ap (λ b. if b then F.of_char b'X' else O.of_bool (ltb_ℤ (O.biguint w) (O.biguint v)))
              swapped,
          sym (not-choice either (ltb_ℤ (O.biguint v) (O.biguint w))),
          sym (not-choice either (ltb_ℤ (O.biguint w) (O.biguint v))),
        )
