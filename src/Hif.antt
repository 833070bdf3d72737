-- ===== src/Hif.antt =====
-- What several models share of the trees of hif-core, include/hif of that library.
pub mod Grammar

pub data Direction : Type 0 where
  dir_in dir_out dir_inout dir_none : Direction

-- The operators of expressions.
pub data Operator : Type 0 where
  op_none op_or op_bor op_and op_band op_xor op_bxor op_not op_bnot : Operator
  op_eq op_neq op_case_eq op_case_neq op_le op_ge op_lt op_gt : Operator
  op_sll op_srl op_sla op_sra op_rol op_ror op_plus op_minus op_mult op_div : Operator
  op_mod op_rem op_pow op_abs op_concat op_ref op_deref op_andrd op_orrd op_xorrd : Operator
  op_assign op_conv op_bind op_log op_reverse op_size : Operator
