-- ===== src/Support.antt =====
-- hif2scSupport (src/hif2scSupport and include/hif2scSupport): the run-time library of the SystemC
-- code that hif2sc writes.
pub mod Uniform
pub mod Modulo
pub mod Parity
pub mod Readmem
pub mod After
pub mod LogicTextio
pub mod FileTable
pub mod FourState
pub mod StdLogic1164
pub mod VectorOps
pub mod Vectors
pub mod LastValue
pub mod Textio
