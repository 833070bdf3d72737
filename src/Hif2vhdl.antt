-- ===== src/Hif2vhdl.antt =====
-- hif2vhdl (src/hif2vhdl).
pub mod IdentifierNames
pub mod ReadOutPorts
pub mod Sensitivity
pub mod Expressions
pub mod ForRanges
