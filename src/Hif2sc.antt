-- ===== src/Hif2sc.antt =====
-- hif2sc (src/hif2sc).
pub mod Expressions
pub mod ConflictingSubPrograms
