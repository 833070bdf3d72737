-- ===== src/Examples.antt =====
-- Tests, and the theorems at concrete inputs.
mod Clocked
mod Names
mod Numbers
mod Loads
mod Delayed
mod Texts
mod Files
mod Logic
mod Expressions
mod Overloads
mod Sensitive
mod Loops
mod Vectors
mod Passes
mod Suspended
mod Lines
mod VerilogOperators
mod VhdlOperators
mod Ranges
