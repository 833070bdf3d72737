-- ===== src/Hif2verilog.antt =====
-- hif2verilog (src/hif2verilog).
pub mod ClockedProcess
pub mod Literals
pub mod Timescale
pub mod InoutPorts
pub mod ForIndices
pub mod ContinuousDrivers
pub mod Waits
pub mod Expressions
