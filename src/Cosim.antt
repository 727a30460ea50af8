-- ===== src/Cosim.antt =====
-- riscv/proofs/cosim_runner.c, the monitor that runs instruction sequences for the RV32IM
-- cosimulation tests and answers over a line protocol.
pub mod Text
pub mod Reply
pub mod Monitor
