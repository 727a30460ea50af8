-- ===== src/Examples.antt =====
-- The theorems at concrete inputs, and runs of the modelled functions.
pub mod Arithmetic
pub mod Modular
pub mod Cosim
pub mod Sampling
pub mod Lattice
pub mod Harness
pub mod Interface
pub mod Simulator
pub mod Field
pub mod Cfi
