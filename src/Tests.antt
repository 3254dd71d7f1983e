-- ===== src/Tests.antt =====
-- Concrete runs, and the theorems at concrete inputs.
mod Toy
mod Accumulator
mod Expander
mod Verify
mod Mht
mod Commits
mod Prover
