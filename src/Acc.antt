-- ===== src/Acc.antt =====
-- acc/acc.go and acc/muti_level_acc.go.
pub mod HashToPrime
pub mod Accumulator
pub mod Chain
pub mod Tree
pub mod Manager
