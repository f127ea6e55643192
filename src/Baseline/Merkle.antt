-- ===== src/Baseline/Merkle.antt =====
-- The Merkle root of timefence-core/baseline.rs.
pub mod Total
pub mod Binding
pub mod Forged
