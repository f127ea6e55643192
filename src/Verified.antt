-- ===== src/Verified.antt =====
-- proofs/finaltest_timefence_core_verified.rs: the Verus development of the repository, its
-- specification functions and its executable functions, as they are written there.
pub mod Spec
pub mod Difference
pub mod Encoding
pub mod Exec
pub mod Exponents
pub mod Collision
pub mod Mismatch
pub mod Prefix
pub mod Ranges
pub mod Rebase
pub mod Tests
