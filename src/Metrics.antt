-- ===== src/Metrics.antt =====
-- ksentry-metrics/src/main.rs: the accumulator with square exponents over `u64`, the comparison of
-- two logs, and the program's self-checks.
pub mod Arith
pub mod Sentry
pub mod Mismatch
pub mod Checks
mod Tests
