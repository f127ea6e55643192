-- ===== src/Bench.antt =====
-- timefence-core/src/bench.rs and timefence-core/src/csv.rs: the benchmark of the accumulator,
-- without the clock and the columns that are computed from it. `none` is a failed assertion.
pub mod Exact
pub mod Tests
use Prim.Native.Nat.{bit_xor}
use k_sentry.Prelude.{ℕ, zero, suc, ◌+◌, ◌*◌, ◌^◌, Option, none, some, ◌>>=◌, List, [], ◌∷◌}
use k_sentry.Field.{u128}
use k_sentry.KSentry.{ksentry_fast, digest}

pub record BenchResult : Type 0 where
  pub events : ℕ
  pub digest : ℕ

-- `for i in 0..n`; `left` elements are left, the first at index `i`.
unfoldable pub stream_loop : ℕ → ℕ → List ℕ
stream_loop i zero = []
stream_loop i (suc left) =
    bit_xor (u128 (u128 (i + 1) * 1_315_423_911)) (u128 (i * 2 ^ 7)) ∷ stream_loop (i + 1) left

unfoldable pub generate_stream : ℕ → List ℕ
generate_stream n = stream_loop 0 n

unfoldable pub benchmark_ksentry : ℕ → ℕ → ℕ → Option BenchResult
benchmark_ksentry n q p = do
  st ← ksentry_fast (generate_stream n) q p
  some (record { events = n; digest = digest st })

-- The loop of `write_benchmark_csv` over the sizes.
unfoldable pub csv_results : List ℕ → ℕ → ℕ → Option (List BenchResult)
csv_results [] q p = some []
csv_results (n ∷ sizes) q p = do
  result ← benchmark_ksentry n q p
  results ← csv_results sizes q p
  some (result ∷ results)

unfoldable pub benchmark_results : ℕ → ℕ → Option (List BenchResult)
benchmark_results q p = csv_results (1_000 ∷ 10_000 ∷ 100_000 ∷ 1_000_000 ∷ []) q p
