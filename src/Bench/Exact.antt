-- ===== src/Bench/Exact.antt =====
-- The results of the benchmark in timefence-core/src/bench.rs and timefence-core/src/csv.rs.
use k_sentry.Prelude.{
  ℕ, zero, suc, ◌+◌, ◌^◌, ◌≤◌, ◌<◌, ◌≡◌, refl, sym, ap, ap₂, ◌∙◌, arith, some, List, [], ◌∷◌, map,
  length, All,
}
use k_sentry.Field.{Fits}
use k_sentry.KSentry.{ksentry_spec, digest}
use k_sentry.KSentry.Exact.{ksentry_fast-IsAfter, ksentry_spec-exact}
use k_sentry.Bench.{
  BenchResult, stream_loop, generate_stream, benchmark_ksentry, csv_results, benchmark_results,
}

length-stream_loop : (i left : ℕ) → length (stream_loop i left) ≡ left
unfolding stream_loop
length-stream_loop i zero = refl
length-stream_loop i (suc left) = ap suc (length-stream_loop (i + 1) left)

length-generate_stream : (n : ℕ) → length (generate_stream n) ≡ n
unfolding generate_stream
length-generate_stream n = length-stream_loop 0 n

-- The result counts its events, and its digest is the slow specification's of the generated stream.
abbrev pub IsResult : ℕ → ℕ → BenchResult → Type 0
IsResult q p r = ksentry_spec (generate_stream r.events) q p ≡ some r.digest

module _ {p : ℕ} (fits : Fits p) (q : ℕ) (hq : 0 < q) where
  benchmark_ksentry-IsResult :
      (n : ℕ)
      → n ≤ 2 ^ 64
      → (r : BenchResult) × (benchmark_ksentry n q p ≡ some r) × (r.events ≡ n) × IsResult q p r
  unfolding benchmark_ksentry digest
  benchmark_ksentry-IsResult n h =
      let (st, returns, after) = ksentry_fast-IsAfter fits q (generate_stream n) hq in
      let short : length (generate_stream n) ≤ 2 ^ 64 = omega (arith, length-generate_stream n) in
      (
        record { events = n; digest = st.acc },
        rw returns refl,
        refl,
        ksentry_spec-exact fits q (generate_stream n) short
            ∙ ap (λ (t : ℕ). some t) (sym after.sum),
      )

  csv_results-IsResult :
      (sizes : List ℕ)
      → All (λ n. n ≤ 2 ^ 64) sizes
      → (rs : List BenchResult) × (csv_results sizes q p ≡ some rs)
        × (map (λ r. r.events) rs ≡ sizes)
        × All (IsResult q p) rs
  unfolding csv_results
  csv_results-IsResult [] h = ([], refl, refl, tt)
  csv_results-IsResult (n ∷ sizes) (hn, h) =
      let one = benchmark_ksentry-IsResult n hn in
      let rest = csv_results-IsResult sizes h in
      (one.0 ∷ rest.0, rw (one.1, rest.1) refl, ap₂ (λ t ts. t ∷ ts) one.2 rest.2, (one.3, rest.3))

  -- For a modulus of 2 to 2 ^ 64 and a base that is not 0 the four benchmarks return, with 1000,
  -- 10000, 100000 and 1000000 events, and each digest is the slow specification's of the stream that
  -- was generated for it.
  pub benchmark_results-IsResult :
      (rs : List BenchResult) × (benchmark_results q p ≡ some rs)
      × (map (λ r. r.events) rs ≡ 1_000 ∷ 10_000 ∷ 100_000 ∷ 1_000_000 ∷ [])
      × All (IsResult q p) rs
  unfolding benchmark_results
  benchmark_results-IsResult =
      csv_results-IsResult (1_000 ∷ 10_000 ∷ 100_000 ∷ 1_000_000 ∷ [])
        (omega arith, (omega arith, (omega arith, (omega arith, tt))))
