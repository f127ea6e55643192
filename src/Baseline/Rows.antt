-- ===== src/Baseline/Rows.antt =====
-- The rows of the benchmarks in timefence-core/baseline.rs, without the summary.
use native.Mathlib.Nat.{mod-lt, mod-eq_of_lt, mod-mod}
use k_sentry.Prelude.{
  ℕ, zero, suc, ◌+◌, ◌*◌, ◌%◌, ◌<◌, ◌≡◌, refl, sym, ap, ap₂, ◌∙◌, arith, some, List, [], ◌∷◌, ◌++◌,
  map, length, codes, All, lt→ltb,
}
use k_sentry.Field.{u64, u128, mod_mul, mod_add}
use k_sentry.KSentry
use k_sentry.Rolling
use k_sentry.Rolling.{RollingHash}
use k_sentry.Rolling.Sensitive
use k_sentry.Report.Json.{u128_codes, usize_codes, decimal_codes}
use k_sentry.Baseline.{
  BaselineBenchRow, rolling_loop, make_events, make_events_loop, bench_ksentry, bench_rolling_hash,
  bench_blake3_batch, bench_hmac_sha256_batch, bench_merkle_chunks, merkle_root, hash_to_short_hex,
  run_baseline_bench_once, run_baseline_bench, repeated_loop, run_repeated_baseline_bench,
}
use k_sentry.Baseline.Merkle.Total.{merkle_root-returns}

module _ (q p : ℕ) (hq : q < p) where
  -- The steps of the loop are those of the rolling hash, on reduced values.
  next_acc :
      (acc weight x : ℕ)
      → acc < p
      → weight < p
      → u128 (acc + u128 (x % p * weight) % p) % p ≡ mod_add acc (mod_mul (x % p) weight p) p
  unfolding mod_add mod_mul
  next_acc acc weight x ha hw =
      rw (mod-mod x p, mod-eq_of_lt ha, mod-eq_of_lt hw, mod-mod (u128 (x % p * weight)) p) refl

  next_weight : (weight : ℕ) → weight < p → u128 (weight * q) % p ≡ mod_mul weight q p
  unfolding mod_mul
  next_weight weight hw = rw (mod-eq_of_lt hw, mod-eq_of_lt hq) refl

  rolling_loop-ingest :
      (n acc weight : ℕ) (events : List ℕ)
      → acc < p
      → weight < p
      → rolling_loop q p acc weight events
        ≡ (Rolling.ingest (record { q = q; p = p; n = n; acc = acc; weight = weight }) events).acc
  unfolding rolling_loop Rolling.ingest Rolling.update
  rolling_loop-ingest n acc weight [] ha hw = refl
  rolling_loop-ingest n acc weight (x ∷ events) ha hw =
      let acc' = u128 (acc + u128 (x % p * weight) % p) % p in
      let weight' = u128 (weight * q) % p in
      rolling_loop-ingest (u64 (n + 1)) acc' weight' events (mod-lt _ (omega arith))
        (mod-lt _ (omega arith))
      ∙ ap₂
          (λ (a w : ℕ).
            (Rolling.ingest (record { q = q; p = p; n = u64 (n + 1); acc = a; weight = w })
              events).acc)
          (next_acc acc weight x ha hw) (next_weight weight hw)

  rolling_loop-digest :
      (events : List ℕ)
      → 0 < q
      → 1 < p
      → Rolling.Sensitive.digest_of events q p ≡ some (rolling_loop q p 0 1 events)
  unfolding Rolling.Sensitive.digest_of Rolling.rolling_hash Rolling.new Rolling.digest
  rolling_loop-digest events some_q big =
      rw (lt→ltb 1 p big, lt→ltb 0 q some_q, mod-eq_of_lt hq)
        (ap (λ (t : ℕ). some t)
          (sym (rolling_loop-ingest 0 0 1 events (omega arith) (omega arith))))

-- The row is of the run and counts the events.
abbrev pub IsRowOf : ℕ → ℕ → BaselineBenchRow → Type 0
IsRowOf event_count run row = (row.run ≡ run) × (row.events ≡ event_count)

length-make_events_loop : (i n : ℕ) → length (make_events_loop i n) ≡ n
unfolding make_events_loop
length-make_events_loop i zero = refl
length-make_events_loop i (suc n) = ap suc (length-make_events_loop (i + 1) n)

pub length-make_events : (event_count : ℕ) → length (make_events event_count) ≡ event_count
unfolding make_events
length-make_events event_count = length-make_events_loop 0 event_count

abbrev head_or : BaselineBenchRow → List BaselineBenchRow → BaselineBenchRow
head_or row [] = row
head_or _ (row ∷ rows) = row

abbrev tail : List BaselineBenchRow → List BaselineBenchRow
tail [] = []
tail (row ∷ rows) = rows

abbrev with_run : ℕ → BaselineBenchRow → BaselineBenchRow
with_run run row = record row { run = run }

-- The rows with the run numbers `run`, `run + 1`, ... in place of their own.
abbrev pub in_runs : ℕ → ℕ → List BaselineBenchRow → List BaselineBenchRow
in_runs run zero rows = []
in_runs run (suc left) rows = map (with_run run) rows ++ in_runs (run + 1) left rows

module _ (blake3 : List ℕ → List ℕ) (hmac_sha256 : List ℕ → List ℕ → List ℕ) where
  abbrev start : KSentry.KSentry
  start = record { q = 7; p = 1_000_000_007; n = 0; acc = 0; weight = 1; step = 7 }

  -- The five rows of one run.
  abbrev pub rows_of : ℕ → List ℕ → ℕ → List BaselineBenchRow
  rows_of event_count root run =
      let events = make_events event_count in
      record {
        method = codes "ksentry_triangular";
        run = run;
        events = length events;
        digest = u128_codes (KSentry.digest (KSentry.ingest start events));
      }
      ∷ bench_rolling_hash events 7 1_000_000_007 run
      ∷ bench_blake3_batch blake3 events run
      ∷ bench_hmac_sha256_batch hmac_sha256 events run
      ∷ record {
        method = codes "merkle_chunks_1024";
        run = run;
        events = length events;
        digest = hash_to_short_hex root;
      }
      ∷ []

  run_baseline_bench_once-rows :
      (event_count : ℕ) (root : List ℕ) (run : ℕ)
      → merkle_root blake3 (make_events event_count) 1024 ≡ some root
      → run_baseline_bench_once blake3 hmac_sha256 event_count run
        ≡ some (rows_of event_count root run)
  unfolding run_baseline_bench_once bench_ksentry bench_merkle_chunks KSentry.new usize_codes
      decimal_codes
  run_baseline_bench_once-rows event_count root run e = rw e refl

  repeated_loop-rows :
      (event_count : ℕ) (root : List ℕ) (run left : ℕ)
      → merkle_root blake3 (make_events event_count) 1024 ≡ some root
      → repeated_loop blake3 hmac_sha256 event_count run left
        ≡ some (in_runs run left (rows_of event_count root 0))
  unfolding repeated_loop bench_rolling_hash bench_blake3_batch bench_hmac_sha256_batch
  repeated_loop-rows event_count root run zero e = refl
  repeated_loop-rows event_count root run (suc left) e =
      rw
        (
          run_baseline_bench_once-rows event_count root run e,
          repeated_loop-rows event_count root (run + 1) left e,
        )
        refl

  -- The root, and with it the rows of the repeated benchmark.
  pub repeated_rows :
      (event_count runs : ℕ)
      → (root : List ℕ) × (run_repeated_baseline_bench blake3 hmac_sha256 event_count runs
          ≡ some (in_runs 1 runs (rows_of event_count root 0)))
  unfolding run_repeated_baseline_bench
  repeated_rows event_count runs =
      let returns = merkle_root-returns blake3 (make_events event_count) 1024 (omega arith) in
      (returns.0, repeated_loop-rows event_count returns.0 1 runs returns.1)

  -- For every number of events and of runs both benchmarks return: the repeated one gives the rows
  -- of the single one once for each run, in the order of the runs, and only the run numbers, from 1
  -- on, are other ones.
  pub run_repeated_baseline_bench-repeats :
      (event_count runs : ℕ)
      → (rows : List BaselineBenchRow) × (run_baseline_bench blake3 hmac_sha256 event_count
          ≡ some rows)
        × (run_repeated_baseline_bench blake3 hmac_sha256 event_count runs
            ≡ some (in_runs 1 runs rows))
  unfolding run_baseline_bench run_repeated_baseline_bench
  run_repeated_baseline_bench-repeats event_count runs =
      let returns = merkle_root-returns blake3 (make_events event_count) 1024 (omega arith) in
      (
        rows_of event_count returns.0 0,
        run_baseline_bench_once-rows event_count returns.0 0 returns.1,
        repeated_loop-rows event_count returns.0 1 runs returns.1,
      )

  -- For every number of events and every run number one benchmark run returns five rows, each with
  -- the run number and the number of events. The first reports the accumulator's digest of the
  -- events and the second that of the rolling hash, both in decimal and with the base 7 and the
  -- modulus 1000000007.
  pub run_baseline_bench_once-digests :
      (event_count run : ℕ)
      → (first second : BaselineBenchRow) × (rest : List BaselineBenchRow) × (sum affine : ℕ)
        × (run_baseline_bench_once blake3 hmac_sha256 event_count run
            ≡ some (first ∷ second ∷ rest))
        × (length rest ≡ 3)
        × All (IsRowOf event_count run) (first ∷ second ∷ rest)
        × (KSentry.digest_of (make_events event_count) 7 1_000_000_007 ≡ some sum)
        × (first.digest ≡ u128_codes sum)
        × (Rolling.Sensitive.digest_of (make_events event_count) 7 1_000_000_007 ≡ some affine)
        × (second.digest ≡ u128_codes affine)
  unfolding bench_rolling_hash bench_blake3_batch bench_hmac_sha256_batch KSentry.digest_of
      KSentry.ksentry_fast KSentry.new
  run_baseline_bench_once-digests event_count run =
      let events = make_events event_count in
      let returns = merkle_root-returns blake3 events 1024 (omega arith) in
      let counted : length events ≡ event_count = length-make_events event_count in
      let rows = rows_of event_count returns.0 run in
      let first = head_or (bench_rolling_hash events 7 1_000_000_007 run) rows in
      let row : IsRowOf event_count run first = (refl, counted) in
      (
        first,
        bench_rolling_hash events 7 1_000_000_007 run,
        tail (tail rows),
        KSentry.digest (KSentry.ingest start events),
        rolling_loop 7 1_000_000_007 0 1 events,
        run_baseline_bench_once-rows event_count returns.0 run returns.1,
        refl,
        (row, (row, (row, (row, (row, tt))))),
        refl,
        refl,
        rolling_loop-digest 7 1_000_000_007 (omega arith) events (omega arith) (omega arith),
        refl,
      )
