-- ===== src/Baseline/Tests.antt =====
-- Runs of the baseline benchmarks with concrete hashes, and their theorems at concrete events.
use k_sentry.Prelude.{
  ℕ, zero, suc, ◌/◌, ◌+◌, ◌^◌, ◌≡◌, ◌≢◌, refl, ap, arith, codes, some, List, [], ◌∷◌, length, All,
}
use k_sentry.Report.Json.{u128_codes}
use k_sentry.KSentry
use k_sentry.Rolling
use k_sentry.Rolling.Sensitive
use k_sentry.Baseline.{
  BaselineBenchRow, le_bytes, u128_to_bytes, update_all, hex_digit, hex_codes, bytes_to_short_hex,
  make_events, merkle_parent, merkle_leaves, next_level, merkle_loop, or_empty_hash, merkle_root,
  run_baseline_bench, run_baseline_bench_once, run_repeated_baseline_bench,
}
use k_sentry.Chunker.Chunks.{chunks, chunks_loop}
use k_sentry.Baseline.Bytes.{IsByte, IsU128, of_le_bytes, length-le_bytes}
use k_sentry.Baseline.Merkle.Total.{merkle_root-returns}
use k_sentry.Baseline.Merkle.Binding.{RunsApart, merkle_root-detects}
use k_sentry.Baseline.Merkle.Forged.{merkle_root-forged}
use k_sentry.Baseline.Rows.{
  IsRowOf, in_runs, run_repeated_baseline_bench-repeats, run_baseline_bench_once-digests,
}
use k_sentry.Baseline.Summary.{summarize_rows}
use k_sentry.Baseline.Summary.Counts.{five_rows, summarize_rows-counts}

-- A hash that keeps the first 32 bytes, and a keyed one.
abbrev first_32 : List ℕ → List ℕ
first_32 bytes = le_bytes 32 (of_le_bytes bytes)

abbrev keyed : List ℕ → List ℕ → List ℕ
keyed key message = first_32 message

first_32-length : (bytes : List ℕ) → length (first_32 bytes) ≡ 32
first_32-length bytes = length-le_bytes 32 (of_le_bytes bytes)

le_bytes-IsByte : (n x : ℕ) → All IsByte (le_bytes n x)
unfolding le_bytes
le_bytes-IsByte zero x = tt
le_bytes-IsByte (suc n) x = (omega arith, le_bytes-IsByte n (x / 256))

-- 2 ^ 64 + 258 as 16 bytes, the lowest first.
bytes_run :
    u128_to_bytes (2 ^ 64 + 258)
    ≡ 2 ∷ 1 ∷ 0 ∷ 0 ∷ 0 ∷ 0 ∷ 0 ∷ 0 ∷ 1 ∷ 0 ∷ 0 ∷ 0 ∷ 0 ∷ 0 ∷ 0 ∷ 0 ∷ []
unfolding u128_to_bytes le_bytes
bytes_run = refl

hex_run : bytes_to_short_hex (255 ∷ 0 ∷ 18 ∷ []) ≡ codes "ff0012"
unfolding bytes_to_short_hex hex_codes hex_digit
hex_run = refl

-- Three leaves have two levels above them; the third one goes up as it is.
merkle_run :
    merkle_loop (λ bytes. bytes) 3 ((1 ∷ []) ∷ (2 ∷ []) ∷ (3 ∷ []) ∷ []) ≡ some (1 ∷ 2 ∷ 3 ∷ [])
unfolding merkle_loop next_level merkle_parent
merkle_run = refl

no_events_run : merkle_root (λ bytes. 7 ∷ bytes) [] 1024 ≡ some (7 ∷ [])
unfolding merkle_root merkle_leaves or_empty_hash merkle_loop chunks chunks_loop
no_events_run = refl

-- The first events differ, so the first chunks and the two roots have other bytes.
changed_apart : RunsApart first_32 1 (5 ∷ 6 ∷ []) (7 ∷ 6 ∷ [])
unfolding chunks chunks_loop merkle_leaves next_level merkle_parent update_all u128_to_bytes
    le_bytes
changed_apart = (
  (λ e. absurd (omega (arith, ap of_le_bytes e)), (λ e. refl, tt)),
  ((λ e. absurd (omega (arith, ap of_le_bytes e)), tt), (tt, tt)),
)

merkle_root-detects_example :
    merkle_root first_32 (5 ∷ 6 ∷ []) 1 ≢ merkle_root first_32 (7 ∷ 6 ∷ []) 1
merkle_root-detects_example =
    merkle_root-detects first_32 first_32-length 1 (omega arith) (5 ∷ 6 ∷ []) (7 ∷ 6 ∷ []) refl
      (omega arith, (omega arith, tt)) (omega arith, (omega arith, tt)) changed_apart
      (λ e. absurd (omega (arith, ap of_le_bytes e)))

merkle_root-forged_example :
    (forged : List ℕ) × (length forged ≡ 4)
    × All IsU128 forged
    × (merkle_root first_32 forged 4 ≡ merkle_root first_32 (1 ∷ 2 ∷ 3 ∷ 4 ∷ 5 ∷ []) 4)
merkle_root-forged_example =
    merkle_root-forged first_32 first_32-length (λ bytes. le_bytes-IsByte 32 (of_le_bytes bytes)) 4
      (1 ∷ 2 ∷ 3 ∷ 4 ∷ 5 ∷ []) (omega arith) (omega arith) (omega arith)

merkle_root_returns_run : (root : List ℕ) × (merkle_root first_32 (1 ∷ 2 ∷ 3 ∷ []) 2 ≡ some root)
merkle_root_returns_run = merkle_root-returns first_32 (1 ∷ 2 ∷ 3 ∷ []) 2 (omega arith)

run_repeated_baseline_bench_repeats_run :
    (rows : List BaselineBenchRow) × (run_baseline_bench first_32 keyed 3 ≡ some rows)
    × (run_repeated_baseline_bench first_32 keyed 3 2 ≡ some (in_runs 1 2 rows))
run_repeated_baseline_bench_repeats_run = run_repeated_baseline_bench-repeats first_32 keyed 3 2

run_baseline_bench_once-digests_example :
    (first second : BaselineBenchRow) × (rest : List BaselineBenchRow) × (sum affine : ℕ)
    × (run_baseline_bench_once first_32 keyed 3 4 ≡ some (first ∷ second ∷ rest))
    × (length rest ≡ 3)
    × All (IsRowOf 3 4) (first ∷ second ∷ rest)
    × (KSentry.digest_of (make_events 3) 7 1_000_000_007 ≡ some sum)
    × (first.digest ≡ u128_codes sum)
    × (Rolling.Sensitive.digest_of (make_events 3) 7 1_000_000_007 ≡ some affine)
    × (second.digest ≡ u128_codes affine)
run_baseline_bench_once-digests_example = run_baseline_bench_once-digests first_32 keyed 3 4

summarize_rows-counts_example :
    (rows : List BaselineBenchRow) × (run_repeated_baseline_bench first_32 keyed 3 2 ≡ some rows)
    × (summarize_rows rows ≡ some (five_rows 3 2))
summarize_rows-counts_example = summarize_rows-counts first_32 keyed 3 2 (omega arith)
