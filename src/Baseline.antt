-- ===== src/Baseline.antt =====
-- timefence-core/baseline.rs: the baseline benchmarks, without the clock and the two columns that
-- are computed from it. `blake3` and `hmac_sha256` are the hashes of the packages, of all the bytes
-- that were fed to a hasher. A text is the list of its code points, and `none` is a panic.
pub mod Bytes
pub mod Merkle
pub mod Rows
pub mod Summary
pub mod Tests
use Prim.Native.Nat.{bit_xor}
use k_sentry.Prelude.{
  ℕ, zero, suc, ◌+◌, ◌*◌, ◌/◌, ◌%◌, ◌^◌, min, codes, Option, none, some, ◌>>◌, ◌>>=◌, assert, ltb,
  if◌then◌else◌, List, [], ◌∷◌, ◌++◌, map, length, take,
}
use k_sentry.Field.{u128}
use k_sentry.Chunker.Chunks.{chunks}
use k_sentry.KSentry.{KSentry, new, ingest, digest}
use k_sentry.Report.Json.{usize_codes, u128_codes}

pub record BaselineBenchRow : Type 0 where
  pub method : List ℕ
  pub run : ℕ
  pub events : ℕ
  pub digest : List ℕ

unfoldable pub synthetic_event : ℕ → ℕ
synthetic_event i =
    let x = bit_xor i 0x9e3779b97f4a7c15 in
    let x = u128 (x * 0xbf58476d1ce4e5b9) in
    let x = bit_xor x (x / 2 ^ 31) in
    let x = u128 (x * 0x94d049bb133111eb) in bit_xor x (x / 2 ^ 27)

-- The lowest `n` bytes of a number, the lowest first.
unfoldable pub le_bytes : ℕ → ℕ → List ℕ
le_bytes zero x = []
le_bytes (suc n) x = x % 256 ∷ le_bytes n (x / 256)

unfoldable pub u128_to_bytes : ℕ → List ℕ
u128_to_bytes x = le_bytes 16 x

unfoldable pub hex_digit : ℕ → ℕ
hex_digit d = if ltb d 10 then 48 + d else 87 + d

-- `{:02x}` of each byte.
unfoldable pub hex_codes : List ℕ → List ℕ
hex_codes [] = []
hex_codes (b ∷ bytes) = hex_digit (b / 16) ∷ hex_digit (b % 16) ∷ hex_codes bytes

-- A `blake3::Hash` has 32 bytes, so `bytes[..8]` is in range.
unfoldable pub hash_to_short_hex : List ℕ → List ℕ
hash_to_short_hex bytes = hex_codes (take 8 bytes)

unfoldable pub bytes_to_short_hex : List ℕ → List ℕ
bytes_to_short_hex bytes = hex_codes (take (min 8 (length bytes)) bytes)

-- `for &x in events { hasher.update(&u128_to_bytes(x)) }`, with the bytes fed so far.
unfoldable pub update_all : List ℕ → List ℕ → List ℕ
update_all fed [] = fed
update_all fed (x ∷ events) = update_all (fed ++ u128_to_bytes x) events

unfoldable pub bench_ksentry : List ℕ → ℕ → ℕ → ℕ → Option BaselineBenchRow
bench_ksentry events q p run = do
  ks ← new q p
  some (record {
    method = codes "ksentry_triangular";
    run = run;
    events = length events;
    digest = u128_codes (digest (ingest ks events));
  })

-- The loop of `bench_rolling_hash`.
unfoldable pub rolling_loop : ℕ → ℕ → ℕ → ℕ → List ℕ → ℕ
rolling_loop q p acc weight [] = acc
rolling_loop q p acc weight (x ∷ events) =
    rolling_loop q p (u128 (acc + u128 (x % p * weight) % p) % p) (u128 (weight * q) % p) events

unfoldable pub bench_rolling_hash : List ℕ → ℕ → ℕ → ℕ → BaselineBenchRow
bench_rolling_hash events q p run = record {
  method = codes "rolling_hash_affine";
  run = run;
  events = length events;
  digest = u128_codes (rolling_loop q p 0 1 events);
}

-- `(0..event_count).map(...)`; `n` elements are left, the first at index `i`.
unfoldable pub make_events_loop : ℕ → ℕ → List ℕ
make_events_loop i zero = []
make_events_loop i (suc n) = synthetic_event i % 1_000_000_007 ∷ make_events_loop (i + 1) n

unfoldable pub make_events : ℕ → List ℕ
make_events event_count = make_events_loop 0 event_count

module _ (blake3 : List ℕ → List ℕ) where
  unfoldable pub bench_blake3_batch : List ℕ → ℕ → BaselineBenchRow
  bench_blake3_batch events run = record {
    method = codes "blake3_batch";
    run = run;
    events = length events;
    digest = hash_to_short_hex (blake3 (update_all [] events));
  }

  unfoldable pub merkle_parent : List ℕ → List ℕ → List ℕ
  merkle_parent left right = blake3 (left ++ right)

  unfoldable pub merkle_leaves : ℕ → List ℕ → List (List ℕ)
  merkle_leaves chunk_size events =
      map (λ chunk. blake3 (update_all [] chunk)) (chunks chunk_size events)

  -- The inner `while`: the parents of the pairs, and a last leaf without a partner as it is.
  unfoldable pub next_level : List (List ℕ) → List (List ℕ)
  next_level [] = []
  next_level (leaf ∷ []) = leaf ∷ []
  next_level (left ∷ right ∷ leaves) = merkle_parent left right ∷ next_level leaves

  -- The outer `while` and the root, for at most `rounds` levels.
  unfoldable pub merkle_loop : ℕ → List (List ℕ) → Option (List ℕ)
  merkle_loop rounds [] = none
  merkle_loop rounds (root ∷ []) = some root
  merkle_loop zero (left ∷ right ∷ leaves) = none
  merkle_loop (suc rounds) (left ∷ right ∷ leaves) =
      merkle_loop rounds (next_level (left ∷ right ∷ leaves))

  -- `if leaves.is_empty() { leaves.push(blake3::hash(&[])) }`
  unfoldable pub or_empty_hash : List (List ℕ) → List (List ℕ)
  or_empty_hash [] = blake3 [] ∷ []
  or_empty_hash (leaf ∷ leaves) = leaf ∷ leaves

  -- `chunks` panics at the size 0.
  unfoldable pub merkle_root : List ℕ → ℕ → Option (List ℕ)
  merkle_root events chunk_size = do
    assert (ltb 0 chunk_size)
    let leaves = or_empty_hash (merkle_leaves chunk_size events)
    merkle_loop (length leaves) leaves

  unfoldable pub bench_merkle_chunks : List ℕ → ℕ → ℕ → Option BaselineBenchRow
  bench_merkle_chunks events chunk_size run = do
    root ← merkle_root events chunk_size
    some (record {
      method = codes "merkle_chunks_" ++ usize_codes chunk_size;
      run = run;
      events = length events;
      digest = hash_to_short_hex root;
    })

unfoldable pub bench_hmac_sha256_batch : (List ℕ → List ℕ → List ℕ) → List ℕ → ℕ → BaselineBenchRow
bench_hmac_sha256_batch hmac_sha256 events run = record {
  method = codes "hmac_sha256_batch";
  run = run;
  events = length events;
  digest = bytes_to_short_hex (hmac_sha256 (codes "timefence-demo-key") (update_all [] events));
}

module _ (blake3 : List ℕ → List ℕ) (hmac_sha256 : List ℕ → List ℕ → List ℕ) where
  unfoldable pub run_baseline_bench_once : ℕ → ℕ → Option (List BaselineBenchRow)
  run_baseline_bench_once event_count run = do
    let events = make_events event_count
    ksentry ← bench_ksentry events 7 1_000_000_007 run
    merkle ← bench_merkle_chunks blake3 events 1024 run
    some (
        ksentry
        ∷ bench_rolling_hash events 7 1_000_000_007 run
        ∷ bench_blake3_batch blake3 events run
        ∷ bench_hmac_sha256_batch hmac_sha256 events run
        ∷ merkle
        ∷ [])

  unfoldable pub run_baseline_bench : ℕ → Option (List BaselineBenchRow)
  run_baseline_bench event_count = run_baseline_bench_once event_count 0

  -- `for run in 1..=runs`; `left` runs are left, the next with the number `run`.
  unfoldable pub repeated_loop : ℕ → ℕ → ℕ → Option (List BaselineBenchRow)
  repeated_loop event_count run zero = some []
  repeated_loop event_count run (suc left) = do
    rows ← run_baseline_bench_once event_count run
    rest ← repeated_loop event_count (run + 1) left
    some (rows ++ rest)

  unfoldable pub run_repeated_baseline_bench : ℕ → ℕ → Option (List BaselineBenchRow)
  run_repeated_baseline_bench event_count runs = repeated_loop event_count 1 runs
