-- ===== src/Baseline/Summary/Counts.antt =====
-- The summary of timefence-core/baseline.rs for the rows of the repeated benchmark.
use k_sentry.Prelude.{
  ℕ, zero, suc, ◌+◌, ◌<◌, ◌≡◌, refl, ap, ap₂, ◌∙◌, arith, some, List, [], ◌∷◌, ◌++◌, length,
  length-append, codes,
}
use k_sentry.Baseline.{
  BaselineBenchRow, make_events, bench_rolling_hash, bench_blake3_batch, bench_hmac_sha256_batch,
  run_repeated_baseline_bench,
}
use k_sentry.Baseline.Rows.{rows_of, in_runs, repeated_rows, length-make_events}
use k_sentry.Baseline.Summary.{
  BaselineSummaryRow, compare_text, push_group, group_rows, summarize_group, summarize_groups,
  summarize_rows,
}

-- A group of `n` rows whose first one counts `e` events.
abbrev IsGroup : ℕ → ℕ → List BaselineBenchRow → Type 0
IsGroup e n [] = ⊥
IsGroup e n (row ∷ group) = (suc (length group) ≡ n) × (row.events ≡ e)

push-IsGroup :
    (e n : ℕ) (group : List BaselineBenchRow) (row : BaselineBenchRow)
    → IsGroup e n group
    → IsGroup e (suc n) (group ++ row ∷ [])
push-IsGroup e n [] row h = absurd h
push-IsGroup e n (first ∷ group) row (h, events) =
    (omega (arith, h, length-append group (row ∷ [])), events)

summarize_group-counts :
    (e n : ℕ) (key : List ℕ) (group : List BaselineBenchRow)
    → IsGroup e n group
    → summarize_group (key, group) ≡ some (record { method = key; runs = n; events = e })
unfolding summarize_group
summarize_group-counts e n key [] h = absurd h
summarize_group-counts e n key (row ∷ group) (h, events) =
    ap₂ (λ (r k : ℕ). some (record { method = key; runs = r; events = k })) h events

-- The groups of the five methods, in the order of their names.
abbrev table :
    (blake hmac sentry merkle rolling : List BaselineBenchRow)
    → List (List ℕ × List BaselineBenchRow)
table blake hmac sentry merkle rolling =
    (codes "blake3_batch", blake)
    ∷ (codes "hmac_sha256_batch", hmac)
    ∷ (codes "ksentry_triangular", sentry)
    ∷ (codes "merkle_chunks_1024", merkle)
    ∷ (codes "rolling_hash_affine", rolling)
    ∷ []

-- The summary of `n` runs with `e` events each.
abbrev pub five_rows : ℕ → ℕ → List BaselineSummaryRow
five_rows e n =
    record { method = codes "blake3_batch"; runs = n; events = e }
    ∷ record { method = codes "hmac_sha256_batch"; runs = n; events = e }
    ∷ record { method = codes "ksentry_triangular"; runs = n; events = e }
    ∷ record { method = codes "merkle_chunks_1024"; runs = n; events = e }
    ∷ record { method = codes "rolling_hash_affine"; runs = n; events = e }
    ∷ []

summarize-table :
    (e n : ℕ) (blake hmac sentry merkle rolling : List BaselineBenchRow)
    → IsGroup e n blake
    → IsGroup e n hmac
    → IsGroup e n sentry
    → IsGroup e n merkle
    → IsGroup e n rolling
    → summarize_groups (table blake hmac sentry merkle rolling) ≡ some (five_rows e n)
unfolding summarize_groups
summarize-table e n blake hmac sentry merkle rolling hb hh hs hm hr =
    rw
      (
        summarize_group-counts e n (codes "blake3_batch") blake hb,
        summarize_group-counts e n (codes "hmac_sha256_batch") hmac hh,
        summarize_group-counts e n (codes "ksentry_triangular") sentry hs,
        summarize_group-counts e n (codes "merkle_chunks_1024") merkle hm,
        summarize_group-counts e n (codes "rolling_hash_affine") rolling hr,
      )
      refl

module _ (blake3 : List ℕ → List ℕ) (hmac_sha256 : List ℕ → List ℕ → List ℕ) where
  group_rows-counts :
      (event_count : ℕ) (root : List ℕ) (run left n : ℕ)
      (blake hmac sentry merkle rolling : List BaselineBenchRow)
      → IsGroup event_count n blake
      → IsGroup event_count n hmac
      → IsGroup event_count n sentry
      → IsGroup event_count n merkle
      → IsGroup event_count n rolling
      → summarize_groups (
          group_rows
            (table blake hmac sentry merkle rolling)
            (in_runs run left (rows_of blake3 hmac_sha256 event_count root 0)))
        ≡ some (five_rows event_count (n + left))
  unfolding group_rows push_group compare_text bench_rolling_hash bench_blake3_batch
      bench_hmac_sha256_batch
  group_rows-counts event_count root run zero n blake hmac sentry merkle rolling hb hh hs hm hr =
      summarize-table event_count n blake hmac sentry merkle rolling hb hh hs hm hr
      ∙ ap (λ (k : ℕ). some (five_rows event_count k)) (omega arith)
  group_rows-counts event_count root run (suc left) n blake hmac sentry merkle rolling hb hh hs hm
        hr =
      let push =
        λ (g : List BaselineBenchRow) (h : IsGroup event_count n g) (row : BaselineBenchRow).
          push-IsGroup event_count n g row h in
      group_rows-counts event_count root (run + 1) left (suc n) _ _ _ _ _ (push blake hb _)
        (push hmac hh _) (push sentry hs _) (push merkle hm _) (push rolling hr _)
      ∙ ap (λ (k : ℕ). some (five_rows event_count k)) (omega arith)

  -- For every number of events and one run or more the repeated benchmark returns, and the summary
  -- of its rows has five rows in the order of the methods' names, each of all the runs and of the
  -- number of events.
  pub summarize_rows-counts :
      (event_count runs : ℕ)
      → 0 < runs
      → (rows : List BaselineBenchRow) × (run_repeated_baseline_bench blake3 hmac_sha256 event_count
            runs
          ≡ some rows)
        × (summarize_rows rows ≡ some (five_rows event_count runs))
  unfolding summarize_rows group_rows push_group compare_text bench_rolling_hash bench_blake3_batch
      bench_hmac_sha256_batch
  summarize_rows-counts event_count zero h = absurd (omega arith)
  summarize_rows-counts event_count (suc runs) h =
      let repeats = repeated_rows blake3 hmac_sha256 event_count (suc runs) in
      let root = repeats.0 in
      let one : (1 ≡ 1) × (length (make_events event_count) ≡ event_count) =
        (refl, length-make_events event_count) in
      (
        in_runs 1 (suc runs) (rows_of blake3 hmac_sha256 event_count root 0),
        repeats.1,
        group_rows-counts event_count root 2 runs 1 _ _ _ _ _ one one one one one
            ∙ ap (λ (k : ℕ). some (five_rows event_count k)) (omega arith),
      )
