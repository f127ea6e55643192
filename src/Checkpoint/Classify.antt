-- ===== src/Checkpoint/Classify.antt =====
-- What `reason_mismatch` of timefence-core/src/checkpoint.rs reports.
use text.Mathlib.TextEquality.{eq_iff}
use k_sentry.Prelude.{ℕ, ◌≡◌, ◌≢◌, ◌↔◌, arith, String, true, not, ◌&&◌}
use k_sentry.Checkpoint.Mismatch.{
  CheckpointMismatch, is_clean, is_metadata_mismatch, is_digest_mismatch,
}
use k_sentry.Checkpoint.{
  TimeFenceCheckpoint, new, is_valid_range, same_range_as, same_params_as, digest_matches,
  fully_matches, reason_mismatch,
}

module _ (a b : TimeFenceCheckpoint) where
  -- Two checkpoints match fully exactly when they are the same.
  pub fully_matches_iff : (fully_matches a b ≡ true) ↔ (a ≡ b)
  unfolding fully_matches same_range_as same_params_as digest_matches
  fully_matches_iff = ground (arith, eq_iff a.stream_id b.stream_id)

  -- The reason is clean exactly on a full match, a metadata mismatch exactly when the ranges or the
  -- parameters differ, and a digest mismatch exactly when only the digests do.
  pub reason_mismatch-classifies :
      (is_clean (reason_mismatch a b) ≡ fully_matches a b)
      × (is_metadata_mismatch (reason_mismatch a b) ≡ not (same_range_as a b && same_params_as a b))
      × (is_digest_mismatch (reason_mismatch a b)
          ≡ (same_range_as a b && same_params_as a b && not (digest_matches a b)))
  unfolding reason_mismatch is_clean is_metadata_mismatch is_digest_mismatch fully_matches
      same_range_as same_params_as digest_matches
  reason_mismatch-classifies = ground arith

  -- Between checkpoints with valid ranges the reason is never the end of the range.
  pub reason_mismatch-ne-end_seq :
      is_valid_range a ≡ true
      → is_valid_range b ≡ true
      → reason_mismatch a b ≢ CheckpointMismatch.end_seq
  unfolding reason_mismatch is_valid_range
  reason_mismatch-ne-end_seq ha hb e = ground arith

-- Every checkpoint that `new` makes has a valid range.
pub new-IsValid :
    (stream_id : String) (epoch start_seq len digest q p : ℕ)
    → is_valid_range (new stream_id epoch start_seq len digest q p) ≡ true
unfolding new is_valid_range
new-IsValid stream_id epoch start_seq len digest q p = ground arith
