-- ===== src/Verifier/Sound.antt =====
-- What the reports of timefence-core/src/verifier.rs mean.
use text.Mathlib.TextEquality.{eq_iff}
use k_sentry.Prelude.{
  ℕ, String, ◌==◌, ◌≡◌, ◌↔◌, refl, ap, ◌∙◌, arith, true, false, not, ◌&&◌, none, List, [], ◌∷◌,
  length, min, All, Bool-cases, inl, inr,
}
use k_sentry.Checkpoint.{
  TimeFenceCheckpoint, new, fully_matches, same_range_as, same_params_as, digest_matches,
  reason_mismatch,
}
use k_sentry.Checkpoint.Mismatch
use k_sentry.Checkpoint.Mismatch.{CheckpointMismatch, is_metadata_mismatch, is_digest_mismatch}
use k_sentry.Checkpoint.Classify.{fully_matches_iff, reason_mismatch-classifies}
use k_sentry.Verifier.{
  digest_mismatch, VerificationReport, status_is_clean, is_clean, is_suspicious, status_of,
  verify_checkpoint, verify_many, first_suspicious_report,
}

status_of-clean : (m : CheckpointMismatch) → status_is_clean (status_of m) ≡ Mismatch.is_clean m
unfolding status_is_clean status_of Mismatch.is_clean
status_of-clean m = ground arith

status_of-digest :
    (m : CheckpointMismatch) → (status_of m ≡ digest_mismatch) ↔ (is_digest_mismatch m ≡ true)
unfolding status_of is_digest_mismatch
status_of-digest m = ground arith

module _ (e o : TimeFenceCheckpoint) where
  clean-eq-fully_matches : is_clean (verify_checkpoint e o) ≡ fully_matches e o
  unfolding is_clean verify_checkpoint
  clean-eq-fully_matches =
      status_of-clean (reason_mismatch e o) ∙ (reason_mismatch-classifies e o).0

  -- A report is clean exactly when the observed checkpoint is the expected one, in every field.
  pub verify_checkpoint-clean_iff : (is_clean (verify_checkpoint e o) ≡ true) ↔ (e ≡ o)
  verify_checkpoint-clean_iff = rw clean-eq-fully_matches (fully_matches_iff e o)

  -- A digest mismatch is reported exactly when ranges and parameters agree and the digests do not.
  pub verify_checkpoint-digest_mismatch_iff :
      ((verify_checkpoint e o).status ≡ digest_mismatch)
      ↔ ((same_range_as e o && same_params_as e o && not (digest_matches e o)) ≡ true)
  unfolding verify_checkpoint
  verify_checkpoint-digest_mismatch_iff =
      rw (← (reason_mismatch-classifies e o).2) (status_of-digest (reason_mismatch e o))

  pub suspicious-eq : is_suspicious (verify_checkpoint e o) ≡ not (fully_matches e o)
  unfolding is_suspicious
  suspicious-eq = ap not clean-eq-fully_matches

-- Checkpoints of the same range and parameters verify exactly when their digests agree.
pub suspicious-new :
    (stream_id : String) (epoch start_seq len d d' q p : ℕ)
    → is_suspicious (
        verify_checkpoint
          (new stream_id epoch start_seq len d q p)
          (new stream_id epoch start_seq len d' q p))
      ≡ not (d == d')
unfolding new fully_matches same_range_as same_params_as digest_matches
suspicious-new stream_id epoch start_seq len d d' q p =
    rw suspicious-eq (ground (arith, eq_iff stream_id stream_id))

pub not-suspicious_self : (c : TimeFenceCheckpoint) → is_suspicious (verify_checkpoint c c) ≡ false
not-suspicious_self c = suspicious-eq c c ∙ ap not ((fully_matches_iff c c).1 refl)

pub length-verify_many :
    (es os : List TimeFenceCheckpoint) → length (verify_many es os) ≡ min (length es) (length os)
unfolding verify_many
length-verify_many [] os = omega arith
length-verify_many (e ∷ es) [] = omega arith
length-verify_many (e ∷ es) (o ∷ os) = omega (arith, length-verify_many es os)

-- Nothing suspicious is found exactly when every report is clean.
pub first_suspicious_report-none_iff :
    (rs : List VerificationReport)
    → (first_suspicious_report rs ≡ none) ↔ All (λ r. is_clean r ≡ true) rs
unfolding first_suspicious_report is_suspicious
first_suspicious_report-none_iff [] = (λ e. tt, λ a. refl)
first_suspicious_report-none_iff (r ∷ rs) = elim (Bool-cases (is_clean r)) [
  | inl good ↦ rw good (
    λ e. (refl, (first_suspicious_report-none_iff rs).0 e),
    λ a. (first_suspicious_report-none_iff rs).1 a.1,
  )
  | inr bad ↦ rw bad (λ e. cc, λ a. cc (a.0))
]

-- For two runs of checkpoints of one length, nothing suspicious is found exactly when the observed
-- run is the expected one.
pub verify_many-none_iff :
    (es os : List TimeFenceCheckpoint)
    → length es ≡ length os
    → (first_suspicious_report (verify_many es os) ≡ none) ↔ (es ≡ os)
unfolding verify_many first_suspicious_report
verify_many-none_iff [] [] h = (λ e. refl, λ e. refl)
verify_many-none_iff [] (o ∷ os) h = absurd (omega arith)
verify_many-none_iff (e ∷ es) [] h = absurd (omega arith)
verify_many-none_iff (e ∷ es) (o ∷ os) h =
    ground (
      arith,
      suspicious-eq e o,
      fully_matches_iff e o,
      verify_many-none_iff es os (omega (arith, h)),
    )
