-- ===== src/Verifier/Tests.antt =====
-- The reports of the repository's tests, and the theorems there.
use k_sentry.Prelude.{◌≡◌, ◌↔◌, refl, true, List, [], ◌∷◌}
use k_sentry.Checkpoint.{TimeFenceCheckpoint, new, reason_mismatch}
use k_sentry.Checkpoint.Mismatch.{CheckpointMismatch}
use k_sentry.Verifier.{
  clean, metadata_mismatch, digest_mismatch, status_of, is_clean, verify_checkpoint,
}
use k_sentry.Verifier.Sound.{verify_checkpoint-clean_iff}

abbrev expected : TimeFenceCheckpoint
expected = new "s" 0 0 4 111 7 1_000_000_007

abbrev shorter : TimeFenceCheckpoint
shorter = new "s" 0 0 3 111 7 1_000_000_007

abbrev tampered : TimeFenceCheckpoint
tampered = new "s" 0 0 4 222 7 1_000_000_007

statuses :
    ((verify_checkpoint expected expected).status ≡ clean)
    × ((verify_checkpoint expected tampered).status ≡ digest_mismatch)
    × ((verify_checkpoint expected shorter).status ≡ metadata_mismatch CheckpointMismatch.length)
unfolding verify_checkpoint status_of reason_mismatch new
statuses = (refl, refl, refl)

verify_checkpoint-clean_iff_example :
    (is_clean (verify_checkpoint expected tampered) ≡ true) ↔ (expected ≡ tampered)
verify_checkpoint-clean_iff_example = verify_checkpoint-clean_iff expected tampered

abbrev source : List TimeFenceCheckpoint
source = expected ∷ expected ∷ []

abbrev received : List TimeFenceCheckpoint
received = expected ∷ tampered ∷ []
