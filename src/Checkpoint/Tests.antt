-- ===== src/Checkpoint/Tests.antt =====
-- The checkpoints of the repository's tests, and the theorems there.
use k_sentry.Prelude.{◌≡◌, refl, true}
use k_sentry.Checkpoint.Mismatch.{CheckpointMismatch}
use k_sentry.Checkpoint.{TimeFenceCheckpoint, new, reason_mismatch, adjacent_to}

abbrev expected : TimeFenceCheckpoint
expected = new "s" 0 0 4 111 7 1_000_000_007

abbrev shorter : TimeFenceCheckpoint
shorter = new "s" 0 0 3 111 7 1_000_000_007

abbrev tampered : TimeFenceCheckpoint
tampered = new "s" 0 0 4 999 7 1_000_000_007

reasons :
    (reason_mismatch expected expected ≡ CheckpointMismatch.none)
    × (reason_mismatch expected shorter ≡ CheckpointMismatch.length)
    × (reason_mismatch expected tampered ≡ CheckpointMismatch.digest)
unfolding reason_mismatch new
reasons = (refl, refl, refl)

adjacent_chunks : adjacent_to expected (new "s" 0 4 3 222 7 1_000_000_007) ≡ true
unfolding adjacent_to new
adjacent_chunks = refl
