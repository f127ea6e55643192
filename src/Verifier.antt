-- ===== src/Verifier.antt =====
-- timefence-core/src/verifier.rs: the comparison of an expected with an observed checkpoint.
pub mod Sound
pub mod Tests
use k_sentry.Prelude.{
  ℕ, String, Bool, true, false, not, Option, none, some, List, [], ◌∷◌, if◌then◌else◌,
}
use k_sentry.Checkpoint.{TimeFenceCheckpoint, reason_mismatch}
use k_sentry.Checkpoint.Mismatch.{CheckpointMismatch}

pub data VerificationStatus : Type 0 where
  clean : VerificationStatus
  metadata_mismatch : CheckpointMismatch → VerificationStatus
  digest_mismatch : VerificationStatus

pub record VerificationReport : Type 0 where
  pub status : VerificationStatus
  pub stream_id : String
  pub epoch : ℕ
  pub start_seq : ℕ
  pub end_seq : ℕ
  pub expected_digest : ℕ
  pub observed_digest : ℕ

-- `status == VerificationStatus::Clean`
unfoldable pub status_is_clean : VerificationStatus → Bool
status_is_clean clean = true
status_is_clean _ = false

unfoldable pub is_clean : VerificationReport → Bool
is_clean r = status_is_clean r.status

unfoldable pub is_suspicious : VerificationReport → Bool
is_suspicious r = not (is_clean r)

unfoldable pub status_of : CheckpointMismatch → VerificationStatus
status_of CheckpointMismatch.none = clean
status_of CheckpointMismatch.digest = digest_mismatch
status_of other = metadata_mismatch other

unfoldable pub verify_checkpoint : TimeFenceCheckpoint → TimeFenceCheckpoint → VerificationReport
verify_checkpoint expected observed = record {
  status = status_of (reason_mismatch expected observed);
  stream_id = expected.stream_id;
  epoch = expected.epoch;
  start_seq = expected.start_seq;
  end_seq = expected.end_seq;
  expected_digest = expected.digest;
  observed_digest = observed.digest;
}

-- `zip` stops at the end of the shorter list.
unfoldable pub verify_many :
    List TimeFenceCheckpoint → List TimeFenceCheckpoint → List VerificationReport
verify_many [] os = []
verify_many (e ∷ es) [] = []
verify_many (e ∷ es) (o ∷ os) = verify_checkpoint e o ∷ verify_many es os

unfoldable pub first_suspicious_report : List VerificationReport → Option VerificationReport
first_suspicious_report [] = none
first_suspicious_report (r ∷ rs) =
    let rest = first_suspicious_report rs in if is_suspicious r then some r else rest
