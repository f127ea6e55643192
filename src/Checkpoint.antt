-- ===== src/Checkpoint.antt =====
-- timefence-core/src/checkpoint.rs: the metadata around a digest, and its comparison.
pub mod Mismatch
pub mod Classify
pub mod Tests
use k_sentry.Prelude.{ℕ, ◌+◌, String, Bool, not, ◌&&◌, ◌||◌, ◌==◌, str_eq, if◌then◌else◌}
use k_sentry.Field.{u64}
use Mismatch.{CheckpointMismatch}

pub record TimeFenceCheckpoint : Type 0 where
  pub stream_id : String
  pub epoch : ℕ
  pub start_seq : ℕ
  pub end_seq : ℕ
  pub len : ℕ
  pub digest : ℕ
  pub q : ℕ
  pub p : ℕ

unfoldable pub new : String → ℕ → ℕ → ℕ → ℕ → ℕ → ℕ → TimeFenceCheckpoint
new stream_id epoch start_seq len digest q p = record {
  stream_id = stream_id;
  epoch = epoch;
  start_seq = start_seq;
  end_seq = u64 (start_seq + len);
  len = len;
  digest = digest;
  q = q;
  p = p;
}

unfoldable pub is_valid_range : TimeFenceCheckpoint → Bool
is_valid_range c = c.end_seq == u64 (c.start_seq + c.len)

unfoldable pub same_range_as : TimeFenceCheckpoint → TimeFenceCheckpoint → Bool
same_range_as c other =
    str_eq c.stream_id other.stream_id
    && c.epoch == other.epoch
    && c.start_seq == other.start_seq
    && c.end_seq == other.end_seq
    && c.len == other.len

unfoldable pub same_params_as : TimeFenceCheckpoint → TimeFenceCheckpoint → Bool
same_params_as c other = c.q == other.q && c.p == other.p

unfoldable pub digest_matches : TimeFenceCheckpoint → TimeFenceCheckpoint → Bool
digest_matches c other = c.digest == other.digest

unfoldable pub fully_matches : TimeFenceCheckpoint → TimeFenceCheckpoint → Bool
fully_matches c other = same_range_as c other && same_params_as c other && digest_matches c other

unfoldable pub adjacent_to : TimeFenceCheckpoint → TimeFenceCheckpoint → Bool
adjacent_to c next =
    str_eq c.stream_id next.stream_id && c.epoch == next.epoch && c.end_seq == next.start_seq

unfoldable pub reason_mismatch : TimeFenceCheckpoint → TimeFenceCheckpoint → CheckpointMismatch
reason_mismatch c other =
    if not (str_eq c.stream_id other.stream_id)
    then CheckpointMismatch.stream_id
    else if not (c.epoch == other.epoch)
    then CheckpointMismatch.epoch
    else if not (c.start_seq == other.start_seq)
    then CheckpointMismatch.start_seq
    else if not (c.len == other.len)
    then CheckpointMismatch.length
    else if not (c.end_seq == other.end_seq)
    then CheckpointMismatch.end_seq
    else if not (c.q == other.q) || not (c.p == other.p)
    then CheckpointMismatch.params
    else if not (c.digest == other.digest)
    then CheckpointMismatch.digest
    else CheckpointMismatch.none
