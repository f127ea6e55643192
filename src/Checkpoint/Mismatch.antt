-- ===== src/Checkpoint/Mismatch.antt =====
-- timefence-core/src/checkpoint.rs: the reasons for which two checkpoints differ.
use mathlib.Core.Bool.{Bool, true, false}

pub data CheckpointMismatch : Type 0 where
  none stream_id epoch start_seq length end_seq params digest : CheckpointMismatch

unfoldable pub is_clean : CheckpointMismatch → Bool
is_clean none = true
is_clean _ = false

unfoldable pub is_metadata_mismatch : CheckpointMismatch → Bool
is_metadata_mismatch none = false
is_metadata_mismatch digest = false
is_metadata_mismatch _ = true

unfoldable pub is_digest_mismatch : CheckpointMismatch → Bool
is_digest_mismatch digest = true
is_digest_mismatch _ = false
