-- ===== src/Verified/Ranges.antt =====
-- proofs/finaltest_timefence_core_verified.rs: the ranges of checkpoints and the checkpoint of a
-- streaming state, as specifications.
pub mod Refines
pub mod Emitted
pub mod Tests
use k_sentry.Prelude.{ℕ, ◌+◌, ◌≡◌, List}
use k_sentry.Verified.Prefix.{ks_prefix_spec}

unfoldable pub ckpt_end : ℕ → ℕ → ℕ
ckpt_end start len = start + len

abbrev pub CkptValid : ℕ → ℕ → ℕ → Type 0
CkptValid start len end_seq = end_seq ≡ start + len

abbrev pub SameRange : ℕ → ℕ → ℕ → ℕ → Type 0
SameRange start1 len1 start2 len2 = (start1 ≡ start2) × (len1 ≡ len2)

abbrev pub AdjacentChunks : ℕ → ℕ → ℕ → ℕ → Type 0
AdjacentChunks start1 len1 start2 len2 = start2 ≡ start1 + len1

unfoldable pub checkpoint_digest_from_state : ℕ → ℕ
checkpoint_digest_from_state acc = acc

unfoldable pub checkpoint_position_from_state : ℕ → ℕ
checkpoint_position_from_state n = n

abbrev pub PrefixCheckpointCorrect : List ℕ → ℕ → ℕ → ℕ → ℕ → Type 0
PrefixCheckpointCorrect xs q p n acc = checkpoint_digest_from_state acc ≡ ks_prefix_spec xs q p n
