-- ===== src/Chunker.antt =====
-- timefence-core/src/chunker.rs: a checkpoint for each chunk of a stream, and the first chunk
-- whose checkpoint does not verify. `none` is a failed assertion.
pub mod Chunks
pub mod Exact
pub mod Localize
pub mod Layout
pub mod Tests
use k_sentry.Prelude.{
  ℕ, ◌+◌, ◌*◌, Option, none, some, List, [], ◌∷◌, length, String, ltb, if◌then◌else◌, ◌>>=◌, ◌>>◌,
  assert,
}
use k_sentry.Field.{u64}
use k_sentry.KSentry.{digest_of}
use k_sentry.Checkpoint.{TimeFenceCheckpoint, new}
use k_sentry.Verifier.{VerificationReport, verify_many, is_suspicious}
use Chunks.{chunks}

pub record ChunkedStream : Type 0 where
  pub checkpoints : List TimeFenceCheckpoint

module _ (stream_id : String) (epoch chunk_size q p : ℕ) where
  -- The body of the loop: the checkpoint of the chunk with index `chunk_idx`.
  unfoldable pub chunk_checkpoint : ℕ → List ℕ → Option TimeFenceCheckpoint
  chunk_checkpoint chunk_idx chunk = do
    digest ← digest_of chunk q p
    some (new stream_id epoch (u64 (chunk_idx * chunk_size)) (u64 (length chunk)) digest q p)

  -- The loop over the enumerated chunks.
  unfoldable pub chunk_loop : ℕ → List (List ℕ) → Option (List TimeFenceCheckpoint)
  chunk_loop chunk_idx [] = some []
  chunk_loop chunk_idx (chunk ∷ rest) = do
    c ← chunk_checkpoint chunk_idx chunk
    cs ← chunk_loop (chunk_idx + 1) rest
    some (c ∷ cs)

unfoldable pub chunk_stream : String → ℕ → List ℕ → ℕ → ℕ → ℕ → Option ChunkedStream
chunk_stream stream_id epoch xs chunk_size q p = do
  assert (ltb 0 chunk_size)
  cs ← chunk_loop stream_id epoch chunk_size q p 0 (chunks chunk_size xs)
  some (record { checkpoints = cs })

-- The body repeats that of `verify_many`.
unfoldable pub verify_chunked_streams : ChunkedStream → ChunkedStream → List VerificationReport
verify_chunked_streams expected observed = verify_many expected.checkpoints observed.checkpoints

-- `position`, counting from the index of the first report.
unfoldable pub position_from : ℕ → List VerificationReport → Option ℕ
position_from i [] = none
position_from i (r ∷ rs) =
    let rest = position_from (i + 1) rs in if is_suspicious r then some i else rest

unfoldable pub first_bad_chunk_index : List VerificationReport → Option ℕ
first_bad_chunk_index reports = position_from 0 reports

-- The pipeline of timefence-core-local-complete/src/main.rs: both streams are cut into chunks, the
-- chunks verified, and the first bad one reported.
unfoldable pub localize : String → ℕ → List ℕ → List ℕ → ℕ → ℕ → ℕ → Option (Option ℕ)
localize stream_id epoch original observed chunk_size q p = do
  expected_chunks ← chunk_stream stream_id epoch original chunk_size q p
  observed_chunks ← chunk_stream stream_id epoch observed chunk_size q p
  some (first_bad_chunk_index (verify_chunked_streams expected_chunks observed_chunks))
