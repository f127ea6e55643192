-- ===== src/Chunker/Exact.antt =====
-- The chunker of timefence-core/src/chunker.rs returns, with the digests in closed form.
use k_sentry.Prelude.{ℕ, ◌+◌, ◌*◌, ◌%◌, ◌<◌, ◌≡◌, refl, some, List, [], ◌∷◌, length, String, lt→ltb}
use k_sentry.Field.{u64, Fits}
use k_sentry.KSentry.Exact.{tri_sum, digest_of-exact}
use k_sentry.Checkpoint.{TimeFenceCheckpoint, new}
use k_sentry.Chunker.{chunk_checkpoint, chunk_loop, chunk_stream}
use k_sentry.Chunker.Chunks.{chunks}

module _ {p : ℕ} (fits : Fits p) (q : ℕ) (hq : 0 < q) (stream_id : String) (epoch size : ℕ) where
  -- The checkpoints of the chunks, with the digest's closed form.
  unfoldable pub checkpoint_at : ℕ → List ℕ → TimeFenceCheckpoint
  checkpoint_at idx chunk =
      new stream_id epoch (u64 (idx * size)) (u64 (length chunk)) (tri_sum q 0 chunk % p) q p

  unfoldable pub checkpoints_from : ℕ → List (List ℕ) → List TimeFenceCheckpoint
  checkpoints_from idx [] = []
  checkpoints_from idx (chunk ∷ rest) = checkpoint_at idx chunk ∷ checkpoints_from (idx + 1) rest

  pub chunk_loop-exact :
      (idx : ℕ) (cs : List (List ℕ))
      → chunk_loop stream_id epoch size q p idx cs ≡ some (checkpoints_from idx cs)
  unfolding chunk_loop chunk_checkpoint checkpoints_from checkpoint_at
  chunk_loop-exact idx [] = refl
  chunk_loop-exact idx (c ∷ cs) = rw (digest_of-exact fits q c hq, chunk_loop-exact (idx + 1) cs)

  -- The chunker returns for every stream.
  pub chunk_stream-exact :
      (xs : List ℕ)
      → 0 < size
      → chunk_stream stream_id epoch xs size q p
        ≡ some (record { checkpoints = checkpoints_from 0 (chunks size xs) })
  unfolding chunk_stream
  chunk_stream-exact xs h = rw (lt→ltb 0 size h, chunk_loop-exact 0 (chunks size xs))
