-- ===== src/Chunker/Layout.antt =====
-- The checkpoints of timefence-core/src/chunker.rs tile the stream.
use native.Mathlib.Nat.{suc-mul, zero-mul, zero-add, le_refl}
use native.Mathlib.Numerals.{add-one}
use native.Mathlib.Decide.{dec_lt}
use text.Mathlib.TextEquality.{eq_iff}
use k_sentry.Prelude.{
  ℕ, zero, suc, ◌+◌, ◌*◌, ◌^◌, ◌≤◌, ◌<◌, ◌≡◌, sym, ◌∙◌, arith, some, List, [], ◌∷◌, length,
  length-take, length-drop, take, drop, String, true,
}
use k_sentry.Field.{Fits}
use k_sentry.Checkpoint.{TimeFenceCheckpoint, new, is_valid_range, adjacent_to}
use k_sentry.Chunker.{ChunkedStream, chunk_stream}
use k_sentry.Chunker.Chunks.{chunks, chunks-nil, chunks_zero, chunks_pos}
use k_sentry.Chunker.Exact.{checkpoint_at, checkpoints_from, chunk_stream-exact}

-- The ranges of the checkpoints lie end to end from `start` to `stop`, each of 1 to `size`.
abbrev pub TilesFrom : ℕ → ℕ → ℕ → List TimeFenceCheckpoint → Type 0
TilesFrom size start stop [] = start ≡ stop
TilesFrom size start stop (c ∷ cs) =
    (c.start_seq ≡ start)
    × (is_valid_range c ≡ true)
    × (0 < c.len)
    × (c.len ≤ size)
    × (c.end_seq ≡ start + c.len)
    × TilesFrom size (start + c.len) stop cs

-- Each checkpoint is adjacent to the next.
abbrev pub AreAdjacent : List TimeFenceCheckpoint → Type 0
AreAdjacent [] = Unit
AreAdjacent (c ∷ []) = Unit
AreAdjacent (c ∷ d ∷ cs) = (adjacent_to c d ≡ true) × AreAdjacent (d ∷ cs)

module _ {p : ℕ} (fits : Fits p) (q : ℕ) (hq : 0 < q) (stream_id : String) (epoch size : ℕ) where
  checkpoint-range :
      (idx : ℕ) (chunk : List ℕ)
      → idx * size + length chunk < 2 ^ 64
      → 0 < length chunk
      → length chunk ≤ size
      → let c = checkpoint_at fits q hq stream_id epoch size idx chunk in
        (c.start_seq ≡ idx * size)
        × (is_valid_range c ≡ true)
        × (0 < c.len)
        × (c.len ≤ size)
        × (c.end_seq ≡ idx * size + c.len)
        × (c.len ≡ length chunk)
  unfolding checkpoint_at new is_valid_range
  checkpoint-range idx chunk h l s = ground arith

  -- Behind a chunk, whether it is the last one or not.
  tiles_rest :
      (idx : ℕ) (xs : List ℕ)
      → (idx * size + size + length (drop size xs) < 2 ^ 64
          → TilesFrom size (idx * size + size) (idx * size + size + length (drop size xs)) (
              checkpoints_from fits q hq stream_id epoch size
                (idx + 1)
                (chunks size (drop size xs))))
      → idx * size + length xs < 2 ^ 64
      → TilesFrom size
          (idx * size + length (take size xs))
          (idx * size + length xs)
          (checkpoints_from fits q hq stream_id epoch size (idx + 1) (chunks size (drop size xs)))
  unfolding checkpoints_from
  tiles_rest idx xs more fit = elim (dec_lt size (length xs)) [
    | yes long ↦
        let full : length (take size xs) ≡ size = omega (arith, length-take size xs) in
        let stop : idx * size + length xs ≡ idx * size + size + length (drop size xs) =
          omega (arith, length-drop size xs) in
        rw (full, stop) (more (omega (arith, length-drop size xs)))
    | no last ↦
        rw (chunks_zero size (drop size xs) (omega (arith, length-drop size xs)))
          (omega (arith, length-take size xs))
  ]

  tiles :
      (rounds idx : ℕ) (xs : List ℕ)
      → 0 < size
      → length xs ≤ rounds
      → idx * size + length xs < 2 ^ 64
      → TilesFrom size
          (idx * size)
          (idx * size + length xs)
          (checkpoints_from fits q hq stream_id epoch size idx (chunks size xs))
  unfolding checkpoints_from
  tiles rounds idx [] h enough fit = rw chunks-nil (omega arith)
  tiles zero idx (x ∷ xs) h enough fit = absurd (omega arith)
  tiles (suc rounds) idx (x ∷ xs) h enough fit =
      let l = x ∷ xs in
      let head = length-take size l in
      let r =
        checkpoint-range idx (take size l) (omega (arith, head)) (omega (arith, head))
          (omega (arith, head)) in
      let next : suc idx * size ≡ idx * size + size = suc-mul idx size in
      let more = λ (f : idx * size + size + length (drop size l) < 2 ^ 64).
        rw (next, ← add-one) at
          (tiles rounds (suc idx) (drop size l) h (omega (arith, length-drop size l))
            (rw next f)) in
      rw (chunks_pos size l h (omega arith))
        (r.0, r.1, r.2, r.3, r.4, rw r.5 (tiles_rest idx l more fit))

  meets :
      (i : ℕ) (c : List ℕ) (j : ℕ) (d : List ℕ)
      → (checkpoint_at fits q hq stream_id epoch size i c).end_seq
        ≡ (checkpoint_at fits q hq stream_id epoch size j d).start_seq
      → adjacent_to
          (checkpoint_at fits q hq stream_id epoch size i c)
          (checkpoint_at fits q hq stream_id epoch size j d)
        ≡ true
  unfolding checkpoint_at new adjacent_to
  meets i c j d h = ground (arith, eq_iff stream_id stream_id)

  adjacent :
      (idx start stop : ℕ) (cs : List (List ℕ))
      → TilesFrom size start stop (checkpoints_from fits q hq stream_id epoch size idx cs)
      → AreAdjacent (checkpoints_from fits q hq stream_id epoch size idx cs)
  unfolding checkpoints_from
  adjacent idx start stop [] h = tt
  adjacent idx start stop (c ∷ []) h = tt
  adjacent idx start stop (c ∷ d ∷ cs) h =
      (meets idx c (idx + 1) d (h.4 ∙ sym h.5.0), adjacent (idx + 1) _ stop (d ∷ cs) h.5)

  -- For a modulus of at most 2 ^ 64, a base and a chunk size that are not 0, and a stream of less
  -- than 2 ^ 64 elements, the chunker returns; its checkpoints have valid ranges of 1 to the chunk
  -- size, which tile the stream from 0 to its length, and each is adjacent to the next.
  pub chunk_stream-tiles :
      (xs : List ℕ)
      → 0 < size
      → length xs < 2 ^ 64
      → (cs : ChunkedStream) × (chunk_stream stream_id epoch xs size q p ≡ some cs)
        × TilesFrom size 0 (length xs) cs.checkpoints
        × AreAdjacent cs.checkpoints
  chunk_stream-tiles xs h fit =
      let tiled =
        simp (zero-mul, zero-add) at
          (tiles (length xs) 0 xs h (le_refl _) (omega (arith, zero-mul size))) in
      (
        record { checkpoints = checkpoints_from fits q hq stream_id epoch size 0 (chunks size xs) },
        chunk_stream-exact fits q hq stream_id epoch size xs h,
        tiled,
        adjacent 0 0 (length xs) (chunks size xs) tiled,
      )
