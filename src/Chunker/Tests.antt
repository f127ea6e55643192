-- ===== src/Chunker/Tests.antt =====
-- The chunker's theorems at concrete streams.
use k_sentry.Prelude.{ℕ, ◌≡◌, arith, some, List, [], ◌∷◌, ◌++◌}
use k_sentry.Field.{Fits}
use k_sentry.Chunker.{ChunkedStream, chunk_stream, localize}
use k_sentry.Chunker.Localize.{localize-edit}
use k_sentry.Chunker.Layout.{TilesFrom, AreAdjacent, chunk_stream-tiles}

abbrev prime : ℕ
prime = 1_000_000_007

prime-Fits : Fits prime
prime-Fits = record { above_one = omega arith; within_u64 = omega arith }

abbrev before : List ℕ
before = 101 ∷ 202 ∷ 303 ∷ []

abbrev after : List ℕ
after = 505 ∷ 606 ∷ []

-- An element of the second chunk of two is changed.
localize-edit_example :
    localize "s" 0 (before ++ 404 ∷ after) (before ++ 405 ∷ after) 2 7 prime ≡ some (some 1)
localize-edit_example =
    localize-edit prime-Fits 7 (omega arith) "s" 0 2 142857144 before 404 405 after (omega arith)
      (omega arith)

chunk_stream-tiles_example :
    (cs : ChunkedStream) × (chunk_stream "s" 0 (before ++ 404 ∷ after) 2 7 prime ≡ some cs)
    × TilesFrom 2 0 6 cs.checkpoints
    × AreAdjacent cs.checkpoints
chunk_stream-tiles_example =
    chunk_stream-tiles prime-Fits 7 (omega arith) "s" 0 2 (before ++ 404 ∷ after) (omega arith)
      (omega arith)
