-- ===== src/Baseline/Merkle/Forged.antt =====
-- Merkle roots of timefence-core/baseline.rs that two lists of events of other lengths share.
use k_sentry.Prelude.{
  ℕ, zero, suc, ◌+◌, ◌*◌, ◌≤◌, ◌<◌, ◌≡◌, refl, sym, ap, ap₂, ◌∙◌, arith, some, List, [], ◌∷◌, ◌++◌,
  length, length-append, length-take, length-drop, take, drop, take-append-drop, take-length_le,
  All, take-All, drop-All, append-All, lt→ltb,
}
use k_sentry.Chunker.Chunks.{chunks, chunks_pos, chunks_zero}
use k_sentry.Baseline.{
  u128_to_bytes, le_bytes, merkle_parent, next_level, merkle_loop, or_empty_hash, merkle_leaves,
  merkle_root,
}
use k_sentry.Baseline.Bytes.{
  IsByte, IsU128, of_le_bytes, of_le_bytes-lt, le_bytes-of_le_bytes, event_bytes,
  update_all-appends,
}

-- The `n` events whose bytes are the given ones.
abbrev pub events_of_bytes : ℕ → List ℕ → List ℕ
events_of_bytes zero bytes = []
events_of_bytes (suc n) bytes = of_le_bytes (take 16 bytes) ∷ events_of_bytes n (drop 16 bytes)

length-events_of_bytes : (n : ℕ) (bytes : List ℕ) → length (events_of_bytes n bytes) ≡ n
length-events_of_bytes zero bytes = refl
length-events_of_bytes (suc n) bytes = ap suc (length-events_of_bytes n (drop 16 bytes))

events_of_bytes-IsU128 :
    (n : ℕ) (bytes : List ℕ)
    → length bytes ≡ 16 * n
    → All IsByte bytes
    → All IsU128 (events_of_bytes n bytes)
events_of_bytes-IsU128 zero bytes l h = tt
events_of_bytes-IsU128 (suc n) bytes l h = (
  of_le_bytes-lt 16 (take 16 bytes) (omega (arith, length-take 16 bytes))
      (take-All IsByte 16 bytes h),
  events_of_bytes-IsU128 n (drop 16 bytes) (omega (arith, length-drop 16 bytes))
      (drop-All IsByte 16 bytes h),
)

event_bytes-events_of_bytes :
    (n : ℕ) (bytes : List ℕ)
    → length bytes ≡ 16 * n
    → All IsByte bytes
    → event_bytes (events_of_bytes n bytes) ≡ bytes
unfolding u128_to_bytes
event_bytes-events_of_bytes zero [] l h = refl
event_bytes-events_of_bytes zero (b ∷ bytes) l h = absurd (omega arith)
event_bytes-events_of_bytes (suc n) bytes l h =
    let first = take 16 bytes in
    let size : length first ≡ 16 = omega (arith, length-take 16 bytes) in
    ap₂ (λ xs ys. xs ++ ys)
      (ap (λ (k : ℕ). le_bytes k (of_le_bytes first)) (sym size)
        ∙ le_bytes-of_le_bytes first (take-All IsByte 16 bytes h))
      (event_bytes-events_of_bytes n (drop 16 bytes) (omega (arith, length-drop 16 bytes))
        (drop-All IsByte 16 bytes h))
    ∙ take-append-drop 16 bytes

module _ (blake3 : List ℕ → List ℕ) (hash_length : (bytes : List ℕ) → length (blake3 bytes) ≡ 32)
    (hash_bytes : (bytes : List ℕ) → All IsByte (blake3 bytes)) (size : ℕ) where
  one_chunk :
      (events : List ℕ)
      → 0 < length events
      → length events ≤ size
      → merkle_root blake3 events size ≡ some (blake3 (event_bytes events))
  unfolding merkle_root merkle_leaves or_empty_hash merkle_loop
  one_chunk events h l =
      let rest = chunks_zero size (drop size events) (omega (arith, length-drop size events)) in
      let cut : chunks size events ≡ take size events ∷ [] =
        chunks_pos size events (omega arith) h ∙ ap (λ t. take size events ∷ t) rest in
      rw
        (
          lt→ltb 0 size (omega arith),
          cut,
          take-length_le size events l,
          update_all-appends [] events,
        )
        refl

  two_chunks :
      (events : List ℕ)
      → size < length events
      → length events ≤ size + size
      → 0 < size
      → merkle_root blake3 events size
        ≡ some (
            blake3
              (blake3 (event_bytes (take size events)) ++ blake3 (event_bytes (drop size events))))
  unfolding merkle_root merkle_leaves or_empty_hash merkle_loop next_level merkle_parent
  two_chunks events h l some_size =
      let second = drop size events in
      let left = length-drop size events in
      let rest =
        chunks_zero size (drop size second) (omega (arith, left, length-drop size second)) in
      let cut : chunks size events ≡ take size events ∷ second ∷ [] =
        chunks_pos size events some_size (omega arith)
        ∙ ap (λ t. take size events ∷ t)
            (chunks_pos size second some_size (omega (arith, left))
              ∙ ap (λ t. take size second ∷ t) rest
              ∙ ap (λ (t : List ℕ). t ∷ []) (take-length_le size second (omega (arith, left)))) in
      rw
        (
          lt→ltb 0 size some_size,
          cut,
          update_all-appends [] (take size events),
          update_all-appends [] second,
        )
        refl

  -- The hash has 32 bytes and a chunk 4 events or more: for every list of events that makes two
  -- chunks there is a list of 4 `u128` events with the same Merkle root. The root does not say how
  -- many events there are.
  pub merkle_root-forged :
      (events : List ℕ)
      → 4 ≤ size
      → size < length events
      → length events ≤ size + size
      → (forged : List ℕ) × (length forged ≡ 4)
        × All IsU128 forged
        × (merkle_root blake3 forged size ≡ merkle_root blake3 events size)
  merkle_root-forged events four h l =
      let upper = blake3 (event_bytes (take size events)) in
      let lower = blake3 (event_bytes (drop size events)) in
      let bytes = upper ++ lower in
      let count : length bytes ≡ 16 * 4 = omega (
        arith,
        length-append upper lower,
        hash_length (event_bytes (take size events)),
        hash_length (event_bytes (drop size events)),
      ) in
      let all_bytes : All IsByte bytes =
        append-All IsByte upper lower (hash_bytes (event_bytes (take size events)))
          (hash_bytes (event_bytes (drop size events))) in
      let forged = events_of_bytes 4 bytes in
      let four_events : length forged ≡ 4 = length-events_of_bytes 4 bytes in
      (
        forged,
        four_events,
        events_of_bytes-IsU128 4 bytes count all_bytes,
        one_chunk forged (omega (arith, four_events)) (omega (arith, four_events))
            ∙ ap (λ (t : List ℕ). some (blake3 t))
                (event_bytes-events_of_bytes 4 bytes count all_bytes)
            ∙ sym (two_chunks events h l (omega arith)),
      )
