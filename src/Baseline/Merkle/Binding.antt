-- ===== src/Baseline/Merkle/Binding.antt =====
-- What the Merkle root of timefence-core/baseline.rs says about the events.
use mathlib.Core.Option.{some-injective}
use k_sentry.Prelude.{
  ℕ, zero, suc, ◌+◌, ◌/◌, ◌≤◌, ◌<◌, ◌≡◌, ◌≢◌, refl, sym, ap, ap₂, ◌∙◌, subst, arith, some, List, [],
  ◌∷◌, ◌++◌, map, length, length-map, lt→ltb, take, drop, take-append-drop, All, take-All, drop-All,
  length-drop,
}
use k_sentry.Chunker.Chunks.{chunks, chunks_loop, chunks_pos}
use k_sentry.Baseline.{
  merkle_parent, next_level, merkle_loop, or_empty_hash, merkle_leaves, merkle_root, update_all,
}
use k_sentry.Baseline.Bytes.{IsU128, append_cancel, update_all-injective}
use k_sentry.Baseline.Merkle.Total.{length-next_level, merkle_root-returns}

abbrev head_or : List ℕ → List (List ℕ) → List ℕ
head_or d [] = d
head_or d (x ∷ xs) = x

abbrev tail : List (List ℕ) → List (List ℕ)
tail [] = []
tail (x ∷ xs) = xs

module _ (blake3 : List ℕ → List ℕ) where
  -- The hash tells two texts apart.
  abbrev pub Apart : List ℕ → List ℕ → Type 0
  Apart xs ys = blake3 xs ≡ blake3 ys → xs ≡ ys

  -- It tells apart what the two runs hash at one position of a level, of all levels, of the chunks.
  abbrev pub LevelApart : List (List ℕ) → List (List ℕ) → Type 0
  LevelApart [] ys = Unit
  LevelApart (x ∷ []) ys = Unit
  LevelApart (x ∷ x' ∷ xs) [] = Unit
  LevelApart (x ∷ x' ∷ xs) (y ∷ []) = Unit
  LevelApart (x ∷ x' ∷ xs) (y ∷ y' ∷ ys) = Apart (x ++ x') (y ++ y') × LevelApart xs ys

  abbrev pub LevelsApart : ℕ → List (List ℕ) → List (List ℕ) → Type 0
  LevelsApart zero xs ys = Unit
  LevelsApart (suc rounds) xs ys =
      LevelApart xs ys × LevelsApart rounds (next_level blake3 xs) (next_level blake3 ys)

  abbrev pub ChunksApart : List (List ℕ) → List (List ℕ) → Type 0
  ChunksApart [] ys = Unit
  ChunksApart (x ∷ xs) [] = Unit
  ChunksApart (x ∷ xs) (y ∷ ys) = Apart (update_all [] x) (update_all [] y) × ChunksApart xs ys

  -- No two different texts that the two runs hash at one position have one hash.
  abbrev pub RunsApart : ℕ → List ℕ → List ℕ → Type 0
  RunsApart chunk_size xs ys =
      ChunksApart (chunks chunk_size xs) (chunks chunk_size ys)
      × LevelsApart (length (chunks chunk_size xs)) (merkle_leaves blake3 chunk_size xs)
          (merkle_leaves blake3 chunk_size ys)

  abbrev Is32 : List ℕ → Type 0
  Is32 x = length x ≡ 32

  module _ (hash_length : (bytes : List ℕ) → length (blake3 bytes) ≡ 32) where
    next_level-Is32 : (xs : List (List ℕ)) → All Is32 xs → All Is32 (next_level blake3 xs)
    unfolding next_level merkle_parent
    next_level-Is32 [] h = tt
    next_level-Is32 (x ∷ []) h = h
    next_level-Is32 (x ∷ x' ∷ xs) (hx, h) = (hash_length (x ++ x'), next_level-Is32 xs h.1)

    next_level-injective :
        (xs ys : List (List ℕ))
        → length xs ≡ length ys
        → All Is32 xs
        → All Is32 ys
        → LevelApart xs ys
        → next_level blake3 xs ≡ next_level blake3 ys
        → xs ≡ ys
    unfolding next_level merkle_parent
    next_level-injective [] [] l hx hy apart e = refl
    next_level-injective [] (y ∷ ys) l hx hy apart e = absurd (omega arith)
    next_level-injective (x ∷ xs) [] l hx hy apart e = absurd (omega arith)
    next_level-injective (x ∷ []) (y ∷ []) l hx hy apart e = e
    next_level-injective (x ∷ []) (y ∷ y' ∷ ys) l hx hy apart e = absurd (omega arith)
    next_level-injective (x ∷ x' ∷ xs) (y ∷ []) l hx hy apart e = absurd (omega arith)
    next_level-injective (x ∷ x' ∷ xs) (y ∷ y' ∷ ys) l (hx, hxs) (hy, hys) apart e =
        let pair = append_cancel x y x' y' (hx ∙ sym hy) (apart.0 (ap (head_or []) e)) in
        let rest = next_level-injective xs ys (omega arith) hxs.1 hys.1 apart.1 (ap tail e) in
        ap₂ (λ t ts. t ∷ ts) pair.0 (ap₂ (λ t ts. t ∷ ts) pair.1 rest)

    merkle_loop-injective :
        (rounds : ℕ) (xs ys : List (List ℕ)) (root : List ℕ)
        → length xs ≡ length ys
        → All Is32 xs
        → All Is32 ys
        → LevelsApart rounds xs ys
        → merkle_loop blake3 rounds xs ≡ some root
        → merkle_loop blake3 rounds ys ≡ some root
        → xs ≡ ys
    unfolding merkle_loop
    merkle_loop-injective rounds [] [] root l hx hy apart ex ey = refl
    merkle_loop-injective rounds [] (y ∷ ys) root l hx hy apart ex ey = absurd (omega arith)
    merkle_loop-injective rounds (x ∷ xs) [] root l hx hy apart ex ey = absurd (omega arith)
    merkle_loop-injective rounds (x ∷ []) (y ∷ []) root l hx hy apart ex ey =
        ap (λ t. t ∷ []) (some-injective x root ex ∙ sym (some-injective y root ey))
    merkle_loop-injective rounds (x ∷ []) (y ∷ y' ∷ ys) root l hx hy apart ex ey =
        absurd (omega arith)
    merkle_loop-injective rounds (x ∷ x' ∷ xs) (y ∷ []) root l hx hy apart ex ey =
        absurd (omega arith)
    merkle_loop-injective zero (x ∷ x' ∷ xs) (y ∷ y' ∷ ys) root l hx hy apart ex ey =
        absurd (ground (arith, ex))
    merkle_loop-injective (suc rounds) (x ∷ x' ∷ xs) (y ∷ y' ∷ ys) root l hx hy apart ex ey =
        let upper = x ∷ x' ∷ xs in
        let lower = y ∷ y' ∷ ys in
        next_level-injective upper lower l hx hy apart.0 (
          merkle_loop-injective rounds (next_level blake3 upper) (next_level blake3 lower) root
            (length-next_level blake3 upper
              ∙ ap (λ (n : ℕ). (n + 1) / 2) l
              ∙ sym (length-next_level blake3 lower))
            (next_level-Is32 upper hx) (next_level-Is32 lower hy) apart.1 ex ey)

  leaves-Is32 :
      (hash_length : (bytes : List ℕ) → length (blake3 bytes) ≡ 32) (cs : List (List ℕ))
      → All Is32 (map (λ chunk. blake3 (update_all [] chunk)) cs)
  leaves-Is32 hash_length [] = tt
  leaves-Is32 hash_length (c ∷ cs) = (hash_length (update_all [] c), leaves-Is32 hash_length cs)

  leaves-injective :
      (cs ds : List (List ℕ))
      → length cs ≡ length ds
      → All (All IsU128) cs
      → All (All IsU128) ds
      → ChunksApart cs ds
      → map (λ chunk. blake3 (update_all [] chunk)) cs
        ≡ map (λ chunk. blake3 (update_all [] chunk)) ds
      → cs ≡ ds
  leaves-injective [] [] l hc hd apart e = refl
  leaves-injective [] (d ∷ ds) l hc hd apart e = absurd (omega arith)
  leaves-injective (c ∷ cs) [] l hc hd apart e = absurd (omega arith)
  leaves-injective (c ∷ cs) (d ∷ ds) l (hc, hcs) (hd, hds) apart e =
      ap₂ (λ t ts. t ∷ ts) (update_all-injective c d hc hd (apart.0 (ap (head_or []) e)))
        (leaves-injective cs ds (omega arith) hcs hds apart.1 (ap tail e))

  or_empty_hash-same :
      (leaves : List (List ℕ)) → 0 < length leaves → or_empty_hash blake3 leaves ≡ leaves
  unfolding or_empty_hash
  or_empty_hash-same [] h = absurd (omega arith)
  or_empty_hash-same (leaf ∷ leaves) h = refl

-- The chunks of a list, one behind the other.
abbrev join : List (List ℕ) → List ℕ
join [] = []
join (c ∷ cs) = c ++ join cs

module _ (size : ℕ) (some_size : 0 < size) where
  join-chunks_loop :
      (rounds : ℕ) (xs : List ℕ) → length xs ≤ rounds → join (chunks_loop rounds size xs) ≡ xs
  unfolding chunks_loop
  join-chunks_loop zero [] h = refl
  join-chunks_loop zero (x ∷ xs) h = absurd (omega arith)
  join-chunks_loop (suc rounds) [] h = refl
  join-chunks_loop (suc rounds) (x ∷ xs) h =
      ap (λ t. take size (x ∷ xs) ++ t)
        (join-chunks_loop rounds (drop size (x ∷ xs)) (omega (arith, length-drop size (x ∷ xs))))
      ∙ take-append-drop size (x ∷ xs)

  length-chunks_loop :
      (rounds : ℕ) (xs ys : List ℕ)
      → length xs ≡ length ys
      → length (chunks_loop rounds size xs) ≡ length (chunks_loop rounds size ys)
  unfolding chunks_loop
  length-chunks_loop zero xs ys h = refl
  length-chunks_loop (suc rounds) [] [] h = refl
  length-chunks_loop (suc rounds) [] (y ∷ ys) h = absurd (omega arith)
  length-chunks_loop (suc rounds) (x ∷ xs) [] h = absurd (omega arith)
  length-chunks_loop (suc rounds) (x ∷ xs) (y ∷ ys) h = ap suc (
      length-chunks_loop rounds (drop size (x ∷ xs)) (drop size (y ∷ ys))
        (omega (arith, length-drop size (x ∷ xs), length-drop size (y ∷ ys))))

  chunks_loop-All :
      (rounds : ℕ) (xs : List ℕ) → All IsU128 xs → All (All IsU128) (chunks_loop rounds size xs)
  unfolding chunks_loop
  chunks_loop-All zero xs h = tt
  chunks_loop-All (suc rounds) [] h = tt
  chunks_loop-All (suc rounds) (x ∷ xs) h = (
    take-All IsU128 size (x ∷ xs) h,
    chunks_loop-All rounds (drop size (x ∷ xs)) (drop-All IsU128 size (x ∷ xs) h),
  )

module _ (blake3 : List ℕ → List ℕ) (hash_length : (bytes : List ℕ) → length (blake3 bytes) ≡ 32)
    (size : ℕ) (some_size : 0 < size) where
  merkle_root-leaves :
      (events : List ℕ)
      → 0 < length events
      → merkle_root blake3 events size
        ≡ merkle_loop blake3 (length (chunks size events)) (merkle_leaves blake3 size events)
  unfolding merkle_root merkle_leaves
  merkle_root-leaves events h =
      let leaf = λ (chunk : List ℕ). blake3 (update_all [] chunk) in
      let count : length (map leaf (chunks size events)) ≡ length (chunks size events) =
        length-map leaf (chunks size events) in
      let some_chunk : 0 < length (chunks size events) =
        subst (λ (cs : List (List ℕ)). 0 < length cs) (sym (chunks_pos size events some_size h))
          (omega arith) in
      rw
        (
          lt→ltb 0 size some_size,
          or_empty_hash-same blake3 (map leaf (chunks size events))
              (omega (arith, count, some_chunk)),
          count,
        )
        refl

  merkle_root-binding :
      (xs ys : List ℕ)
      → length xs ≡ length ys
      → All IsU128 xs
      → All IsU128 ys
      → RunsApart blake3 size xs ys
      → merkle_root blake3 xs size ≡ merkle_root blake3 ys size
      → xs ≡ ys
  unfolding merkle_leaves chunks
  merkle_root-binding [] [] l hx hy apart e = refl
  merkle_root-binding [] (y ∷ ys) l hx hy apart e = absurd (omega arith)
  merkle_root-binding (x ∷ xs) [] l hx hy apart e = absurd (omega arith)
  merkle_root-binding (x ∷ xs) (y ∷ ys) l hx hy apart e =
      let cs = chunks size (x ∷ xs) in
      let ds = chunks size (y ∷ ys) in
      let upper = merkle_leaves blake3 size (x ∷ xs) in
      let lower = merkle_leaves blake3 size (y ∷ ys) in
      let returns = merkle_root-returns blake3 (x ∷ xs) size some_size in
      let same_count : length cs ≡ length ds =
        length-chunks_loop size some_size (suc (length xs)) (x ∷ xs) (y ∷ ys) l
        ∙ ap (λ (n : ℕ). length (chunks_loop n size (y ∷ ys))) l in
      let leaf = λ (chunk : List ℕ). blake3 (update_all [] chunk) in
      let leaves : upper ≡ lower =
        merkle_loop-injective blake3 hash_length (length cs) upper lower returns.0
          (length-map leaf cs ∙ same_count ∙ sym (length-map leaf ds))
          (leaves-Is32 blake3 hash_length cs) (leaves-Is32 blake3 hash_length ds) apart.1
          (sym (merkle_root-leaves (x ∷ xs) (omega arith)) ∙ returns.1)
          (ap (λ (n : ℕ). merkle_loop blake3 n lower) same_count
            ∙ sym (merkle_root-leaves (y ∷ ys) (omega arith))
            ∙ sym e
            ∙ returns.1) in
      let same : cs ≡ ds =
        leaves-injective blake3 cs ds same_count
          (chunks_loop-All size some_size (suc (length xs)) (x ∷ xs) hx)
          (chunks_loop-All size some_size (suc (length ys)) (y ∷ ys) hy) apart.0 leaves in
      sym (join-chunks_loop size some_size (suc (length xs)) (x ∷ xs) (omega arith))
      ∙ ap join same
      ∙ join-chunks_loop size some_size (suc (length ys)) (y ∷ ys) (omega arith)

  -- The hash has 32 bytes, the chunk size is above 0, and two different lists of `u128` events have
  -- one length: if no two different texts that the two runs hash at one position have one hash, the
  -- Merkle roots differ.
  pub merkle_root-detects :
      (xs ys : List ℕ)
      → length xs ≡ length ys
      → All IsU128 xs
      → All IsU128 ys
      → RunsApart blake3 size xs ys
      → xs ≢ ys
      → merkle_root blake3 xs size ≢ merkle_root blake3 ys size
  merkle_root-detects xs ys l hx hy apart other e =
      other (merkle_root-binding xs ys l hx hy apart e)
