-- ===== src/Baseline/Merkle/Total.antt =====
-- The loops of the Merkle root in timefence-core/baseline.rs: how many leaves each level has.
use k_sentry.Prelude.{
  ℕ, zero, suc, ◌+◌, ◌/◌, ◌≤◌, ◌<◌, ◌≡◌, refl, arith, some, List, [], ◌∷◌, length, lt→ltb,
}
use k_sentry.Baseline.{next_level, merkle_loop, or_empty_hash, merkle_leaves, merkle_root}

module _ (blake3 : List ℕ → List ℕ) where
  pub length-next_level :
      (leaves : List (List ℕ)) → length (next_level blake3 leaves) ≡ (length leaves + 1) / 2
  unfolding next_level
  length-next_level [] = refl
  length-next_level (leaf ∷ []) = refl
  length-next_level (left ∷ right ∷ leaves) = omega (arith, length-next_level leaves)

  merkle_loop-returns :
      (rounds : ℕ) (leaves : List (List ℕ))
      → 0 < length leaves
      → length leaves ≤ suc rounds
      → (root : List ℕ) × (merkle_loop blake3 rounds leaves ≡ some root)
  unfolding merkle_loop
  merkle_loop-returns rounds [] some_leaf h = absurd (omega arith)
  merkle_loop-returns rounds (root ∷ []) some_leaf h = (root, refl)
  merkle_loop-returns zero (left ∷ right ∷ leaves) some_leaf h = absurd (omega arith)
  merkle_loop-returns (suc rounds) (left ∷ right ∷ leaves) some_leaf h =
      let next = next_level blake3 (left ∷ right ∷ leaves) in
      let count = length-next_level (left ∷ right ∷ leaves) in
      merkle_loop-returns rounds next (omega (arith, count)) (omega (arith, count))

  or_empty_hash-some : (leaves : List (List ℕ)) → 0 < length (or_empty_hash blake3 leaves)
  unfolding or_empty_hash
  or_empty_hash-some [] = omega arith
  or_empty_hash-some (leaf ∷ leaves) = omega arith

  -- For every list of events and every chunk size above 0 the loop of levels ends with one root,
  -- also for no events.
  pub merkle_root-returns :
      (events : List ℕ) (chunk_size : ℕ)
      → 0 < chunk_size
      → (root : List ℕ) × (merkle_root blake3 events chunk_size ≡ some root)
  unfolding merkle_root
  merkle_root-returns events chunk_size h =
      let leaves = or_empty_hash blake3 (merkle_leaves blake3 chunk_size events) in
      let r =
        merkle_loop-returns (length leaves) leaves
          (or_empty_hash-some (merkle_leaves blake3 chunk_size events)) (omega arith) in
      (r.0, rw (lt→ltb 0 chunk_size h) r.1)
