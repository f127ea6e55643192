-- ===== src/Fault.antt =====
-- timefence-core/src/fault.rs: the faults of a telemetry pipeline. The code writes them for `u128`
-- streams; timefence-core/src/incident.rs repeats the same loops on events, so they are generic
-- here. `none` is an index out of range, at which Rust panics.
pub mod Kind
pub mod Effect
pub mod Tests
use Kind.{FaultKind}
use k_sentry.Prelude.{
  ℕ, ◌+◌, ◌-◌, Option, none, some, List, [], ◌∷◌, ◌++◌, length, get_elem?, set, take, drop, ◌==◌,
  ltb, if◌then◌else◌, ◌>>=◌,
}

module _ {ℓ} {A : Type ℓ} where
  -- `filter_map` over the enumerated stream; `i` is the index of the first element that is left.
  unfoldable pub drop_loop : ℕ → ℕ → List A → List A
  drop_loop index i [] = []
  drop_loop index i (x ∷ xs) =
      let rest = drop_loop index (i + 1) xs in if i == index then rest else x ∷ rest

  unfoldable pub drop_one : List A → ℕ → List A
  drop_one xs index = drop_loop index 0 xs

  -- `out.swap(i, j)`
  unfoldable pub swap : List A → ℕ → ℕ → Option (List A)
  swap out i j = do x ← get_elem? out i; y ← get_elem? out j; some (set (set out i y) j x)

  unfoldable pub swap_adjacent : List A → ℕ → Option (List A)
  swap_adjacent xs index =
      if ltb (index + 1) (length xs) then swap xs index (index + 1) else some xs

  unfoldable pub duplicate_loop : ℕ → ℕ → List A → List A
  duplicate_loop index i [] = []
  duplicate_loop index i (x ∷ xs) =
      let rest = duplicate_loop index (i + 1) xs in if i == index then x ∷ x ∷ rest else x ∷ rest

  unfoldable pub duplicate_one : List A → ℕ → List A
  duplicate_one xs index = duplicate_loop index 0 xs

  unfoldable pub truncate_tail : List A → ℕ → List A
  truncate_tail xs new_len = take new_len xs

  unfoldable pub splice_old_prefix : List A → List A → ℕ → List A
  splice_old_prefix current old prefix_len = take prefix_len old ++ drop prefix_len current

abbrev pub old_stream : List ℕ
old_stream = 999 ∷ 888 ∷ 777 ∷ 666 ∷ []

unfoldable pub inject_fault : List ℕ → FaultKind → Option (List ℕ)
inject_fault xs FaultKind.none = some xs
inject_fault xs FaultKind.drop_one = some (drop_one xs 1)
inject_fault xs FaultKind.swap_adjacent = swap_adjacent xs 1
inject_fault xs FaultKind.duplicate_one = some (duplicate_one xs 1)
inject_fault xs FaultKind.truncate_tail = some (truncate_tail xs (length xs - 1))
inject_fault xs FaultKind.splice_old_prefix = some (splice_old_prefix xs old_stream 2)
