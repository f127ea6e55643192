-- ===== src/Verified/Mismatch.antt =====
-- proofs/finaltest_timefence_core_verified.rs: the executable search for the first mismatch of two
-- traces. `none` is an index out of range, at which Rust panics.
pub mod First
pub mod Contract
use k_sentry.Prelude.{
  ℕ, zero, suc, ◌+◌, ◌<◌, ◌≡◌, ◌≢◌, length, Option, none, some, ◌>>=◌, List, [], ◌∷◌, Bool, true,
  false, not, ◌==◌, if◌then◌else◌,
}
use k_sentry.Verified.Prefix.{elem}

abbrev pub FirstMismatchAt : List ℕ → List ℕ → ℕ → Type 0
FirstMismatchAt w w2 idx =
    (length w ≡ length w2)
    × (idx < length w)
    × (elem w idx ≢ elem w2 idx)
    × ((j : ℕ) → j < idx → elem w j ≡ elem w2 j)

-- `while i < logs1.len()`; the lists hold the logs from index `i` on.
unfoldable pub find_loop : ℕ → List ℕ → List ℕ → Option (Bool × ℕ × ℕ × ℕ)
find_loop i [] logs2 = some (false, 0, 0, 0)
find_loop i (x ∷ logs1) [] = none
find_loop i (x ∷ logs1) (y ∷ logs2) =
    let rest = find_loop (i + 1) logs1 logs2 in if not (x == y) then some (true, i, x, y) else rest

unfoldable pub find_first_mismatch : List ℕ → List ℕ → Option (Bool × ℕ × ℕ × ℕ)
find_first_mismatch logs1 logs2 = find_loop 0 logs1 logs2

unfoldable pub same_or_first_mismatch_index : List ℕ → List ℕ → Option (Bool × ℕ)
same_or_first_mismatch_index logs1 logs2 = do
  t ← find_first_mismatch logs1 logs2
  if t.0 then some (true, t.1) else some (false, 0)
