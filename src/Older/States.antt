-- ===== src/Older/States.antt =====
-- ksentry-metrics/src/bin/main1.rs: the states of prefixes and of a shifted log, where two logs
-- differ, and the reordering attack. `none` is a failed assertion or `expect`, or an index out of
-- range.
pub mod Prefix
pub mod Compose
pub mod Info
pub mod Reorder
pub mod Tests
use k_sentry.Prelude.{
  ℕ, zero, suc, ◌+◌, ◌-◌, ◌/◌, ◌%◌, ◌^◌, min, Option, none, some, List, [], ◌∷◌, length, get_elem?,
  set, take, drop, Bool, not, ◌||◌, ltb, leb, ◌==◌, if◌then◌else◌, ◌>>=◌, ◌>>◌, assert,
}
use k_sentry.Field.{u64, u128}
use k_sentry.Metrics.Mismatch.{MismatchInfo, first, last, is_empty, indices_loop}
use k_sentry.Older.{KSentry, weight_for_index, absorb, state_for_logs}

-- The loop of `prefix_states`; `i` is the index of the first element that is left.
unfoldable pub prefix_loop : KSentry → ℕ → ℕ → List ℕ → Option (List ℕ)
prefix_loop ks i state [] = some []
prefix_loop ks i state (li_raw ∷ logs) = do
  w ← weight_for_index ks i
  let next = absorb ks state li_raw w
  states ← prefix_loop ks (i + 1) next logs
  some (next ∷ states)

unfoldable pub prefix_states : KSentry → List ℕ → Option (List ℕ)
prefix_states ks logs = prefix_loop ks 0 0 logs

unfoldable pub checked_add : ℕ → ℕ → Option ℕ
checked_add a b = if ltb (a + b) (2 ^ 64) then some (a + b) else none

unfoldable pub shifted_loop : KSentry → ℕ → ℕ → ℕ → List ℕ → Option ℕ
shifted_loop ks offset j state [] = some state
shifted_loop ks offset j state (li_raw ∷ logs) = do
  idx ← checked_add offset j
  w ← weight_for_index ks idx
  shifted_loop ks offset (j + 1) (absorb ks state li_raw w) logs

unfoldable pub shifted_state_for_logs : KSentry → List ℕ → ℕ → Option ℕ
shifted_state_for_logs ks logs offset = shifted_loop ks offset 0 0 logs

unfoldable pub weight_at : KSentry → ℕ → Option ℕ
weight_at ks index = weight_for_index ks index

-- The loop over the indices below both lengths is that of the newer binary.
unfoldable pub mismatch_info : List ℕ → List ℕ → MismatchInfo
mismatch_info logs1 logs2 =
    let n = min (length logs1) (length logs2) in
    let longer = if leb (length logs1) (length logs2) then length logs2 else length logs1 in
    let indices = indices_loop 0 logs1 logs2 in
    record {
      mismatch_exists = not (is_empty indices) || not (length logs1 == length logs2);
      first_index = first indices;
      last_index = last indices;
      mismatch_count = length indices + longer - n;
      mismatch_indices = indices;
    }

-- `(0..n).find(...)` over two lists; `i` is the index of their first elements.
unfoldable pub divergence_loop : ℕ → List ℕ → List ℕ → Option ℕ
divergence_loop i [] ys = none
divergence_loop i (x ∷ xs) [] = none
divergence_loop i (x ∷ xs) (y ∷ ys) =
    let rest = divergence_loop (i + 1) xs ys in if not (x == y) then some i else rest

unfoldable pub first_prefix_divergence : List ℕ → List ℕ → Option ℕ
first_prefix_divergence prefix1 prefix2 = divergence_loop 0 prefix1 prefix2

unfoldable pub detect_change : ℕ → ℕ → Bool
detect_change original changed = not (original == changed)

-- `out.swap(0, j)`
unfoldable pub swap_ends : List ℕ → ℕ → Option (List ℕ)
swap_ends out j = do x ← get_elem? out 0; y ← get_elem? out j; some (set (set out 0 y) j x)

unfoldable pub run_reorder_attack : List ℕ → Option (List ℕ × (ℕ × ℕ))
run_reorder_attack logs =
    let j = length logs - 1 in
    if leb 2 (length logs)
    then (do out ← swap_ends logs j; some (out, (0, j)))
    else some (logs, (0, 0))

-- What `main` computes for the line on composition.
unfoldable pub composition_holds : KSentry → List ℕ → Option Bool
composition_holds ks usable_logs =
    let mid = length usable_logs / 2 in
    let a = take mid usable_logs in
    let b = drop mid usable_logs in
    do
      state_a ← state_for_logs ks a
      shifted_b ← shifted_state_for_logs ks b (length a)
      direct ← state_for_logs ks usable_logs
      some (u64 (u128 (state_a + shifted_b) % ks.p) == direct)
