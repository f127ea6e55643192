-- ===== src/Metrics/Mismatch.antt =====
-- ksentry-metrics/src/main.rs: where two logs differ. `none` is a failed assertion, or an index or
-- a range out of bounds.
pub mod Find
pub mod Window
pub mod Localize
pub mod Divergence
use k_sentry.Prelude.{
  ℕ, zero, suc, ◌+◌, ◌-◌, Option, none, some, List, [], ◌∷◌, length, get_elem?, take, drop, Bool,
  true, false, not, ◌&&◌, ◌==◌, ltb, leb, if◌then◌else◌, ◌>>=◌, ◌>>◌, assert,
}
use mathlib.Core.Option
use k_sentry.Metrics.Sentry.{KSentry, prefix_states, state_for_logs, shifted_state_for_logs}

pub record MismatchInfo : Type 0 where
  pub mismatch_exists : Bool
  pub first_index : Option ℕ
  pub last_index : Option ℕ
  pub mismatch_count : ℕ
  pub mismatch_indices : List ℕ

pub record WindowLocalization : Type 0 where
  pub mismatch_exists : Bool
  pub start : Option ℕ
  pub end : Option ℕ
  pub original_window_state : Option ℕ
  pub changed_window_state : Option ℕ
  pub shifted_original_window_state : Option ℕ
  pub shifted_changed_window_state : Option ℕ

pub record PrefixDivergence : Type 0 where
  pub divergence_exists : Bool
  pub first_prefix_index : Option ℕ
  pub original_prefix_state : Option ℕ
  pub changed_prefix_state : Option ℕ

-- `assert_eq!(logs1.len(), logs2.len())`
abbrev pub assert_same_len : List ℕ → List ℕ → Option (Unit {0})
assert_same_len logs1 logs2 = assert (length logs1 == length logs2)

-- The loop over the indices of two lists of one length: the first index at which they differ.
unfoldable pub first_loop : ℕ → List ℕ → List ℕ → Option (ℕ × ℕ × ℕ)
first_loop i [] ys = none
first_loop i (x ∷ xs) [] = none
first_loop i (x ∷ xs) (y ∷ ys) =
    let rest = first_loop (i + 1) xs ys in if x == y then rest else some (i, x, y)

unfoldable pub first_mismatch : List ℕ → List ℕ → Option (Option (ℕ × ℕ × ℕ))
first_mismatch logs1 logs2 = do assert_same_len logs1 logs2; some (first_loop 0 logs1 logs2)

unfoldable pub indices_loop : ℕ → List ℕ → List ℕ → List ℕ
indices_loop i [] ys = []
indices_loop i (x ∷ xs) [] = []
indices_loop i (x ∷ xs) (y ∷ ys) =
    let rest = indices_loop (i + 1) xs ys in if x == y then rest else i ∷ rest

unfoldable pub all_mismatch_indices : List ℕ → List ℕ → Option (List ℕ)
all_mismatch_indices logs1 logs2 = do assert_same_len logs1 logs2; some (indices_loop 0 logs1 logs2)

-- `first()` and `last()` of a slice.
unfoldable pub first : List ℕ → Option ℕ
first [] = none
first (x ∷ xs) = some x

unfoldable pub last : List ℕ → Option ℕ
last [] = none
last (x ∷ []) = some x
last (x ∷ y ∷ xs) = last (y ∷ xs)

unfoldable pub is_empty : List ℕ → Bool
is_empty [] = true
is_empty (x ∷ xs) = false

unfoldable pub mismatch_info : List ℕ → List ℕ → Option MismatchInfo
mismatch_info logs1 logs2 = do
  assert_same_len logs1 logs2
  mismatch_indices ← all_mismatch_indices logs1 logs2
  some (record {
    mismatch_exists = not (is_empty mismatch_indices);
    first_index = first mismatch_indices;
    last_index = last mismatch_indices;
    mismatch_count = length mismatch_indices;
    mismatch_indices = mismatch_indices;
  })

-- The reversed loop of `mismatch_window` over the indices from `start` on, `rounds` of them.
unfoldable pub last_loop : ℕ → ℕ → List ℕ → List ℕ → Option ℕ
last_loop start zero logs1 logs2 = some start
last_loop start (suc rounds) logs1 logs2 =
    let rest = last_loop start rounds logs1 logs2 in
    do
      x ← get_elem? logs1 (start + rounds)
      y ← get_elem? logs2 (start + rounds)
      if x == y then rest else some (start + rounds)

unfoldable pub window_from : List ℕ → List ℕ → Option (ℕ × ℕ × ℕ) → Option (Option (ℕ × ℕ))
window_from logs1 logs2 none = some none
window_from logs1 logs2 (some (start, x, y)) = do
  end ← last_loop start (length logs1 - start) logs1 logs2
  some (some (start, end))

unfoldable pub mismatch_window : List ℕ → List ℕ → Option (Option (ℕ × ℕ))
mismatch_window logs1 logs2 = do
  assert_same_len logs1 logs2
  found ← first_mismatch logs1 logs2
  window_from logs1 logs2 found

-- The result of the loop of `prefix_divergence`.
unfoldable pub divergence_at : Option (ℕ × ℕ × ℕ) → PrefixDivergence
divergence_at (some (i, x, y)) = record {
  divergence_exists = true;
  first_prefix_index = some i;
  original_prefix_state = some x;
  changed_prefix_state = some y;
}
divergence_at none = record {
  divergence_exists = false;
  first_prefix_index = none;
  original_prefix_state = none;
  changed_prefix_state = none;
}

unfoldable pub prefix_divergence : KSentry → List ℕ → List ℕ → Option PrefixDivergence
prefix_divergence ks logs1 logs2 = do
  assert_same_len logs1 logs2
  p1 ← prefix_states ks logs1
  p2 ← prefix_states ks logs2
  some (divergence_at (first_loop 0 p1 p2))

-- `&logs[start..=end]`
unfoldable pub slice : List ℕ → ℕ → ℕ → Option (List ℕ)
slice logs start end =
    if leb start (end + 1) && ltb end (length logs)
    then some (take (end + 1 - start) (drop start logs))
    else none

unfoldable pub window_at : KSentry → List ℕ → List ℕ → Option (ℕ × ℕ) → Option WindowLocalization
window_at ks logs1 logs2 none = some (record {
  mismatch_exists = false;
  start = none;
  end = none;
  original_window_state = none;
  changed_window_state = none;
  shifted_original_window_state = none;
  shifted_changed_window_state = none;
})
window_at ks logs1 logs2 (some (start, end)) = do
  original_window ← slice logs1 start end
  changed_window ← slice logs2 start end
  a ← state_for_logs ks original_window
  b ← state_for_logs ks changed_window
  c ← shifted_state_for_logs ks original_window start
  d ← shifted_state_for_logs ks changed_window start
  some (record {
    mismatch_exists = true;
    start = some start;
    end = some end;
    original_window_state = some a;
    changed_window_state = some b;
    shifted_original_window_state = some c;
    shifted_changed_window_state = some d;
  })

unfoldable pub localize_window : KSentry → List ℕ → List ℕ → Option WindowLocalization
localize_window ks logs1 logs2 = do
  assert_same_len logs1 logs2
  window ← mismatch_window logs1 logs2
  window_at ks logs1 logs2 window
