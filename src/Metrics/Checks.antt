-- ===== src/Metrics/Checks.antt =====
-- ksentry-metrics/src/main.rs: the self-checks of the program. `none` is a failed assertion of the
-- accumulator, or an index out of bounds.
pub mod Compose
pub mod Detect
pub mod Search
pub mod Collision
use k_sentry.Prelude.{
  ℕ, ◌+◌, ◌-◌, ◌%◌, ◌/◌, min, Option, none, some, List, [], ◌∷◌, ◌++◌, length, get_elem?, set, take,
  drop, Bool, not, ◌&&◌, ◌||◌, ◌==◌, ltb, leb, if◌then◌else◌, ◌>>=◌,
}
use k_sentry.Field.{u64, u128}
use k_sentry.Metrics.Sentry.{KSentry, state_for_logs, shifted_state_for_logs}

unfoldable pub detect_change : ℕ → ℕ → Bool
detect_change original changed = not (original == changed)

-- `Vec::swap`
unfoldable pub swap : List ℕ → ℕ → ℕ → Option (List ℕ)
swap logs i j = do x ← get_elem? logs i; y ← get_elem? logs j; some (set (set logs i y) j x)

unfoldable pub test_swap_detection :
    KSentry → List ℕ → Option (Option (ℕ × ℕ × ℕ × ℕ × Bool × List ℕ))
test_swap_detection ks logs = if ltb (length logs) 2 then some none else do
  before ← state_for_logs ks logs
  swapped ← swap logs 0 (length logs - 1)
  after ← state_for_logs ks swapped
  some (some (0, length logs - 1, before, after, not (before == after), swapped))

-- `Vec::insert` and `Vec::remove` at an index in bounds.
unfoldable pub insert : List ℕ → ℕ → ℕ → List ℕ
insert logs i value = take i logs ++ value ∷ drop i logs

unfoldable pub remove : List ℕ → ℕ → List ℕ
remove logs i = take i logs ++ drop (i + 1) logs

unfoldable pub test_insertion_detection : KSentry → List ℕ → ℕ → ℕ → Option (ℕ × ℕ × Bool × List ℕ)
test_insertion_detection ks logs value pos = do
  original ← state_for_logs ks logs
  let inserted = insert logs (min pos (length logs)) value in
      do
        inserted_state ← state_for_logs ks inserted
        some (original, inserted_state, not (original == inserted_state), inserted)

unfoldable pub test_deletion_detection :
    KSentry → List ℕ → ℕ → Option (Option (ℕ × ℕ × Bool × List ℕ))
test_deletion_detection ks logs pos = if length logs == 0 then some none else do
  original ← state_for_logs ks logs
  let deleted = remove logs (min pos (length logs - 1)) in
      do
        deleted_state ← state_for_logs ks deleted
        some (some (original, deleted_state, not (original == deleted_state), deleted))

unfoldable pub test_truncation_detection :
    KSentry → List ℕ → ℕ → Option (Option (ℕ × ℕ × Bool × List ℕ))
test_truncation_detection ks logs keep =
    if length logs == 0 || leb (length logs) keep then some none else do
      original ← state_for_logs ks logs
      let truncated = take keep logs in
          do
            trunc_state ← state_for_logs ks truncated
            some (some (original, trunc_state, not (original == trunc_state), truncated))

unfoldable pub test_composition_theorem : KSentry → List ℕ → Option (Option (ℕ × ℕ × ℕ × ℕ × Bool))
test_composition_theorem ks logs =
    if ltb (length logs) 2
    then some none
    else let mid = length logs / 2 in
      let a = take mid logs in
      let b = drop mid logs in
      do
        state_a ← state_for_logs ks a
        shifted_b ← shifted_state_for_logs ks b (length a)
        let composed = u64 (u128 (state_a + shifted_b) % ks.p) in
            do
              direct ← state_for_logs ks logs
              some (some (state_a, shifted_b, composed, direct, composed == direct))
