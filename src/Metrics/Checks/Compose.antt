-- ===== src/Metrics/Checks/Compose.antt =====
-- `test_composition_theorem` of ksentry-metrics/src/main.rs always holds.
use native.Mathlib.Nat.{mod-lt, mod-eq_of_lt, mod-add-mod, add-mod-mod, zero-add}
use k_sentry.Prelude.{
  ℕ, ◌+◌, ◌*◌, ◌%◌, ◌/◌, ◌^◌, ◌≤◌, ◌<◌, ◌≡◌, refl, sym, ap, ◌∙◌, arith, true, false, some, List,
  length, length-take, length-drop, take, drop, take-append-drop, ==_iff, ltb,
}
use k_sentry.Field.{u64, u128}
use k_sentry.Weighted.{weighted-append}
use k_sentry.Metrics.Arith.Exact.{IsModulus}
use k_sentry.Metrics.Sentry.{KSentry}
use k_sentry.Metrics.Sentry.Exact.{square_sum, state_for_logs-fits, shifted_state_for_logs-exact}
use k_sentry.Metrics.Checks.{test_composition_theorem}

-- The two halves of the logs add up, also after the casts.
pub sum-mod : (p a b : ℕ) → 1 < p → p < 2 ^ 64 → u64 (u128 (a % p + b % p) % p) ≡ (a + b) % p
sum-mod p a b above below =
    let la : a % p < p = mod-lt a (omega arith) in
    let lb : b % p < p = mod-lt b (omega arith) in
    let lc : (a % p + b % p) % p < p = mod-lt (a % p + b % p) (omega arith) in
    let wide : u128 (a % p + b % p) ≡ a % p + b % p = mod-eq_of_lt (omega (arith, la, lb, below)) in
    let narrow : u64 ((a % p + b % p) % p) ≡ (a % p + b % p) % p =
      mod-eq_of_lt (omega (arith, lc, below)) in
    ap (λ (t : ℕ). u64 (t % p)) wide ∙ narrow ∙ mod-add-mod a p (b % p) ∙ add-mod-mod a b p

halves :
    (q p mid : ℕ) (xs : List ℕ)
    → (square_sum q 0 (take mid xs) + square_sum q (length (take mid xs)) (drop mid xs)) % p
      ≡ square_sum q 0 xs % p
halves q p mid xs =
    rw zero-add at (
      ap (λ (t : ℕ). t % p)
        (sym (weighted-append (λ i. q ^ (i * i)) 0 (take mid xs) (drop mid xs))))
    ∙ ap (λ l. square_sum q 0 l % p) (take-append-drop mid xs)

pub not_short : (n : ℕ) → 2 ≤ n → ltb n 2 ≡ false
not_short n h = ground arith

-- For a `u64` modulus above 1 and 2 to 2 ^ 32 logs, the check of the composition returns and its
-- answer is true.
pub test_composition_theorem-holds :
    (ks : KSentry) (xs : List ℕ)
    → IsModulus ks.p
    → 2 ≤ length xs
    → length xs ≤ 2 ^ 32
    → (a b c d : ℕ) × (test_composition_theorem ks xs ≡ some (some (a, b, c, d, true)))
unfolding test_composition_theorem
test_composition_theorem-holds ks xs m low high =
    let mid = length xs / 2 in
    let front = take mid xs in
    let back = drop mid xs in
    let at : length front ≡ mid = omega (arith, length-take mid xs) in
    let total = square_sum ks.q 0 xs % ks.p in
    let first = square_sum ks.q 0 front % ks.p in
    let second = square_sum ks.q (length front) back % ks.p in
    let split : (square_sum ks.q 0 front + square_sum ks.q (length front) back) % ks.p ≡ total =
      halves ks.q ks.p mid xs in
    let composed : u64 (u128 (first + second) % ks.p) ≡ total =
      sum-mod ks.p (square_sum ks.q 0 front) (square_sum ks.q (length front) back) m.above_one
        m.is_u64
      ∙ split in
    (
      first,
      second,
      u64 (u128 (first + second) % ks.p),
      total,
      rw
          (
            not_short (length xs) low,
            state_for_logs-fits ks m front (omega (arith, at, high)),
            shifted_state_for_logs-exact ks m back (length front)
                (omega (arith, length-take mid xs, length-drop mid xs, high)),
            state_for_logs-fits ks m xs high,
            (==_iff (u64 (u128 (first + second) % ks.p)) total).1 composed,
          )
          refl,
    )
