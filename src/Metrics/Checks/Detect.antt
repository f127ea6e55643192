-- ===== src/Metrics/Checks/Detect.antt =====
-- What the checks of swaps and truncations in ksentry-metrics/src/main.rs detect.
use native.Mathlib.Nat.{add_comm, zero-add, zero-mod, pow-zero, mul-one}
use k_sentry.Prelude.{
  ℕ, suc, ◌+◌, ◌-◌, ◌*◌, ◌%◌, ◌^◌, ◌≤◌, ◌<◌, ◌≡◌, ◌↔◌, refl, sym, ap, ◌∙◌, arith, Bool, false, not,
  some, List, [], ◌∷◌, ◌++◌, length, length-append, length-take, get_elem?, set, take, drop,
  take-append-drop, ◌==◌, ltb, leb,
}
use k_sentry.Prelude.Mod.{add-mod_congr, add-mod_cancel}
use k_sentry.Weighted.{weighted, weighted-append}
use k_sentry.Weighted.Edits.{middle_iff}
use k_sentry.Metrics.Arith.Exact.{IsModulus}
use k_sentry.Metrics.Sentry.{KSentry}
use k_sentry.Metrics.Sentry.Exact.{square_sum, state_for_logs-fits}
use k_sentry.Metrics.Checks.{swap, test_swap_detection, test_truncation_detection}

get_elem?-end : (mid : List ℕ) (y : ℕ) → get_elem? (mid ++ y ∷ []) (length mid) ≡ some y
get_elem?-end [] y = refl
get_elem?-end (m ∷ mid) y = get_elem?-end mid y

set-end : (mid : List ℕ) (x y : ℕ) → set (mid ++ y ∷ []) (length mid) x ≡ mid ++ x ∷ []
set-end [] x y = refl
set-end (m ∷ mid) x y = ap (λ l. m ∷ l) (set-end mid x y)

-- A test for a difference fails just for equal values.
not_differ_iff : (a b : ℕ) → (not (a == b) ≡ false) ↔ (a ≡ b)
not_differ_iff a b = ground arith

swap-ends :
    (x y : ℕ) (mid : List ℕ)
    → swap (x ∷ (mid ++ y ∷ [])) 0 (suc (length mid)) ≡ some (y ∷ (mid ++ x ∷ []))
unfolding swap
swap-ends x y mid = rw (get_elem?-end mid y, set-end mid x y)

module _ (ks : KSentry) (m : IsModulus ks.p) where
  total :
      (a b : ℕ) (mid : List ℕ)
      → square_sum ks.q 0 (a ∷ (mid ++ b ∷ []))
        ≡ square_sum ks.q 1 mid + (a + b * ks.q ^ (suc (length mid) * suc (length mid)) + 0)
  unfolding weighted
  total a b mid =
      let at : 1 + length mid ≡ suc (length mid) = omega arith in
      let one : a * ks.q ^ (0 * 0) ≡ a = ap (λ (t : ℕ). a * t) (pow-zero ks.q) ∙ mul-one a in
      rw (weighted-append (λ i. ks.q ^ (i * i)) 1 mid (b ∷ []), at, one) (omega arith)

  ends_iff :
      (x y : ℕ) (mid : List ℕ)
      → (square_sum ks.q 0 (x ∷ (mid ++ y ∷ [])) % ks.p
          ≡ square_sum ks.q 0 (y ∷ (mid ++ x ∷ [])) % ks.p)
        ↔ ((x + y * ks.q ^ (suc (length mid) * suc (length mid))) % ks.p
            ≡ (y + x * ks.q ^ (suc (length mid) * suc (length mid))) % ks.p)
  ends_iff x y mid =
      let w = ks.q ^ (suc (length mid) * suc (length mid)) in
      rw (total x y mid, total y x mid)
        (middle_iff (λ i. i) ks.p (omega (arith, m.above_one)) (x + y * w) (y + x * w)
          (square_sum ks.q 1 mid) 0)

  length-ends : (x y : ℕ) (mid : List ℕ) → length (x ∷ (mid ++ y ∷ [])) ≡ suc (suc (length mid))
  length-ends x y mid = omega (arith, length-append mid (y ∷ []))

  -- For a `u64` modulus above 1 and 2 to 2 ^ 32 logs from `x` to `y`, the check of swaps exchanges
  -- the first and the last one and returns; it misses the exchange exactly when x + y * w and
  -- y + x * w are equal modulo `p` for the weight w of the last index.
  pub test_swap_detection-missed_iff :
      (x y : ℕ) (mid : List ℕ)
      → length mid + 2 ≤ 2 ^ 32
      → (r : ℕ × ℕ × Bool) × (test_swap_detection ks (x ∷ (mid ++ y ∷ []))
          ≡ some (some (0, suc (length mid), r.0, r.1, r.2, y ∷ (mid ++ x ∷ []))))
        × ((r.2 ≡ false) ↔ (
            (x + y * ks.q ^ (suc (length mid) * suc (length mid))) % ks.p
            ≡ (y + x * ks.q ^ (suc (length mid) * suc (length mid))) % ks.p))
  unfolding test_swap_detection
  test_swap_detection-missed_iff x y mid bound =
      let before = square_sum ks.q 0 (x ∷ (mid ++ y ∷ [])) % ks.p in
      let after = square_sum ks.q 0 (y ∷ (mid ++ x ∷ [])) % ks.p in
      let missed = not_differ_iff before after in
      let ends = ends_iff x y mid in
      let n = length-ends x y mid in
      let short : ltb (suc (length (mid ++ y ∷ []))) 2 ≡ false = ground (arith, n) in
      let last : suc (length (mid ++ y ∷ [])) - 1 ≡ suc (length mid) = omega (arith, n) in
      (
        (before, after, not (before == after)),
        rw
            (
              short,
              last,
              state_for_logs-fits ks m (x ∷ (mid ++ y ∷ [])) (omega (arith, n, bound)),
              swap-ends x y mid,
              state_for_logs-fits ks m (y ∷ (mid ++ x ∷ []))
                  (omega (arith, length-ends y x mid, bound)),
            )
            refl,
        (λ e. ends.0 (missed.0 e), λ e. missed.1 (ends.1 e)),
      )

  -- A prefix has the state of the whole just where the rest adds nothing.
  tail_iff :
      (xs : List ℕ) (keep : ℕ)
      → keep ≤ length xs
      → (square_sum ks.q 0 xs % ks.p ≡ square_sum ks.q 0 (take keep xs) % ks.p)
        ↔ (square_sum ks.q keep (drop keep xs) % ks.p ≡ 0)
  tail_iff xs keep inside =
      let at : length (take keep xs) ≡ keep = omega (arith, length-take keep xs, inside) in
      let pos : 0 < ks.p = omega (arith, m.above_one) in
      let front = square_sum ks.q 0 (take keep xs) in
      let rest = square_sum ks.q keep (drop keep xs) in
      let parts : square_sum ks.q 0 xs ≡ rest + front =
        ap (square_sum ks.q 0) (sym (take-append-drop keep xs))
        ∙ weighted-append (λ i. ks.q ^ (i * i)) 0 (take keep xs) (drop keep xs)
        ∙ ap (λ (t : ℕ). front + square_sum ks.q t (drop keep xs)) (zero-add _ ∙ at)
        ∙ add_comm front rest in
      let zero_front : (0 + front) % ks.p ≡ front % ks.p =
        ap (λ (t : ℕ). t % ks.p) (zero-add front) in
      (
        λ e.
            add-mod_cancel rest 0 front ks.p pos
              (ap (λ (t : ℕ). t % ks.p) (sym parts) ∙ e ∙ sym zero_front)
            ∙ zero-mod ks.p,
        λ e.
            ap (λ (t : ℕ). t % ks.p) parts
            ∙ add-mod_congr rest 0 front ks.p (e ∙ sym (zero-mod ks.p))
            ∙ zero_front,
      )

  -- For a `u64` modulus above 1 and at most 2 ^ 32 logs, the check of truncations to fewer logs
  -- returns, and it misses the truncation exactly when the terms of the dropped logs add up to a
  -- multiple of `p`.
  pub test_truncation_detection-missed_iff :
      (xs : List ℕ) (keep : ℕ)
      → keep < length xs
      → length xs ≤ 2 ^ 32
      → (r : ℕ × ℕ × Bool) × (test_truncation_detection ks xs keep
          ≡ some (some (r.0, r.1, r.2, take keep xs)))
        × ((r.2 ≡ false) ↔ (square_sum ks.q keep (drop keep xs) % ks.p ≡ 0))
  unfolding test_truncation_detection
  test_truncation_detection-missed_iff xs keep inside bound =
      let before = square_sum ks.q 0 xs % ks.p in
      let after = square_sum ks.q 0 (take keep xs) % ks.p in
      let missed = not_differ_iff before after in
      let tail = tail_iff xs keep (omega (arith, inside)) in
      let empty : (length xs == 0) ≡ false = ground (arith, inside) in
      let kept : leb (length xs) keep ≡ false = ground (arith, inside) in
      (
        (before, after, not (before == after)),
        rw
            (
              empty,
              kept,
              state_for_logs-fits ks m xs bound,
              state_for_logs-fits ks m (take keep xs) (omega (arith, length-take keep xs, bound)),
            )
            refl,
        (λ e. tail.0 (missed.0 e), λ e. missed.1 (tail.1 e)),
      )
