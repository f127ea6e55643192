-- ===== src/Older/States/Compose.antt =====
-- `shifted_state_for_logs` of ksentry-metrics/src/bin/main1.rs, and the check of the composition.
use native.Mathlib.Nat.{add_assoc, add-zero, zero-add, zero-mod}
use k_sentry.Prelude.{
  ℕ, suc, ◌+◌, ◌*◌, ◌%◌, ◌/◌, ◌^◌, ◌≤◌, ◌≡◌, refl, sym, ap, ◌∙◌, arith, true, some, List, [], ◌∷◌,
  length, length-take, length-drop, take, drop, take-append-drop, ==_iff, lt→ltb,
}
use k_sentry.Weighted.{weighted, weighted-append, powers}
use k_sentry.Field.{u64, u128}
use k_sentry.Field.Laws.{tri}
use k_sentry.KSentry.Exact.{tri_sum}
use k_sentry.Metrics.Arith.Exact.{IsModulus}
use k_sentry.Metrics.Checks.Compose.{sum-mod}
use k_sentry.Verified.Spec.{ramanujan_shifted_spec}
use k_sentry.Verified.Spec.Exact.{ramanujan_shifted_spec-exact}
use k_sentry.Older.{KSentry}
use k_sentry.Older.Exact.{weight_for_index-exact, absorb-exact, state_for_logs-fits}
use k_sentry.Older.States.{checked_add, shifted_loop, shifted_state_for_logs, composition_holds}

module _ (ks : KSentry) (m : IsModulus ks.p) where
  shifted_loop-exact :
      (offset j total : ℕ) (xs : List ℕ)
      → offset + j + length xs ≤ 2 ^ 32
      → shifted_loop ks offset j (total % ks.p) xs
        ≡ some ((total + tri_sum ks.q (offset + j) xs) % ks.p)
  unfolding shifted_loop checked_add weighted
  shifted_loop-exact offset j total [] h = rw add-zero
  shifted_loop-exact offset j total (x ∷ xs) h =
      let next : suc (offset + j) ≡ offset + (j + 1) = omega arith in
      rw
        (
          lt→ltb (offset + j) (2 ^ 64) (omega (arith, h)),
          weight_for_index-exact ks m (offset + j) (omega (arith, h)),
          absorb-exact ks m total x (ks.q ^ tri (offset + j)),
          next,
          ← add_assoc,
        )
        (shifted_loop-exact offset (j + 1) (total + x * ks.q ^ tri (offset + j)) xs
          (omega (arith, h)))

  shifted_state_for_logs-exact :
      (offset : ℕ) (xs : List ℕ)
      → offset + length xs ≤ 2 ^ 32
      → shifted_state_for_logs ks xs offset ≡ some (tri_sum ks.q offset xs % ks.p)
  unfolding shifted_state_for_logs
  shifted_state_for_logs-exact offset xs h =
      simp (zero-add, add-zero) at
        (rw (zero-mod ks.p) at (shifted_loop-exact offset 0 0 xs (omega (arith, h))))

  -- For a `u64` modulus above 1 and logs that end at an index of at most 2 ^ 32, the state of the
  -- older binary from an offset on is the shifted specification of the Verus file.
  pub shifted_state_for_logs-ramanujan_shifted_spec :
      (offset : ℕ) (xs : List ℕ)
      → offset + length xs ≤ 2 ^ 32
      → shifted_state_for_logs ks xs offset ≡ some (ramanujan_shifted_spec xs ks.q ks.p offset)
  shifted_state_for_logs-ramanujan_shifted_spec offset xs h =
      shifted_state_for_logs-exact offset xs h
      ∙ ap (λ (t : ℕ). some t) (sym (ramanujan_shifted_spec-exact xs ks.q ks.p offset))

  halves :
      (mid : ℕ) (xs : List ℕ)
      → (tri_sum ks.q 0 (take mid xs) + tri_sum ks.q (length (take mid xs)) (drop mid xs)) % ks.p
        ≡ tri_sum ks.q 0 xs % ks.p
  halves mid xs =
      rw zero-add at
        (ap (λ t. t % ks.p) (sym (weighted-append (powers tri ks.q) 0 (take mid xs) (drop mid xs))))
      ∙ ap (λ l. tri_sum ks.q 0 l % ks.p) (take-append-drop mid xs)

  -- For a `u64` modulus above 1 and at most 2 ^ 32 logs, the older binary's check of the composition
  -- returns and holds: the state of the first half and the shifted state of the second one add up to
  -- the state of all the logs.
  pub composition_holds-true :
      (xs : List ℕ) → length xs ≤ 2 ^ 32 → composition_holds ks xs ≡ some true
  unfolding composition_holds
  composition_holds-true xs high =
      let mid = length xs / 2 in
      let front = take mid xs in
      let back = drop mid xs in
      let total = tri_sum ks.q 0 xs % ks.p in
      let first = tri_sum ks.q 0 front in
      let second = tri_sum ks.q (length front) back in
      let composed : u64 (u128 (first % ks.p + second % ks.p) % ks.p) ≡ total =
        sum-mod ks.p first second m.above_one m.is_u64 ∙ halves mid xs in
      rw
        (
          state_for_logs-fits ks m front (omega (arith, length-take mid xs, high)),
          shifted_state_for_logs-exact (length front) back
              (omega (arith, length-take mid xs, length-drop mid xs, high)),
          state_for_logs-fits ks m xs high,
          (==_iff (u64 (u128 (first % ks.p + second % ks.p) % ks.p)) total).1 composed,
        )
        refl
