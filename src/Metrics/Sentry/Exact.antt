-- ===== src/Metrics/Sentry/Exact.antt =====
-- The states of ksentry-metrics/src/main.rs in closed form.
use native.Mathlib.Nat.{
  mod-lt, mod-mod, add-mod-mod, mod-add-mod, add_assoc, add-zero, zero-add, zero-mod, mul-le-mul,
}
use native.Mathlib.Decide.{dec_lt}
use native.Mathlib.Numerals.{add-one}
use k_sentry.Prelude.{
  ℕ, suc, ◌+◌, ◌-◌, ◌*◌, ◌%◌, ◌^◌, ◌≤◌, ◌<◌, ◌≡◌, refl, arith, none, some, List, [], ◌∷◌, length,
  leb, Bool-cases, inl, inr, lt→ltb, if◌then◌else◌,
}
use k_sentry.Prelude.Mod.{mul-mod}
use k_sentry.Weighted.{weighted, powers}
use k_sentry.Metrics.Arith.Exact.{
  IsModulus, add_mod_u64-exact, mul_mod_u64-exact, pow_mod_u64-exact,
}
use k_sentry.Metrics.Sentry.{
  KSentry, checked_mul, checked_add, weight_for_index, absorb, ingest_loop, ingest_telemetry,
  state_for_logs, shifted_loop, shifted_state_for_logs,
}

-- The sum over i of x_i * q ^ (i * i).
abbrev pub square_sum : ℕ → ℕ → List ℕ → ℕ
square_sum q i xs = weighted (powers (λ k. k * k) q) i xs

-- An index of 32 bits has a square of 64.
square-lt : (i : ℕ) → i < 2 ^ 32 → i * i < 2 ^ 64
square-lt i h =
    let bound : i * i ≤ (2 ^ 32 - 1) * (2 ^ 32 - 1) = mul-le-mul (the i h) (the i h) in
    omega (arith, bound)
  where
    the : (i : ℕ) → i < 2 ^ 32 → i ≤ 2 ^ 32 - 1
    the i h = omega arith

module _ (ks : KSentry) (m : IsModulus ks.p) where
  pub weight_for_index-exact :
      (i : ℕ) → i < 2 ^ 32 → weight_for_index ks i ≡ some (ks.q ^ (i * i) % ks.p)
  unfolding weight_for_index checked_mul
  weight_for_index-exact i h =
      rw (lt→ltb (i * i) (2 ^ 64) (square-lt i h))
        (pow_mod_u64-exact m ks.q (i * i) (square-lt i h))

  weight_for_index-overflow : weight_for_index ks (2 ^ 32) ≡ none
  unfolding weight_for_index checked_mul
  weight_for_index-overflow = refl

  pub absorb-exact :
      (total x w : ℕ) → absorb ks (total % ks.p) x (w % ks.p) ≡ (total + x * w) % ks.p
  unfolding absorb
  absorb-exact total x w =
      let pos : 0 < ks.p = omega (arith, m.above_one) in
      rw
        (
          mul_mod_u64-exact m (x % ks.p) (w % ks.p) (mod-lt x pos) (mod-lt w pos),
          mul-mod x w ks.p,
          add_mod_u64-exact m (total % ks.p) (x * w % ks.p) (mod-lt total pos) (mod-lt (x * w) pos),
          mod-mod,
          mod-add-mod total ks.p,
        )
        (add-mod-mod total (x * w) ks.p)

  ingest_loop-exact :
      (i total : ℕ) (xs : List ℕ)
      → i + length xs ≤ 2 ^ 32
      → ingest_loop ks i (total % ks.p) xs ≡ some ((total + square_sum ks.q i xs) % ks.p)
  unfolding ingest_loop weighted
  ingest_loop-exact i total [] h = rw add-zero
  ingest_loop-exact i total (x ∷ xs) h =
      rw
        (
          weight_for_index-exact i (omega (arith, h)),
          absorb-exact total x (ks.q ^ (i * i)),
          add-one,
          ← add_assoc,
        )
        (ingest_loop-exact (suc i) (total + x * ks.q ^ (i * i)) xs (omega (arith, h)))

  pub state_for_logs-fits :
      (xs : List ℕ) → length xs ≤ 2 ^ 32 → state_for_logs ks xs ≡ some (square_sum ks.q 0 xs % ks.p)
  unfolding state_for_logs ingest_telemetry
  state_for_logs-fits xs h =
      let run =
        simp zero-add at (rw (zero-mod ks.p) at (ingest_loop-exact 0 0 xs (omega (arith, h)))) in
      rw run

  -- The index 2 ^ 32 is the first whose square overflows.
  ingest_loop-overflow :
      (i state : ℕ) (xs : List ℕ)
      → i ≤ 2 ^ 32
      → 2 ^ 32 < i + length xs
      → ingest_loop ks i state xs ≡ none
  unfolding ingest_loop
  ingest_loop-overflow i state [] le h = absurd (omega arith)
  ingest_loop-overflow i state (x ∷ xs) le h = elim (dec_lt i (2 ^ 32)) [
    | yes small ↦
        rw (weight_for_index-exact i small, add-one)
          (ingest_loop-overflow (suc i) _ xs small (omega (arith, h)))
    | no big ↦ let last : i ≡ 2 ^ 32 = omega arith in rw (last, weight_for_index-overflow)
  ]

  -- For a `u64` modulus above 1, `state_for_logs` returns the sum of the logs, each times the base to
  -- the square of its index, modulo `p`, for at most 2 ^ 32 logs; for more it panics.
  pub state_for_logs-exact :
      (xs : List ℕ)
      → state_for_logs ks xs
        ≡ (if leb (length xs) (2 ^ 32) then some (square_sum ks.q 0 xs % ks.p) else none)
  unfolding state_for_logs ingest_telemetry
  state_for_logs-exact xs = elim (Bool-cases (leb (length xs) (2 ^ 32))) [
    | inl fits ↦
        rw fits (unfold state_for_logs ingest_telemetry in state_for_logs-fits xs (ground arith))
    | inr over ↦ rw (over, ingest_loop-overflow 0 0 xs (omega arith) (ground arith))
  ]

  shifted_loop-exact :
      (offset j total : ℕ) (xs : List ℕ)
      → offset + j + length xs ≤ 2 ^ 32
      → shifted_loop ks offset j (total % ks.p) xs
        ≡ some ((total + square_sum ks.q (offset + j) xs) % ks.p)
  unfolding shifted_loop weighted checked_add
  shifted_loop-exact offset j total [] h = rw add-zero
  shifted_loop-exact offset j total (x ∷ xs) h =
      let next : suc (offset + j) ≡ offset + suc j = omega arith in
      rw
        (
          lt→ltb (offset + j) (2 ^ 64) (omega (arith, h)),
          weight_for_index-exact (offset + j) (omega (arith, h)),
          absorb-exact total x (ks.q ^ ((offset + j) * (offset + j))),
          add-one,
          next,
          ← add_assoc,
        )
        (shifted_loop-exact offset (suc j) (total + x * ks.q ^ ((offset + j) * (offset + j))) xs
          (omega (arith, h)))

  pub shifted_state_for_logs-exact :
      (xs : List ℕ) (offset : ℕ)
      → offset + length xs ≤ 2 ^ 32
      → shifted_state_for_logs ks xs offset ≡ some (square_sum ks.q offset xs % ks.p)
  unfolding shifted_state_for_logs
  shifted_state_for_logs-exact xs offset h =
      simp (zero-add, add-zero) at
        (rw (zero-mod ks.p) at (shifted_loop-exact offset 0 0 xs (omega (arith, h))))
