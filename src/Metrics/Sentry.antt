-- ===== src/Metrics/Sentry.antt =====
-- ksentry-metrics/src/main.rs: the accumulator. `none` is a failed assertion or `expect`.
pub mod Exact
pub mod Prefix
use k_sentry.Prelude.{
  ℕ, ◌+◌, ◌*◌, ◌%◌, ◌^◌, Option, none, some, List, [], ◌∷◌, ltb, if◌then◌else◌, ◌>>=◌, ◌>>◌, assert,
}
use k_sentry.Metrics.Arith.{add_mod_u64, mul_mod_u64, pow_mod_u64}

pub record KSentry : Type 0 where
  pub state : ℕ
  pub q : ℕ
  pub p : ℕ

unfoldable pub new : ℕ → ℕ → Option KSentry
new q p = do assert (ltb 1 p); assert (ltb 0 q); some (record { state = 0; q = q; p = p })

unfoldable pub checked_mul : ℕ → ℕ → Option ℕ
checked_mul a b = if ltb (a * b) (2 ^ 64) then some (a * b) else none

unfoldable pub checked_add : ℕ → ℕ → Option ℕ
checked_add a b = if ltb (a + b) (2 ^ 64) then some (a + b) else none

unfoldable pub weight_for_index : KSentry → ℕ → Option ℕ
weight_for_index ks i = do exp ← checked_mul i i; pow_mod_u64 ks.q exp ks.p

-- What each loop does with one element and its weight.
unfoldable pub absorb : KSentry → ℕ → ℕ → ℕ → ℕ
absorb ks state li_raw w = add_mod_u64 state (mul_mod_u64 (li_raw % ks.p) w ks.p) ks.p % ks.p

-- The loop of `ingest_telemetry`; `i` is the index of the first element that is left.
unfoldable pub ingest_loop : KSentry → ℕ → ℕ → List ℕ → Option ℕ
ingest_loop ks i state [] = some state
ingest_loop ks i state (li_raw ∷ logs) = do
  w ← weight_for_index ks i
  ingest_loop ks (i + 1) (absorb ks state li_raw w) logs

unfoldable pub ingest_telemetry : KSentry → List ℕ → Option KSentry
ingest_telemetry ks logs = do state ← ingest_loop ks 0 0 logs; some (record ks { state = state })

unfoldable pub state_for_logs : KSentry → List ℕ → Option ℕ
state_for_logs ks logs = do tmp ← ingest_telemetry ks logs; some tmp.state

unfoldable pub prefix_loop : KSentry → ℕ → ℕ → List ℕ → Option (List ℕ)
prefix_loop ks i state [] = some []
prefix_loop ks i state (li_raw ∷ logs) = do
  w ← weight_for_index ks i
  states ← prefix_loop ks (i + 1) (absorb ks state li_raw w) logs
  some (absorb ks state li_raw w ∷ states)

unfoldable pub prefix_states : KSentry → List ℕ → Option (List ℕ)
prefix_states ks logs = prefix_loop ks 0 0 logs

-- The loop of `shifted_state_for_logs`.
unfoldable pub shifted_loop : KSentry → ℕ → ℕ → ℕ → List ℕ → Option ℕ
shifted_loop ks offset j state [] = some state
shifted_loop ks offset j state (li_raw ∷ logs) = do
  idx ← checked_add offset j
  w ← weight_for_index ks idx
  shifted_loop ks offset (j + 1) (absorb ks state li_raw w) logs

unfoldable pub shifted_state_for_logs : KSentry → List ℕ → ℕ → Option ℕ
shifted_state_for_logs ks logs offset = shifted_loop ks offset 0 0 logs
