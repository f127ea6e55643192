-- ===== src/Older.antt =====
-- ksentry-metrics/src/bin/main1.rs: the older binary, whose exponents are triangular. Its modular
-- arithmetic is the text of ksentry-metrics/src/main.rs, which Metrics.Arith has. `none` is a failed
-- assertion or `expect`, or an index out of range.
pub mod Exact
pub mod Attacks
pub mod States
pub mod Search
pub mod Tests
use k_sentry.Prelude.{
  ℕ, zero, suc, ◌+◌, ◌-◌, ◌*◌, ◌/◌, ◌%◌, ◌^◌, min, Option, none, some, List, [], ◌∷◌, ◌++◌, length,
  get_elem?, set, take, drop, Bool, not, ltb, leb, ◌==◌, if◌then◌else◌, ◌>>=◌, ◌>>◌, assert,
}
use k_sentry.Field.{u64, u128}
use k_sentry.Metrics.Arith.{add_mod_u64, mul_mod_u64, pow_mod_u64}

pub record KSentry : Type 0 where
  pub state : ℕ
  pub q : ℕ
  pub p : ℕ

unfoldable pub new : ℕ → ℕ → Option KSentry
new q p = do assert (ltb 1 p); assert (ltb 0 q); some (record { state = 0; q = q; p = p })

unfoldable pub checked_mul : ℕ → ℕ → Option ℕ
checked_mul a b = if ltb (a * b) (2 ^ 64) then some (a * b) else none

unfoldable pub weight_for_index : KSentry → ℕ → Option ℕ
weight_for_index ks i = do
  product ← checked_mul i (u64 (i + 1))
  pow_mod_u64 ks.q (product / 2) ks.p

-- What the loops do with one element and its weight.
unfoldable pub absorb : KSentry → ℕ → ℕ → ℕ → ℕ
absorb ks state li_raw w = add_mod_u64 state (mul_mod_u64 (li_raw % ks.p) w ks.p) ks.p % ks.p

-- The loop of `ingest_telemetry`; `i` is the index of the first element that is left.
unfoldable pub ingest_loop : KSentry → ℕ → ℕ → List ℕ → Option ℕ
ingest_loop ks i state [] = some state
ingest_loop ks i state (li_raw ∷ logs) = do
  w ← weight_for_index ks i
  ingest_loop ks (i + 1) (absorb ks state li_raw w) logs

unfoldable pub ingest_telemetry : KSentry → List ℕ → Option KSentry
ingest_telemetry ks logs = do state ← ingest_loop ks 0 0 logs; some (record ks { state = state })

unfoldable pub state_for_logs : KSentry → List ℕ → Option ℕ
state_for_logs ks logs = do tmp ← ingest_telemetry ks logs; some tmp.state

unfoldable pub term_at : KSentry → ℕ → ℕ → Option ℕ
term_at ks value index = do w ← weight_for_index ks index; some (mul_mod_u64 (value % ks.p) w ks.p)

-- `x ^ 1` on `u64`.
unfoldable pub flip_lowest : ℕ → ℕ
flip_lowest x = if x % 2 == 0 then x + 1 else x - 1

-- `out[i] ^= 1`
unfoldable pub edit_at : List ℕ → ℕ → Option ℕ → Option (List ℕ)
edit_at out i none = none
edit_at out i (some x) = some (set out i (flip_lowest x))

unfoldable pub run_edit_attack : List ℕ → ℕ → Option (List ℕ)
run_edit_attack logs idx =
    let i = min idx (length logs - 1) in
    if not (length logs == 0) then edit_at logs i (get_elem? logs i) else some logs

unfoldable pub run_insertion_attack : List ℕ → ℕ → ℕ → List ℕ
run_insertion_attack logs value pos =
    let idx = min pos (length logs) in take idx logs ++ value ∷ drop idx logs

unfoldable pub run_deletion_attack : List ℕ → ℕ → List ℕ
run_deletion_attack logs pos =
    let idx = min pos (length logs - 1) in
    if not (length logs == 0) then take idx logs ++ drop (idx + 1) logs else logs

unfoldable pub run_truncation_attack : List ℕ → ℕ → List ℕ
run_truncation_attack logs keep = if leb (length logs) keep then logs else take keep logs

-- The loop of `rolling_hash` with the hash so far.
unfoldable pub rolling_loop : ℕ → List ℕ → ℕ → ℕ → ℕ
rolling_loop h [] base p = h
rolling_loop h (x ∷ logs) base p = rolling_loop (u64 (u128 (u128 (h * base) + x) % p)) logs base p

unfoldable pub rolling_hash : List ℕ → ℕ → ℕ → ℕ
rolling_hash logs base p = rolling_loop 0 logs base p
