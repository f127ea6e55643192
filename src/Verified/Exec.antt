-- ===== src/Verified/Exec.antt =====
-- proofs/finaltest_timefence_core_verified.rs: the executable accumulator, on `u64` and `u128` with
-- the wrap-around written out. The functions require that `p` is above 1, so no remainder is by 0.
pub mod Refines
use k_sentry.Prelude.{ℕ, zero, suc, ◌+◌, ◌-◌, ◌*◌, ◌/◌, ◌%◌, ◌^◌, List, [], ◌∷◌, leb, if◌then◌else◌}
use k_sentry.Field.{u64, u128}

unfoldable pub add_mod_u64 : ℕ → ℕ → ℕ → ℕ
add_mod_u64 a b p =
    let t = (p + 2 ^ 64 - b) % 2 ^ 64 in if leb t a then (a + 2 ^ 64 - t) % 2 ^ 64 else u64 (a + b)

unfoldable pub mul_mod_u64 : ℕ → ℕ → ℕ → ℕ
mul_mod_u64 a b p = let prod = u128 (a * b) in let term128 = prod % p in u64 term128

pub record KSentry : Type 0 where
  pub state : ℕ
  pub q : ℕ
  pub p : ℕ

-- `while curr < target_exp`; the first argument is `target_exp - curr`.
unfoldable pub weight_loop : ℕ → ℕ → ℕ → ℕ → ℕ
weight_loop zero q p res = res
weight_loop (suc left) q p res = weight_loop left q p (mul_mod_u64 res q p)

unfoldable pub calculate_weight_internal : KSentry → ℕ → ℕ
calculate_weight_internal ks i =
    let target_exp = u64 (i * u64 (i + 1)) / 2 in
    let one_mod = 1 % ks.p in weight_loop target_exp ks.q ks.p (u64 one_mod)

-- `while i < n`; the list holds the logs from index `i` on.
unfoldable pub ingest_loop : KSentry → ℕ → List ℕ → KSentry
ingest_loop ks i [] = ks
ingest_loop ks i (li ∷ logs) =
    let weight = calculate_weight_internal ks (u64 i) in
    let term_u64 = mul_mod_u64 li weight ks.p in
    ingest_loop (record ks { state = add_mod_u64 ks.state term_u64 ks.p }) (i + 1) logs

-- `k` only bounds the length in the preconditions.
unfoldable pub ingest_telemetry_k : KSentry → List ℕ → ℕ → KSentry
ingest_telemetry_k ks logs k = ingest_loop ks 0 logs

unfoldable pub run_from_empty_k : List ℕ → ℕ → ℕ → ℕ → ℕ
run_from_empty_k logs q p k =
    let ks = ingest_telemetry_k (record { state = 0; q = q; p = p }) logs k in ks.state
