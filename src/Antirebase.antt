-- ===== src/Antirebase.antt =====
-- timefence-core/src/antirebase.rs: the digest of a chunk at an offset, and the demonstration that
-- one scalar does not move K-Sentry digests there.
pub mod Offset
pub mod Demo
pub mod Tests
use k_sentry.Prelude.{
  ℕ, zero, suc, ◌+◌, ◌*◌, ◌/◌, ◌%◌, ◌^◌, Option, none, some, ◌>>◌, ◌>>=◌, Bool, not, ◌&&◌, ◌==◌,
  List, [], ◌∷◌,
}
use k_sentry.Field.{u64, u128, mod_mul, mod_pow}
use k_sentry.KSentry.{digest_of}

-- The module has its own copy.
unfoldable pub triangular_exp : ℕ → ℕ
triangular_exp i = u128 (i * u128 (i + 1)) / 2

-- The loop over the indexed stream; `i` is the index of the first element that is left.
unfoldable pub shifted_loop : ℕ → ℕ → ℕ → ℕ → ℕ → List ℕ → Option ℕ
shifted_loop q p shift i acc [] = some acc
shifted_loop q p shift i acc (x ∷ xs) = do
  w ← mod_pow q (triangular_exp (u64 (u64 i + shift))) p
  shifted_loop q p shift (i + 1) (u128 (acc + mod_mul x w p) % p) xs

unfoldable pub ksentry_shifted_spec : List ℕ → ℕ → ℕ → ℕ → Option ℕ
ksentry_shifted_spec xs q p shift = shifted_loop q p shift 0 0 xs

unfoldable pub fake_scalar_rebase : ℕ → ℕ → ℕ → ℕ → Option ℕ
fake_scalar_rebase local_digest q p scalar_exp = do
  scalar ← mod_pow q scalar_exp p
  some (mod_mul local_digest scalar p)

-- A one-hot chunk with its event at index 0, and one with its event at index 1.
abbrev pub chunk_a : List ℕ
chunk_a = 1 ∷ 0 ∷ []

abbrev pub chunk_b : List ℕ
chunk_b = 0 ∷ 1 ∷ []

unfoldable pub demo_ksentry_not_one_scalar_rebase : ℕ → ℕ → Option Bool
demo_ksentry_not_one_scalar_rebase q p = do
  local_a ← digest_of chunk_a q p
  local_b ← digest_of chunk_b q p
  shifted_a ← ksentry_shifted_spec chunk_a q p 1
  shifted_b ← ksentry_shifted_spec chunk_b q p 1
  fake_a ← fake_scalar_rebase local_a q p 1
  fake_b ← fake_scalar_rebase local_b q p 1
  some (fake_a == shifted_a && not (fake_b == shifted_b))
