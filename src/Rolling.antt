-- ===== src/Rolling.antt =====
-- timefence-core/src/rolling.rs: the affine rolling hash, the baseline that a chunk digest can be
-- moved along. `none` is a failed assertion.
pub mod Rebase
pub mod Sensitive
pub mod Tests
use k_sentry.Prelude.{
  ℕ, zero, suc, ◌+◌, ◌*◌, ◌%◌, ◌^◌, ◌<◌, Option, none, some, ◌>>◌, ◌>>=◌, assert, ltb, List, [],
  ◌∷◌,
}
use k_sentry.Field.{u64, u128, mod_mul, mod_add, mod_pow}

pub record RollingHash : Type 0 where
  pub q : ℕ
  pub p : ℕ
  pub n : ℕ
  pub acc : ℕ
  pub weight : ℕ

unfoldable pub new : ℕ → ℕ → Option RollingHash
new q p = do
  assert (ltb 1 p)
  assert (ltb 0 q)
  some (record { q = q % p; p = p; n = 0; acc = 0; weight = 1 })

unfoldable pub update : RollingHash → ℕ → RollingHash
update st x = record {
  q = st.q;
  p = st.p;
  n = u64 (st.n + 1);
  acc = mod_add st.acc (mod_mul (x % st.p) st.weight st.p) st.p;
  weight = mod_mul st.weight st.q st.p;
}

unfoldable pub digest : RollingHash → ℕ
digest st = st.acc

unfoldable pub position : RollingHash → ℕ
position st = st.n

-- `for &x in xs { st.update(x) }`
unfoldable pub ingest : RollingHash → List ℕ → RollingHash
ingest st [] = st
ingest st (x ∷ xs) = ingest (update st x) xs

unfoldable pub rolling_hash : List ℕ → ℕ → ℕ → Option RollingHash
rolling_hash xs q p = do st ← new q p; some (ingest st xs)

-- The loop over the indexed stream; `i` is the index of the first element that is left.
unfoldable pub shifted_loop : ℕ → ℕ → ℕ → ℕ → ℕ → List ℕ → Option ℕ
shifted_loop q p shift i acc [] = some acc
shifted_loop q p shift i acc (x ∷ xs) = do
  w ← mod_pow q (u128 (i + shift)) p
  shifted_loop q p shift (i + 1) (mod_add acc (mod_mul x w p) p) xs

unfoldable pub rolling_shifted_spec : List ℕ → ℕ → ℕ → ℕ → Option ℕ
rolling_shifted_spec xs q p shift = shifted_loop q p shift 0 0 xs

unfoldable pub rolling_rebase_digest : ℕ → ℕ → ℕ → ℕ → Option ℕ
rolling_rebase_digest local_digest q p shift = do
  scalar ← mod_pow q shift p
  some (mod_mul local_digest scalar p)
