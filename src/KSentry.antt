-- ===== src/KSentry.antt =====
-- timefence-core/src/ksentry.rs: the accumulator with triangular exponents, its checkpoint, and
-- the slow specification that the repository tests it against. `none` is a failed assertion.
pub mod Tests
pub mod Exact
pub mod Sensitive
use k_sentry.Prelude.{
  ℕ, zero, suc, ◌+◌, ◌*◌, ◌%◌, ◌^◌, ◌<◌, Option, none, some, ◌>>◌, ◌>>=◌, assert, ltb, List, [],
  ◌∷◌, String,
}
use k_sentry.Field.{u64, mod_mul, mod_add, mod_pow, triangular_exp}

pub record KSentry : Type 0 where
  pub q : ℕ
  pub p : ℕ
  pub n : ℕ
  pub acc : ℕ
  pub weight : ℕ
  pub step : ℕ

pub record KsCheckpoint : Type 0 where
  pub stream_id : String
  pub epoch : ℕ
  pub end_seq : ℕ
  pub digest : ℕ
  pub weight : ℕ
  pub step : ℕ
  pub q : ℕ
  pub p : ℕ

unfoldable pub new : ℕ → ℕ → Option KSentry
new q p = do
  assert (ltb 1 p)
  assert (ltb 0 q)
  some (record { q = q % p; p = p; n = 0; acc = 0; weight = 1; step = q % p })

unfoldable pub update : KSentry → ℕ → KSentry
update st x = record {
  q = st.q;
  p = st.p;
  n = u64 (st.n + 1);
  acc = mod_add st.acc (mod_mul (x % st.p) st.weight st.p) st.p;
  weight = mod_mul st.weight st.step st.p;
  step = mod_mul st.step st.q st.p;
}

unfoldable pub digest : KSentry → ℕ
digest st = st.acc

unfoldable pub position : KSentry → ℕ
position st = st.n

unfoldable pub checkpoint : KSentry → String → ℕ → KsCheckpoint
checkpoint st stream_id epoch = record {
  stream_id = stream_id;
  epoch = epoch;
  end_seq = st.n;
  digest = st.acc;
  weight = st.weight;
  step = st.step;
  q = st.q;
  p = st.p;
}

-- The loop over the indexed stream; `i` is the index of the first element that is left.
unfoldable pub spec_loop : ℕ → ℕ → ℕ → ℕ → List ℕ → Option ℕ
spec_loop q p i acc [] = some acc
spec_loop q p i acc (x ∷ xs) = do
  w ← mod_pow q (triangular_exp (u64 i)) p
  spec_loop q p (i + 1) (mod_add acc (mod_mul x w p) p) xs

unfoldable pub ksentry_spec : List ℕ → ℕ → ℕ → Option ℕ
ksentry_spec xs q p = spec_loop q p 0 0 xs

-- `for &x in xs { st.update(x) }`
unfoldable pub ingest : KSentry → List ℕ → KSentry
ingest st [] = st
ingest st (x ∷ xs) = ingest (update st x) xs

unfoldable pub ksentry_fast : List ℕ → ℕ → ℕ → Option KSentry
ksentry_fast xs q p = do st ← new q p; some (ingest st xs)

-- `ksentry_fast(xs, q, p).digest()`, as the callers use it.
unfoldable pub digest_of : List ℕ → ℕ → ℕ → Option ℕ
digest_of xs q p = do st ← ksentry_fast xs q p; some (digest st)
