-- ===== src/Verified/Ranges/Emitted.antt =====
-- The checkpoints that timefence-core/src/ksentry.rs emits, against
-- proofs/finaltest_timefence_core_verified.rs.
use mathlib.Core.Option.{some-injective}
use native.Mathlib.Nat.{mod-eq_of_lt}
use k_sentry.Prelude.{
  ℕ, ◌^◌, ◌≤◌, ◌<◌, ◌≡◌, ap, ◌∙◌, arith, some, List, length, take, length-take, String,
}
use k_sentry.Field.{u64, Fits}
use k_sentry.KSentry.{KSentry, ksentry_fast, digest_of, digest, checkpoint}
use k_sentry.KSentry.Exact.{ksentry_fast-IsAfter}
use k_sentry.Verified.Prefix.{ks_prefix_spec}
use k_sentry.Verified.Prefix.Simulates.{digest_of-ks_prefix_spec}
use k_sentry.Verified.Ranges.{
  checkpoint_digest_from_state, checkpoint_position_from_state, PrefixCheckpointCorrect,
}

-- For a modulus of 2 to 2 ^ 64, a base that is not 0 and every number `n` of elements up to the
-- length and below 2 ^ 64, the accumulator returns on the first `n` elements, and the checkpoint
-- that it emits there, under any stream name and epoch, has the position `n` and a digest that the
-- specification of prefix checkpoints calls correct.
pub checkpoint-PrefixCheckpointCorrect :
    {p : ℕ} (fits : Fits p) (q : ℕ) (xs : List ℕ) (n : ℕ) (stream_id : String) (epoch : ℕ)
    → 0 < q
    → n ≤ length xs
    → n < 2 ^ 64
    → (st : KSentry) × (ksentry_fast (take n xs) q p ≡ some st)
      × ((checkpoint st stream_id epoch).end_seq ≡ checkpoint_position_from_state n)
      × PrefixCheckpointCorrect xs q p n (checkpoint st stream_id epoch).digest
unfolding checkpoint checkpoint_position_from_state checkpoint_digest_from_state digest_of digest
checkpoint-PrefixCheckpointCorrect {p} fits q xs n stream_id epoch hq h fit =
    let (st, returns, after) = ksentry_fast-IsAfter fits q (take n xs) hq in
    let size : length (take n xs) ≡ n = omega (arith, length-take n xs) in
    let whole = digest_of-ks_prefix_spec fits q xs n hq h in
    (
      st,
      returns,
      after.count ∙ ap u64 size ∙ mod-eq_of_lt fit,
      some-injective st.acc (ks_prefix_spec xs q p n) (simp returns at whole),
    )
