-- ===== src/Rolling/Sensitive.antt =====
-- timefence-core/src/rolling.rs: the rolling digest as clients see it, and changes of one element.
use k_sentry.Prelude.{
  ℕ, ◌*◌, ◌%◌, ◌^◌, ◌<◌, ◌≡◌, ◌↔◌, sym, ap, ◌∙◌, arith, Option, some, ◌>>=◌, List, ◌∷◌, ◌++◌,
  length,
}
use k_sentry.Prelude.Mod.{mul-mod_cancel, pow-inverse, mod-mul-mod}
use k_sentry.Weighted.{powers}
use k_sentry.Weighted.Interface.{StreamDigest, edit-digest_iff}
use k_sentry.Field.{Fits}
use k_sentry.Rolling.{digest, rolling_hash}
use k_sentry.Rolling.Rebase.{affine_sum, rolling_hash-IsAfter}

-- `rolling_hash(xs, q, p).digest()`
unfoldable pub digest_of : List ℕ → ℕ → ℕ → Option ℕ
digest_of xs q p = do st ← rolling_hash xs q p; some (digest st)

module _ {p : ℕ} (fits : Fits p) (q r : ℕ) (hq : 0 < q) (inverse : q * r % p ≡ 1) where
  pub digest_of-weighted : (xs : List ℕ) → digest_of xs q p ≡ some (affine_sum q 0 xs % p)
  unfolding digest_of digest
  digest_of-weighted xs =
      let (st, returns, after) = rolling_hash-IsAfter fits q xs hq in rw (returns, after.sum)

  abbrev pub stream_digest : StreamDigest p
  stream_digest = record {
    weight = powers (λ i. i) q;
    Accepts = λ n. Unit {0};
    digest_of = λ xs. digest_of xs q p;
    digest_of-weighted = λ xs accepted. digest_of-weighted xs;
  }

  -- For a modulus of 2 to 2 ^ 64 and a base that is not 0 and has an inverse modulo `p`, changing
  -- one element leaves the rolling digest alone exactly when the old and the new value are the same
  -- modulo `p`.
  pub edit-detected_rolling :
      (pre : List ℕ) (x y : ℕ) (post : List ℕ)
      → (digest_of (pre ++ x ∷ post) q p ≡ digest_of (pre ++ y ∷ post) q p) ↔ (x % p ≡ y % p)
  edit-detected_rolling pre x y post =
      let edit = edit-digest_iff (omega (arith, fits.above_one)) stream_digest pre x y post tt in
      let i = length pre in
      let cancel =
        mul-mod_cancel x y (q ^ i) (r ^ i) p (pow-inverse q r i p fits.above_one inverse) in
      (
        λ e. cancel (edit.0 e),
        λ e. edit.1 (
            sym (mod-mul-mod x (q ^ i) p)
            ∙ ap (λ (t : ℕ). t * q ^ i % p) e
            ∙ mod-mul-mod y (q ^ i) p),
      )
