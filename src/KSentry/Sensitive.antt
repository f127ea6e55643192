-- ===== src/KSentry/Sensitive.antt =====
-- Which changes of a stream the digest of timefence-core/src/ksentry.rs shows.
use native.Mathlib.Nat.{add-mul}
use k_sentry.Prelude.{
  ℕ, suc, ◌+◌, ◌*◌, ◌%◌, ◌^◌, ◌<◌, ◌≡◌, ◌↔◌, sym, ap, ◌∙◌, arith, List, ◌∷◌, ◌++◌, length,
}
use k_sentry.Prelude.Mod.{mul-mod_cancel, pow-inverse, mod-mul-mod, pow-add}
use k_sentry.Weighted.{powers}
use k_sentry.Weighted.Edits.{edit_iff}
use k_sentry.Weighted.Interface.{StreamDigest, edit-digest_iff, swap-digest_iff}
use k_sentry.Field.{Fits}
use k_sentry.Field.Laws.{tri, tri-suc}
use k_sentry.KSentry.{digest_of}
use k_sentry.KSentry.Exact.{tri_sum, digest_of-exact}

module _ {p : ℕ} (fits : Fits p) (q r : ℕ) (hq : 0 < q) (inverse : q * r % p ≡ 1) where
  -- The accumulator, as its clients see it.
  abbrev pub stream_digest : StreamDigest p
  stream_digest = record {
    weight = powers tri q;
    Accepts = λ n. Unit {0};
    digest_of = λ xs. digest_of xs q p;
    digest_of-weighted = λ xs accepted. digest_of-exact fits q xs hq;
  }

  positive : 0 < p
  positive = omega (arith, fits.above_one)

  -- A weight can be cancelled.
  cancel_weight_iff : (a b i : ℕ) → (a * q ^ tri i % p ≡ b * q ^ tri i % p) ↔ (a % p ≡ b % p)
  cancel_weight_iff a b i = (
    mul-mod_cancel a b (q ^ tri i) (r ^ tri i) p (pow-inverse q r (tri i) p fits.above_one inverse),
    λ e. sym (mod-mul-mod a _ p) ∙ ap (λ (t : ℕ). t * q ^ tri i % p) e ∙ mod-mul-mod b _ p,
  )

  pub edit_sum_iff :
      (pre : List ℕ) (x y : ℕ) (post : List ℕ)
      → (tri_sum q 0 (pre ++ x ∷ post) % p ≡ tri_sum q 0 (pre ++ y ∷ post) % p) ↔ (x % p ≡ y % p)
  edit_sum_iff pre x y post =
      let edit = edit_iff (powers tri q) p (omega (arith, fits.above_one)) pre x y post in
      let cancel = cancel_weight_iff x y (length pre) in
      (λ e. cancel.0 (edit.0 e), λ e. edit.1 (cancel.1 e))

  -- For a modulus of 2 to 2 ^ 64 and a base that is not 0 and has an inverse modulo `p`, changing
  -- one element leaves the digest alone exactly when the old and the new value are the same modulo
  -- `p`.
  pub edit-detected :
      (pre : List ℕ) (x y : ℕ) (post : List ℕ)
      → (digest_of (pre ++ x ∷ post) q p ≡ digest_of (pre ++ y ∷ post) q p) ↔ (x % p ≡ y % p)
  edit-detected pre x y post =
      let edit = edit-digest_iff positive stream_digest pre x y post tt in
      let cancel = cancel_weight_iff x y (length pre) in
      (λ e. cancel.0 (edit.0 e), λ e. edit.1 (cancel.1 e))

  swapped-terms :
      (x y i : ℕ) → x * q ^ tri i + y * q ^ tri (suc i) ≡ (x + y * q ^ suc i) * q ^ tri i
  swapped-terms x y i = rw (tri-suc, pow-add, add-mul) (omega arith)

  -- For a modulus of 2 to 2 ^ 64 and a base that is not 0 and has an inverse modulo `p`,
  -- exchanging the neighbours `x` at position i and `y` leaves the digest alone exactly when x + y
  -- * q ^ (i + 1) and y + x * q ^ (i + 1) are the same modulo `p`.
  pub swap-detected :
      (pre : List ℕ) (x y : ℕ) (post : List ℕ)
      → (digest_of (pre ++ x ∷ y ∷ post) q p ≡ digest_of (pre ++ y ∷ x ∷ post) q p)
        ↔ ((x + y * q ^ suc (length pre)) % p ≡ (y + x * q ^ suc (length pre)) % p)
  swap-detected pre x y post =
      let swap = swap-digest_iff positive stream_digest pre x y post tt in
      let i = length pre in
      let cancel = cancel_weight_iff (x + y * q ^ suc i) (y + x * q ^ suc i) i in
      (
        λ e. cancel.0 (rw (← swapped-terms x y i, ← swapped-terms y x i) (swap.0 e)),
        λ e. swap.1 (rw (swapped-terms x y i, swapped-terms y x i) (cancel.1 e)),
      )
