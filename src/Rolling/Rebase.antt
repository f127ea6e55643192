-- ===== src/Rolling/Rebase.antt =====
-- The rolling hash of timefence-core/src/rolling.rs is exact, and one scalar moves a digest.
use native.Mathlib.Nat.{
  mod-eq_of_lt, pow-suc, pow-zero, add-mul, add_assoc, add-zero, zero-add, zero-mod,
}
use native.Mathlib.Numerals.{add-one}
use k_sentry.Prelude.{
  ℕ, suc, ◌+◌, ◌*◌, ◌%◌, ◌^◌, ◌≤◌, ◌<◌, ◌≡◌, refl, sym, ap, ◌∙◌, arith, some, List, [], ◌∷◌, length,
  lt→ltb,
}
use k_sentry.Prelude.Mod.{pow-add}
use k_sentry.Weighted.{weighted, powers}
use k_sentry.Field.{u64, Fits}
use k_sentry.Field.Pow.{mod_pow-exact}
use k_sentry.KSentry.Exact.{add-term, add-reduced-term, reduced-product}
use k_sentry.Rolling.{
  RollingHash, new, update, digest, ingest, rolling_hash, shifted_loop, rolling_shifted_spec,
  rolling_rebase_digest,
}

-- The sum over i of x_i * q ^ i.
abbrev pub affine_sum : ℕ → ℕ → List ℕ → ℕ
affine_sum q i xs = weighted (powers (λ k. k) q) i xs

affine_sum-shift : (q i s : ℕ) (xs : List ℕ) → affine_sum q (i + s) xs ≡ affine_sum q i xs * q ^ s
unfolding weighted
affine_sum-shift q i s [] = omega arith
affine_sum-shift q i s (x ∷ xs) =
    let next : suc (i + s) ≡ suc i + s = omega arith in
    rw (next, affine_sum-shift q (suc i) s xs, pow-add, add-mul) (omega arith)

-- The state after `i` updates whose terms add up to `total`.
pub record IsAfter (q p i total : ℕ) (st : RollingHash) : Type 0 where
  pub base : st.q ≡ q % p
  pub modulus : st.p ≡ p
  pub count : st.n ≡ u64 i
  pub sum : st.acc ≡ total % p
  pub weight_is : st.weight ≡ q ^ i % p

module _ {p : ℕ} (fits : Fits p) (q : ℕ) where
  update-IsAfter :
      (i total x : ℕ) (st : RollingHash)
      → IsAfter q p i total st
      → IsAfter q p (suc i) (total + x * q ^ i) (update st x)
  unfolding update
  update-IsAfter i total x st h = record {
    base = h.base;
    modulus = h.modulus;
    count = omega (arith, h.count);
    sum = simp (h.modulus, h.sum, h.weight_is) (add-reduced-term fits q total x (q ^ i));
    weight_is =
        simp (h.modulus, h.weight_is, h.base)
          (reduced-product fits q (q ^ i) q ∙ ap (λ (t : ℕ). t % p) (sym (pow-suc q i)));
  }

  ingest-IsAfter :
      (i total : ℕ) (st : RollingHash) (xs : List ℕ)
      → IsAfter q p i total st
      → IsAfter q p (i + length xs) (total + affine_sum q i xs) (ingest st xs)
  unfolding ingest weighted
  ingest-IsAfter i total st [] h = simp add-zero h
  ingest-IsAfter i total st (x ∷ xs) h =
      let rest = ingest-IsAfter (suc i) _ (update st x) xs (update-IsAfter i total x st h) in
      let at : i + suc (length xs) ≡ suc i + length xs = omega arith in rw (at, ← add_assoc) rest

  new-IsAfter : 0 < q → (st : RollingHash) × (new q p ≡ some st) × IsAfter q p 0 0 st
  unfolding new
  new-IsAfter h = (
    record { q = q % p; p = p; n = 0; acc = 0; weight = 1 },
    rw (lt→ltb 1 p fits.above_one, lt→ltb 0 q h),
    record {
      base = refl;
      modulus = refl;
      count = refl;
      sum = sym (zero-mod p);
      weight_is = rw pow-zero (sym (mod-eq_of_lt fits.above_one));
    },
  )

  pub rolling_hash-IsAfter :
      (xs : List ℕ)
      → 0 < q
      → (st : RollingHash) × (rolling_hash xs q p ≡ some st)
        × IsAfter q p (length xs) (affine_sum q 0 xs) st
  unfolding rolling_hash
  rolling_hash-IsAfter xs h =
      let (st, made, first) = new-IsAfter h in
      (ingest st xs, rw made, simp zero-add at (ingest-IsAfter 0 0 st xs first))

  shifted_loop-exact :
      (shift i total : ℕ) (xs : List ℕ)
      → shift < 2 ^ 64
      → i + length xs ≤ 2 ^ 64
      → shifted_loop q p shift i (total % p) xs ≡ some ((total + affine_sum q (i + shift) xs) % p)
  unfolding shifted_loop weighted
  shifted_loop-exact shift i total [] hs h = rw add-zero
  shifted_loop-exact shift i total (x ∷ xs) hs h =
      let small : i + shift < 2 ^ 128 = omega (arith, h) in
      let next : suc (i + shift) ≡ suc i + shift = omega arith in
      rw
        (
          mod-eq_of_lt small,
          mod_pow-exact fits q (i + shift) small,
          add-term fits q total x (q ^ (i + shift)),
          add-one,
          next,
          ← add_assoc,
        )
        (shifted_loop-exact shift (suc i) (total + x * q ^ (i + shift)) xs hs (omega (arith, h)))

  -- For a modulus of at most 2 ^ 64 and a base that is not 0, the digest of a chunk that was hashed
  -- on its own, rebased by the scalar q ^ shift alone, is the digest of the chunk at that shift.
  pub rolling_rebase_digest-shifted :
      (xs : List ℕ) (shift : ℕ)
      → 0 < q
      → shift < 2 ^ 64
      → length xs ≤ 2 ^ 64
      → (st : RollingHash) × (d : ℕ) × (rolling_hash xs q p ≡ some st)
        × (rolling_rebase_digest (digest st) q p shift ≡ some d)
        × (rolling_shifted_spec xs q p shift ≡ some d)
  unfolding rolling_rebase_digest rolling_shifted_spec digest
  rolling_rebase_digest-shifted xs shift hq hs h =
      let (st, returns, after) = rolling_hash-IsAfter xs hq in
      (
        st,
        affine_sum q shift xs % p,
        returns,
        rw (mod_pow-exact fits q shift (omega (arith, hs)), after.sum)
            (ap (λ (t : ℕ). some t)
              (reduced-product fits q _ _
                ∙ ap (λ (t : ℕ). t % p)
                    (sym (affine_sum-shift q 0 shift xs)
                      ∙ ap (λ (t : ℕ). affine_sum q t xs) (zero-add shift)))),
        simp (zero-add) at
            (rw (zero-mod p) at (shifted_loop-exact shift 0 0 xs hs (omega (arith, h)))),
      )
