-- ===== src/KSentry/Exact.antt =====
-- The accumulator of timefence-core/src/ksentry.rs against the sum that it stands for.
use native.Mathlib.Nat.{
  mod-eq_of_lt, pow-suc, mod-add-mod, add-mod-mod, add_assoc, add-zero, zero-add, zero-mod,
  pow-zero,
}
use native.Mathlib.Numerals.{add-one}
use k_sentry.Prelude.{
  ℕ, suc, ◌+◌, ◌*◌, ◌%◌, ◌^◌, ◌≤◌, ◌<◌, ◌≡◌, refl, sym, ap, ◌∙◌, arith, some, List, [], ◌∷◌, length,
  lt→ltb,
}
use k_sentry.Prelude.Mod.{mul-mod, mod-mul-mod, pow-add, mul-mod-mod}
use k_sentry.Weighted.{weighted, powers}
use k_sentry.Field.{u64, mod_mul, mod_add, triangular_exp, Fits}
use k_sentry.Field.Laws.{
  mod_mul-exact, mod_add-exact, tri, tri-suc, tri-zero, tri-lt, triangular_exp-exact,
}
use k_sentry.Field.Pow.{mod_pow-exact}
use k_sentry.Power.Exact.{pow-one}
use k_sentry.KSentry.{
  KSentry, new, update, spec_loop, ksentry_spec, ingest, ksentry_fast, digest, position, digest_of,
}

-- The sum over i of x_i * q ^ T_i, with T_i the triangular numbers: the digest before reduction.
abbrev pub tri_sum : ℕ → ℕ → List ℕ → ℕ
tri_sum q i xs = weighted (powers tri q) i xs

-- The state after `i` updates whose terms add up to `total`.
pub record IsAfter (q p i total : ℕ) (st : KSentry) : Type 0 where
  pub base : st.q ≡ q % p
  pub modulus : st.p ≡ p
  pub count : st.n ≡ u64 i
  pub sum : st.acc ≡ total % p
  pub weight_is : st.weight ≡ q ^ tri i % p
  pub step_is : st.step ≡ q ^ suc i % p

module _ {p : ℕ} (fits : Fits p) (q : ℕ) where
  -- A term is added to a reduced sum.
  pub add-term : (total x w : ℕ) → mod_add (total % p) (mod_mul x (w % p) p) p ≡ (total + x * w) % p
  add-term total x w =
      mod_add-exact fits (total % p) _
      ∙ mod-add-mod total p _
      ∙ ap (λ (t : ℕ). (total + t) % p) (mod_mul-exact fits x (w % p) ∙ mul-mod-mod x w p)
      ∙ add-mod-mod total (x * w) p

  pub add-reduced-term :
      (total x w : ℕ) → mod_add (total % p) (mod_mul (x % p) (w % p) p) p ≡ (total + x * w) % p
  add-reduced-term total x w =
      add-term total (x % p) w
      ∙ sym (add-mod-mod total (x % p * w) p)
      ∙ ap (λ (t : ℕ). (total + t) % p) (mod-mul-mod x w p)
      ∙ add-mod-mod total (x * w) p

  pub reduced-product : (a b : ℕ) → mod_mul (a % p) (b % p) p ≡ a * b % p
  reduced-product a b = mod_mul-exact fits (a % p) (b % p) ∙ mul-mod a b p

  -- The weight and the step of the next position.
  next-weight : (i : ℕ) → mod_mul (q ^ tri i % p) (q ^ suc i % p) p ≡ q ^ tri (suc i) % p
  next-weight i = reduced-product _ _ ∙ ap (λ (t : ℕ). t % p) (rw (tri-suc, pow-add))

  next-step : (i : ℕ) → mod_mul (q ^ suc i % p) (q % p) p ≡ q ^ suc (suc i) % p
  next-step i = reduced-product _ _ ∙ ap (λ (t : ℕ). t % p) (sym (pow-suc q (suc i)))

  pub update-IsAfter :
      (i total x : ℕ) (st : KSentry)
      → IsAfter q p i total st
      → IsAfter q p (suc i) (total + x * q ^ tri i) (update st x)
  unfolding update
  update-IsAfter i total x st h = record {
    base = h.base;
    modulus = h.modulus;
    count = omega (arith, h.count);
    sum = simp (h.modulus, h.sum, h.weight_is) (add-reduced-term total x (q ^ tri i));
    weight_is = simp (h.modulus, h.weight_is, h.step_is) (next-weight i);
    step_is = simp (h.modulus, h.base, h.step_is) (next-step i);
  }

  pub ingest-IsAfter :
      (i total : ℕ) (st : KSentry) (xs : List ℕ)
      → IsAfter q p i total st
      → IsAfter q p (i + length xs) (total + tri_sum q i xs) (ingest st xs)
  unfolding ingest weighted
  ingest-IsAfter i total st [] h = simp add-zero h
  ingest-IsAfter i total st (x ∷ xs) h =
      let rest = ingest-IsAfter (suc i) _ (update st x) xs (update-IsAfter i total x st h) in
      let at : i + suc (length xs) ≡ suc i + length xs = omega arith in rw (at, ← add_assoc) rest

  spec_loop-exact :
      (i total : ℕ) (xs : List ℕ)
      → i + length xs ≤ 2 ^ 64
      → spec_loop q p i (total % p) xs ≡ some ((total + tri_sum q i xs) % p)
  unfolding spec_loop weighted
  spec_loop-exact i total [] h = rw add-zero
  spec_loop-exact i total (x ∷ xs) h =
      let small : i < 2 ^ 64 = omega (arith, h) in
      let exponent : triangular_exp (u64 i) ≡ tri i =
        ap triangular_exp (mod-eq_of_lt small) ∙ triangular_exp-exact i small in
      rw
        (
          exponent,
          mod_pow-exact fits q (tri i) (tri-lt i small),
          add-term total x (q ^ tri i),
          add-one,
        )
        (rw (← add_assoc) (spec_loop-exact (suc i) (total + x * q ^ tri i) xs (omega (arith, h))))

  new-IsAfter : 0 < q → (st : KSentry) × (new q p ≡ some st) × IsAfter q p 0 0 st
  unfolding new
  new-IsAfter h = (
    record { q = q % p; p = p; n = 0; acc = 0; weight = 1; step = q % p },
    rw (lt→ltb 1 p fits.above_one, lt→ltb 0 q h),
    record {
      base = refl;
      modulus = refl;
      count = refl;
      sum = sym (mod-eq_of_lt (omega (arith, fits.above_one)));
      weight_is = rw (tri-zero, pow-zero) (sym (mod-eq_of_lt fits.above_one));
      step_is = rw pow-one;
    },
  )

  -- The accumulator returns for every stream, with the state that its comment gives in closed form.
  pub ksentry_fast-IsAfter :
      (xs : List ℕ)
      → 0 < q
      → (st : KSentry) × (ksentry_fast xs q p ≡ some st)
        × IsAfter q p (length xs) (tri_sum q 0 xs) st
  unfolding ksentry_fast
  ksentry_fast-IsAfter xs h =
      let (st, made, first) = new-IsAfter h in
      (ingest st xs, rw made, simp zero-add at (ingest-IsAfter 0 0 st xs first))

  pub ksentry_spec-exact :
      (xs : List ℕ) → length xs ≤ 2 ^ 64 → ksentry_spec xs q p ≡ some (tri_sum q 0 xs % p)
  unfolding ksentry_spec
  ksentry_spec-exact xs h =
      let start : 0 % p ≡ 0 = zero-mod p in
      rw (start, zero-add) at (spec_loop-exact 0 0 xs (omega (arith, h)))

  -- For a modulus of at most 2 ^ 64, a base that is not 0 and a stream of at most 2 ^ 64 elements,
  -- the fast accumulator and the specification that recomputes each power both return, and the
  -- digest is the specification's value; the position counts the elements, modulo 2 ^ 64.
  pub ksentry_fast-eq-spec :
      (xs : List ℕ)
      → 0 < q
      → length xs ≤ 2 ^ 64
      → (st : KSentry) × (ksentry_fast xs q p ≡ some st)
        × (ksentry_spec xs q p ≡ some (digest st))
        × (position st ≡ u64 (length xs))
  unfolding digest position
  ksentry_fast-eq-spec xs hq h =
      let (st, returns, after) = ksentry_fast-IsAfter xs hq in
      (st, returns, rw after.sum (ksentry_spec-exact xs h), after.count)

  pub digest_of-exact : (xs : List ℕ) → 0 < q → digest_of xs q p ≡ some (tri_sum q 0 xs % p)
  unfolding digest_of digest
  digest_of-exact xs h =
      let (st, returns, after) = ksentry_fast-IsAfter xs h in rw (returns, after.sum)
