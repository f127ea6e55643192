-- ===== src/Verified/Collision/Bounded.antt =====
-- proofs/finaltest_timefence_core_verified.rs: traces whose elements are below the base and whose sum
-- is below the modulus; the source takes the case of two elements on trust.
use native.Mathlib.Nat.{
  add-mul-mod_self_left, mod-eq_of_lt, mul-div_cancel_left, mul-one, pow-zero, pow-suc, mul-le-mul,
}
use k_sentry.Prelude.{
  ℕ, zero, suc, ◌+◌, ◌*◌, ◌/◌, ◌%◌, ◌^◌, ◌<◌, ◌≤◌, ◌≡◌, refl, sym, ap, ap₂, ◌∙◌, arith, List, [],
  ◌∷◌, length, All,
}
use k_sentry.Field.Laws.{tri-zero}
use k_sentry.KSentry.Exact.{tri_sum}
use k_sentry.Verified.Spec.{ramanujan_spec}
use k_sentry.Verified.Spec.Exact.{ramanujan_spec-exact}
use k_sentry.Verified.Collision.Poly.{eval}
use k_sentry.Verified.Collision.Dense.{dense, eval-zeros_then, eval-dense}

module _ (q : ℕ) (pos : 0 < q) where
  cancel_factor : (f m n : ℕ) → 0 < f → f * m ≡ f * n → m ≡ n
  cancel_factor f m n h e =
      sym (mul-div_cancel_left m h) ∙ ap (λ (t : ℕ). t / f) e ∙ mul-div_cancel_left n h

  -- The lowest digit and the rest are determined by the number.
  digit : (x m : ℕ) → x < q → (x + q * m) % q ≡ x
  digit x m h = add-mul-mod_self_left x q m ∙ mod-eq_of_lt h

  same_digit : (x y m n : ℕ) → x < q → y < q → x + q * m ≡ y + q * n → (x ≡ y) × (m ≡ n)
  same_digit x y m n hx hy e =
      let first : x ≡ y = sym (digit x m hx) ∙ ap (λ (t : ℕ). t % q) e ∙ digit y n hy in
      (first, cancel_factor q m n pos (omega (arith, e, first)))

  power_positive : (i : ℕ) → 0 < q ^ i
  power_positive zero = rw (pow-zero q) (omega arith)
  power_positive (suc i) =
      let product : 1 * 1 ≤ q ^ i * q = mul-le-mul (power_positive i) pos in
      rw (pow-suc q i) (omega (arith, product))

  dense_injective :
      (i x y : ℕ) (xs ys : List ℕ)
      → All (λ c. c < q) (x ∷ xs)
      → All (λ c. c < q) (y ∷ ys)
      → length xs ≡ length ys
      → eval (dense i x xs) q ≡ eval (dense i y ys) q
      → (x ∷ xs) ≡ (y ∷ ys)
  unfolding dense eval
  dense_injective i x y [] [] hx hy same e = ap (λ c. c ∷ []) ((same_digit x y 0 0 hx.0 hy.0 e).0)
  dense_injective i x y [] (b ∷ ys) hx hy same e = absurd (omega arith)
  dense_injective i x y (a ∷ xs) [] hx hy same e = absurd (omega arith)
  dense_injective i x y (a ∷ xs) (b ∷ ys) hx hy same e =
      let (first, later) = same_digit x y _ _ hx.0 hy.0 e in
      let rest = cancel_factor (q ^ i) _ _ (power_positive i) (
        sym (eval-zeros_then i (dense (suc i) a xs) q)
        ∙ later
        ∙ eval-zeros_then i (dense (suc i) b ys) q) in
      ap₂ (λ c l. c ∷ l) first (dense_injective (suc i) a b xs ys hx.1 hy.1 (omega arith) rest)

  tri_sum_injective :
      (xs ys : List ℕ)
      → All (λ c. c < q) xs
      → All (λ c. c < q) ys
      → length xs ≡ length ys
      → tri_sum q 0 xs ≡ tri_sum q 0 ys
      → xs ≡ ys
  tri_sum_injective [] [] hx hy same e = refl
  tri_sum_injective [] (y ∷ ys) hx hy same e = absurd (omega arith)
  tri_sum_injective (x ∷ xs) [] hx hy same e = absurd (omega arith)
  tri_sum_injective (x ∷ xs) (y ∷ ys) hx hy same e =
      dense_injective 0 x y xs ys hx hy (omega arith) (value x xs ∙ e ∙ sym (value y ys))
    where
      value : (x : ℕ) (xs : List ℕ) → eval (dense 0 x xs) q ≡ tri_sum q 0 (x ∷ xs)
      value x xs = rw (tri-zero, pow-zero, mul-one) at (eval-dense q 0 x xs)

  -- For a base above 0 and traces of the same length whose elements are below the base, and whose
  -- weighted sums are below the modulus, the same digest means the same trace.
  pub ramanujan_spec-injective :
      (p : ℕ) (xs ys : List ℕ)
      → All (λ c. c < q) xs
      → All (λ c. c < q) ys
      → length xs ≡ length ys
      → tri_sum q 0 xs < p
      → tri_sum q 0 ys < p
      → ramanujan_spec xs q p ≡ ramanujan_spec ys q p
      → xs ≡ ys
  ramanujan_spec-injective p xs ys hx hy same small_x small_y e =
      tri_sum_injective xs ys hx hy same (
        sym (ramanujan_spec-exact xs q p ∙ mod-eq_of_lt small_x)
        ∙ e
        ∙ ramanujan_spec-exact ys q p
        ∙ mod-eq_of_lt small_y)
