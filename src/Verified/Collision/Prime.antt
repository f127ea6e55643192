-- ===== src/Verified/Collision/Prime.antt =====
-- The assumption on the modulus in proofs/finaltest_timefence_core_verified.rs, which the source
-- calls primality: a number without divisors has it, and trial division finds that out.
use native.Mathlib.Nat.{
  mod-lt, mod-eq_of_lt, mod_self, le_refl, div-add-mod, add-mul, mul_assoc, mul_comm, mul-le-mul,
  mul-zero, mul-one, zero-mod, pow-zero, pow-suc, zero-add, add-mul-mod_self_left,
}
use native.Mathlib.Decide.{dec_lt}
use k_sentry.Prelude.{
  ◌↔◌, ℕ, zero, suc, ◌+◌, ◌*◌, ◌/◌, ◌%◌, ◌^◌, ◌≤◌, ◌<◌, ◌≡◌, ◌≢◌, sym, ap, ◌∙◌, arith, Bool, true,
  not, ◌&&◌, ◌==◌,
}
use k_sentry.Prelude.Mod.{add-mod_cancel, mul-mod-mod}
use k_sentry.Verified.Collision.{IsDomainModP, Divides, IsPrimeInt}

-- A factor that is not 1 leaves a smaller one: the remainder of the modulus by it.
smaller_factor : (p x y : ℕ) → 0 < p → x * y % p ≡ 0 → (p % x) * y % p ≡ 0
smaller_factor p x y above e =
    let r = p % x in
    let k = p / x in
    let middle : x * k * y ≡ k * (x * y) = ap (λ (t : ℕ). t * y) (mul_comm x k) ∙ mul_assoc k x y in
    let split : x * k * y + r * y ≡ p * y =
      sym (add-mul (x * k) r y) ∙ ap (λ (t : ℕ). t * y) (div-add-mod p x) in
    let sum : r * y + k * (x * y) ≡ 0 + p * y = omega (arith, middle, split) in
    let none_left : k * (x * y) % p ≡ 0 =
      sym (mul-mod-mod k (x * y) p)
      ∙ ap (λ (t : ℕ). k * t % p) e
      ∙ ap (λ (t : ℕ). t % p) (mul-zero k)
      ∙ zero-mod p in
    add-mod_cancel (r * y) 0 (k * (x * y)) p above (
      ap (λ (t : ℕ). t % p) sum
      ∙ add-mul-mod_self_left 0 p y
      ∙ zero-mod p
      ∙ sym none_left
      ∙ ap (λ (t : ℕ). t % p) (omega arith))
    ∙ zero-mod p

module _ (p : ℕ) (above : 1 < p) (no_divisor : (d : ℕ) → 1 < d → d < p → p % d ≢ 0) where
  no_zero_product : (rounds x y : ℕ) → x ≤ rounds → 0 < x → x < p → 0 < y → y < p → x * y % p ≢ 0
  no_zero_product zero x y le hx bx hy by e = absurd (omega arith)
  no_zero_product (suc rounds) x y le hx bx hy by e = elim (dec_lt 1 x) [
    | no one ↦
        let is_one : x ≡ 1 = omega arith in
        let single : x * y ≡ y = ap (λ (t : ℕ). t * y) is_one ∙ omega arith in
        absurd (omega (arith, ap (λ (t : ℕ). t % p) single, e, mod-eq_of_lt by))
    | yes more ↦
        let r = p % x in
        let some_r : 0 < r = omega (arith, no_divisor x more bx) in
        let less : r < x = mod-lt p (omega arith) in
        no_zero_product rounds r y (omega arith) some_r (omega arith) hy by
          (smaller_factor p x y (omega arith) e)
  ]

  -- A number above 1 that no smaller number above 1 divides has no zero divisors modulo it.
  pub no_divisor-IsDomainModP : IsDomainModP p
  no_divisor-IsDomainModP = record {
    above_one = above;
    no_zero_divisors = λ x y hx bx hy by. no_zero_product x x y (omega arith) hx bx hy by;
  }

-- The divisions by the 2 ^ `rounds` numbers from `d` on.
unfoldable pub no_divisor_test : ℕ → ℕ → ℕ → Bool
no_divisor_test p zero d = not (p % d == 0)
no_divisor_test p (suc rounds) d =
    no_divisor_test p rounds d && no_divisor_test p rounds (d + 2 ^ rounds)

no_divisor_test_sound :
    (p rounds d k : ℕ) → no_divisor_test p rounds d ≡ true → d ≤ k → k < d + 2 ^ rounds → p % k ≢ 0
unfolding no_divisor_test
no_divisor_test_sound p zero d k passes low high e =
    let at : k ≡ d = omega (arith, pow-zero 2) in ground (arith, ap (λ (t : ℕ). p % t) at)
no_divisor_test_sound p (suc rounds) d k passes low high e = elim (dec_lt k (d + 2 ^ rounds)) [
  | yes left ↦ no_divisor_test_sound p rounds d k (ground (arith, passes)) low left e
  | no right ↦
      no_divisor_test_sound p rounds (d + 2 ^ rounds) k (ground (arith, passes)) (omega arith)
        (omega (arith, pow-suc 2 rounds)) e
]

-- The quotient by a divisor divides too.
quotient_divides : (p d : ℕ) → 0 < p → p % d ≡ 0 → (p ≡ d * (p / d)) × (p % (p / d) ≡ 0)
quotient_divides p d some_p e =
    let whole : d * (p / d) + p % d ≡ p = div-add-mod p d in
    let product : p ≡ d * (p / d) = omega (arith, whole) in
    (
      product,
      ap (λ (t : ℕ). t % (p / d)) (product ∙ mul_comm d (p / d) ∙ sym (zero-add (p / d * d)))
          ∙ add-mul-mod_self_left 0 (p / d) d
          ∙ zero-mod (p / d),
    )

quotient_above_one : (p d k : ℕ) → 0 < p → d < p → p ≡ d * k → 2 ≤ k
quotient_above_one p d zero above less e = absurd (omega (arith, mul-zero d))
quotient_above_one p d (suc zero) above less e = absurd (omega (arith, mul-one d))
quotient_above_one p d (suc (suc k)) above less e = omega arith

-- A modulus above 1 that none of the numbers from 2 to 1 + 2 ^ `rounds` divides, where 2 + 2 ^ `rounds`
-- is above its square root, has no zero divisors: it fulfils the assumption under which the digests
-- collide for few bases only.
pub no_divisor_test-IsDomainModP :
    (p rounds : ℕ)
    → 1 < p
    → p < (2 + 2 ^ rounds) * (2 + 2 ^ rounds)
    → no_divisor_test p rounds 2 ≡ true
    → IsDomainModP p
no_divisor_test-IsDomainModP p rounds above root passes =
    no_divisor-IsDomainModP p above λ d more less e. elim (dec_lt d (2 + 2 ^ rounds)) [
      | yes small ↦ no_divisor_test_sound p rounds 2 d passes more small e
      | no big ↦
          let k = p / d in
          let (product, divides) = quotient_divides p d (omega arith) e in
          elim (dec_lt k (2 + 2 ^ rounds)) [
            | yes small ↦
                no_divisor_test_sound p rounds 2 k passes
                  (quotient_above_one p d k (omega arith) less product) small divides
            | no large ↦
                let first : 2 + 2 ^ rounds ≤ d = omega arith in
                let second : 2 + 2 ^ rounds ≤ k = omega arith in
                let square : (2 + 2 ^ rounds) * (2 + 2 ^ rounds) ≤ d * k =
                  mul-le-mul first second in
                omega (arith, square, product)
          ]
    ]

-- A modulus without zero divisors has no divisor of its own but itself.
no_zero_divisors-divisor : (p d : ℕ) → IsDomainModP p → 1 < d → Divides d p → d ≡ p
no_zero_divisors-divisor p d domain more divides =
    let above : 1 < p = domain.above_one in
    let k = p / d in
    let (product, _) = quotient_divides p d (omega arith) (divides.1) in
    elim (dec_lt d p) [
      | yes less ↦
          let big : 2 ≤ k = quotient_above_one p d k (omega arith) less product in
          let twice : 2 * k ≤ d * k = mul-le-mul more (le_refl k) in
          let zero_product : d * k % p ≡ 0 = ap (λ (t : ℕ). t % p) (sym product) ∙ mod_self p in
          absurd (
            domain.no_zero_divisors d k (omega arith) less (omega arith) (omega arith) zero_product)
      | no large ↦ elim (dec_lt p d) [
        | yes beyond ↦ absurd (omega (arith, divides.1, mod-eq_of_lt beyond))
        | no small ↦ omega arith
      ]
    ]

-- What the source calls a prime is one: a number above 1 that no number above 1 divides but itself.
pub IsPrimeInt-Divides_iff :
    (p : ℕ) → IsPrimeInt p ↔ ((1 < p) × ((d : ℕ) → 1 < d → Divides d p → d ≡ p))
IsPrimeInt-Divides_iff p = (
  λ domain. (domain.above_one, λ d more divides. no_zero_divisors-divisor p d domain more divides),
  λ (above, only).
      no_divisor-IsDomainModP p above
        (λ d more less e. absurd (omega (arith, only d more ((omega arith), e)))),
)
