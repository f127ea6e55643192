-- ===== src/Verified/Collision/Poly.antt =====
-- Polynomials as lists of coefficients, from the constant term on, and their roots modulo `p`.
use k_sentry.Prelude.{
  ℕ, zero, suc, ◌+◌, ◌-◌, ◌*◌, ◌%◌, ◌<◌, ◌≡◌, ◌≢◌, ◌⊎◌, inl, inr, refl, sym, ap, ◌∙◌, arith, Bool,
  List, [], ◌∷◌, ◌==◌, ==_iff, length, All,
}
use native.Mathlib.Nat.{
  mod-lt, mod-add-mod, zero-mod, mul-zero, zero-add, add-zero, add-mul, add_comm,
}
use native.Mathlib.Decide.{dec_lt}
use k_sentry.Prelude.Mod.{mul-mod-mod, add-mod_cancel}
use k_sentry.Verified.Collision.{IsDomainModP}
use k_sentry.Verified.Collision.Count.{count, find_below, count_but_one}

unfoldable pub eval : List ℕ → ℕ → ℕ
eval [] q = 0
eval (c ∷ cs) q = c + q * eval cs q

-- The quotient of `c + x * cs(x)` by `x - r`, which does not depend on `c`.
quotient : ℕ → List ℕ → List ℕ
quotient r [] = []
quotient r (c ∷ cs) = eval (c ∷ cs) r ∷ quotient r cs

length-quotient : (r : ℕ) (cs : List ℕ) → length (quotient r cs) ≡ length cs
unfolding quotient
length-quotient r [] = refl
length-quotient r (c ∷ cs) = ap suc (length-quotient r cs)

quotient-step :
    (q r : ℕ) (cs : List ℕ)
    → q * eval cs q + r * eval (quotient r cs) q ≡ r * eval cs r + q * eval (quotient r cs) q
unfolding quotient eval
quotient-step q r [] = omega arith
quotient-step q r (c ∷ cs) =
    let scaled = ap (λ (t : ℕ). q * t) (quotient-step q r cs) in omega (arith, scaled)

-- Every coefficient is 0 modulo `p`.
abbrev pub IsZero : ℕ → List ℕ → Type 0
IsZero p cs = All (λ c. c % p ≡ 0) cs

abbrev pub is_root : ℕ → List ℕ → ℕ → Bool
is_root p cs q = eval cs q % p == 0

module _ {p : ℕ} (domain : IsDomainModP p) where
  positive : 0 < p
  positive = omega (arith, domain.above_one)

  -- A multiple of `p` can be split off.
  drop-zero : (a b : ℕ) → a % p ≡ 0 → (a + b) % p ≡ b % p
  drop-zero a b h =
      sym (mod-add-mod a p b) ∙ ap (λ (t : ℕ). (t + b) % p) h ∙ ap (λ (t : ℕ). t % p) (zero-add b)

  cancel-zero : (a b : ℕ) → a % p ≡ 0 → (a + b) % p ≡ 0 → b % p ≡ 0
  cancel-zero a b ha h = sym (drop-zero a b ha) ∙ h

  times-zero : (a b : ℕ) → b % p ≡ 0 → a * b % p ≡ 0
  times-zero a b h =
      sym (mul-mod-mod a b p) ∙ ap (λ (t : ℕ). a * t % p) h ∙ rw mul-zero (zero-mod p)

  factor-zero : (x y : ℕ) → 0 < x → x < p → x * y % p ≡ 0 → y % p ≡ 0
  factor-zero x y pos small h = elim (dec_lt 0 (y % p)) [
    | yes some ↦ absurd (
        domain.no_zero_divisors x (y % p) pos small some (mod-lt y positive)
          (mul-mod-mod x y p ∙ h))
    | no none ↦ omega arith
  ]

  -- Two multiples that agree modulo `p`, of factors that differ.
  same_multiple : (a b m : ℕ) → a < b → b < p → a * m % p ≡ b * m % p → m % p ≡ 0
  same_multiple a b m less small e = factor-zero (b - a) m (omega arith) (omega arith) (
      sym (add-mod_cancel 0 ((b - a) * m) (a * m) p positive (rw (zero-add, ← add-mul, split) e))
      ∙ zero-mod p)
    where
      split : b - a + a ≡ b
      split = omega arith

  -- Another root is a root of the quotient.
  other_root :
      (q r c : ℕ) (cs : List ℕ)
      → q < p
      → r < p
      → q ≢ r
      → eval (c ∷ cs) q % p ≡ 0
      → eval (c ∷ cs) r % p ≡ 0
      → eval (quotient r cs) q % p ≡ 0
  unfolding eval
  other_root q r c cs hq hr differ root_q root_r =
      let rest = eval (quotient r cs) q in
      let step : c + q * eval cs q + r * rest ≡ c + r * eval cs r + q * rest =
        omega (arith, quotient-step q r cs) in
      let same : r * rest % p ≡ q * rest % p =
        sym (drop-zero _ (r * rest) root_q)
        ∙ ap (λ (t : ℕ). t % p) step
        ∙ drop-zero _ (q * rest) root_r in
      elim (dec_lt q r) [
        | yes less ↦ same_multiple q r rest less hr (sym same)
        | no more ↦ same_multiple r q rest (omega arith) hq same
      ]

  -- Where the quotient by a root is 0, so is the polynomial.
  IsZero-quotient :
      (r c : ℕ) (cs : List ℕ)
      → eval (c ∷ cs) r % p ≡ 0
      → IsZero p (quotient r cs)
      → IsZero p (c ∷ cs)
  unfolding eval quotient
  IsZero-quotient r c [] root zeros = (rw (mul-zero, add-zero) at root, tt)
  IsZero-quotient r c (d ∷ ds) root zeros =
      let rest = IsZero-quotient r d ds zeros.0 zeros.1 in
      (cancel-zero (r * eval (d ∷ ds) r) c (times-zero r _ zeros.0) (rw add_comm root), rest)

  -- A polynomial is 0, or it has fewer roots below `p` than coefficients.
  pub few_roots :
      (n : ℕ) (cs : List ℕ) → length cs ≡ n → IsZero p cs ⊎ (count (is_root p cs) p < length cs)
  few_roots n [] size = inl tt
  few_roots zero (c ∷ cs) size = absurd (omega arith)
  few_roots (suc n) (c ∷ cs) size = elim (find_below (is_root p (c ∷ cs)) p) [
    | inl none ↦ inr (omega (arith, none))
    | inr (r, small, here) ↦
        let root_r : eval (c ∷ cs) r % p ≡ 0 = (==_iff _ _).0 here in
        elim (few_roots n (quotient r cs) (length-quotient r cs ∙ omega arith)) [
          | inl zeros ↦ inl (IsZero-quotient r c cs root_r zeros)
          | inr few ↦ inr (
              omega (
                arith,
                few,
                length-quotient r cs,
                count_but_one (is_root p (c ∷ cs)) (is_root p (quotient r cs)) r p
                    (λ q hq differ root.
                      (==_iff _ _).1
                        (other_root q r c cs hq small differ ((==_iff _ _).0 root) root_r)),
              ))
        ]
  ]
