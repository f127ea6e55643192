-- ===== src/Field/Laws.antt =====
-- With a modulus of at most 2 ^ 64 the operations of timefence-core/src/ksentry.rs are exact.
use native.Mathlib.Nat.{mod-lt, mod-eq_of_lt, mul-le-mul, add-mod}
use k_sentry.Prelude.{
  ℕ, zero, suc, ◌+◌, ◌-◌, ◌*◌, ◌%◌, ◌^◌, ◌≤◌, ◌<◌, ◌≡◌, refl, sym, ap, ◌∙◌, arith,
}
use k_sentry.Prelude.Mod.{mul-mod}
use k_sentry.Field.{u128, triangular_exp, mod_mul, mod_add, Fits}

mul-le-square : (m a b : ℕ) → a ≤ m → b ≤ m → a * b ≤ m * m
mul-le-square m a b ha hb = mul-le-mul ha hb

small-mul-small : (a b : ℕ) → a < 2 ^ 64 → b < 2 ^ 64 → a * b < 2 ^ 128
small-mul-small a b ha hb =
    let bound : a * b ≤ (2 ^ 64 - 1) * (2 ^ 64 - 1) =
      mul-le-square (2 ^ 64 - 1) a b (omega arith) (omega arith) in
    omega (arith, bound)

module _ {p : ℕ} (fits : Fits p) where
  mod-small : (a : ℕ) → a % p < 2 ^ 64
  mod-small a =
      let below : a % p < p = mod-lt a (omega (arith, fits.above_one)) in
      omega (arith, below, fits.within_u64)

  pub mod_mul-exact : (a b : ℕ) → mod_mul a b p ≡ a * b % p
  unfolding mod_mul
  mod_mul-exact a b =
      ap (λ (t : ℕ). t % p)
        (mod-eq_of_lt (small-mul-small (a % p) (b % p) (mod-small a) (mod-small b)))
      ∙ mul-mod a b p

  pub mod_add-exact : (a b : ℕ) → mod_add a b p ≡ (a + b) % p
  unfolding mod_add
  mod_add-exact a b =
      let below : a % p + b % p < 2 ^ 128 = omega (arith, mod-small a, mod-small b) in
      ap (λ (t : ℕ). t % p) (mod-eq_of_lt below) ∙ sym (add-mod a b p)

-- The triangular numbers, without division.
pub tri : ℕ → ℕ
tri zero = 0
tri (suc n) = tri n + suc n

pub tri-zero : tri 0 ≡ 0
unfolding tri
tri-zero = refl

pub tri-suc : (n : ℕ) → tri (suc n) ≡ tri n + suc n
unfolding tri
tri-suc n = refl

pub tri-one : tri 1 ≡ 1
unfolding tri
tri-one = refl

pub twice-tri : (n : ℕ) → 2 * tri n ≡ n * (n + 1)
unfolding tri
twice-tri zero = refl
twice-tri (suc n) = omega (arith, twice-tri n)

-- `triangular_exp` overflows for no `u64`.
pub triangular_exp-exact : (i : ℕ) → i < 2 ^ 64 → triangular_exp i ≡ tri i
unfolding triangular_exp
triangular_exp-exact i h =
    let square : i * i ≤ (2 ^ 64 - 1) * (2 ^ 64 - 1) =
      mul-le-square (2 ^ 64 - 1) i i (omega arith) (omega arith) in
    let next : u128 (i + 1) ≡ i + 1 = omega arith in
    let whole : u128 (i * u128 (i + 1)) ≡ i * (i + 1) =
      ap (λ (t : ℕ). u128 (i * t)) next ∙ mod-eq_of_lt (omega (arith, square)) in
    omega (arith, whole, twice-tri i)

pub tri-lt : (i : ℕ) → i < 2 ^ 64 → tri i < 2 ^ 128
tri-lt i h = omega (arith, mul-le-square (2 ^ 64 - 1) i i (omega arith) (omega arith), twice-tri i)
