-- ===== src/Prelude/Mod.antt =====
-- Remainders of products and powers.
use Prim.Native.Nat.{ℕ, zero, suc, ◌+◌, ◌-◌, ◌*◌, ◌/◌, ◌%◌, ◌^◌, ◌<◌}
use mathlib.Core.Path.{◌≡◌, refl, sym, ap, ◌∙◌, ◌≡⟨◌⟩◌, ◌∎}
use native.Mathlib.Omega.{arith}
use native.Mathlib.Nat.{
  mod-add-div, add-mul-mod_self_left, pow-suc, pow-zero, mul_comm, mul_assoc, mul-one, add-zero,
  add-suc, mul-mul-mul_comm, mod-add-mod, mod-lt, mod-eq_of_lt,
}

-- A factor may be reduced first.
pub mod-mul-mod : (a b p : ℕ) → (a % p) * b % p ≡ a * b % p
mod-mul-mod a b p =
    sym (add-mul-mod_self_left (a % p * b) p (a / p * b))
    ∙ ap (λ (t : ℕ). t % p)
        (omega (arith, ap (λ (t : ℕ). t * b) (mod-add-div a p), mul_assoc p (a / p) b))

pub mul-mod-mod : (a b p : ℕ) → a * (b % p) % p ≡ a * b % p
mul-mod-mod a b p =
    ap (λ (t : ℕ). t % p) (mul_comm a (b % p))
    ∙ mod-mul-mod b a p
    ∙ ap (λ (t : ℕ). t % p) (mul_comm b a)

pub mul-mod : (a b p : ℕ) → (a % p) * (b % p) % p ≡ a * b % p
mul-mod a b p = mod-mul-mod a (b % p) p ∙ mul-mod-mod a b p

pub pow-add : (q a b : ℕ) → q ^ (a + b) ≡ q ^ a * q ^ b
pow-add q a zero = rw (pow-zero, add-zero, mul-one)
pow-add q a (suc b) = simp (add-suc, pow-suc, pow-add q a b, mul_assoc)

pub mul-pow : (a b n : ℕ) → (a * b) ^ n ≡ a ^ n * b ^ n
mul-pow a b zero = simp (pow-zero, mul-one)
mul-pow a b (suc n) = simp (pow-suc, mul-pow a b n) (mul-mul-mul_comm (a ^ n) (b ^ n) a b)

pub mod-pow-mod : (a n p : ℕ) → (a % p) ^ n % p ≡ a ^ n % p
mod-pow-mod a zero p = simp pow-zero
mod-pow-mod a (suc n) p =
    (a % p) ^ suc n % p
    ≡⟨ ap (λ (t : ℕ). t % p) (pow-suc (a % p) n) ⟩ (a % p) ^ n * (a % p) % p
    ≡⟨ mul-mod-mod ((a % p) ^ n) a p ⟩ (a % p) ^ n * a % p
    ≡⟨ sym (mod-mul-mod ((a % p) ^ n) a p) ⟩ ((a % p) ^ n % p) * a % p
    ≡⟨ ap (λ (t : ℕ). t * a % p) (mod-pow-mod a n p) ⟩ (a ^ n % p) * a % p
    ≡⟨ mod-mul-mod (a ^ n) a p ⟩ a ^ n * a % p
    ≡⟨ ap (λ (t : ℕ). t % p) (sym (pow-suc a n)) ⟩ a ^ suc n % p ∎

-- The base of a power in a product may be reduced first.
pub mul-mod-pow : (c a n p : ℕ) → c * (a % p) ^ n % p ≡ c * a ^ n % p
mul-mod-pow c a n p =
    sym (mul-mod-mod c ((a % p) ^ n) p)
    ∙ ap (λ (t : ℕ). c * t % p) (mod-pow-mod a n p)
    ∙ mul-mod-mod c (a ^ n) p

one-pow : (n : ℕ) → 1 ^ n ≡ 1
one-pow zero = refl
one-pow (suc n) = pow-suc 1 n ∙ mul-one (1 ^ n) ∙ one-pow n

pub add-mod_congr : (a b c p : ℕ) → a % p ≡ b % p → (a + c) % p ≡ (b + c) % p
add-mod_congr a b c p e =
    sym (mod-add-mod a p c) ∙ ap (λ (t : ℕ). (t + c) % p) e ∙ mod-add-mod b p c

-- A summand that both sides share can be dropped.
pub add-mod_cancel : (a b c p : ℕ) → 0 < p → (a + c) % p ≡ (b + c) % p → a % p ≡ b % p
add-mod_cancel a b c p pos e = sym (drop a) ∙ ap (λ (t : ℕ). (t + (p - c % p)) % p) e ∙ drop b
  where
    whole : (t : ℕ) → t + c + (p - c % p) ≡ t + p * (c / p + 1)
    whole t = omega (arith, mod-lt c pos, mod-add-div c p)

    drop : (t : ℕ) → ((t + c) % p + (p - c % p)) % p ≡ t % p
    drop t =
        mod-add-mod (t + c) p (p - c % p)
        ∙ ap (λ (n : ℕ). n % p) (whole t)
        ∙ add-mul-mod_self_left t p (c / p + 1)

-- A factor that has an inverse can be dropped.
pub mul-mod_cancel : (a b c r p : ℕ) → c * r % p ≡ 1 → a * c % p ≡ b * c % p → a % p ≡ b % p
mul-mod_cancel a b c r p inverse e = sym (drop a) ∙ ap (λ (t : ℕ). t * r % p) e ∙ drop b
  where
    drop : (t : ℕ) → (t * c % p) * r % p ≡ t % p
    drop t =
        mod-mul-mod (t * c) r p
        ∙ ap (λ (n : ℕ). n % p) (mul_assoc t c r)
        ∙ sym (mul-mod-mod t (c * r) p)
        ∙ ap (λ (n : ℕ). t * n % p) inverse
        ∙ ap (λ (n : ℕ). n % p) (mul-one t)

-- A power of a unit is a unit.
pub pow-inverse : (q r n p : ℕ) → 1 < p → q * r % p ≡ 1 → q ^ n * r ^ n % p ≡ 1
pow-inverse q r n p big inverse =
    ap (λ (t : ℕ). t % p) (sym (mul-pow q r n))
    ∙ sym (mod-pow-mod (q * r) n p)
    ∙ ap (λ (t : ℕ). t ^ n % p) inverse
    ∙ ap (λ (t : ℕ). t % p) (one-pow n)
    ∙ mod-eq_of_lt big
