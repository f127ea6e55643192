-- ===== src/Verified/Collision/Count.antt =====
-- Counting the numbers below a bound that pass a test.
use k_sentry.Prelude.{
  ℕ, zero, suc, ◌+◌, ◌≤◌, ◌<◌, ◌≡◌, ◌≢◌, ◌⊎◌, inl, inr, refl, arith, Bool, true, Bool-cases,
  if◌then◌else◌,
}
use native.Mathlib.Decide.{ℕ_discrete}

pub count : (ℕ → Bool) → ℕ → ℕ
count P zero = 0
count P (suc k) = count P k + (if P k then 1 else 0)

pub count-suc : (P : ℕ → Bool) (k : ℕ) → count P (suc k) ≡ count P k + (if P k then 1 else 0)
unfolding count
count-suc P k = refl

pub count-zero : (P : ℕ → Bool) → count P 0 ≡ 0
unfolding count
count-zero P = refl

pub count_ext : (P Q : ℕ → Bool) (k : ℕ) → ((n : ℕ) → n < k → P n ≡ Q n) → count P k ≡ count Q k
unfolding count
count_ext P Q zero same = refl
count_ext P Q (suc k) same =
    rw (count_ext P Q k (λ n h. same n (omega arith)), same k (omega arith))

pub count_full : (P : ℕ → Bool) (k : ℕ) → ((n : ℕ) → n < k → P n ≡ true) → count P k ≡ k
unfolding count
count_full P zero all = refl
count_full P (suc k) all =
    rw (count_full P k (λ n h. all n (omega arith)), all k (omega arith)) (omega arith)

-- Either nothing below the bound passes, or something does.
pub find_below : (P : ℕ → Bool) (k : ℕ) → (count P k ≡ 0) ⊎ ((r : ℕ) × (r < k) × (P r ≡ true))
unfolding count
find_below P zero = inl refl
find_below P (suc k) = elim (Bool-cases (P k)) [
  | inl here ↦ inr (k, omega arith, here)
  | inr miss ↦ elim (find_below P k) [
    | inl none_below ↦ inl (rw (none_below, miss))
    | inr (r, h, here) ↦ inr (r, omega (arith, h), here)
  ]
]

pub count_mono :
    (P Q : ℕ → Bool) (k : ℕ) → ((n : ℕ) → n < k → P n ≡ true → Q n ≡ true) → count P k ≤ count Q k
unfolding count
count_mono P Q zero imp = omega arith
count_mono P Q (suc k) imp =
    let rest = count_mono P Q k (λ n h. imp n (omega arith)) in
    elim (Bool-cases (P k)) [
      | inl here ↦ rw (here, imp k (omega arith) here) (omega (arith, rest))
      | inr miss ↦ rw miss (omega (arith, rest))
    ]

count_grows : (P : ℕ → Bool) (k : ℕ) → count P k ≤ count P (suc k)
unfolding count
count_grows P k = omega arith

-- One number may pass the first test only.
pub count_but_one :
    (P Q : ℕ → Bool) (r k : ℕ)
    → ((n : ℕ) → n < k → n ≢ r → P n ≡ true → Q n ≡ true)
    → count P k ≤ suc (count Q k)
unfolding count
count_but_one P Q r zero imp = omega arith
count_but_one P Q r (suc k) imp = elim (ℕ_discrete k r) [
  | yes last ↦
      let rest = count_mono P Q k (λ n h. imp n (omega arith) (λ e. absurd (omega arith))) in
      elim (Bool-cases (P k)) [
        | inl here ↦ rw here (omega (arith, rest, count_grows Q k))
        | inr miss ↦ rw miss (omega (arith, rest, count_grows Q k))
      ]
  | no other ↦
      let rest = count_but_one P Q r k (λ n h. imp n (omega arith)) in
      elim (Bool-cases (P k)) [
        | inl here ↦ rw (here, imp k (omega arith) other here) (omega (arith, rest))
        | inr miss ↦ rw miss (omega (arith, rest, count_grows Q k))
      ]
]
