-- ===== src/Verified/Collision/Dense.antt =====
-- The difference of two traces as a polynomial in the base: its coefficients stand at the
-- triangular numbers, and they are taken modulo `p` so that none is negative.
use native.Mathlib.Nat.{
  pow-suc, pow-zero, add-zero, mod-lt, mod-add-div, add-mul-mod_self_left, zero-mod, zero-add,
}
use k_sentry.Prelude.{
  ℕ, zero, suc, ◌+◌, ◌-◌, ◌*◌, ◌/◌, ◌%◌, ◌^◌, ◌<◌, ◌≡◌, refl, sym, ap, ◌∙◌, arith, List, [], ◌∷◌,
  length, map, ap₂,
}
use k_sentry.Prelude.Mod.{pow-add, add-mod_congr}
use k_sentry.Weighted.{weighted}
use k_sentry.Field.Laws.{tri, tri-suc}
use k_sentry.KSentry.Exact.{tri_sum}
use k_sentry.Verified.Collision.Poly.{eval, IsZero}

pub zeros_then : ℕ → List ℕ → List ℕ
zeros_then zero cs = cs
zeros_then (suc n) cs = 0 ∷ zeros_then n cs

length-zeros_then : (n : ℕ) (cs : List ℕ) → length (zeros_then n cs) ≡ n + length cs
unfolding zeros_then
length-zeros_then zero cs = omega arith
length-zeros_then (suc n) cs = omega (arith, length-zeros_then n cs)

pub eval-zeros_then : (n : ℕ) (cs : List ℕ) (q : ℕ) → eval (zeros_then n cs) q ≡ q ^ n * eval cs q
unfolding zeros_then eval
eval-zeros_then zero cs q = rw pow-zero (omega arith)
eval-zeros_then (suc n) cs q = rw (eval-zeros_then n cs q, pow-suc) (omega arith)

zeros_then-IsZero : (p n : ℕ) (cs : List ℕ) → IsZero p (zeros_then n cs) → IsZero p cs
unfolding zeros_then
zeros_then-IsZero p zero cs h = h
zeros_then-IsZero p (suc n) cs h = zeros_then-IsZero p n cs h.1

-- The polynomial of the coefficients `x ∷ xs`, the first of which stands at position `i`, divided
-- by the power at that position.
unfoldable pub dense : ℕ → ℕ → List ℕ → List ℕ
dense i x [] = x ∷ []
dense i x (y ∷ ys) = x ∷ zeros_then i (dense (suc i) y ys)

pub length-dense :
    (i x : ℕ) (xs : List ℕ) → length (dense i x xs) + tri i ≡ suc (tri (i + length xs))
unfolding dense
length-dense i x [] = rw add-zero (omega arith)
length-dense i x (y ∷ ys) =
    let at : i + suc (length ys) ≡ suc i + length ys = omega arith in
    rw at (
      omega (arith, length-zeros_then i (dense (suc i) y ys), length-dense (suc i) y ys, tri-suc i))

pub eval-dense :
    (q i x : ℕ) (xs : List ℕ) → eval (dense i x xs) q * q ^ tri i ≡ tri_sum q i (x ∷ xs)
unfolding dense eval weighted
eval-dense q i x [] = omega arith
eval-dense q i x (y ∷ ys) =
    let rest = eval (dense (suc i) y ys) q in
    let power : q ^ tri (suc i) ≡ q ^ tri i * (q ^ i * q) = rw (tri-suc, pow-add, pow-suc) in
    let later : rest * (q ^ tri i * (q ^ i * q)) ≡ tri_sum q (suc i) (y ∷ ys) =
      ap (λ (t : ℕ). rest * t) (sym power) ∙ eval-dense q (suc i) y ys in
    rw (eval-zeros_then i (dense (suc i) y ys) q, ← later) (omega arith)

pub dense-IsZero : (p i x : ℕ) (xs : List ℕ) → IsZero p (dense i x xs) → IsZero p (x ∷ xs)
unfolding dense
dense-IsZero p i x [] h = h
dense-IsZero p i x (y ∷ ys) h =
    (h.0, dense-IsZero p (suc i) y ys (zeros_then-IsZero p i (dense (suc i) y ys) h.1))

-- The differences of two traces, element by element.
unfoldable pub differences : ℕ → List ℕ → List ℕ → List ℕ
differences p (x ∷ xs) (y ∷ ys) = (x + (p - y % p)) ∷ differences p xs ys
differences p [] ys = []
differences p (x ∷ xs) [] = []

pub length-differences :
    (p : ℕ) (xs ys : List ℕ) → length xs ≡ length ys → length (differences p xs ys) ≡ length xs
unfolding differences
length-differences p [] ys same = refl
length-differences p (x ∷ xs) [] same = absurd (omega arith)
length-differences p (x ∷ xs) (y ∷ ys) same = ap suc (length-differences p xs ys (omega arith))

pub tri_sum-differences :
    (q p i : ℕ) (xs ys : List ℕ)
    → 0 < p
    → length xs ≡ length ys
    → (m : ℕ) × (tri_sum q i (differences p xs ys) + tri_sum q i ys ≡ tri_sum q i xs + p * m)
unfolding differences weighted
tri_sum-differences q p i [] [] pos same = (0, omega arith)
tri_sum-differences q p i [] (y ∷ ys) pos same = absurd (omega arith)
tri_sum-differences q p i (x ∷ xs) [] pos same = absurd (omega arith)
tri_sum-differences q p i (x ∷ xs) (y ∷ ys) pos same =
    let (m, rest) = tri_sum-differences q p (suc i) xs ys pos (omega arith) in
    let head : x + (p - y % p) + y ≡ x + p * (1 + y / p) =
      omega (arith, mod-lt y pos, mod-add-div y p) in
    let scaled = ap (λ (t : ℕ). t * q ^ tri i) head in
    ((1 + y / p) * q ^ tri i + m, omega (arith, rest, scaled))

-- A difference is 0 modulo `p` just where the elements agree.
difference-zero : (p x y : ℕ) → 0 < p → (x + (p - y % p)) % p ≡ 0 → x % p ≡ y % p
difference-zero p x y pos h =
    sym (add-mul-mod_self_left x p (y / p + 1))
    ∙ ap (λ (t : ℕ). t % p) (omega (arith, mod-lt y pos, mod-add-div y p))
    ∙ add-mod_congr (x + (p - y % p)) 0 y p (h ∙ sym (zero-mod p))
    ∙ ap (λ (t : ℕ). t % p) (zero-add y)

pub differences-IsZero :
    (p : ℕ) (xs ys : List ℕ)
    → 0 < p
    → length xs ≡ length ys
    → IsZero p (differences p xs ys)
    → map (λ x. x % p) xs ≡ map (λ y. y % p) ys
unfolding differences
differences-IsZero p [] [] pos same h = refl
differences-IsZero p [] (y ∷ ys) pos same h = absurd (omega arith)
differences-IsZero p (x ∷ xs) [] pos same h = absurd (omega arith)
differences-IsZero p (x ∷ xs) (y ∷ ys) pos same h =
    ap₂ (λ c l. c ∷ l) (difference-zero p x y pos h.0)
      (differences-IsZero p xs ys pos (omega arith) h.1)
