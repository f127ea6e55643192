-- ===== src/Metrics/Checks/Search.antt =====
-- The nested loops of the collision searches of ksentry-metrics/src/main.rs: a loop over indices
-- that stops at the first result.
use k_sentry.Prelude.{ℕ, zero, suc, ◌+◌, ◌≤◌, ◌<◌, ◌≡◌, refl, arith, Option, none, some, ◌>>=◌}
use native.Mathlib.Decide.{dec_lt}

abbrev pub found_or {ℓ} : {A : Type ℓ} → Option (Option A) → Option A → Option (Option A)
found_or rest none = rest
found_or rest (some x) = some (some x)

-- `rounds` rounds of a loop whose body may return from the function; its index starts at `i`.
unfoldable pub loop {ℓ} : {A : Type ℓ} → (ℕ → Option (Option A)) → ℕ → ℕ → Option (Option A)
loop body zero i = some none
loop body (suc rounds) i =
    let rest = loop body rounds (i + 1) in do found ← body i; found_or rest found

-- `for i in 0..=bound`
unfoldable pub up_to {ℓ} : {A : Type ℓ} → (ℕ → Option (Option A)) → ℕ → Option (Option A)
up_to body bound = loop body (bound + 1) 0

-- What a search promises: nothing found where a claim holds everywhere, or a good result.
abbrev pub Outcome {ℓ} : {A : Type ℓ} → (A → Type 0) → Type 0 → Option A → Type 0
Outcome Good Clear none = Clear
Outcome Good Clear (some x) = Good x

abbrev pub Decides {ℓ} : {A : Type ℓ} → (A → Type 0) → Type 0 → Option (Option A) → Type ℓ
Decides {A} Good Clear result = (o : Option A) × (result ≡ some o) × Outcome Good Clear o

module _ {ℓ} {A : Type ℓ} (body : ℕ → Option (Option A)) (Good : A → Type 0)
    (Clear : ℕ → Type 0) where
  after_round :
      (i rounds : ℕ) (r : Option A)
      → Outcome Good (Clear i) none
      → Outcome Good ((k : ℕ) → i + 1 ≤ k → k < i + 1 + rounds → Clear k) r
      → Outcome Good ((k : ℕ) → i ≤ k → k < i + suc rounds → Clear k) r
  after_round i rounds none here later = λ k low high. elim (dec_lt i k) [
    | yes above ↦ later k (omega arith) (omega arith)
    | no below ↦ let at : k ≡ i = omega arith in rw at here
  ]
  after_round i rounds (some x) here good = good

  one_round :
      (i rounds : ℕ) (rest : Option (Option A)) (o : Option A)
      → body i ≡ some o
      → Outcome Good (Clear i) o
      → Decides Good ((k : ℕ) → i + 1 ≤ k → k < i + 1 + rounds → Clear k) rest
      → Decides Good
          ((k : ℕ) → i ≤ k → k < i + suc rounds → Clear k)
          (body i >>= λ found. found_or rest found)
  one_round i rounds rest (some x) e good r = (some x, rw e, good)
  one_round i rounds rest none e clear r = (r.0, rw e r.1, after_round i rounds r.0 clear r.2)

  -- A loop over bodies that keep the promise keeps it for the whole range.
  pub loop-Decides :
      (rounds i : ℕ)
      → ((k : ℕ) → k < i + rounds → Decides Good (Clear k) (body k))
      → Decides Good ((k : ℕ) → i ≤ k → k < i + rounds → Clear k) (loop body rounds i)
  unfolding loop
  loop-Decides zero i h = (none, refl, λ k low high. absurd (omega arith))
  loop-Decides (suc rounds) i h =
      let o = h i (omega arith) in
      one_round i rounds (loop body rounds (i + 1)) o.0 o.1 o.2
        (loop-Decides rounds (i + 1) (λ k below. h k (omega arith)))

  weaken :
      (bound : ℕ) (o : Option A)
      → Outcome Good ((k : ℕ) → 0 ≤ k → k < 0 + (bound + 1) → Clear k) o
      → Outcome Good ((k : ℕ) → k ≤ bound → Clear k) o
  weaken bound none clear = λ k below. clear k (omega arith) (omega arith)
  weaken bound (some x) good = good

  -- The same for the range from 0 to a bound.
  pub up_to-Decides :
      (bound : ℕ)
      → ((k : ℕ) → k ≤ bound → Decides Good (Clear k) (body k))
      → Decides Good ((k : ℕ) → k ≤ bound → Clear k) (up_to body bound)
  unfolding up_to
  up_to-Decides bound h =
      let r = loop-Decides (bound + 1) 0 (λ k below. h k (omega arith)) in
      (r.0, r.1, weaken bound r.0 r.2)
