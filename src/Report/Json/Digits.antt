-- ===== src/Report/Json/Digits.antt =====
-- timefence-core/src/report.rs: the reading of written numbers.
use mathlib.Core.List.{append_assoc}
use native.Mathlib.Nat.{pow-suc}
use native.Mathlib.Decide.{dec_lt}
use k_sentry.Prelude.{
  ℕ, zero, suc, ◌+◌, ◌-◌, ◌*◌, ◌/◌, ◌%◌, ◌^◌, ◌<◌, ◌≡◌, ap, arith, List, [], ◌∷◌, ◌++◌, true, false,
  leb, ltb, lt→ltb,
}
use k_sentry.Report.Json.{decimal_codes}
use k_sentry.Report.Json.Read.{read_number}

read_number-digit :
    (n d : ℕ) (s : List ℕ) → d < 10 → read_number n ((48 + d) ∷ s) ≡ read_number (n * 10 + d) s
unfolding read_number
read_number-digit n d s h =
    let low : leb 48 (48 + d) ≡ true = ground arith in
    let high : leb (48 + d) 57 ≡ true = ground arith in
    let value : 48 + d - 48 ≡ d = omega arith in rw (low, high, value)

-- The digits are read as the number, and the reading goes on behind them.
pub read_number-decimal_codes :
    (k n : ℕ) (s : List ℕ)
    → n < 10 ^ suc k
    → read_number 0 (decimal_codes (suc k) n ++ s) ≡ read_number n s
unfolding decimal_codes
read_number-decimal_codes zero n s h =
    rw (lt→ltb n 10 h, read_number-digit 0 n s h) (ap (λ (t : ℕ). read_number t s) (omega arith))
read_number-decimal_codes (suc k) n s h = elim (dec_lt n 10) [
  | yes small ↦
      rw (lt→ltb n 10 small, read_number-digit 0 n s small)
        (ap (λ (t : ℕ). read_number t s) (omega arith))
  | no big ↦
      let test : ltb n 10 ≡ false = ground arith in
      let fits : n / 10 < 10 ^ suc k = omega (arith, pow-suc 10 (suc k), h) in
      rw
        (
          test,
          append_assoc (decimal_codes (suc k) (n / 10)) ((48 + n % 10) ∷ []) s,
          read_number-decimal_codes k (n / 10) ((48 + n % 10) ∷ s) fits,
          read_number-digit (n / 10) (n % 10) s (omega arith),
        )
        (ap (λ (t : ℕ). read_number t s) (omega arith))
]
