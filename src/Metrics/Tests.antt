-- ===== src/Metrics/Tests.antt =====
-- Runs of ksentry-metrics/src/main.rs with the program's base and modulus, and its theorems there.

use k_sentry.Prelude.{
  ℕ, ◌%◌, ◌^◌, ◌≡◌, refl, arith, some, none, List, [], ◌∷◌, length, leb, if◌then◌else◌,
}
use k_sentry.Metrics.Arith.Exact.{IsModulus}
use k_sentry.Metrics.Sentry.{KSentry, state_for_logs}
use k_sentry.Metrics.Sentry.Exact.{square_sum, state_for_logs-exact}
use k_sentry.Metrics.Mismatch.{
  WindowLocalization, first_mismatch, first_loop, mismatch_window, last_loop, window_from,
  localize_window,
}
use k_sentry.Metrics.Mismatch.Localize.{StatesAgree, localize_window-states}

abbrev modulus : ℕ
modulus = 18_446_744_073_709_551_557

modulus-IsModulus : IsModulus modulus
modulus-IsModulus = record { above_one = omega arith; is_u64 = omega arith }

abbrev sentry : KSentry
sentry = record { state = 0; q = 7; p = modulus }

abbrev original : List ℕ
original = 11 ∷ 22 ∷ 33 ∷ 44 ∷ []

abbrev tampered : List ℕ
tampered = 11 ∷ 23 ∷ 33 ∷ 45 ∷ []

window_run : mismatch_window original tampered ≡ some (some (1, 3))
unfolding mismatch_window first_mismatch first_loop window_from last_loop
window_run = refl

state_for_logs-exact_example :
    state_for_logs sentry original
    ≡ (if leb (length original) (2 ^ 32) then some (square_sum 7 0 original % modulus) else none)
state_for_logs-exact_example = state_for_logs-exact sentry modulus-IsModulus original

localize_window-states_run :
    (info : WindowLocalization) × (localize_window sentry original tampered ≡ some info)
    × StatesAgree sentry original tampered info
localize_window-states_run =
    localize_window-states sentry modulus-IsModulus original tampered refl (omega arith)
