-- ===== src/Older/Tests.antt =====
-- Runs of ksentry-metrics/src/bin/main1.rs and instances of its theorems.
use k_sentry.Prelude.{
  ℕ, ◌^◌, ◌≡◌, ◌≢◌, refl, arith, some, none, List, [], ◌∷◌, length, leb, if◌then◌else◌,
}
use k_sentry.Metrics.Arith.Exact.{IsModulus}
use k_sentry.Verified.Spec.{ramanujan_spec}
use k_sentry.Older.{
  KSentry, state_for_logs, flip_lowest, edit_at, run_edit_attack, run_insertion_attack,
  run_deletion_attack,
}
use k_sentry.Older.Exact.{older_state-ramanujan_spec}
use k_sentry.Older.Attacks.{run_edit_attack-detected}

abbrev sentry : KSentry
sentry = record { state = 0; q = 7; p = 101 }

sentry-IsModulus : IsModulus 101
sentry-IsModulus = record { above_one = omega arith; is_u64 = omega arith }

abbrev logs : List ℕ
logs = 5 ∷ 8 ∷ 11 ∷ []

run_edit_attack_run : run_edit_attack logs 9 ≡ some (5 ∷ 8 ∷ 10 ∷ [])
unfolding run_edit_attack edit_at flip_lowest
run_edit_attack_run = refl

run_deletion_attack_run : run_deletion_attack logs 1 ≡ 5 ∷ 11 ∷ []
unfolding run_deletion_attack
run_deletion_attack_run = refl

run_insertion_attack_run : run_insertion_attack logs 3 1 ≡ 5 ∷ 3 ∷ 8 ∷ 11 ∷ []
unfolding run_insertion_attack
run_insertion_attack_run = refl

older_state-ramanujan_spec_example :
    state_for_logs sentry logs
    ≡ (if leb (length logs) (2 ^ 32) then some (ramanujan_spec logs 7 101) else none)
older_state-ramanujan_spec_example = older_state-ramanujan_spec sentry sentry-IsModulus logs

-- 7 * 29 is 1 modulo 101.
run_edit_attack-detected_run :
    (out : List ℕ) × (run_edit_attack logs 1 ≡ some out)
    × (state_for_logs sentry logs ≢ state_for_logs sentry out)
run_edit_attack-detected_run =
    run_edit_attack-detected sentry sentry-IsModulus 29 refl logs 1 (omega arith) (omega arith)
