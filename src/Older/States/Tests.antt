-- ===== src/Older/States/Tests.antt =====
-- Runs of the states and the comparisons of ksentry-metrics/src/bin/main1.rs, and instances.
use k_sentry.Prelude.{
  ℕ, ◌+◌, ◌*◌, ◌%◌, ◌^◌, ◌≡◌, ◌↔◌, refl, arith, none, some, List, [], ◌∷◌, length, get_elem?, take,
  true, false,
}
use k_sentry.Field.Laws.{tri}
use k_sentry.Metrics.Arith.Exact.{IsModulus}
use k_sentry.Metrics.Mismatch.{indices_loop}
use k_sentry.Verified.Spec.{ramanujan_shifted_spec}
use k_sentry.Older.{KSentry, state_for_logs}
use k_sentry.Older.States.{
  prefix_states, shifted_state_for_logs, mismatch_info, divergence_loop, first_prefix_divergence,
  swap_ends, run_reorder_attack, composition_holds,
}
use k_sentry.Older.States.Prefix.{
  reduced, Diverges, prefix_states-take, first_prefix_divergence-reduced,
}
use k_sentry.Older.States.Compose.{
  shifted_state_for_logs-ramanujan_shifted_spec, composition_holds-true,
}
use k_sentry.Older.States.Info.{mismatch_info-equal_iff}
use k_sentry.Older.States.Reorder.{run_reorder_attack-undetected_iff}

abbrev sentry : KSentry
sentry = record { state = 0; q = 7; p = 101 }

sentry-IsModulus : IsModulus 101
sentry-IsModulus = record { above_one = omega arith; is_u64 = omega arith }

abbrev logs : List ℕ
logs = 5 ∷ 8 ∷ 11 ∷ []

-- One pair differs, and one log has one entry more.
mismatch_run : (mismatch_info logs (5 ∷ 9 ∷ [])).mismatch_count ≡ 2
unfolding mismatch_info indices_loop
mismatch_run = refl

reorder_run : run_reorder_attack logs ≡ some (11 ∷ 8 ∷ 5 ∷ [], (0, 2))
unfolding run_reorder_attack swap_ends
reorder_run = refl

divergence_run : first_prefix_divergence (1 ∷ 2 ∷ 3 ∷ []) (1 ∷ 2 ∷ []) ≡ none
unfolding first_prefix_divergence divergence_loop
divergence_run = refl

prefix_states-take_run :
    (states : List ℕ) × (prefix_states sentry logs ≡ some states)
    × (length states ≡ 3)
    × (get_elem? states 1 ≡ state_for_logs sentry (take 2 logs))
prefix_states-take_run =
    prefix_states-take sentry sentry-IsModulus logs 1 (omega arith) (omega arith)

-- 7 * 29 is 1 modulo 101.
first_prefix_divergence-reduced_example :
    (states1 states2 : List ℕ) × (prefix_states sentry logs ≡ some states1)
    × (prefix_states sentry (5 ∷ 109 ∷ 12 ∷ []) ≡ some states2)
    × Diverges
        (reduced sentry logs)
        (reduced sentry (5 ∷ 109 ∷ 12 ∷ []))
        0
        (first_prefix_divergence states1 states2)
first_prefix_divergence-reduced_example =
    first_prefix_divergence-reduced sentry sentry-IsModulus 29 refl logs (5 ∷ 109 ∷ 12 ∷ [])
      (omega arith) (omega arith)

shifted_state_for_logs-ramanujan_shifted_spec_run :
    shifted_state_for_logs sentry logs 4 ≡ some (ramanujan_shifted_spec logs 7 101 4)
shifted_state_for_logs-ramanujan_shifted_spec_run =
    shifted_state_for_logs-ramanujan_shifted_spec sentry sentry-IsModulus 4 logs (omega arith)

composition_holds-true_run : composition_holds sentry logs ≡ some true
composition_holds-true_run = composition_holds-true sentry sentry-IsModulus logs (omega arith)

mismatch_info_equal_iff_run :
    (((mismatch_info logs (5 ∷ 8 ∷ [])).mismatch_exists ≡ false) ↔ (logs ≡ 5 ∷ 8 ∷ []))
    × (((mismatch_info logs (5 ∷ 8 ∷ [])).mismatch_count ≡ 0) ↔ (logs ≡ 5 ∷ 8 ∷ []))
    × ((mismatch_info logs (5 ∷ 8 ∷ [])).first_index ≡ first_prefix_divergence logs (5 ∷ 8 ∷ []))
mismatch_info_equal_iff_run = mismatch_info-equal_iff logs (5 ∷ 8 ∷ [])

run_reorder_attack-undetected_iff_example :
    (run_reorder_attack logs ≡ some (11 ∷ 8 ∷ 5 ∷ [], (0, 2)))
    × ((state_for_logs sentry logs ≡ state_for_logs sentry (11 ∷ 8 ∷ 5 ∷ []))
        ↔ ((5 + 11 * 7 ^ tri 2) % 101 ≡ (11 + 5 * 7 ^ tri 2) % 101))
run_reorder_attack-undetected_iff_example =
    run_reorder_attack-undetected_iff sentry sentry-IsModulus 5 (8 ∷ []) 11 (omega arith)
