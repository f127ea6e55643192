-- ===== src/Older/States/Reorder.antt =====
-- The reordering attack of ksentry-metrics/src/bin/main1.rs and its digest.
use mathlib.Core.Option.{some-injective}
use native.Mathlib.Nat.{mul-one, pow-zero, add-zero}
use k_sentry.Prelude.{
  ℕ, suc, ◌+◌, ◌-◌, ◌*◌, ◌%◌, ◌^◌, ◌≤◌, ◌≡◌, ◌↔◌, refl, sym, ap, ◌∙◌, arith, some, List, [], ◌∷◌,
  ◌++◌, length, length-append, le→leb,
}
use k_sentry.Prelude.Mod.{add-mod_congr, add-mod_cancel}
use k_sentry.Weighted.{weighted, weighted-append, powers}
use k_sentry.Field.Laws.{tri, tri-zero}
use k_sentry.KSentry.Exact.{tri_sum}
use k_sentry.Metrics.Arith.Exact.{IsModulus}
use k_sentry.Older.{KSentry, state_for_logs}
use k_sentry.Older.Exact.{state_for_logs-fits}
use k_sentry.Older.Attacks.{get_elem?-middle, set-middle}
use k_sentry.Older.States.{swap_ends, run_reorder_attack}

run_reorder_attack-ends :
    (x : ℕ) (mid : List ℕ) (y : ℕ)
    → run_reorder_attack (x ∷ mid ++ y ∷ []) ≡ some (y ∷ mid ++ x ∷ [], (0, suc (length mid)))
unfolding run_reorder_attack swap_ends
run_reorder_attack-ends x mid y =
    let count : length (mid ++ y ∷ []) ≡ suc (length mid) =
      omega (arith, length-append mid (y ∷ [])) in
    let last : suc (suc (length mid)) - 1 ≡ suc (length mid) = omega arith in
    rw
      (
        count,
        le→leb 2 (suc (suc (length mid))) (omega arith),
        last,
        get_elem?-middle mid y [],
        set-middle mid y x [],
      )
      refl

module _ (ks : KSentry) (m : IsModulus ks.p) where
  sum_ends :
      (x : ℕ) (mid : List ℕ) (y : ℕ)
      → tri_sum ks.q 0 (x ∷ mid ++ y ∷ [])
        ≡ x + y * ks.q ^ tri (suc (length mid)) + tri_sum ks.q 1 mid
  unfolding weighted
  sum_ends x mid y =
      let last : powers tri ks.q (1 + length mid) ≡ ks.q ^ tri (suc (length mid)) =
        ap (λ (n : ℕ). ks.q ^ tri n) (omega arith) in
      rw
        (
          weighted-append (powers tri ks.q) 1 mid (y ∷ []),
          last,
          tri-zero,
          pow-zero,
          mul-one,
          add-zero,
        )
        (omega arith)

  -- For a `u64` modulus above 1 and logs of 2 to 2 ^ 32 entries, the attack returns the logs with
  -- the first and the last one exchanged, and those two indices. Their state is the old one exactly
  -- when the exchange keeps, modulo `p`, the first log plus the last one with its weight.
  pub run_reorder_attack-undetected_iff :
      (x : ℕ) (mid : List ℕ) (y : ℕ)
      → length mid + 2 ≤ 2 ^ 32
      → (run_reorder_attack (x ∷ mid ++ y ∷ []) ≡ some (y ∷ mid ++ x ∷ [], (0, suc (length mid))))
        × ((state_for_logs ks (x ∷ mid ++ y ∷ []) ≡ state_for_logs ks (y ∷ mid ++ x ∷ [])) ↔ (
            (x + y * ks.q ^ tri (suc (length mid))) % ks.p
            ≡ (y + x * ks.q ^ tri (suc (length mid))) % ks.p))
  run_reorder_attack-undetected_iff x mid y short =
      let old =
        state_for_logs-fits ks m (x ∷ mid ++ y ∷ []) (omega (arith, length-append mid (y ∷ []))) in
      let new =
        state_for_logs-fits ks m (y ∷ mid ++ x ∷ []) (omega (arith, length-append mid (x ∷ []))) in
      let rest = tri_sum ks.q 1 mid in
      let before = ap (λ (t : ℕ). t % ks.p) (sum_ends x mid y) in
      let after = ap (λ (t : ℕ). t % ks.p) (sum_ends y mid x) in
      (
        run_reorder_attack-ends x mid y,
        (
          λ e.
              add-mod_cancel _ _ rest ks.p (omega (arith, m.above_one))
                (sym before ∙ some-injective _ _ (sym old ∙ e ∙ new) ∙ after),
          λ e.
              old
              ∙ ap (λ (t : ℕ). some t) (before ∙ add-mod_congr _ _ rest ks.p e ∙ sym after)
              ∙ sym new,
        ),
      )
