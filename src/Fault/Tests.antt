-- ===== src/Fault/Tests.antt =====
-- The runs of the repository's tests.
use k_sentry.Prelude.{ℕ, ◌≡◌, refl, some, List, [], ◌∷◌}
use k_sentry.Fault.Kind.{FaultKind}
use k_sentry.Fault.{
  drop_loop, drop_one, swap, swap_adjacent, duplicate_loop, duplicate_one, truncate_tail,
  splice_old_prefix, inject_fault,
}

abbrev stream : List ℕ
stream = 10 ∷ 20 ∷ 30 ∷ 40 ∷ []

faults :
    (inject_fault stream FaultKind.drop_one ≡ some (10 ∷ 30 ∷ 40 ∷ []))
    × (inject_fault stream FaultKind.swap_adjacent ≡ some (10 ∷ 30 ∷ 20 ∷ 40 ∷ []))
    × (inject_fault stream FaultKind.duplicate_one ≡ some (10 ∷ 20 ∷ 20 ∷ 30 ∷ 40 ∷ []))
    × (inject_fault stream FaultKind.truncate_tail ≡ some (10 ∷ 20 ∷ 30 ∷ []))
    × (inject_fault stream FaultKind.splice_old_prefix ≡ some (999 ∷ 888 ∷ 30 ∷ 40 ∷ []))
unfolding inject_fault drop_one drop_loop swap_adjacent swap duplicate_one duplicate_loop
    truncate_tail splice_old_prefix
faults = (refl, refl, refl, refl, refl)
