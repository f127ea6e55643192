-- ===== src/Verified/Spec.antt =====
-- proofs/finaltest_timefence_core_verified.rs: the specification of the digest. A `Seq` is a list
-- and an `int` that is never negative is a number. `logs.last()` and `logs.drop_last()` are the
-- head and the tail of the reversed list.
pub mod Exact
use mathlib.Core.List.{reverse}
use k_sentry.Prelude.{ℕ, zero, suc, ◌+◌, ◌*◌, ◌/◌, ◌%◌, List, [], ◌∷◌, length}

unfoldable pub spec_pow : ℕ → ℕ → ℕ
spec_pow base zero = 1
spec_pow base (suc exp) = base * spec_pow base exp

unfoldable pub tri_exp : ℕ → ℕ
tri_exp i = i * (i + 1) / 2

-- The specification on a reversed list: its head is the last log, at index `offset + length rest`.
unfoldable pub shifted_rev : List ℕ → ℕ → ℕ → ℕ → ℕ
shifted_rev [] q p offset = 0
shifted_rev (last ∷ rest) q p offset =
    let weight = spec_pow q (tri_exp (offset + length rest)) % p in
    (shifted_rev rest q p offset + last * weight) % p

unfoldable pub ramanujan_rev : List ℕ → ℕ → ℕ → ℕ
ramanujan_rev [] q p = 0
ramanujan_rev (last ∷ rest) q p =
    let weight = spec_pow q (tri_exp (length rest)) % p in
    (ramanujan_rev rest q p + last * weight) % p

unfoldable pub ramanujan_spec : List ℕ → ℕ → ℕ → ℕ
ramanujan_spec logs q p = ramanujan_rev (reverse logs) q p

unfoldable pub ramanujan_shifted_spec : List ℕ → ℕ → ℕ → ℕ → ℕ
ramanujan_shifted_spec logs q p offset = shifted_rev (reverse logs) q p offset
