-- ===== src/Verified/Collision.antt =====
-- proofs/finaltest_timefence_core_verified.rs: how many bases make two traces collide. A
-- difference of two digests, which are below `p`, is taken modulo `p` on numbers that are never
-- negative.
pub mod Count
pub mod Poly
pub mod Dense
pub mod Bound
pub mod Domain
pub mod Prime
pub mod Roots
pub mod Bounded
pub mod Production
use k_sentry.Prelude.{
  ℕ, zero, suc, ◌+◌, ◌-◌, ◌*◌, ◌/◌, ◌%◌, ◌<◌, ◌≡◌, ◌≢◌, List, Bool, true, false, not, ◌&&◌, ◌||◌,
  leb, ltb, ◌==◌, if◌then◌else◌, length,
}
use k_sentry.Verified.Spec.{ramanujan_spec}

unfoldable pub square_degree_bound : ℕ → ℕ
square_degree_bound n = if leb n 0 then 0 else (n - 1) * n / 2

unfoldable pub diff_poly_eval_mod : List ℕ → List ℕ → ℕ → ℕ → ℕ
diff_poly_eval_mod w w2 q p =
    if not (length w == length w2) || leb p 1
    then 0
    else (ramanujan_spec w q p + p - ramanujan_spec w2 q p) % p

unfoldable pub bad_q_for_traces : List ℕ → List ℕ → ℕ → ℕ → Bool
bad_q_for_traces w w2 q p = ltb q p && (ramanujan_spec w q p == ramanujan_spec w2 q p)

unfoldable pub root_q_for_diff_poly : List ℕ → List ℕ → ℕ → ℕ → Bool
root_q_for_diff_poly w w2 q p = ltb q p && (diff_poly_eval_mod w w2 q p == 0)

unfoldable pub count_bad_q_up_to : List ℕ → List ℕ → ℕ → ℕ → ℕ
count_bad_q_up_to w w2 p zero = 0
count_bad_q_up_to w w2 p (suc k) =
    let below = count_bad_q_up_to w w2 p k in
    if leb p 0 then 0 else below + (if bad_q_for_traces w w2 k p then 1 else 0)

unfoldable pub bad_q_count : List ℕ → List ℕ → ℕ → ℕ
bad_q_count w w2 p = if leb p 0 then 0 else count_bad_q_up_to w w2 p p

unfoldable pub count_root_q_up_to : List ℕ → List ℕ → ℕ → ℕ → ℕ
count_root_q_up_to w w2 p zero = 0
count_root_q_up_to w w2 p (suc k) =
    let below = count_root_q_up_to w w2 p k in
    if leb p 0 then 0 else below + (if root_q_for_diff_poly w w2 k p then 1 else 0)

unfoldable pub diff_poly_root_count : List ℕ → List ℕ → ℕ → ℕ
diff_poly_root_count w w2 p = if leb p 0 then 0 else count_root_q_up_to w w2 p p

-- No product of two residues that are not 0 is 0.
pub record IsDomainModP (p : ℕ) : Type 0 where
  pub above_one : 1 < p
  pub no_zero_divisors : (x y : ℕ) → 0 < x → x < p → 0 < y → y < p → x * y % p ≢ 0

abbrev pub Divides : ℕ → ℕ → Type 0
Divides d n = (d ≢ 0) × (n % d ≡ 0)

abbrev pub IsPrimeInt : ℕ → Type 0
IsPrimeInt p = IsDomainModP p
