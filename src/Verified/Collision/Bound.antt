-- ===== src/Verified/Collision/Bound.antt =====
-- How many bases make two traces collide.
use native.Mathlib.Nat.{zero-add, pow-zero, mul-one, zero-mod, add-mul-mod_self_left}
use k_sentry.Prelude.{
  ℕ, zero, suc, ◌+◌, ◌-◌, ◌%◌, ◌≤◌, ◌<◌, ◌≡◌, ◌≢◌, refl, sym, ap, ◌∙◌, arith, List, [], ◌∷◌, length,
  map, true, false, ◌↔◌, leb, ==_iff, inl, inr,
}
use k_sentry.Prelude.Mod.{add-mod_cancel}
use k_sentry.Weighted.{weighted-mod, powers}
use k_sentry.Field.Laws.{tri, tri-zero, twice-tri}
use k_sentry.KSentry.Exact.{tri_sum}
use k_sentry.Verified.Spec.Exact.{ramanujan_spec-exact}
use k_sentry.Verified.Collision.{
  IsDomainModP, bad_q_for_traces, count_bad_q_up_to, bad_q_count, square_degree_bound,
}
use k_sentry.Verified.Collision.Count.{count, count-suc, count-zero, count_full, count_mono}
use k_sentry.Verified.Collision.Poly.{eval, is_root, few_roots}
use k_sentry.Verified.Collision.Dense.{
  dense, length-dense, eval-dense, dense-IsZero, differences, length-differences,
  tri_sum-differences, differences-IsZero,
}

module _ (p : ℕ) (pos : 0 < p) where
  count_bad_q_up_to-count :
      (w w2 : List ℕ) (k : ℕ)
      → count_bad_q_up_to w w2 p k ≡ count (λ q. bad_q_for_traces w w2 q p) k
  unfolding count_bad_q_up_to
  count_bad_q_up_to-count w w2 zero = sym (count-zero _)
  count_bad_q_up_to-count w w2 (suc k) =
      let test : leb p 0 ≡ false = ground arith in
      rw (test, count_bad_q_up_to-count w w2 k) (sym (count-suc (λ q. bad_q_for_traces w w2 q p) k))

  pub bad_q_count-count :
      (w w2 : List ℕ) → bad_q_count w w2 p ≡ count (λ q. bad_q_for_traces w w2 q p) p
  unfolding bad_q_count
  bad_q_count-count w w2 =
      let test : leb p 0 ≡ false = ground arith in rw test (count_bad_q_up_to-count w w2 p)

  bad_iff :
      (w w2 : List ℕ) (q : ℕ)
      → (bad_q_for_traces w w2 q p ≡ true) ↔ ((q < p) × (tri_sum q 0 w % p ≡ tri_sum q 0 w2 % p))
  unfolding bad_q_for_traces
  bad_iff w w2 q = rw (ramanujan_spec-exact w q p, ramanujan_spec-exact w2 q p) (ground arith)

  -- Traces with the same digest have a difference that is 0.
  zero_difference :
      (q : ℕ) (w w2 : List ℕ)
      → length w ≡ length w2
      → tri_sum q 0 w % p ≡ tri_sum q 0 w2 % p
      → tri_sum q 0 (differences p w w2) % p ≡ 0
  zero_difference q w w2 same h =
      let (m, balance) = tri_sum-differences q p 0 w w2 pos same in
      let d = tri_sum q 0 (differences p w w2) in
      add-mod_cancel d 0 (tri_sum q 0 w2) p pos (
        ap (λ (t : ℕ). t % p) balance
        ∙ add-mul-mod_self_left (tri_sum q 0 w) p m
        ∙ h
        ∙ ap (λ (t : ℕ). t % p) (sym (zero-add (tri_sum q 0 w2))))
      ∙ zero-mod p

  -- A bad base is a root of the difference polynomial.
  bad-root :
      (x y : ℕ) (xs ys : List ℕ) (q : ℕ)
      → length xs ≡ length ys
      → bad_q_for_traces (x ∷ xs) (y ∷ ys) q p ≡ true
      → is_root p (dense 0 (x + (p - y % p)) (differences p xs ys)) q ≡ true
  unfolding differences
  bad-root x y xs ys q same h =
      let d = x + (p - y % p) in
      let zero_sum =
        zero_difference q (x ∷ xs) (y ∷ ys) (ap suc same) (((bad_iff (x ∷ xs) (y ∷ ys) q).0 h).1) in
      let value : eval (dense 0 d (differences p xs ys)) q ≡ tri_sum q 0 (d ∷ differences p xs ys) =
        rw (tri-zero, pow-zero, mul-one) at (eval-dense q 0 d (differences p xs ys)) in
      (==_iff _ _).1 (rw value zero_sum)

  -- For a modulus above 0 and traces that are the same modulo `p`, each of the `p` bases makes them
  -- collide, so the count is `p` although the traces may be different.
  pub bad_q_count-same_residues :
      (w w2 : List ℕ) → map (λ x. x % p) w ≡ map (λ y. y % p) w2 → bad_q_count w w2 p ≡ p
  bad_q_count-same_residues w w2 same =
      bad_q_count-count w w2
      ∙ count_full (λ q. bad_q_for_traces w w2 q p) p
          (λ q h. (bad_iff w w2 q).1 (h, same_sum q 0 w w2 same))
    where
      same_sum :
          (q i : ℕ) (w w2 : List ℕ)
          → map (λ x. x % p) w ≡ map (λ y. y % p) w2
          → tri_sum q i w % p ≡ tri_sum q i w2 % p
      same_sum q i w w2 same =
          sym (weighted-mod (powers tri q) p i w)
          ∙ ap (λ (l : List ℕ). tri_sum q i l % p) same
          ∙ weighted-mod (powers tri q) p i w2

square_degree_bound-suc : (n : ℕ) → square_degree_bound (suc n) ≡ tri n
unfolding square_degree_bound
square_degree_bound-suc n =
    let test : leb (suc n) 0 ≡ false = ground arith in
    let pred : suc n - 1 ≡ n = omega arith in rw (test, pred) (omega (arith, twice-tri n))

module _ {p : ℕ} (domain : IsDomainModP p) where
  -- For a modulus `p` above 1 under which no two residues other than 0 have the product 0, and two
  -- traces of the same length that are not the same modulo `p`, at most n * (n - 1) / 2 of the
  -- bases below `p` make them collide, with n the length.
  pub bad_q_count-bound :
      (w w2 : List ℕ)
      → length w ≡ length w2
      → map (λ x. x % p) w ≢ map (λ y. y % p) w2
      → bad_q_count w w2 p ≤ square_degree_bound (length w)
  unfolding differences
  bad_q_count-bound [] [] same differ = absurd (differ refl)
  bad_q_count-bound [] (y ∷ ys) same differ = absurd (omega arith)
  bad_q_count-bound (x ∷ xs) [] same differ = absurd (omega arith)
  bad_q_count-bound (x ∷ xs) (y ∷ ys) same differ =
      let pos : 0 < p = omega (arith, domain.above_one) in
      let d = x + (p - y % p) in
      let ds = differences p xs ys in
      let poly = dense 0 d ds in
      elim (few_roots domain (length poly) poly refl) [
        | inl zeros ↦
            absurd (
              differ
                (differences-IsZero p (x ∷ xs) (y ∷ ys) pos same (dense-IsZero p 0 d ds zeros)))
        | inr few ↦
            let fewer =
              count_mono (λ q. bad_q_for_traces (x ∷ xs) (y ∷ ys) q p) (is_root p poly) p
                (λ q h. bad-root p pos x y xs ys q (omega arith)) in
            let size = length-dense 0 d ds in
            let n : 0 + length ds ≡ length xs =
              omega (arith, length-differences p xs ys (omega arith)) in
            rw (bad_q_count-count p pos (x ∷ xs) (y ∷ ys), square_degree_bound-suc (length xs))
              (omega (arith, fewer, few, rw n at size, tri-zero))
      ]
