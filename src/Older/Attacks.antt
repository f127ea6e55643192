-- ===== src/Older/Attacks.antt =====
-- The attacks of ksentry-metrics/src/bin/main1.rs against its digest, and its rolling hash.
use mathlib.Core.List.{reverse, reverse-cons}
use native.Mathlib.Nat.{
  mod-lt, mod-eq_of_lt, zero-mod, mul-le-mul, pow-suc, pow-zero, add-zero, mod-add-mod, zero-add,
  mul-one,
}
use k_sentry.Prelude.{
  ℕ, zero, suc, ◌+◌, ◌-◌, ◌*◌, ◌%◌, ◌^◌, ◌≤◌, ◌<◌, ◌≡◌, ◌≢◌, refl, sym, ap, subst, ◌∙◌, arith, min,
  some, List, [], ◌∷◌, ◌++◌, length, get_elem?, set, false, ◌==◌, All, Bool-cases, inl, inr,
}
use k_sentry.Prelude.Mod.{add-mod_cancel, mul-mod_cancel, pow-inverse, mod-mul-mod}
use k_sentry.Weighted.{weighted, weighted-append, powers}
use k_sentry.Weighted.Interface.{StreamDigest, edit-digest_iff}
use k_sentry.Field.{u64, u128}
use k_sentry.Field.Laws.{tri}
use k_sentry.Metrics.Arith.Exact.{IsModulus}
use k_sentry.Rolling.Rebase.{affine_sum}
use k_sentry.Verified.Spec.Exact.{length-reverse}
use k_sentry.Verified.Exec.Refines.{IsU64}
use k_sentry.Older.{
  KSentry, state_for_logs, flip_lowest, edit_at, run_edit_attack, rolling_loop, rolling_hash,
}
use k_sentry.Older.Exact.{state_for_logs-fits}

-- A list cut at an index.
record IsCut (xs : List ℕ) (i : ℕ) : Type 0 where
  pub before : List ℕ
  pub at_index : ℕ
  pub behind : List ℕ
  pub whole : xs ≡ before ++ at_index ∷ behind
  pub index : length before ≡ i

cut : (xs : List ℕ) (i : ℕ) → i < length xs → IsCut xs i
cut [] i h = absurd (omega arith)
cut (x ∷ xs) zero h = record { before = []; at_index = x; behind = xs; whole = refl; index = refl }
cut (x ∷ xs) (suc i) h =
    let c = cut xs i (omega arith) in
    record {
      before = x ∷ c.before;
      at_index = c.at_index;
      behind = c.behind;
      whole = ap (λ l. x ∷ l) c.whole;
      index = ap suc c.index;
    }

pub get_elem?-middle :
    (pre : List ℕ) (x : ℕ) (post : List ℕ) → get_elem? (pre ++ x ∷ post) (length pre) ≡ some x
get_elem?-middle [] x post = refl
get_elem?-middle (y ∷ pre) x post = get_elem?-middle pre x post

pub set-middle :
    (pre : List ℕ) (x v : ℕ) (post : List ℕ)
    → set (pre ++ x ∷ post) (length pre) v ≡ pre ++ v ∷ post
set-middle [] x v post = refl
set-middle (y ∷ pre) x v post = ap (λ l. y ∷ l) (set-middle pre x v post)

-- A number and the next one differ modulo `p`.
next-differs : (x p : ℕ) → 1 < p → (1 + x) % p ≢ x % p
next-differs x p big e =
    let one : 1 % p ≡ 0 % p =
      add-mod_cancel 1 0 x p (omega arith) (e ∙ ap (λ (t : ℕ). t % p) (sym (zero-add x))) in
    absurd (omega (arith, one, mod-eq_of_lt big, zero-mod p))

flip_lowest-differs : (x p : ℕ) → 1 < p → flip_lowest x % p ≢ x % p
unfolding flip_lowest
flip_lowest-differs x p big = elim (Bool-cases (x % 2 == 0)) [
  | inl even ↦ rw even (λ e. next-differs x p big (ap (λ (t : ℕ). t % p) (omega arith) ∙ e))
  | inr odd ↦
      let up : 1 + (x - 1) ≡ x = ground arith in
      rw odd (λ e. next-differs (x - 1) p big (ap (λ (t : ℕ). t % p) up ∙ sym e))
]

module _ (ks : KSentry) (m : IsModulus ks.p) (r : ℕ) (inverse : ks.q * r % ks.p ≡ 1) where
  abbrev pub stream_digest : StreamDigest ks.p
  stream_digest = record {
    weight = powers tri ks.q;
    Accepts = λ n. n ≤ 2 ^ 32;
    digest_of = state_for_logs ks;
    digest_of-weighted = state_for_logs-fits ks m;
  }

  -- For a `u64` modulus above 1, a base that has an inverse modulo it and 1 to 2 ^ 32 logs, the edit
  -- attack returns at every index, and it changes the digest.
  pub run_edit_attack-detected :
      (logs : List ℕ) (idx : ℕ)
      → 0 < length logs
      → length logs ≤ 2 ^ 32
      → (out : List ℕ) × (run_edit_attack logs idx ≡ some out)
        × (state_for_logs ks logs ≢ state_for_logs ks out)
  unfolding run_edit_attack edit_at
  run_edit_attack-detected logs idx some_log short =
      let i = min idx (length logs - 1) in
      let c = cut logs i (omega arith) in
      let pre = c.before in
      let x = c.at_index in
      let post = c.behind in
      let test : (length logs == 0) ≡ false = ground arith in
      let found : get_elem? logs i ≡ some x =
        ap (λ (l : List ℕ). get_elem? l i) c.whole
        ∙ ap (get_elem? (pre ++ x ∷ post)) (sym c.index)
        ∙ get_elem?-middle pre x post in
      let edited : set logs i (flip_lowest x) ≡ pre ++ flip_lowest x ∷ post =
        ap (λ (l : List ℕ). set l i (flip_lowest x)) c.whole
        ∙ ap (λ (n : ℕ). set (pre ++ x ∷ post) n (flip_lowest x)) (sym c.index)
        ∙ set-middle pre x (flip_lowest x) post in
      let edit =
        edit-digest_iff (omega (arith, m.above_one)) stream_digest pre x (flip_lowest x) post
          (subst (λ (l : List ℕ). length l ≤ 2 ^ 32) c.whole short) in
      let n = length pre in
      (
        pre ++ flip_lowest x ∷ post,
        rw (test, found) (ap (λ (l : List ℕ). some l) edited),
        λ e. flip_lowest-differs x ks.p m.above_one (
            sym (
              mul-mod_cancel x (flip_lowest x) (ks.q ^ tri n) (r ^ tri n) ks.p
                (pow-inverse ks.q r (tri n) ks.p m.above_one inverse)
                (edit.0 (ap (state_for_logs ks) (sym c.whole) ∙ e)))),
      )

below_square : (n a b : ℕ) → a ≤ n → b ≤ n → a * b ≤ n * n
below_square n a b ha hb = mul-le-mul ha hb

affine_sum-snoc :
    (q : ℕ) (xs : List ℕ) (x : ℕ)
    → affine_sum q 0 (xs ++ x ∷ []) ≡ affine_sum q 0 xs + x * q ^ length xs
unfolding weighted
affine_sum-snoc q xs x = rw (weighted-append (powers (λ k. k) q) 0 xs (x ∷ []), add-zero, zero-add)

module _ {p : ℕ} (m : IsModulus p) (base : ℕ) (hb : base < 2 ^ 64) where
  rolling-step :
      (h x : ℕ) → x < 2 ^ 64 → u64 (u128 (u128 (h % p * base) + x) % p) ≡ (h * base + x) % p
  rolling-step h x hx =
      let small : h % p < p = mod-lt h (omega (arith, m.above_one)) in
      let product : h % p * base ≤ (2 ^ 64 - 1) * (2 ^ 64 - 1) =
        below_square (2 ^ 64 - 1) (h % p) base (omega (arith, small, m.is_u64)) (omega arith) in
      let whole : u128 (h % p * base) ≡ h % p * base = mod-eq_of_lt (omega (arith, product)) in
      let sum : u128 (h % p * base + x) ≡ h % p * base + x =
        mod-eq_of_lt (omega (arith, product)) in
      let reduced : (h % p * base + x) % p < p = mod-lt _ (omega (arith, m.above_one)) in
      ap (λ (t : ℕ). u64 (u128 (t + x) % p)) whole
      ∙ ap (λ (t : ℕ). u64 (t % p)) sum
      ∙ mod-eq_of_lt (omega (arith, reduced, m.is_u64))
      ∙ sym (mod-add-mod (h % p * base) p x)
      ∙ ap (λ (t : ℕ). (t + x) % p) (mod-mul-mod h base p)
      ∙ mod-add-mod (h * base) p x

  rolling_loop-exact :
      (h : ℕ) (xs : List ℕ)
      → All IsU64 xs
      → rolling_loop (h % p) xs base p ≡ (h * base ^ length xs + affine_sum base 0 (reverse xs)) % p
  unfolding rolling_loop weighted
  rolling_loop-exact h [] words = rw (pow-zero, mul-one, add-zero)
  rolling_loop-exact h (x ∷ xs) words =
      rw
        (
          rolling-step h x words.0,
          rolling_loop-exact (h * base + x) xs words.1,
          reverse-cons x xs,
          affine_sum-snoc base (reverse xs) x,
          length-reverse xs,
          pow-suc,
        )
        (ap (λ (t : ℕ). t % p) (omega arith))

  -- For a `u64` modulus above 1, a `u64` base and logs of 64 bits, the rolling hash, which multiplies
  -- what it has by the base before it adds a log, is the sum of the logs, each times the base to
  -- its distance from the last log, modulo `p`.
  pub rolling_hash-affine_sum :
      (xs : List ℕ) → All IsU64 xs → rolling_hash xs base p ≡ affine_sum base 0 (reverse xs) % p
  unfolding rolling_hash
  rolling_hash-affine_sum xs words =
      ap (λ (h : ℕ). rolling_loop h xs base p) (sym (zero-mod p))
      ∙ rolling_loop-exact 0 xs words
      ∙ ap (λ (t : ℕ). t % p) (omega arith)
