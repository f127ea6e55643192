-- ===== src/Metrics/Mismatch/Localize.antt =====
-- `localize_window` of ksentry-metrics/src/main.rs: the states of the window decide whether the
-- states of the logs differ.
use mathlib.Core.Option.{some-injective}
use native.Mathlib.Decide.{dec_lt}
use native.Mathlib.Nat.{zero-add, suc-add}
use k_sentry.Prelude.{
  ℕ, zero, suc, ◌+◌, ◌-◌, ◌*◌, ◌%◌, ◌^◌, ◌≤◌, ◌<◌, ◌≡◌, ◌↔◌, refl, sym, ap, ap₂, ◌∙◌, arith, true,
  Option, none, some, List, [], ◌∷◌, ◌++◌, length, length-take, length-drop, take, drop,
  take-append-drop, get_elem?, ==_iff, le→leb, lt→ltb,
}
use k_sentry.Weighted.{weighted-append}
use k_sentry.Weighted.Edits.{middle_iff}
use k_sentry.Metrics.Arith.Exact.{IsModulus}
use k_sentry.Metrics.Sentry.{KSentry, state_for_logs}
use k_sentry.Metrics.Sentry.Exact.{square_sum, state_for_logs-fits, shifted_state_for_logs-exact}
use k_sentry.Metrics.Mismatch.{WindowLocalization, slice, window_at, localize_window}
use k_sentry.Metrics.Mismatch.Find.{Agree}
use k_sentry.Metrics.Mismatch.Window.{IsWindow, mismatch_window-IsWindow}

-- Logs that agree up to an index have one prefix, and from an index on, one rest.
take-Agree : (n : ℕ) (xs ys : List ℕ) → ((k : ℕ) → k < n → Agree xs ys k) → take n xs ≡ take n ys
take-Agree zero xs ys h = refl
take-Agree (suc n) [] [] h = refl
take-Agree (suc n) [] (y ∷ ys) h = absurd (ground (arith, h 0 (omega arith)))
take-Agree (suc n) (x ∷ xs) [] h = absurd (ground (arith, h 0 (omega arith)))
take-Agree (suc n) (x ∷ xs) (y ∷ ys) h =
    ap₂ ◌∷◌ (some-injective x y (h 0 (omega arith)))
      (take-Agree n xs ys (λ k below. h (suc k) (omega arith)))

all-Agree : (xs ys : List ℕ) → ((k : ℕ) → Agree xs ys k) → xs ≡ ys
all-Agree [] [] h = refl
all-Agree [] (y ∷ ys) h = absurd (ground (arith, h 0))
all-Agree (x ∷ xs) [] h = absurd (ground (arith, h 0))
all-Agree (x ∷ xs) (y ∷ ys) h =
    ap₂ ◌∷◌ (some-injective x y (h 0)) (all-Agree xs ys (λ k. h (suc k)))

get_elem?-drop : (n : ℕ) (xs : List ℕ) (k : ℕ) → get_elem? (drop n xs) k ≡ get_elem? xs (n + k)
get_elem?-drop zero xs k = rw zero-add
get_elem?-drop (suc n) [] k = refl
get_elem?-drop (suc n) (x ∷ xs) k = rw suc-add (get_elem?-drop n xs k)

get_elem?-outside : (xs : List ℕ) (k : ℕ) → length xs ≤ k → get_elem? xs k ≡ none
get_elem?-outside [] k h = refl
get_elem?-outside (x ∷ xs) zero h = absurd (omega arith)
get_elem?-outside (x ∷ xs) (suc k) h = get_elem?-outside xs k (omega arith)

-- A log around a window.
abbrev window : List ℕ → ℕ → ℕ → List ℕ
window xs start end = take (end + 1 - start) (drop start xs)

abbrev behind : List ℕ → ℕ → ℕ → List ℕ
behind xs start end = drop (end + 1 - start) (drop start xs)

around :
    (xs : List ℕ) (start end : ℕ)
    → take start xs ++ (window xs start end ++ behind xs start end) ≡ xs
around xs start end =
    ap (λ l. take start xs ++ l) (take-append-drop (end + 1 - start) (drop start xs))
    ∙ take-append-drop start xs

behind-Agree :
    (xs ys : List ℕ) (start end : ℕ)
    → length xs ≡ length ys
    → start ≤ end
    → ((k : ℕ) → end < k → k < length xs → Agree xs ys k)
    → behind xs start end ≡ behind ys start end
behind-Agree xs ys start end same ordered h = all-Agree _ _ (λ k.
    simp
      (
        get_elem?-drop (end + 1 - start) (drop start xs) k,
        get_elem?-drop (end + 1 - start) (drop start ys) k,
        get_elem?-drop start xs,
        get_elem?-drop start ys,
      )
      (elim (dec_lt (start + (end + 1 - start + k)) (length xs)) [
        | yes inside ↦ h (start + (end + 1 - start + k)) (omega arith) inside
        | no over ↦
            get_elem?-outside xs _ (omega arith) ∙ sym (get_elem?-outside ys _ (omega arith))
      ]))

-- The sums of logs with one prefix and one rest around two windows of one length.
sums_iff :
    (q p : ℕ) (pre a b post : List ℕ)
    → 0 < p
    → length a ≡ length b
    → (square_sum q (length pre) a % p ≡ square_sum q (length pre) b % p)
      ↔ (square_sum q 0 (pre ++ (a ++ post)) % p ≡ square_sum q 0 (pre ++ (b ++ post)) % p)
sums_iff q p pre a b post pos same =
    let m =
      middle_iff (λ i. i) p pos (square_sum q (length pre) a) (square_sum q (length pre) b)
        (square_sum q 0 pre) (square_sum q (length pre + length b) post) in
    rw
      (
        weighted-append (λ i. q ^ (i * i)) 0 pre (a ++ post),
        weighted-append (λ i. q ^ (i * i)) 0 pre (b ++ post),
        zero-add,
        weighted-append (λ i. q ^ (i * i)) (length pre) a post,
        weighted-append (λ i. q ^ (i * i)) (length pre) b post,
        same,
      )
      (m.1, m.0)

slice-window :
    (xs : List ℕ) (start end : ℕ)
    → start ≤ end
    → end < length xs
    → slice xs start end ≡ some (window xs start end)
unfolding slice
slice-window xs start end ordered inside =
    rw (le→leb start (end + 1) (omega arith), lt→ltb end (length xs) inside)

length-window :
    (xs : List ℕ) (start end : ℕ)
    → start ≤ end
    → end < length xs
    → length (window xs start end) ≡ end + 1 - start
length-window xs start end ordered inside =
    omega (arith, length-take (end + 1 - start) (drop start xs), length-drop start xs)

-- Equality of two results is equality of the values.
some_iff : (a b : ℕ) → (a ≡ b) ↔ (some a ≡ some b)
some_iff a b = (λ e. ap (λ (t : ℕ). some t) e, some-injective a b)

-- What the report says of the states.
abbrev pub StatesAgree : KSentry → List ℕ → List ℕ → WindowLocalization → Type 0
StatesAgree ks xs ys info =
    (info.shifted_original_window_state ≡ info.shifted_changed_window_state)
    ↔ (state_for_logs ks xs ≡ state_for_logs ks ys)

module _ (ks : KSentry) (m : IsModulus ks.p) (xs ys : List ℕ) (same : length xs ≡ length ys)
    (bound : length xs ≤ 2 ^ 32) where
  totals_iff :
      (start end : ℕ)
      → IsWindow xs ys (some (start, end))
      → (square_sum ks.q start (window xs start end) % ks.p
          ≡ square_sum ks.q start (window ys start end) % ks.p)
        ↔ (square_sum ks.q 0 xs % ks.p ≡ square_sum ks.q 0 ys % ks.p)
  unfolding IsWindow
  totals_iff start end w =
      let before : take start xs ≡ take start ys = take-Agree start xs ys w.4 in
      let after : behind xs start end ≡ behind ys start end =
        behind-Agree xs ys start end same w.0 w.5 in
      let at : length (take start xs) ≡ start = omega (arith, length-take start xs, w.0, w.1) in
      let mid : length (window xs start end) ≡ length (window ys start end) =
        length-window xs start end w.0 w.1
        ∙ sym (length-window ys start end w.0 (omega (arith, w.1))) in
      let ys_eq : take start xs ++ (window ys start end ++ behind xs start end) ≡ ys =
        ap₂ (λ (a b : List ℕ). a ++ (window ys start end ++ b)) before after
        ∙ around ys start end in
      rw (at, around xs start end, ys_eq) at
        (sums_iff ks.q ks.p (take start xs) (window xs start end) (window ys start end)
          (behind xs start end) (omega (arith, m.above_one)) mid)

  unfold_window :
      (start end : ℕ) → IsWindow xs ys (some (start, end)) → (start ≤ end) × (end < length xs)
  unfolding IsWindow
  unfold_window start end w = (w.0, w.1)

  window_at-states :
      (w : Option (ℕ × ℕ))
      → IsWindow xs ys w
      → (info : WindowLocalization) × (window_at ks xs ys w ≡ some info) × StatesAgree ks xs ys info
  unfolding window_at
  window_at-states none w =
      let eq : xs ≡ ys = unfold IsWindow in w in
      (_, refl, (λ e. ap (state_for_logs ks) eq, λ e. refl))
  window_at-states (some (start, end)) w =
      let o = unfold_window start end w in
      let inside : end < length ys = omega (arith, o.1, same) in
      let wx = length-window xs start end o.0 o.1 in
      let wy = length-window ys start end o.0 inside in
      let t = totals_iff start end w in
      (
        record {
          mismatch_exists = true;
          start = some start;
          end = some end;
          original_window_state = some (square_sum ks.q 0 (window xs start end) % ks.p);
          changed_window_state = some (square_sum ks.q 0 (window ys start end) % ks.p);
          shifted_original_window_state = some (square_sum ks.q start (window xs start end) % ks.p);
          shifted_changed_window_state = some (square_sum ks.q start (window ys start end) % ks.p);
        },
        rw
            (
              slice-window xs start end o.0 o.1,
              slice-window ys start end o.0 inside,
              state_for_logs-fits ks m (window xs start end) (omega (arith, wx, bound, o.1)),
              state_for_logs-fits ks m (window ys start end) (omega (arith, wy, bound, o.1)),
              shifted_state_for_logs-exact ks m (window xs start end) start
                  (omega (arith, wx, bound, o.0, o.1)),
              shifted_state_for_logs-exact ks m (window ys start end) start
                  (omega (arith, wy, bound, o.0, o.1)),
            )
            refl,
        rw
            (
              state_for_logs-fits ks m xs bound,
              state_for_logs-fits ks m ys (omega (arith, same, bound)),
            )
            (
              λ e. (some_iff _ _).0 (t.0 (some-injective _ _ e)),
              λ e. (some_iff _ _).0 (t.1 (some-injective _ _ e)),
            ),
      )

  -- For a `u64` modulus above 1 and logs of one length of at most 2 ^ 32, `localize_window` returns,
  -- and the shifted states of its windows are equal exactly when the states of the logs are.
  pub localize_window-states :
      (info : WindowLocalization) × (localize_window ks xs ys ≡ some info)
      × StatesAgree ks xs ys info
  unfolding localize_window
  localize_window-states =
      let r = mismatch_window-IsWindow xs ys same in
      let s = window_at-states r.0 r.2 in
      (s.0, rw ((==_iff (length xs) (length ys)).1 same, r.1) s.1, s.2)
