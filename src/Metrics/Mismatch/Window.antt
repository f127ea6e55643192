-- ===== src/Metrics/Mismatch/Window.antt =====
-- `mismatch_window` and `localize_window` of ksentry-metrics/src/main.rs: the smallest range that
-- holds every difference of two logs.
use mathlib.Core.Option.{some-injective}
use native.Mathlib.Decide.{dec_lt}
use k_sentry.Prelude.{
  ℕ, zero, suc, ◌+◌, ◌-◌, ◌≤◌, ◌<◌, ◌≡◌, ◌⊎◌, inl, inr, refl, sym, subst, ap, ◌∙◌, arith, Option,
  none, some, List, [], ◌∷◌, length, get_elem?, ◌==◌, ==_iff, Bool-cases,
}
use k_sentry.Metrics.Mismatch.{first_loop, first_mismatch, last_loop, window_from, mismatch_window}
use k_sentry.Metrics.Mismatch.Find.{Agree, IsFirst, first_loop-IsFirst}

get_elem?-inside : (xs : List ℕ) (k : ℕ) → k < length xs → (x : ℕ) × (get_elem? xs k ≡ some x)
get_elem?-inside [] k h = absurd (omega arith)
get_elem?-inside (x ∷ xs) zero h = (x, refl)
get_elem?-inside (x ∷ xs) (suc k) h = get_elem?-inside xs k (omega arith)

pub get_elem?-bound : (xs : List ℕ) (k x : ℕ) → get_elem? xs k ≡ some x → k < length xs
get_elem?-bound [] k x e = absurd (ground (arith, e))
get_elem?-bound (y ∷ xs) zero x e = omega arith
get_elem?-bound (y ∷ xs) (suc k) x e = omega (arith, get_elem?-bound xs k x e)

-- What the reversed loop returns: the last difference, or the start when there is none.
IsLast : ℕ → ℕ → List ℕ → List ℕ → ℕ → Type 0
IsLast start stop xs ys e =
    (start ≤ e)
    × ((e ≡ start) ⊎ ((e < stop) × (¬ Agree xs ys e)))
    × ((k : ℕ) → e < k → k < stop → Agree xs ys k)

IsLast-extend :
    (start stop : ℕ) (xs ys : List ℕ) (e : ℕ)
    → Agree xs ys stop
    → IsLast start stop xs ys e
    → IsLast start (suc stop) xs ys e
unfolding IsLast
IsLast-extend start stop xs ys e a h = (
  h.0,
  elim h.1 [ inl at ↦ inl at | inr d ↦ inr (omega (arith, d.0), d.1) ],
  λ k above below. elim (dec_lt k stop) [
    | yes inside ↦ h.2 k above inside
    | no over ↦ let at : k ≡ stop = omega arith in rw at a
  ],
)

last_loop-IsLast :
    (start rounds : ℕ) (xs ys : List ℕ)
    → start + rounds ≤ length xs
    → length xs ≡ length ys
    → (e : ℕ) × (last_loop start rounds xs ys ≡ some e) × IsLast start (start + rounds) xs ys e
unfolding last_loop
last_loop-IsLast start zero xs ys inside h =
    (start, refl, unfold IsLast in (omega arith, inl refl, λ k above below. absurd (omega arith)))
last_loop-IsLast start (suc rounds) xs ys inside h =
    let a = get_elem?-inside xs (start + rounds) (omega arith) in
    let b = get_elem?-inside ys (start + rounds) (omega arith) in
    let rest = last_loop-IsLast start rounds xs ys (omega arith) h in
    let stop : start + suc rounds ≡ suc (start + rounds) = omega arith in
    elim (Bool-cases (a.0 == b.0)) [
      | inl same ↦ (
        rest.0,
        rw (a.1, b.1, same) rest.1,
        rw stop (
            IsLast-extend start (start + rounds) xs ys rest.0
              (a.1 ∙ ap (λ (t : ℕ). some t) ((==_iff a.0 b.0).0 same) ∙ sym b.1) rest.2),
      )
      | inr differs ↦ (
        start + rounds,
        rw (a.1, b.1, differs) refl,
        unfold IsLast in
            (
              omega arith,
              inr (omega arith, λ e. ground (arith, some-injective a.0 b.0 (sym a.1 ∙ e ∙ b.1))),
              λ k above below. absurd (omega arith),
            ),
      )
    ]

last_loop-to_end :
    (start : ℕ) (xs ys : List ℕ)
    → start < length xs
    → length xs ≡ length ys
    → (e : ℕ) × (last_loop start (length xs - start) xs ys ≡ some e)
      × IsLast start (length xs) xs ys e
last_loop-to_end start xs ys inside h =
    let stop : start + (length xs - start) ≡ length xs = omega arith in
    subst
      (λ t. (e : ℕ) × (last_loop start (length xs - start) xs ys ≡ some e) × IsLast start t xs ys e)
      stop (last_loop-IsLast start (length xs - start) xs ys (omega (arith, stop)) h)

unfold_last :
    (start stop : ℕ) (xs ys : List ℕ) (e : ℕ)
    → IsLast start stop xs ys e
    → (start ≤ e)
      × ((e ≡ start) ⊎ ((e < stop) × (¬ Agree xs ys e)))
      × ((k : ℕ) → e < k → k < stop → Agree xs ys k)
unfolding IsLast
unfold_last start stop xs ys e h = h

-- The window of two logs: none for equal logs, or the range from the first to the last difference.
unfoldable pub IsWindow : List ℕ → List ℕ → Option (ℕ × ℕ) → Type 0
IsWindow xs ys none = xs ≡ ys
IsWindow xs ys (some (start, end)) =
    (start ≤ end)
    × (end < length xs)
    × (¬ Agree xs ys start)
    × (¬ Agree xs ys end)
    × ((k : ℕ) → k < start → Agree xs ys k)
    × ((k : ℕ) → end < k → k < length xs → Agree xs ys k)

window_from-IsWindow :
    (xs ys : List ℕ) (r : Option (ℕ × ℕ × ℕ))
    → length xs ≡ length ys
    → IsFirst xs ys r
    → (w : Option (ℕ × ℕ)) × (window_from xs ys r ≡ some w) × IsWindow xs ys w
unfolding window_from
window_from-IsWindow xs ys none h f = (none, refl, unfold IsWindow in f)
window_from-IsWindow xs ys (some (i, x, y)) h f =
    let inside = get_elem?-bound xs i x f.0 in
    let differ : ¬ Agree xs ys i = λ a. f.2 (some-injective x y (sym f.0 ∙ a ∙ f.1)) in
    let r = last_loop-to_end i xs ys inside h in
    let l = unfold_last i (length xs) xs ys r.0 r.2 in
    (
      some (i, r.0),
      rw r.1 refl,
      unfold IsWindow in
          (
            l.0,
            elim l.1 [ inl at ↦ rw at inside | inr d ↦ d.0 ],
            differ,
            elim l.1 [ inl at ↦ rw at differ | inr d ↦ d.1 ],
            f.3,
            l.2,
          ),
    )

-- For logs of one length `mismatch_window` returns; it reports no window only for equal logs, and
-- otherwise a range that differs at both ends and outside of which the logs agree.
pub mismatch_window-IsWindow :
    (xs ys : List ℕ)
    → length xs ≡ length ys
    → (w : Option (ℕ × ℕ)) × (mismatch_window xs ys ≡ some w) × IsWindow xs ys w
unfolding mismatch_window first_mismatch
mismatch_window-IsWindow xs ys h =
    let r = window_from-IsWindow xs ys (first_loop 0 xs ys) h (first_loop-IsFirst xs ys h) in
    (r.0, rw ((==_iff (length xs) (length ys)).1 h) r.1, r.2)
