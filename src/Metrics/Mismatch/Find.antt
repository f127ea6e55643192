-- ===== src/Metrics/Mismatch/Find.antt =====
-- `first_mismatch` and `all_mismatch_indices` of ksentry-metrics/src/main.rs find the differences.
use mathlib.Core.Option
use mathlib.Core.Option.{some-injective}
use native.Mathlib.Nat.{zero-add}
use k_sentry.Prelude.{
  ℕ, zero, suc, ◌+◌, ◌<◌, ◌≡◌, ◌≢◌, ◌⊎◌, ◌↔◌, inl, inr, refl, sym, subst, ap, ap₂, ◌∙◌, arith,
  Option, none, some, List, [], ◌∷◌, length, get_elem?, Bool, true, false, not, ◌==◌, ==_iff,
  Bool-cases,
}
use k_sentry.Metrics.Mismatch.{
  MismatchInfo, first_loop, first_mismatch, indices_loop, all_mismatch_indices, first, last,
  is_empty, mismatch_info,
}

abbrev pub Agree : List ℕ → List ℕ → ℕ → Type 0
Agree xs ys k = get_elem? xs k ≡ get_elem? ys k

-- What the search reports: nothing for equal logs, or the first index at which they differ, with
-- the two values there.
abbrev pub IsFirst : List ℕ → List ℕ → Option (ℕ × ℕ × ℕ) → Type 0
IsFirst xs ys none = xs ≡ ys
IsFirst xs ys (some (i, x, y)) =
    (get_elem? xs i ≡ some x)
    × (get_elem? ys i ≡ some y)
    × (x ≢ y)
    × ((k : ℕ) → k < i → Agree xs ys k)

-- The same of a loop that counts its indices from `n`.
IsFirstFrom : ℕ → List ℕ → List ℕ → Option (ℕ × ℕ × ℕ) → Type 0
IsFirstFrom n xs ys none = xs ≡ ys
IsFirstFrom n xs ys (some (i, x, y)) =
    (j : ℕ) × (i ≡ n + j)
    × (get_elem? xs j ≡ some x)
    × (get_elem? ys j ≡ some y)
    × (x ≢ y)
    × ((k : ℕ) → k < j → Agree xs ys k)

-- An equal element in front of two logs.
pub Agree-cons :
    (x y : ℕ) (xs ys : List ℕ) (j : ℕ)
    → x ≡ y
    → ((k : ℕ) → k < j → Agree xs ys k)
    → (k : ℕ) → k < suc j
    → Agree (x ∷ xs) (y ∷ ys) k
Agree-cons x y xs ys j e before zero lt = ap (λ (t : ℕ). some t) e
Agree-cons x y xs ys j e before (suc k) lt = before k (omega arith)

IsFirstFrom-cons :
    (n x y : ℕ) (xs ys : List ℕ) (r : Option (ℕ × ℕ × ℕ))
    → x ≡ y
    → IsFirstFrom (n + 1) xs ys r
    → IsFirstFrom n (x ∷ xs) (y ∷ ys) r
unfolding IsFirstFrom
IsFirstFrom-cons n x y xs ys none e h = ap₂ ◌∷◌ e h
IsFirstFrom-cons n x y xs ys (some (i, a, b)) e h =
    (suc h.0, omega (arith, h.1), h.2, h.3, h.4, Agree-cons x y xs ys h.0 e h.5)

first_loop-IsFirstFrom :
    (n : ℕ) (xs ys : List ℕ) → length xs ≡ length ys → IsFirstFrom n xs ys (first_loop n xs ys)
unfolding first_loop IsFirstFrom
first_loop-IsFirstFrom n [] [] h = refl
first_loop-IsFirstFrom n [] (y ∷ ys) h = absurd (omega arith)
first_loop-IsFirstFrom n (x ∷ xs) [] h = absurd (omega arith)
first_loop-IsFirstFrom n (x ∷ xs) (y ∷ ys) h = elim (Bool-cases (x == y)) [
  | inl same ↦ rw same (
      IsFirstFrom-cons n x y xs ys (first_loop (n + 1) xs ys) ((==_iff x y).0 same)
        (first_loop-IsFirstFrom (n + 1) xs ys (omega arith)))
  | inr differs ↦
      rw differs (0, omega arith, refl, refl, ground arith, λ k below. absurd (omega arith))
]

IsFirstFrom-zero :
    (xs ys : List ℕ) (r : Option (ℕ × ℕ × ℕ)) → IsFirstFrom 0 xs ys r → IsFirst xs ys r
unfolding IsFirstFrom
IsFirstFrom-zero xs ys none h = h
IsFirstFrom-zero xs ys (some (i, x, y)) h =
    let at : i ≡ h.0 = omega (arith, h.1) in rw at (h.2, h.3, h.4, h.5)

pub first_loop-IsFirst :
    (xs ys : List ℕ) → length xs ≡ length ys → IsFirst xs ys (first_loop 0 xs ys)
first_loop-IsFirst xs ys h =
    IsFirstFrom-zero xs ys (first_loop 0 xs ys) (first_loop-IsFirstFrom 0 xs ys h)

-- For logs of one length `first_mismatch` returns; it reports nothing only for equal logs, and
-- otherwise two different values at an index before which the logs agree.
pub first_mismatch-IsFirst :
    (xs ys : List ℕ)
    → length xs ≡ length ys
    → (r : Option (ℕ × ℕ × ℕ)) × (first_mismatch xs ys ≡ some r) × IsFirst xs ys r
unfolding first_mismatch
first_mismatch-IsFirst xs ys h =
    (first_loop 0 xs ys, rw ((==_iff (length xs) (length ys)).1 h), first_loop-IsFirst xs ys h)

-- Membership, as data.
abbrev pub Elem : ℕ → List ℕ → Type 0
Elem k [] = ⊥
Elem k (x ∷ xs) = (k ≡ x) ⊎ Elem k xs

indices_loop_sound :
    (n k : ℕ) (xs ys : List ℕ)
    → Elem k (indices_loop n xs ys)
    → (j : ℕ) × (k ≡ n + j) × (j < length xs) × (¬ Agree xs ys j)
unfolding indices_loop
indices_loop_sound n k [] ys h = absurd h
indices_loop_sound n k (x ∷ xs) [] h = absurd h
indices_loop_sound n k (x ∷ xs) (y ∷ ys) h = elim (Bool-cases (x == y)) [
  | inl same ↦
      let r = indices_loop_sound (n + 1) k xs ys (rw same at h) in
      (suc r.0, omega (arith, r.1), omega (arith, r.2), r.3)
  | inr differs ↦
      let cases : (k ≡ n) ⊎ Elem k (indices_loop (n + 1) xs ys) = rw differs at h in
      elim cases [
        | inl here ↦ (0, omega arith, omega arith, λ a. ground (arith, some-injective x y a))
        | inr there ↦
            let r = indices_loop_sound (n + 1) k xs ys there in
            (suc r.0, omega (arith, r.1), omega (arith, r.2), r.3)
      ]
]

indices_loop_complete :
    (n j : ℕ) (xs ys : List ℕ)
    → length xs ≡ length ys
    → ¬ Agree xs ys j
    → Elem (n + j) (indices_loop n xs ys)
unfolding indices_loop
indices_loop_complete n j [] [] h d = absurd (d refl)
indices_loop_complete n j [] (y ∷ ys) h d = absurd (omega arith)
indices_loop_complete n j (x ∷ xs) [] h d = absurd (omega arith)
indices_loop_complete n zero (x ∷ xs) (y ∷ ys) h d = elim (Bool-cases (x == y)) [
  | inl same ↦ absurd (d (ap (λ (t : ℕ). some t) ((==_iff x y).0 same)))
  | inr differs ↦ rw differs (inl (omega arith))
]
indices_loop_complete n (suc j) (x ∷ xs) (y ∷ ys) h d =
    let rest = indices_loop_complete (n + 1) j xs ys (omega arith) d in
    let at : n + suc j ≡ n + 1 + j = omega arith in
    elim (Bool-cases (x == y)) [
      | inl same ↦ rw (same, at) rest
      | inr differs ↦
          rw differs (inr (subst (λ t. Elem t (indices_loop (n + 1) xs ys)) (sym at) rest))
    ]

-- `all_mismatch_indices` returns exactly the indices at which logs of one length differ: each index
-- in the list is below the length and a difference, and each difference is in the list.
pub all_mismatch_indices-exact :
    (xs ys : List ℕ)
    → length xs ≡ length ys
    → (indices : List ℕ) × (all_mismatch_indices xs ys ≡ some indices)
      × ((k : ℕ) → Elem k indices ↔ ((k < length xs) × (¬ Agree xs ys k)))
unfolding all_mismatch_indices
all_mismatch_indices-exact xs ys h = (
  indices_loop 0 xs ys,
  rw ((==_iff (length xs) (length ys)).1 h),
  λ k. (
    λ e.
        let r = indices_loop_sound 0 k xs ys e in
        let at : k ≡ r.0 = omega (arith, r.1) in rw at (r.2, r.3),
    λ d. rw zero-add at (indices_loop_complete 0 k xs ys h d.1),
  ),
)

first_index :
    (n : ℕ) (xs ys : List ℕ)
    → first (indices_loop n xs ys) ≡ Option.map (λ t. t.0) (first_loop n xs ys)
unfolding first indices_loop first_loop
first_index n [] ys = refl
first_index n (x ∷ xs) [] = refl
first_index n (x ∷ xs) (y ∷ ys) = elim (Bool-cases (x == y)) [
  | inl same ↦ rw same (first_index (n + 1) xs ys)
  | inr differs ↦ rw differs
]

-- A list has an element exactly when it has a first one.
abbrev reported : {A : Type 0} → Option A → Bool
reported none = false
reported (some x) = true

not-is_empty : (is : List ℕ) → not (is_empty is) ≡ reported (first is)
unfolding is_empty first
not-is_empty [] = refl
not-is_empty (i ∷ is) = refl

IsFirst-reported :
    (xs ys : List ℕ) (r : Option (ℕ × ℕ × ℕ))
    → IsFirst xs ys r
    → (reported (Option.map (λ t. t.0) r) ≡ false) ↔ (xs ≡ ys)
IsFirst-reported xs ys none h = (λ e. h, λ e. refl)
IsFirst-reported xs ys (some (i, x, y)) h = (
  λ e. ground (arith, e),
  λ e. absurd (h.2 (some-injective x y (sym h.0 ∙ ap (λ t. get_elem? t i) e ∙ h.1))),
)

-- The report of `mismatch_info` is consistent: on logs of one length it returns, its first index is
-- that of `first_mismatch`, and a mismatch exists exactly when the logs differ.
pub mismatch_info-consistent :
    (xs ys : List ℕ)
    → length xs ≡ length ys
    → (info : MismatchInfo) × (r : Option (ℕ × ℕ × ℕ)) × (mismatch_info xs ys ≡ some info)
      × (first_mismatch xs ys ≡ some r)
      × (info.first_index ≡ Option.map (λ t. t.0) r)
      × ((info.mismatch_exists ≡ false) ↔ (xs ≡ ys))
unfolding mismatch_info first_mismatch all_mismatch_indices
mismatch_info-consistent xs ys h = (
  record {
    mismatch_exists = not (is_empty (indices_loop 0 xs ys));
    first_index = first (indices_loop 0 xs ys);
    last_index = last (indices_loop 0 xs ys);
    mismatch_count = length (indices_loop 0 xs ys);
    mismatch_indices = indices_loop 0 xs ys;
  },
  first_loop 0 xs ys,
  rw ((==_iff (length xs) (length ys)).1 h),
  rw ((==_iff (length xs) (length ys)).1 h),
  first_index 0 xs ys,
  rw (not-is_empty (indices_loop 0 xs ys), first_index 0 xs ys)
      (IsFirst-reported xs ys (first_loop 0 xs ys) (first_loop-IsFirst xs ys h)),
)
