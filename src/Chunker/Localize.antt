-- ===== src/Chunker/Localize.antt =====
-- `first_bad_chunk_index` of timefence-core/src/chunker.rs finds the chunk that was tampered with.
use native.Mathlib.Nat.{div-eq_of_lt, div-eq-sub-div, add-zero, zero-add, le_refl}
use native.Mathlib.Decide.{dec_lt}
use k_sentry.Prelude.{
  ℕ, zero, suc, ◌+◌, ◌-◌, ◌*◌, ◌/◌, ◌%◌, ◌≤◌, ◌<◌, ◌≡◌, refl, ap, ◌∙◌, arith, Option, none, some,
  List, [], ◌∷◌, ◌++◌, length, length-append, length-drop, take, drop, String, not, ◌==◌,
  if◌then◌else◌, take-append_left, drop-append_left, take-append_cons, drop-append_cons,
}
use k_sentry.Field.{Fits}
use k_sentry.KSentry.Sensitive.{edit_sum_iff}
use k_sentry.Verifier.{verify_checkpoint, verify_many, is_suspicious}
use k_sentry.Verifier.Sound.{suspicious-new, not-suspicious_self}
use k_sentry.Chunker.{position_from, first_bad_chunk_index, verify_chunked_streams, localize}
use k_sentry.Chunker.Chunks.{chunks, chunks_pos}
use k_sentry.Chunker.Exact.{checkpoint_at, checkpoints_from, chunk_stream-exact}

module _ {p : ℕ} (fits : Fits p) (q : ℕ) (hq : 0 < q) (stream_id : String) (epoch size : ℕ) where
  bad_from : ℕ → ℕ → List (List ℕ) → List (List ℕ) → Option ℕ
  bad_from i idx cs ds = position_from i (
      verify_many (checkpoints_from fits q hq stream_id epoch size idx cs)
        (checkpoints_from fits q hq stream_id epoch size idx ds))

  -- Equal chunks raise no suspicion.
  bad_from_self : (i idx : ℕ) (cs : List (List ℕ)) → bad_from i idx cs cs ≡ none
  unfolding bad_from position_from verify_many checkpoints_from
  bad_from_self i idx [] = refl
  bad_from_self i idx (c ∷ cs) =
      rw (not-suspicious_self (checkpoint_at fits q hq stream_id epoch size idx c))
        (bad_from_self (i + 1) (idx + 1) cs)

  bad_from-cons :
      (i idx : ℕ) (c d : List ℕ) (cs ds : List (List ℕ))
      → bad_from i idx (c ∷ cs) (d ∷ ds) ≡ (
          if is_suspicious (
            verify_checkpoint
              (checkpoint_at fits q hq stream_id epoch size idx c)
              (checkpoint_at fits q hq stream_id epoch size idx d))
          then some i
          else bad_from (i + 1) (idx + 1) cs ds)
  unfolding bad_from position_from verify_many checkpoints_from
  bad_from-cons i idx c d cs ds = refl

  bad_from-same :
      (i idx : ℕ) (c : List ℕ) (cs ds : List (List ℕ))
      → bad_from i idx (c ∷ cs) (c ∷ ds) ≡ bad_from (i + 1) (idx + 1) cs ds
  bad_from-same i idx c cs ds = bad_from-cons i idx c c cs ds ∙ rw not-suspicious_self

  module _ (r : ℕ) (inverse : q * r % p ≡ 1) (x y : ℕ) where
    edited-suspicious :
        (idx : ℕ) (pre post : List ℕ)
        → is_suspicious (
            verify_checkpoint
              (checkpoint_at fits q hq stream_id epoch size idx (pre ++ x ∷ post))
              (checkpoint_at fits q hq stream_id epoch size idx (pre ++ y ∷ post)))
          ≡ not (x % p == y % p)
    unfolding checkpoint_at
    edited-suspicious idx pre post =
        let same_length : length (pre ++ x ∷ post) ≡ length (pre ++ y ∷ post) =
          omega (arith, length-append pre (x ∷ post), length-append pre (y ∷ post)) in
        rw same_length (
          suspicious-new stream_id epoch _ _ _ _ q p
          ∙ ap not (ground (arith, edit_sum_iff fits q r hq inverse pre x y post)))

    bad_from-edited :
        (i idx : ℕ) (pre post : List ℕ) (cs : List (List ℕ))
        → bad_from i idx ((pre ++ x ∷ post) ∷ cs) ((pre ++ y ∷ post) ∷ cs)
          ≡ (if x % p == y % p then none else some i)
    bad_from-edited i idx pre post cs =
        bad_from-cons i idx _ _ cs cs
        ∙ rw (edited-suspicious idx pre post, bad_from_self (i + 1) (idx + 1) cs) (ground arith)

    -- Where the first chunk ends behind the edit.
    bad_from-inside :
        (i idx : ℕ) (pre post : List ℕ) (n : ℕ)
        → 0 < size
        → size ≡ length pre + suc n
        → bad_from i idx (chunks size (pre ++ x ∷ post)) (chunks size (pre ++ y ∷ post))
          ≡ (if x % p == y % p then none else some i)
    bad_from-inside i idx pre post n h e =
        let head =
          λ (z : ℕ). ap (λ (t : ℕ). take t (pre ++ z ∷ post)) e ∙ take-append_cons n pre z post in
        let rest =
          λ (z : ℕ). ap (λ (t : ℕ). drop t (pre ++ z ∷ post)) e ∙ drop-append_cons n pre z post in
        rw
          (
            chunks_pos size (pre ++ x ∷ post) h (omega (arith, length-append pre (x ∷ post))),
            chunks_pos size (pre ++ y ∷ post) h (omega (arith, length-append pre (y ∷ post))),
            head x,
            head y,
            rest x,
            rest y,
          )
          (bad_from-edited i idx pre (take n post) _)

    -- Where the first chunk ends before the edit.
    bad_from-past :
        (i idx : ℕ) (pre post : List ℕ)
        → 0 < size
        → size ≤ length pre
        → bad_from i idx (chunks size (pre ++ x ∷ post)) (chunks size (pre ++ y ∷ post))
          ≡ bad_from
              (i + 1)
              (idx + 1)
              (chunks size (drop size pre ++ x ∷ post))
              (chunks size (drop size pre ++ y ∷ post))
    bad_from-past i idx pre post h le =
        rw
          (
            chunks_pos size (pre ++ x ∷ post) h (omega (arith, length-append pre (x ∷ post))),
            chunks_pos size (pre ++ y ∷ post) h (omega (arith, length-append pre (y ∷ post))),
            take-append_left size pre (x ∷ post) le,
            take-append_left size pre (y ∷ post) le,
            drop-append_left size pre (x ∷ post) le,
            drop-append_left size pre (y ∷ post) le,
          )
          (bad_from-same i idx (take size pre) _ _)

    edit-inside :
        (i idx : ℕ) (pre post : List ℕ)
        → 0 < size
        → length pre < size
        → bad_from i idx (chunks size (pre ++ x ∷ post)) (chunks size (pre ++ y ∷ post))
          ≡ (if x % p == y % p then none else some (i + length pre / size))
    edit-inside i idx pre post h inside =
        bad_from-inside i idx pre post (size - length pre - 1) h (omega arith)
        ∙ rw (div-eq_of_lt inside, add-zero)

    bad_from-edit :
        (rounds i idx : ℕ) (pre post : List ℕ)
        → 0 < size
        → length pre ≤ rounds
        → bad_from i idx (chunks size (pre ++ x ∷ post)) (chunks size (pre ++ y ∷ post))
          ≡ (if x % p == y % p then none else some (i + length pre / size))
    bad_from-edit zero i idx pre post h enough = edit-inside i idx pre post h (omega arith)
    bad_from-edit (suc rounds) i idx pre post h enough = elim (dec_lt (length pre) size) [
      | yes inside ↦ edit-inside i idx pre post h inside
      | no past ↦
          let shorter = length-drop size pre in
          let le : size ≤ length pre = omega arith in
          let index : i + 1 + length (drop size pre) / size ≡ i + length pre / size =
            rw (shorter, div-eq-sub-div h le) (omega arith) in
          bad_from-past i idx pre post h le
          ∙ bad_from-edit rounds (i + 1) (idx + 1) (drop size pre) post h (omega (arith, shorter))
          ∙ ap (λ (t : ℕ). if x % p == y % p then none else some t) index
    ]

    edit_from_start :
        (pre post : List ℕ)
        → 0 < size
        → bad_from 0 0 (chunks size (pre ++ x ∷ post)) (chunks size (pre ++ y ∷ post))
          ≡ (if x % p == y % p then none else some (length pre / size))
    edit_from_start pre post h = bad_from-edit (length pre) 0 0 pre post h (le_refl _) ∙ rw zero-add

  -- For a modulus of 2 to 2 ^ 64 and a base that is not 0 and has an inverse modulo `p`, the
  -- pipeline returns for a stream with one changed element, at any chunk size that is not 0: it
  -- reports the index of the chunk that holds the element, and reports none where the two values
  -- are the same modulo `p`.
  pub localize-edit :
      (r : ℕ) (pre : List ℕ) (x y : ℕ) (post : List ℕ)
      → q * r % p ≡ 1
      → 0 < size
      → localize stream_id epoch (pre ++ x ∷ post) (pre ++ y ∷ post) size q p
        ≡ some (if x % p == y % p then none else some (length pre / size))
  unfolding bad_from localize verify_chunked_streams first_bad_chunk_index
  localize-edit r pre x y post inverse h =
      rw
        (
          chunk_stream-exact fits q hq stream_id epoch size (pre ++ x ∷ post) h,
          chunk_stream-exact fits q hq stream_id epoch size (pre ++ y ∷ post) h,
        )
        (ap (λ (t : Option ℕ). some t) (edit_from_start r inverse x y pre post h))
