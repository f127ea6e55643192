-- ===== src/Live/Count.antt =====
-- timefence-epbf/timefence-epbf/timefence_epbf/src/main.rs: the events that the loop keeps against the
-- relevant ones among the items.
use native.Mathlib.Nat.{mod-eq_of_lt}
use native.Mathlib.Decide.{dec_lt}
use k_sentry.Prelude.{
  ℕ, suc, zero, ◌+◌, ◌-◌, ◌%◌, ◌≤◌, ◌<◌, ◌≡◌, refl, sym, ap, ◌∙◌, arith, String, Bool, true, false,
  ltb, lt→ltb, Option, none, some, List, [], ◌∷◌, map, length, take, min, Bool-cases, Option-cases,
  inl, inr, if◌then◌else◌,
}
use k_sentry.Field.{u64, Fits}
use k_sentry.KSentry
use k_sentry.KSentry.{digest_of, update, ingest}
use k_sentry.Events.{to_field_element, canonical_string}
use k_sentry.Live.{
  RawKernelEvent, LiveState, parse_raw_kernel_event, should_keep_event, raw_event_to_telemetry,
  keep, skip, on_event, on_item, live_loop, run, Progress, waiting, stopped,
}

-- 30 is reached by the smaller of 30 and a number just when it is by the number.
full_test : (kept n : ℕ) → kept ≡ min 30 n → ltb kept 30 ≡ ltb n 30
full_test kept n e = elim (dec_lt n 30) [
  | yes below ↦ lt→ltb kept 30 (omega arith) ∙ sym (lt→ltb n 30 below)
  | no large ↦
      let a : ltb kept 30 ≡ false = ground arith in
      let b : ltb n 30 ≡ false = ground arith in a ∙ sym b
]

take-nil : (n : ℕ) → take {A = ℕ} n [] ≡ []
take-nil zero = refl
take-nil (suc n) = refl

module _ (hash : String → ℕ) (from_utf8_lossy : List ℕ → String)
    (read_unaligned : List ℕ → RawKernelEvent) where
  unfoldable pub relevant_item : Option RawKernelEvent → List RawKernelEvent → List RawKernelEvent
  relevant_item none rest = rest
  relevant_item (some raw) rest =
      if should_keep_event hash from_utf8_lossy read_unaligned raw then raw ∷ rest else rest

  -- The relevant events among the items, in their order.
  unfoldable pub relevant : List (List ℕ) → List RawKernelEvent
  relevant [] = []
  relevant (item ∷ items) =
      relevant_item (parse_raw_kernel_event hash from_utf8_lossy read_unaligned item)
        (relevant items)

  relevant-bad :
      (item : List ℕ) (items : List (List ℕ))
      → parse_raw_kernel_event hash from_utf8_lossy read_unaligned item ≡ none
      → relevant (item ∷ items) ≡ relevant items
  unfolding relevant relevant_item
  relevant-bad item items bad = rw bad

  relevant-kept :
      (item : List ℕ) (items : List (List ℕ)) (raw : RawKernelEvent)
      → parse_raw_kernel_event hash from_utf8_lossy read_unaligned item ≡ some raw
      → should_keep_event hash from_utf8_lossy read_unaligned raw ≡ true
      → relevant (item ∷ items) ≡ raw ∷ relevant items
  unfolding relevant relevant_item
  relevant-kept item items raw good kept = rw (good, kept)

  relevant-skipped :
      (item : List ℕ) (items : List (List ℕ)) (raw : RawKernelEvent)
      → parse_raw_kernel_event hash from_utf8_lossy read_unaligned item ≡ some raw
      → should_keep_event hash from_utf8_lossy read_unaligned raw ≡ false
      → relevant (item ∷ items) ≡ relevant items
  unfolding relevant relevant_item
  relevant-skipped item items raw good skipped = rw (good, skipped)

  -- The field element of an event.
  unfoldable pub element : ℕ → RawKernelEvent → ℕ
  element p raw =
      u64 (hash (canonical_string (raw_event_to_telemetry hash from_utf8_lossy read_unaligned raw)))
      % p

  -- The loop polls on exactly while fewer than 30 events are kept.
  abbrev pub progress : LiveState → Progress
  progress st = if ltb st.kept_events 30 then waiting st else stopped st

  -- What the loop makes of a state and the relevant events among the items that are left.
  record Keeps (p : ℕ) (st : LiveState) (raws : List RawKernelEvent) (result : Option Progress)
      : Type 0 where
    pub final : LiveState
    pub returns : result ≡ some (progress final)
    pub counted : final.kept_events ≡ st.kept_events + min (30 - st.kept_events) (length raws)
    pub absorbed : final.ks ≡ ingest st.ks (take (30 - st.kept_events) (map (element p) raws))

  module _ {p : ℕ} (fits : Fits p) where
    -- An event that is kept, and one that is not.
    on_event-kept :
        (st : LiveState) (raw : RawKernelEvent)
        → should_keep_event hash from_utf8_lossy read_unaligned raw ≡ true
        → on_event hash from_utf8_lossy read_unaligned p st raw
          ≡ some (keep hash from_utf8_lossy read_unaligned st raw (element p raw))
    unfolding on_event to_field_element element
    on_event-kept st raw kept = rw (kept, lt→ltb 0 p (omega (arith, fits.above_one)))

    on_event-skipped :
        (st : LiveState) (raw : RawKernelEvent)
        → should_keep_event hash from_utf8_lossy read_unaligned raw ≡ false
        → on_event hash from_utf8_lossy read_unaligned p st raw
          ≡ some (skip hash from_utf8_lossy read_unaligned st)
    unfolding on_event
    on_event-skipped st raw skipped = rw skipped

    -- The count and the accumulator that a state and its relevant events lead to.
    abbrev room : LiveState → List RawKernelEvent → ℕ
    room st raws = st.kept_events + min (30 - st.kept_events) (length raws)

    abbrev absorbs : LiveState → List RawKernelEvent → KSentry.KSentry
    absorbs st raws = ingest st.ks (take (30 - st.kept_events) (map (element p) raws))

    live_loop-Keeps :
        (st : LiveState) (items : List (List ℕ))
        → st.kept_events ≤ 30
        → Keeps p st (relevant items) (live_loop hash from_utf8_lossy read_unaligned p st items)
    unfolding live_loop relevant on_item keep skip ingest
    live_loop-Keeps st [] h = record {
      final = st;
      returns = elim (Bool-cases (ltb st.kept_events 30)) [
        | inl below ↦ rw below
        | inr full ↦ rw full
      ];
      counted = omega arith;
      absorbed = sym (ap (ingest st.ks) (take-nil (30 - st.kept_events)));
    }
    live_loop-Keeps st (item ∷ items) h = elim (dec_lt st.kept_events 30) [
      | no full ↦
          let test : ltb st.kept_events 30 ≡ false = ground arith in
          let left : 30 - st.kept_events ≡ 0 = omega arith in
          record { final = st; returns = rw test; counted = omega arith; absorbed = rw left }
      | yes below ↦
          let test = lt→ltb st.kept_events 30 below in
          elim (Option-cases (parse_raw_kernel_event hash from_utf8_lossy read_unaligned item)) [
            | inl bad ↦
                let k = live_loop-Keeps st items h in
                record {
                  final = k.final;
                  returns = rw (test, bad) k.returns;
                  counted = k.counted ∙ sym (ap (room st) (relevant-bad item items bad));
                  absorbed = k.absorbed ∙ sym (ap (absorbs st) (relevant-bad item items bad));
                }
            | inr (raw, good) ↦
                elim (Bool-cases (should_keep_event hash from_utf8_lossy read_unaligned raw)) [
                  | inl kept ↦
                      let next = keep hash from_utf8_lossy read_unaligned st raw (element p raw) in
                      let count : next.kept_events ≡ st.kept_events + 1 =
                        mod-eq_of_lt (omega arith) in
                      let k = live_loop-Keeps next items (omega (arith, count)) in
                      let left : 30 - st.kept_events ≡ suc (30 - next.kept_events) =
                        omega (arith, count) in
                      record {
                        final = k.final;
                        returns = rw (test, good, on_event-kept st raw kept) k.returns;
                        counted =
                            omega (arith, k.counted, count)
                            ∙ sym (ap (room st) (relevant-kept item items raw good kept));
                        absorbed =
                            k.absorbed
                            ∙ ap
                                (λ (n : ℕ).
                                  ingest st.ks (take n (map (element p) (raw ∷ relevant items))))
                                (sym left)
                            ∙ sym (ap (absorbs st) (relevant-kept item items raw good kept));
                      }
                  | inr skipped ↦
                      let k =
                        live_loop-Keeps (skip hash from_utf8_lossy read_unaligned st) items h in
                      record {
                        final = k.final;
                        returns = rw (test, good, on_event-skipped st raw skipped) k.returns;
                        counted =
                            k.counted
                            ∙ sym (ap (room st) (relevant-skipped item items raw good skipped));
                        absorbed =
                            k.absorbed
                            ∙ sym (ap (absorbs st) (relevant-skipped item items raw good skipped));
                      }
                ]
          ]
    ]

    -- For a modulus of 2 to 2 ^ 64 and a base that is not 0, any decoder and hash function and any
    -- items that the ring buffer has given so far, the program has stopped if at least 30 of them are
    -- relevant, and else it still waits for more; it has kept as many events as are relevant, at most
    -- 30, and its digest is that of the field elements of the first 30 relevant events in their order.
    pub run-keeps_relevant :
        (q : ℕ) (items : List (List ℕ))
        → 0 < q
        → (st : LiveState) × (run hash from_utf8_lossy read_unaligned q p items
            ≡ some (if ltb (length (relevant items)) 30 then waiting st else stopped st))
          × (st.kept_events ≡ min 30 (length (relevant items)))
          × (digest_of (take 30 (map (element p) (relevant items))) q p
              ≡ some (KSentry.digest st.ks))
    unfolding run KSentry.new digest_of KSentry.ksentry_fast
    run-keeps_relevant q items hq =
        let one = lt→ltb 1 p fits.above_one in
        let base = lt→ltb 0 q hq in
        let k =
          live_loop-Keeps
            (record {
              ks = record { q = q % p; p = p; n = 0; acc = 0; weight = 1; step = q % p };
              kept_events = 0;
              skipped_events = 0;
              first_events = [];
              last_events = [];
            })
            items (omega arith) in
        (
          k.final,
          rw (one, base)
              (k.returns
                ∙ ap (λ (b : Bool). some (if b then waiting k.final else stopped k.final))
                    (full_test k.final.kept_events (length (relevant items))
                      (omega (arith, k.counted)))),
          omega (arith, k.counted),
          rw (one, base) (ap (λ s. some (KSentry.digest s)) (sym k.absorbed)),
        )
