-- ===== src/Live/Log.antt =====
-- What the state of timefence-epbf/timefence-epbf/timefence_epbf/src/main.rs says of the events that
-- it has kept.
use native.Mathlib.Nat.{mod-eq_of_lt}
use native.Mathlib.Decide.{dec_lt}
use k_sentry.Prelude.{
  ℕ, suc, zero, ◌-◌, ◌%◌, ◌≤◌, ◌<◌, ◌≡◌, refl, sym, ap, ◌∙◌, arith, String, true, false, ◌==◌,
  ==_iff, ltb, lt→ltb, ltb→lt, Option, none, some, List, [], ◌∷◌, ◌++◌, map, length, length-append,
  length-take, length-drop, take, drop, take-append_left, drop-append_left, Bool-cases, inl, inr,
}
use k_sentry.Field.{u64, Fits}
use k_sentry.KSentry
use k_sentry.KSentry.{digest_of, update, ingest}
use k_sentry.Events.{to_field_element, canonical_string}
use k_sentry.Live.{
  RawKernelEvent, LiveEventRecord, LiveState, parse_raw_kernel_event, should_keep_event,
  raw_event_to_telemetry, live_record, push_first, pop_front, push_last, keep, skip, on_event,
  on_item, live_loop, run, Progress, waiting, stopped,
}

abbrev pub field_elements : List LiveEventRecord → List ℕ
field_elements xs = map (λ r. r.field_element) xs

-- The state after keeping `xs`, from the accumulator `start`.
pub record IsLog (start : KSentry.KSentry) (st : LiveState) (xs : List LiveEventRecord)
    : Type 0 where
  pub counted : st.kept_events ≡ length xs
  pub bounded : length xs ≤ 30
  pub firsts : st.first_events ≡ take 5 xs
  pub lasts : st.last_events ≡ drop (length xs - 5) xs
  pub absorbed : st.ks ≡ ingest start (field_elements xs)

take-all : (n : ℕ) (xs : List LiveEventRecord) → length xs ≤ n → take n xs ≡ xs
take-all zero [] h = refl
take-all zero (x ∷ xs) h = absurd (omega arith)
take-all (suc n) [] h = refl
take-all (suc n) (x ∷ xs) h = ap (λ l. x ∷ l) (take-all n xs (omega arith))

pop_front-drop : (n : ℕ) (xs : List LiveEventRecord) → pop_front (drop n xs) ≡ drop (suc n) xs
unfolding pop_front
pop_front-drop zero [] = refl
pop_front-drop zero (x ∷ xs) = refl
pop_front-drop (suc n) [] = refl
pop_front-drop (suc n) (x ∷ xs) = pop_front-drop n xs

ingest-push :
    (st : KSentry.KSentry) (xs : List LiveEventRecord) (r : LiveEventRecord)
    → ingest st (field_elements (xs ++ r ∷ []))
      ≡ update (ingest st (field_elements xs)) r.field_element
unfolding ingest
ingest-push st [] r = refl
ingest-push st (x ∷ xs) r = ingest-push (update st x.field_element) xs r

push_first-take :
    (xs : List LiveEventRecord) (r : LiveEventRecord)
    → push_first (take 5 xs) r ≡ take 5 (xs ++ r ∷ [])
unfolding push_first
push_first-take xs r = elim (Bool-cases (ltb (length (take 5 xs)) 5)) [
  | inl short ↦
      let small : length xs < 5 = omega (arith, ltb→lt _ _ short, length-take 5 xs) in
      rw
        (
          short,
          take-all 5 xs (omega arith),
          take-all 5 (xs ++ r ∷ []) (omega (arith, small, length-append xs (r ∷ []))),
        )
        refl
  | inr full ↦
      let big : 5 ≤ length xs = ground (arith, full, length-take 5 xs) in
      rw (full, take-append_left 5 xs (r ∷ []) big) refl
]

not_five : (n : ℕ) → n < 5 → (n == 5) ≡ false
not_five n h = ground arith

push_last-drop :
    (xs : List LiveEventRecord) (r : LiveEventRecord)
    → push_last (drop (length xs - 5) xs) r ≡ drop (length (xs ++ r ∷ []) - 5) (xs ++ r ∷ [])
unfolding push_last
push_last-drop xs r = elim (dec_lt (length xs) 5) [
  | yes small ↦
      let start : length xs - 5 ≡ 0 = omega arith in
      let next : length (xs ++ r ∷ []) - 5 ≡ 0 = omega (arith, length-append xs (r ∷ [])) in
      rw (start, next, not_five (length xs) small) refl
  | no big ↦
      let at : suc (length xs - 5) ≡ length (xs ++ r ∷ []) - 5 =
        omega (arith, length-append xs (r ∷ [])) in
      let five : (length (drop (length xs - 5) xs) == 5) ≡ true =
        (==_iff _ 5).1 (omega (arith, length-drop (length xs - 5) xs)) in
      rw (five, pop_front-drop (length xs - 5) xs, at)
        (sym (drop-append_left (length (xs ++ r ∷ []) - 5) xs (r ∷ []) (omega (arith, at))))
]

module _ (hash : String → ℕ) (from_utf8_lossy : List ℕ → String)
    (read_unaligned : List ℕ → RawKernelEvent) {p : ℕ} (fits : Fits p) where
  keep-IsLog :
      (start : KSentry.KSentry) (st : LiveState) (xs : List LiveEventRecord) (raw : RawKernelEvent)
      (x : ℕ)
      → IsLog start st xs
      → length xs < 30
      → (r : LiveEventRecord) × IsLog start
          (keep hash from_utf8_lossy read_unaligned st raw x)
          (xs ++ r ∷ [])
  unfolding keep live_record
  keep-IsLog start st xs raw x log below =
      let r =
        live_record hash from_utf8_lossy read_unaligned raw x (KSentry.digest (update st.ks x)) in
      (
        r,
        record {
          counted =
              mod-eq_of_lt (omega (arith, log.counted))
              ∙ omega (arith, log.counted, length-append xs (r ∷ []));
          bounded = omega (arith, length-append xs (r ∷ []));
          firsts = rw log.firsts (push_first-take xs r);
          lasts = rw log.lasts (push_last-drop xs r);
          absorbed = ap (λ k. update k x) log.absorbed ∙ sym (ingest-push start xs r);
        },
      )

  skip-IsLog :
      (start : KSentry.KSentry) (st : LiveState) (xs : List LiveEventRecord)
      → IsLog start st xs
      → IsLog start (skip hash from_utf8_lossy read_unaligned st) xs
  unfolding skip
  skip-IsLog start st xs log = record {
    counted = log.counted;
    bounded = log.bounded;
    firsts = log.firsts;
    lasts = log.lasts;
    absorbed = log.absorbed;
  }

  abbrev Logged : KSentry.KSentry → Option LiveState → Type 0
  Logged start result =
      (st : LiveState) × (xs : List LiveEventRecord) × (result ≡ some st) × IsLog start st xs

  on_event-Logged :
      (start : KSentry.KSentry) (st : LiveState) (xs : List LiveEventRecord) (raw : RawKernelEvent)
      → IsLog start st xs
      → length xs < 30
      → Logged start (on_event hash from_utf8_lossy read_unaligned p st raw)
  unfolding on_event to_field_element
  on_event-Logged start st xs raw log below =
      elim (Bool-cases (should_keep_event hash from_utf8_lossy read_unaligned raw)) [
        | inl kept ↦
            let x =
              u64 (
                hash (
                  canonical_string
                    (raw_event_to_telemetry hash from_utf8_lossy read_unaligned raw)))
              % p in
            let k = keep-IsLog start st xs raw x log below in
            (
              keep hash from_utf8_lossy read_unaligned st raw x,
              xs ++ k.0 ∷ [],
              rw (kept, lt→ltb 0 p (omega (arith, fits.above_one))) refl,
              k.1,
            )
        | inr skipped ↦ (
          skip hash from_utf8_lossy read_unaligned st,
          xs,
          rw skipped refl,
          skip-IsLog start st xs log,
        )
      ]

  on_item-Logged :
      (start : KSentry.KSentry) (st : LiveState) (xs : List LiveEventRecord)
      (item : Option RawKernelEvent)
      → IsLog start st xs
      → length xs < 30
      → Logged start (on_item hash from_utf8_lossy read_unaligned p st item)
  unfolding on_item
  on_item-Logged start st xs none log below = (st, xs, refl, log)
  on_item-Logged start st xs (some raw) log below = on_event-Logged start st xs raw log below

  -- The state of a loop that waits or has stopped.
  abbrev pub state_of : Progress → LiveState
  state_of (waiting st) = st
  state_of (stopped st) = st

  abbrev LoopLogged : KSentry.KSentry → Option Progress → Type 0
  LoopLogged start result =
      (at : Progress) × (xs : List LiveEventRecord) × (result ≡ some at)
      × IsLog start (state_of at) xs

  live_loop-Logged :
      (start : KSentry.KSentry) (st : LiveState) (xs : List LiveEventRecord) (items : List (List ℕ))
      → IsLog start st xs
      → LoopLogged start (live_loop hash from_utf8_lossy read_unaligned p st items)
  unfolding live_loop
  live_loop-Logged start st xs [] log = elim (Bool-cases (ltb st.kept_events 30)) [
    | inl below ↦ (waiting st, xs, rw below refl, log)
    | inr full ↦ (stopped st, xs, rw full refl, log)
  ]
  live_loop-Logged start st xs (item ∷ items) log = elim (Bool-cases (ltb st.kept_events 30)) [
    | inl below ↦
        let s =
          on_item-Logged start st xs
            (parse_raw_kernel_event hash from_utf8_lossy read_unaligned item) log
            (omega (arith, log.counted, ltb→lt _ _ below)) in
        let rest = live_loop-Logged start s.0 s.1 items s.3 in
        (rest.0, rest.1, rw (below, s.2) rest.2, rest.3)
    | inr full ↦ (stopped st, xs, rw full refl, log)
  ]

  -- For a modulus of 2 to 2 ^ 64 and a base that is not 0, any decoder and hash function and any items
  -- of the ring buffer, the run waits for more or stops. There is a list of records, at most 30, such that the state
  -- counts them, holds the first 5 and the last 5 of them, and its digest is that of their field
  -- elements.
  pub run-IsLog :
      (q : ℕ) (items : List (List ℕ))
      → 0 < q
      → (at : Progress) × (xs : List LiveEventRecord) × (run hash from_utf8_lossy read_unaligned q p
            items
          ≡ some at)
        × ((state_of at).kept_events ≡ length xs)
        × (length xs ≤ 30)
        × ((state_of at).first_events ≡ take 5 xs)
        × ((state_of at).last_events ≡ drop (length xs - 5) xs)
        × (digest_of (field_elements xs) q p ≡ some (KSentry.digest (state_of at).ks))
  unfolding run KSentry.new digest_of KSentry.ksentry_fast
  run-IsLog q items hq =
      let start : KSentry.KSentry = record {
        q = q % p;
        p = p;
        n = 0;
        acc = 0;
        weight = 1;
        step = q % p;
      } in
      let empty : LiveState = record {
        ks = start;
        kept_events = 0;
        skipped_events = 0;
        first_events = [];
        last_events = [];
      } in
      let log : IsLog start empty [] = record {
        counted = refl;
        bounded = omega arith;
        firsts = refl;
        lasts = refl;
        absorbed = unfold ingest in refl;
      } in
      let r = live_loop-Logged start empty [] items log in
      (
        r.0,
        r.1,
        rw (lt→ltb 1 p fits.above_one, lt→ltb 0 q hq) r.2,
        r.3.counted,
        r.3.bounded,
        r.3.firsts,
        r.3.lasts,
        rw (lt→ltb 1 p fits.above_one, lt→ltb 0 q hq)
            (ap (λ s. some (KSentry.digest s)) (sym r.3.absorbed)),
      )
