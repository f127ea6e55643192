-- ===== src/Trace/Runs.antt =====
-- What the runs of timefence-trace/src/main.rs hold, and when two of them compare as clean.
use mathlib.Core.Option.{some-injective}
use Prim.Native.String.{◌++◌ as text_append}
use text.Mathlib.TextEquality.{eq_iff}
use native.Mathlib.Nat.{mod-mod}
use k_sentry.Prelude.{
  ℕ, ◌+◌, ◌*◌, ◌%◌, ◌≤◌, ◌<◌, ◌≡◌, ◌↔◌, refl, sym, ap, ◌∙◌, arith, String, Bool, true, false, ◌==◌,
  ==_iff, str_eq, Option, none, some, List, [], ◌∷◌, ◌++◌, map, length, length-append, Bool-cases,
  inl, inr, lt→ltb, if◌then◌else◌,
}
use k_sentry.Field.{Fits}
use k_sentry.KSentry
use k_sentry.KSentry.{digest_of}
use k_sentry.KSentry.Sensitive.{edit-detected}
use k_sentry.Events.{to_field_element}
use k_sentry.Incident.Classify.{field}
use k_sentry.Trace.{
  TraceEvent, TraceRun, CompareCase, parse_strace_line, is_syscall_line, push, scan,
  compare_trace_runs, ingest_events, build_trace_run, build_case,
}

-- A line that gives an event is counted.
is_syscall_line-parse :
    (line : String) (e : TraceEvent) → parse_strace_line line ≡ some e → is_syscall_line line ≡ true
unfolding parse_strace_line is_syscall_line
is_syscall_line-parse line e h = ground (arith, h)

push-counted :
    (seen : ℕ) (events : List TraceEvent) (counted : Bool) (o : Option TraceEvent)
    → ((e : TraceEvent) → o ≡ some e → counted ≡ true)
    → length events ≤ seen
    → length (push events o) ≤ (if counted then seen + 1 else seen)
unfolding push
push-counted seen events true none c h = omega arith
push-counted seen events false none c h = h
push-counted seen events true (some e) c h = omega (arith, length-append events (e ∷ []))
push-counted seen events false (some e) c h = absurd (ground (arith, c e refl))

scan-counted :
    (seen : ℕ) (events : List TraceEvent) (lines : List String)
    → length events ≤ seen
    → length (scan seen events lines).1 ≤ (scan seen events lines).0
unfolding scan
scan-counted seen events [] h = h
scan-counted seen events (line ∷ lines) h =
    scan-counted (if is_syscall_line line then seen + 1 else seen)
      (push events (parse_strace_line line)) lines
      (push-counted seen events (is_syscall_line line) (parse_strace_line line)
        (is_syscall_line-parse line) h)

-- The field elements of traced events.
abbrev pub fields : (String → ℕ) → ℕ → List TraceEvent → List ℕ
fields hash p es = map (λ e. field hash p e.event) es

not_clean : (s : String) → str_eq s "CLEAN" ≡ false → s ≡ "CLEAN" → ⊥
not_clean s h e = absurd (ground (arith, h, (eq_iff s "CLEAN").1 e))

-- Two runs compare as clean exactly when they have one number of events and one digest.
pub compare_trace_runs-clean_iff :
    (a b : TraceRun)
    → (compare_trace_runs a b ≡ "CLEAN")
      ↔ ((length a.events ≡ length b.events) × (a.digest ≡ b.digest))
unfolding compare_trace_runs
compare_trace_runs-clean_iff a b = elim (Bool-cases (length a.events == length b.events)) [
  | inr longer ↦ rw longer (
    λ e. absurd (not_clean "METADATA_MISMATCH_LENGTH" refl e),
    λ t. absurd (ground (arith, longer, t.0)),
  )
  | inl same ↦ elim (Bool-cases (a.digest == b.digest)) [
    | inr other ↦
        rw (same, other)
          (
            λ e. absurd (not_clean "DIGEST_MISMATCH_SAME_LENGTH" refl e),
            λ t. absurd (ground (arith, other, t.1)),
          )
    | inl equal ↦
        rw (same, equal)
          (
            λ e. (
              (==_iff (length a.events) (length b.events)).0 same,
              (==_iff a.digest b.digest).0 equal,
            ),
            λ t. refl,
          )
  ]
]

module _ (hash : String → ℕ) (run_strace_script : String → List String) {p : ℕ} (fits : Fits p)
    (q : ℕ) (hq : 0 < q) where
  fields-append :
      (xs ys : List TraceEvent) → fields hash p (xs ++ ys) ≡ fields hash p xs ++ fields hash p ys
  fields-append [] ys = refl
  fields-append (x ∷ xs) ys = ap (λ l. field hash p x.event ∷ l) (fields-append xs ys)

  ingest_events-ingest :
      (ks : KSentry.KSentry) (es : List TraceEvent)
      → ingest_events hash run_strace_script ks es p ≡ some (KSentry.ingest ks (fields hash p es))
  unfolding ingest_events to_field_element KSentry.ingest
  ingest_events-ingest ks [] = refl
  ingest_events-ingest ks (e ∷ es) =
      rw (lt→ltb 0 p (omega (arith, fits.above_one)))
        (ingest_events-ingest (KSentry.update ks (field hash p e.event)) es)

  -- For a modulus of 2 to 2 ^ 64, a base that is not 0, any hash function and any output of strace,
  -- a run is built: it holds the events that the lines give, no more than the lines it counted, and
  -- its digest is that of their field elements.
  pub build_trace_run-digest :
      (name script : String)
      → (r : TraceRun) × (build_trace_run hash run_strace_script name script q p ≡ some r)
        × (r.events ≡ (scan 0 [] (run_strace_script script)).1)
        × (length r.events ≤ r.raw_syscall_lines_seen)
        × (digest_of (fields hash p r.events) q p ≡ some r.digest)
  unfolding build_trace_run digest_of KSentry.ksentry_fast KSentry.new
  build_trace_run-digest name script =
      let found = scan 0 [] (run_strace_script script) in
      let start : KSentry.KSentry = record {
        q = q % p;
        p = p;
        n = 0;
        acc = 0;
        weight = 1;
        step = q % p;
      } in
      (
        record {
          name = name;
          raw_syscall_lines_seen = found.0;
          events = found.1;
          digest = KSentry.digest (KSentry.ingest start (fields hash p found.1));
        },
        rw (lt→ltb 1 p fits.above_one, lt→ltb 0 q hq, ingest_events-ingest start found.1) refl,
        refl,
        scan-counted 0 [] (run_strace_script script) (omega arith),
        rw (lt→ltb 1 p fits.above_one, lt→ltb 0 q hq) refl,
      )

  fields-edit :
      (pre : List TraceEvent) (x y : TraceEvent) (post : List TraceEvent) (r : ℕ)
      → q * r % p ≡ 1
      → (digest_of (fields hash p (pre ++ x ∷ post)) q p
          ≡ digest_of (fields hash p (pre ++ y ∷ post)) q p)
        ↔ (field hash p x.event ≡ field hash p y.event)
  fields-edit pre x y post r inverse =
      let edit =
        edit-detected fits q r hq inverse (fields hash p pre) (field hash p x.event)
          (field hash p y.event) (fields hash p post) in
      rw (fields-append pre (x ∷ post), fields-append pre (y ∷ post))
        (λ e. sym (mod-mod _ p) ∙ edit.0 e ∙ mod-mod _ p, λ e. edit.1 (ap (λ (t : ℕ). t % p) e))

  -- For a modulus of 2 to 2 ^ 64, any hash function, any output of strace and a base that is not 0
  -- and has an inverse modulo `p`, two runs whose events differ at one place, by `x` and `y`, give
  -- a case that is clean exactly when `x` and `y` have one field element.
  pub build_case-edit_iff :
      (name expected_script observed_script : String) (r : ℕ) (pre : List TraceEvent)
      (x y : TraceEvent) (post : List TraceEvent)
      → q * r % p ≡ 1
      → (scan 0 [] (run_strace_script expected_script)).1 ≡ pre ++ x ∷ post
      → (scan 0 [] (run_strace_script observed_script)).1 ≡ pre ++ y ∷ post
      → (c : CompareCase) × (build_case hash run_strace_script name expected_script observed_script
            q p
          ≡ some c)
        × ((c.status ≡ "CLEAN") ↔ (field hash p x.event ≡ field hash p y.event))
  unfolding build_case
  build_case-edit_iff name expected_script observed_script r pre x y post inverse ex ey =
      let a = build_trace_run-digest (text_append name "-expected") expected_script in
      let b = build_trace_run-digest (text_append name "-observed") observed_script in
      let ea : a.0.events ≡ pre ++ x ∷ post = a.2 ∙ ex in
      let eb : b.0.events ≡ pre ++ y ∷ post = b.2 ∙ ey in
      let same : length a.0.events ≡ length b.0.events =
        ap length ea
        ∙ length-append pre (x ∷ post)
        ∙ sym (length-append pre (y ∷ post))
        ∙ sym (ap length eb) in
      let da : digest_of (fields hash p (pre ++ x ∷ post)) q p ≡ some a.0.digest =
        ap (λ es. digest_of (fields hash p es) q p) (sym ea) ∙ a.4 in
      let db : digest_of (fields hash p (pre ++ y ∷ post)) q p ≡ some b.0.digest =
        ap (λ es. digest_of (fields hash p es) q p) (sym eb) ∙ b.4 in
      let clean = compare_trace_runs-clean_iff a.0 b.0 in
      let edit = fields-edit pre x y post r inverse in
      (
        record { name = name; expected = a.0; observed = b.0; status = compare_trace_runs a.0 b.0 },
        rw (a.1, b.1) refl,
        (
          λ e. edit.0 (da ∙ ap (λ (t : ℕ). some t) (clean.0 e).1 ∙ sym db),
          λ e. clean.1 (same, some-injective _ _ (sym da ∙ edit.1 e ∙ db)),
        ),
      )
