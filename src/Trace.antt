-- ===== src/Trace.antt =====
-- timefence-trace/src/main.rs: events from the lines of strace, and the comparison of two runs. The
-- output of strace for a script is the parameter `run_strace_script`; `hash` is that of Events.
-- `none` is a failed assertion, or a remainder by 0.
pub mod Runs
pub mod Report
pub mod Tests
use Prim.Native.String.{len, slice, ◌++◌ as text_append}
use text.Mathlib.Text.{find?}
use k_sentry.Prelude.{
  ℕ, ◌+◌, String, Bool, true, false, not, ◌&&◌, ◌||◌, ◌==◌, Option, none, some, List, [], ◌∷◌, ◌++◌,
  length, if◌then◌else◌, ◌>>=◌,
}
use k_sentry.KSentry
use k_sentry.Events.{EventKind, TelemetryEvent, to_field_element}

pub record TraceEvent : Type 0 where
  pub event : TelemetryEvent
  pub raw : String

pub record TraceRun : Type 0 where
  pub name : String
  pub raw_syscall_lines_seen : ℕ
  pub events : List TraceEvent
  pub digest : ℕ

pub record CompareCase : Type 0 where
  pub name : String
  pub expected : TraceRun
  pub observed : TraceRun
  pub status : String

unfoldable pub is_some : Option ℕ → Bool
is_some none = false
is_some (some i) = true

unfoldable pub contains : String → String → Bool
contains line pattern = is_some (find? line pattern)

-- Both indices stand beside a quote, so the slices do not panic.
unfoldable pub extract_quoted_arg : String → Option String
extract_quoted_arg line = do
  start ← find? line "\""
  let rest = slice line (start + 1) (len line) in do end ← find? rest "\""; some (slice rest 0 end)

unfoldable pub contains_any : String → List String → Bool
contains_any path [] = false
contains_any path (p ∷ ps) = contains path p || contains_any path ps

unfoldable pub is_noise_path : String → Bool
is_noise_path path = contains_any path (
    "libc.so" ∷ "ld.so.cache" ∷ "/usr/lib/locale" ∷ "/usr/share/locale" ∷ "/gconv/" ∷ "/rustup/"
    ∷ "/target/release/deps" ∷ [])

unfoldable pub is_relevant_path : String → Bool
is_relevant_path path = contains_any path (
    "/tmp/timefence_clean.txt" ∷ "/tmp/timefence_observed.txt" ∷ "/tmp/timefence_extra.txt"
    ∷ "/tmp/timefence_demo.txt" ∷ "secret" ∷ "token" ∷ "/etc/passwd" ∷ "/bin/bash" ∷ "/usr/bin/bash"
    ∷ "/usr/bin/cat" ∷ [])

unfoldable pub unwrap_or : Option String → String → String
unwrap_or none d = d
unwrap_or (some s) d = s

abbrev trace_event : EventKind → String → String → TraceEvent
trace_event kind target line = record {
  event = record { kind = kind; process = "strace-target"; target = target; timestamp_ns = 0 };
  raw = line;
}

unfoldable pub parse_strace_line : String → Option TraceEvent
parse_strace_line line =
    if contains line "execve("
    then (let target = unwrap_or (extract_quoted_arg line) "unknown_exec" in
        if is_noise_path target then none else some (trace_event EventKind.exec target line))
    else if contains line "openat(" || contains line "open("
    then (let target = unwrap_or (extract_quoted_arg line) "unknown_file" in
        if is_noise_path target
        then none
        else if not (is_relevant_path target)
        then none
        else some (trace_event EventKind.open_file target line))
    else if contains line "connect("
    then some (trace_event EventKind.connect "socket_connect" line)
    else none

-- The condition under which a line is counted.
unfoldable pub is_syscall_line : String → Bool
is_syscall_line line =
    contains line "execve("
    || contains line "openat("
    || contains line "open("
    || contains line "connect("

-- `if let Some(event) = … { events.push(event) }`
unfoldable pub push : List TraceEvent → Option TraceEvent → List TraceEvent
push events none = events
push events (some event) = events ++ event ∷ []

-- The loop over the lines, with its counter and its vector.
unfoldable pub scan : ℕ → List TraceEvent → List String → ℕ × List TraceEvent
scan seen events [] = (seen, events)
scan seen events (line ∷ lines) =
    scan (if is_syscall_line line then seen + 1 else seen) (push events (parse_strace_line line))
      lines

unfoldable pub compare_trace_runs : TraceRun → TraceRun → String
compare_trace_runs expected observed =
    if not (length expected.events == length observed.events)
    then "METADATA_MISMATCH_LENGTH"
    else if not (expected.digest == observed.digest)
    then "DIGEST_MISMATCH_SAME_LENGTH"
    else "CLEAN"

module _ (hash : String → ℕ) (run_strace_script : String → List String) where
  -- `for event in &events { … ks.update(x) }`
  unfoldable pub ingest_events : KSentry.KSentry → List TraceEvent → ℕ → Option KSentry.KSentry
  ingest_events ks [] p = some ks
  ingest_events ks (e ∷ es) p = do
    x ← to_field_element hash e.event p
    ingest_events (KSentry.update ks x) es p

  unfoldable pub build_trace_run : String → String → ℕ → ℕ → Option TraceRun
  build_trace_run name script q p =
      let lines = run_strace_script script in
      let found = scan 0 [] lines in
      do
        ks0 ← KSentry.new q p
        ks ← ingest_events ks0 found.1 p
        some (record {
          name = name;
          raw_syscall_lines_seen = found.0;
          events = found.1;
          digest = KSentry.digest ks;
        })

  unfoldable pub build_case : String → String → String → ℕ → ℕ → Option CompareCase
  build_case case_name expected_script observed_script q p = do
    expected ← build_trace_run (text_append case_name "-expected") expected_script q p
    observed ← build_trace_run (text_append case_name "-observed") observed_script q p
    some (record {
      name = case_name;
      expected = expected;
      observed = observed;
      status = compare_trace_runs expected observed;
    })
