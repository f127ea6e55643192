-- ===== src/Trace/Tests.antt =====
-- Runs of timefence-trace/src/main.rs on the lines of a small script, and its theorems there.
use Prim.Native.String.{len}
use k_sentry.Prelude.{
  ℕ, ◌≤◌, ◌≡◌, ◌↔◌, refl, arith, String, some, none, List, [], ◌∷◌, ◌++◌, length, str_eq,
  if◌then◌else◌,
}
use k_sentry.Field.{Fits}
use k_sentry.KSentry.{digest_of}
use k_sentry.Events.{EventKind}
use k_sentry.Incident.Classify.{field}
use k_sentry.Trace.{
  TraceEvent, TraceRun, CompareCase, is_some, contains, extract_quoted_arg, contains_any,
  is_noise_path, is_relevant_path, unwrap_or, parse_strace_line, is_syscall_line, push, scan,
  build_trace_run, build_case,
}
use k_sentry.Events.{kind_name}
use k_sentry.Prelude.{codes}
use k_sentry.Trace.Report.{event_line, verdict}
use k_sentry.Trace.Runs.{fields, build_trace_run-digest, build_case-edit_iff}

abbrev prime : ℕ
prime = 1_000_000_007

prime-Fits : Fits prime
prime-Fits = record { above_one = omega arith; within_u64 = omega arith }

abbrev by_length : String → ℕ
by_length s = len s

abbrev exec_line : String
exec_line = "[pid 7] execve(\"/usr/bin/cat\", [\"cat\"], 0x7) = 0"

abbrev open_line : String → String
open_line clean =
    if str_eq clean "clean"
    then "openat(AT_FDCWD, \"/tmp/timefence_clean.txt\", O_RDONLY) = 3"
    else "openat(AT_FDCWD, \"/tmp/timefence_observed.txt\", O_RDONLY) = 3"

abbrev noise_line : String
noise_line = "openat(AT_FDCWD, \"/lib/x86_64-linux-gnu/libc.so.6\", O_RDONLY) = 3"

abbrev strace : String → List String
strace script = exec_line ∷ noise_line ∷ open_line script ∷ []

abbrev traced : EventKind → String → String → TraceEvent
traced kind target line = record {
  event = record { kind = kind; process = "strace-target"; target = target; timestamp_ns = 0 };
  raw = line;
}

noise_run : parse_strace_line noise_line ≡ none
unfolding parse_strace_line contains is_some extract_quoted_arg unwrap_or is_noise_path contains_any
    is_relevant_path
noise_run = refl

exec_run : parse_strace_line exec_line ≡ some (traced EventKind.exec "/usr/bin/cat" exec_line)
unfolding parse_strace_line contains is_some extract_quoted_arg unwrap_or is_noise_path contains_any
    is_relevant_path
exec_run = refl

abbrev before : List TraceEvent
before = traced EventKind.exec "/usr/bin/cat" exec_line ∷ []

scan_clean :
    (scan 0 [] (strace "clean")).1
    ≡ before ++ traced EventKind.open_file "/tmp/timefence_clean.txt" (open_line "clean") ∷ []
unfolding scan push is_syscall_line parse_strace_line contains is_some extract_quoted_arg unwrap_or
    is_noise_path contains_any is_relevant_path
scan_clean = refl

scan_changed :
    (scan 0 [] (strace "changed")).1
    ≡ before ++ traced EventKind.open_file "/tmp/timefence_observed.txt" (open_line "changed") ∷ []
unfolding scan push is_syscall_line parse_strace_line contains is_some extract_quoted_arg unwrap_or
    is_noise_path contains_any is_relevant_path
scan_changed = refl

build_trace_run-digest_run :
    (r : TraceRun) × (build_trace_run by_length strace "run" "clean" 7 prime ≡ some r)
    × (r.events ≡ (scan 0 [] (strace "clean")).1)
    × (length r.events ≤ r.raw_syscall_lines_seen)
    × (digest_of (fields by_length prime r.events) 7 prime ≡ some r.digest)
build_trace_run-digest_run =
    build_trace_run-digest by_length strace prime-Fits 7 (omega arith) "run" "clean"

abbrev sample : ℕ → TraceRun
sample d = record { name = "run"; raw_syscall_lines_seen = 3; events = before; digest = d }

build_case-edit_iff_example :
    (c : CompareCase) × (build_case by_length strace "case" "clean" "changed" 7 prime ≡ some c)
    × ((c.status ≡ "CLEAN") ↔ (
        field by_length prime
          (traced EventKind.open_file "/tmp/timefence_clean.txt" (open_line "clean")).event
        ≡ field by_length prime
            (traced EventKind.open_file "/tmp/timefence_observed.txt" (open_line "changed")).event))
build_case-edit_iff_example =
    build_case-edit_iff by_length strace prime-Fits 7 (omega arith) "case" "clean" "changed"
      142857144 before (traced EventKind.open_file "/tmp/timefence_clean.txt" (open_line "clean"))
      (traced EventKind.open_file "/tmp/timefence_observed.txt" (open_line "changed")) []
      (omega arith) scan_clean scan_changed

event_line_run :
    event_line (traced EventKind.exec "/usr/bin/cat" exec_line)
    ≡ codes "- Exec process=strace-target target=/usr/bin/cat\n"
unfolding event_line kind_name
event_line_run = refl

verdict_run : verdict "CLEAN" ≡ "VERIFIER: clean real trace"
unfolding verdict
verdict_run = refl
