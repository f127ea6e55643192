-- ===== src/Trace/Report.antt =====
-- timefence-trace/src/main.rs: the report of all cases and the verdict on one of them. A text that is
-- written is the list of its code points.
pub mod Verdict
use Prim.Native.String.{◌++◌ as text_append}
use k_sentry.Prelude.{ℕ, String, str_eq, codes, List, [], ◌∷◌, ◌++◌, length, if◌then◌else◌}
use k_sentry.Prelude.{push_all}
use k_sentry.Events.{short_label, kind_name}
use k_sentry.Report.Json.{usize_codes, u128_codes}
use k_sentry.Trace.{TraceEvent, TraceRun, CompareCase}

-- `.join(" -> ")` of the labels.
unfoldable pub join_labels : List TraceEvent → String
join_labels [] = ""
join_labels (e ∷ []) = short_label e.event
join_labels (e ∷ f ∷ es) =
    text_append (short_label e.event) (text_append " -> " (join_labels (f ∷ es)))

unfoldable pub timeline : TraceRun → String
timeline run = join_labels run.events

-- What print_case_summary says of the status of a case.
unfoldable pub verdict : String → String
verdict status =
    if str_eq status "CLEAN"
    then "VERIFIER: clean real trace"
    else if str_eq status "METADATA_MISMATCH_LENGTH"
    then "VERIFIER: metadata mismatch: different number of relevant events"
    else if str_eq status "DIGEST_MISMATCH_SAME_LENGTH"
    then "VERIFIER: digest mismatch: same length, but real trace changed"
    else "VERIFIER: unknown status"

-- The line of one event.
unfoldable pub event_line : TraceEvent → List ℕ
event_line e = push_all (
    codes "- "
    ∷ codes (kind_name e.event.kind)
    ∷ codes " process="
    ∷ codes e.event.process
    ∷ codes " target="
    ∷ codes e.event.target
    ∷ codes "\n"
    ∷ [])

-- `for event in &events`
unfoldable pub event_lines : List TraceEvent → List ℕ
event_lines [] = []
event_lines (e ∷ es) = event_line e ++ event_lines es

-- What the loop pushes for one case.
unfoldable pub case_report : CompareCase → List ℕ
case_report c = push_all (
    codes "Case: "
    ∷ codes c.name
    ∷ codes "\nstatus="
    ∷ codes c.status
    ∷ codes "\nexpected_raw_syscall_lines_seen="
    ∷ usize_codes c.expected.raw_syscall_lines_seen
    ∷ codes "\nobserved_raw_syscall_lines_seen="
    ∷ usize_codes c.observed.raw_syscall_lines_seen
    ∷ codes "\nexpected_relevant_events="
    ∷ usize_codes (length c.expected.events)
    ∷ codes "\nobserved_relevant_events="
    ∷ usize_codes (length c.observed.events)
    ∷ codes "\nexpected_digest="
    ∷ u128_codes c.expected.digest
    ∷ codes "\nobserved_digest="
    ∷ u128_codes c.observed.digest
    ∷ codes "\n\nExpected timeline:\n"
    ∷ event_lines c.expected.events
    ∷ codes "\nObserved timeline:\n"
    ∷ event_lines c.observed.events
    ∷ codes "\nExpected one-line timeline:\n"
    ∷ codes (timeline c.expected)
    ∷ codes "\n\nObserved one-line timeline:\n"
    ∷ codes (timeline c.observed)
    ∷ codes "\n\n--------------------------------------\n\n"
    ∷ [])

-- `for case in cases`
unfoldable pub case_reports : List CompareCase → List ℕ
case_reports [] = []
case_reports (c ∷ cases) = case_report c ++ case_reports cases

-- The text of timefence_trace_3case_report.txt.
unfoldable pub all_cases_report : List CompareCase → List ℕ
all_cases_report cases =
    codes
      "TimeFence real-ingestion 3-case report\n======================================\nsource=strace\ncore=timefence-core path dependency\naccumulator=K-Sentry triangular O(1) updater\n\n"
    ++ case_reports cases
