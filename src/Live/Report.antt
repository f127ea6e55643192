-- ===== src/Live/Report.antt =====
-- timefence-epbf/timefence-epbf/timefence_epbf/src/main.rs: the text of the report file. It is the
-- list of its code points.
use k_sentry.Prelude.{ℕ, codes, List, [], ◌∷◌, ◌++◌}
use k_sentry.Prelude.{push_all}
use k_sentry.Report.Json.{usize_codes, u128_codes}
use k_sentry.Live.{LiveEventRecord}

-- The line of one event.
unfoldable pub record_line : LiveEventRecord → List ℕ
record_line e = push_all (
    codes "- type="
    ∷ codes e.event_type
    ∷ codes " pid="
    ∷ usize_codes e.pid
    ∷ codes " uid="
    ∷ usize_codes e.uid
    ∷ codes " ts="
    ∷ usize_codes e.timestamp_ns
    ∷ codes " comm="
    ∷ codes e.comm
    ∷ codes " target="
    ∷ codes e.target
    ∷ codes " x="
    ∷ u128_codes e.field_element
    ∷ codes " digest_after="
    ∷ u128_codes e.digest_after
    ∷ codes "\n"
    ∷ [])

-- `for e in events`
unfoldable pub record_lines : List LiveEventRecord → List ℕ
record_lines [] = []
record_lines (e ∷ es) = record_line e ++ record_lines es

unfoldable pub live_report : ℕ → ℕ → ℕ → List LiveEventRecord → List LiveEventRecord → List ℕ
live_report kept_events skipped_events final_digest first_events last_events = push_all (
    codes "TimeFence eBPF filtered K-Sentry report\n"
    ∷ codes "=======================================\n"
    ∷ codes "source=eBPF ringbuf\n"
    ∷ codes
        "tracepoints=syscalls:sys_enter_execve,syscalls:sys_enter_openat,syscalls:sys_enter_connect\n"
    ∷ codes
        "filter=Exec(selected shell/tools) OR OpenFile(/tmp/timefence,/etc/hostname,/etc/passwd) OR Connect(any)\n"
    ∷ codes "core=timefence-core path dependency\n"
    ∷ codes "accumulator=K-Sentry triangular O(1) updater\n"
    ∷ codes "kept_events="
    ∷ usize_codes kept_events
    ∷ codes "\nskipped_events="
    ∷ usize_codes skipped_events
    ∷ codes "\nfinal_digest="
    ∷ u128_codes final_digest
    ∷ codes "\n\nFirst kept events:\n"
    ∷ record_lines first_events
    ∷ codes "\nLast kept events:\n"
    ∷ record_lines last_events
    ∷ [])
