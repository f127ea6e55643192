-- ===== src/Probe/Basic/Tests.antt =====
-- Calls of the kernel side in timefence-epbf/timefence-epbf/timefence_epbf_ebpf/src/main.rs.
use k_sentry.Prelude.{
  ℕ, ◌+◌, ◌*◌, ◌^◌, ◌≡◌, refl, Option, none, some, String, List, [], ◌∷◌, ◌++◌, length, Bool, true,
  false,
}
use k_sentry.Events.{EventKind}
use k_sentry.Live.{event_exec, should_keep_event, raw_event_to_telemetry, bytes_to_string}
use k_sentry.Probe.{zeros}
use k_sentry.Probe.Handlers.{Context, fill_common, ret}
use k_sentry.Probe.Basic.{try_openat, openat_at, timefence_openat, connect_event}
use k_sentry.Probe.Basic.Calls.{Tracepoint, calls, taken_by, calls-append}
use k_sentry.Probe.Basic.Kept.{connect_event-telemetry}

abbrev task : Option ℕ → Bool → Context
task argument output_ok = record {
  pid_tgid = 7 * 2 ^ 32 + 9;
  uid_gid = 5 * 2 ^ 32 + 1000;
  ktime_ns = 12;
  comm = some (zeros 16);
  argument = argument;
  user_string = λ buffer. buffer;
  sockaddr = none;
  output_ok = output_ok;
}

-- Without its argument the call returns early, also where the ring buffer has room.
early_return_run : timefence_openat (task none true) [] ≡ ([], 1)
unfolding timefence_openat try_openat openat_at ret
early_return_run = refl

-- A call that is taken, one that finds the ring buffer full, and one without its argument.
abbrev three_calls : List (Tracepoint × Context)
three_calls =
    (Tracepoint.execve, task (some 64) true)
    ∷ (Tracepoint.connect, task (some 64) false)
    ∷ (Tracepoint.openat, task none true)
    ∷ []

calls-append_example :
    ((calls three_calls []).0 ≡ [] ++ taken_by three_calls)
    × ((calls three_calls []).1 + length (taken_by three_calls) ≡ 3)
calls-append_example = calls-append three_calls []

-- A decoder that knows the label.
abbrev label_decoder : List ℕ → String
label_decoder bytes = "socket_connect"

connect_event-telemetry_run :
    (should_keep_event
        (λ s. 5)
        label_decoder
        (λ bytes. fill_common event_exec (task none true))
        (connect_event (task (some 64) true))
      ≡ true)
    × (raw_event_to_telemetry
          (λ s. 5)
          label_decoder
          (λ bytes. fill_common event_exec (task none true))
          (connect_event (task (some 64) true))
        ≡ record {
          kind = EventKind.connect;
          process =
              bytes_to_string
                (λ s. 5)
                label_decoder
                (λ bytes. fill_common event_exec (task none true))
                (connect_event (task (some 64) true)).comm;
          target = "socket_connect";
          timestamp_ns = 12;
        })
connect_event-telemetry_run =
    connect_event-telemetry (λ s. 5) label_decoder
      (λ bytes. fill_common event_exec (task none true)) refl (task (some 64) true)
