-- ===== src/Probe/Basic/Kept.antt =====
-- The connect events of the kernel side in
-- timefence-epbf/timefence-epbf/timefence_epbf_ebpf/src/main.rs, as the user side beside it reads
-- them.
use k_sentry.Prelude.{ℕ, ◌≡◌, refl, codes, String, List, true}
use k_sentry.Events.{EventKind}
use k_sentry.Live.{
  RawKernelEvent, until_zero, bytes_to_string, should_keep_event, raw_event_to_telemetry,
}
use k_sentry.Probe.{write_bytes, write_bytes_from}
use k_sentry.Probe.Handlers.{Context, fill_common}
use k_sentry.Probe.Basic.{connect_event}

-- Where the decoder reads the 14 ASCII bytes of the label as its text: the user side keeps the event
-- of every connect call, and makes of it a connect event with that target, the time of the call and
-- the command of the process.
pub connect_event-telemetry :
    (hash : String → ℕ) (from_utf8_lossy : List ℕ → String)
    (read_unaligned : List ℕ → RawKernelEvent)
    → from_utf8_lossy (codes "socket_connect") ≡ "socket_connect"
    → (ctx : Context)
    → (should_keep_event hash from_utf8_lossy read_unaligned (connect_event ctx) ≡ true)
      × (raw_event_to_telemetry hash from_utf8_lossy read_unaligned (connect_event ctx) ≡ record {
        kind = EventKind.connect;
        process = bytes_to_string hash from_utf8_lossy read_unaligned (connect_event ctx).comm;
        target = "socket_connect";
        timestamp_ns = ctx.ktime_ns;
      })
unfolding should_keep_event raw_event_to_telemetry bytes_to_string connect_event fill_common
    until_zero write_bytes write_bytes_from
connect_event-telemetry hash from_utf8_lossy read_unaligned decodes ctx = (refl, rw decodes refl)
