-- ===== src/Probe/Basic.antt =====
-- timefence-epbf/timefence-epbf/timefence_epbf_ebpf/src/main.rs: the kernel side that the user side
-- beside it loads. It has a ring buffer and no counter of failures. What the helpers of the kernel
-- return in one call is the `Context` of the other kernel program, whose `fill_common` has the same
-- text.
pub mod Calls
pub mod Ring
pub mod Kept
pub mod Tests
use k_sentry.Prelude.{ℕ, codes, Option, none, some, List, [], ◌∷◌, ◌++◌, not, ◌==◌, if◌then◌else◌}
use k_sentry.Live.{RawKernelEvent, event_exec, event_openat, event_connect}
use k_sentry.Probe.{write_bytes}
use k_sentry.Probe.Handlers.{Context, Result, fill_common, ret}

-- `EVENTS.output(&event, 0).map_err(|_| 1u32)?; Ok(0)`
unfoldable pub output :
    Context → RawKernelEvent → List RawKernelEvent → List RawKernelEvent × Result
output ctx event ring =
    if ctx.output_ok then (ring ++ event ∷ [], Result.ok 0) else (ring, Result.err 1)

unfoldable pub try_execve : Context → List RawKernelEvent → List RawKernelEvent × Result
try_execve ctx ring = output ctx (fill_common event_exec ctx) ring

-- The event of `try_openat` behind the early return.
unfoldable pub openat_event : Context → ℕ → RawKernelEvent
openat_event ctx filename_ptr =
    let event = fill_common event_openat ctx in
    if not (filename_ptr == 0)
    then record event { target = ctx.user_string event.target }
    else event

-- `ctx.read_at(24).map_err(|_| 1u32)?`, with its result given.
unfoldable pub openat_at : Context → Option ℕ → List RawKernelEvent → List RawKernelEvent × Result
openat_at ctx none ring = (ring, Result.err 1)
openat_at ctx (some filename_ptr) ring = output ctx (openat_event ctx filename_ptr) ring

unfoldable pub try_openat : Context → List RawKernelEvent → List RawKernelEvent × Result
try_openat ctx ring = openat_at ctx ctx.argument ring

unfoldable pub connect_event : Context → RawKernelEvent
connect_event ctx =
    let event = fill_common event_connect ctx in
    record event { target = write_bytes event.target (codes "socket_connect" ++ 0 ∷ []) }

unfoldable pub try_connect : Context → List RawKernelEvent → List RawKernelEvent × Result
try_connect ctx ring = output ctx (connect_event ctx) ring

unfoldable pub timefence : Context → List RawKernelEvent → List RawKernelEvent × ℕ
timefence ctx ring = let r = try_execve ctx ring in (r.0, ret r.1)

unfoldable pub timefence_openat : Context → List RawKernelEvent → List RawKernelEvent × ℕ
timefence_openat ctx ring = let r = try_openat ctx ring in (r.0, ret r.1)

unfoldable pub timefence_connect : Context → List RawKernelEvent → List RawKernelEvent × ℕ
timefence_connect ctx ring = let r = try_connect ctx ring in (r.0, ret r.1)
