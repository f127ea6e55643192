-- ===== src/Probe/Handlers.antt =====
-- timefence-epbf/timefence_epbf/src/main.rs: the three tracepoints of the kernel side, the ring
-- buffer and the counter of the events that it did not take. What the kernel's helpers return in
-- one call is a `Context`; `drop_counter_key` is a constant that no file of the repository defines.
-- An outer `none` is a panic.
pub mod Ring
pub mod Delivery
pub mod Counting
pub mod Total
pub mod Tests
use k_sentry.Prelude.{
  ℕ, codes, ◌+◌, ◌/◌, ◌%◌, ◌^◌, Option, none, some, ◌>>=◌, List, [], ◌∷◌, ◌++◌, Bool, not,
  get_elem?, set, ◌==◌, if◌then◌else◌,
}
use k_sentry.Field.{u64}
use k_sentry.Live.{RawKernelEvent, event_exec, event_openat, event_connect}
use k_sentry.Probe.{zeros, write_bytes, write_ipv4_port}

pub record SockAddrIn : Type 0 where
  pub sin_family : ℕ
  pub sin_port : ℕ
  pub sin_addr : ℕ

-- The results of the helpers in one call: `ctx.read_at(24)` is `argument`, `user_string` is what
-- `bpf_probe_read_user_str_bytes` leaves in the buffer that it is given, `sockaddr` is what
-- `bpf_probe_read_user` reads, and `output_ok` says whether the ring buffer takes the event.
pub record Context : Type 0 where
  pub pid_tgid : ℕ
  pub uid_gid : ℕ
  pub ktime_ns : ℕ
  pub comm : Option (List ℕ)
  pub argument : Option ℕ
  pub user_string : List ℕ → List ℕ
  pub sockaddr : Option SockAddrIn
  pub output_ok : Bool

pub data Result : Type 0 where
  ok err : ℕ → Result

-- The two maps of the program.
pub record Kernel : Type 0 where
  pub events : List RawKernelEvent
  pub failures : List ℕ

unfoldable pub comm_or : Option (List ℕ) → List ℕ → List ℕ
comm_or none buffer = buffer
comm_or (some comm) buffer = comm

unfoldable pub fill_common : ℕ → Context → RawKernelEvent
fill_common event_type ctx = record {
  event_type = event_type;
  pid = ctx.pid_tgid / 2 ^ 32 % 2 ^ 32;
  uid = ctx.uid_gid % 2 ^ 32;
  timestamp_ns = ctx.ktime_ns;
  comm = comm_or ctx.comm (zeros 16);
  target = zeros 128;
}

-- `*counter += 1`, where the entry is there.
unfoldable pub add_one : Option ℕ → ℕ → List ℕ → List ℕ
add_one none key failures = failures
add_one (some counter) key failures = set failures key (u64 (counter + 1))

-- The count of a call that no other one interrupts.
unfoldable pub count_ringbuf_output_failure : ℕ → Kernel → Kernel
count_ringbuf_output_failure drop_counter_key k = record {
  events = k.events;
  failures = add_one (get_elem? k.failures drop_counter_key) drop_counter_key k.failures;
}

-- The load of `*counter += 1`, and its store of a loaded value plus 1. They are plain accesses of
-- one entry that all processors share, so other calls may run between them.
unfoldable pub load_counter : ℕ → Kernel → Option ℕ
load_counter drop_counter_key k = get_elem? k.failures drop_counter_key

unfoldable pub store_counter : ℕ → ℕ → Kernel → Kernel
store_counter drop_counter_key counter k = record {
  events = k.events;
  failures = set k.failures drop_counter_key (u64 (counter + 1));
}

unfoldable pub emit_event : ℕ → Context → RawKernelEvent → Kernel → Kernel × Result
emit_event drop_counter_key ctx event k =
    if ctx.output_ok
    then (record { events = k.events ++ event ∷ []; failures = k.failures }, Result.ok 0)
    else (count_ringbuf_output_failure drop_counter_key k, Result.err 1)

-- The event that `try_openat` fills; without the argument it returns early.
unfoldable pub openat_event : Context → Option ℕ → Option RawKernelEvent
openat_event ctx none = none
openat_event ctx (some filename_ptr) =
    let event = fill_common event_openat ctx in
    some (
      if not (filename_ptr == 0)
      then record event { target = ctx.user_string event.target }
      else event)

-- The target that `try_connect` writes for a pointer that is not null.
unfoldable pub sockaddr_target : Option SockAddrIn → List ℕ → Option (List ℕ)
sockaddr_target none target =
    some (write_bytes target (codes "socket_connect_unreadable" ++ 0 ∷ []))
sockaddr_target (some sa) target =
    if sa.sin_family == 2
    then write_ipv4_port target sa.sin_addr sa.sin_port
    else some (write_bytes target (codes "socket_connect_non_ipv4" ++ 0 ∷ []))

unfoldable pub connect_event : Context → Option ℕ → Option (Option RawKernelEvent)
connect_event ctx none = some none
connect_event ctx (some sockaddr_ptr) =
    let event = fill_common event_connect ctx in
    do
      target ←
          if not (sockaddr_ptr == 0)
          then sockaddr_target ctx.sockaddr event.target
          else some (write_bytes event.target (codes "socket_connect_null" ++ 0 ∷ []))
      some (some (record event { target = target }))

-- `map_err(|_| 1u32)?`, or the event goes out.
unfoldable pub finish : ℕ → Context → Option RawKernelEvent → Kernel → Kernel × Result
finish drop_counter_key ctx none k = (k, Result.err 1)
finish drop_counter_key ctx (some event) k = emit_event drop_counter_key ctx event k

unfoldable pub try_execve : ℕ → Context → Kernel → Option (Kernel × Result)
try_execve drop_counter_key ctx k =
    some (emit_event drop_counter_key ctx (fill_common event_exec ctx) k)

unfoldable pub try_openat : ℕ → Context → Kernel → Option (Kernel × Result)
try_openat drop_counter_key ctx k =
    some (finish drop_counter_key ctx (openat_event ctx ctx.argument) k)

unfoldable pub try_connect : ℕ → Context → Kernel → Option (Kernel × Result)
try_connect drop_counter_key ctx k = do
  event ← connect_event ctx ctx.argument
  some (finish drop_counter_key ctx event k)

-- `match try_…(ctx) { Ok(ret) => ret, Err(ret) => ret }`
unfoldable pub ret : Result → ℕ
ret (Result.ok n) = n
ret (Result.err n) = n
