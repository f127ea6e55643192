-- ===== src/Probe/Handlers/Tests.antt =====
-- Calls of the tracepoints of timefence-epbf/timefence_epbf/src/main.rs.
use k_sentry.Prelude.{ℕ, ◌+◌, ◌*◌, ◌^◌, ◌≡◌, refl, Option, some, [], ◌∷◌, ◌++◌, Bool, true, false}
use k_sentry.Live.{RawKernelEvent, event_exec}
use k_sentry.Probe.{zeros}
use k_sentry.Probe.Handlers.{
  Context, Result, fill_common, finish, comm_or, emit_event, count_ringbuf_output_failure, add_one,
  try_execve, load_counter, store_counter,
}
use k_sentry.Probe.Handlers.Ring.{
  Tracepoint, handle, attempt, accepted, rejected, System, loaded, Reachable, load, call, receive,
  refuse, read, write,
}
use k_sentry.Probe.Handlers.Counting.{Counts}
use k_sentry.Probe.Handlers.Delivery.{Reachable-delivers}
use k_sentry.Probe.Handlers.Total.{Sizes, IsSized, handle-returns}

-- A task of the user 1000 that connects to 10.0.0.1:443; the ring buffer takes the event or not.
abbrev pub task : Option ℕ → Bool → Context
task argument output_ok = record {
  pid_tgid = 7 * 2 ^ 32 + 9;
  uid_gid = 5 * 2 ^ 32 + 1000;
  ktime_ns = 12;
  comm = some (zeros 16);
  argument = argument;
  user_string = λ buffer. buffer;
  sockaddr = some (record { sin_family = 2; sin_port = 443; sin_addr = 10 });
  output_ok = output_ok;
}

-- A failed call returns 1 and counts.
full_buffer_run :
    try_execve 0 (task (some 64) false) loaded.kernel
    ≡ some (record { events = []; failures = 1 ∷ [] }, Result.err 1)
unfolding try_execve emit_event count_ringbuf_output_failure add_one
full_buffer_run = refl

abbrev pub exec_event : RawKernelEvent
exec_event = fill_common event_exec (task (some 64) true)

-- One event goes out and is received, another one finds the buffer full.
abbrev after_one : System
after_one = record {
  kernel = record { events = exec_event ∷ []; failures = 0 ∷ [] };
  received = [];
  late = 0;
  loads = [];
}

abbrev after_two : System
after_two = record {
  kernel = record { events = exec_event ∷ []; failures = 1 ∷ [] };
  received = [];
  late = 0;
  loads = [];
}

abbrev after_three : System
after_three = record {
  kernel = record { events = []; failures = 1 ∷ [] };
  received = exec_event ∷ [];
  late = 0;
  loads = [];
}

after_three-Reachable : Reachable 0 after_three (exec_event ∷ []) 1 0
unfolding handle attempt accepted rejected try_execve emit_event count_ringbuf_output_failure
    add_one
after_three-Reachable =
    receive exec_event []
      (call {s = after_one} {log = exec_event ∷ []} {lost = 0} {interrupted = 0} Tracepoint.execve
        (task (some 64) false) (some (fill_common event_exec (task (some 64) false)))
        after_two.kernel (Result.err 1)
        (call {s = loaded} {log = []} {lost = 0} {interrupted = 0} Tracepoint.execve
          (task (some 64) true) (some exec_event) after_one.kernel (Result.ok 0) load refl refl)
        refl refl)
      refl

Reachable-delivers_example :
    (after_three.received ++ after_three.kernel.events ≡ exec_event ∷ [])
    × Counts 0 after_three.kernel.failures 1
Reachable-delivers_example = Reachable-delivers after_three-Reachable

-- Two calls on two processors load the counter before either stores it: one count is lost.
abbrev after_race : System
after_race = record {
  kernel = record { events = []; failures = 1 ∷ [] };
  received = [];
  late = 0;
  loads = [];
}

race-Reachable : Reachable 0 after_race [] 2 2
unfolding attempt load_counter store_counter
race-Reachable =
    let refused = task (some 64) false in
    let first : Reachable 0 (record loaded { late = 1 }) [] 1 1 =
      refuse Tracepoint.execve refused (fill_common event_exec refused) load refl refl in
    let second : Reachable 0 (record loaded { late = 2 }) [] 2 2 =
      refuse Tracepoint.execve refused (fill_common event_exec refused) first refl refl in
    let both : Reachable 0 (record loaded { loads = 0 ∷ 0 ∷ [] }) [] 2 2 =
      read 0 0 (read 1 0 second refl refl) refl refl in
    write [] 0 [] (write [] 0 (0 ∷ []) both refl) refl

connecting : Sizes (task (some 64) true)
unfolding comm_or
connecting = record { comm_size = refl; string_size = λ buffer. refl }

handle-returns_example :
    (event : Option RawKernelEvent) × (attempt Tracepoint.connect (task (some 64) true)
      ≡ some event)
    × IsSized event
    × (handle 0 Tracepoint.connect (task (some 64) true) loaded.kernel
        ≡ some (finish 0 (task (some 64) true) event loaded.kernel))
handle-returns_example =
    handle-returns (task (some 64) true) connecting 0 Tracepoint.connect loaded.kernel
