-- ===== src/Probe/Handlers/Ring.antt =====
-- The ring buffer between the kernel side and a reader, in any interleaving of calls and receptions.
use k_sentry.Prelude.{
  ℕ, suc, false, ◌+◌, ◌≡◌, refl, Option, none, some, ◌>>=◌, List, [], ◌∷◌, ◌++◌, Bool,
  if◌then◌else◌,
}
use k_sentry.Live.{RawKernelEvent, event_exec}
use k_sentry.Probe.Handlers.{
  Context, Result, Kernel, fill_common, openat_event, connect_event, finish, try_execve, try_openat,
  try_connect, load_counter, store_counter,
}

pub data Tracepoint : Type 0 where
  execve openat connect : Tracepoint

-- One call of a tracepoint.
unfoldable pub handle : ℕ → Tracepoint → Context → Kernel → Option (Kernel × Result)
handle key Tracepoint.execve ctx k = try_execve key ctx k
handle key Tracepoint.openat ctx k = try_openat key ctx k
handle key Tracepoint.connect ctx k = try_connect key ctx k

-- The event that a call fills, where it does not return early.
unfoldable pub attempt : Tracepoint → Context → Option (Option RawKernelEvent)
attempt Tracepoint.execve ctx = some (some (fill_common event_exec ctx))
attempt Tracepoint.openat ctx = some (openat_event ctx ctx.argument)
attempt Tracepoint.connect ctx = connect_event ctx ctx.argument

pub handle-attempt :
    (key : ℕ) (t : Tracepoint) (ctx : Context) (k : Kernel)
    → handle key t ctx k ≡ (attempt t ctx >>= λ event. some (finish key ctx event k))
unfolding handle attempt try_execve try_openat try_connect finish
handle-attempt key Tracepoint.execve ctx k = refl
handle-attempt key Tracepoint.openat ctx k = refl
handle-attempt key Tracepoint.connect ctx k = refl

-- What a call adds to the ring buffer, and to the count of the events that it did not take.
unfoldable pub accepted : Bool → Option RawKernelEvent → List RawKernelEvent
accepted output_ok none = []
accepted output_ok (some event) = if output_ok then event ∷ [] else []

unfoldable pub rejected : Bool → Option RawKernelEvent → ℕ
rejected output_ok none = 0
rejected output_ok (some event) = if output_ok then 0 else 1

-- The maps, the events that the reader has received, in their order, and the calls that are at
-- their count: how many have not loaded the counter yet, and what the others have loaded.
pub record System : Type 0 where
  pub kernel : Kernel
  pub received : List RawKernelEvent
  pub late : ℕ
  pub loads : List ℕ

-- The program as it is loaded: an empty buffer and one counter at 0.
abbrev pub loaded : System
loaded = record {
  kernel = record { events = []; failures = 0 ∷ [] };
  received = [];
  late = 0;
  loads = [];
}

-- The systems that calls of the tracepoints on several processors and receptions lead to, with the
-- events that the ring buffer has taken, in their order, the number of those that it has not, and
-- the number of calls that others may have interrupted at their count. A call shares the buffer
-- and the counter only, and the buffer takes an event in one step, so a call is one step (`call`) or
-- one in which the buffer refuses the event, the load and the store (`refuse`, `read`, `write`).
pub data Reachable (key : ℕ) : System → List RawKernelEvent → ℕ → ℕ → Type 0 where
  load : Reachable key loaded [] 0 0
  call :
      {s : System} {log : List RawKernelEvent} {lost interrupted : ℕ} (t : Tracepoint)
      (ctx : Context) (event : Option RawKernelEvent) (k : Kernel) (r : Result)
      → Reachable key s log lost interrupted
      → attempt t ctx ≡ some event
      → handle key t ctx s.kernel ≡ some (k, r)
      → Reachable key
          (record { kernel = k; received = s.received; late = s.late; loads = s.loads })
          (log ++ accepted ctx.output_ok event)
          (lost + rejected ctx.output_ok event)
          interrupted
  refuse :
      {s : System} {log : List RawKernelEvent} {lost interrupted : ℕ} (t : Tracepoint)
      (ctx : Context) (event : RawKernelEvent)
      → Reachable key s log lost interrupted
      → attempt t ctx ≡ some (some event)
      → ctx.output_ok ≡ false
      → Reachable key
          (record { kernel = s.kernel; received = s.received; late = suc s.late; loads = s.loads })
          log
          (suc lost)
          (suc interrupted)
  read :
      {s : System} {log : List RawKernelEvent} {lost interrupted : ℕ} (late counter : ℕ)
      → Reachable key s log lost interrupted
      → s.late ≡ suc late
      → load_counter key s.kernel ≡ some counter
      → Reachable key
          (record {
            kernel = s.kernel;
            received = s.received;
            late = late;
            loads = counter ∷ s.loads;
          })
          log
          lost
          interrupted
  write :
      {s : System} {log : List RawKernelEvent} {lost interrupted : ℕ} (before : List ℕ)
      (counter : ℕ) (after : List ℕ)
      → Reachable key s log lost interrupted
      → s.loads ≡ before ++ counter ∷ after
      → Reachable key
          (record {
            kernel = store_counter key counter s.kernel;
            received = s.received;
            late = s.late;
            loads = before ++ after;
          })
          log
          lost
          interrupted
  receive :
      {s : System} {log : List RawKernelEvent} {lost interrupted : ℕ} (event : RawKernelEvent)
      (rest : List RawKernelEvent)
      → Reachable key s log lost interrupted
      → s.kernel.events ≡ event ∷ rest
      → Reachable key
          (record {
            kernel = record { events = rest; failures = s.kernel.failures };
            received = s.received ++ event ∷ [];
            late = s.late;
            loads = s.loads;
          })
          log
          lost
          interrupted
