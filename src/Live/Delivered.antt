-- ===== src/Live/Delivered.antt =====
-- Instances of the theorems on the events that the probe keeps.
use k_sentry.Prelude.{
  ℕ, zero, suc, ◌^◌, ◌<◌, ◌≡◌, refl, ap, arith, some, false, true, ltb, if◌then◌else◌, List, [],
  ◌∷◌, ◌++◌, length, length-append, map, take, drop, min, All,
}
use k_sentry.KSentry
use k_sentry.KSentry.{digest_of}
use k_sentry.Live.{RawKernelEvent, LiveState, run, waiting, stopped}
use k_sentry.Live.Count.{relevant, element, run-keeps_relevant}
use k_sentry.Live.EndToEnd.{IsStruct, kept, Reachable-digest}
use k_sentry.Live.Tests.{prime, prime-Fits, by_length, decode, read, items}
use k_sentry.Probe.{zeros}
use k_sentry.Probe.Handlers.{fill_common, comm_or}
use k_sentry.Probe.Handlers.Tests.{exec_event, task}
use k_sentry.Probe.Basic.{timefence, try_execve, output}
use k_sentry.Probe.Basic.Calls.{Tracepoint}
use k_sentry.Probe.Basic.Ring.{Reachable, load, call, receive}

run-keeps_relevant_example :
    (st : LiveState) × (run by_length decode read 7 prime items
      ≡ some (
          if ltb (length (relevant by_length decode read items)) 30
          then waiting st
          else stopped st))
    × (st.kept_events ≡ min 30 (length (relevant by_length decode read items)))
    × (digest_of
          (take 30
            (map (element by_length decode read prime) (relevant by_length decode read items)))
          7
          prime
        ≡ some (KSentry.digest st.ks))
run-keeps_relevant_example =
    run-keeps_relevant by_length decode read prime-Fits 7 items (omega arith)

-- A layout of a struct in 168 places.
abbrev layout : RawKernelEvent → List ℕ
layout raw =
    raw.event_type ∷ raw.pid ∷ raw.uid ∷ raw.timestamp_ns ∷ (raw.comm ++ (raw.target ++ zeros 20))

abbrev read_layout : List ℕ → RawKernelEvent
read_layout (event_type ∷ pid ∷ uid ∷ timestamp_ns ∷ arrays) = record {
  event_type = event_type;
  pid = pid;
  uid = uid;
  timestamp_ns = timestamp_ns;
  comm = take 16 arrays;
  target = take 128 (drop 16 arrays);
}
read_layout bytes = record {
  event_type = 0;
  pid = 0;
  uid = 0;
  timestamp_ns = 0;
  comm = [];
  target = [];
}

take-exact : (n : ℕ) (xs ys : List ℕ) → length xs ≡ n → take n (xs ++ ys) ≡ xs
take-exact zero [] ys h = refl
take-exact zero (x ∷ xs) ys h = absurd (omega arith)
take-exact (suc n) [] ys h = absurd (omega arith)
take-exact (suc n) (x ∷ xs) ys h = ap (λ l. x ∷ l) (take-exact n xs ys (omega arith))

drop-exact : (n : ℕ) (xs ys : List ℕ) → length xs ≡ n → drop n (xs ++ ys) ≡ ys
drop-exact zero [] ys h = refl
drop-exact zero (x ∷ xs) ys h = absurd (omega arith)
drop-exact (suc n) [] ys h = absurd (omega arith)
drop-exact (suc n) (x ∷ xs) ys h = drop-exact n xs ys (omega arith)

length-layout : (raw : RawKernelEvent) → IsStruct raw → length (layout raw) ≡ 168
length-layout raw s = omega (
  arith,
  length-append raw.comm (raw.target ++ zeros 20),
  length-append raw.target (zeros 20),
  s.comm_size,
  s.target_size,
)

read_layout-layout : (raw : RawKernelEvent) → IsStruct raw → read_layout (layout raw) ≡ raw
read_layout-layout raw s = rw (
  take-exact 16 raw.comm (raw.target ++ zeros 20) s.comm_size,
  drop-exact 16 raw.comm (raw.target ++ zeros 20) s.comm_size,
  take-exact 128 raw.target (zeros 20) s.target_size,
)

-- Every entry of an array of zeros is a byte.
zeros-bytes : (n : ℕ) → All (λ b. b < 2 ^ 8) (zeros n)
zeros-bytes zero = tt
zeros-bytes (suc n) = (omega arith, zeros-bytes n)

exec_event-IsStruct : IsStruct exec_event
unfolding fill_common comm_or
exec_event-IsStruct = record {
  event_type_u32 = omega arith;
  pid_u32 = omega arith;
  uid_u32 = omega arith;
  timestamp_u64 = omega arith;
  comm_size = refl;
  comm_bytes = zeros-bytes 16;
  target_size = refl;
  target_bytes = zeros-bytes 128;
}

-- An event goes out and is received, and another one finds the buffer full.
one_event-Reachable : Reachable [] (exec_event ∷ []) (exec_event ∷ [])
unfolding timefence try_execve output
one_event-Reachable =
    call {ring = []} {received = exec_event ∷ []} {log = exec_event ∷ []} Tracepoint.execve
      (task (some 64) false)
      (receive {rest = []} {received = []} {log = exec_event ∷ []} exec_event
        (call {ring = []} {received = []} {log = []} Tracepoint.execve (task (some 64) true) load))

Reachable-digest_example :
    (st : LiveState) × (run by_length decode read_layout 7 prime (map layout (exec_event ∷ []))
      ≡ some (
          if ltb (length (kept by_length decode read_layout (take 1 (exec_event ∷ [])))) 30
          then waiting st
          else stopped st))
    × (digest_of
          (take 30 (
            map
              (element by_length decode read_layout prime)
              (kept by_length decode read_layout (take 1 (exec_event ∷ [])))))
          7
          prime
        ≡ some (KSentry.digest st.ks))
Reachable-digest_example =
    Reachable-digest by_length decode read_layout layout length-layout read_layout-layout prime-Fits
      7 (omega arith) one_event-Reachable (exec_event-IsStruct, tt)
