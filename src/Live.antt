-- ===== src/Live.antt =====
-- timefence-epbf/timefence-epbf/timefence_epbf/src/main.rs and its timefence_epbf_common/src/lib.rs:
-- the user side of the eBPF probe, which keeps 30 relevant events of the ring buffer. Parameters:
-- `hash` is that of Events, `from_utf8_lossy` is the standard library's decoder, and
-- `read_unaligned` is the reading of the bytes of a struct from memory. `none` is a remainder by 0.
pub mod Log
pub mod Count
pub mod EndToEnd
pub mod Delivered
pub mod Report
pub mod Tests
use Prim.Native.String.{len, ◌++◌ as text_append}
use k_sentry.Prelude.{
  ℕ, suc, zero, ◌+◌, String, Bool, true, false, not, ◌||◌, ◌==◌, str_eq, ltb, Option, none, some,
  List, [], ◌∷◌, ◌++◌, length, if◌then◌else◌, ◌>>=◌, map,
}
use k_sentry.Field.{u64}
use k_sentry.KSentry
use k_sentry.KSentry.{update}
use k_sentry.Events.{EventKind, TelemetryEvent, to_field_element, decimal}
use k_sentry.Trace.{contains}

abbrev pub event_exec : ℕ
event_exec = 1

abbrev pub event_openat : ℕ
event_openat = 2

abbrev pub event_connect : ℕ
event_connect = 3

pub record RawKernelEvent : Type 0 where
  pub event_type : ℕ
  pub pid : ℕ
  pub uid : ℕ
  pub timestamp_ns : ℕ
  pub comm : List ℕ
  pub target : List ℕ

pub record LiveEventRecord : Type 0 where
  pub event_type : String
  pub pid : ℕ
  pub uid : ℕ
  pub timestamp_ns : ℕ
  pub comm : String
  pub target : String
  pub field_element : ℕ
  pub digest_after : ℕ

-- The variables of the loop of `main`.
pub record LiveState : Type 0 where
  pub ks : KSentry.KSentry
  pub kept_events : ℕ
  pub skipped_events : ℕ
  pub first_events : List LiveEventRecord
  pub last_events : List LiveEventRecord

-- Where the loop of `main` stands after some items: it polls on, or it has ended.
pub data Progress : Type 0 where
  waiting stopped : LiveState → Progress

abbrev concat : List String → String
concat [] = ""
concat (s ∷ ss) = text_append s (concat ss)

-- `&bytes[..end]` for the position `end` of the first 0.
unfoldable pub until_zero : List ℕ → List ℕ
until_zero [] = []
until_zero (b ∷ bs) = let rest = until_zero bs in if b == 0 then [] else b ∷ rest

-- The size of the struct: three `u32`, padding of 4 bytes, a `u64`, 16 bytes and 128 bytes.
abbrev size_of_raw_event : ℕ
size_of_raw_event = 168

unfoldable pub event_type_name : ℕ → String
event_type_name event_type =
    if event_type == event_exec
    then "Exec"
    else if event_type == event_openat
    then "OpenFile"
    else if event_type == event_connect
    then "Connect"
    else "Unknown"

unfoldable pub is_one_of : String → List String → Bool
is_one_of s [] = false
is_one_of s (t ∷ ts) = str_eq s t || is_one_of s ts

-- `if first_events.len() < 5 { first_events.push(record) }`
unfoldable pub push_first : List LiveEventRecord → LiveEventRecord → List LiveEventRecord
push_first events r = if ltb (length events) 5 then events ++ r ∷ [] else events

unfoldable pub pop_front : List LiveEventRecord → List LiveEventRecord
pop_front [] = []
pop_front (r ∷ rs) = rs

-- `if last_events.len() == 5 { last_events.pop_front() }`, then `push_back`.
unfoldable pub push_last : List LiveEventRecord → LiveEventRecord → List LiveEventRecord
push_last events r = (if length events == 5 then pop_front events else events) ++ r ∷ []

module _ (hash : String → ℕ) (from_utf8_lossy : List ℕ → String)
    (read_unaligned : List ℕ → RawKernelEvent) where
  unfoldable pub bytes_to_string : List ℕ → String
  bytes_to_string bytes = from_utf8_lossy (until_zero bytes)

  unfoldable pub parse_raw_kernel_event : List ℕ → Option RawKernelEvent
  parse_raw_kernel_event bytes =
      if ltb (length bytes) size_of_raw_event then none else some (read_unaligned bytes)

  unfoldable pub should_keep_event : RawKernelEvent → Bool
  should_keep_event raw =
      let comm = bytes_to_string raw.comm in
      let target = bytes_to_string raw.target in
      if raw.event_type == event_exec
      then is_one_of comm (
          "bash" ∷ "cat" ∷ "ls" ∷ "echo" ∷ "whoami" ∷ "pwd" ∷ "curl" ∷ "wget" ∷ "nc" ∷ "python3"
          ∷ [])
      else if raw.event_type == event_openat
      then contains target "/tmp/timefence"
        || contains target "/etc/hostname"
        || contains target "/etc/passwd"
      else raw.event_type == event_connect

  unfoldable pub raw_event_to_telemetry : RawKernelEvent → TelemetryEvent
  raw_event_to_telemetry raw =
      let comm = bytes_to_string raw.comm in
      let target_text = bytes_to_string raw.target in
      let ids = concat ("pid=" ∷ decimal 10 raw.pid ∷ ":uid=" ∷ decimal 10 raw.uid ∷ []) in
      let event : EventKind → String → TelemetryEvent = λ kind target. record {
        kind = kind;
        process = comm;
        target = target;
        timestamp_ns = raw.timestamp_ns;
      } in
      if raw.event_type == event_exec
      then event EventKind.exec (concat ("exec:" ∷ ids ∷ ":comm=" ∷ comm ∷ []))
      else if raw.event_type == event_openat
      then event EventKind.open_file (
          if len target_text == 0
          then concat ("openat:" ∷ ids ∷ ":path=<unknown>" ∷ [])
          else target_text)
      else if raw.event_type == event_connect
      then event EventKind.connect (
          if len target_text == 0
          then concat ("connect:" ∷ ids ∷ ":target=<unknown>" ∷ [])
          else target_text)
      else event EventKind.exec (concat ("unknown:" ∷ ids ∷ []))

  unfoldable pub live_record : RawKernelEvent → ℕ → ℕ → LiveEventRecord
  live_record raw x digest =
      let raw_target = bytes_to_string raw.target in
      record {
        event_type = event_type_name raw.event_type;
        pid = raw.pid;
        uid = raw.uid;
        timestamp_ns = raw.timestamp_ns;
        comm = bytes_to_string raw.comm;
        target = if len raw_target == 0 then "<empty>" else raw_target;
        field_element = x;
        digest_after = digest;
      }

  unfoldable pub keep : LiveState → RawKernelEvent → ℕ → LiveState
  keep st raw x =
      let ks = update st.ks x in
      let r = live_record raw x (KSentry.digest ks) in
      record {
        ks = ks;
        kept_events = u64 (st.kept_events + 1);
        skipped_events = st.skipped_events;
        first_events = push_first st.first_events r;
        last_events = push_last st.last_events r;
      }

  unfoldable pub skip : LiveState → LiveState
  skip st = record st { skipped_events = u64 (st.skipped_events + 1) }

  -- The body of the loop for one item of the ring buffer.
  unfoldable pub on_event : ℕ → LiveState → RawKernelEvent → Option LiveState
  on_event p st raw =
      if not (should_keep_event raw)
      then some (skip st)
      else do x ← to_field_element hash (raw_event_to_telemetry raw) p; some (keep st raw x)

  unfoldable pub on_item : ℕ → LiveState → Option RawKernelEvent → Option LiveState
  on_item p st none = some st
  on_item p st (some raw) = on_event p st raw

  -- Both loops over the items that have arrived so far, in the order of their arrival and however
  -- they are spread over the rounds of the outer loop: an item is taken while fewer than 30 events
  -- are kept. With fewer than 30 and no item left, the program sleeps and polls again.
  unfoldable pub live_loop : ℕ → LiveState → List (List ℕ) → Option Progress
  live_loop p st [] = if ltb st.kept_events 30 then some (waiting st) else some (stopped st)
  live_loop p st (item ∷ items) =
      if ltb st.kept_events 30
      then (do st2 ← on_item p st (parse_raw_kernel_event item); live_loop p st2 items)
      else some (stopped st)

  unfoldable pub run : ℕ → ℕ → List (List ℕ) → Option Progress
  run q p items = do
    ks ← KSentry.new q p
    live_loop p
        (record {
          ks = ks;
          kept_events = 0;
          skipped_events = 0;
          first_events = [];
          last_events = [];
        })
        items
