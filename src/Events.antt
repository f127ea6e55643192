-- ===== src/Events.antt =====
-- timefence-core/src/events.rs: telemetry events and their field elements. The hash of a string
-- (Rust's `DefaultHasher`, whose algorithm its documentation leaves open) is the parameter `hash`;
-- it is only a function into the 64-bit numbers. `none` is a remainder by 0, at which Rust panics.
use Prim.Native.String.{◌++◌ as text_append}
use k_sentry.Prelude.{
  ℕ, zero, suc, ◌%◌, ◌/◌, String, Option, some, List, [], ◌∷◌, ltb, if◌then◌else◌, assert, ◌>>=◌,
  ◌>>◌,
}
use k_sentry.Field.{u64}

pub data EventKind : Type 0 where
  exec open_file read_file connect write_file exit : EventKind

pub record TelemetryEvent : Type 0 where
  pub kind : EventKind
  pub process : String
  pub target : String
  pub timestamp_ns : ℕ

unfoldable pub new : EventKind → String → String → ℕ → TelemetryEvent
new kind process target timestamp_ns = record {
  kind = kind;
  process = process;
  target = target;
  timestamp_ns = timestamp_ns;
}

-- `{:?}` of a kind.
unfoldable pub kind_name : EventKind → String
kind_name EventKind.exec = "Exec"
kind_name EventKind.open_file = "OpenFile"
kind_name EventKind.read_file = "ReadFile"
kind_name EventKind.connect = "Connect"
kind_name EventKind.write_file = "WriteFile"
kind_name EventKind.exit = "Exit"

abbrev digit_names : List String
digit_names = "0" ∷ "1" ∷ "2" ∷ "3" ∷ "4" ∷ "5" ∷ "6" ∷ "7" ∷ "8" ∷ "9" ∷ []

abbrev nth_digit : List String → ℕ → String
nth_digit [] n = ""
nth_digit (d ∷ ds) zero = d
nth_digit (d ∷ ds) (suc n) = nth_digit ds n

-- `{}` of a number of at most `rounds` digits.
unfoldable pub decimal : ℕ → ℕ → String
decimal zero n = ""
decimal (suc rounds) n =
    let rest = decimal rounds (n / 10) in
    if ltb n 10 then nth_digit digit_names n else text_append rest (nth_digit digit_names (n % 10))

abbrev concat : List String → String
concat [] = ""
concat (s ∷ ss) = text_append s (concat ss)

unfoldable pub canonical_string : TelemetryEvent → String
canonical_string e = concat (
    "kind="
    ∷ kind_name e.kind
    ∷ "|process="
    ∷ e.process
    ∷ "|target="
    ∷ e.target
    ∷ "|timestamp_ns="
    ∷ decimal 20 e.timestamp_ns
    ∷ [])

unfoldable pub short_label : TelemetryEvent → String
short_label e = concat (kind_name e.kind ∷ ":" ∷ e.process ∷ ":" ∷ e.target ∷ [])

module _ (hash : String → ℕ) where
  unfoldable pub to_field_element : TelemetryEvent → ℕ → Option ℕ
  to_field_element e p = do assert (ltb 0 p); some (u64 (hash (canonical_string e)) % p)

  unfoldable pub events_to_field_stream : List TelemetryEvent → ℕ → Option (List ℕ)
  events_to_field_stream [] p = some []
  events_to_field_stream (e ∷ es) p = do
    x ← to_field_element e p
    xs ← events_to_field_stream es p
    some (x ∷ xs)

abbrev pub incident_events : List TelemetryEvent
incident_events =
    record { kind = EventKind.exec; process = "bash"; target = "/bin/bash"; timestamp_ns = 100 }
    ∷ record {
      kind = EventKind.open_file;
      process = "bash";
      target = "/var/run/secrets/token";
      timestamp_ns = 200;
    }
    ∷ record {
      kind = EventKind.read_file;
      process = "bash";
      target = "/var/run/secrets/token";
      timestamp_ns = 300;
    }
    ∷ record {
      kind = EventKind.connect;
      process = "bash";
      target = "198.51.100.10:443";
      timestamp_ns = 400;
    }
    ∷ []
