-- ===== src/Incident.antt =====
-- timefence-core/src/incident.rs: the end-to-end cases. Events are faulted, turned into field
-- elements, digested and verified. `none` is a failed assertion, or an index out of range.
pub mod Classify
pub mod Faults
pub mod Suite
pub mod Tests
use k_sentry.Prelude.{
  ℕ, suc, zero, ◌-◌, ◌%◌, String, Option, none, some, List, [], ◌∷◌, ◌++◌, take, drop, length,
  ◌>>=◌, ltb,
}
use k_sentry.Field.{u64}
use k_sentry.Events.{TelemetryEvent, events_to_field_stream, incident_events}
use k_sentry.Fault.Kind.{FaultKind}
use k_sentry.Fault.{drop_one, duplicate_one, swap_adjacent, truncate_tail, splice_old_prefix}
use k_sentry.KSentry.{digest_of}
use k_sentry.Checkpoint.{TimeFenceCheckpoint, new}
use k_sentry.Verifier.{VerificationReport, verify_checkpoint}

pub record IncidentCase : Type 0 where
  pub name : String
  pub original_events : List TelemetryEvent
  pub observed_events : List TelemetryEvent
  pub original_stream : List ℕ
  pub observed_stream : List ℕ
  pub expected : TimeFenceCheckpoint
  pub observed_ckpt : TimeFenceCheckpoint
  pub report : VerificationReport

-- `if let Some(e) = old.get_mut(i)`
abbrev pub modify :
    (TelemetryEvent → TelemetryEvent) → ℕ → List TelemetryEvent → List TelemetryEvent
modify f i [] = []
modify f zero (e ∷ es) = f e ∷ es
modify f (suc i) (e ∷ es) = e ∷ modify f i es

-- The events of an old run.
abbrev pub old_events : List TelemetryEvent
old_events =
    modify (λ e. record e { target = "/old/secret/token"; timestamp_ns = 2 }) 1
      (modify (λ e. record e { process = "old-bash"; timestamp_ns = 1 }) 0 incident_events)

-- The loops are those of timefence-core/src/fault.rs, on events.
unfoldable pub inject_event_fault : List TelemetryEvent → FaultKind → Option (List TelemetryEvent)
inject_event_fault events FaultKind.none = some events
inject_event_fault events FaultKind.drop_one = some (drop_one events 1)
inject_event_fault events FaultKind.swap_adjacent = swap_adjacent events 1
inject_event_fault events FaultKind.duplicate_one = some (duplicate_one events 1)
inject_event_fault events FaultKind.truncate_tail = some (truncate_tail events (length events - 1))
inject_event_fault events FaultKind.splice_old_prefix = some (splice_old_prefix events old_events 2)

-- The checkpoint of a stream of field elements.
unfoldable pub checkpoint_of : List ℕ → ℕ → ℕ → Option TimeFenceCheckpoint
checkpoint_of stream q p = do
  digest ← digest_of stream q p
  some (new "node-1:runtime" 0 0 (u64 (length stream)) digest q p)

module _ (hash : String → ℕ) where
  unfoldable pub build_case : String → List TelemetryEvent → FaultKind → ℕ → ℕ → Option IncidentCase
  build_case name original_events fault q p = do
    observed_events ← inject_event_fault original_events fault
    original_stream ← events_to_field_stream hash original_events p
    observed_stream ← events_to_field_stream hash observed_events p
    expected ← checkpoint_of original_stream q p
    observed_ckpt ← checkpoint_of observed_stream q p
    some (record {
      name = name;
      original_events = original_events;
      observed_events = observed_events;
      original_stream = original_stream;
      observed_stream = observed_stream;
      expected = expected;
      observed_ckpt = observed_ckpt;
      report = verify_checkpoint expected observed_ckpt;
    })

  unfoldable pub run_incident_suite : ℕ → ℕ → Option (List IncidentCase)
  run_incident_suite q p = do
    clean ← build_case "clean" incident_events FaultKind.none q p
    drop_one ← build_case "drop_one" incident_events FaultKind.drop_one q p
    swap_adjacent ← build_case "swap_adjacent" incident_events FaultKind.swap_adjacent q p
    duplicate_one ← build_case "duplicate_one" incident_events FaultKind.duplicate_one q p
    truncate_tail ← build_case "truncate_tail" incident_events FaultKind.truncate_tail q p
    splice_old_prefix ←
        build_case "splice_old_prefix" incident_events FaultKind.splice_old_prefix q p
    some (clean ∷ drop_one ∷ swap_adjacent ∷ duplicate_one ∷ truncate_tail ∷ splice_old_prefix ∷ [])
