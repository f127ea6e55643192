-- ===== src/Incident/Tests.antt =====
-- Runs of timefence-core/src/incident.rs and events.rs with the length as the hash, and the
-- theorems at the same arguments.
use Prim.Native.String.{len}
use k_sentry.Prelude.{
  ℕ, ◌+◌, ◌*◌, ◌%◌, ◌^◌, ◌≡◌, ◌↔◌, refl, arith, String, some, List, [], ◌∷◌, map,
}
use k_sentry.Field.{Fits}
use k_sentry.Verifier.{VerificationStatus, clean}
use k_sentry.Events.{TelemetryEvent, EventKind, canonical_string, kind_name, decimal}
use k_sentry.Fault.Kind.{FaultKind}
use k_sentry.Incident.{IncidentCase, build_case, run_incident_suite}
use k_sentry.Incident.Classify.{field}
use k_sentry.Incident.Faults.{build_case-swap_iff}
use k_sentry.Incident.Suite.{IsOnDigest, length_status, status_of_case, run_incident_suite-statuses}

abbrev prime : ℕ
prime = 1_000_000_007

prime-Fits : Fits prime
prime-Fits = record { above_one = omega arith; within_u64 = omega arith }

abbrev by_length : String → ℕ
by_length s = len s

abbrev ev : EventKind → ℕ → TelemetryEvent
ev kind t = record { kind = kind; process = "bash"; target = "/bin/bash"; timestamp_ns = t }

canonical_string_run :
    canonical_string (ev EventKind.exec 100)
    ≡ "kind=Exec|process=bash|target=/bin/bash|timestamp_ns=100"
unfolding canonical_string kind_name decimal
canonical_string_run = refl

build_case-swap_iff_example :
    (c : IncidentCase) × (build_case by_length "swap"
        (ev EventKind.exec 1 ∷ ev EventKind.connect 2 ∷ ev EventKind.exit 3 ∷ [])
        FaultKind.swap_adjacent
        7
        prime
      ≡ some c)
    × ((c.report.status ≡ clean) ↔ (
        (field by_length prime (ev EventKind.connect 2)
            + field by_length prime (ev EventKind.exit 3) * 7 ^ 2)
          % prime
        ≡ (field by_length prime (ev EventKind.exit 3)
            + field by_length prime (ev EventKind.connect 2) * 7 ^ 2)
          % prime))
build_case-swap_iff_example =
    build_case-swap_iff by_length prime-Fits 7 (omega arith) "swap" 142857144 (ev EventKind.exec 1)
      (ev EventKind.connect 2) (ev EventKind.exit 3) [] (omega arith)

run_incident_suite-statuses_example :
    (cs : List IncidentCase) × (s t : VerificationStatus) × (run_incident_suite by_length 7 prime
      ≡ some cs)
    × (map status_of_case cs ≡ clean ∷ length_status ∷ s ∷ length_status ∷ length_status ∷ t ∷ [])
    × IsOnDigest s
    × IsOnDigest t
run_incident_suite-statuses_example =
    run_incident_suite-statuses by_length prime-Fits 7 (omega arith)
