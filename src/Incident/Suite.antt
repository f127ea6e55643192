-- ===== src/Incident/Suite.antt =====
-- The suite of timefence-core/src/incident.rs as a whole.
use k_sentry.Prelude.{
  ℕ, ◌<◌, ◌≡◌, ◌⊎◌, refl, sym, subst, ap, ◌∙◌, arith, String, some, List, [], ◌∷◌, map, length,
}
use k_sentry.Field.{u64, Fits}
use k_sentry.Checkpoint.Mismatch.{CheckpointMismatch}
use k_sentry.Verifier.{VerificationStatus, clean, digest_mismatch, metadata_mismatch}
use k_sentry.Events.{TelemetryEvent, incident_events}
use k_sentry.Fault.Kind.{FaultKind}
use k_sentry.Fault.{splice_old_prefix}
use k_sentry.Fault.Effect.{swap_adjacent-at}
use k_sentry.Incident.{IncidentCase, inject_event_fault, build_case, run_incident_suite}
use k_sentry.Incident.Classify.{verdict, digest_value, build_case-verdict}
use k_sentry.Incident.Faults.{ChangesLength, build_case-clean, build_case-length}

-- A report that does not blame the metadata.
abbrev pub IsOnDigest : VerificationStatus → Type 0
IsOnDigest s = (s ≡ clean) ⊎ (s ≡ digest_mismatch)

verdict-IsOnDigest : (l d1 d2 : ℕ) → IsOnDigest (verdict l l d1 d2)
verdict-IsOnDigest l d1 d2 = ground arith

abbrev pub status_of_case : IncidentCase → VerificationStatus
status_of_case c = c.report.status

abbrev pub length_status : VerificationStatus
length_status = metadata_mismatch CheckpointMismatch.length

-- What the two faults that keep the number of events do to four events.
swap-four :
    (e0 e1 e2 e3 : TelemetryEvent)
    → inject_event_fault (e0 ∷ e1 ∷ e2 ∷ e3 ∷ []) FaultKind.swap_adjacent
      ≡ some (e0 ∷ e2 ∷ e1 ∷ e3 ∷ [])
unfolding inject_event_fault
swap-four e0 e1 e2 e3 = swap_adjacent-at (e0 ∷ []) e1 e2 (e3 ∷ [])

splice-four :
    (e0 e1 e2 e3 : TelemetryEvent)
    → (observed : List TelemetryEvent) × (inject_event_fault
          (e0 ∷ e1 ∷ e2 ∷ e3 ∷ [])
          FaultKind.splice_old_prefix
        ≡ some observed)
      × (length observed ≡ 4)
unfolding inject_event_fault splice_old_prefix
splice-four e0 e1 e2 e3 = (_, refl, refl)

module _ (hash : String → ℕ) {p : ℕ} (fits : Fits p) (q : ℕ) (hq : 0 < q) where
  on_digest :
      (name : String) (fault : FaultKind) (observed : List TelemetryEvent)
      → inject_event_fault incident_events fault ≡ some observed
      → length observed ≡ 4
      → (c : IncidentCase) × (build_case hash name incident_events fault q p ≡ some c)
        × IsOnDigest c.report.status
  on_digest name fault observed e four =
      let r = build_case-verdict hash fits q hq name incident_events observed fault e in
      (
        r.0,
        r.1,
        subst IsOnDigest
            (sym (
              r.2
              ∙ ap
                  (λ (n : ℕ).
                    verdict 4 (u64 n) (digest_value hash q p incident_events)
                      (digest_value hash q p observed))
                  four))
            (verdict-IsOnDigest 4 _ _),
      )

  by_length :
      (name : String) (fault : FaultKind)
      → ChangesLength fault
      → (c : IncidentCase) × (build_case hash name incident_events fault q p ≡ some c)
        × (c.report.status ≡ length_status)
  by_length name fault h = build_case-length hash fits q hq name _ _ _ fault h (omega arith)

  -- For a modulus of 2 to 2 ^ 64, a base that is not 0 and any hash function, the suite returns six
  -- cases in its order: the one without a fault is clean, the dropped, the repeated and the cut off
  -- event are mismatches of lengths, and the exchange and the splice are clean or mismatches of
  -- digests.
  pub run_incident_suite-statuses :
      (cs : List IncidentCase) × (s t : VerificationStatus) × (run_incident_suite hash q p
        ≡ some cs)
      × (map status_of_case cs ≡ clean ∷ length_status ∷ s ∷ length_status ∷ length_status ∷ t ∷ [])
      × IsOnDigest s
      × IsOnDigest t
  unfolding run_incident_suite
  run_incident_suite-statuses =
      let a = build_case-clean hash fits q hq "clean" incident_events in
      let b = by_length "drop_one" FaultKind.drop_one tt in
      let c = on_digest "swap_adjacent" FaultKind.swap_adjacent _ (swap-four _ _ _ _) refl in
      let d = by_length "duplicate_one" FaultKind.duplicate_one tt in
      let e = by_length "truncate_tail" FaultKind.truncate_tail tt in
      let o = splice-four _ _ _ _ in
      let f = on_digest "splice_old_prefix" FaultKind.splice_old_prefix o.0 o.1 o.2 in
      (
        a.0 ∷ b.0 ∷ c.0 ∷ d.0 ∷ e.0 ∷ f.0 ∷ [],
        c.0.report.status,
        f.0.report.status,
        rw (a.1, b.1, c.1, d.1, e.1, f.1) refl,
        rw (a.2, b.2, d.2, e.2) refl,
        c.2,
        f.2,
      )
