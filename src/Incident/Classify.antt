-- ===== src/Incident/Classify.antt =====
-- How timefence-core/src/incident.rs classifies the faults.
use text.Mathlib.TextEquality.{eq_iff}
use k_sentry.Prelude.{
  ℕ, ◌+◌, ◌%◌, ◌<◌, ◌≡◌, refl, arith, String, true, some, List, [], ◌∷◌, map, length, length-map,
  ◌==◌, ==_iff, str_eq, lt→ltb, Bool-cases, inl, inr, if◌then◌else◌,
}
use k_sentry.Field.{u64, Fits}
use k_sentry.KSentry.Exact.{tri_sum, digest_of-exact}
use k_sentry.Checkpoint.{new, reason_mismatch}
use k_sentry.Checkpoint.Mismatch.{CheckpointMismatch}
use k_sentry.Verifier.{
  VerificationStatus, clean, digest_mismatch, metadata_mismatch, verify_checkpoint, status_of,
}
use k_sentry.Events.{TelemetryEvent, canonical_string, to_field_element, events_to_field_stream}
use k_sentry.Fault.Kind.{FaultKind}
use k_sentry.Incident.{IncidentCase, inject_event_fault, checkpoint_of, build_case}

same_number : (n : ℕ) → (n == n) ≡ true
same_number n = (==_iff n n).1 refl

same_text : (s : String) → str_eq s s ≡ true
same_text s = ground (arith, eq_iff s s)

-- What the verifier says of two streams from their lengths and digests.
abbrev pub verdict : ℕ → ℕ → ℕ → ℕ → VerificationStatus
verdict l1 l2 d1 d2 =
    if l1 == l2
    then (if d1 == d2 then clean else digest_mismatch)
    else metadata_mismatch CheckpointMismatch.length

verify_checkpoint-verdict :
    (s : String) (l1 l2 d1 d2 q p : ℕ)
    → (verify_checkpoint (new s 0 0 l1 d1 q p) (new s 0 0 l2 d2 q p)).status ≡ verdict l1 l2 d1 d2
unfolding verify_checkpoint reason_mismatch new status_of
verify_checkpoint-verdict s l1 l2 d1 d2 q p = elim (Bool-cases (l1 == l2)) [
  | inl same ↦
      let eq : l1 ≡ l2 = (==_iff l1 l2).0 same in
      elim (Bool-cases (d1 == d2)) [
        | inl same_digest ↦
            rw
              (
                same_text s,
                eq,
                same_number l2,
                same_number (u64 (0 + l2)),
                same_number q,
                same_number p,
                same_digest,
              )
              refl
        | inr other ↦
            rw
              (
                same_text s,
                eq,
                same_number l2,
                same_number (u64 (0 + l2)),
                same_number q,
                same_number p,
                other,
              )
              refl
      ]
  | inr other ↦ rw (same_text s, other) refl
]

-- The field element of an event, and the digest of a run of events.
abbrev pub field : (String → ℕ) → ℕ → TelemetryEvent → ℕ
field hash p e = u64 (hash (canonical_string e)) % p

abbrev pub digest_value : (String → ℕ) → ℕ → ℕ → List TelemetryEvent → ℕ
digest_value hash q p es = tri_sum q 0 (map (field hash p) es) % p

module _ (hash : String → ℕ) {p : ℕ} (fits : Fits p) (q : ℕ) (hq : 0 < q) where
  events_to_field_stream-map :
      (es : List TelemetryEvent) → events_to_field_stream hash es p ≡ some (map (field hash p) es)
  unfolding events_to_field_stream to_field_element
  events_to_field_stream-map [] = refl
  events_to_field_stream-map (e ∷ es) =
      rw (lt→ltb 0 p (omega (arith, fits.above_one)), events_to_field_stream-map es)

  checkpoint_of-exact :
      (es : List TelemetryEvent)
      → checkpoint_of (map (field hash p) es) q p
        ≡ some (new "node-1:runtime" 0 0 (u64 (length es)) (digest_value hash q p es) q p)
  unfolding checkpoint_of
  checkpoint_of-exact es =
      rw (digest_of-exact fits q (map (field hash p) es) hq, length-map (field hash p) es)

  -- A case runs to its end, and its status is the verdict on lengths and digests.
  pub build_case-verdict :
      (name : String) (es observed : List TelemetryEvent) (fault : FaultKind)
      → inject_event_fault es fault ≡ some observed
      → (c : IncidentCase) × (build_case hash name es fault q p ≡ some c)
        × (c.report.status
            ≡ verdict
                (u64 (length es))
                (u64 (length observed))
                (digest_value hash q p es)
                (digest_value hash q p observed))
  unfolding build_case
  build_case-verdict name es observed fault e = (
    record {
      name = name;
      original_events = es;
      observed_events = observed;
      original_stream = map (field hash p) es;
      observed_stream = map (field hash p) observed;
      expected = new "node-1:runtime" 0 0 (u64 (length es)) (digest_value hash q p es) q p;
      observed_ckpt =
          new "node-1:runtime" 0 0 (u64 (length observed)) (digest_value hash q p observed) q p;
      report =
          verify_checkpoint
            (new "node-1:runtime" 0 0 (u64 (length es)) (digest_value hash q p es) q p)
            (new "node-1:runtime" 0 0 (u64 (length observed)) (digest_value hash q p observed) q p);
    },
    rw
        (
          e,
          events_to_field_stream-map es,
          events_to_field_stream-map observed,
          checkpoint_of-exact es,
          checkpoint_of-exact observed,
        )
        refl,
    verify_checkpoint-verdict "node-1:runtime" _ _ _ _ q p,
  )
