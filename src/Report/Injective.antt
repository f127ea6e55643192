-- ===== src/Report/Injective.antt =====
-- The texts of timefence-core/src/report.rs tell the statuses apart.
use mathlib.Core.Option.{some-injective}
use k_sentry.Prelude.{
  ◌≡◌, refl, sym, ap, ◌∙◌, String, Option, none, some, List, [], ◌∷◌, str_eq, if◌then◌else◌,
}
use k_sentry.Checkpoint.Mismatch.{CheckpointMismatch}
use k_sentry.Verifier.{VerificationStatus, clean, metadata_mismatch, digest_mismatch}
use k_sentry.Incident.{IncidentCase}
use k_sentry.Report.{reason_name, status_name, conclusion_of, build_evidence_report}

abbrev statuses : List VerificationStatus
statuses =
    clean
    ∷ digest_mismatch
    ∷ metadata_mismatch CheckpointMismatch.none
    ∷ metadata_mismatch CheckpointMismatch.stream_id
    ∷ metadata_mismatch CheckpointMismatch.epoch
    ∷ metadata_mismatch CheckpointMismatch.start_seq
    ∷ metadata_mismatch CheckpointMismatch.length
    ∷ metadata_mismatch CheckpointMismatch.end_seq
    ∷ metadata_mismatch CheckpointMismatch.params
    ∷ metadata_mismatch CheckpointMismatch.digest
    ∷ []

-- The status that has a text.
abbrev search :
    (VerificationStatus → String) → String → List VerificationStatus → Option VerificationStatus
search text s [] = none
search text s (a ∷ others) = if str_eq (text a) s then some a else search text s others

search-status_name : (a : VerificationStatus) → search status_name (status_name a) statuses ≡ some a
unfolding status_name reason_name
search-status_name clean = refl
search-status_name digest_mismatch = refl
search-status_name (metadata_mismatch CheckpointMismatch.none) = refl
search-status_name (metadata_mismatch CheckpointMismatch.stream_id) = refl
search-status_name (metadata_mismatch CheckpointMismatch.epoch) = refl
search-status_name (metadata_mismatch CheckpointMismatch.start_seq) = refl
search-status_name (metadata_mismatch CheckpointMismatch.length) = refl
search-status_name (metadata_mismatch CheckpointMismatch.end_seq) = refl
search-status_name (metadata_mismatch CheckpointMismatch.params) = refl
search-status_name (metadata_mismatch CheckpointMismatch.digest) = refl

search-conclusion_of :
    (a : VerificationStatus) → search conclusion_of (conclusion_of a) statuses ≡ some a
unfolding conclusion_of reason_name
search-conclusion_of clean = refl
search-conclusion_of digest_mismatch = refl
search-conclusion_of (metadata_mismatch CheckpointMismatch.none) = refl
search-conclusion_of (metadata_mismatch CheckpointMismatch.stream_id) = refl
search-conclusion_of (metadata_mismatch CheckpointMismatch.epoch) = refl
search-conclusion_of (metadata_mismatch CheckpointMismatch.start_seq) = refl
search-conclusion_of (metadata_mismatch CheckpointMismatch.length) = refl
search-conclusion_of (metadata_mismatch CheckpointMismatch.end_seq) = refl
search-conclusion_of (metadata_mismatch CheckpointMismatch.params) = refl
search-conclusion_of (metadata_mismatch CheckpointMismatch.digest) = refl

-- A text that a search brings back tells its statuses apart.
text_injective :
    (text : VerificationStatus → String)
    → ((a : VerificationStatus) → search text (text a) statuses ≡ some a)
    → (a b : VerificationStatus) → text a ≡ text b
    → a ≡ b
text_injective text back a b e =
    some-injective a b (sym (back a) ∙ ap (λ s. search text s statuses) e ∙ back b)

-- Two cases whose reports have one status text, or one conclusion, have one status.
pub build_evidence_report-injective :
    (c d : IncidentCase)
    → (((build_evidence_report c).status ≡ (build_evidence_report d).status)
        → c.report.status ≡ d.report.status)
      × (((build_evidence_report c).conclusion ≡ (build_evidence_report d).conclusion)
          → c.report.status ≡ d.report.status)
unfolding build_evidence_report
build_evidence_report-injective c d = (
  text_injective status_name search-status_name c.report.status d.report.status,
  text_injective conclusion_of search-conclusion_of c.report.status d.report.status,
)
