-- ===== src/Report.antt =====
-- timefence-core/src/report.rs: the evidence report of an incident case, as a value.
pub mod Injective
pub mod Json
pub mod Tests
use Prim.Native.String.{◌++◌ as text_append}
use k_sentry.Prelude.{ℕ, String, List, [], ◌∷◌, length, map}
use k_sentry.Checkpoint.Mismatch.{CheckpointMismatch}
use k_sentry.Verifier.{VerificationStatus, clean, metadata_mismatch, digest_mismatch}
use k_sentry.Events.{TelemetryEvent, short_label}
use k_sentry.Incident.{IncidentCase}

pub record EvidenceReport : Type 0 where
  pub case_name : String
  pub status : String
  pub original_len : ℕ
  pub observed_len : ℕ
  pub expected_digest : ℕ
  pub observed_digest : ℕ
  pub original_timeline : String
  pub observed_timeline : String
  pub conclusion : String

-- `.join(" -> ")` of the labels.
unfoldable pub summarize_events : List TelemetryEvent → String
summarize_events [] = ""
summarize_events (e ∷ []) = short_label e
summarize_events (e ∷ f ∷ es) =
    text_append (short_label e) (text_append " -> " (summarize_events (f ∷ es)))

-- `{:?}` of a reason and of a status.
unfoldable pub reason_name : CheckpointMismatch → String
reason_name CheckpointMismatch.none = "None"
reason_name CheckpointMismatch.stream_id = "StreamId"
reason_name CheckpointMismatch.epoch = "Epoch"
reason_name CheckpointMismatch.start_seq = "StartSeq"
reason_name CheckpointMismatch.length = "Length"
reason_name CheckpointMismatch.end_seq = "EndSeq"
reason_name CheckpointMismatch.params = "Params"
reason_name CheckpointMismatch.digest = "Digest"

unfoldable pub status_name : VerificationStatus → String
status_name clean = "Clean"
status_name digest_mismatch = "DigestMismatch"
status_name (metadata_mismatch reason) =
    text_append "MetadataMismatch(" (text_append (reason_name reason) ")")

unfoldable pub conclusion_of : VerificationStatus → String
conclusion_of clean = "clean: timeline evidence matches source checkpoint"
conclusion_of (metadata_mismatch reason) =
    text_append "metadata mismatch: likely length/range/epoch/parameter problem: "
      (reason_name reason)
conclusion_of digest_mismatch =
    "digest mismatch: same range length, but content/order/splice changed"

unfoldable pub build_evidence_report : IncidentCase → EvidenceReport
build_evidence_report c = record {
  case_name = c.name;
  status = status_name c.report.status;
  original_len = length c.original_events;
  observed_len = length c.observed_events;
  expected_digest = c.expected.digest;
  observed_digest = c.observed_ckpt.digest;
  original_timeline = summarize_events c.original_events;
  observed_timeline = summarize_events c.observed_events;
  conclusion = conclusion_of c.report.status;
}

unfoldable pub build_reports_for_cases : List IncidentCase → List EvidenceReport
build_reports_for_cases cases = map build_evidence_report cases
