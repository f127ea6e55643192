-- ===== src/Report/Tests.antt =====
-- A report of timefence-core/src/report.rs, and its theorem at two cases.
use k_sentry.Prelude.{ℕ, ◌≡◌, refl, []}
use k_sentry.Checkpoint
use k_sentry.Verifier.{verify_checkpoint}
use k_sentry.Events.{short_label, kind_name, incident_events}
use k_sentry.Incident.{IncidentCase}
use k_sentry.Report.{summarize_events}

abbrev checkpoint : ℕ → Checkpoint.TimeFenceCheckpoint
checkpoint d = record {
  stream_id = "node-1:runtime";
  epoch = 0;
  start_seq = 0;
  end_seq = 4;
  len = 4;
  digest = d;
  q = 7;
  p = 1_000_000_007;
}

abbrev case_of : ℕ → IncidentCase
case_of d = record {
  name = "case";
  original_events = incident_events;
  observed_events = incident_events;
  original_stream = [];
  observed_stream = [];
  expected = checkpoint 5;
  observed_ckpt = checkpoint d;
  report = verify_checkpoint (checkpoint 5) (checkpoint d);
}

summary_run :
    summarize_events incident_events
    ≡ "Exec:bash:/bin/bash -> OpenFile:bash:/var/run/secrets/token -> ReadFile:bash:/var/run/secrets/token -> Connect:bash:198.51.100.10:443"
unfolding summarize_events short_label kind_name
summary_run = refl
