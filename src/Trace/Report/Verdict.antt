-- ===== src/Trace/Report/Verdict.antt =====
-- The verdict and the timeline of timefence-trace/src/main.rs against the comparison of the runs and
-- the timeline of timefence-core/src/report.rs.
use k_sentry.Prelude.{
  ◌≡◌, ◌≢◌, ◌⊎◌, refl, arith, ◌==◌, List, [], ◌∷◌, map, length, Bool-cases, inl, inr,
}
use k_sentry.Report.{summarize_events}
use k_sentry.Trace.{TraceEvent, TraceRun, compare_trace_runs}
use k_sentry.Trace.Report.{join_labels, timeline, verdict}

join_labels-summarize_events :
    (es : List TraceEvent) → join_labels es ≡ summarize_events (map (λ e. e.event) es)
unfolding join_labels summarize_events
join_labels-summarize_events [] = refl
join_labels-summarize_events (e ∷ []) = refl
join_labels-summarize_events (e ∷ f ∷ es) = rw (join_labels-summarize_events (f ∷ es)) refl

-- The timeline of a run is the one that the evidence report gives its events.
pub timeline-summarize_events :
    (r : TraceRun) → timeline r ≡ summarize_events (map (λ e. e.event) r.events)
unfolding timeline
timeline-summarize_events r = join_labels-summarize_events r.events

-- The verdict on the comparison of two runs is that of a clean trace, of a different number of events
-- or of a changed trace, and is never the unknown status.
pub verdict-compare_trace_runs :
    (a b : TraceRun)
    → ((length a.events ≢ length b.events)
        × (verdict (compare_trace_runs a b)
            ≡ "VERIFIER: metadata mismatch: different number of relevant events"))
      ⊎ (((length a.events ≡ length b.events)
            × (a.digest ≢ b.digest)
            × (verdict (compare_trace_runs a b)
                ≡ "VERIFIER: digest mismatch: same length, but real trace changed"))
          ⊎ ((length a.events ≡ length b.events)
              × (a.digest ≡ b.digest)
              × (verdict (compare_trace_runs a b) ≡ "VERIFIER: clean real trace")))
unfolding compare_trace_runs verdict
verdict-compare_trace_runs a b = elim (Bool-cases (length a.events == length b.events)) [
  | inr longer ↦ inl (ground (arith, longer), rw longer refl)
  | inl same ↦ elim (Bool-cases (a.digest == b.digest)) [
    | inr other ↦ inr (inl (ground (arith, same), ground (arith, other), rw (same, other) refl))
    | inl equal ↦ inr (inr (ground (arith, same), ground (arith, equal), rw (same, equal) refl))
  ]
]
