-- ===== src/Report/Json/Tests.antt =====
-- A run of the JSON export of timefence-core/src/report.rs and instances of its theorem.
use k_sentry.Prelude.{◌≡◌, refl, arith, codes, some, none, [], ◌∷◌, ◌++◌, false, map}
use k_sentry.Report.{EvidenceReport}
use k_sentry.Report.Json.{replace, json_escape, reports_to_json, decimal_codes}
use k_sentry.Report.Json.Read.{read_reports, read_text, is_control}
use k_sentry.Report.Json.Escape.{is_exported, exported_char}
use k_sentry.Report.Json.RoundTrip.{fields, read_reports-reports_to_json}

json_escape_run : json_escape (codes "a\"b\\c\n\t") ≡ codes "a\\\"b\\\\c\\n\\t"
unfolding json_escape replace
json_escape_run = refl

decimal_codes_run : decimal_codes 39 340_282 ≡ codes "340282"
unfolding decimal_codes
decimal_codes_run = refl

-- The control character 1 is written as it is, and refused.
control_run : read_text false (json_escape (1 ∷ []) ++ b'"' ∷ []) ≡ none
unfolding json_escape replace read_text is_control
control_run = refl

abbrev first_report : EvidenceReport
first_report = record {
  case_name = "quoted \"name\"";
  status = "Clean";
  original_len = 4;
  observed_len = 4;
  expected_digest = 12;
  observed_digest = 12;
  original_timeline = "Exec:bash:/bin/bash";
  observed_timeline = "Exec:bash:C:\\bash";
  conclusion = "two\nlines";
}

abbrev second_report : EvidenceReport
second_report = record first_report { status = "DigestMismatch"; observed_digest = 0 }

read_reports-reports_to_json_example :
    read_reports 3 (reports_to_json (first_report ∷ second_report ∷ []))
    ≡ some (map fields (first_report ∷ second_report ∷ []))
unfolding is_exported exported_char is_control
read_reports-reports_to_json_example =
    read_reports-reports_to_json 3 (first_report ∷ second_report ∷ [])
      (
        record {
          original_len_usize = omega arith;
          observed_len_usize = omega arith;
          expected_digest_u128 = omega arith;
          observed_digest_u128 = omega arith;
          case_name_text = refl;
          status_text = refl;
          original_timeline_text = refl;
          observed_timeline_text = refl;
          conclusion_text = refl;
        },
        (
          record {
            original_len_usize = omega arith;
            observed_len_usize = omega arith;
            expected_digest_u128 = omega arith;
            observed_digest_u128 = omega arith;
            case_name_text = refl;
            status_text = refl;
            original_timeline_text = refl;
            observed_timeline_text = refl;
            conclusion_text = refl;
          },
          tt,
        ),
      )
      (omega arith)
