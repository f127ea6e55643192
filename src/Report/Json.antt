-- ===== src/Report/Json.antt =====
-- timefence-core/src/report.rs: the export of the reports as JSON. A text that is written is the
-- list of its code points.
pub mod Read
pub mod Escape
pub mod Digits
pub mod RoundTrip
pub mod Tests
use k_sentry.Prelude.{
  ℕ, zero, suc, ◌+◌, ◌/◌, ◌%◌, codes, List, [], ◌∷◌, ◌++◌, length, not, ltb, ◌==◌, if◌then◌else◌,
}
use k_sentry.Report.{EvidenceReport}

-- `s.replace(c, to)`
unfoldable pub replace : ℕ → List ℕ → List ℕ → List ℕ
replace c to [] = []
replace c to (x ∷ s) = let rest = replace c to s in if x == c then to ++ rest else x ∷ rest

unfoldable pub json_escape : List ℕ → List ℕ
json_escape s = replace b'\t' (codes "\\t") (
    replace b'\r' (codes "\\r")
      (replace b'\n' (codes "\\n") (replace b'"' (codes "\\\"") (replace b'\\' (codes "\\\\") s))))

-- `{}` of a number of at most `rounds` digits.
unfoldable pub decimal_codes : ℕ → ℕ → List ℕ
decimal_codes zero n = []
decimal_codes (suc rounds) n =
    let rest = decimal_codes rounds (n / 10) in
    if ltb n 10 then (48 + n) ∷ [] else rest ++ (48 + n % 10) ∷ []

-- A `usize` has at most 20 digits and a `u128` at most 39.
unfoldable pub usize_codes : ℕ → List ℕ
usize_codes n = decimal_codes 20 n

unfoldable pub u128_codes : ℕ → List ℕ
u128_codes n = decimal_codes 39 n

-- What the loop pushes for one report, and behind it what it pushes after that.
unfoldable pub push_report : EvidenceReport → List ℕ → List ℕ
push_report r out =
    codes "  {\n    \"case_name\": \""
    ++ (json_escape (codes r.case_name)
        ++ (codes "\",\n    \"status\": \""
            ++ (json_escape (codes r.status)
                ++ (codes "\",\n    \"original_len\": "
                    ++ (usize_codes r.original_len
                        ++ (codes ",\n    \"observed_len\": "
                            ++ (usize_codes r.observed_len
                                ++ (codes ",\n    \"expected_digest\": "
                                    ++ (u128_codes r.expected_digest
                                        ++ (codes ",\n    \"observed_digest\": "
                                            ++ (u128_codes r.observed_digest
                                                ++ (codes ",\n    \"original_timeline\": \""
                                                    ++ (json_escape (codes r.original_timeline)
                                                        ++ (codes
                                                            "\",\n    \"observed_timeline\": \""
                                                            ++ (json_escape
                                                            (codes r.observed_timeline)
                                                            ++ (codes "\",\n    \"conclusion\": \""
                                                            ++ (json_escape (codes r.conclusion)
                                                            ++ (codes "\"\n  }"
                                                            ++ out))))))))))))))))))

-- `for (i, r) in reports.iter().enumerate()`, where `n` is `reports.len()`.
unfoldable pub json_loop : ℕ → ℕ → List EvidenceReport → List ℕ
json_loop i n [] = codes "]\n"
json_loop i n (r ∷ reports) =
    push_report r
      ((if not (i + 1 == n) then codes "," else []) ++ (codes "\n" ++ json_loop (i + 1) n reports))

unfoldable pub reports_to_json : List EvidenceReport → List ℕ
reports_to_json reports = codes "[\n" ++ json_loop 0 (length reports) reports
