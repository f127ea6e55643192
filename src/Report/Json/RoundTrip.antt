-- ===== src/Report/Json/RoundTrip.antt =====
-- timefence-core/src/report.rs: the reading of the exported reports.
use k_sentry.Prelude.{
  ℕ, codes, zero, suc, ◌+◌, ◌^◌, ◌<◌, ◌≡◌, refl, ap, ◌∙◌, arith, some, none, Option, List, [], ◌∷◌,
  ◌++◌, map, length, All, Bool, true, false, not, ◌==◌, ◌>>=◌, if◌then◌else◌,
}
use k_sentry.Report.{EvidenceReport}
use k_sentry.Report.Json.{
  json_escape, usize_codes, u128_codes, push_report, json_loop, reports_to_json, decimal_codes,
}
use k_sentry.Report.Json.Read.{
  strip, read_number, Fields, read_text_field, read_number_field, read_report, read_end, read_array,
  on_some, read_reports,
}
use k_sentry.Report.Json.Escape.{read_text-json_escape, is_exported}
use k_sentry.Report.Json.Digits.{read_number-decimal_codes}

strip-append : (prefix s : List ℕ) → strip prefix (prefix ++ s) ≡ some s
unfolding strip
strip-append [] s = refl
strip-append (c ∷ prefix) s =
    let test : (c == c) ≡ true = ground arith in rw (test, strip-append prefix s)

read_text_field-back :
    (key s rest : List ℕ)
    → is_exported s ≡ true
    → read_text_field key (key ++ (json_escape s ++ b'"' ∷ rest)) ≡ some (s, rest)
unfolding read_text_field
read_text_field-back key s rest exported =
    rw (strip-append key _) (read_text-json_escape s rest exported)

-- A number is followed by a comma.
read_number_field-back :
    (key : List ℕ) (k n : ℕ) (rest : List ℕ)
    → n < 10 ^ suc k
    → read_number_field key (key ++ (decimal_codes (suc k) n ++ b',' ∷ rest))
      ≡ some (n, b',' ∷ rest)
unfolding read_number_field read_number
read_number_field-back key k n rest h =
    rw (strip-append key _, read_number-decimal_codes k n (b',' ∷ rest) h)

-- The numbers of a report are a `usize` and a `u128`, and its texts have no control characters but
-- newline, carriage return and tab.
pub record InRange (r : EvidenceReport) : Type 0 where
  pub original_len_usize : r.original_len < 2 ^ 64
  pub observed_len_usize : r.observed_len < 2 ^ 64
  pub expected_digest_u128 : r.expected_digest < 2 ^ 128
  pub observed_digest_u128 : r.observed_digest < 2 ^ 128
  pub case_name_text : is_exported (codes r.case_name) ≡ true
  pub status_text : is_exported (codes r.status) ≡ true
  pub original_timeline_text : is_exported (codes r.original_timeline) ≡ true
  pub observed_timeline_text : is_exported (codes r.observed_timeline) ≡ true
  pub conclusion_text : is_exported (codes r.conclusion) ≡ true

unfoldable pub fields : EvidenceReport → Fields
fields r = record {
  case_name = codes r.case_name;
  status = codes r.status;
  original_len = r.original_len;
  observed_len = r.observed_len;
  expected_digest = r.expected_digest;
  observed_digest = r.observed_digest;
  original_timeline = codes r.original_timeline;
  observed_timeline = codes r.observed_timeline;
  conclusion = codes r.conclusion;
}

-- One step of a reader, and what it does with the result.
then_read {ℓ κ} :
    {A : Type ℓ} {B : Type κ} {m : Option A} (f : A → Option B) {a : A} {r : Option B}
    → m ≡ some a
    → f a ≡ r
    → (m >>= f) ≡ r
then_read f e rest = ap (λ t. t >>= f) e ∙ rest

read_report-push_report :
    (r : EvidenceReport) (out : List ℕ)
    → InRange r
    → read_report (push_report r out) ≡ some (fields r, out)
unfolding read_report push_report fields usize_codes u128_codes
read_report-push_report r out range =
    then_read _
      (read_text_field-back (codes "  {\n    \"case_name\": \"") (codes r.case_name) _
        range.case_name_text)
      (then_read _
        (read_text_field-back (codes ",\n    \"status\": \"") (codes r.status) _ range.status_text)
        (then_read _
          (read_number_field-back (codes ",\n    \"original_len\": ") 19 r.original_len _
            (omega (arith, range.original_len_usize)))
          (then_read _
            (read_number_field-back (codes ",\n    \"observed_len\": ") 19 r.observed_len _
              (omega (arith, range.observed_len_usize)))
            (then_read _
              (read_number_field-back (codes ",\n    \"expected_digest\": ") 38 r.expected_digest _
                (omega (arith, range.expected_digest_u128)))
              (then_read _
                (read_number_field-back (codes ",\n    \"observed_digest\": ") 38 r.observed_digest
                  _ (omega (arith, range.observed_digest_u128)))
                (then_read _
                  (read_text_field-back (codes ",\n    \"original_timeline\": \"")
                    (codes r.original_timeline) _ range.original_timeline_text)
                  (then_read _
                    (read_text_field-back (codes ",\n    \"observed_timeline\": \"")
                      (codes r.observed_timeline) _ range.observed_timeline_text)
                    (then_read _
                      (read_text_field-back (codes ",\n    \"conclusion\": \"") (codes r.conclusion)
                        _ range.conclusion_text)
                      (then_read _ (strip-append (codes "\n  }") out) refl)))))))))

no_bracket : (r : EvidenceReport) (out : List ℕ) → strip (codes "]") (push_report r out) ≡ none
unfolding strip push_report
no_bracket r out = refl

has_none {ℓ κ} :
    {A : Type ℓ} {B : Type κ} {m : Option A} (f : A → B) (d : B) → m ≡ none → on_some m f d ≡ d
has_none f d e = ap (λ m. on_some m f d) e

has_some {ℓ κ} :
    {A : Type ℓ} {B : Type κ} {m : Option A} {a : A} (f : A → B) (d : B)
    → m ≡ some a
    → on_some m f d ≡ f a
has_some f d e = ap (λ m. on_some m f d) e

end_lem : read_end (codes "]\n") ≡ some []
unfolding read_end strip
end_lem = refl

no_comma : strip (codes ",\n") (codes "\n]\n") ≡ none
unfolding strip
no_comma = refl

-- The loop from report `i` on of `i + length reports`, read with enough fuel.
read_array-json_loop :
    (fuel i : ℕ) (reports : List EvidenceReport)
    → All InRange reports
    → length reports < fuel
    → read_array fuel (json_loop i (i + length reports) reports) ≡ some (map fields reports)
unfolding read_array json_loop
read_array-json_loop zero i reports range enough = absurd (omega arith)
read_array-json_loop (suc fuel) i [] range enough =
    has_some _ _ (strip-append (codes "]") (codes "\n")) ∙ end_lem
read_array-json_loop (suc fuel) i (r ∷ []) range enough =
    let last : (i + 1 == i + length (r ∷ [])) ≡ true = ground arith in
    ap
      (λ (b : Bool).
        read_array (suc fuel) (push_report r ((if not b then codes "," else []) ++ codes "\n]\n")))
      last
    ∙ has_none _ _ (no_bracket r _)
    ∙ then_read _ (read_report-push_report r (codes "\n]\n") range.0) (
        has_none _ _ no_comma
        ∙ then_read _ (strip-append (codes "\n") (codes "]\n")) (then_read _ end_lem refl))
read_array-json_loop (suc fuel) i (r ∷ s ∷ reports) range enough =
    let more : (i + 1 == i + length (r ∷ s ∷ reports)) ≡ false = ground arith in
    let size : i + length (r ∷ s ∷ reports) ≡ i + 1 + length (s ∷ reports) = omega arith in
    let rest = json_loop (i + 1) (i + length (r ∷ s ∷ reports)) (s ∷ reports) in
    let again : read_array fuel rest ≡ some (map fields (s ∷ reports)) =
      ap (λ (n : ℕ). read_array fuel (json_loop (i + 1) n (s ∷ reports))) size
      ∙ read_array-json_loop fuel (i + 1) (s ∷ reports) range.1 (omega arith) in
    ap
      (λ (b : Bool).
        read_array (suc fuel)
          (push_report r ((if not b then codes "," else []) ++ (codes "\n" ++ rest))))
      more
    ∙ has_none _ _ (no_bracket r _)
    ∙ then_read _ (read_report-push_report r (codes ",\n" ++ rest) range.0)
        (has_some _ _ (strip-append (codes ",\n") rest) ∙ then_read _ again refl)

-- For reports whose lengths are `usize`, whose digests are `u128` and whose texts have no control
-- characters but newline, carriage return and tab, and a reader with more fuel than there are
-- reports: a reader that refuses unescaped control characters and unknown escapes gives back from
-- the exported JSON every field of every report, each text as its code points.
pub read_reports-reports_to_json :
    (fuel : ℕ) (reports : List EvidenceReport)
    → All InRange reports
    → length reports < fuel
    → read_reports fuel (reports_to_json reports) ≡ some (map fields reports)
unfolding read_reports reports_to_json
read_reports-reports_to_json fuel reports range enough =
    then_read _ (strip-append (codes "[\n") _) (
      ap (λ (n : ℕ). read_array fuel (json_loop 0 n reports)) (omega arith)
      ∙ read_array-json_loop fuel 0 reports range enough)
