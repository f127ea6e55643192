-- ===== src/Report/Json/Escape.antt =====
-- timefence-core/src/report.rs: the reading of escaped texts.
use mathlib.Core.List.{append_assoc}
use native.Mathlib.Decide.{ℕ_discrete}
use k_sentry.Prelude.{
  ℕ, codes, ◌≡◌, ◌≢◌, refl, sym, ap, ◌∙◌, arith, some, List, [], ◌∷◌, ◌++◌, Bool, true, false, not,
  ◌&&◌, ◌||◌, Bool-cases, inl, inr, ◌==◌, subst,
}
use k_sentry.Report.Json.{replace, json_escape}
use k_sentry.Report.Json.Read.{read_text, cons_char, cons_escape, unescape_char, is_control}

replace-append :
    (c : ℕ) (to xs ys : List ℕ) → replace c to (xs ++ ys) ≡ replace c to xs ++ replace c to ys
unfolding replace
replace-append c to [] ys = refl
replace-append c to (x ∷ xs) ys = elim (Bool-cases (x == c)) [
  | inl here ↦
      rw (here, replace-append c to xs ys)
        (sym (append_assoc to (replace c to xs) (replace c to ys)))
  | inr other ↦ rw (other, replace-append c to xs ys)
]

-- What the export writes for one character.
escape_char : ℕ → List ℕ
escape_char c = json_escape (c ∷ [])

json_escape-cons : (c : ℕ) (s : List ℕ) → json_escape (c ∷ s) ≡ escape_char c ++ json_escape s
unfolding json_escape escape_char
json_escape-cons c s = rw (
  replace-append b'\\' (codes "\\\\") (c ∷ []) s,
  replace-append b'"' (codes "\\\""),
  replace-append b'\n' (codes "\\n"),
  replace-append b'\r' (codes "\\r"),
  replace-append b'\t' (codes "\\t"),
)

-- A character that JSON allows as it is, or that the export has an escape for.
unfoldable pub exported_char : ℕ → Bool
exported_char c = not (is_control c) || c == b'\n' || c == b'\r' || c == b'\t'

-- A text in which newline, carriage return and tab are the only control characters.
unfoldable pub is_exported : List ℕ → Bool
is_exported [] = true
is_exported (c ∷ s) = let rest = is_exported s in exported_char c && rest

-- One escaped character is read as the character.
abbrev ReadsBack : ℕ → Type 0
ReadsBack c = (s : List ℕ) → read_text false (escape_char c ++ s) ≡ cons_char c (read_text false s)

plain-escape_char :
    (c : ℕ) → c ≢ b'\\' → c ≢ b'"' → c ≢ b'\n' → c ≢ b'\r' → c ≢ b'\t' → escape_char c ≡ c ∷ []
unfolding escape_char json_escape replace
plain-escape_char c backslash quote line return tab =
    let t1 : (c == b'\\') ≡ false = ground arith in
    let t2 : (c == b'"') ≡ false = ground arith in
    let t3 : (c == b'\n') ≡ false = ground arith in
    let t4 : (c == b'\r') ≡ false = ground arith in
    let t5 : (c == b'\t') ≡ false = ground arith in rw (t1, t2, t3, t4, t5)

read_text-plain :
    (c : ℕ) (s : List ℕ)
    → c ≢ b'\\'
    → c ≢ b'"'
    → is_control c ≡ false
    → read_text false (c ∷ s) ≡ cons_char c (read_text false s)
unfolding read_text
read_text-plain c s backslash quote plain = ground (arith, plain)

plain-ReadsBack :
    (c : ℕ) → c ≢ b'\\' → c ≢ b'"' → is_control c ≡ false → escape_char c ≡ c ∷ [] → ReadsBack c
plain-ReadsBack c backslash quote printed plain s =
    ap (λ (l : List ℕ). read_text false (l ++ s)) plain
    ∙ read_text-plain c s backslash quote printed

not_control :
    (c : ℕ) → exported_char c ≡ true → c ≢ b'\n' → c ≢ b'\r' → c ≢ b'\t' → is_control c ≡ false
unfolding exported_char
not_control c exported line return tab = ground arith

at : {c : ℕ} (d : ℕ) → c ≡ d → ReadsBack d → ReadsBack c
at d e reads = subst ReadsBack (sym e) reads

escape_char-ReadsBack : (c : ℕ) → exported_char c ≡ true → ReadsBack c
unfolding read_text escape_char json_escape replace unescape_char cons_escape
escape_char-ReadsBack c exported = elim (ℕ_discrete c b'\\') [
  | yes e ↦ at b'\\' e (λ s. refl)
  | no backslash ↦ elim (ℕ_discrete c b'"') [
    | yes e ↦ at b'"' e (λ s. refl)
    | no quote ↦ elim (ℕ_discrete c b'\n') [
      | yes e ↦ at b'\n' e (λ s. refl)
      | no line ↦ elim (ℕ_discrete c b'\r') [
        | yes e ↦ at b'\r' e (λ s. refl)
        | no return ↦ elim (ℕ_discrete c b'\t') [
          | yes e ↦ at b'\t' e (λ s. refl)
          | no tab ↦
              plain-ReadsBack c backslash quote (not_control c exported line return tab)
                (plain-escape_char c backslash quote line return tab)
        ]
      ]
    ]
  ]
]

pub read_text-json_escape :
    (s rest : List ℕ)
    → is_exported s ≡ true
    → read_text false (json_escape s ++ b'"' ∷ rest) ≡ some (s, rest)
unfolding read_text cons_char json_escape replace is_exported
read_text-json_escape [] rest exported = refl
read_text-json_escape (c ∷ s) rest exported = rw (
  json_escape-cons c s,
  append_assoc (escape_char c) (json_escape s) (b'"' ∷ rest),
  escape_char-ReadsBack c (ground (arith, exported)) (json_escape s ++ b'"' ∷ rest),
  read_text-json_escape s rest (ground (arith, exported)),
)
