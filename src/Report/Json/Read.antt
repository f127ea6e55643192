-- ===== src/Report/Json/Read.antt =====
-- A reader of the JSON that timefence-core/src/report.rs exports: the description of what the
-- export means, apart from how it is written.
use k_sentry.Prelude.{
  ℕ, codes, zero, suc, ◌+◌, ◌-◌, ◌*◌, Option, none, some, ◌>>=◌, List, [], ◌∷◌, Bool, true, false,
  ◌&&◌, ◌||◌, ltb, leb, ◌==◌, if◌then◌else◌,
}

-- What stands behind `prefix`, where the text begins with it.
unfoldable pub strip : List ℕ → List ℕ → Option (List ℕ)
strip [] s = some s
strip (c ∷ prefix) [] = none
strip (c ∷ prefix) (d ∷ s) = let rest = strip prefix s in if c == d then rest else none

-- The character that an escape stands for; the escape by four digits is not read, and the export
-- never writes it.
unfoldable pub unescape_char : ℕ → Option ℕ
unescape_char c =
    if c == b'"' || c == b'\\' || c == b'/'
    then some c
    else if c == b'n'
    then some 10
    else if c == b'r'
    then some 13
    else if c == b't'
    then some 9
    else if c == b'b'
    then some 8
    else if c == b'f'
    then some 12
    else none

-- The first 32 characters, which JSON does not allow in a text unless they are escaped.
unfoldable pub is_control : ℕ → Bool
is_control c = ltb c 32

unfoldable pub cons_char : ℕ → Option (List ℕ × List ℕ) → Option (List ℕ × List ℕ)
cons_char c none = none
cons_char c (some (s, rest)) = some (c ∷ s, rest)

unfoldable pub cons_escape : Option ℕ → Option (List ℕ × List ℕ) → Option (List ℕ × List ℕ)
cons_escape none read = none
cons_escape (some c) read = cons_char c read

-- A text up to its closing quotation mark, and what stands behind that; the flag says that the
-- character before was the backslash of an escape. A control character is refused, and so is an
-- escape that JSON does not have.
unfoldable pub read_text : Bool → List ℕ → Option (List ℕ × List ℕ)
read_text escaped [] = none
read_text true (c ∷ s) = cons_escape (unescape_char c) (read_text false s)
read_text false (c ∷ s) = elim (c == b'"') [
  | true ↦ some ([], s)
  | false ↦ elim (c == b'\\') [
    | true ↦ read_text true s
    | false ↦ elim (is_control c) [ true ↦ none | false ↦ cons_char c (read_text false s) ]
  ]
]

-- A number up to the first character that is no digit, and the rest from there on.
unfoldable pub read_number : ℕ → List ℕ → ℕ × List ℕ
read_number n [] = (n, [])
read_number n (c ∷ s) =
    let rest = read_number (n * 10 + (c - 48)) s in
    if leb 48 c && leb c 57 then rest else (n, c ∷ s)

pub record Fields : Type 0 where
  pub case_name : List ℕ
  pub status : List ℕ
  pub original_len : ℕ
  pub observed_len : ℕ
  pub expected_digest : ℕ
  pub observed_digest : ℕ
  pub original_timeline : List ℕ
  pub observed_timeline : List ℕ
  pub conclusion : List ℕ

-- A text, or a number, behind its key.
unfoldable pub read_text_field : List ℕ → List ℕ → Option (List ℕ × List ℕ)
read_text_field key s = do s ← strip key s; read_text false s

unfoldable pub read_number_field : List ℕ → List ℕ → Option (ℕ × List ℕ)
read_number_field key s = do s ← strip key s; some (read_number 0 s)

unfoldable pub read_report : List ℕ → Option (Fields × List ℕ)
read_report s = do
  case_name ← read_text_field (codes "  {\n    \"case_name\": \"") s
  status ← read_text_field (codes ",\n    \"status\": \"") case_name.1
  original_len ← read_number_field (codes ",\n    \"original_len\": ") status.1
  observed_len ← read_number_field (codes ",\n    \"observed_len\": ") original_len.1
  expected_digest ← read_number_field (codes ",\n    \"expected_digest\": ") observed_len.1
  observed_digest ← read_number_field (codes ",\n    \"observed_digest\": ") expected_digest.1
  original_timeline ← read_text_field (codes ",\n    \"original_timeline\": \"") observed_digest.1
  observed_timeline ← read_text_field (codes ",\n    \"observed_timeline\": \"") original_timeline.1
  conclusion ← read_text_field (codes ",\n    \"conclusion\": \"") observed_timeline.1
  rest ← strip (codes "\n  }") conclusion.1
  some (
    record {
      case_name = case_name.0;
      status = status.0;
      original_len = original_len.0;
      observed_len = observed_len.0;
      expected_digest = expected_digest.0;
      observed_digest = observed_digest.0;
      original_timeline = original_timeline.0;
      observed_timeline = observed_timeline.0;
      conclusion = conclusion.0;
    },
    rest,
  )

-- The end of the array.
unfoldable pub read_end : List ℕ → Option (List Fields)
read_end s = do s ← strip (codes "]\n") s; elim s [ [] ↦ some [] | c ∷ rest ↦ none ]

-- What is done with a result, and what without one.
abbrev pub on_some {ℓ κ} : {A : Type ℓ} {B : Type κ} → Option A → (A → B) → B → B
on_some none f d = d
on_some (some a) f d = f a

-- The reports of an array; after each but the last there is a comma. At most `fuel` are read.
unfoldable pub read_array : ℕ → List ℕ → Option (List Fields)
read_array zero s = none
read_array (suc fuel) s =
    on_some (strip (codes "]") s) (λ bracket. read_end s)
      (read_report s >>= λ r.
        on_some (strip (codes ",\n") r.1) (λ more. read_array fuel more >>= λ rs. some (r.0 ∷ rs))
          (strip (codes "\n") r.1 >>= λ last. read_end last >>= λ rs. some (r.0 ∷ rs)))

unfoldable pub read_reports : ℕ → List ℕ → Option (List Fields)
read_reports fuel s = do s ← strip (codes "[\n") s; read_array fuel s
