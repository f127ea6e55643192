-- ===== src/Verified/Encoding.antt =====
-- proofs/finaltest_timefence_core_verified.rs: the traces of one, two and three elements and their
-- encodings in a base, as specifications.
pub mod Trusted
pub mod Tests
use k_sentry.Prelude.{ℕ, ◌+◌, ◌*◌, List, [], ◌∷◌}
use k_sentry.Verified.Spec.{spec_pow}

unfoldable pub seq1 : ℕ → List ℕ
seq1 a = a ∷ []

unfoldable pub seq2 : ℕ → ℕ → List ℕ
seq2 a b = a ∷ b ∷ []

unfoldable pub seq3 : ℕ → ℕ → ℕ → List ℕ
seq3 a b c = a ∷ b ∷ c ∷ []

unfoldable pub encode_len1 : ℕ → ℕ → ℕ
encode_len1 a q = a

unfoldable pub encode_len2 : ℕ → ℕ → ℕ → ℕ
encode_len2 a b q = a + b * q

unfoldable pub encode_len3 : ℕ → ℕ → ℕ → ℕ → ℕ
encode_len3 a b c q = a + b * q + c * spec_pow q 3
