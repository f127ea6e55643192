-- ===== src/Baseline/Bytes.antt =====
-- The bytes that timefence-core/baseline.rs feeds to its hashers, and numbers read from bytes.
use mathlib.Core.List.{append-nil, append_assoc}
use native.Mathlib.Nat.{pow-suc, pow-zero}
use k_sentry.Prelude.{
  ℕ, zero, suc, ◌+◌, ◌*◌, ◌/◌, ◌^◌, ◌<◌, ◌≡◌, refl, sym, ap, ap₂, ◌∙◌, arith, List, [], ◌∷◌, ◌++◌,
  length, All, length-append,
}
use k_sentry.Baseline.{le_bytes, u128_to_bytes, update_all}

abbrev pub IsByte : ℕ → Type 0
IsByte b = b < 256

abbrev pub IsU128 : ℕ → Type 0
IsU128 x = x < 2 ^ 128

abbrev pub head_or : ℕ → List ℕ → ℕ
head_or d [] = d
head_or d (x ∷ xs) = x

abbrev pub tail : List ℕ → List ℕ
tail [] = []
tail (x ∷ xs) = xs

pub append_cancel :
    (xs ys cs ds : List ℕ) → length xs ≡ length ys → xs ++ cs ≡ ys ++ ds → (xs ≡ ys) × (cs ≡ ds)
append_cancel [] [] cs ds h e = (refl, e)
append_cancel [] (y ∷ ys) cs ds h e = absurd (omega arith)
append_cancel (x ∷ xs) [] cs ds h e = absurd (omega arith)
append_cancel (x ∷ xs) (y ∷ ys) cs ds h e =
    let rest = append_cancel xs ys cs ds (omega arith) (ap tail e) in
    (ap₂ (λ t ts. t ∷ ts) (ap (head_or 0) e) rest.0, rest.1)

pub length-le_bytes : (n x : ℕ) → length (le_bytes n x) ≡ n
unfolding le_bytes
length-le_bytes zero x = refl
length-le_bytes (suc n) x = ap suc (length-le_bytes n (x / 256))

-- The number with the given bytes, the lowest first.
abbrev pub of_le_bytes : List ℕ → ℕ
of_le_bytes [] = 0
of_le_bytes (b ∷ bytes) = b + 256 * of_le_bytes bytes

pub of_le_bytes-lt :
    (n : ℕ) (bytes : List ℕ) → length bytes ≡ n → All IsByte bytes → of_le_bytes bytes < 256 ^ n
of_le_bytes-lt zero [] e h = omega arith
of_le_bytes-lt zero (b ∷ bytes) e h = absurd (omega arith)
of_le_bytes-lt (suc n) [] e h = absurd (omega arith)
of_le_bytes-lt (suc n) (b ∷ bytes) e (hb, h) =
    omega (arith, pow-suc 256 n, of_le_bytes-lt n bytes (omega arith) h)

of_le_bytes-le_bytes : (n x : ℕ) → x < 256 ^ n → of_le_bytes (le_bytes n x) ≡ x
unfolding le_bytes
of_le_bytes-le_bytes zero x h = omega (arith, pow-zero 256)
of_le_bytes-le_bytes (suc n) x h =
    omega (arith, of_le_bytes-le_bytes n (x / 256) (omega (arith, pow-suc 256 n)))

pub le_bytes-of_le_bytes :
    (bytes : List ℕ) → All IsByte bytes → le_bytes (length bytes) (of_le_bytes bytes) ≡ bytes
unfolding le_bytes
le_bytes-of_le_bytes [] h = refl
le_bytes-of_le_bytes (b ∷ bytes) (hb, h) =
    ap₂ (λ t ts. t ∷ ts) (omega arith)
      (ap (le_bytes (length bytes)) (omega arith) ∙ le_bytes-of_le_bytes bytes h)

u128_to_bytes-injective :
    (x y : ℕ) → IsU128 x → IsU128 y → u128_to_bytes x ≡ u128_to_bytes y → x ≡ y
unfolding u128_to_bytes
u128_to_bytes-injective x y hx hy e =
    sym (of_le_bytes-le_bytes 16 x hx) ∙ ap of_le_bytes e ∙ of_le_bytes-le_bytes 16 y hy

length-u128_to_bytes : (x : ℕ) → length (u128_to_bytes x) ≡ 16
unfolding u128_to_bytes
length-u128_to_bytes x = length-le_bytes 16 x

-- The bytes of all the events.
abbrev pub event_bytes : List ℕ → List ℕ
event_bytes [] = []
event_bytes (x ∷ events) = u128_to_bytes x ++ event_bytes events

pub update_all-appends : (fed events : List ℕ) → update_all fed events ≡ fed ++ event_bytes events
unfolding update_all
update_all-appends fed [] = sym (append-nil fed)
update_all-appends fed (x ∷ events) =
    update_all-appends (fed ++ u128_to_bytes x) events
    ∙ append_assoc fed (u128_to_bytes x) (event_bytes events)

length-event_bytes : (events : List ℕ) → length (event_bytes events) ≡ 16 * length events
length-event_bytes [] = refl
length-event_bytes (x ∷ events) = omega (
  arith,
  length-append (u128_to_bytes x) (event_bytes events),
  length-u128_to_bytes x,
  length-event_bytes events,
)

event_bytes-injective :
    (xs ys : List ℕ) → All IsU128 xs → All IsU128 ys → event_bytes xs ≡ event_bytes ys → xs ≡ ys
event_bytes-injective [] [] hx hy e = refl
event_bytes-injective [] (y ∷ ys) hx hy e =
    absurd (omega (arith, ap length e, length-event_bytes (y ∷ ys)))
event_bytes-injective (x ∷ xs) [] hx hy e =
    absurd (omega (arith, ap length e, length-event_bytes (x ∷ xs)))
event_bytes-injective (x ∷ xs) (y ∷ ys) (hx, hxs) (hy, hys) e =
    let parts =
      append_cancel (u128_to_bytes x) (u128_to_bytes y) (event_bytes xs) (event_bytes ys)
        (length-u128_to_bytes x ∙ sym (length-u128_to_bytes y)) e in
    ap₂ (λ t ts. t ∷ ts) (u128_to_bytes-injective x y hx hy parts.0)
      (event_bytes-injective xs ys hxs hys parts.1)

-- Two lists of `u128` events that feed the same bytes are the same.
pub update_all-injective :
    (xs ys : List ℕ) → All IsU128 xs → All IsU128 ys → update_all [] xs ≡ update_all [] ys → xs ≡ ys
update_all-injective xs ys hx hy e =
    event_bytes-injective xs ys hx hy
      (sym (update_all-appends [] xs) ∙ e ∙ update_all-appends [] ys)
