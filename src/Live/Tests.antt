-- ===== src/Live/Tests.antt =====
-- A run of timefence-epbf/timefence-epbf/timefence_epbf/src/main.rs on three items: a short one, an
-- event of a shell, and one of another program.
use Prim.Native.String.{len}
use k_sentry.Prelude.{
  ℕ, zero, suc, ◌≡◌, ◌==◌, refl, arith, String, List, [], ◌∷◌, take, if◌then◌else◌,
}
use k_sentry.Field.{Fits}
use k_sentry.Live.{RawKernelEvent, LiveEventRecord, push_first, push_last, pop_front}

abbrev pub prime : ℕ
prime = 1_000_000_007

pub prime-Fits : Fits prime
prime-Fits = record { above_one = omega arith; within_u64 = omega arith }

abbrev pub by_length : String → ℕ
by_length s = len s

abbrev copies : ℕ → ℕ → List ℕ
copies zero b = []
copies (suc n) b = b ∷ copies n b

-- The name of the program is one byte here.
abbrev pub decode : List ℕ → String
decode [] = ""
decode (b ∷ bs) = if b == 1 then "bash" else "other"

abbrev pub read : List ℕ → RawKernelEvent
read bytes = record {
  event_type = 1;
  pid = 7;
  uid = 1000;
  timestamp_ns = 5;
  comm = take 1 bytes;
  target = [];
}

abbrev pub items : List (List ℕ)
items = (1 ∷ []) ∷ copies 168 1 ∷ copies 168 2 ∷ []

abbrev event : ℕ → LiveEventRecord
event n = record {
  event_type = "Exec";
  pid = n;
  uid = 0;
  timestamp_ns = 0;
  comm = "bash";
  target = "<empty>";
  field_element = n;
  digest_after = 0;
}

last_run :
    push_last (event 1 ∷ event 2 ∷ event 3 ∷ event 4 ∷ event 5 ∷ []) (event 6)
    ≡ event 2 ∷ event 3 ∷ event 4 ∷ event 5 ∷ event 6 ∷ []
unfolding push_last pop_front
last_run = refl

first_run :
    push_first (event 1 ∷ event 2 ∷ event 3 ∷ event 4 ∷ event 5 ∷ []) (event 6)
    ≡ event 1 ∷ event 2 ∷ event 3 ∷ event 4 ∷ event 5 ∷ []
unfolding push_first
first_run = refl
