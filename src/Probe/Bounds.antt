-- ===== src/Probe/Bounds.antt =====
-- The writes of timefence-epbf/timefence_epbf/src/main.rs stay inside the array.
use k_sentry.Prelude.{
  ℕ, zero, suc, ◌+◌, ◌/◌, ◌%◌, ◌^◌, ◌≤◌, ◌<◌, ◌≡◌, refl, ap, ◌∙◌, arith, some, List, [], ◌∷◌,
  length, get_elem?, set, ltb, ltb→lt, ◌==◌, Bool-cases, inl, inr,
}
use k_sentry.Probe.{
  zeros, digits_loop, copy_loop, put, write_decimal, write_u16_decimal, write_u8_decimal,
  write_ipv4_port, from_be,
}

length-set : (xs : List ℕ) (i v : ℕ) → length (set xs i v) ≡ length xs
length-set [] i v = refl
length-set (x ∷ xs) zero v = refl
length-set (x ∷ xs) (suc i) v = ap suc (length-set xs i v)

length-zeros : (n : ℕ) → length (zeros n) ≡ n
length-zeros zero = refl
length-zeros (suc n) = ap suc (length-zeros n)

get_elem?-inside : (xs : List ℕ) (k : ℕ) → k < length xs → (x : ℕ) × (get_elem? xs k ≡ some x)
get_elem?-inside [] k h = absurd (omega arith)
get_elem?-inside (x ∷ xs) zero h = (x, refl)
get_elem?-inside (x ∷ xs) (suc k) h = get_elem?-inside xs k (omega arith)

-- A write that went well: the array keeps its length, the position moved by at most `most`, and it
-- is inside the array if it was before.
pub record IsWritten (dst : List ℕ) (pos most : ℕ) (r : List ℕ × ℕ) : Type 0 where
  pub same_length : length r.0 ≡ length dst
  pub forward : pos ≤ r.1
  pub at_most : r.1 ≤ pos + most
  pub inside : pos ≤ length dst → r.1 ≤ length dst

put-IsWritten : (dst : List ℕ) (pos b : ℕ) → IsWritten dst pos 1 (put dst pos b)
unfolding put
put-IsWritten dst pos b = elim (Bool-cases (ltb pos (length dst))) [
  | inl fits ↦ rw fits (record {
    same_length = length-set dst pos b;
    forward = omega arith;
    at_most = omega arith;
    inside = λ h. omega (arith, ltb→lt _ _ fits);
  })
  | inr over ↦
      rw over (record {
        same_length = refl;
        forward = omega arith;
        at_most = omega arith;
        inside = λ h. h;
      })
]

copy_loop-IsWritten :
    (len : ℕ) (buf dst : List ℕ) (pos : ℕ)
    → len ≤ length buf
    → (r : List ℕ × ℕ) × (copy_loop len buf dst pos ≡ some r) × IsWritten dst pos len r
unfolding copy_loop
copy_loop-IsWritten zero buf dst pos h = (
  (dst, pos),
  refl,
  record { same_length = refl; forward = omega arith; at_most = omega arith; inside = λ i. i },
)
copy_loop-IsWritten (suc len) buf dst pos h = elim (Bool-cases (ltb pos (length dst))) [
  | inl fits ↦
      let b = get_elem?-inside buf len (omega arith) in
      let r = copy_loop-IsWritten len buf (set dst pos b.0) (pos + 1) (omega arith) in
      let same = length-set dst pos b.0 in
      (
        r.0,
        rw (fits, b.1) r.1,
        record {
          same_length = r.2.same_length ∙ same;
          forward = omega (arith, r.2.forward);
          at_most = omega (arith, r.2.at_most);
          inside = λ i. omega (arith, same, r.2.inside (omega (arith, same, ltb→lt _ _ fits)));
        },
      )
  | inr over ↦ (
    (dst, pos),
    rw over refl,
    record { same_length = refl; forward = omega arith; at_most = omega arith; inside = λ i. i },
  )
]

digits_loop-bounds :
    (rounds : ℕ) (buf : List ℕ) (len n : ℕ)
    → ((digits_loop rounds buf len n).1 ≤ len + rounds)
      × (length (digits_loop rounds buf len n).0 ≡ length buf)
unfolding digits_loop
digits_loop-bounds zero buf len n = (omega arith, refl)
digits_loop-bounds (suc rounds) buf len n = elim (Bool-cases (ltb 0 n)) [
  | inl more ↦
      let r = digits_loop-bounds rounds (set buf len (48 + n % 10)) (len + 1) (n / 10) in
      rw more (omega (arith, r.0), r.1 ∙ length-set buf len (48 + n % 10))
  | inr done ↦ rw done (omega arith, refl)
]

-- Writing a number with a buffer of at least one digit into an array, at any position, does not
-- panic; the array keeps its length, and the position moves by no more than the buffer's size and
-- not behind the array's end.
pub write_decimal-IsWritten :
    (size : ℕ) (dst : List ℕ) (pos n : ℕ)
    → 0 < size
    → (r : List ℕ × ℕ) × (write_decimal size dst pos n ≡ some r) × IsWritten dst pos size r
unfolding write_decimal
write_decimal-IsWritten size dst pos n h = elim (Bool-cases (n == 0)) [
  | inl empty ↦
      let p = put-IsWritten dst pos 48 in
      (
        put dst pos 48,
        rw empty refl,
        record {
          same_length = p.same_length;
          forward = p.forward;
          at_most = omega (arith, p.at_most);
          inside = p.inside;
        },
      )
  | inr more ↦
      let b = digits_loop-bounds size (zeros size) 0 n in
      let r =
        copy_loop-IsWritten (digits_loop size (zeros size) 0 n).1
          (digits_loop size (zeros size) 0 n).0 dst pos
          (omega (arith, b.0, b.1, length-zeros size)) in
      (
        r.0,
        rw more r.1,
        record {
          same_length = r.2.same_length;
          forward = r.2.forward;
          at_most = omega (arith, r.2.at_most, b.0);
          inside = r.2.inside;
        },
      )
]

-- Writing an address and a port into an array of any length does not panic, and the array keeps its
-- length.
pub write_ipv4_port-length :
    (dst : List ℕ) (addr_be port_be : ℕ)
    → (out : List ℕ) × (write_ipv4_port dst addr_be port_be ≡ some out) × (length out ≡ length dst)
unfolding write_ipv4_port write_u8_decimal write_u16_decimal
write_ipv4_port-length dst addr_be port_be =
    let a = write_decimal-IsWritten 3 dst 0 (addr_be % 2 ^ 8) (omega arith) in
    let a2 = put-IsWritten a.0.0 a.0.1 46 in
    let a3 = put a.0.0 a.0.1 46 in
    let b = write_decimal-IsWritten 3 a3.0 a3.1 (addr_be / 2 ^ 8 % 2 ^ 8) (omega arith) in
    let b2 = put-IsWritten b.0.0 b.0.1 46 in
    let b3 = put b.0.0 b.0.1 46 in
    let c = write_decimal-IsWritten 3 b3.0 b3.1 (addr_be / 2 ^ 16 % 2 ^ 8) (omega arith) in
    let c2 = put-IsWritten c.0.0 c.0.1 46 in
    let c3 = put c.0.0 c.0.1 46 in
    let d = write_decimal-IsWritten 3 c3.0 c3.1 (addr_be / 2 ^ 24 % 2 ^ 8) (omega arith) in
    let d2 = put-IsWritten d.0.0 d.0.1 58 in
    let d3 = put d.0.0 d.0.1 58 in
    let e = write_decimal-IsWritten 5 d3.0 d3.1 (from_be port_be) (omega arith) in
    (
      e.0.0,
      rw (a.1, b.1, c.1, d.1, e.1) refl,
      e.2.same_length ∙ d2.same_length ∙ d.2.same_length ∙ c2.same_length ∙ c.2.same_length
          ∙ b2.same_length ∙ b.2.same_length ∙ a2.same_length ∙ a.2.same_length,
    )
