-- ===== src/Probe.antt =====
-- timefence-epbf/timefence_epbf/src/main.rs: how the kernel side writes the target of an event into
-- its array of 128 bytes. `none` is an index out of bounds, at which Rust panics; a write through
-- `set` stands under a test of its index.
pub mod Bounds
pub mod Overlay
pub mod Handlers
pub mod Basic
pub mod Tests
use k_sentry.Prelude.{
  ℕ, zero, suc, ◌+◌, ◌*◌, ◌/◌, ◌%◌, ◌^◌, Option, none, some, List, [], ◌∷◌, length, get_elem?, set,
  ltb, ◌==◌, if◌then◌else◌, ◌>>=◌,
}

-- `let mut i = 0; while i < src.len() && i < dst.len() { dst[i] = src[i]; i += 1 }`, where `src` is
-- what is left from index `i` on.
unfoldable pub write_bytes_from : ℕ → List ℕ → List ℕ → List ℕ
write_bytes_from i dst [] = dst
write_bytes_from i dst (b ∷ src) =
    let rest = write_bytes_from (i + 1) (set dst i b) src in
    if ltb i (length dst) then rest else dst

unfoldable pub write_bytes : List ℕ → List ℕ → List ℕ
write_bytes dst src = write_bytes_from 0 dst src

-- `[0u8; n]`
abbrev pub zeros : ℕ → List ℕ
zeros zero = []
zeros (suc n) = 0 ∷ zeros n

-- The loop that fills `buf` from its index `len` on with the digits of `n`, the last one first; it
-- has as many rounds left as `buf` has free places.
unfoldable pub digits_loop : ℕ → List ℕ → ℕ → ℕ → List ℕ × ℕ
digits_loop zero buf len n = (buf, len)
digits_loop (suc rounds) buf len n =
    let rest = digits_loop rounds (set buf len (48 + n % 10)) (len + 1) (n / 10) in
    if ltb 0 n then rest else (buf, len)

-- `while len > 0 && pos < dst.len() { len -= 1; dst[pos] = buf[len]; pos += 1 }`
unfoldable pub copy_loop : ℕ → List ℕ → List ℕ → ℕ → Option (List ℕ × ℕ)
copy_loop zero buf dst pos = some (dst, pos)
copy_loop (suc len) buf dst pos =
    if ltb pos (length dst)
    then (do b ← get_elem? buf len; copy_loop len buf (set dst pos b) (pos + 1))
    else some (dst, pos)

-- `if pos < dst.len() { dst[pos] = b; pos += 1 }`
unfoldable pub put : List ℕ → ℕ → ℕ → List ℕ × ℕ
put dst pos b = if ltb pos (length dst) then (set dst pos b, pos + 1) else (dst, pos)

-- The body that the two functions below share, with a buffer of `size` digits.
unfoldable pub write_decimal : ℕ → List ℕ → ℕ → ℕ → Option (List ℕ × ℕ)
write_decimal size dst pos n =
    if n == 0
    then some (put dst pos 48)
    else let filled = digits_loop size (zeros size) 0 n in copy_loop filled.1 filled.0 dst pos

unfoldable pub write_u16_decimal : List ℕ → ℕ → ℕ → Option (List ℕ × ℕ)
write_u16_decimal dst pos n = write_decimal 5 dst pos n

unfoldable pub write_u8_decimal : List ℕ → ℕ → ℕ → Option (List ℕ × ℕ)
write_u8_decimal dst pos n = write_decimal 3 dst pos n

-- `u16::from_be` on a little-endian machine.
unfoldable pub from_be : ℕ → ℕ
from_be n = n % 2 ^ 8 * 2 ^ 8 + n / 2 ^ 8

unfoldable pub write_ipv4_port : List ℕ → ℕ → ℕ → Option (List ℕ)
write_ipv4_port dst addr_be port_be = do
  a ← write_u8_decimal dst 0 (addr_be % 2 ^ 8)
  let a = put a.0 a.1 46 in
      do
        b ← write_u8_decimal a.0 a.1 (addr_be / 2 ^ 8 % 2 ^ 8)
        let b = put b.0 b.1 46 in
            do
              c ← write_u8_decimal b.0 b.1 (addr_be / 2 ^ 16 % 2 ^ 8)
              let c = put c.0 c.1 46 in
                  do
                    d ← write_u8_decimal c.0 c.1 (addr_be / 2 ^ 24 % 2 ^ 8)
                    let d = put d.0 d.1 58 in
                        do e ← write_u16_decimal d.0 d.1 (from_be port_be); some e.0
