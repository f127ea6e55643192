-- ===== src/Probe/Tests.antt =====
-- Runs of timefence-epbf/timefence_epbf/src/main.rs on arrays, and its theorems there.
use k_sentry.Prelude.{◌+◌, ◌*◌, ◌≡◌, refl, some, [], ◌∷◌}
use k_sentry.Probe.{
  zeros, digits_loop, copy_loop, put, write_decimal, write_u16_decimal, write_u8_decimal, from_be,
  write_ipv4_port,
}

-- 192.0.2.1:80, with both numbers in the order of the network.
address_run :
    write_ipv4_port (zeros 14) (192 + 2 * 65536 + 16777216) (80 * 256)
    ≡ some (49 ∷ 57 ∷ 50 ∷ 46 ∷ 48 ∷ 46 ∷ 50 ∷ 46 ∷ 49 ∷ 58 ∷ 56 ∷ 48 ∷ 0 ∷ 0 ∷ [])
unfolding write_ipv4_port write_u8_decimal write_u16_decimal write_decimal digits_loop copy_loop put
    from_be
address_run = refl

-- An array that is too short cuts the text off.
cut_run : write_u16_decimal (zeros 2) 0 65535 ≡ some (54 ∷ 53 ∷ [], 2)
unfolding write_u16_decimal write_decimal digits_loop copy_loop
cut_run = refl
