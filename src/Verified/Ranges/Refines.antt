-- ===== src/Verified/Ranges/Refines.antt =====
-- The comparisons of timefence-core/src/checkpoint.rs against the ranges of
-- proofs/finaltest_timefence_core_verified.rs.
use text.Mathlib.TextEquality.{eq_iff}
use k_sentry.Prelude.{◌+◌, ◌^◌, ◌<◌, ◌≡◌, ◌↔◌, arith, true}
use k_sentry.Checkpoint.{TimeFenceCheckpoint, is_valid_range, same_range_as, adjacent_to}
use k_sentry.Verified.Ranges.{CkptValid, SameRange, AdjacentChunks}

-- The end does not wrap around.
abbrev pub InRange : TimeFenceCheckpoint → Type 0
InRange c = c.start_seq + c.len < 2 ^ 64

is_valid_range-CkptValid :
    (c : TimeFenceCheckpoint)
    → InRange c
    → (is_valid_range c ≡ true) ↔ CkptValid c.start_seq c.len c.end_seq
unfolding is_valid_range
is_valid_range-CkptValid c h = ground arith

adjacent_to-AdjacentChunks :
    (c d : TimeFenceCheckpoint)
    → CkptValid c.start_seq c.len c.end_seq
    → (adjacent_to c d ≡ true) ↔ (
        (c.stream_id ≡ d.stream_id)
        × (c.epoch ≡ d.epoch)
        × AdjacentChunks c.start_seq c.len d.start_seq d.len)
unfolding adjacent_to
adjacent_to-AdjacentChunks c d valid = ground (arith, eq_iff c.stream_id d.stream_id)

same_range_as-SameRange :
    (c d : TimeFenceCheckpoint)
    → CkptValid c.start_seq c.len c.end_seq
    → CkptValid d.start_seq d.len d.end_seq
    → (same_range_as c d ≡ true) ↔ (
        (c.stream_id ≡ d.stream_id)
        × (c.epoch ≡ d.epoch)
        × SameRange c.start_seq c.len d.start_seq d.len)
unfolding same_range_as
same_range_as-SameRange c d hc hd = ground (arith, eq_iff c.stream_id d.stream_id)

-- Two checkpoints that pass the range check and whose ends do not wrap around are valid ranges. They
-- are found adjacent exactly when the stream and the epoch are the same and the specification calls
-- the chunks adjacent, and of the same range exactly when the stream and the epoch are the same and
-- the specification calls the ranges the same.
pub is_valid_range-refines :
    (c d : TimeFenceCheckpoint)
    → InRange c
    → InRange d
    → is_valid_range c ≡ true
    → is_valid_range d ≡ true
    → CkptValid c.start_seq c.len c.end_seq
      × CkptValid d.start_seq d.len d.end_seq
      × ((adjacent_to c d ≡ true) ↔ (
          (c.stream_id ≡ d.stream_id)
          × (c.epoch ≡ d.epoch)
          × AdjacentChunks c.start_seq c.len d.start_seq d.len))
      × ((same_range_as c d ≡ true) ↔ (
          (c.stream_id ≡ d.stream_id)
          × (c.epoch ≡ d.epoch)
          × SameRange c.start_seq c.len d.start_seq d.len))
is_valid_range-refines c d hc hd valid_c valid_d =
    let end_c = (is_valid_range-CkptValid c hc).0 valid_c in
    let end_d = (is_valid_range-CkptValid d hd).0 valid_d in
    (end_c, end_d, adjacent_to-AdjacentChunks c d end_c, same_range_as-SameRange c d end_c end_d)
