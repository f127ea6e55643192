-- ===== src/Verified/Ranges/Tests.antt =====
-- The ranges and the emitted checkpoints at concrete values.
use k_sentry.Prelude.{◌≡◌, ◌↔◌, refl, arith, true, some, [], ◌∷◌, take}
use k_sentry.Field.{Fits}
use k_sentry.KSentry.{KSentry, ksentry_fast, checkpoint}
use k_sentry.Checkpoint.{TimeFenceCheckpoint, is_valid_range, same_range_as, adjacent_to}
use k_sentry.Verified.Ranges.{
  CkptValid, SameRange, AdjacentChunks, PrefixCheckpointCorrect, checkpoint_position_from_state,
}
use k_sentry.Verified.Ranges.Refines.{is_valid_range-refines}
use k_sentry.Verified.Ranges.Emitted.{checkpoint-PrefixCheckpointCorrect}

abbrev first : TimeFenceCheckpoint
first = record {
  stream_id = "node";
  epoch = 0;
  start_seq = 0;
  end_seq = 4;
  len = 4;
  digest = 11;
  q = 7;
  p = 101;
}

abbrev second : TimeFenceCheckpoint
second = record first { start_seq = 4; end_seq = 6; len = 2 }

is_valid_range-refines_example :
    CkptValid 0 4 4
    × CkptValid 4 2 6
    × ((adjacent_to first second ≡ true) ↔ (
        (first.stream_id ≡ second.stream_id)
        × (first.epoch ≡ second.epoch)
        × AdjacentChunks 0 4 4 2))
    × ((same_range_as first second ≡ true)
        ↔ ((first.stream_id ≡ second.stream_id) × (first.epoch ≡ second.epoch) × SameRange 0 4 4 2))
unfolding is_valid_range
is_valid_range-refines_example =
    is_valid_range-refines first second (omega arith) (omega arith) refl refl

small-Fits_run : Fits 101
small-Fits_run = record { above_one = omega arith; within_u64 = omega arith }

checkpoint-PrefixCheckpointCorrect_example :
    (st : KSentry) × (ksentry_fast (take 2 (5 ∷ 7 ∷ 11 ∷ [])) 3 101 ≡ some st)
    × ((checkpoint st "node" 0).end_seq ≡ checkpoint_position_from_state 2)
    × PrefixCheckpointCorrect (5 ∷ 7 ∷ 11 ∷ []) 3 101 2 (checkpoint st "node" 0).digest
checkpoint-PrefixCheckpointCorrect_example =
    checkpoint-PrefixCheckpointCorrect small-Fits_run 3 (5 ∷ 7 ∷ 11 ∷ []) 2 "node" 0 (omega arith)
      (omega arith) (omega arith)
