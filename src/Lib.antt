-- ===== src/Lib.antt =====
-- A verification library for K-Sentry and TimeFence.
--
-- The program digests streams of telemetry by sums of weighted elements modulo p, cuts streams into
-- chunks with checkpoints, compares expected with observed checkpoints, and classifies what was
-- tampered with. Each part below has a file, with child modules for its theorems and, in Tests, runs
-- of its code.
--
--  * Field, Power: the modular arithmetic of timefence-core/src/ksentry.rs (triangular_exp, mod_mul,
--    mod_add, mod_pow), and the square-and-multiply loop that ksentry-metrics/src/main.rs shares.
--  * KSentry: timefence-core/src/ksentry.rs, the accumulator whose weights are the base to triangular
--    powers (new, update, digest, position, checkpoint), ksentry_fast and ksentry_spec.
--  * Rolling: timefence-core/src/rolling.rs, the affine hash with its rebase.
--  * Antirebase: timefence-core/src/antirebase.rs, the shifted specification and the demonstration
--    that no one scalar moves a digest to an offset.
--  * Checkpoint: timefence-core/src/checkpoint.rs, the metadata record and its comparisons.
--  * Verifier: timefence-core/src/verifier.rs, reports for one and for many checkpoints.
--  * Fault: timefence-core/src/fault.rs, the faults of a pipeline, generic in the elements.
--  * Chunker: timefence-core/src/chunker.rs, which cuts a stream into chunks, digests each with KSentry
--    and finds the first bad one with Verifier; `localize` is the pipeline of
--    timefence-core-local-complete/src/main.rs.
--  * Events, Incident, Report: timefence-core/src/events.rs, incident.rs and report.rs, which put faults,
--    digests and the verifier together on telemetry events.
--  * Bench: timefence-core/src/bench.rs and csv.rs, the benchmark of the accumulator. Baseline:
--    timefence-core/baseline.rs, the rolling hash, blake3, hmac and a Merkle tree (Merkle) beside it, with
--    the rows of the runs (Rows) and their summary (Summary).
--  * Trace: timefence-trace/src/main.rs, which reads the lines of strace and compares two runs;
--    Report has the text of its report file.
--  * Live: timefence-epbf/timefence-epbf/timefence_epbf/src/main.rs, which keeps 30 relevant events of a
--    ring buffer, or waits for more while there are fewer among the items so far, and the types of timefence_epbf_common/src/lib.rs;
--    Report has the text of its report file.
--  * Probe: timefence-epbf/timefence_epbf/src/main.rs, the kernel side: the writing of text into arrays
--    and, in Handlers, the tracepoints with the ring buffer and the counter of lost events. Ring is the
--    step relation of calls on several processors and receptions: the counter is one entry that all
--    processors load and store without a lock, so a call whose event is refused is either one step or
--    a refusal, a load and a store with other steps between them; Counting is about the counter.
--    Basic is the kernel program that the user side beside it loads, in
--    timefence-epbf/timefence-epbf/timefence_epbf_ebpf/src/main.rs; Basic.Ring is its step relation, and
--    Live.EndToEnd runs the user side on what was received.
--  * Metrics: ksentry-metrics/src/main.rs, the accumulator over u64 with square exponents, the
--    comparison of two logs, and the program's checks of itself.
--  * Verified: proofs/finaltest_timefence_core_verified.rs, the Verus development. Spec has the digest
--    (ramanujan_spec), Exec the executable accumulator (run_from_empty_k), Collision the bases at which
--    two traces collide (bad_q_count), Mismatch the search for the first difference, Prefix the
--    streaming state (o1_state_inv), Rebase the rolling specification and combined digests, Exponents
--    the sequences of exponents over the integers, Ranges the ranges of checkpoints, Encoding the
--    traces of up to three elements, Difference the difference polynomial. Collision.Prime relates what the
--    source calls primality to divisors, and finds it out by trial division.
--  * Older: ksentry-metrics/src/bin/main1.rs, the older binary with triangular exponents, its attacks and
--    its rolling hash. States has the states of prefixes, the shifted states and the comparisons,
--    Search the bounded searches for two logs of one state.
--  * Weighted: the abstract digest, a sum of the elements times weights of their positions, to which
--    all accumulators are related; Interface is the record through which clients see an accumulator, and
--    KSentry.Sensitive, Rolling.Sensitive and Older.Attacks fill it. Prelude: shared names, lists on
--    native numbers, integers, remainders.
--
-- Conventions. A u64 or u128 is a number, and an operation that can overflow has its wrap-around
-- written out, as a release build computes it; an operation that the code checks, and an assertion or
-- an index that can fail, gives `none`, which stands for a panic. A state is a record and an operation
-- takes it to the next one. Loops are recursions on the stream, or on a number of rounds: 129 rounds
-- of the power loop are enough for every u128 exponent and 65 for every u64 one, since an exponent of
-- b bits ends after b rounds and one last test; a decimal number of a u64 has at most 20 digits and
-- one of a u128 at most 39; a buffer of n digits is full after n rounds; the cutting into chunks has one round for each element.
-- A stream of an abstract length stands for a Vec, and its indices are usize of 64 bits.
--
-- Parameters. `hash` is Rust's DefaultHasher on a string, whose algorithm is not specified; the
-- results hold for every function. `blake3` and `hmac_sha256` are the hashes of those packages as functions of
-- all the bytes that a hasher is fed, of 32 bytes where a theorem says so. `run_strace_script` is the
-- output of strace for a script.
-- `from_utf8_lossy` decodes bytes, and `read_unaligned` reads a struct from its bytes; `as_bytes`
-- writes one. A `Context` has what the helpers of the kernel return in one call, and the key of the
-- failure counter, which no file defines, is 0 where a result says so. Specification integers of
-- Verus that are never negative are numbers, and a sequence is a list, read from its end where the
-- source takes the last element.
--
-- Not modelled: printing but for the verdict on a case of strace, files, clocks and sleeping; the
-- floating-point bounds of ksentry-metrics and the columns of the benchmarks that are computed from
-- clocks; the collection of telemetry with sysinfo; the aya runtime with its probes, maps and helpers;
-- the Verus proof functions, which are no program code;
-- the copy of that file under proofs-local-complete; the vendored Verus tool chain.
-- timefence-core-local-complete is a copy of timefence-core, and the second file of timefence-trace
-- a copy of the first.
mod Prelude
mod Weighted
mod Power
pub mod Field
pub mod KSentry
pub mod Rolling
pub mod Antirebase
pub mod Checkpoint
pub mod Older
pub mod Baseline
pub mod Bench
pub mod Verified
pub mod Verifier
pub mod Fault
pub mod Chunker
pub mod Metrics
pub mod Events
pub mod Incident
pub mod Report
pub mod Trace
pub mod Live
pub mod Probe
