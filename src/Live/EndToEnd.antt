-- ===== src/Live/EndToEnd.antt =====
-- timefence-epbf/timefence-epbf: the kernel side that the user side loads, timefence_epbf_ebpf, and
-- the user side, timefence_epbf, together: what the user side makes of the received events.
use k_sentry.Prelude.{
  ℕ, ◌≡◌, ◌<◌, refl, sym, ap, ◌∙◌, arith, String, some, List, [], ◌∷◌, ◌++◌, map, length, take, All,
  ◌^◌, ltb, false, if◌then◌else◌,
}
use k_sentry.Field.{Fits}
use k_sentry.KSentry
use k_sentry.KSentry.{digest_of}
use k_sentry.Live.{
  RawKernelEvent, LiveState, parse_raw_kernel_event, should_keep_event, run, waiting, stopped,
}
use k_sentry.Live.Count.{relevant, relevant_item, element, run-keeps_relevant}
use k_sentry.Probe.Basic.Ring.{Reachable, Reachable-order}

-- A prefix that is as long as the first part of an append.
take-length : (xs ys : List RawKernelEvent) → take (length xs) (xs ++ ys) ≡ xs
take-length [] ys = refl
take-length (x ∷ xs) ys = ap (λ l. x ∷ l) (take-length xs ys)

-- The ranges of the types of the fields.
pub record IsStruct (raw : RawKernelEvent) : Type 0 where
  pub event_type_u32 : raw.event_type < 2 ^ 32
  pub pid_u32 : raw.pid < 2 ^ 32
  pub uid_u32 : raw.uid < 2 ^ 32
  pub timestamp_u64 : raw.timestamp_ns < 2 ^ 64
  pub comm_size : length raw.comm ≡ 16
  pub comm_bytes : All (λ b. b < 2 ^ 8) raw.comm
  pub target_size : length raw.target ≡ 128
  pub target_bytes : All (λ b. b < 2 ^ 8) raw.target

module _ (hash : String → ℕ) (from_utf8_lossy : List ℕ → String)
    (read_unaligned : List ℕ → RawKernelEvent) where
  -- The events that the user side keeps.
  unfoldable pub kept : List RawKernelEvent → List RawKernelEvent
  kept [] = []
  kept (raw ∷ raws) =
      let rest = kept raws in
      if should_keep_event hash from_utf8_lossy read_unaligned raw then raw ∷ rest else rest

  -- The bytes of a struct: they have its size, and reading them gives it back.
  module _ (as_bytes : RawKernelEvent → List ℕ)
      (has_size : (raw : RawKernelEvent) → IsStruct raw → length (as_bytes raw) ≡ 168)
      (reads_back : (raw : RawKernelEvent)
        → IsStruct raw
        → read_unaligned (as_bytes raw) ≡ raw) where
    relevant-as_bytes :
        (raws : List RawKernelEvent)
        → All IsStruct raws
        → relevant hash from_utf8_lossy read_unaligned (map as_bytes raws) ≡ kept raws
    unfolding relevant relevant_item kept parse_raw_kernel_event
    relevant-as_bytes [] structs = refl
    relevant-as_bytes (raw ∷ raws) structs =
        let whole : ltb (length (as_bytes raw)) 168 ≡ false =
          ground (arith, has_size raw structs.0) in
        rw (whole, reads_back raw structs.0, relevant-as_bytes raws structs.1)

    -- For a modulus of 2 to 2 ^ 64, a base that is not 0, a layout of structs in 168 bytes whose
    -- reading gives back what was written, and received events whose fields are in the ranges of their
    -- types: after any calls of the tracepoints and receptions, the user side has stopped if it wants
    -- at least 30 of the first events that the ring buffer has taken, as many as were received, and
    -- else it waits for more; its digest is that of the first 30 of them that it wants.
    pub Reachable-digest :
        {p : ℕ} (fits : Fits p) (q : ℕ) {ring received log : List RawKernelEvent}
        → 0 < q
        → Reachable ring received log
        → All IsStruct received
        → (st : LiveState) × (run hash from_utf8_lossy read_unaligned q p (map as_bytes received)
            ≡ some (
                if ltb (length (kept (take (length received) log))) 30
                then waiting st
                else stopped st))
          × (digest_of
                (take 30 (
                  map
                    (element hash from_utf8_lossy read_unaligned p)
                    (kept (take (length received) log))))
                q
                p
              ≡ some (KSentry.digest st.ks))
    Reachable-digest {p} fits q {ring} {received} {log} hq reached structs =
        let (st, returns, counted, digest) =
          run-keeps_relevant hash from_utf8_lossy read_unaligned fits q (map as_bytes received)
            hq in
        let prefix : take (length received) log ≡ received =
          ap (take (length received)) (sym (Reachable-order reached)) ∙ take-length received ring in
        let wanted : kept (take (length received) log)
            ≡ relevant hash from_utf8_lossy read_unaligned (map as_bytes received) =
          ap kept prefix ∙ sym (relevant-as_bytes received structs) in
        (
          st,
          returns
              ∙ ap
                  (λ (raws : List RawKernelEvent).
                    some (if ltb (length raws) 30 then waiting st else stopped st))
                  (sym wanted),
          ap
                (λ raws.
                  digest_of (take 30 (map (element hash from_utf8_lossy read_unaligned p) raws)) q
                    p)
                wanted
              ∙ digest,
        )
