-- ===== src/Probe/Handlers/Delivery.antt =====
-- What the ring buffer delivers, in any interleaving of calls and receptions.
use mathlib.Core.Option.{some-injective}
use mathlib.Core.List.{append-nil, append_assoc}
use k_sentry.Prelude.{
  ℕ, ◌+◌, ◌≡◌, refl, sym, ap, ◌∙◌, subst, Option, none, some, ◌>>=◌, List, [], ◌∷◌, ◌++◌,
  Bool-cases, inl, inr,
}
use k_sentry.Probe.Handlers.Counting.{
  IsCounted, Counts, loaded-IsCounted, finish-IsCounted, refuse-IsCounted, read-IsCounted,
  write-IsCounted, IsCounted-Counts,
}
use k_sentry.Live.{RawKernelEvent}
use k_sentry.Probe.Handlers.{
  load_counter, store_counter, Context, Result, Kernel, emit_event, count_ringbuf_output_failure,
  finish,
}
use k_sentry.Probe.Handlers.Ring.{
  Tracepoint, handle, attempt, handle-attempt, accepted, rejected, System, Reachable, load, call,
  receive, refuse, read, write,
}

finish-events :
    (ctx : Context) (event : Option RawKernelEvent) (k : Kernel)
    → (finish 0 ctx event k).0.events ≡ k.events ++ accepted ctx.output_ok event
unfolding finish emit_event count_ringbuf_output_failure accepted
finish-events ctx none k = sym (append-nil k.events)
finish-events ctx (some event) k = elim (Bool-cases ctx.output_ok) [
  | inl taken ↦ rw taken
  | inr full ↦ rw full (sym (append-nil k.events))
]

-- The state after a call is that of `finish`.
call-finish :
    (key : ℕ) (t : Tracepoint) (ctx : Context) (event : Option RawKernelEvent) (k k2 : Kernel)
    (r : Result)
    → attempt t ctx ≡ some event
    → handle key t ctx k ≡ some (k2, r)
    → finish key ctx event k ≡ (k2, r)
call-finish key t ctx event k k2 r filled returns = some-injective _ _ (
    sym (ap (λ m. m >>= λ event. some (finish key ctx event k)) filled)
    ∙ sym (handle-attempt key t ctx k)
    ∙ returns)

-- The order of the events and the bound of the counter.
Reachable-invariant :
    {s : System} {log : List RawKernelEvent} {lost interrupted : ℕ}
    → Reachable 0 s log lost interrupted
    → (s.received ++ s.kernel.events ≡ log)
      × IsCounted s.kernel.failures s.late s.loads lost interrupted
unfolding load_counter store_counter
Reachable-invariant load = (refl, loaded-IsCounted)
Reachable-invariant (call {s} {log} {lost} {interrupted} t ctx event k r before filled returns) =
    let (order, counts) = Reachable-invariant before in
    let same = ap (λ v. v.0) (call-finish 0 t ctx event s.kernel k r filled returns) in
    (
      ap (λ k. s.received ++ k.events) (sym same)
          ∙ ap (λ l. s.received ++ l) (finish-events ctx event s.kernel)
          ∙ sym (append_assoc s.received s.kernel.events (accepted ctx.output_ok event))
          ∙ ap (λ l. l ++ accepted ctx.output_ok event) order,
      subst
          (λ (k : Kernel).
            IsCounted k.failures s.late s.loads (lost + rejected ctx.output_ok event) interrupted)
          same (finish-IsCounted ctx event s.kernel s.late s.loads lost interrupted counts),
    )
Reachable-invariant (refuse {s} {log} {lost} {interrupted} t ctx event before filled full) =
    let (order, counts) = Reachable-invariant before in
    (order, refuse-IsCounted s.kernel.failures s.late s.loads lost interrupted counts)
Reachable-invariant (read {s} {log} {lost} {interrupted} late counter before waits loaded) =
    let (order, counts) = Reachable-invariant before in
    (
      order,
      read-IsCounted s.kernel.failures late counter s.loads lost interrupted loaded
          (subst (λ (n : ℕ). IsCounted s.kernel.failures n s.loads lost interrupted) waits counts),
    )
Reachable-invariant (write {s} {log} {lost} {interrupted} left counter right before holds) =
    let (order, counts) = Reachable-invariant before in
    (
      order,
      write-IsCounted s.kernel.failures s.late left counter right lost interrupted (
          subst (λ (l : List ℕ). IsCounted s.kernel.failures s.late l lost interrupted) holds
            counts),
    )
Reachable-invariant (receive {s} {log} {lost} event rest before head) =
    let (order, counts) = Reachable-invariant before in
    (
      append_assoc s.received (event ∷ []) rest ∙ ap (λ l. s.received ++ l) (sym head) ∙ order,
      counts,
    )

-- In every system that calls, interrupted ones too, and receptions reach from the loaded program,
-- whose failure counter has key 0, the received events and behind them those in the ring buffer are
-- the events that the buffer has taken, in their order. The failure counter is the number of events
-- that it has not taken, modulo 2 ^ 64, if no call can have been interrupted between the refusal of
-- its event and the end of its count; else it is at most that number.
pub Reachable-delivers :
    {s : System} {log : List RawKernelEvent} {lost interrupted : ℕ}
    → Reachable 0 s log lost interrupted
    → (s.received ++ s.kernel.events ≡ log) × Counts interrupted s.kernel.failures lost
Reachable-delivers {interrupted = interrupted} reached =
    let (order, counted) = Reachable-invariant reached in
    (order, IsCounted-Counts _ _ _ _ interrupted counted)
