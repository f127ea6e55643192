-- ===== src/Probe/Basic/Ring.antt =====
-- timefence-epbf/timefence-epbf/timefence_epbf_ebpf/src/main.rs: its ring buffer between the calls of
-- the tracepoints and the reader, in any interleaving. A call touches nothing that is shared but
-- the buffer, which takes an event in one step.
use mathlib.Core.List.{append_assoc}
use k_sentry.Prelude.{◌≡◌, refl, sym, ap, ◌∙◌, List, [], ◌∷◌, ◌++◌}
use k_sentry.Live.{RawKernelEvent}
use k_sentry.Probe.Handlers.{Context}
use k_sentry.Probe.Basic.Calls.{Tracepoint, handle, taken, handle-IsCall}

-- The buffers that calls and receptions lead to, with the events that the reader has received and
-- those that the buffer has taken.
pub data Reachable : (ring received log : List RawKernelEvent) → Type 0 where
  load : Reachable [] [] []
  call :
      {ring received log : List RawKernelEvent} (t : Tracepoint) (ctx : Context)
      → Reachable ring received log
      → Reachable (handle t ctx ring).0 received (log ++ taken t ctx)
  receive :
      {rest received log : List RawKernelEvent} (event : RawKernelEvent)
      → Reachable (event ∷ rest) received log
      → Reachable rest (received ++ event ∷ []) log

-- The received events and behind them those in the buffer are those that it has taken, in order.
pub Reachable-order :
    {ring received log : List RawKernelEvent} → Reachable ring received log → received ++ ring ≡ log
Reachable-order load = refl
Reachable-order (call {ring} {received} t ctx before) =
    ap (λ l. received ++ l) (handle-IsCall t ctx ring).0
    ∙ sym (append_assoc received ring (taken t ctx))
    ∙ ap (λ l. l ++ taken t ctx) (Reachable-order before)
Reachable-order (receive {rest} {received} event before) =
    append_assoc received (event ∷ []) rest ∙ Reachable-order before
