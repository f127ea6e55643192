-- ===== src/Probe/Basic/Calls.antt =====
-- The calls of the kernel side in timefence-epbf/timefence-epbf/timefence_epbf_ebpf/src/main.rs, in
-- any order.
use mathlib.Core.List.{append-nil, append_assoc}
use k_sentry.Prelude.{
  ℕ, ◌+◌, ◌≡◌, refl, sym, ap, ◌∙◌, arith, Option, none, some, List, [], ◌∷◌, ◌++◌, length,
  length-append, Bool-cases, inl, inr, Bool, true, false,
}
use k_sentry.Live.{RawKernelEvent, event_exec}
use k_sentry.Probe.Handlers.{Context, fill_common, ret}
use k_sentry.Probe.Basic.{
  output, try_execve, openat_event, openat_at, try_openat, connect_event, try_connect, timefence,
  timefence_openat, timefence_connect,
}

pub data Tracepoint : Type 0 where
  execve openat connect : Tracepoint

abbrev pub handle : Tracepoint → Context → List RawKernelEvent → List RawKernelEvent × ℕ
handle Tracepoint.execve ctx ring = timefence ctx ring
handle Tracepoint.openat ctx ring = timefence_openat ctx ring
handle Tracepoint.connect ctx ring = timefence_connect ctx ring

-- The event that a call wants to send, where there is one.
abbrev pub openat_wanted : Context → Option ℕ → List RawKernelEvent
openat_wanted ctx none = []
openat_wanted ctx (some filename_ptr) = openat_event ctx filename_ptr ∷ []

abbrev pub wanted : Tracepoint → Context → List RawKernelEvent
wanted Tracepoint.execve ctx = fill_common event_exec ctx ∷ []
wanted Tracepoint.openat ctx = openat_wanted ctx ctx.argument
wanted Tracepoint.connect ctx = connect_event ctx ∷ []

-- The events that the ring buffer takes in one call.
abbrev pub taken_if : Bool → List RawKernelEvent → List RawKernelEvent
taken_if true events = events
taken_if false events = []

abbrev pub taken : Tracepoint → Context → List RawKernelEvent
taken t ctx = taken_if ctx.output_ok (wanted t ctx)

-- A call returns 0 and has added what it wanted to send, or returns 1 and has added nothing.
abbrev pub IsCall : List RawKernelEvent → List RawKernelEvent → List RawKernelEvent × ℕ → Type 0
IsCall ring events (after, code) = (after ≡ ring ++ events) × (code + length events ≡ 1)

output-IsCall :
    (ctx : Context) (event : RawKernelEvent) (ring : List RawKernelEvent)
    → IsCall ring
        (taken_if ctx.output_ok (event ∷ []))
        ((output ctx event ring).0, ret (output ctx event ring).1)
unfolding output ret
output-IsCall ctx event ring = elim (Bool-cases ctx.output_ok) [
  | inl ok ↦ rw ok (refl, refl)
  | inr full ↦ rw full (sym (append-nil ring), refl)
]

taken_if-nil : (b : Bool) → taken_if b [] ≡ []
taken_if-nil true = refl
taken_if-nil false = refl

openat_at-IsCall :
    (ctx : Context) (argument : Option ℕ) (ring : List RawKernelEvent)
    → IsCall ring
        (taken_if ctx.output_ok (openat_wanted ctx argument))
        ((openat_at ctx argument ring).0, ret (openat_at ctx argument ring).1)
unfolding openat_at ret
openat_at-IsCall ctx none ring = rw (taken_if-nil ctx.output_ok) (sym (append-nil ring), refl)
openat_at-IsCall ctx (some filename_ptr) ring =
    unfold ret in output-IsCall ctx (openat_event ctx filename_ptr) ring

pub handle-IsCall :
    (t : Tracepoint) (ctx : Context) (ring : List RawKernelEvent)
    → IsCall ring (taken t ctx) (handle t ctx ring)
unfolding timefence timefence_openat timefence_connect try_execve try_openat try_connect
handle-IsCall Tracepoint.execve ctx ring = output-IsCall ctx (fill_common event_exec ctx) ring
handle-IsCall Tracepoint.openat ctx ring = openat_at-IsCall ctx ctx.argument ring
handle-IsCall Tracepoint.connect ctx ring = output-IsCall ctx (connect_event ctx) ring

-- The ring buffer and the sum of the codes after several calls.
abbrev pub calls : List (Tracepoint × Context) → List RawKernelEvent → List RawKernelEvent × ℕ
calls [] ring = (ring, 0)
calls ((t, ctx) ∷ rest) ring =
    let r = handle t ctx ring in let after = calls rest r.0 in (after.0, r.1 + after.1)

abbrev pub taken_by : List (Tracepoint × Context) → List RawKernelEvent
taken_by [] = []
taken_by ((t, ctx) ∷ rest) = taken t ctx ++ taken_by rest

-- After any calls of the three tracepoints in any order, the ring buffer holds what it held and
-- behind it the events that it took, in the order of the calls; as many calls have returned 1 as
-- sent nothing, and the others have returned 0.
pub calls-append :
    (cs : List (Tracepoint × Context)) (ring : List RawKernelEvent)
    → ((calls cs ring).0 ≡ ring ++ taken_by cs)
      × ((calls cs ring).1 + length (taken_by cs) ≡ length cs)
calls-append [] ring = (sym (append-nil ring), refl)
calls-append ((t, ctx) ∷ rest) ring =
    let (after, code) = handle-IsCall t ctx ring in
    let later = calls-append rest (handle t ctx ring).0 in
    (
      later.0
          ∙ ap (λ (l : List RawKernelEvent). l ++ taken_by rest) after
          ∙ append_assoc ring (taken t ctx) (taken_by rest),
      omega (arith, code, later.1, length-append (taken t ctx) (taken_by rest)),
    )
