-- ===== src/Probe/Handlers/Total.antt =====
-- timefence-epbf/timefence_epbf/src/main.rs: every branch of the tracepoints, and the sizes of the
-- arrays that they fill.
use k_sentry.Prelude.{
  ℕ, ◌≡◌, refl, ap, ◌∙◌, arith, Option, none, some, ◌>>=◌, List, length, length-append, length-take,
  length-drop, take, Bool-cases, inl, inr, ◌==◌,
}
use k_sentry.Live.{RawKernelEvent, event_exec}
use k_sentry.Probe.{zeros, write_bytes}
use k_sentry.Probe.Bounds.{write_ipv4_port-length}
use k_sentry.Probe.Overlay.{write_bytes-overlay}
use k_sentry.Probe.Handlers.{
  Context, Kernel, SockAddrIn, fill_common, comm_or, openat_event, sockaddr_target, connect_event,
  finish,
}
use k_sentry.Probe.Handlers.Ring.{Tracepoint, handle, attempt, handle-attempt}

-- What the documentation of the helpers says of their buffers: the name of a task has 16 bytes and
-- a text is read into the buffer that is given.
pub record Sizes (ctx : Context) : Type 0 where
  pub comm_size : length (comm_or ctx.comm (zeros 16)) ≡ 16
  pub string_size : (buffer : List ℕ) → length (ctx.user_string buffer) ≡ length buffer

-- The arrays of an event, where there is one.
unfoldable pub IsSized : Option RawKernelEvent → Type 0
IsSized none = Unit
IsSized (some event) = (length event.comm ≡ 16) × (length event.target ≡ 128)

length-write_bytes : (dst src : List ℕ) → length (write_bytes dst src) ≡ length dst
length-write_bytes dst src =
    rw
      (
        write_bytes-overlay dst src,
        length-append (take (length dst) src) _,
        length-take (length dst) src,
        length-drop (length src) dst,
      )
      (omega arith)

abbrev Returns : ℕ → Option (List ℕ) → Type 0
Returns n m = (target : List ℕ) × (m ≡ some target) × (length target ≡ n)

sockaddr_target-Returns :
    (sa : Option SockAddrIn) (target : List ℕ) → Returns (length target) (sockaddr_target sa target)
unfolding sockaddr_target
sockaddr_target-Returns none target = (_, refl, length-write_bytes target _)
sockaddr_target-Returns (some sa) target = elim (Bool-cases (sa.sin_family == 2)) [
  | inl inet ↦
      let (out, returns, size) = write_ipv4_port-length target sa.sin_addr sa.sin_port in
      rw inet (out, returns, size)
  | inr other ↦ rw other (_, refl, length-write_bytes target _)
]

module _ (ctx : Context) (sizes : Sizes ctx) where
  openat_event-IsSized : (argument : Option ℕ) → IsSized (openat_event ctx argument)
  unfolding openat_event IsSized fill_common
  openat_event-IsSized none = tt
  openat_event-IsSized (some ptr) = elim (Bool-cases (ptr == 0)) [
    | inl null ↦ rw null (sizes.comm_size, refl)
    | inr other ↦ rw other (sizes.comm_size, sizes.string_size (zeros 128))
  ]

  execve-IsSized : IsSized (some (fill_common event_exec ctx))
  unfolding IsSized fill_common
  execve-IsSized = (sizes.comm_size, refl)

  connect_event-IsSized :
      (argument : Option ℕ)
      → (event : Option RawKernelEvent) × (connect_event ctx argument ≡ some event) × IsSized event
  unfolding connect_event IsSized fill_common
  connect_event-IsSized none = (none, refl, tt)
  connect_event-IsSized (some ptr) = elim (Bool-cases (ptr == 0)) [
    | inl null ↦ rw null (some _, refl, (sizes.comm_size, length-write_bytes (zeros 128) _))
    | inr other ↦
        let (target, returns, size) = sockaddr_target-Returns ctx.sockaddr (zeros 128) in
        rw (other, returns) (some _, refl, (sizes.comm_size, size))
  ]

  attempt-IsSized :
      (t : Tracepoint)
      → (event : Option RawKernelEvent) × (attempt t ctx ≡ some event) × IsSized event
  unfolding attempt
  attempt-IsSized Tracepoint.execve = (some _, refl, execve-IsSized)
  attempt-IsSized Tracepoint.openat = (_, refl, openat_event-IsSized ctx.argument)
  attempt-IsSized Tracepoint.connect = connect_event-IsSized ctx.argument

  -- For helpers that keep the sizes of their buffers, each tracepoint returns in every state, the
  -- event that it fills, where there is one, has a name of 16 bytes and a target of 128 bytes, and the
  -- state and the result are those of sending that event.
  pub handle-returns :
      (key : ℕ) (t : Tracepoint) (k : Kernel)
      → (event : Option RawKernelEvent) × (attempt t ctx ≡ some event)
        × IsSized event
        × (handle key t ctx k ≡ some (finish key ctx event k))
  handle-returns key t k =
      let (event, filled, sized) = attempt-IsSized t in
      (
        event,
        filled,
        sized,
        handle-attempt key t ctx k ∙ ap (λ m. m >>= λ event. some (finish key ctx event k)) filled,
      )
