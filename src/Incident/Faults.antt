-- ===== src/Incident/Faults.antt =====
-- Which faults the cases of timefence-core/src/incident.rs show, whatever the hash function is.
use mathlib.Core.Option.{some-injective}
use native.Mathlib.Nat.{mod-eq_of_lt}
use k_sentry.Prelude.{
  ℕ, ◌+◌, ◌-◌, ◌*◌, ◌%◌, ◌^◌, ◌≤◌, ◌<◌, ◌≡◌, ◌≢◌, ◌↔◌, refl, sym, ap, ◌∙◌, arith, String, some,
  List, [], ◌∷◌, map, length, length-take, take,
}
use k_sentry.Field.{u64, Fits}
use k_sentry.KSentry.{digest_of}
use k_sentry.KSentry.Exact.{digest_of-exact}
use k_sentry.KSentry.Sensitive.{swap-detected}
use k_sentry.Checkpoint.Mismatch.{CheckpointMismatch}
use k_sentry.Verifier.{clean, metadata_mismatch}
use k_sentry.Events.{TelemetryEvent}
use k_sentry.Fault.Kind.{FaultKind}
use k_sentry.Fault.{truncate_tail}
use k_sentry.Fault.Effect.{drop_one-at, duplicate_one-at, swap_adjacent-at}
use k_sentry.Incident.{IncidentCase, inject_event_fault, build_case}
use k_sentry.Incident.Classify.{verdict, field, digest_value, build_case-verdict}

-- The faults that change the number of events.
abbrev pub ChangesLength : FaultKind → Type 0
ChangesLength FaultKind.drop_one = Unit
ChangesLength FaultKind.duplicate_one = Unit
ChangesLength FaultKind.truncate_tail = Unit
ChangesLength other = ⊥

verdict-length :
    (l1 l2 d1 d2 : ℕ) → l1 ≢ l2 → verdict l1 l2 d1 d2 ≡ metadata_mismatch CheckpointMismatch.length
verdict-length l1 l2 d1 d2 h = ground (arith, h)

verdict-clean_iff : (l d1 d2 : ℕ) → (verdict l l d1 d2 ≡ clean) ↔ (d1 ≡ d2)
verdict-clean_iff l d1 d2 = ground arith

-- The events behind a fault that changes their number: of another number, below 2 ^ 64.
length-changed :
    (e0 e1 : TelemetryEvent) (es : List TelemetryEvent) (fault : FaultKind)
    → ChangesLength fault
    → (observed : List TelemetryEvent) × (inject_event_fault (e0 ∷ e1 ∷ es) fault ≡ some observed)
      × (length observed ≢ length (e0 ∷ e1 ∷ es))
      × (length observed ≤ length (e0 ∷ e1 ∷ es) + 1)
unfolding inject_event_fault truncate_tail
length-changed e0 e1 es FaultKind.drop_one h =
    (e0 ∷ es, ap (λ l. some l) (drop_one-at (e0 ∷ []) e1 es), λ e. omega arith, omega arith)
length-changed e0 e1 es FaultKind.duplicate_one h = (
  e0 ∷ e1 ∷ e1 ∷ es,
  ap (λ l. some l) (duplicate_one-at (e0 ∷ []) e1 es),
  λ e. omega arith,
  omega arith,
)
length-changed e0 e1 es FaultKind.truncate_tail h =
    let n = length-take (length (e0 ∷ e1 ∷ es) - 1) (e0 ∷ e1 ∷ es) in
    (
      take (length (e0 ∷ e1 ∷ es) - 1) (e0 ∷ e1 ∷ es),
      refl,
      λ e. omega (arith, n, e),
      omega (arith, n),
    )
length-changed e0 e1 es FaultKind.none h = absurd h
length-changed e0 e1 es FaultKind.swap_adjacent h = absurd h
length-changed e0 e1 es FaultKind.splice_old_prefix h = absurd h

module _ (hash : String → ℕ) {p : ℕ} (fits : Fits p) (q : ℕ) (hq : 0 < q) where
  -- For a modulus of 2 to 2 ^ 64, a base that is not 0 and any hash function, a case without a
  -- fault returns, and its report is clean.
  pub build_case-clean :
      (name : String) (es : List TelemetryEvent)
      → (c : IncidentCase) × (build_case hash name es FaultKind.none q p ≡ some c)
        × (c.report.status ≡ clean)
  build_case-clean name es =
      let r =
        build_case-verdict hash fits q hq name es es FaultKind.none
          (unfold inject_event_fault in refl) in
      (r.0, r.1, r.2 ∙ (verdict-clean_iff (u64 (length es)) _ _).1 refl)

  -- For a modulus of 2 to 2 ^ 64, a base that is not 0 and any hash function, a case with a fault that
  -- drops, repeats or cuts off an event, of 2 to 2 ^ 64 - 2 events, returns, and its report is a
  -- mismatch of lengths.
  pub build_case-length :
      (name : String) (e0 e1 : TelemetryEvent) (es : List TelemetryEvent) (fault : FaultKind)
      → ChangesLength fault
      → length es + 3 < 2 ^ 64
      → (c : IncidentCase) × (build_case hash name (e0 ∷ e1 ∷ es) fault q p ≡ some c)
        × (c.report.status ≡ metadata_mismatch CheckpointMismatch.length)
  build_case-length name e0 e1 es fault h bound =
      let o = length-changed e0 e1 es fault h in
      let r = build_case-verdict hash fits q hq name (e0 ∷ e1 ∷ es) o.0 fault o.1 in
      let before : u64 (length (e0 ∷ e1 ∷ es)) ≡ length (e0 ∷ e1 ∷ es) =
        mod-eq_of_lt (omega arith) in
      let after : u64 (length o.0) ≡ length o.0 = mod-eq_of_lt (omega (arith, o.3)) in
      (r.0, r.1, r.2 ∙ verdict-length _ _ _ _ (λ e. o.2 (sym after ∙ sym e ∙ before)))

  digests_iff :
      (xs ys : List TelemetryEvent)
      → (digest_value hash q p xs ≡ digest_value hash q p ys)
        ↔ (digest_of (map (field hash p) xs) q p ≡ digest_of (map (field hash p) ys) q p)
  digests_iff xs ys =
      rw
        (
          digest_of-exact fits q (map (field hash p) xs) hq,
          digest_of-exact fits q (map (field hash p) ys) hq,
        )
        (λ e. ap (λ (t : ℕ). some t) e, some-injective _ _)

  -- For a modulus of 2 to 2 ^ 64, any hash function and a base that is not 0 and is invertible modulo
  -- `p`, a case with an exchange returns, and the exchange of the
  -- second and the third of at least 3 events escapes, with a clean report, exactly when their field
  -- elements x and y have x + y * q ^ 2 and y + x * q ^ 2 equal modulo `p`.
  pub build_case-swap_iff :
      (name : String) (r : ℕ) (e0 e1 e2 : TelemetryEvent) (es : List TelemetryEvent)
      → q * r % p ≡ 1
      → (c : IncidentCase) × (build_case hash name (e0 ∷ e1 ∷ e2 ∷ es) FaultKind.swap_adjacent q p
          ≡ some c)
        × ((c.report.status ≡ clean) ↔ (
            (field hash p e1 + field hash p e2 * q ^ 2) % p
            ≡ (field hash p e2 + field hash p e1 * q ^ 2) % p))
  build_case-swap_iff name r e0 e1 e2 es inverse =
      let x = field hash p e1 in
      let y = field hash p e2 in
      let exchanged = swap_adjacent-at (e0 ∷ []) e1 e2 es in
      let c =
        build_case-verdict hash fits q hq name (e0 ∷ e1 ∷ e2 ∷ es) (e0 ∷ e2 ∷ e1 ∷ es)
          FaultKind.swap_adjacent (unfold inject_event_fault in exchanged) in
      let swapped =
        swap-detected fits q r hq inverse (field hash p e0 ∷ []) x y (map (field hash p) es) in
      let digests = digests_iff (e0 ∷ e1 ∷ e2 ∷ es) (e0 ∷ e2 ∷ e1 ∷ es) in
      let reported =
        verdict-clean_iff (u64 (length (e0 ∷ e1 ∷ e2 ∷ es)))
          (digest_value hash q p (e0 ∷ e1 ∷ e2 ∷ es)) (digest_value hash q p (e0 ∷ e2 ∷ e1 ∷ es)) in
      (
        c.0,
        c.1,
        (
          λ e. swapped.0 (digests.0 (reported.0 (sym c.2 ∙ e))),
          λ e. c.2 ∙ reported.1 (digests.1 (swapped.1 e)),
        ),
      )
