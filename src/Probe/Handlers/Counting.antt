-- ===== src/Probe/Handlers/Counting.antt =====
-- timefence-epbf/timefence_epbf/src/main.rs: the counter of lost events, which calls on several
-- processors load and store without a lock.
use mathlib.Core.Option.{some-injective}
use k_sentry.Prelude.{
  ℕ, zero, suc, ◌+◌, ◌%◌, ◌^◌, ◌≤◌, ◌<◌, ◌≡◌, refl, sym, ap, ◌∙◌, arith, subst, Option, none, some,
  List, [], ◌∷◌, ◌++◌, length, length-append, get_elem?, set, All, Bool-cases, inl, inr,
}
use k_sentry.Field.{u64}
use k_sentry.Live.{RawKernelEvent}
use k_sentry.Probe.Handlers.{
  Context, Kernel, emit_event, count_ringbuf_output_failure, finish, add_one, load_counter,
  store_counter,
}
use k_sentry.Probe.Handlers.Ring.{rejected}

-- What the entries of the map say of the number of lost events: where no call was interrupted at its
-- count the counter is that number modulo 2 ^ 64, and else at most that number.
abbrev pub Counts : ℕ → List ℕ → ℕ → Type 0
Counts zero failures lost = failures ≡ lost % 2 ^ 64 ∷ []
Counts (suc interrupted) failures lost = (c : ℕ) × (failures ≡ c ∷ []) × (c ≤ lost)

abbrev ExactIf : ℕ → ℕ → ℕ → Type 0
ExactIf zero c lost = c ≡ lost % 2 ^ 64
ExactIf (suc interrupted) c lost = Unit

-- The counter and the counts that are under way stay behind the number of lost events.
pub record IsCounted (failures : List ℕ) (late : ℕ) (loads : List ℕ) (lost interrupted : ℕ)
    : Type 0 where
  pub counter : ℕ
  pub stands : failures ≡ counter ∷ []
  pub behind : counter + late ≤ lost
  pub loads_behind : All (λ v. v + 1 + late ≤ lost) loads
  pub under_way : late + length loads ≤ interrupted
  pub exact : ExactIf interrupted counter lost

loads_mono :
    (a b a2 b2 : ℕ) (loads : List ℕ)
    → a2 + b ≤ b2 + a
    → All (λ v. v + 1 + a ≤ b) loads
    → All (λ v. v + 1 + a2 ≤ b2) loads
loads_mono a b a2 b2 [] h all = tt
loads_mono a b a2 b2 (v ∷ loads) h all = (omega (arith, all.0), loads_mono a b a2 b2 loads h all.1)

-- The load that is taken out, and the others.
loads_without :
    (a b : ℕ) (left : List ℕ) (v : ℕ) (right : List ℕ)
    → All (λ v. v + 1 + a ≤ b) (left ++ v ∷ right)
    → (v + 1 + a ≤ b) × All (λ v. v + 1 + a ≤ b) (left ++ right)
loads_without a b [] v right all = all
loads_without a b (x ∷ left) v right all =
    let (at, others) = loads_without a b left v right all.1 in (at, (all.0, others))

exact_next :
    (interrupted c lost : ℕ)
    → ExactIf interrupted c lost
    → ExactIf interrupted (u64 (c + 1)) (lost + 1)
exact_next zero c lost h = omega (arith, h)
exact_next (suc interrupted) c lost h = tt

exact_interrupted : (interrupted c lost : ℕ) → 0 < interrupted → ExactIf interrupted c lost
exact_interrupted zero c lost h = absurd (omega arith)
exact_interrupted (suc interrupted) c lost h = tt

-- A store right after its load is a whole count.
pub store_counter-count :
    (key counter : ℕ) (k : Kernel)
    → load_counter key k ≡ some counter
    → store_counter key counter k ≡ count_ringbuf_output_failure key k
unfolding load_counter store_counter count_ringbuf_output_failure add_one
store_counter-count key counter k loaded = rw loaded

u64_le : (n : ℕ) → u64 n ≤ n
u64_le n = omega arith

pub loaded-IsCounted : IsCounted (0 ∷ []) 0 [] 0 0
loaded-IsCounted = record {
  counter = 0;
  stands = refl;
  behind = omega arith;
  loads_behind = tt;
  under_way = omega arith;
  exact = omega arith;
}

module _ (failures : List ℕ) (late : ℕ) (loads : List ℕ) (lost interrupted : ℕ)
    (h : IsCounted failures late loads lost interrupted) where
  -- A whole count.
  add_one-IsCounted :
      IsCounted (add_one (get_elem? failures 0) 0 failures) late loads (lost + 1) interrupted
  unfolding add_one
  add_one-IsCounted = record {
    counter = u64 (h.counter + 1);
    stands = rw h.stands refl;
    behind = omega (arith, h.behind, u64_le (h.counter + 1));
    loads_behind = loads_mono late lost late (lost + 1) loads (omega arith) h.loads_behind;
    under_way = h.under_way;
    exact = exact_next interrupted h.counter lost h.exact;
  }

  pub refuse-IsCounted : IsCounted failures (suc late) loads (suc lost) (suc interrupted)
  refuse-IsCounted = record {
    counter = h.counter;
    stands = h.stands;
    behind = omega (arith, h.behind);
    loads_behind = loads_mono late lost (suc late) (suc lost) loads (omega arith) h.loads_behind;
    under_way = omega (arith, h.under_way);
    exact = tt;
  }

pub read-IsCounted :
    (failures : List ℕ) (late v : ℕ) (loads : List ℕ) (lost interrupted : ℕ)
    → get_elem? failures 0 ≡ some v
    → IsCounted failures (suc late) loads lost interrupted
    → IsCounted failures late (v ∷ loads) lost interrupted
read-IsCounted failures late v loads lost interrupted loaded h =
    let same : h.counter ≡ v =
      some-injective _ _ (sym (ap (λ (l : List ℕ). get_elem? l 0) h.stands) ∙ loaded) in
    record {
      counter = h.counter;
      stands = h.stands;
      behind = omega (arith, h.behind);
      loads_behind = (
        omega (arith, h.behind, same),
        loads_mono (suc late) lost late lost loads (omega arith) h.loads_behind,
      );
      under_way = omega (arith, h.under_way);
      exact = h.exact;
    }

pub write-IsCounted :
    (failures : List ℕ) (late : ℕ) (left : List ℕ) (v : ℕ) (right : List ℕ) (lost interrupted : ℕ)
    → IsCounted failures late (left ++ v ∷ right) lost interrupted
    → IsCounted (set failures 0 (u64 (v + 1))) late (left ++ right) lost interrupted
write-IsCounted failures late left v right lost interrupted h =
    let (at, others) = loads_without late lost left v right h.loads_behind in
    record {
      counter = u64 (v + 1);
      stands = rw h.stands refl;
      behind = omega (arith, at, u64_le (v + 1));
      loads_behind = others;
      under_way =
          omega (arith, h.under_way, length-append left (v ∷ right), length-append left right);
      exact =
          exact_interrupted interrupted (u64 (v + 1)) lost
            (omega (arith, h.under_way, length-append left (v ∷ right)));
    }

pub finish-IsCounted :
    (ctx : Context) (event : Option RawKernelEvent) (k : Kernel) (late : ℕ) (loads : List ℕ)
    (lost interrupted : ℕ)
    → IsCounted k.failures late loads lost interrupted
    → IsCounted
        (finish 0 ctx event k).0.failures
        late
        loads
        (lost + rejected ctx.output_ok event)
        interrupted
unfolding finish emit_event count_ringbuf_output_failure rejected
finish-IsCounted ctx none k late loads lost interrupted h =
    subst (λ (n : ℕ). IsCounted k.failures late loads n interrupted) (omega arith) h
finish-IsCounted ctx (some event) k late loads lost interrupted h =
    elim (Bool-cases ctx.output_ok) [
      | inl taken ↦
          rw taken
            (subst (λ (n : ℕ). IsCounted k.failures late loads n interrupted) (omega arith) h)
      | inr full ↦ rw full (add_one-IsCounted k.failures late loads lost interrupted h)
    ]

pub IsCounted-Counts :
    (failures : List ℕ) (late : ℕ) (loads : List ℕ) (lost interrupted : ℕ)
    → IsCounted failures late loads lost interrupted
    → Counts interrupted failures lost
IsCounted-Counts failures late loads lost zero h = h.stands ∙ ap (λ (n : ℕ). n ∷ []) h.exact
IsCounted-Counts failures late loads lost (suc interrupted) h =
    (h.counter, h.stands, omega (arith, h.behind))
