-- ===== src/Multi/Atomic/Whole.antt =====
-- sequencer_multi.go: whole operations as runs of atomic ones.
use disruptor_go.Prelude.{
  ℕ, zero, suc, ◌+◌, ◌-◌, ◌^◌, ◌≤◌, ◌<◌, ◌≡◌, ◌≢◌, refl, ap, subst, ◌∙◌, false, arith, ◌==◌,
  if◌then◌else◌, ltb, le→ltb,
}
use disruptor_go.Int64.{of_nat, add}
use disruptor_go.Publication.{unresolved, published, discarded}
use disruptor_go.Multi
use disruptor_go.Multi.{
  MultiProducerSequencer, prepare_loop, prepare_one, resolve_loop, resolve_one,
}
use disruptor_go.Multi.Atomic.{
  Phase, System, goes, idle, preparing, holding, resolving, prepared_upto, resolved_upto, Step,
}
use disruptor_go.Multi.Atomic.Turns.{update_self, update_other}

-- Atomic operations one after the other.
pub data Run (k : ℕ) : System → System → Type 0 where
  stay : {y : System} → Run k y y
  move : {y y' y'' : System} → Step k y y' → Run k y' y'' → Run k y y''

-- A run of the producer `i` alone, to a ring and a phase.
pub record Ran (k i : ℕ) (y : System) (s : MultiProducerSequencer) (ph : Phase) : Type 0 where
  pub to : System
  pub run : Run k y to
  pub ring : to.ring ≡ s
  pub is : to.phases i ≡ ph
  pub others : (j : ℕ) → i ≢ j → to.phases j ≡ y.phases j

-- One step, and a run from where it leads.
pub after_step :
    {k i : ℕ} {y : System} {s s' : MultiProducerSequencer} (ph : Phase) {ph' : Phase}
    → Step k y (goes i ph s y)
    → Ran k i (goes i ph s y) s' ph'
    → Ran k i y s' ph'
after_step {k} {i} {y} ph step r = record {
  to = r.to;
  run = Run.move step r.run;
  ring = r.ring;
  is = r.is;
  others = λ j n. r.others j n ∙ update_other y.phases i _ j n;
}

-- One step alone.
one_step :
    {k i : ℕ} {y : System} {s : MultiProducerSequencer} {ph : Phase}
    → Step k y (goes i ph s y)
    → Ran k i y s ph
one_step {k} {i} {y} {s} {ph} step = record {
  to = goes i ph s y;
  run = Run.move step Run.stay;
  ring = refl;
  is = update_self y.phases i ph;
  others = update_other y.phases i ph;
}

-- What a producer holds after the resolution of its range up to `mid`.
abbrev pub left_over : ℕ → ℕ → Phase
left_over mid high = if mid == high then idle else holding (mid + 1) high

resolve_loop-Ran :
    {k : ℕ} (n : ℕ) (y : System) (i at mid high x : ℕ)
    → at + n ≡ mid
    → mid < of_nat (2 ^ 62)
    → y.phases i ≡ resolving at mid high x
    → Ran k i y (resolve_loop x (suc n) at y.ring) (left_over mid high)
unfolding resolve_loop
resolve_loop-Ran zero y i at mid high x e few was =
    let here : resolved_upto at mid high x ≡ left_over mid high = ground arith in
    subst (Ran _ i y (resolve_one x at y.ring)) here (one_step (Step.resolve i at mid high x was))
resolve_loop-Ran {k} (suc n) y i at mid high x e few was =
    let on : resolved_upto at mid high x ≡ resolving (at + 1) mid high x = ground arith in
    let next : add at (of_nat 1) ≡ at + 1 = omega arith in
    rw next (
      after_step _ (Step.resolve i at mid high x was) (
        resolve_loop-Ran n (goes i (resolved_upto at mid high x) (resolve_one x at y.ring) y) i
          (at + 1) mid high x (omega arith) few (update_self y.phases i _ ∙ on)))

-- A `resolve` of what a producer holds, up to some sequence of it.
resolve-Ran :
    {k : ℕ} (y : System) (i low mid high x : ℕ)
    → y.phases i ≡ holding low high
    → low ≤ mid
    → mid ≤ high
    → mid < of_nat (2 ^ 62)
    → x ≢ unresolved
    → x < 3
    → Ran k i y (Multi.resolve low mid x y.ring) (left_over mid high)
unfolding Multi.resolve
resolve-Ran {k} y i low mid high x was up below few nx hx =
    let some_at_least : ltb mid low ≡ false = le→ltb mid low up in
    let rounds : mid - low + 1 ≡ suc (mid - low) = omega arith in
    rw (some_at_least, rounds)
      (after_step _ (Step.publish i low mid high x was up below nx hx) (
        resolve_loop-Ran (mid - low) (goes i (resolving low mid high x) y.ring y) i low mid high x
          (omega arith) few (update_self y.phases i _)))

prepare_loop-Ran :
    {k : ℕ} (n : ℕ) (y : System) (i low at high : ℕ)
    → at + n ≡ high
    → high < of_nat (2 ^ 62)
    → y.phases i ≡ preparing low at high
    → Ran k i y (prepare_loop (suc n) at y.ring) (holding low high)
unfolding prepare_loop
prepare_loop-Ran zero y i low at high e few was =
    let here : prepared_upto low at high ≡ holding low high = ground arith in
    subst (Ran _ i y (prepare_one at y.ring)) here (one_step (Step.prepare i low at high was))
prepare_loop-Ran {k} (suc n) y i low at high e few was =
    let on : prepared_upto low at high ≡ preparing low (at + 1) high = ground arith in
    let next : add at (of_nat 1) ≡ at + 1 = omega arith in
    rw next (
      after_step _ (Step.prepare i low at high was) (
        prepare_loop-Ran n (goes i (prepared_upto low at high) (prepare_one at y.ring) y) i low
          (at + 1) high (omega arith) few (update_self y.phases i _ ∙ on)))

-- A `prepare` of the range that a producer has claimed.
pub prepare-Ran :
    {k : ℕ} (y : System) (i low high : ℕ)
    → y.phases i ≡ preparing low low high
    → low ≤ high
    → high < of_nat (2 ^ 62)
    → Ran k i y (Multi.prepare low high y.ring) (holding low high)
unfolding Multi.prepare
prepare-Ran y i low high was up few =
    let some_at_least : ltb high low ≡ false = le→ltb high low up in
    let rounds : high - low + 1 ≡ suc (high - low) = omega arith in
    rw (some_at_least, rounds)
      (prepare_loop-Ran (high - low) y i low low high (omega arith) few was)

run-step : {k : ℕ} {y y' y'' : System} → Run k y y' → Step k y' y'' → Run k y y''
run-step stay step = Run.move step Run.stay
run-step (move first rest) step = Run.move first (run-step rest step)

-- A signal at the end of a run.
and_signal :
    {k i : ℕ} {y : System} {s : MultiProducerSequencer} {ph : Phase}
    → Ran k i y s ph
    → Ran k i y (Multi.signal s) ph
and_signal {k} {i} {y} {s} r = record {
  to = record r.to { ring = Multi.signal r.to.ring };
  run = run-step r.run Step.signal;
  ring = ap Multi.signal r.ring;
  is = r.is;
  others = r.others;
}

-- `Publish` and `Discard`, of what a producer holds from its low end on, are runs of atomic
-- operations of that producer and a signal, after which it holds what is left.
pub publish-discard-Ran :
    {k : ℕ} (y : System) (i low mid high : ℕ)
    → y.phases i ≡ holding low high
    → low ≤ mid
    → mid ≤ high
    → mid < of_nat (2 ^ 62)
    → Ran k i y (Multi.publish low mid y.ring) (left_over mid high)
      × Ran k i y (Multi.discard low mid y.ring) (left_over mid high)
unfolding Multi.publish Multi.discard
publish-discard-Ran y i low mid high was up below few = (
  and_signal (resolve-Ran y i low mid high published was up below few (λ e. cc) (omega arith)),
  and_signal (resolve-Ran y i low mid high discarded was up below few (λ e. cc) (omega arith)),
)
