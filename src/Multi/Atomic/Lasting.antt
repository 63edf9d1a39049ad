-- ===== src/Multi/Atomic/Lasting.antt =====
-- sequencer_multi.go: what no order of atomic operations breaks.
use disruptor_go.Prelude.{
  ℕ, ◌+◌, ◌^◌, ◌≤◌, ◌<◌, ◌≡◌, ◌↔◌, refl, subst, true, false, inl, inr, All, All-map₂, arith, Option,
  [], ◌∷◌, Bool-cases,
}
use disruptor_go.Heap.{Heap, load}
use disruptor_go.Multi.{MultiProducerSequencer, with_heap, index, is_available}
use disruptor_go.Multi.Slots.{InRange, eq_of_index}
use disruptor_go.Multi.Safety.{cursor_of}
use disruptor_go.Multi.Atomic.{
  Phase, System, owes, unprepared, goes, idle, looking, scanning, aiming, least_of, store_cache,
  Step, IsStart, Reachable, Step.read_cursor, Step.trust_cache, Step.distrust_cache, Step.read_gate,
  Step.wait, Step.give_up, Step.make_room, Step.lose, Step.win, Step.prepare, Step.publish,
  Step.resolve, Step.consume, Step.signal, Reachable.start, Reachable.step,
}
use disruptor_go.Multi.Atomic.Fits.{Fits, Fits-Later}
use disruptor_go.Multi.Atomic.Sound.{IsSound, Owed, Owed-InWindow, InWindow}
use disruptor_go.Multi.Atomic.Calm.{
  Calm, Calm-IsSound, own-Calm, signal-Calm, store_cache-Calm, consume-Calm,
}
use disruptor_go.Multi.Atomic.Aim.{
  look-Aims, room-All, cache-All, start-Scans, read-Scans, end-Scans,
}
use disruptor_go.Multi.Atomic.Turns.{update_self, update_other, win-IsSound}
use disruptor_go.Multi.Atomic.Written.{prepare-IsSound}
use disruptor_go.Multi.Atomic.Resolve.{resolve-IsSound}

start-IsSound :
    {k : ℕ} {s : MultiProducerSequencer}
    → IsStart k s
    → IsSound k (record { ring = s; phases = λ i. idle })
start-IsSound {k} {s} b = record {
  safe = b.safe;
  short = b.short;
  clean = b.clean;
  gated = b.gated;
  fits = λ i. tt;
  apart = λ i j q o o'. absurd (cc o);
  owed = λ i q o. absurd (cc o);
  settled = λ q w free. absurd (omega (arith, w.valid, w.behind, b.empty));
}

module _ {k : ℕ} {y : System} (sound : IsSound k y) where
  -- What a producer's phase says.
  phase-Fits : (i : ℕ) (ph : Phase) → y.phases i ≡ ph → Fits k y.ring ph
  phase-Fits i ph was = subst (Fits k y.ring) was (sound.fits i)

  -- A producer moves on from one phase in which it owes nothing to another.
  quiet :
      (i : ℕ) (ph ph' : Phase)
      → y.phases i ≡ ph
      → ((q : ℕ) → owes ph' q ≡ owes ph q)
      → ((q : ℕ) → unprepared ph' q ≡ unprepared ph q)
      → Fits k y.ring ph'
      → IsSound k (goes i ph' y.ring y)
  quiet i ph ph' was same ready fits =
      Calm-IsSound y.ring.heap i ph ph' sound refl was (update_self y.phases i _)
        (update_other y.phases i _) (own-Calm y.ring) same ready fits

  -- The same, where it stores the least gate.
  cached :
      (i current next : ℕ) (least : Option ℕ) (ph' : Phase)
      → y.phases i ≡ scanning current next least []
      → ((q : ℕ) → owes ph' q ≡ false)
      → ((q : ℕ) → unprepared ph' q ≡ false)
      → Fits k y.ring ph'
      → IsSound k (goes i ph' (store_cache (least_of current least) y.ring) y)
  cached i current next least ph' was free ready fits =
      let scan = phase-Fits i _ was in
      let calm =
        store_cache-Calm y.ring (least_of current least) sound.safe scan.1.above scan.1.below
          (end-Scans sound.safe sound.short current least scan.1) in
      Calm-IsSound _ i _ ph' sound refl was (update_self y.phases i _) (update_other y.phases i _)
        calm free ready (Fits-Later calm.later k ph' fits)

  -- A step that is no producer's.
  elsewhere : (h : Heap) → Calm k y.ring h → IsSound k (record y { ring = with_heap h y.ring })
  elsewhere h calm =
      Calm-IsSound h 0 (y.phases 0) (y.phases 0) sound refl refl refl (λ j n. refl) calm (λ q. refl)
        (λ q. refl) (Fits-Later calm.later k (y.phases 0) (sound.fits 0))

Step-IsSound : {k : ℕ} {y y' : System} → IsSound k y → Step k y y' → IsSound k y'
Step-IsSound sound (read_cursor i count was some_at_least at_most) =
    quiet sound i idle _ was (λ q. refl) (λ q. refl)
      (look-Aims sound.safe sound.short count sound.gated some_at_least at_most)
Step-IsSound {k} {y} sound (trust_cache i current next was enough) =
    let aim = phase-Fits sound i (looking current next) was in
    quiet sound i _ _ was (λ q. refl) (λ q. refl)
      (
        aim,
        room-All sound.safe sound.short (load y.ring.gate_cache y.ring.heap) aim (ground arith)
            (cache-All sound.safe sound.short),
      )
Step-IsSound sound (distrust_cache i current next was stale) =
    let aim = phase-Fits sound i (looking current next) was in
    quiet sound i _ _ was (λ q. refl) (λ q. refl) (aim, start-Scans sound.safe sound.short aim)
Step-IsSound sound (read_gate i current next least p ps was) =
    let scan = phase-Fits sound i (scanning current next least (p ∷ ps)) was in
    quiet sound i _ _ was (λ q. refl) (λ q. refl)
      (scan.0, read-Scans sound.safe sound.short current least p ps scan.1)
Step-IsSound sound (wait i current next least was full) =
    quiet sound i _ _ was (λ q. refl) (λ q. refl) tt
Step-IsSound sound (give_up i current next least was full) =
    cached sound i current next least idle was (λ q. refl) (λ q. refl) tt
Step-IsSound sound (make_room i current next least was enough) =
    let scan = phase-Fits sound i (scanning current next least []) was in
    cached sound i current next least (aiming current next) was (λ q. refl) (λ q. refl)
      (
        scan.0,
        room-All sound.safe sound.short (least_of current least) scan.0 enough
            (end-Scans sound.safe sound.short current least scan.1),
      )
Step-IsSound sound (lose i current next was moved) =
    quiet sound i _ _ was (λ q. refl) (λ q. refl) tt
Step-IsSound {k} {y} sound (win i current next was here short) =
    win-IsSound y i current next sound was here short
Step-IsSound {k} {y} sound (prepare i low at high was) = prepare-IsSound y i low at high sound was
Step-IsSound sound (publish i low mid high x was up below nx hx) =
    quiet sound i _ _ was (λ q. refl) (λ q. refl) (up, below, nx, hx)
Step-IsSound {k} {y} sound (resolve i at mid high x was) =
    resolve-IsSound y i at mid high x sound was
Step-IsSound {k} {y} sound (consume p v there up below available) =
    elsewhere sound _ (consume-Calm y.ring p v sound.safe there up below available)
Step-IsSound {k} {y} sound signal = elsewhere sound _ (signal-Calm y.ring)

pub Reachable-IsSound : {k : ℕ} {y : System} → Reachable k y → IsSound k y
Reachable-IsSound (start begins) = start-IsSound begins
Reachable-IsSound (step r next) = Step-IsSound (Reachable-IsSound r) next

-- From a safe ring with gates on, of which nothing is claimed, whatever the order of the atomic
-- operations of producers that stay a lap short of 2^62 events and of consumers that pass available
-- sequences alone: a sequence up to the cursor and less than a lap behind it is available exactly if
-- no producer has still to resolve it.
pub Reachable-available :
    {k : ℕ} {y : System}
    → Reachable k y
    → (q : ℕ) → InRange q
    → q ≤ cursor_of y.ring
    → cursor_of y.ring < q + 2 ^ k
    → (is_available y.ring q ≡ true) ↔ ((i : ℕ) → owes (y.phases i) q ≡ false)
unfolding is_available
Reachable-available {k} {y} r q valid behind near = (resolved, available)
  where
    sound : IsSound k y
    sound = Reachable-IsSound r

    resolved : is_available y.ring q ≡ true → (i : ℕ) → owes (y.phases i) q ≡ false
    resolved a i = elim (Bool-cases (owes (y.phases i) q)) [
      | inl owing ↦ ground (arith, (sound.owed i q owing).waiting)
      | inr free ↦ free
    ]

    available : ((i : ℕ) → owes (y.phases i) q ≡ false) → is_available y.ring q ≡ true
    available free =
        ground
          (arith, sound.settled q (record { valid = valid; behind = behind; near = near }) free)

-- From such a ring on, whatever the order of these operations: if two producers have sequences to resolve that
-- stand in one slot, then they are one producer and one sequence; no gate has reached it, and each
-- has passed the sequence a lap before it.
pub Reachable-slots :
    {k : ℕ} {y : System}
    → Reachable k y
    → (i j q r : ℕ) → owes (y.phases i) q ≡ true
    → owes (y.phases j) r ≡ true
    → index y.ring q ≡ index y.ring r
    → (i ≡ j)
      × (q ≡ r)
      × All (λ p. (load p y.ring.heap < q) × (q ≤ load p y.ring.heap + 2 ^ k)) y.ring.gating
Reachable-slots {k} {y} reached i j q r owing owing' slot = (
  sound.apart i j q owing (rw same owing'),
  same,
  All-map₂ y.ring.gating (λ p g a. (a, omega (arith, g.room, mine.behind))) sound.safe.guarded.gates
      mine.ahead,
)
  where
    sound : IsSound k y
    sound = Reachable-IsSound reached

    mine : Owed y.ring (unprepared (y.phases i) q) q
    mine = sound.owed i q owing

    here : InWindow k y.ring q
    here = Owed-InWindow q sound.safe sound.gated mine

    there : InWindow k y.ring r
    there = Owed-InWindow r sound.safe sound.gated (sound.owed j r owing')

    same : q ≡ r
    same =
        eq_of_index sound.safe.ring q r mine.valid there.valid
          (omega (arith, here.near, there.behind)) (omega (arith, there.near, here.behind)) slot
