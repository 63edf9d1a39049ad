-- ===== src/Tests/Turns.antt =====
-- The theorems on atomic operations, where one of two producers has published and one is to.
use disruptor_go.Prelude.{
  [], ◌∷◌, ℕ, ◌+◌, ◌^◌, ◌≤◌, ◌<◌, ◌≡◌, ◌↔◌, refl, true, false, replicate, All, arith,
}
use disruptor_go.Int64.{of_nat, minus_one}
use disruptor_go.Heap.{load, store_value}
use disruptor_go.Publication.{published, publication_value}
use disruptor_go.Multi.{
  publish, discard, MultiProducerSequencer, with_heap, prepare_one, resolve_one, is_available,
}
use disruptor_go.Multi.Safety.{IsSafe}
use disruptor_go.Ring.Fresh.{empty-IsClean}
use disruptor_go.Multi.Atomic.{
  System, idle, goes, owes, IsStart, Reachable, Step, looking, aiming, preparing, holding,
  resolving,
}
use disruptor_go.Sequencer.Waiting.{signalled}
use disruptor_go.Multi.Claim.{try_next}
use disruptor_go.Multi.Undisturbed.{undisturbed}
use disruptor_go.Multi.Atomic.Whole.{Ran, left_over, publish-discard-Ran}
use disruptor_go.Multi.Atomic.Claimed.{RanClaim, try_next-Ran}
use disruptor_go.Multi.Atomic.Lasting.{Reachable-available, Reachable-slots}
use disruptor_go.Tests.{half_full, store_of}

-- A ring of eight slots of which nothing is claimed, with a gate.
abbrev started : MultiProducerSequencer
started = record {
  base = record half_full { heap = store_of (λ p. minus_one) };
  gate_cache = 2;
  available = replicate 8 minus_one;
  index_mask = 7;
  index_shift = 3;
}

started-IsSafe : IsSafe 3 started
started-IsSafe = record {
  ring = record { mask = refl; shift = refl; slots = refl; size = refl; small = omega arith };
  guarded = record {
    cache_apart = omega arith;
    started = omega arith;
    cache_behind = omega arith;
    gates = (
      record {
        not_cursor = omega arith;
        not_cache = omega arith;
        cached = omega arith;
        behind = omega arith;
        room = omega arith;
      },
      tt,
    );
  };
}

started-IsStart : IsStart 3 started
started-IsStart = record {
  safe = started-IsSafe;
  short = omega arith;
  clean = empty-IsClean started-IsSafe.ring 8 refl;
  empty = refl;
  gated = λ e. absurd (cc e);
}

-- One producer claims the sequences 0 and 1, the other sequence 2; then the first publishes its own.
abbrev turn_0 : System
turn_0 = record { ring = started; phases = λ i. idle }

abbrev turn_1 : System
turn_1 = goes 0 (looking minus_one (of_nat 1)) turn_0.ring turn_0

abbrev turn_2 : System
turn_2 = goes 0 (aiming minus_one (of_nat 1)) turn_1.ring turn_1

abbrev turn_3 : System
turn_3 =
    goes 0 (preparing (of_nat 0) (of_nat 0) (of_nat 1))
      (with_heap (store_value 0 (of_nat 1) turn_2.ring.heap) turn_2.ring) turn_2

abbrev turn_4 : System
turn_4 = goes 1 (looking (of_nat 1) (of_nat 2)) turn_3.ring turn_3

abbrev turn_5 : System
turn_5 = goes 1 (aiming (of_nat 1) (of_nat 2)) turn_4.ring turn_4

abbrev turn_6 : System
turn_6 =
    goes 1 (preparing (of_nat 2) (of_nat 2) (of_nat 2))
      (with_heap (store_value 0 (of_nat 2) turn_5.ring.heap) turn_5.ring) turn_5

abbrev turn_7 : System
turn_7 =
    goes 0 (preparing (of_nat 0) (of_nat 1) (of_nat 1)) (prepare_one (of_nat 0) turn_6.ring) turn_6

abbrev turn_8 : System
turn_8 = goes 0 (holding (of_nat 0) (of_nat 1)) (prepare_one (of_nat 1) turn_7.ring) turn_7

abbrev turn_9 : System
turn_9 = goes 1 (holding (of_nat 2) (of_nat 2)) (prepare_one (of_nat 2) turn_8.ring) turn_8

abbrev turn_10 : System
turn_10 = goes 0 (resolving (of_nat 0) (of_nat 1) (of_nat 1) published) turn_9.ring turn_9

abbrev turn_11 : System
turn_11 =
    goes 0 (resolving (of_nat 1) (of_nat 1) (of_nat 1) published)
      (resolve_one published (of_nat 0) turn_10.ring) turn_10

abbrev turn_12 : System
turn_12 = goes 0 idle (resolve_one published (of_nat 1) turn_11.ring) turn_11

turn_3-Reachable : Reachable 3 turn_3
turn_3-Reachable =
    Reachable.step
      (Reachable.step
        (Reachable.step (Reachable.start started-IsStart)
          (Step.read_cursor 0 (of_nat 2) refl (omega arith) (omega arith)))
        (Step.trust_cache 0 minus_one (of_nat 1) refl refl))
      (Step.win 0 minus_one (of_nat 1) refl refl (omega arith))

turn_6-Reachable : Reachable 3 turn_6
turn_6-Reachable =
    Reachable.step
      (Reachable.step
        (Reachable.step turn_3-Reachable
          (Step.read_cursor 1 (of_nat 1) refl (omega arith) (omega arith)))
        (Step.trust_cache 1 (of_nat 1) (of_nat 2) refl refl))
      (Step.win 1 (of_nat 1) (of_nat 2) refl refl (omega arith))

turn_9-Reachable : Reachable 3 turn_9
unfolding prepare_one
turn_9-Reachable =
    Reachable.step
      (Reachable.step
        (Reachable.step turn_6-Reachable (Step.prepare 0 (of_nat 0) (of_nat 0) (of_nat 1) refl))
        (Step.prepare 0 (of_nat 0) (of_nat 1) (of_nat 1) refl))
      (Step.prepare 1 (of_nat 2) (of_nat 2) (of_nat 2) refl)

turn_12-Reachable : Reachable 3 turn_12
unfolding prepare_one resolve_one
turn_12-Reachable =
    Reachable.step
      (Reachable.step
        (Reachable.step turn_9-Reachable (
          Step.publish 0 (of_nat 0) (of_nat 1) (of_nat 1) published refl (omega arith) (omega arith)
            (λ e. absurd (cc e)) (omega arith)))
        (Step.resolve 0 (of_nat 0) (of_nat 1) (of_nat 1) published refl))
      (Step.resolve 0 (of_nat 1) (of_nat 1) (of_nat 1) published refl)

Reachable-available_example :
    (is_available turn_12.ring (of_nat 1) ≡ true)
    ↔ ((i : ℕ) → owes (turn_12.phases i) (of_nat 1) ≡ false)
unfolding prepare_one resolve_one publication_value
Reachable-available_example =
    Reachable-available turn_12-Reachable (of_nat 1) (omega arith, omega arith) (omega arith)
      (omega arith)

abbrev second : ℕ
second = 1

Reachable-slots_example :
    (second ≡ second)
    × (of_nat 2 ≡ of_nat 2)
    × All
        (λ p. (load p turn_12.ring.heap < of_nat 2) × (of_nat 2 ≤ load p turn_12.ring.heap + 2 ^ 3))
        turn_12.ring.gating
unfolding prepare_one resolve_one publication_value
Reachable-slots_example =
    Reachable-slots turn_12-Reachable second second (of_nat 2) (of_nat 2) refl refl refl

publish-discard-Ran_example :
    Ran 3 0 turn_9 (publish (of_nat 0) (of_nat 0) turn_9.ring) (left_over (of_nat 0) (of_nat 1))
    × Ran 3 0 turn_9 (discard (of_nat 0) (of_nat 0) turn_9.ring) (left_over (of_nat 0) (of_nat 1))
publish-discard-Ran_example =
    publish-discard-Ran turn_9 0 (of_nat 0) (of_nat 0) (of_nat 1) refl (omega arith) (omega arith)
      (omega arith)

try_next-Ran_example :
    RanClaim 3 0 turn_0 (try_next (undisturbed false signalled ∷ []) (of_nat 2) turn_0.ring)
try_next-Ran_example =
    try_next-Ran turn_0 0 (of_nat 2) false signalled refl started-IsSafe (omega arith) (omega arith)
