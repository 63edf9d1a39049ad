-- ===== src/Tests/Processors.antt =====
-- The theorems on the runs of a processor, at concrete states.
use disruptor_go.Prelude.{ℕ, refl, true, false, [], ◌∷◌, inr}
use disruptor_go.Int64.{of_nat}
use disruptor_go.Sequencer.{busy_spin_wait}
use disruptor_go.Barrier.{SequenceBarrier, one}
use disruptor_go.Processor.Run.{BatchProcessor, World, Episode, running, halted}
use disruptor_go.Processor.Life.{
  Life, Reachable, fresh, then, enter, clear, begin, halt, here, looping,
}
use disruptor_go.Processor.Lifetime.{IsSound, Reachable-IsSound}
use disruptor_go.Tests.{quiet}
use disruptor_go.Tests.Consumers.{ring, counter}

-- A processor of at most two events that has handled the events up to 2.
abbrev processor : BatchProcessor ℕ ℕ
processor = record { handler = counter; sequence = 3; max_batch_size = of_nat 2 }

abbrev publications : SequenceBarrier
publications = record { wait = busy_spin_wait; cursor = 0; dependent = one 0; is_alerted = false }

abbrev world : World ℕ ℕ
world = record { ring = ring; barrier = publications; state = running; user = 0 }

-- A round in which nobody disturbs the processor, and one in which it is halted.
abbrev peaceful : Episode ℕ ℕ
peaceful = record { before = λ w. w; ctx_done = false; waits = quiet ∷ []; after = λ w. w }

abbrev halting : Episode ℕ ℕ
halting = record {
  before = λ w. record w { state = halted; barrier = record w.barrier { is_alerted = true } };
  ctx_done = false;
  waits = quiet ∷ [];
  after = λ w. w;
}

-- A processor that runs and is halted, before the barrier is alerted.
abbrev halted_life : Life
halted_life = record { state = halted; is_alerted = false; runs = looping ∷ []; halts = 1 }

halted_life-Reachable : Reachable halted_life
halted_life-Reachable =
    then (then (then (then (fresh false) (enter refl)) (clear here)) (begin refl here))
      (halt (inr refl))

Reachable-IsSound_example : IsSound halted_life
Reachable-IsSound_example = Reachable-IsSound halted_life halted_life-Reachable
