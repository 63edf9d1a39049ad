-- ===== src/Tests/Consumers.antt =====
-- The theorems on batches and polls, at concrete states.
use disruptor_go.Prelude.{◌∷◌, [], ℕ, ◌+◌, ◌-◌, ◌≡◌, true, false, arith, replicate}
use disruptor_go.Int64.{of_nat}
use disruptor_go.Ring.{RingBuffer, multi, done}
use disruptor_go.Barrier.{one}
use disruptor_go.Sequencer.{busy_spin_wait}
use disruptor_go.Processor.Batch.{Handler, process_batch}
use disruptor_go.Processor.Delivery.{survivors, mark_last, deliver, process_batch-deliver}
use disruptor_go.Poller.{EventPoller}
use disruptor_go.Tests.{many_producers, quiet}
use disruptor_go.Barrier.Waiting.{View, wait_for}
use disruptor_go.Barrier.Awaited.{Delivered, wait_for-Delivered}

abbrev pub ring : RingBuffer ℕ
ring = record {
  entries = replicate 8 0;
  index_mask = 7;
  sequencer = multi many_producers;
  discarded = true;
}

-- It counts its calls.
abbrev pub counter : Handler ℕ ℕ
counter event sequence end_of_batch calls = (done, calls + 1)

-- A poller of at most four events, at the gate.
abbrev poller : EventPoller ℕ ℕ
poller = record {
  barrier = record { wait = busy_spin_wait; cursor = 0; dependent = one 0; is_alerted = false };
  handler = counter;
  sequence = 2;
  max_batch_size = of_nat 2;
}

process_batch-deliver_example :
    process_batch ring counter (of_nat 3) (of_nat 5) 0
    ≡ deliver ring counter (mark_last (survivors ring (of_nat 5 + 1 - of_nat 3) (of_nat 3))) 0
process_batch-deliver_example =
    process_batch-deliver ring counter (of_nat 3) (of_nat 5) 0 (omega arith) (omega arith)
      (omega arith) (λ e. ground (arith, e))

-- A consumer that waits for the next event, on the publications alone.
abbrev reading : View
reading = record {
  sequencer = multi many_producers;
  barrier = record { wait = busy_spin_wait; cursor = 0; dependent = one 0; is_alerted = false };
}

wait_for-Delivered_example :
    Delivered (quiet ∷ []) (of_nat 3) (wait_for (quiet ∷ []) (of_nat 3) reading)
wait_for-Delivered_example = wait_for-Delivered (quiet ∷ []) (of_nat 3) reading
