-- ===== src/Poller.antt =====
-- poller.go: a consumer without a goroutine.
pub mod Acknowledge
use disruptor_go.Prelude.{ℕ, List, Option, none, some, ltb, leb, if◌then◌else◌}
use disruptor_go.Int64.{max_int64, of_nat, add}
use disruptor_go.Errors.{Error, alerted, closed, nil_handler, Result, ok, err}
use disruptor_go.Heap.{Heap, load, store, new_sequence, initial_sequence}
use disruptor_go.Ring.{RingBuffer, apply_options, base_of, with_base, seq_highest_published}
use disruptor_go.Barrier.{SequenceBarrier, load_reader}
unfoldable pub use disruptor_go.Processor.Batch.{batch_end}
use disruptor_go.Processor.Batch.{Handler, process_batch}

-- PollIdle, PollGating and PollProcessing
pub data PollState : Type 0 where
  poll_idle poll_gating poll_processing : PollState

-- The fields of `EventPoller` but the ring, which an operation is given.
pub record EventPoller {ℓ κ} (T : Type ℓ) (X : Type κ) : Type (ℓ ⊔ κ) where
  pub barrier : SequenceBarrier
  pub handler : Handler T X
  pub sequence : ℕ
  pub max_batch_size : ℕ  -- int64

abbrev pub heap {ℓ} : {T : Type ℓ} → RingBuffer T → Heap
heap r = (base_of r.sequencer).heap

abbrev pub with_heap {ℓ} : {T : Type ℓ} → Heap → RingBuffer T → RingBuffer T
with_heap h r = record r {
  sequencer = with_base (record (base_of r.sequencer) { heap = h }) r.sequencer;
}

abbrev pub Polled {ℓ κ} : Type ℓ → Type κ → Type (ℓ ⊔ κ)
Polled T X = PollState × Option Error × RingBuffer T × X

module _ {ℓ κ} {T : Type ℓ} {X : Type κ} where
  -- `NewEventPoller`, with the store that has its sequence; a handler of `none` is nil.
  unfoldable pub new_event_poller :
      SequenceBarrier
      → Option (Handler T X)
      → List (ℕ → Result ℕ)
      → Heap
      → Result (EventPoller T X × Heap)
  unfolding apply_options new_sequence
  new_event_poller barrier none options h = err nil_handler
  new_event_poller barrier (some f) options h = elim (apply_options options max_int64) [
    | err e ↦ err e
    | ok size ↦
        (let (sequence, h') = new_sequence initial_sequence h in
          ok (
            record { barrier = barrier; handler = f; sequence = sequence; max_batch_size = size },
            h',
          ))
  ]

  -- The end of `Poll`: a batch is acknowledged if all of it was handled.
  abbrev pub acknowledge : EventPoller T X → ℕ → RingBuffer T → Option Error × X → Polled T X
  acknowledge p end r (some e, x) = (poll_processing, some e, r, x)
  acknowledge p end r (none, x) =
      (poll_processing, none, with_heap (store p.sequence end (heap r)) r, x)

  unfoldable pub run_batch : EventPoller T X → ℕ → ℕ → RingBuffer T → X → Polled T X
  run_batch p next end r x = acknowledge p end r (process_batch r p.handler next end x)

  -- Poll
  unfoldable pub poll : EventPoller T X → RingBuffer T → X → Polled T X
  unfolding run_batch batch_end
  poll p r x =
      let next = add (load p.sequence (heap r)) (of_nat 1) in
      let producer_available = load p.barrier.cursor (heap r) in
      let dependent_available = load_reader (heap r) p.barrier.dependent in
      let available = seq_highest_published r.sequencer next dependent_available in
      let is_closed = (base_of r.sequencer).is_closed in
      if p.barrier.is_alerted
      then (poll_idle, some alerted, r, x)
      else if ltb dependent_available next
      then (if is_closed
          then (poll_idle, some closed, r, x)
          else if leb next producer_available
          then (poll_gating, none, r, x)
          else (poll_idle, none, r, x))
      else if ltb available next
      then (if is_closed then (poll_idle, some closed, r, x) else (poll_gating, none, r, x))
      else run_batch p next (batch_end p.max_batch_size next available) r x
