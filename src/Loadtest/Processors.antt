-- ===== src/Loadtest/Processors.antt =====
-- cmd/loadtest/runner.go: `startProcessors`.
--
-- The processors are set up before any event is published, so what their goroutines do meanwhile
-- moves nothing.
use disruptor_go.Prelude.{
  ℕ, zero, suc, ◌+◌, ◌-◌, ◌/◌, Bool, true, false, ◌&&◌, ◌||◌, not, ◌==◌, ltb, if◌then◌else◌, List,
  [], ◌∷◌, map, Option, none, some,
}
use disruptor_go.Int64.{of_nat, add, sub}
use disruptor_go.Errors.{Result, ok, err}
use disruptor_go.Sequencer.{SequencerBase}
use disruptor_go.Ring.{RingBuffer, base_of, add_gates}
use disruptor_go.Barrier.{SequenceBarrier, new_barrier}
use disruptor_go.Processor.Batch.{Handler}
use disruptor_go.Processor.Run.{BatchProcessor, new_batch_processor, with_max_batch_size}
use disruptor_go.Poller.{heap, with_heap}

-- A processor, with the barrier that it is given.
pub record Started {ℓ κ} (T : Type ℓ) (X : Type κ) : Type (ℓ ⊔ κ) where
  pub barrier : SequenceBarrier
  pub processor : BatchProcessor T X

-- The processors of `processorSet` and their terminal sequences.
pub record ProcessorSet {ℓ κ} (T : Type ℓ) (X : Type κ) : Type (ℓ ⊔ κ) where
  pub processors : List (Started T X)
  pub terminal : List ℕ

-- The barrier of the next processor: in a pipeline it depends on the processor before.
unfoldable pub next_barrier : Bool → Option ℕ → SequencerBase → SequenceBarrier
next_barrier true (some dependency) b = new_barrier (dependency ∷ []) b
next_barrier true none b = new_barrier [] b
next_barrier false dependency b = new_barrier [] b

-- What `startProcessors` takes of the configuration for the latencies: whether the mode is latency,
-- the numbers of events and between samples, and whether Go's `make` gives a slice of a capacity
-- or panics.
pub record Sampling : Type 0 where
  pub latency : Bool
  pub events : ℕ  -- int64
  pub sample_every : ℕ  -- int64
  pub made : ℕ → Bool

-- The quotient of int64 numbers, by one that is positive, as `validateConfig` has it.
abbrev quotient : ℕ → ℕ → ℕ
quotient a b =
    if ltb a (of_nat 0)
    then of_nat 0 - (of_nat 0 - a) / (b - of_nat 0)
    else of_nat ((a - of_nat 0) / (b - of_nat 0))

-- `samples`, the capacity of a slice of latencies.
abbrev pub samples : Sampling → ℕ
samples c = quotient (sub (add c.events c.sample_every) (of_nat 1)) c.sample_every

-- `recordLatency`
abbrev pub record_latency : Sampling → Bool → ℕ → ℕ → Bool
record_latency c pipeline consumers index =
    c.latency && (not pipeline || (of_nat index == sub consumers (of_nat 1)))

-- Whether the round at an index goes on after it has made a slice of latencies where it needs one.
unfoldable pub allocates : Sampling → Bool → ℕ → ℕ → Bool
allocates c pipeline consumers index =
    if record_latency c pipeline consumers index then c.made (samples c) else true

module _ {ℓ κ} {T : Type ℓ} {X : Type κ} where
  abbrev pub and_others :
      Started T X
      → Option (Result (List (Started T X) × RingBuffer T))
      → Option (Result (List (Started T X) × RingBuffer T))
  and_others s none = none
  and_others s (some (err e)) = some (err e)
  and_others s (some (ok (ss, r))) = some (ok (s ∷ ss, r))

  -- The loop over the processors, from an index on, with whether the slice of latencies of a round
  -- is made, and the handlers that it makes; `none` is a panic.
  unfoldable pub start_loop :
      (ℕ → Bool)
      → ℕ
      → ℕ
      → Bool
      → (ℕ → Handler T X)
      → ℕ
      → Option ℕ
      → RingBuffer T
      → Option (Result (List (Started T X) × RingBuffer T))
  unfolding new_batch_processor with_max_batch_size next_barrier
  start_loop makes zero index pipeline handlers batch_size dependency r = some (ok ([], r))
  start_loop makes (suc n) index pipeline handlers batch_size dependency r =
      let barrier = next_barrier pipeline dependency (base_of r.sequencer) in
      let started : Option (Result (List (Started T X) × RingBuffer T)) =
        elim (new_batch_processor {T = T} {X = X} (some (handlers index))
          (with_max_batch_size batch_size ∷ []) (heap r)) [
            | err e ↦ some (err e)
            | ok (p, h) ↦
                and_others (record { barrier = barrier; processor = p })
                  (start_loop makes n (index + 1) pipeline handlers batch_size (some p.sequence)
                    (with_heap h r))
          ] in
      if makes index then started else none

  abbrev pub sequence_of : Started T X → ℕ
  sequence_of s = s.processor.sequence

  -- `set.processors[len(set.processors)-1]`; `none` is an index out of range, a panic.
  unfoldable pub last_sequence : List (Started T X) → Option ℕ
  last_sequence [] = none
  last_sequence (s ∷ []) = some (sequence_of s)
  last_sequence (s ∷ t ∷ ss) = last_sequence (t ∷ ss)

  -- The terminal sequences: the last of a pipeline, or all.
  unfoldable pub terminal_of : Bool → List (Started T X) → Option (List ℕ)
  unfolding last_sequence
  terminal_of true ss = elim (last_sequence ss) [ none ↦ none | some q ↦ some (q ∷ []) ]
  terminal_of false ss = some (map sequence_of ss)

  -- `ring.AddGatingSequences(set.terminal...)`, and the set.
  abbrev pub gated :
      List (Started T X)
      → RingBuffer T
      → Option (List ℕ)
      → Option (Result (ProcessorSet T X × RingBuffer T))
  gated ss r none = none
  gated ss r (some terminal) =
      some (ok (record { processors = ss; terminal = terminal }, add_gates (map some terminal) r))

  abbrev pub after_loop :
      Bool
      → Option (Result (List (Started T X) × RingBuffer T))
      → Option (Result (ProcessorSet T X × RingBuffer T))
  after_loop pipeline none = none
  after_loop pipeline (some (err e)) = some (err e)
  after_loop pipeline (some (ok (ss, r))) = gated ss r (terminal_of pipeline ss)

  -- `startProcessors`, for a topology that is a pipeline or not; `none` is a panic.
  unfoldable pub start_processors :
      Sampling
      → ℕ
      → Bool
      → (ℕ → Handler T X)
      → ℕ
      → RingBuffer T
      → Option (Result (ProcessorSet T X × RingBuffer T))
  unfolding start_loop allocates terminal_of add_gates
  start_processors c consumers pipeline handlers batch_size r = after_loop pipeline (
      start_loop (allocates c pipeline consumers) (consumers - of_nat 0) 0 pipeline handlers
        batch_size none r)
