-- ===== src/Tests.antt =====
-- The theorems at states of a ring of eight slots, with one consumer behind a claim of seven events.
pub mod Producers
pub mod Consumers
pub mod Company
pub mod Turns
pub mod Processors
pub mod Command
pub mod Apicheck
use disruptor_go.Prelude.{ℕ, false, [], ◌∷◌, List, ◌==◌, if◌then◌else◌, replicate}
use disruptor_go.Int64.{of_nat, minus_one}
use disruptor_go.Heap.{Heap}
use disruptor_go.Sequencer.{SequencerBase, busy_spin_wait}
use disruptor_go.Sequencer.Waiting.{Turn, signalled}
use disruptor_go.Single.{SingleProducerSequencer}
use disruptor_go.Multi.{MultiProducerSequencer}

-- The cursor is sequence 0, the gate sequence 1, the gate cache sequence 2.
abbrev pub positions : ℕ → ℕ
positions p = if p == 0 then of_nat 6 else if p == 1 then of_nat 4 else of_nat 2

abbrev pub store_of : (ℕ → ℕ) → Heap
store_of values = record {
  next = 4;
  sequences = λ p. record { value = values p; signals = [] };
  waiters = λ p. record { mode = 0; ch = 0; waiting = of_nat 0; waits = 0 };
  strategies = λ p. 0;
}

abbrev pub half_full : SequencerBase
half_full = record {
  heap = store_of positions;
  buffer_size = of_nat 8;
  cursor = 0;
  wait = busy_spin_wait;
  producer_wait = 3;
  gating = 1 ∷ [];
  is_closed = false;
  is_sealed = false;
  closed_ch = false;
  close_once = false;
}

abbrev pub one_producer : SingleProducerSequencer
one_producer = record {
  base = half_full;
  next_value = of_nat 6;
  cached_gate = of_nat 2;
  discarded = replicate 8 minus_one;
}

-- Of the events 0 to 6, the last is claimed, 4 is discarded, and the others are published.
abbrev pub words : List ℕ
words = of_nat 1 ∷ of_nat 1 ∷ of_nat 1 ∷ of_nat 1 ∷ of_nat 2 ∷ of_nat 1 ∷ of_nat 0 ∷ minus_one ∷ []

abbrev pub many_producers : MultiProducerSequencer
many_producers = record {
  base = half_full;
  gate_cache = 2;
  available = words;
  index_mask = 7;
  index_shift = 3;
}

-- A turn in which nobody else does anything.
abbrev pub quiet {ℓ} : {S : Type ℓ} → Turn S
quiet = record { before = λ s. s; during = λ s. s; ctx_done = false; wake = signalled }
