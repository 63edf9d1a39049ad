-- ===== src/Barrier.antt =====
-- barrier.go: what a consumer waits on.
pub mod Waiting
pub mod Awaited
pub mod Unmoved
use disruptor_go.Prelude.{[], ℕ, Bool, true, false, List, ◌∷◌}
use disruptor_go.Heap.{Heap, load, load_group}
use disruptor_go.Sequencer.{WaitStrategy, SequencerBase, signal_strategy}

-- `sequenceReader`: a sequence, or a group of them.
pub data Reader : Type 0 where
  one : ℕ → Reader
  group : List ℕ → Reader

unfoldable pub load_reader : Heap → Reader → ℕ
unfolding load_group
load_reader h (one p) = load p h
load_reader h (group ps) = load_group h ps

-- The sequencer, `closed` and `closedCh` are those of the ring that the barrier is used with.
pub record SequenceBarrier : Type 0 where
  pub wait : WaitStrategy
  pub cursor : ℕ
  pub dependent : Reader
  pub is_alerted : Bool

-- NewBarrier
unfoldable pub new_barrier : List ℕ → SequencerBase → SequenceBarrier
new_barrier [] b = record {
  wait = b.wait;
  cursor = b.cursor;
  dependent = one b.cursor;
  is_alerted = false;
}
new_barrier (p ∷ ps) b = record {
  wait = b.wait;
  cursor = b.cursor;
  dependent = group (p ∷ ps);
  is_alerted = false;
}

-- Cursor
unfoldable pub position : Heap → SequenceBarrier → ℕ
position h b = load_reader h b.dependent

-- Alert
unfoldable pub alert : SequenceBarrier → Heap → SequenceBarrier × Heap
alert b h = (record b { is_alerted = true }, signal_strategy b.wait h)

-- ClearAlert
unfoldable pub clear_alert : SequenceBarrier → SequenceBarrier
clear_alert b = record b { is_alerted = false }
