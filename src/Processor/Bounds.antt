-- ===== src/Processor/Bounds.antt =====
-- processor.go: where the batches of a processor end.
use disruptor_go.Prelude.{ℕ, ◌+◌, ◌-◌, ◌^◌, ◌≤◌, ◌<◌, ◌≡◌, refl, Bool, true, ◌&&◌, arith}
use disruptor_go.Int64.{of_nat}
use disruptor_go.Heap.{Heap, load}
use disruptor_go.Heap.Laws.{load_group-lt}
use disruptor_go.Sequencer.{SequencerBase}
use disruptor_go.Ring.{Sequencer, single, multi, base_of, with_base, seq_highest_published}
use disruptor_go.Barrier.{Reader, one, group, load_reader}
use disruptor_go.Single.{highest_published}
use disruptor_go.Multi.Resolution.{highest_published-Scanned}
use disruptor_go.Processor.Batch.{batch_end}
use disruptor_go.Processor.Run.{is_halted, ProcessorState, idle, starting, running, halted}

-- The least number past the first 2^62 sequences.
abbrev pub limit : ℕ
limit = of_nat (2 ^ 62)

-- A store whose sequences are all among the first 2^62.
abbrev pub IsBounded : Heap → Type 0
IsBounded h = (q : ℕ) → load q h < limit

pub load_reader-lt : (h : Heap) (r : Reader) → IsBounded h → load_reader h r < limit
unfolding load_reader
load_reader-lt h (one p) small = small p
load_reader-lt h (group ps) small = load_group-lt h limit ps (omega arith) small

-- The published sequences end between the one before `next` and what is available.
pub highest_bounds :
    (s : Sequencer) (next available : ℕ)
    → of_nat 0 ≤ next
    → next ≤ available
    → available < limit
    → (next ≤ seq_highest_published s next available + 1)
      × (seq_highest_published s next available ≤ available)
unfolding seq_highest_published highest_published
highest_bounds (single s) next available h0 le few = (omega arith, omega arith)
highest_bounds (multi s) next available h0 le few =
    let scanned =
      highest_published-Scanned s next available (omega arith, omega arith)
        (omega arith, omega arith) le in
    (scanned.from, scanned.upto)

-- A batch starts at `next`, is within the limit and the published sequences, and may be empty.
pub end_bounds :
    (max next available : ℕ)
    → of_nat 1 ≤ max
    → max < 2 ^ 64
    → of_nat 0 ≤ next
    → next ≤ available + 1
    → available < limit
    → (next ≤ batch_end max next available + 1)
      × (batch_end max next available ≤ available)
      × (batch_end max next available < next + (max - of_nat 0))
unfolding batch_end
end_bounds max next available h1 h2 h0 le few = ground arith

pub is_halted_lem : (b : Bool) (s : ProcessorState) → (b && is_halted s) ≡ true → s ≡ halted
is_halted_lem b halted e = refl
is_halted_lem b idle e = absurd (ground (arith, e))
is_halted_lem b starting e = absurd (ground (arith, e))
is_halted_lem b running e = absurd (ground (arith, e))

pub base_of-with_base : (s : Sequencer) (b : SequencerBase) → base_of (with_base b s) ≡ b
base_of-with_base (single s) b = refl
base_of-with_base (multi s) b = refl
