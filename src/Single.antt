-- ===== src/Single.antt =====
-- sequencer_single.go: the claims and the publication of one producer.
pub mod Safety
pub mod Resolution
pub mod Next
pub mod Undisturbed
pub mod Claim
use disruptor_go.Prelude.{
  ℕ, zero, suc, ◌+◌, ◌-◌, Bool, false, ◌||◌, ◌&&◌, List, Option, none, some, ltb, leb, ◌==◌,
  if◌then◌else◌, replicate, get_or, set, bit_and,
}
use disruptor_go.Int64.{of_nat, add, sub, to_u64}
use disruptor_go.Errors.{closed, invalid_claim_size, insufficient_capacity, Result, ok, err}
use disruptor_go.Publication.{discard_marker}
use disruptor_go.Heap.{Heap, load, store_value, initial_sequence}
use disruptor_go.Sequencer.{
  WaitStrategy, SequencerBase, new_sequencer_base, signal_strategy, minimum_gate, begin_shutdown,
}
use disruptor_go.Sequencer.Waiting.{Turn, wait_for_capacity, await_shutdown}

pub record SingleProducerSequencer : Type 0 where
  pub base : SequencerBase
  pub open base use *
  pub next_value : ℕ  -- int64
  pub cached_gate : ℕ  -- int64
  pub discarded : List ℕ  -- int64 each

-- `make([]atomic.Int64, size)`; `size` is not negative.
abbrev pub new_slots : ℕ → List ℕ
new_slots size = replicate (size - of_nat 0) (of_nat 0)

-- newSingleProducerSequencer
unfoldable pub new_single : ℕ → Option WaitStrategy → ℕ → Heap → SingleProducerSequencer
unfolding discard_marker new_sequencer_base
new_single size wait mode h = record {
  base = new_sequencer_base size wait mode h;
  next_value = initial_sequence;
  cached_gate = initial_sequence;
  discarded = discard_marker (new_slots size);
}

-- What `Next` makes of its wait for capacity.
abbrev pub settle :
    ℕ
    → SingleProducerSequencer
    → Option (Result ℕ) × SequencerBase
    → Option (Result ℕ) × SingleProducerSequencer
settle next s (none, b) = (none, record s { base = b })
settle next s (some (err e), b) = (some (err e), record s { base = b })
settle next s (some (ok minimum), b) =
    (some (ok next), record s { base = b; cached_gate = minimum; next_value = next })

-- Next; `none` waits still.
unfoldable pub next :
    List (Turn SequencerBase)
    → ℕ
    → SingleProducerSequencer
    → Option (Result ℕ) × SingleProducerSequencer
next ts count s =
    let next = add s.next_value count in
    let wrap_point = sub next s.buffer_size in
    if s.is_sealed
    then (some (err closed), s)
    else if ltb count (of_nat 1) || ltb s.buffer_size count
    then (some (err invalid_claim_size), s)
    else if ltb s.cached_gate wrap_point || ltb s.next_value s.cached_gate
    then settle next s (wait_for_capacity ts wrap_point s.next_value s.base)
    else (some (ok next), record s { next_value = next })

-- TryNext
unfoldable pub try_next : ℕ → SingleProducerSequencer → Result ℕ × SingleProducerSequencer
try_next count s =
    let next = add s.next_value count in
    let wrap_point = sub next s.buffer_size in
    if s.is_sealed
    then (err closed, s)
    else if ltb count (of_nat 1) || ltb s.buffer_size count
    then (err invalid_claim_size, s)
    else if ltb s.cached_gate wrap_point || ltb s.next_value s.cached_gate
    then (let minimum = minimum_gate s.base s.next_value in
        if ltb minimum wrap_point
        then (err insufficient_capacity, record s { cached_gate = minimum })
        else (ok next, record s { cached_gate = minimum; next_value = next }))
    else (ok next, record s { next_value = next })

-- `s.wait.signalAll()`
abbrev signal : SingleProducerSequencer → SingleProducerSequencer
signal s = record s { base = record s.base { heap = signal_strategy s.wait s.heap } }

-- `s.cursor.store(v)`
abbrev pub set_cursor : ℕ → SingleProducerSequencer → SingleProducerSequencer
set_cursor v s = record s { base = record s.base { heap = store_value s.cursor v s.heap } }

-- Publish
unfoldable pub publish : ℕ → ℕ → SingleProducerSequencer → SingleProducerSequencer
unfolding signal_strategy
publish _ high s = signal (set_cursor high s)

-- index
unfoldable pub index : SingleProducerSequencer → ℕ → ℕ
index s sequence = bit_and (to_u64 sequence) (to_u64 (sub s.buffer_size (of_nat 1)))

-- One round of the loop of `Discard`.
discard_one : ℕ → SingleProducerSequencer → SingleProducerSequencer
discard_one sequence s =
    if ltb (load s.cursor s.heap) sequence
    then set_cursor sequence (record s { discarded = set s.discarded (index s sequence) sequence })
    else s

discard_loop : ℕ → ℕ → SingleProducerSequencer → SingleProducerSequencer
discard_loop zero sequence s = s
discard_loop (suc rounds) sequence s =
    discard_loop rounds (add sequence (of_nat 1)) (discard_one sequence s)

-- `Discard`: the rounds of its loop are those from `low` to `high`, both included.
unfoldable pub discard : ℕ → ℕ → SingleProducerSequencer → SingleProducerSequencer
unfolding discard_loop discard_one index signal_strategy
discard low high s = if ltb high low then s else signal (discard_loop (high - low + 1) low s)

-- IsAvailable
unfoldable pub is_available : SingleProducerSequencer → ℕ → Bool
is_available s sequence =
    let cursor = load s.cursor s.heap in
    leb sequence cursor && ltb (sub cursor s.buffer_size) sequence

-- IsDiscarded
unfoldable pub is_discarded : SingleProducerSequencer → ℕ → Bool
unfolding index
is_discarded s sequence =
    let cursor = load s.cursor s.heap in
    if ltb cursor sequence || leb sequence (sub cursor s.buffer_size)
    then false
    else get_or s.discarded (index s sequence) (of_nat 0) == sequence

-- HighestPublished
unfoldable pub highest_published : SingleProducerSequencer → ℕ → ℕ → ℕ
highest_published s _ available = available

-- RemainingCapacity
unfoldable pub remaining_capacity : SingleProducerSequencer → ℕ
remaining_capacity s =
    let consumed = minimum_gate s.base s.next_value in sub s.buffer_size (sub s.next_value consumed)

-- Shutdown
unfoldable pub shutdown :
    List (Turn SequencerBase)
    → SingleProducerSequencer
    → Option (Result (Unit {0})) × SingleProducerSequencer
unfolding begin_shutdown await_shutdown
shutdown ts s =
    let (begun, b) = begin_shutdown s.base in
    elim begun [
      | err e ↦ (some (err e), record s { base = b })
      | ok _ ↦
          (let (drained, b') = await_shutdown ts s.next_value b in
            (drained, record s { base = b' }))
    ]
