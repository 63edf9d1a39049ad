-- ===== src/Multi.antt =====
-- sequencer_multi.go: the claims and the publication of concurrent producers.
pub mod Claim
pub mod Slots
pub mod Exchange
pub mod Rounds
pub mod Ends
pub mod Undisturbed
pub mod Safety
pub mod Kept
pub mod Steps
pub mod Others
pub mod Company
pub mod Rivals
pub mod Resolution
pub mod Refine
pub mod Atomic
pub mod Ranges
pub mod Words
use disruptor_go.Prelude.{
  ℕ, zero, suc, ◌+◌, ◌-◌, ◌/◌, ◌%◌, ◌^◌, Bool, true, false, List, Option, ltb, ◌==◌, if◌then◌else◌,
  replicate, get_or, set, bit_and,
}
use disruptor_go.Int64.{of_nat, minus_one, add, sub, to_u64, of_u64}
use disruptor_go.Publication.{publication_value, unresolved, published, discarded}
use disruptor_go.Heap.{Heap, load, new_sequence, initial_sequence}
use disruptor_go.Sequencer.{
  WaitStrategy, SequencerBase, new_sequencer_base, signal_strategy, minimum_gate,
}

pub record MultiProducerSequencer : Type 0 where
  pub base : SequencerBase
  pub open base use *
  pub gate_cache : ℕ  -- a sequence
  pub available : List ℕ  -- int64 each
  pub index_mask : ℕ  -- uint64
  pub index_shift : ℕ

-- `bits.TrailingZeros64`: the number of zero bits below the lowest one, 64 for 0.
unfoldable pub trailing_zeros : ℕ → ℕ → ℕ
trailing_zeros zero x = 0
trailing_zeros (suc width) x =
    let rest = trailing_zeros width (x / 2) in if x % 2 == 1 then 0 else rest + 1

-- newMultiProducerSequencer
unfoldable pub new_multi : ℕ → Option WaitStrategy → ℕ → Heap → MultiProducerSequencer
unfolding new_sequence
new_multi size wait mode h =
    let b = new_sequencer_base size wait mode h in
    let (cache, h') = new_sequence initial_sequence b.heap in
    record {
      base = record b { heap = h' };
      gate_cache = cache;
      available = replicate (size - of_nat 0) minus_one;
      index_mask = to_u64 (sub size (of_nat 1));
      index_shift = trailing_zeros 64 (to_u64 size);
    }

abbrev pub with_heap : Heap → MultiProducerSequencer → MultiProducerSequencer
with_heap h s = record s { base = record s.base { heap = h } }

-- index
unfoldable pub index : MultiProducerSequencer → ℕ → ℕ
index s sequence = bit_and (to_u64 sequence) s.index_mask

-- flag
unfoldable pub flag : MultiProducerSequencer → ℕ → ℕ
flag s sequence = of_u64 (to_u64 sequence / 2 ^ s.index_shift)

-- One round of the loop of `prepare`.
unfoldable pub prepare_one : ℕ → MultiProducerSequencer → MultiProducerSequencer
unfolding index flag
prepare_one sequence s =
    let word = publication_value (flag s sequence) unresolved in
    record s { available = set s.available (index s sequence) word }

prepare_loop : ℕ → ℕ → MultiProducerSequencer → MultiProducerSequencer
prepare_loop zero sequence s = s
prepare_loop (suc rounds) sequence s =
    prepare_loop rounds (add sequence (of_nat 1)) (prepare_one sequence s)

-- `prepare`: the rounds are those from `low` to `high`, both included.
unfoldable pub prepare : ℕ → ℕ → MultiProducerSequencer → MultiProducerSequencer
unfolding prepare_loop prepare_one
prepare low high s = if ltb high low then s else prepare_loop (high - low + 1) low s

-- One round of the loop of `resolve`, a compare-and-swap.
unfoldable pub resolve_one : ℕ → ℕ → MultiProducerSequencer → MultiProducerSequencer
unfolding index flag
resolve_one resolution sequence s =
    let i = index s sequence in
    let f = flag s sequence in
    if get_or s.available i (of_nat 0) == publication_value f unresolved
    then record s { available = set s.available i (publication_value f resolution) }
    else s

resolve_loop : ℕ → ℕ → ℕ → MultiProducerSequencer → MultiProducerSequencer
resolve_loop resolution zero sequence s = s
resolve_loop resolution (suc rounds) sequence s =
    resolve_loop resolution rounds (add sequence (of_nat 1)) (resolve_one resolution sequence s)

-- resolve
unfoldable pub resolve : ℕ → ℕ → ℕ → MultiProducerSequencer → MultiProducerSequencer
unfolding resolve_loop resolve_one
resolve low high resolution s =
    if ltb high low then s else resolve_loop resolution (high - low + 1) low s

abbrev pub signal : MultiProducerSequencer → MultiProducerSequencer
signal s = with_heap (signal_strategy s.wait s.heap) s

-- Publish
unfoldable pub publish : ℕ → ℕ → MultiProducerSequencer → MultiProducerSequencer
unfolding resolve signal_strategy
publish low high s = signal (resolve low high published s)

-- Discard
unfoldable pub discard : ℕ → ℕ → MultiProducerSequencer → MultiProducerSequencer
unfolding resolve signal_strategy
discard low high s = signal (resolve low high discarded s)

-- resolution
unfoldable pub resolution : MultiProducerSequencer → ℕ → ℕ
unfolding index flag
resolution s sequence =
    let f = flag s sequence in
    let value = get_or s.available (index s sequence) (of_nat 0) in
    if value == publication_value f published
    then published
    else if value == publication_value f discarded
    then discarded
    else unresolved

-- IsAvailable
unfoldable pub is_available : MultiProducerSequencer → ℕ → Bool
is_available s sequence = if resolution s sequence == unresolved then false else true

-- IsDiscarded
unfoldable pub is_discarded : MultiProducerSequencer → ℕ → Bool
is_discarded s sequence = resolution s sequence == discarded

published_loop : ℕ → MultiProducerSequencer → ℕ → ℕ → ℕ
published_loop zero s sequence available = available
published_loop (suc rounds) s sequence available =
    let rest = published_loop rounds s (add sequence (of_nat 1)) available in
    if resolution s sequence == unresolved then sub sequence (of_nat 1) else rest

-- HighestPublished
unfoldable pub highest_published : MultiProducerSequencer → ℕ → ℕ → ℕ
unfolding published_loop
highest_published s lower available =
    if ltb available lower
    then available
    else published_loop (available - lower + 1) s lower available

-- RemainingCapacity
unfoldable pub remaining_capacity : MultiProducerSequencer → ℕ
remaining_capacity s =
    let produced = load s.cursor s.heap in
    let consumed = minimum_gate s.base produced in sub s.buffer_size (sub produced consumed)
