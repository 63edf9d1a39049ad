-- ===== src/Ring.antt =====
-- ring_buffer.go: the ring of events over a sequencer of either kind.
--
-- The entries are what the factory made, pointers mostly, and never change. What a translator does
-- to an event, and to anything else, is a change of a state `X` of the caller's own.
pub mod Publish
pub mod Translate
pub mod Create
pub mod Fresh
use disruptor_go.Prelude.{
  [], ℕ, zero, suc, ◌+◌, ◌-◌, Bool, true, false, ◌||◌, not, List, ◌∷◌, Option, none, some, ltb,
  ◌==◌, if◌then◌else◌, bit_and, get_elem?,
}
use disruptor_go.Int64.{of_nat, sub, to_u64}
use disruptor_go.Errors.{
  Error, failed, invalid_buffer_size, invalid_producer_type, invalid_producer_wait_mode,
  nil_factory, Result, ok, err,
}
use disruptor_go.Heap.{Heap, load, producer_wait_yielding, producer_wait_busy_spin}
use disruptor_go.Sequencer.{
  WaitStrategy, SequencerBase, close, add_gating_sequences, remove_gating_sequence,
}
use disruptor_go.Sequencer.Waiting.{Turn}
use disruptor_go.Single
use disruptor_go.Single.{SingleProducerSequencer}
use disruptor_go.Multi
use disruptor_go.Multi.{MultiProducerSequencer}
use disruptor_go.Multi.Claim

-- The dynamic type behind the interface `Sequencer`.
pub data Sequencer : Type 0 where
  single : SingleProducerSequencer → Sequencer
  multi : MultiProducerSequencer → Sequencer

-- The turns of a claim, for a sequencer of either kind.
pub record Turns : Type 0 where
  pub of_single : List (Turn SequencerBase)
  pub of_multi : List (Turn MultiProducerSequencer)

abbrev pub base_of : Sequencer → SequencerBase
base_of (single s) = s.base
base_of (multi s) = s.base

abbrev pub with_base : SequencerBase → Sequencer → Sequencer
with_base b (single s) = single (record s { base = b })
with_base b (multi s) = multi (record s { base = b })

unfoldable pub seq_next : Turns → ℕ → Sequencer → Option (Result ℕ) × Sequencer
unfolding Single.next Claim.next
seq_next ts count (single s) = let (r, s') = Single.next ts.of_single count s in (r, single s')
seq_next ts count (multi s) = let (r, s') = Claim.next ts.of_multi count s in (r, multi s')

unfoldable pub seq_try_next : Turns → ℕ → Sequencer → Option (Result ℕ) × Sequencer
unfolding Single.try_next Claim.try_next
seq_try_next ts count (single s) = let (r, s') = Single.try_next count s in (some r, single s')
seq_try_next ts count (multi s) = let (r, s') = Claim.try_next ts.of_multi count s in (r, multi s')

unfoldable pub seq_publish : ℕ → ℕ → Sequencer → Sequencer
seq_publish low high (single s) = single (Single.publish low high s)
seq_publish low high (multi s) = multi (Multi.publish low high s)

unfoldable pub seq_discard : ℕ → ℕ → Sequencer → Sequencer
seq_discard low high (single s) = single (Single.discard low high s)
seq_discard low high (multi s) = multi (Multi.discard low high s)

unfoldable pub seq_is_discarded : Sequencer → ℕ → Bool
seq_is_discarded (single s) sequence = Single.is_discarded s sequence
seq_is_discarded (multi s) sequence = Multi.is_discarded s sequence

unfoldable pub seq_highest_published : Sequencer → ℕ → ℕ → ℕ
seq_highest_published (single s) lower available = Single.highest_published s lower available
seq_highest_published (multi s) lower available = Multi.highest_published s lower available

unfoldable pub seq_shutdown :
    List (Turn SequencerBase) → Sequencer → Option (Result (Unit {0})) × Sequencer
unfolding Single.shutdown Claim.shutdown
seq_shutdown ts (single s) = let (r, s') = Single.shutdown ts s in (r, single s')
seq_shutdown ts (multi s) = let (r, s') = Claim.shutdown ts s in (r, multi s')

unfoldable pub seq_remaining_capacity : Sequencer → ℕ
seq_remaining_capacity (single s) = Single.remaining_capacity s
seq_remaining_capacity (multi s) = Multi.remaining_capacity s

pub record RingBuffer {ℓ} (T : Type ℓ) : Type ℓ where
  pub entries : List T
  pub index_mask : ℕ  -- uint64
  pub sequencer : Sequencer
  pub discarded : Bool

-- SingleProducer and MultiProducer
abbrev pub single_producer : ℕ
single_producer = 0

abbrev pub multi_producer : ℕ
multi_producer = 1

-- `WithProducerWait`, a change of the configuration, whose one field is the mode.
unfoldable pub with_producer_wait : ℕ → ℕ → Result ℕ
with_producer_wait mode config =
    if ltb producer_wait_busy_spin mode then err invalid_producer_wait_mode else ok mode

unfoldable pub apply_options : List (ℕ → Result ℕ) → ℕ → Result ℕ
apply_options [] config = ok config
apply_options (option ∷ options) config = elim (option config) [
  | err e ↦ err e
  | ok config' ↦ apply_options options config'
]

-- A type or a count of the events that a factory makes: the event of its `i`-th call.
unfoldable pub make_entries {ℓ} : {T : Type ℓ} → (ℕ → T) → ℕ → ℕ → List T
make_entries factory zero i = []
make_entries factory (suc n) i = factory i ∷ make_entries factory n (i + 1)

unfoldable pub new_sequencer : ℕ → ℕ → Option WaitStrategy → ℕ → Heap → Result Sequencer
new_sequencer size producer_type wait mode h =
    if producer_type == single_producer
    then ok (single (Single.new_single size wait mode h))
    else if producer_type == multi_producer
    then ok (multi (Multi.new_multi size wait mode h))
    else err invalid_producer_type

abbrev new_ring {ℓ} : {T : Type ℓ} → ℕ → (ℕ → T) → Result Sequencer → Result (RingBuffer T)
new_ring size make (err e) = err e
new_ring size make (ok s) = ok (record {
  entries = make_entries make (size - of_nat 0) 0;
  index_mask = to_u64 (sub size (of_nat 1));
  sequencer = s;
  discarded = false;
})

-- `New`; a factory of `none` is nil.
unfoldable pub new {ℓ} :
    {T : Type ℓ}
    → ℕ
    → ℕ
    → Option (ℕ → T)
    → Option WaitStrategy
    → List (ℕ → Result ℕ)
    → Heap
    → Result (RingBuffer T)
unfolding apply_options make_entries new_sequencer
new size producer_type factory wait options h =
    if ltb size (of_nat 1) || not (bit_and (to_u64 size) (to_u64 (sub size (of_nat 1))) == 0)
    then err invalid_buffer_size
    else elim factory [
      | none ↦ err nil_factory
      | some make ↦ elim (apply_options options producer_wait_yielding) [
        | err e ↦ err e
        | ok mode ↦ new_ring size make (new_sequencer size producer_type wait mode h)
      ]
    ]

-- What a callback does: it returns nil, an error of its own, or it panics.
pub data Reply : Type 0 where
  done : Reply
  fails : ℕ → Reply
  panics : ℕ → Reply

-- How a call that runs callbacks ends: it returns nil or an error, or it panics.
pub data Ending : Type 0 where
  fine : Ending
  error : Error → Ending
  panicked : ℕ → Ending
  out_of_range : Ending

abbrev pub ending : Reply → Ending
ending done = fine
ending (fails e) = error (failed e)
ending (panics v) = panicked v

module _ {ℓ} {T : Type ℓ} where
  -- The slot that `Get` reads.
  unfoldable pub slot : RingBuffer T → ℕ → ℕ
  slot r sequence = bit_and (to_u64 sequence) r.index_mask

  -- `Get`: `none` is an index out of range, a panic.
  unfoldable pub get : RingBuffer T → ℕ → Option T
  unfolding slot
  get r sequence = get_elem? r.entries (slot r sequence)

  -- PublishRange
  unfoldable pub publish_range : ℕ → ℕ → RingBuffer T → RingBuffer T
  unfolding seq_publish
  publish_range low high r = record r { sequencer = seq_publish low high r.sequencer }

  -- DiscardRange
  unfoldable pub discard_range : ℕ → ℕ → RingBuffer T → RingBuffer T
  unfolding seq_discard
  discard_range low high r = record r {
    discarded = true;
    sequencer = seq_discard low high r.sequencer;
  }

  -- PublishSequence
  abbrev pub publish_sequence : ℕ → RingBuffer T → RingBuffer T
  publish_sequence sequence r = publish_range sequence sequence r

  -- DiscardSequence
  abbrev pub discard_sequence : ℕ → RingBuffer T → RingBuffer T
  discard_sequence sequence r = discard_range sequence sequence r

  -- IsDiscarded
  unfoldable pub is_discarded : RingBuffer T → ℕ → Bool
  unfolding seq_is_discarded
  is_discarded r sequence = seq_is_discarded r.sequencer sequence

  -- NextN
  unfoldable pub next_n : Turns → ℕ → RingBuffer T → Option (Result ℕ) × RingBuffer T
  unfolding seq_next
  next_n ts count r =
      let (claimed, s) = seq_next ts count r.sequencer in (claimed, record r { sequencer = s })

  -- TryNextN
  unfoldable pub try_next_n : Turns → ℕ → RingBuffer T → Option (Result ℕ) × RingBuffer T
  unfolding seq_try_next
  try_next_n ts count r =
      let (claimed, s) = seq_try_next ts count r.sequencer in (claimed, record r { sequencer = s })

  -- Next
  abbrev pub next : Turns → RingBuffer T → Option (Result ℕ) × RingBuffer T
  next ts r = next_n ts (of_nat 1) r

  -- TryNext
  abbrev pub try_next : Turns → RingBuffer T → Option (Result ℕ) × RingBuffer T
  try_next ts r = try_next_n ts (of_nat 1) r

  -- Cursor, BufferSize and RemainingCapacity
  unfoldable pub cursor : RingBuffer T → ℕ
  cursor r = load (base_of r.sequencer).cursor (base_of r.sequencer).heap

  unfoldable pub buffer_size : RingBuffer T → ℕ
  buffer_size r = (base_of r.sequencer).buffer_size

  unfoldable pub remaining_capacity : RingBuffer T → ℕ
  unfolding seq_remaining_capacity
  remaining_capacity r = seq_remaining_capacity r.sequencer

  -- AddGatingSequences and RemoveGatingSequence
  unfoldable pub add_gates : List (Option ℕ) → RingBuffer T → RingBuffer T
  add_gates ps r = record r {
    sequencer = with_base (add_gating_sequences ps (base_of r.sequencer)) r.sequencer;
  }

  unfoldable pub remove_gate : ℕ → RingBuffer T → Bool × RingBuffer T
  remove_gate p r =
      let (found, b) = remove_gating_sequence p (base_of r.sequencer) in
      (found, record r { sequencer = with_base b r.sequencer })

  -- Close
  unfoldable pub close_ring : RingBuffer T → RingBuffer T
  close_ring r = record r { sequencer = with_base (close (base_of r.sequencer)) r.sequencer }

  -- Shutdown
  unfoldable pub shutdown_ring :
      List (Turn SequencerBase) → RingBuffer T → Option (Result (Unit {0})) × RingBuffer T
  unfolding seq_shutdown
  shutdown_ring ts r =
      let (drained, s) = seq_shutdown ts r.sequencer in (drained, record r { sequencer = s })
