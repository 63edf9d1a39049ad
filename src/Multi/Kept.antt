-- ===== src/Multi/Kept.antt =====
-- sequencer_multi.go: the steps of a claim that keep a ring safe.
use disruptor_go.Prelude.{
  ℕ, ◌+◌, ◌^◌, ◌≤◌, ◌≡◌, refl, ◌∙◌, inl, inr, Bool, arith, ◌==◌, Bool-cases, All,
}
use disruptor_go.Int64.{minus_one}
use disruptor_go.Heap.{load, store_value, producer_wait_blocking}
use disruptor_go.Sequencer.{SequencerBase}
use disruptor_go.Sequencer.Waiting.{Wake, start_wait, finish_wait}
use disruptor_go.Multi.{MultiProducerSequencer, with_heap}
use disruptor_go.Multi.Slots.{IsRing}
use disruptor_go.Multi.Claim.{set_base}
use disruptor_go.Multi.Safety.{
  cursor_of, IsGuarded, IsSafe, IsShort, store_cache-IsGuarded, store_cursor-IsGuarded,
  waiters-IsGuarded,
}

start_wait-IsGuarded :
    {k : ℕ} (b : SequencerBase) (cache : ℕ) → IsGuarded k b cache → IsGuarded k (start_wait b) cache
unfolding start_wait
start_wait-IsGuarded b cache g =
    elim (Bool-cases ((b.heap.waiters b.producer_wait).mode == producer_wait_blocking)) [
      | inl blocking ↦ rw blocking (waiters-IsGuarded b cache _ g)
      | inr busy ↦ rw busy g
    ]

finish_wait-IsGuarded :
    {k : ℕ} (wake : Wake) (ctx_done : Bool) (ch : ℕ) (b : SequencerBase) (cache : ℕ)
    → IsGuarded k b cache
    → IsGuarded k (finish_wait wake ctx_done ch b).1 cache
unfolding finish_wait
finish_wait-IsGuarded wake ctx_done ch b cache g =
    elim (Bool-cases ((b.heap.waiters b.producer_wait).mode == producer_wait_blocking)) [
      | inl blocking ↦ rw blocking (waiters-IsGuarded b cache _ g)
      | inr busy ↦ rw busy g
    ]

-- The position of the cursor of a base.
abbrev cursor_at : SequencerBase → ℕ
cursor_at b = load b.cursor b.heap

start_wait-same :
    (b : SequencerBase)
    → ((start_wait b).buffer_size ≡ b.buffer_size) × (cursor_at (start_wait b) ≡ cursor_at b)
unfolding start_wait
start_wait-same b = ground arith

finish_wait-same :
    (wake : Wake) (ctx_done : Bool) (ch : ℕ) (b : SequencerBase)
    → ((finish_wait wake ctx_done ch b).1.buffer_size ≡ b.buffer_size)
      × (cursor_at (finish_wait wake ctx_done ch b).1 ≡ cursor_at b)
unfolding finish_wait
finish_wait-same wake ctx_done ch b =
    elim (Bool-cases ((b.heap.waiters b.producer_wait).mode == producer_wait_blocking)) [
      | inl blocking ↦ rw blocking (refl, refl)
      | inr busy ↦ rw busy (refl, refl)
    ]

pub set_base-IsSafe :
    {k : ℕ} (s : MultiProducerSequencer) (b : SequencerBase)
    → b.buffer_size ≡ s.buffer_size
    → IsRing k s
    → IsGuarded k b s.gate_cache
    → IsSafe k (set_base b s)
set_base-IsSafe s b e ring g = record {
  ring = record {
    mask = ring.mask;
    shift = ring.shift;
    slots = ring.slots;
    size = e ∙ ring.size;
    small = ring.small;
  };
  guarded = g;
}

-- A wait changes nothing that safety depends on.
pub start_wait-IsSafe :
    {k : ℕ} (s : MultiProducerSequencer)
    → IsSafe k s
    → IsShort k s
    → IsSafe k (set_base (start_wait s.base) s) × IsShort k (set_base (start_wait s.base) s)
start_wait-IsSafe {k} s safe short = (
  set_base-IsSafe s (start_wait s.base) (start_wait-same s.base).0 safe.ring
      (start_wait-IsGuarded s.base s.gate_cache safe.guarded),
  rw ((start_wait-same s.base).1) short,
)

pub finish_wait-IsSafe :
    {k : ℕ} (wake : Wake) (ctx_done : Bool) (ch : ℕ) (s : MultiProducerSequencer)
    → IsSafe k s
    → IsShort k s
    → IsSafe k (set_base (finish_wait wake ctx_done ch s.base).1 s)
      × IsShort k (set_base (finish_wait wake ctx_done ch s.base).1 s)
finish_wait-IsSafe wake ctx_done ch s safe short = (
  set_base-IsSafe s (finish_wait wake ctx_done ch s.base).1
      (finish_wait-same wake ctx_done ch s.base).0 safe.ring
      (finish_wait-IsGuarded wake ctx_done ch s.base s.gate_cache safe.guarded),
  rw ((finish_wait-same wake ctx_done ch s.base).1) short,
)

-- Storing a bound of the gates keeps a ring safe, and so does moving the cursor.
pub store_cache-IsSafe :
    {k : ℕ} (s : MultiProducerSequencer) (m : ℕ)
    → IsSafe k s
    → minus_one ≤ m
    → m ≤ cursor_of s
    → All (λ p. m ≤ load p s.heap) s.gating
    → IsSafe k (with_heap (store_value s.gate_cache m s.heap) s)
store_cache-IsSafe s m safe up below reached =
    set_base-IsSafe s _ refl safe.ring
      (store_cache-IsGuarded s.base s.gate_cache m safe.guarded up below reached)

pub store_cursor-IsSafe :
    {k : ℕ} (s : MultiProducerSequencer) (n : ℕ)
    → IsSafe k s
    → cursor_of s ≤ n
    → All (λ p. n ≤ load p s.heap + 2 ^ k) s.gating
    → IsSafe k (with_heap (store_value s.cursor n s.heap) s)
store_cursor-IsSafe s n safe up near =
    set_base-IsSafe s _ refl safe.ring
      (store_cursor-IsGuarded s.base s.gate_cache n safe.guarded up near)
