-- ===== src/Poller/Acknowledge.antt =====
-- poller.go: what `Poll` acknowledges, and what it leaves as it was.
use disruptor_go.Prelude.{ℕ, ◌+◌, ◌-◌, ◌^◌, ◌≤◌, ◌<◌, ◌≡◌, refl, arith, none, some}
use disruptor_go.Int64.{of_nat}
use disruptor_go.Heap.{Heap, store}
use disruptor_go.Ring.{RingBuffer, Sequencer, single, multi, base_of, with_base}
use disruptor_go.Processor.Batch.{process_batch}
use disruptor_go.Poller.{
  poll_idle, poll_gating, poll_processing, EventPoller, batch_end, heap, with_heap, Polled,
}

-- For a limit of at least one and a range of the first 2^62 sequences that is not empty, the end of
-- a batch is not before `next`, not after the last published sequence, and within the limit.
pub batch_end_bounds :
    (max next available : ℕ)
    → of_nat 1 ≤ max
    → max < 2 ^ 64
    → of_nat 0 ≤ next
    → next ≤ available
    → available < of_nat (2 ^ 62)
    → (next ≤ batch_end max next available)
      × (batch_end max next available ≤ available)
      × (batch_end max next available < next + (max - of_nat 0))
unfolding batch_end
batch_end_bounds max next available h0 h1 h2 le few = ground arith

heap-with_heap {ℓ} : {T : Type ℓ} (h : Heap) (r : RingBuffer T) → heap (with_heap h r) ≡ h
heap-with_heap h r = go r.sequencer
  where
    go : (s : Sequencer) → (base_of (with_base (record (base_of s) { heap = h }) s)).heap ≡ h
    go (single s) = refl
    go (multi s) = refl

module _ {ℓ κ} {T : Type ℓ} {X : Type κ} where
  -- What a call of `Poll` on `r` leaves behind, with `next` and `available` the first sequence that
  -- it has not acknowledged and the last one that is published without a gap.
  abbrev pub Outcome : EventPoller T X → RingBuffer T → X → ℕ → ℕ → Polled T X → Type (ℓ ⊔ κ)
  Outcome p r x next available (poll_processing, none, r', x') =
      (end : ℕ) × (process_batch r p.handler next end x ≡ (none, x'))
      × (r' ≡ with_heap (store p.sequence end (heap r)) r)
      × (next ≤ end)
      × (end ≤ available)
      × (end < next + (p.max_batch_size - of_nat 0))
  Outcome p r x next available (poll_processing, some e, r', x') =
      (end : ℕ) × (process_batch r p.handler next end x ≡ (some e, x')) × (r' ≡ r)
  Outcome p r x next available (poll_idle, e, r', x') = (r' ≡ r) × (x' ≡ x)
  Outcome p r x next available (poll_gating, e, r', x') = (r' ≡ r) × (x' ≡ x) × (e ≡ none)
