-- ===== src/Single/Safety.antt =====
-- sequencer_single.go: `TryNext` claims exactly what there is room for, and overtakes no gate.
use disruptor_go.Prelude.{
  ℕ, ◌+◌, ◌-◌, ◌^◌, ◌≤◌, ◌<◌, ◌≡◌, Bool, ◌||◌, arith, ltb, leb, if◌then◌else◌, All, All-map,
  All-map₂, length,
}
use disruptor_go.Int64.{of_nat, minus_one}
use disruptor_go.Errors.{ok, err, closed, invalid_claim_size, insufficient_capacity}
use disruptor_go.Heap.{load}
use disruptor_go.Heap.Laws.{minimum-ge, minimum-le, All-minimum-le}
use disruptor_go.Sequencer.{SequencerBase, minimum_gate}
use disruptor_go.Single.{SingleProducerSequencer, try_next, remaining_capacity}

-- All gates lie between two positions.
abbrev pub Within : ℕ → ℕ → SequencerBase → Type 0
Within lo hi b = All (λ p. (lo ≤ load p b.heap) × (load p b.heap ≤ hi)) b.gating

-- The claims are at most a ring ahead of the cached gate, which no gate is behind; no gate and no
-- publication is ahead of the claims.
pub record IsSafe (k : ℕ) (s : SingleProducerSequencer) : Type 0 where
  pub size : s.buffer_size ≡ of_nat (2 ^ k)
  pub small : 2 ^ k ≤ 2 ^ 62
  pub slots : length s.discarded ≡ 2 ^ k
  pub started : minus_one ≤ s.cached_gate
  pub cached_behind : s.cached_gate ≤ s.next_value
  pub room : s.next_value ≤ s.cached_gate + 2 ^ k
  pub gates : Within s.cached_gate s.next_value s.base
  pub published_behind : load s.cursor s.heap ≤ s.next_value

-- The claims are more than a lap short of 2^62.
abbrev pub IsShort : ℕ → SingleProducerSequencer → Type 0
IsShort k s = s.next_value + 2 ^ k < of_nat (2 ^ 62)

abbrev pub bad_count : ℕ → SingleProducerSequencer → Bool
bad_count count s = ltb count (of_nat 1) || ltb s.buffer_size count

module _ {k : ℕ} {s : SingleProducerSequencer} (safe : IsSafe k s) where
  abbrev least : ℕ
  least = minimum_gate s.base s.next_value

  pub least_bounds : (s.cached_gate ≤ least) × (least ≤ s.next_value)
  least_bounds = (
    minimum-ge s.heap s.cached_gate s.next_value s.gating safe.cached_behind
        (All-map s.gating (λ p q. q.0) safe.gates),
    minimum-le s.heap s.next_value s.next_value s.gating (omega arith)
        (All-map s.gating (λ p q. q.1) safe.gates),
  )

  pub least-Within : Within least s.next_value s.base
  least-Within =
      All-map₂ s.gating (λ p q r. (q, r.1)) (All-minimum-le s.heap s.next_value s.gating) safe.gates

  -- The capacity that is left, as a number.
  pub remaining_capacity_lem :
      IsShort k s → remaining_capacity s ≡ of_nat (2 ^ k - (s.next_value - least))
  unfolding remaining_capacity
  remaining_capacity_lem short = ground (arith, least_bounds, safe)

  -- On a safe ring that is short of 2^62 events, `TryNext` claims `count` events exactly if
  -- `RemainingCapacity` is that much, and reports a closed ring, a bad count and a lack of room, in
  -- this order.
  pub try_next-remaining :
      (count : ℕ)
      → IsShort k s
      → (try_next count s).0 ≡ (
          if s.is_sealed
          then err closed
          else if bad_count count s
          then err invalid_claim_size
          else if leb count (remaining_capacity s)
          then ok (s.next_value + (count - of_nat 0))
          else err insufficient_capacity)
  unfolding try_next
  try_next-remaining count short = ground (arith, remaining_capacity_lem short, least_bounds, safe)
