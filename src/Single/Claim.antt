-- ===== src/Single/Claim.antt =====
-- sequencer_single.go: `TryNext` and `Next` keep a ring safe, while consumers move on.
use disruptor_go.Prelude.{
  ℕ, ◌+◌, ◌-◌, ◌^◌, ◌≤◌, ◌≡◌, refl, ◌∙◌, false, ◌||◌, arith, ltb, All-map, if_elim, ltb→le,
}
use disruptor_go.Int64.{of_nat, minus_one, add, sub}
use disruptor_go.Errors.{Result}
use disruptor_go.Heap.{load}
use disruptor_go.Sequencer.{SequencerBase, minimum_gate}
use disruptor_go.Single.{SingleProducerSequencer, try_next}
use disruptor_go.Single.Safety.{Within, IsSafe, IsShort, bad_count, least_bounds, least-Within}

-- The state that a claim ends in: up to `next`, against a gate that it has read.
unfoldable pub claimed : SingleProducerSequencer → ℕ → ℕ → SequencerBase → SingleProducerSequencer
claimed s gate n b = record s { base = b; cached_gate = gate; next_value = n }

-- What a base must keep while its producer waits.
pub record IsKept (lo hi : ℕ) (b b' : SequencerBase) : Type 0 where
  pub size : b'.buffer_size ≡ b.buffer_size
  pub gates : Within lo hi b'
  pub published : load b'.cursor b'.heap ≤ hi

pub raise :
    (lo lo' hi hi' : ℕ) (b : SequencerBase)
    → lo' ≤ lo
    → hi ≤ hi'
    → Within lo hi b
    → Within lo' hi' b
raise lo lo' hi hi' b p q = All-map b.gating (λ g r. (omega arith, omega arith))

pub claim-IsSafe :
    {k : ℕ} (s : SingleProducerSequencer) (b : SequencerBase) (gate n : ℕ)
    → IsSafe k s
    → IsKept gate s.next_value s.base b
    → minus_one ≤ gate
    → gate ≤ n
    → s.next_value ≤ n
    → n ≤ gate + 2 ^ k
    → IsSafe k (claimed s gate n b)
unfolding claimed
claim-IsSafe {k} s b gate n safe kept low below up near = record {
  size = kept.size ∙ safe.size;
  small = safe.small;
  slots = safe.slots;
  started = low;
  cached_behind = below;
  room = near;
  gates = raise gate gate s.next_value n b (omega arith) up kept.gates;
  published_behind = omega (arith, kept.published);
}

-- The numbers of a claim.
pub claim_numbers :
    {k : ℕ} {s : SingleProducerSequencer} (count : ℕ)
    → IsSafe k s
    → IsShort k s
    → bad_count count s ≡ false
    → (add s.next_value count ≡ s.next_value + (count - of_nat 0))
      × (sub (add s.next_value count) s.buffer_size + 2 ^ k ≡ s.next_value + (count - of_nat 0))
claim_numbers {k} {s} count safe short good = ground (arith, safe)

pub own-IsKept :
    {k : ℕ} {s : SingleProducerSequencer} (lo : ℕ)
    → IsSafe k s
    → Within lo s.next_value s.base
    → IsKept lo s.next_value s.base s.base
own-IsKept lo safe w = record { size = refl; gates = w; published = safe.published_behind }

-- `TryNext` keeps a safe ring that is short of 2^62 events safe, on each of its branches.
pub try_next-IsSafe :
    {k : ℕ} {s : SingleProducerSequencer} (count : ℕ)
    → IsSafe k s
    → IsShort k s
    → IsSafe k (try_next count s).1
unfolding try_next claimed
try_next-IsSafe {k} {s} count safe short =
    if_elim Kept s.is_sealed _ _ (λ sealed. safe)
      (λ open_ring.
        if_elim Kept (bad_count count s) _ _ (λ bad. safe)
          (λ good.
            let numbers = claim_numbers count safe short good in
            let grows : s.next_value ≤ add s.next_value count = omega (arith, numbers) in
            if_elim Kept
              (ltb s.cached_gate (sub (add s.next_value count) s.buffer_size)
                || ltb s.next_value s.cached_gate)
              _ _
              (λ stale.
                if_elim Kept
                  (ltb (minimum_gate s.base s.next_value)
                    (sub (add s.next_value count) s.buffer_size))
                  _ _
                  (λ full.
                    claim-IsSafe s s.base (minimum_gate s.base s.next_value) s.next_value safe
                      at_least low (least_bounds safe).1 (omega arith)
                      (omega (arith, least_bounds safe, safe)))
                  (λ room.
                    claim-IsSafe s s.base (minimum_gate s.base s.next_value)
                      (add s.next_value count) safe at_least low (omega (arith, least_bounds safe))
                      grows (omega (arith, numbers, ltb→le _ _ room))))
              (λ enough.
                claim-IsSafe s s.base s.cached_gate (add s.next_value count) safe
                  (own-IsKept s.cached_gate safe safe.gates) safe.started (omega (arith, safe))
                  grows (ground (arith, numbers)))))
  where
    Kept : Result ℕ × SingleProducerSequencer → Type 0
    Kept c = IsSafe k c.1

    low : minus_one ≤ minimum_gate s.base s.next_value
    low = omega (arith, least_bounds safe, safe)

    at_least : IsKept (minimum_gate s.base s.next_value) s.next_value s.base s.base
    at_least = own-IsKept (minimum_gate s.base s.next_value) safe (least-Within safe)
