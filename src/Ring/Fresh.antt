-- ===== src/Ring/Fresh.antt =====
-- sequencer_single.go and sequencer_multi.go: a new sequencer is safe to claim from.
use disruptor_go.Prelude.{
  replicate, length, ℕ, zero, suc, ◌*◌, ◌/◌, ◌%◌, ◌^◌, ◌≤◌, ◌<◌, ◌≡◌, refl, ◌∙◌, ap, arith, dec_lt,
  Option, none, some, List, [], All, length-replicate, get_or-replicate_lt, ◌-◌,
}
use native.Mathlib.Nat.{pow-le-pow_right, one-le-pow, pow-suc}
use disruptor_go.Int64.{of_nat, minus_one, to_u64}
use disruptor_go.Heap.{Heap, load, new_sequence, new_producer_waiter}
use disruptor_go.Sequencer.{WaitStrategy, SequencerBase, new_sequencer_base, new_blocking_wait}
use disruptor_go.Single.{new_single}
use disruptor_go.Publication.{
  discard_marker, publication_value-ne-minus_one, unresolved, published, discarded,
}
use disruptor_go.Multi.{MultiProducerSequencer, new_multi, trailing_zeros, index, resolution}
use disruptor_go.Multi.Slots.{IsRing, InRange, word, is_claimed, index-lt, flag_lem, lap-lt}
use disruptor_go.Single.Safety as SingleSafety
use disruptor_go.Multi.Safety as MultiSafety

-- What both kinds start from.
record IsFresh (size : ℕ) (b : SequencerBase) : Type 0 where
  kept : b.buffer_size ≡ size
  gates : b.gating ≡ []
  start : load b.cursor b.heap ≡ minus_one
  below : b.cursor < b.heap.next

new_sequencer_base-IsFresh :
    (size : ℕ) (wait : Option WaitStrategy) (mode : ℕ) (h : Heap)
    → IsFresh size (new_sequencer_base size wait mode h)
unfolding new_sequencer_base new_sequence new_producer_waiter new_blocking_wait
new_sequencer_base-IsFresh size none mode h = record {
  kept = refl;
  gates = refl;
  start = ground arith;
  below = ground arith;
}
new_sequencer_base-IsFresh size (some wait) mode h = record {
  kept = refl;
  gates = refl;
  start = ground arith;
  below = ground arith;
}

pub cursor-new_multi :
    (size : ℕ) (wait : Option WaitStrategy) (mode : ℕ) (h : Heap)
    → MultiSafety.cursor_of (new_multi size wait mode h) ≡ minus_one
unfolding new_multi new_sequence
cursor-new_multi size wait mode h =
    let fresh = new_sequencer_base-IsFresh size wait mode h in ground (arith, fresh)

trailing_zeros_lem : (k w : ℕ) → k < w → trailing_zeros w (2 ^ k) ≡ k
unfolding trailing_zeros
trailing_zeros_lem zero zero lt = absurd (omega arith)
trailing_zeros_lem (suc k) zero lt = absurd (omega arith)
trailing_zeros_lem zero (suc w) lt = refl
trailing_zeros_lem (suc k) (suc w) lt =
    let twice : 2 ^ suc k ≡ 2 ^ k * 2 = pow-suc 2 k in
    let half : 2 ^ suc k / 2 ≡ 2 ^ k = omega (arith, twice) in
    let even : 2 ^ suc k % 2 ≡ 0 = omega (arith, twice) in
    rw (half, even) (omega (arith, trailing_zeros_lem k w (omega arith)))

no_gates : (P : ℕ → Type 0) (l : List ℕ) → l ≡ [] → All P l
no_gates P l e = rw e tt

module _ (k : ℕ) (wait : Option WaitStrategy) (mode : ℕ) (h : Heap) (few : 2 ^ k ≤ 2 ^ 62) where
  -- A new single-producer sequencer whose size is a power of two up to 2^62 is safe to claim from,
  -- with any strategy, mode and store.
  pub new_single-IsSafe : SingleSafety.IsSafe k (new_single (of_nat (2 ^ k)) wait mode h)
  unfolding new_single discard_marker
  new_single-IsSafe =
      let fresh = new_sequencer_base-IsFresh (of_nat (2 ^ k)) wait mode h in
      record {
        size = fresh.kept;
        small = few;
        slots = length-replicate _ _ ∙ length-replicate _ _ ∙ omega arith;
        started = omega arith;
        cached_behind = omega arith;
        room = omega arith;
        gates = no_gates _ _ fresh.gates;
        published_behind = omega (arith, fresh.start);
      }

  -- A new multi-producer sequencer whose size is a power of two up to 2^62 is safe to claim from,
  -- with any strategy, mode and store; its mask, its shift and its slots fit its size.
  pub new_multi-IsSafe : MultiSafety.IsSafe k (new_multi (of_nat (2 ^ k)) wait mode h)
  unfolding new_multi new_sequence
  new_multi-IsSafe =
      let fresh = new_sequencer_base-IsFresh (of_nat (2 ^ k)) wait mode h in
      let narrow : k < 64 = elim (dec_lt k 64) [
        | yes lt ↦ lt
        | no ge ↦
            absurd
              (omega (arith, pow-le-pow_right {n = 2} (omega arith) {i = 63} {j = k} (omega arith)))
      ] in
      let pos : 1 ≤ 2 ^ k = one-le-pow k 2 (omega arith) in
      let same : to_u64 (of_nat (2 ^ k)) ≡ 2 ^ k = omega arith in
      record {
        ring = record {
          mask = omega (arith, pos);
          shift = ap (trailing_zeros 64) same ∙ trailing_zeros_lem k 64 narrow;
          slots = length-replicate _ _ ∙ omega arith;
          size = fresh.kept;
          small = few;
        };
        guarded = record {
          cache_apart = omega (arith, fresh.below);
          started = ground (arith, fresh);
          cache_behind = ground (arith, fresh);
          gates = no_gates _ _ fresh.gates;
        };
      }

-- Where every slot holds -1, no sequence looks claimed or resolved.
module _ {k : ℕ} {s : MultiProducerSequencer} (ring : IsRing k s) (n : ℕ)
    (empty : s.available ≡ replicate n minus_one) where
  word-empty : (q : ℕ) → InRange q → word s q ≡ minus_one
  unfolding index
  word-empty q r =
      let at : index s q < n =
        omega (arith, index-lt ring q r, ap length empty, length-replicate n minus_one) in
      rw empty (get_or-replicate_lt n (index s q) minus_one (of_nat 0) at)

  pub empty-IsClean : MultiSafety.IsClean s
  unfolding is_claimed resolution
  empty-IsClean q r above = ground (
    arith,
    word-empty q r,
    flag_lem ring q r,
    publication_value-ne-minus_one lap unresolved lap_lt (omega arith),
    publication_value-ne-minus_one lap published lap_lt (omega arith),
    publication_value-ne-minus_one lap discarded lap_lt (omega arith),
  )
    where
      lap : ℕ
      lap = (q - of_nat 0) / 2 ^ k

      lap_lt : lap < 2 ^ 62
      lap_lt = lap-lt ring q r

pub new_multi-IsClean :
    (k : ℕ) (wait : Option WaitStrategy) (mode : ℕ) (h : Heap)
    → 2 ^ k ≤ 2 ^ 62
    → MultiSafety.IsClean (new_multi (of_nat (2 ^ k)) wait mode h)
unfolding new_multi
new_multi-IsClean k wait mode h few =
    empty-IsClean (new_multi-IsSafe k wait mode h few).ring (of_nat (2 ^ k) - of_nat 0) refl
