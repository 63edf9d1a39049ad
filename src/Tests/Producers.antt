-- ===== src/Tests/Producers.antt =====
-- The theorems on claims, publications and new rings, at concrete states.
use disruptor_go.Prelude.{
  ltb, ◌||◌, ◌^◌, ℕ, ◌+◌, ◌-◌, ◌≡◌, ◌⊎◌, ◌≤◌, ◌<◌, refl, false, [], ◌∷◌, arith, leb, leb→le,
  if◌then◌else◌, Option, none, some, ◌&&◌,
}
use disruptor_go.Int64.{of_nat}
use disruptor_go.Errors.{
  ok, err, closed, invalid_claim_size, insufficient_capacity, invalid_buffer_size,
}
use disruptor_go.Publication.{published, discarded}
use disruptor_go.Heap.Wakes.{channel, channel-store}
use disruptor_go.Heap.{Heap, store, minimum_sequence, producer_wait_blocking}
use disruptor_go.Single
use disruptor_go.Single.Safety as SingleSafety
use disruptor_go.Single.Resolution as SingleResolution
use disruptor_go.Single.Next as SingleNext
use disruptor_go.Multi
use disruptor_go.Multi.Safety as MultiSafety
use disruptor_go.Multi.Slots.{IsRing, is_claimed}
use disruptor_go.Multi.Claim
use disruptor_go.Multi.Ends as MultiEnds
use disruptor_go.Multi.Resolution.{Scanned, resolution-discard-publish, highest_published-Scanned}
use disruptor_go.Sequencer.Waiting.{signalled}
use disruptor_go.Multi.Undisturbed.{undisturbed, try_next-undisturbed, next-undisturbed}
use disruptor_go.Single.Undisturbed.{next-remaining}
use disruptor_go.Ring.{new}
use disruptor_go.Ring.Create.{IsPowerOfTwo, past_size, new-branches}
use disruptor_go.Tests.{positions, store_of, half_full, one_producer, many_producers, quiet}

one_producer-IsSafe : SingleSafety.IsSafe 3 one_producer
one_producer-IsSafe = record {
  size = refl;
  small = omega arith;
  slots = refl;
  started = omega arith;
  cached_behind = omega arith;
  room = omega arith;
  gates = ((omega arith, omega arith), tt);
  published_behind = omega arith;
}

pub many_producers-IsRing : IsRing 3 many_producers
many_producers-IsRing = record {
  mask = refl;
  shift = refl;
  slots = refl;
  size = refl;
  small = omega arith;
}

pub many_producers-IsSafe : MultiSafety.IsSafe 3 many_producers
many_producers-IsSafe = record {
  ring = many_producers-IsRing;
  guarded = record {
    cache_apart = omega arith;
    started = omega arith;
    cache_behind = omega arith;
    gates = (
      record {
        not_cursor = omega arith;
        not_cache = omega arith;
        cached = omega arith;
        behind = omega arith;
        room = omega arith;
      },
      tt,
    );
  };
}

quiet-Keeps : (hi : ℕ) → SingleNext.Keeps hi (λ b. b)
quiet-Keeps hi lo b gates below = record { size = refl; gates = gates; published = below }

quiet_consumers-IsFair : (hi : ℕ) → SingleNext.IsFair hi quiet
quiet_consumers-IsFair hi = record { before = quiet-Keeps hi; during = quiet-Keeps hi }

next-Ends_example :
    SingleNext.Ends 3 one_producer (of_nat 7) (Single.next (quiet ∷ []) (of_nat 7) one_producer)
next-Ends_example =
    SingleNext.next-Ends {k = 3} (quiet ∷ []) (of_nat 7) one_producer
      (quiet_consumers-IsFair one_producer.next_value, tt) one_producer-IsSafe (omega arith)

try_next-remaining_example : (Single.try_next (of_nat 7) one_producer).0 ≡ (
    if one_producer.is_sealed
    then err closed
    else if SingleSafety.bad_count (of_nat 7) one_producer
    then err invalid_claim_size
    else if leb (of_nat 7) (Single.remaining_capacity one_producer)
    then ok (one_producer.next_value + (of_nat 7 - of_nat 0))
    else err insufficient_capacity)
try_next-remaining_example =
    SingleSafety.try_next-remaining {k = 3} {s = one_producer} one_producer-IsSafe (of_nat 7)
      (omega arith)

resolution-discard-publish_example :
    Multi.resolution
      (Multi.discard (of_nat 5) (of_nat 6) (Multi.publish (of_nat 6) (of_nat 6) many_producers))
      (of_nat 6)
    ≡ (if (leb (of_nat 6) (of_nat 6) && leb (of_nat 6) (of_nat 6))
          && is_claimed many_producers (of_nat 6)
        then published
        else if (leb (of_nat 5) (of_nat 6) && leb (of_nat 6) (of_nat 6))
            && is_claimed many_producers (of_nat 6)
        then discarded
        else Multi.resolution many_producers (of_nat 6))
resolution-discard-publish_example =
    resolution-discard-publish {k = 3} {s = many_producers} many_producers-IsRing (of_nat 6)
      (of_nat 6) (of_nat 5) (of_nat 6) (of_nat 6) (omega arith, omega arith)
      (omega arith, omega arith) (omega arith, omega arith) (omega arith, omega arith)
      (omega arith, omega arith)

highest_published-Scanned_example :
    Scanned many_producers
      (of_nat 3)
      (of_nat 6)
      (Multi.highest_published many_producers (of_nat 3) (of_nat 6))
highest_published-Scanned_example =
    highest_published-Scanned many_producers (of_nat 3) (of_nat 6) (omega arith, omega arith)
      (omega arith, omega arith) (omega arith)

abbrev Same : ℕ → ℕ → Type 0
Same m n = m ≡ n

abbrev factory : Option (ℕ → ℕ)
factory = some (λ i. i)

new-branches_example :
    ((¬ IsPowerOfTwo (of_nat 8))
      × (new (of_nat 8) 1 factory none [] half_full.heap ≡ err invalid_buffer_size))
    ⊎ (IsPowerOfTwo (of_nat 8)
        × (new (of_nat 8) 1 factory none [] half_full.heap
            ≡ past_size (of_nat 8) 1 factory none [] half_full.heap))
new-branches_example = new-branches (of_nat 8) 1 factory none [] half_full.heap (omega arith)

try_next-undisturbed_example :
    (Claim.try_next (undisturbed false signalled ∷ []) (of_nat 3) many_producers).0
    ≡ some (
        if Claim.bad_count (of_nat 3) many_producers
        then err invalid_claim_size
        else if many_producers.is_sealed
        then err closed
        else if leb (of_nat 3) (Multi.remaining_capacity many_producers)
        then ok (MultiSafety.cursor_of many_producers + (of_nat 3 - of_nat 0))
        else err insufficient_capacity)
try_next-undisturbed_example =
    try_next-undisturbed {k = 3} {s = many_producers} false signalled [] (of_nat 3)
      many_producers-IsSafe (omega arith)

-- Both rings have room for three events.
remaining_capacity-many_producers : of_nat 3 ≤ Multi.remaining_capacity many_producers
unfolding Multi.remaining_capacity minimum_sequence
remaining_capacity-many_producers = leb→le (of_nat 3) (Multi.remaining_capacity many_producers) refl

remaining_capacity-one_producer : of_nat 3 ≤ Single.remaining_capacity one_producer
unfolding Single.remaining_capacity minimum_sequence
remaining_capacity-one_producer = leb→le (of_nat 3) (Single.remaining_capacity one_producer) refl

next-undisturbed_example :
    (Claim.next (undisturbed false signalled ∷ []) (of_nat 3) many_producers).0
    ≡ some (ok (MultiSafety.cursor_of many_producers + (of_nat 3 - of_nat 0)))
next-undisturbed_example =
    next-undisturbed {k = 3} {s = many_producers} false signalled [] (of_nat 3)
      many_producers-IsSafe (omega arith) refl refl remaining_capacity-many_producers

next-remaining_example :
    (Single.next (quiet ∷ []) (of_nat 3) one_producer).0
    ≡ some (ok (one_producer.next_value + (of_nat 3 - of_nat 0)))
next-remaining_example =
    next-remaining {k = 3} {s = one_producer} quiet [] (of_nat 3) refl one_producer-IsSafe
      (omega arith) refl refl remaining_capacity-one_producer

-- A producer blocks on the waiter 3, which the gate signals.
abbrev signalling : Heap
signalling = record (store_of positions) {
  sequences = λ p. record { value = positions p; signals = 3 ∷ [] };
  waiters = λ p. record { mode = producer_wait_blocking; ch = 0; waiting = of_nat 1; waits = 1 };
}

channel-store_example : channel 3 signalling < channel 3 (store 1 (of_nat 5) signalling)
channel-store_example = channel-store 1 (of_nat 5) 3 signalling refl refl

one_producer-IsRing : SingleResolution.IsRing 3 one_producer
one_producer-IsRing = record { size = refl; small = omega arith; slots = refl }

is_discarded-discard_example :
    (SingleResolution.cursor_of (Single.discard (of_nat 7) (of_nat 8) one_producer) ≡ of_nat 8)
    × (Single.is_discarded (Single.discard (of_nat 7) (of_nat 8) one_producer) (of_nat 7)
        ≡ (leb (of_nat 7) (of_nat 8) && ltb (of_nat 8) (of_nat 7 + 2 ^ 3))
          && (leb (of_nat 7) (of_nat 7) || Single.is_discarded one_producer (of_nat 7)))
is_discarded-discard_example =
    SingleResolution.is_discarded-discard {k = 3} {s = one_producer} one_producer-IsRing (of_nat 7)
      (of_nat 8) (of_nat 7) (omega arith, omega arith) (omega arith, omega arith)
      (omega arith, omega arith) (omega arith) refl
