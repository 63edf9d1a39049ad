-- ===== src/Tests/Company.antt =====
-- The theorems on claims and gates among other goroutines, at concrete states.
use disruptor_go.Prelude.{
  ℕ, ◌+◌, ◌≡◌, refl, true, false, List, [], ◌∷◌, some, none, arith, if◌then◌else◌,
}
use disruptor_go.Int64.{of_nat}
use disruptor_go.Heap.{Heap, initial_sequence, producer_wait_blocking}
use disruptor_go.Sequencer.{new_sequencer_base, add_gating_sequences, remove_gating_sequence}
use disruptor_go.Sequencer.Waiting.{signalled}
use disruptor_go.Sequencer.Gates.{IsRestored, remove_gating_sequence-add_gating_sequences}
use disruptor_go.Multi
use disruptor_go.Multi.{MultiProducerSequencer}
use disruptor_go.Multi.Claim
use disruptor_go.Multi.Safety.{IsSafe, IsClean}
use disruptor_go.Multi.Company.{
  Op, claims, publishes, allowed, Crowd, performs, add_gates, acts-new_multi,
}
use disruptor_go.Multi.Refine as Refine
use disruptor_go.Multi.Refine.{Change}
use disruptor_go.Ring.{fails}
use disruptor_go.Ring.Publish.{Translator}
use disruptor_go.Tests.{half_full}

-- The others publish sequence 6 before a round, and claim one within it as long as there are
-- sequences left.
abbrev crowd : Crowd
crowd = record {
  before = λ s. publishes (of_nat 6) (of_nat 6) ∷ [];
  during = λ s. if allowed 3 (claims (of_nat 1)) s then claims (of_nat 1) ∷ [] else [];
  ctx_done = false;
  wake = signalled;
}

abbrev history : List Op
history = claims (of_nat 3) ∷ publishes (of_nat 0) (of_nat 1) ∷ []

-- A store of new sequences.
abbrev new_heap : Heap
new_heap = record half_full.heap {
  sequences = λ p. record { value = initial_sequence; signals = [] };
}

abbrev new_ring : MultiProducerSequencer
new_ring = Multi.new_multi (of_nat 8) none producer_wait_blocking new_heap

acts-new_multi_example :
    IsSafe 3 (performs history (add_gates (1 ∷ []) new_ring))
    × IsClean (performs history (add_gates (1 ∷ []) new_ring))
unfolding Multi.new_multi new_sequencer_base Claim.try_next add_gating_sequences
    disruptor_go.Heap.store disruptor_go.Heap.add_signal Multi.prepare
acts-new_multi_example =
    acts-new_multi 3 none producer_wait_blocking new_heap (1 ∷ []) history (omega arith) (refl, tt)
      (refl, (refl, tt))

-- The next two events are claimed, then 6 is published, and discarded in vain.
abbrev resolved_twice : List Change
resolved_twice =
    Refine.prepares (of_nat 7) (of_nat 8)
    ∷ Refine.publishes (of_nat 6) (of_nat 6)
    ∷ Refine.discards (of_nat 5) (of_nat 6)
    ∷ []

remove_gating_sequence-add_gating_sequences_example :
    ((remove_gating_sequence 3 (add_gating_sequences (some 3 ∷ []) half_full)).0 ≡ true)
    × IsRestored 3 half_full
        (remove_gating_sequence 3 (add_gating_sequences (some 3 ∷ []) half_full)).1
remove_gating_sequence-add_gating_sequences_example =
    remove_gating_sequence-add_gating_sequences 3 half_full refl refl refl

-- A translator that always fails.
abbrev failing : Translator ℕ ℕ
failing event sequence calls = (fails 1, calls + 1)
