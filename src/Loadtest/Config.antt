-- ===== src/Loadtest/Config.antt =====
-- cmd/loadtest/runner.go: the command's configuration, and the check of it.
use Prim.Native.String.{String}
use text.Mathlib.Text.{◌==◌}
use disruptor_go.Prelude.{
  ℕ, ◌≤◌, ◌≡◌, Bool, true, false, ◌&&◌, ◌||◌, not, Option, none, some, ltb, leb, if◌then◌else◌,
  List, [], ◌∷◌,
}
use disruptor_go.Int64.{of_nat}
use disruptor_go.Heap.{
  Heap, producer_wait_yielding, producer_wait_blocking, producer_wait_busy_spin,
}
use disruptor_go.Sequencer.{
  WaitStrategy, busy_spin_wait, yielding_wait, sleeping_wait, new_blocking_wait,
}

-- The fields of `config` but the environment's label; the delay and the timeout in nanoseconds.
pub record Config : Type 0 where
  pub mode : String
  pub topology : String
  pub events : ℕ  -- int64
  pub warmup_events : ℕ  -- int64
  pub repetitions : ℕ  -- int
  pub producers : ℕ  -- int
  pub consumers : ℕ  -- int
  pub ring_size : ℕ  -- int64
  pub batch_size : ℕ  -- int64
  pub producer_wait : String
  pub consumer_wait : String
  pub payload_size : ℕ  -- int
  pub sample_every : ℕ  -- int64
  pub handler_delay : ℕ  -- int64
  pub timeout : ℕ  -- int64

-- The errors of the check, by what they complain of.
pub data Complaint : Type 0 where
  bad_mode bad_topology bad_counts few_stages bad_payload bad_sampling bad_timing : Complaint
  bad_producer_wait bad_consumer_wait : Complaint

-- `parseProducerWait`; `none` is its error.
unfoldable pub parse_producer_wait : String → Option ℕ
parse_producer_wait value =
    if value == "yielding"
    then some producer_wait_yielding
    else if value == "blocking"
    then some producer_wait_blocking
    else if value == "busy-spin"
    then some producer_wait_busy_spin
    else none

-- `parseConsumerWait`, with the store that has a blocking strategy; `none` is its error.
unfoldable pub parse_consumer_wait : String → Heap → Option (WaitStrategy × Heap)
unfolding new_blocking_wait
parse_consumer_wait value h =
    if value == "blocking"
    then some (new_blocking_wait h)
    else if value == "sleeping"
    then some (sleeping_wait 100 100 1000, h)
    else if value == "yielding"
    then some (yielding_wait, h)
    else if value == "busy-spin"
    then some (busy_spin_wait, h)
    else none

abbrev failed {ℓ} : {A : Type ℓ} → Option A → Bool
failed none = true
failed (some a) = false

-- The tests of `validateConfig` with their errors, in order; a blocking strategy that it makes is
-- dropped.
abbrev checks : Config → Heap → List (Complaint × Bool)
checks c h =
    (bad_mode, not (c.mode == "throughput") && not (c.mode == "latency"))
    ∷ (bad_topology, not (c.topology == "broadcast") && not (c.topology == "pipeline"))
    ∷ (
      bad_counts,
      ltb c.events (of_nat 1)
          || ltb c.warmup_events (of_nat 0)
          || ltb c.repetitions (of_nat 1)
          || ltb c.producers (of_nat 1)
          || ltb c.consumers (of_nat 1)
          || ltb c.batch_size (of_nat 1),
    )
    ∷ (few_stages, c.topology == "pipeline" && ltb c.consumers (of_nat 2))
    ∷ (bad_payload, ltb c.payload_size (of_nat 0))
    ∷ (bad_sampling, c.mode == "latency" && ltb c.sample_every (of_nat 1))
    ∷ (bad_timing, ltb c.handler_delay (of_nat 0) || leb c.timeout (of_nat 0))
    ∷ (bad_producer_wait, failed (parse_producer_wait c.producer_wait))
    ∷ (bad_consumer_wait, failed (parse_consumer_wait c.consumer_wait h))
    ∷ []

-- The error of the first test that holds.
abbrev first_complaint : List (Complaint × Bool) → Option Complaint
first_complaint [] = none
first_complaint ((c, wrong) ∷ rest) = if wrong then some c else first_complaint rest

-- validateConfig
unfoldable pub validate_config : Config → Heap → Option Complaint
unfolding parse_producer_wait parse_consumer_wait
validate_config c h = first_complaint (checks c h)

-- What the rest of the command relies on.
pub record IsValid (c : Config) : Type 0 where
  pub events : of_nat 1 ≤ c.events
  pub producers : of_nat 1 ≤ c.producers
  pub consumers : of_nat 1 ≤ c.consumers
  pub stages : c.topology == "pipeline" ≡ true → of_nat 2 ≤ c.consumers
  pub batch_size : of_nat 1 ≤ c.batch_size
  pub sample_every : c.mode == "latency" ≡ true → of_nat 1 ≤ c.sample_every
