-- ===== src/Tests/Command.antt =====
-- The theorems on the load test command, at concrete states.
use disruptor_go.Prelude.{
  ℕ, ◌+◌, ◌-◌, ◌*◌, ◌/◌, ◌%◌, ◌^◌, ◌≤◌, ◌<◌, ◌≡◌, refl, arith, ◌&&◌, true, false, ltb, leb, inr,
  ◌==◌, if◌then◌else◌, if_elim, ap, List, [], ◌∷◌, Option, none, some, length, get_or,
}
use disruptor_go.Errors.{ok, failed}
use disruptor_go.Int64.{of_nat}
use disruptor_go.Heap.{Heap, load, store}
use disruptor_go.Heap.Laws.{load-store}
use disruptor_go.Loadtest.Config.{Config}
use disruptor_go.Loadtest.Report.{percentile, rank_of, count_le, count_lt, percentile-nearest}
use disruptor_go.Loadtest.Handle.{Tally, handle_each, total_of, handle_each-total}
use disruptor_go.Loadtest.Once.{Parts, Plan, run_once}
use disruptor_go.Loadtest.Drain.{
  Round, AllReached, wait_for_sequences, wait_for_sequences-AllReached,
}
use disruptor_go.Loadtest.Deadline.{HasEnded, wait_for_sequences-HasEnded}
use disruptor_go.Loadtest.Publisher.{LoadEvent, Load, Iteration, publisher}
use disruptor_go.Loadtest.Stride.{indices, count, indices-Share}
use disruptor_go.Loadtest.Published.{ArePublished, publisher-ArePublished}
use disruptor_go.Ring.{Ending}
use disruptor_go.Loadtest.Processors.{Sampling, start_processors}
use disruptor_go.Loadtest.Wiring.{Ready, start_processors-Ready}
use disruptor_go.Tests.{positions, store_of, quiet}
use disruptor_go.Tests.Consumers.{ring, counter}

abbrev defaults : Config
defaults = record {
  mode = "throughput";
  topology = "broadcast";
  events = of_nat 1000000;
  warmup_events = of_nat 100000;
  repetitions = of_nat 1;
  producers = of_nat 1;
  consumers = of_nat 1;
  ring_size = of_nat 65536;
  batch_size = of_nat 256;
  producer_wait = "yielding";
  consumer_wait = "yielding";
  payload_size = of_nat 0;
  sample_every = of_nat 100;
  handler_delay = of_nat 0;
  timeout = of_nat 30000000000;
}

abbrev latencies : List ℕ
latencies = of_nat 3 ∷ of_nat 9 ∷ []

-- The product of a number and so many percent, rounded up.
abbrev ceiled : ℕ → ℕ → ℕ
ceiled percent n = of_nat ((percent * (n - of_nat 0) + 99) / 100)

percentile-nearest_example :
    let values = of_nat 1 ∷ latencies in
    let rank = rank_of (length values) (ceiled 50 (of_nat (length values))) in
    (rank ≤ count_le (percentile ceiled values 50) values)
    × (count_lt (percentile ceiled values 50) values < rank)
percentile-nearest_example =
    percentile-nearest ceiled (of_nat 1) latencies 50
      ((omega arith, (omega arith, tt)), ((omega arith, tt), (tt, tt))) (omega arith) (omega arith)
      (omega arith)

-- An event of two bytes.
abbrev event : LoadEvent
event = record { value = of_nat 7; published_at = 0; sampled = true; payload = 200 ∷ 100 ∷ [] }

abbrev tally : Tally
tally = record { checksums = 0 ∷ 0 ∷ []; latencies = [] ∷ [] ∷ [] }

handle_each-total_example :
    get_or (handle_each 1 true ((5, event) ∷ (6, event) ∷ []) tally).checksums 1 0 % 2 ^ 64
    ≡ (get_or tally.checksums 1 0 + (if 1 == 1 then total_of ((5, event) ∷ (6, event) ∷ []) else 0))
      % 2 ^ 64
handle_each-total_example =
    handle_each-total 1 true ((5, event) ∷ (6, event) ∷ []) tally 1 (omega arith)

-- A consumer takes an event in each round, and the context is done from the second one on.
abbrev take : Heap → Heap
take h = store 1 (load 1 h + 1) h

abbrev rounds : List Round
rounds = record { before = take; ctx_done = false } ∷ record { before = take; ctx_done = true } ∷ []

take-forward : (q : ℕ) (h : Heap) → load q h ≤ load q (take h)
take-forward q h =
    let now = load-store 1 (load 1 h + 1) q h in
    if_elim (λ v. load q (take h) ≡ v → load q h ≤ load q (take h)) (1 == q) (load 1 h + 1)
      (load q h)
      (λ same e.
        let here : load 1 h ≡ load q h = ap (λ p. load p h) (ground (arith, same)) in
        omega (arith, e, here))
      (λ other e. omega (arith, e)) now

wait_for_sequences-AllReached_example :
    AllReached
      (1 ∷ 0 ∷ [])
      (of_nat 6)
      (wait_for_sequences rounds (1 ∷ 0 ∷ []) (of_nat 6) (store_of positions))
wait_for_sequences-AllReached_example =
    wait_for_sequences-AllReached rounds (1 ∷ 0 ∷ []) (of_nat 6) (store_of positions)
      (take-forward, (take-forward, tt))

wait_for_sequences-HasEnded_example :
    HasEnded (wait_for_sequences rounds (1 ∷ []) (of_nat 6) (store_of positions))
wait_for_sequences-HasEnded_example =
    wait_for_sequences-HasEnded (of_nat 6) (1 ∷ []) rounds (store_of positions) (omega arith)

indices-Share_example :
    count (of_nat 3) (indices 5 (of_nat 2) (of_nat 5) (of_nat 1))
    ≡ (if ltb (of_nat 3) (of_nat 5) && ((of_nat 3 - of_nat 0) % 2 == 1) then 1 else 0)
indices-Share_example =
    indices-Share 2 (of_nat 5) 5 1 (of_nat 3) (omega arith) (omega arith) (omega arith)
      (omega arith) (omega arith)

abbrev iteration : Iteration
iteration = record {
  claim = record { of_single = []; of_multi = quiet ∷ [] };
  claimed = λ l. l;
  now = 0;
  filled = λ l. l;
}

abbrev load_of_two : Load
load_of_two = record { ring = ring; events = λ p. event }

-- What the publisher with number 1 of two does for three events.
abbrev one_of_two : Option Ending × Load
one_of_two =
    publisher (iteration ∷ []) (of_nat 2) (of_nat 0) (of_nat 3) true (of_nat 2) (of_nat 1)
      load_of_two

publisher-ArePublished_example :
    ArePublished
      (of_nat 0)
      true
      (of_nat 2)
      (indices 3 (of_nat 2) (of_nat 3) (of_nat 1))
      (iteration ∷ [])
      load_of_two
      one_of_two.1
unfolding publisher disruptor_go.Ring.get
publisher-ArePublished_example =
    publisher-ArePublished (of_nat 0) true (of_nat 2) (iteration ∷ []) 2 (of_nat 3) 3 1 load_of_two
      one_of_two.1 (omega arith) (omega arith) (omega arith) (omega arith) (omega arith) refl

-- Every hundredth of a thousand events, where a capacity of at most a million can be made.
abbrev sampling : Sampling
sampling = record {
  latency = true;
  events = of_nat 1000;
  sample_every = of_nat 100;
  made = λ capacity. leb (of_nat 0) capacity && leb capacity (of_nat 1000000);
}

start_processors-Ready_example :
    Ready true
      (of_nat 4)
      ring
      (of_nat 3 - of_nat 1)
      (start_processors sampling (of_nat 3) true (λ i. counter) (of_nat 4) ring)
start_processors-Ready_example =
    start_processors-Ready true (of_nat 4) sampling (of_nat 3) (λ i. counter) ring (inr refl)
      (omega arith) (omega arith) refl

-- Parts that count their calls, where the second of two processors' runs fails and the first is
-- not started.
abbrev counting : Parts ℕ ℕ
counting = record {
  create = λ s. (none, s + 1);
  start = λ s. (ok (none ∷ some (some (failed 7)) ∷ []), s + 1);
  publish_phase = λ base events sample s. (none, s + 1);
  wait = λ target s. (none, s + 1);
  clear = λ s. s + 1;
  cancel = λ s. s + 1;
  halt_all = λ s. s + 1;
  close = λ s. s + 1;
  report = λ s. s;
  is_cancelled = λ e. false;
}

abbrev two_events : Plan
two_events = record { warmup_events = of_nat 1; events = of_nat 2; latency = false }

run_once_hangs : (run_once counting two_events 0).0 ≡ none
unfolding run_once
run_once_hangs = refl
