-- ===== src/Lib.antt =====
-- disruptor-go: a ring buffer between goroutines.
--
-- A ring buffer preallocates its events, and producers and consumers coordinate by sequences alone.
-- A producer claims sequences through a sequencer, fills the events of their slots, and publishes or
-- discards them. A consumer waits on a barrier for the next sequence, handles all events up to the
-- last one that is published without a gap, and stores where it is in a sequence of its own. Such a
-- sequence is a gate: no producer may claim more than one lap ahead of the slowest gate.
--
-- Parts
--   Prelude          shared names, Boolean tests, lists and bit operations
--   Int64            int64 and uint64 arithmetic, with its wrap-around
--   Errors           errors.go, processor_error.go
--   Publication      publication.go: the word that says how a slot was resolved
--   Heap             sequence.go, producer_wait.go: sequences, and the waiters that they signal;
--                    Heap/Wakes is about the signals, Laws about values
--   Sequencer        sequencer.go: `sequencerBase`; Sequencer/Waiting has the loops that
--                    wait, Closing is about `Close`, Positions and Gates about the gates
--   Single           sequencer_single.go: `singleProducerSequencer`. Safety, Claim and Next have the
--                    theorems on claims, Undisturbed those on claims that find room,
--                    Resolution those on `Discard`.
--   Multi            sequencer_multi.go: `multiProducerSequencer`; Multi/Claim has `Next`, `TryNext`
--                    and `Shutdown`. Slots, Words, Ranges and Resolution are about the publication
--                    words, and Refine gives these an abstract status. Safety, Kept, Exchange,
--                    Rounds, Ends and Undisturbed are about claims, and Steps, Others, Rivals and
--                    Company about claims among the operations of other goroutines. Atomic has the
--                    single loads, stores and exchanges as the steps of a relation; its Fits, Sound,
--                    Calm, Aim, Turns, Written and Resolve are about what each step keeps, and
--                    Lasting about what they all keep; Whole and Claimed have whole operations as runs
--                    of these steps.
--   Ring             ring_buffer.go: `RingBuffer`; Ring/Publish has the calls with translators, Create
--                    and Fresh are about `New`, Translate about `PublishN`
--   Barrier          barrier.go; Barrier/Waiting has `WaitFor` and the loops of wait_strategy.go,
--                    and Awaited and Unmoved are about how they end
--   Processor        processor.go: Batch has `processBatch`, Delivery what it delivers. Run has
--                    `NewBatchProcessor`, `Run` and `Halt`, and Bounds and Progress are about its
--                    loop; Life has the calls of `Run` and `Halt` as a step relation, and Lifetime
--                    what its steps keep.
--   Poller           poller.go: `EventPoller`; Acknowledge is about `Poll`
--   Loadtest         cmd/loadtest/runner.go: Config has `validateConfig`, Processors
--                    `startProcessors`, Handle its handler, Publisher the loop of `publishPhase`,
--                    Drain `waitForSequences`, Report the sums and percentiles, Once `runOnce` and
--                    `stopProcessors`. Wiring is about Processors, Stride and Published about
--                    Publisher, Deadline about Drain, Verdict about Once.
--   Apicheck         cmd/apicheck/main.go: the declarations of a package. Texts has the texts, Render
--                    the printing of declarations, Snapshot `snapshot`, `loadPackage` and `main`.
--                    Collected and Order are about the order of declarations. Parts has the
--                    exported part of a package by the rules of Go, Public and Hidden are about
--                    what is not exported, Listed about what is, Embedded about embedded
--                    fields, Baseline about the check, Loading about the files of a package.
--   Tests            a ring of eight slots, and each theorem applied to it
--
-- How Go is modelled
--   An int64 x is the number x + 2^63, so that the order of int64 is the order of numbers. `of_nat n`
--   is the int64 n, and `add` and `sub` wrap round at 2^64. A uint64 is a number below 2^64.
--   A pointer is a number, and the objects behind pointers are on a store, the field `heap` of
--   `SequencerBase`. A channel that is only ever closed and replaced is the number of times that this
--   was done.
--   A method is a function from one state to the next, with an error as a value. A callback changes a
--   state of the caller's own, and returns nil or an error or panics.
--   A loop over a range has a round for each sequence of it. A loop that may wait for ever takes a
--   list of turns, one for each round: what the other goroutines did before the round and within it,
--   whether the context was done by then, and which ready case a select took. A wait that is not over
--   at the end of its turns is `none`, and theorems about it hold for lists of any length.
--   The theorems on claims ask that the claims are more than a lap short of 2^62 events, which no ring
--   reaches in practice: beyond that the publication words of a ring of one slot repeat.
--
-- What is simplified
--   A critical section, the set-up of a ring, and a call of `Publish` or `Discard` are one step each.
--   A round of the claims `Next`, `NextN`, `TryNext` and `TryNextN`, and of the wait of a single
--   producer, reads the seal, the cursor, the cached gate, the channel to wait on and the gates in one
--   snapshot; the others act before it, and again between it and the exchange or while it waits. The
--   exchange and the `prepare` after it are one step. Multi/Atomic has the fine-grained steps
--   instead. In Multi/Company each operation of another goroutine is one step, its claims being
--   undisturbed calls of `TryNext`. `AddGatingSequences` is one step too: it loads the cursor before
--   it stores the gates, and a producer that claims in between can leave a new gate more than a
--   ring behind, so that in Multi/Company gates are added before other goroutines use the ring.
--   The other goroutines act between the steps, within the assumptions
--   that a theorem names: in Single/Next they move gates within the claims, in Multi/Safety they keep
--   a ring safe and short of 2^62 events and the cursor from moving back, which Multi/Company
--   proves of every operation that keeps to the rules stated there, and in Processor/Progress they
--   leave the processor's sequence alone.
--   In Multi/Atomic each of these is a step of its own, but for the loads of a single `IsAvailable`; there producers publish and discard what they hold from its low end on, a consumer
--   moves its gate over available sequences, the gates stay the same, and the ring is not closed.
--   In Apicheck Go's parser, type checker and formatter, the test of an exported name and the trimming
--   of space are arguments, and a part of a syntax tree that is only formatted is a number.
--   Running out of memory, but for the slices of latencies, panics of a factory, and nil pointers passed for a ring are not modelled.
--   `time.Duration`, the scheduler and the texts of errors have no effect on what is stated here.
--
-- What is not modelled
--   Of the command cmd/loadtest its flags, clocks, memory statistics, report and call of git, and the
--   collection of the publishers' errors; of cmd/apicheck its flags; the program under examples/, which
--   prints; tests and benchmarks.
--   `runOnce` takes its parts as an interface, since `publishPhase` is many goroutines.
pub mod Prelude
pub mod Int64
pub mod Errors
pub mod Publication
pub mod Heap
pub mod Sequencer
pub mod Single
pub mod Multi
pub mod Ring
pub mod Barrier
pub mod Processor
pub mod Poller
pub mod Loadtest
pub mod Apicheck
pub mod Tests
