-- ===== src/Sequencer/Waiting.antt =====
-- producer_wait.go and sequencer.go: waiting for capacity, and for a shutdown to drain.
use disruptor_go.Prelude.{
  [], ℕ, ◌+◌, ◌%◌, ◌^◌, Bool, List, ◌∷◌, Option, none, some, ltb, leb, ◌==◌, if◌then◌else◌,
}
use disruptor_go.Errors.{cancelled, closed, Result, ok, err}
use disruptor_go.Int64.{add, of_nat, minus_one}
use disruptor_go.Heap.{update, producer_wait_blocking, minimum_sequence}
use disruptor_go.Sequencer.{SequencerBase, minimum_gate, close}

-- Which case of a `select` is taken where several are ready.
pub data Wake : Type 0 where
  signalled done shut : Wake

-- One round of a goroutine that waits: what the others do before it looks at the state and while
-- it waits, whether its context is done by then, and the case that it takes.
pub record Turn {ℓ} (S : Type ℓ) : Type ℓ where
  pub before : S → S
  pub during : S → S
  pub ctx_done : Bool
  pub wake : Wake

-- `prepare`: the channel that is open now.
abbrev pub prepared : SequencerBase → ℕ
prepared b = (b.heap.waiters b.producer_wait).ch

abbrev is_blocking : SequencerBase → Bool
is_blocking b = (b.heap.waiters b.producer_wait).mode == producer_wait_blocking

count_waiting : ℕ → ℕ → SequencerBase → SequencerBase
count_waiting delta entered b =
    let w = b.heap.waiters b.producer_wait in
    let w' = record w { waiting = add w.waiting delta; waits = (w.waits + entered) % 2 ^ 64 } in
    record b { heap = record b.heap { waiters = update b.heap.waiters b.producer_wait w' } }

-- The blocking `select`: `none` where the case that is taken is not ready.
select_blocking : Wake → Bool → ℕ → SequencerBase → Option (Result (Unit {0}))
select_blocking signalled ctx_done ch b = if ltb ch (prepared b) then some (ok tt) else none
select_blocking done ctx_done ch b = if ctx_done then some (err cancelled) else none
select_blocking shut ctx_done ch b = if b.closed_ch then some (err closed) else none

-- A `select` with a default.
abbrev select_now : Wake → Bool → SequencerBase → Result (Unit {0})
select_now done ctx_done b =
    if ctx_done then err cancelled else if b.closed_ch then err closed else ok tt
select_now _ ctx_done b =
    if b.closed_ch then err closed else if ctx_done then err cancelled else ok tt

-- `producerWaiter.wait` up to its `select`, and from there on. The modes that do not block differ
-- by a call of the scheduler, which is what the other goroutines do meanwhile.
unfoldable pub start_wait : SequencerBase → SequencerBase
unfolding count_waiting
start_wait b = if is_blocking b then count_waiting (of_nat 1) 1 b else b

unfoldable pub finish_wait :
    Wake → Bool → ℕ → SequencerBase → Option (Result (Unit {0})) × SequencerBase
unfolding count_waiting select_blocking
finish_wait wake ctx_done ch b =
    if is_blocking b
    then (select_blocking wake ctx_done ch b, count_waiting minus_one 0 b)
    else (some (select_now wake ctx_done b), b)

unfoldable pub producer_wait :
    Turn SequencerBase → ℕ → SequencerBase → Option (Result (Unit {0})) × SequencerBase
unfolding start_wait finish_wait
producer_wait t ch b = finish_wait t.wake t.ctx_done ch (t.during (start_wait b))

-- What follows a wait: an error ends the loop, and a goroutine that was woken goes on.
abbrev pub after_wait :
    Option (Result (Unit {0}))
    → SequencerBase
    → Option (Result ℕ) × SequencerBase
    → Option (Result ℕ) × SequencerBase
after_wait none b rest = (none, b)
after_wait (some (err e)) b rest = (some (err e), b)
after_wait (some (ok _)) b rest = rest

-- `waitForCapacity`; `none` is a goroutine that waits still. What a round reads one after the other,
-- the channel in `prepare`, the seal and the gates, is read here in one snapshot, the state after the
-- turn's `before`; others act before the round, and within it while it waits.
unfoldable pub wait_for_capacity :
    List (Turn SequencerBase) → ℕ → ℕ → SequencerBase → Option (Result ℕ) × SequencerBase
wait_for_capacity [] wrap_point fallback b = (none, b)
wait_for_capacity (t ∷ ts) wrap_point fallback b =
    let b' = t.before b in
    let minimum = minimum_gate b' fallback in
    let (woken, b'') = producer_wait t (prepared b') b' in
    let rest = wait_for_capacity ts wrap_point fallback b'' in
    if b'.is_sealed
    then (some (err closed), b')
    else if leb wrap_point minimum
    then (some (ok minimum), b')
    else after_wait woken b'' rest

-- The loop of `awaitShutdown`, over the gates that it found at its start.
await_loop :
    List (Turn SequencerBase)
    → List ℕ
    → ℕ
    → SequencerBase
    → Option (Result (Unit {0})) × SequencerBase
await_loop [] gates boundary b = (none, b)
await_loop (t ∷ ts) gates boundary b =
    let b' = t.before b in
    let rest = await_loop ts gates boundary (t.during b') in
    if ltb (minimum_sequence b'.heap gates boundary) boundary
    then (if b'.is_closed
        then (some (err closed), b')
        else if t.ctx_done
        then (some (err cancelled), b')
        else rest)
    else (some (ok tt), b')

abbrev close_after :
    Option (Result (Unit {0})) × SequencerBase → Option (Result (Unit {0})) × SequencerBase
close_after (none, b) = (none, b)
close_after (some r, b) = (some r, close b)

-- awaitShutdown, with its deferred `Close`
unfoldable pub await_shutdown :
    List (Turn SequencerBase) → ℕ → SequencerBase → Option (Result (Unit {0})) × SequencerBase
unfolding await_loop
await_shutdown ts boundary b = close_after (await_loop ts b.gating boundary b)
