-- ===== src/Sequencer.antt =====
-- sequencer.go: `sequencerBase`, what both producer protocols share.
--
-- The store of the shared objects is a field, so that an operation is a function of one state.
-- `gatingMu` is held for a whole operation, which is one step here. A goroutine that has to wait is
-- handed a list of turns: in each, what the other goroutines did to the state meanwhile, and
-- which case of a `select` it takes where several are ready. `none` is a goroutine that still waits.
pub mod Waiting
pub mod Closing
pub mod Positions
pub mod Gates
use disruptor_go.Prelude.{
  [], ℕ, ◌+◌, Bool, true, false, ◌||◌, not, List, ◌∷◌, ◌++◌, Option, none, some, if◌then◌else◌,
}
use disruptor_go.Errors.{closed, Result, ok, err}
use disruptor_go.Heap.{
  Heap, update, needs_signals, new_producer_waiter, signal_waiter, new_sequence, load, store,
  contains, remove_first, add_signal, remove_signal, minimum_sequence, initial_sequence,
}

-- The built-in wait strategies; a `BlockingWaitStrategy` is a pointer.
pub data WaitStrategy : Type 0 where
  busy_spin_wait : WaitStrategy
  yielding_wait : WaitStrategy
  sleeping_wait : (spin_tries yield_tries sleep : ℕ) → WaitStrategy
  blocking_wait : ℕ → WaitStrategy

-- `closed_ch` is a closed `closedCh`, `close_once` a spent `closeOnce`.
pub record SequencerBase : Type 0 where
  pub heap : Heap
  pub buffer_size : ℕ  -- int64
  pub cursor : ℕ
  pub wait : WaitStrategy
  pub producer_wait : ℕ
  pub gating : List ℕ
  pub is_closed : Bool
  pub is_sealed : Bool
  pub closed_ch : Bool
  pub close_once : Bool

-- `BlockingWait()`
unfoldable pub new_blocking_wait : Heap → WaitStrategy × Heap
new_blocking_wait h = (
  blocking_wait h.next,
  record h { next = h.next + 1; strategies = update h.strategies h.next 0 },
)

base_over : ℕ → ℕ → WaitStrategy × Heap → SequencerBase
base_over size mode (wait, h) =
    let (cursor, h') = new_sequence initial_sequence h in
    let (waiter, h'') = new_producer_waiter mode h' in
    record {
      heap = h'';
      buffer_size = size;
      cursor = cursor;
      wait = wait;
      producer_wait = waiter;
      gating = [];
      is_closed = false;
      is_sealed = false;
      closed_ch = false;
      close_once = false;
    }

-- `newSequencerBase`: a nil strategy becomes a blocking one.
unfoldable pub new_sequencer_base : ℕ → Option WaitStrategy → ℕ → Heap → SequencerBase
unfolding base_over new_sequence new_producer_waiter new_blocking_wait
new_sequencer_base size none mode h = base_over size mode (new_blocking_wait h)
new_sequencer_base size (some wait) mode h = base_over size mode (wait, h)

-- `WaitStrategy.signalAll`: only a blocking strategy has sleepers.
unfoldable pub signal_strategy : WaitStrategy → Heap → Heap
signal_strategy (blocking_wait p) h = record h {
  strategies = update h.strategies p (h.strategies p + 1);
}
signal_strategy busy_spin_wait h = h
signal_strategy yielding_wait h = h
signal_strategy (sleeping_wait _ _ _) h = h

-- The loop of `AddGatingSequences`; `none` is a nil pointer.
register : ℕ → ℕ → List (Option ℕ) → List ℕ × Heap → List ℕ × Heap
register cursor waiter [] (next, h) = (next, h)
register cursor waiter (none ∷ ps) (next, h) = register cursor waiter ps (next, h)
register cursor waiter (some p ∷ ps) (next, h) =
    let h' = store p cursor h in
    let h'' = if needs_signals waiter h' then add_signal p waiter h' else h' in
    register cursor waiter ps (next ++ p ∷ [], h'')

-- AddGatingSequences
unfoldable pub add_gating_sequences : List (Option ℕ) → SequencerBase → SequencerBase
unfolding register
add_gating_sequences ps b =
    if b.is_closed
    then b
    else (let (next, h) = register (load b.cursor b.heap) b.producer_wait ps (b.gating, b.heap) in
        record b { gating = next; heap = h })

-- RemoveGatingSequence
unfoldable pub remove_gating_sequence : ℕ → SequencerBase → Bool × SequencerBase
remove_gating_sequence target b =
    if not (contains b.gating target)
    then (false, b)
    else (let next = remove_first b.gating target in
        if needs_signals b.producer_wait b.heap
        then (let h =
              if contains next target
              then b.heap
              else remove_signal target b.producer_wait b.heap in
            (true, record b { gating = next; heap = signal_waiter b.producer_wait h }))
        else (true, record b { gating = next }))

-- minimumGate
abbrev pub minimum_gate : SequencerBase → ℕ → ℕ
minimum_gate b fallback = minimum_sequence b.heap b.gating fallback

-- The loop of `removeGateSignals`, with the set `seen`.
remove_signals : ℕ → List ℕ → List ℕ → Heap → Heap
remove_signals w [] seen h = h
remove_signals w (p ∷ ps) seen h =
    if contains seen p
    then remove_signals w ps seen h
    else remove_signals w ps (p ∷ seen) (remove_signal p w h)

-- removeGateSignals
unfoldable pub remove_gate_signals : SequencerBase → SequencerBase
unfolding remove_signals
remove_gate_signals b =
    if needs_signals b.producer_wait b.heap
    then record b { heap = remove_signals b.producer_wait b.gating [] b.heap }
    else b

close_body : SequencerBase → SequencerBase
close_body b = remove_gate_signals (record b {
  is_closed = true;
  closed_ch = true;
  close_once = true;
  heap = signal_strategy b.wait (signal_waiter b.producer_wait b.heap);
})

-- Close
unfoldable pub close : SequencerBase → SequencerBase
unfolding close_body
close b = let b' = record b { is_sealed = true } in if b.close_once then b' else close_body b'

-- beginShutdown
unfoldable pub begin_shutdown : SequencerBase → Result (Unit {0}) × SequencerBase
begin_shutdown b =
    if b.is_closed || b.is_sealed
    then (err closed, b)
    else (ok tt, record b { is_sealed = true; heap = signal_waiter b.producer_wait b.heap })
