-- ===== src/Heap.antt =====
-- sequence.go and producer_wait.go: the objects that goroutines share, on a store of their own.
--
-- A pointer is a number. A channel that is only ever closed and replaced is the number of times
-- that this was done: a channel that was taken earlier is closed when its number is smaller.
-- A nil list of signals and an empty one are the same list, as the code treats them alike.
pub mod Laws
pub mod Wakes
use disruptor_go.Prelude.{[], ℕ, ◌+◌, Bool, true, false, List, ◌∷◌, ◌++◌, ltb, ◌==◌, if◌then◌else◌}
use disruptor_go.Int64.{add, minus_one}

-- InitialSequence
abbrev pub initial_sequence : ℕ
initial_sequence = minus_one

pub record Sequence : Type 0 where
  pub value : ℕ  -- int64
  pub signals : List ℕ  -- the waiters to wake

-- The fields of `producerWaiter`; `ch` is the open channel.
pub record ProducerWaiter : Type 0 where
  pub mode : ℕ  -- ProducerWaitMode
  pub ch : ℕ
  pub waiting : ℕ  -- int64
  pub waits : ℕ  -- uint64

-- `strategies` holds the open channel of each `BlockingWaitStrategy`. Pointers from `next` on are
-- free.
pub record Heap : Type 0 where
  pub next : ℕ
  pub sequences : ℕ → Sequence
  pub waiters : ℕ → ProducerWaiter
  pub strategies : ℕ → ℕ

abbrev pub update {ℓ} : {A : Type ℓ} → (ℕ → A) → ℕ → A → ℕ → A
update f p v q = if p == q then v else f q

abbrev pub producer_wait_yielding : ℕ
producer_wait_yielding = 0

abbrev pub producer_wait_blocking : ℕ
producer_wait_blocking = 1

abbrev pub producer_wait_busy_spin : ℕ
producer_wait_busy_spin = 2

-- newProducerWaiter
unfoldable pub new_producer_waiter : ℕ → Heap → ℕ × Heap
new_producer_waiter mode h = (
  h.next,
  record h {
    next = h.next + 1;
    waiters = update h.waiters h.next (record { mode = mode; ch = 0; waiting = 0; waits = 0 });
  },
)

-- needsSignals
abbrev pub needs_signals : ℕ → Heap → Bool
needs_signals w h = (h.waiters w).mode == producer_wait_blocking

-- `producerWaiter.signalAll`: close the channel and open another.
unfoldable pub signal_waiter : ℕ → Heap → Heap
signal_waiter w h =
    if needs_signals w h
    then record h {
      waiters = update h.waiters w (record (h.waiters w) { ch = (h.waiters w).ch + 1 });
    }
    else h

-- NewSequence
unfoldable pub new_sequence : ℕ → Heap → ℕ × Heap
new_sequence initial h = (
  h.next,
  record h {
    next = h.next + 1;
    sequences = update h.sequences h.next (record { value = initial; signals = [] });
  },
)

-- Load
abbrev pub load : ℕ → Heap → ℕ
load p h = (h.sequences p).value

-- `store`: the write alone.
abbrev pub store_value : ℕ → ℕ → Heap → Heap
store_value p v h = record h {
  sequences = update h.sequences p (record (h.sequences p) { value = v });
}

signal_each : List ℕ → Heap → Heap
signal_each [] h = h
signal_each (w ∷ ws) h = signal_each ws (signal_waiter w h)

-- `Sequence.signalAll`
unfoldable pub signal_all : ℕ → Heap → Heap
unfolding signal_each signal_waiter
signal_all p h = signal_each (h.sequences p).signals h

-- `Store`: the write, then the signals.
unfoldable pub store : ℕ → ℕ → Heap → Heap
unfolding signal_all
store p v h = signal_all p (store_value p v h)

-- `Add`: the sum wraps round, and is returned.
unfoldable pub add_sequence : ℕ → ℕ → Heap → ℕ × Heap
unfolding signal_all
add_sequence p delta h =
    let value = add (load p h) delta in (value, signal_all p (store_value p value h))

-- `CompareAndSwap`
unfoldable pub compare_and_swap : ℕ → ℕ → ℕ → Heap → Bool × Heap
unfolding signal_all
compare_and_swap p old new h =
    if load p h == old then (true, signal_all p (store_value p new h)) else (false, h)

abbrev pub contains : List ℕ → ℕ → Bool
contains [] x = false
contains (y ∷ ys) x = if y == x then true else contains ys x

-- The list without the first `x`: `append(l[:index], l[index+1:]...)`.
abbrev pub remove_first : List ℕ → ℕ → List ℕ
remove_first [] x = []
remove_first (y ∷ ys) x = if y == x then ys else y ∷ remove_first ys x

abbrev pub set_signals : ℕ → List ℕ → Heap → Heap
set_signals p l h = record h {
  sequences = update h.sequences p (record (h.sequences p) { signals = l });
}

-- `addSignal`: once at most. The exchange at its end fails only where another goroutine has
-- changed the list, and the round is then repeated on the new list.
unfoldable pub add_signal : ℕ → ℕ → Heap → Heap
add_signal p w h =
    let current = (h.sequences p).signals in
    if contains current w then h else set_signals p (current ++ w ∷ []) h

-- removeSignal
unfoldable pub remove_signal : ℕ → ℕ → Heap → Heap
remove_signal p w h =
    let current = (h.sequences p).signals in
    if contains current w then set_signals p (remove_first current w) h else h

unfoldable pub minimum_from : Heap → ℕ → List ℕ → ℕ
minimum_from h minimum [] = minimum
minimum_from h minimum (p ∷ ps) =
    minimum_from h (if ltb (load p h) minimum then load p h else minimum) ps

-- minimumSequence
unfoldable pub minimum_sequence : Heap → List ℕ → ℕ → ℕ
unfolding minimum_from
minimum_sequence h [] fallback = fallback
minimum_sequence h (p ∷ ps) fallback = minimum_from h (load p h) ps

-- `sequenceGroup.Load`
unfoldable pub load_group : Heap → List ℕ → ℕ
unfolding minimum_from
load_group h [] = initial_sequence
load_group h (p ∷ ps) = minimum_from h (load p h) ps
