-- ===== src/Processor/Batch.antt =====
-- processor.go: `processBatch` and `handleEvent`.
use disruptor_go.Prelude.{
  ℕ, zero, suc, ◌+◌, ◌-◌, Bool, Option, none, some, ltb, ◌==◌, if◌then◌else◌,
}
use disruptor_go.Int64.{of_nat, add, sub}
use disruptor_go.Errors.{Error, handler_error, handler_panic_error}
use disruptor_go.Ring.{RingBuffer, Reply, done, fails, panics, get, is_discarded}

-- `EventHandler`, with the state of all that it touches.
abbrev pub Handler {ℓ κ} : Type ℓ → Type κ → Type (ℓ ⊔ κ)
Handler T X = T → ℕ → Bool → X → Reply × X

-- What `recover` gives for an index out of range.
abbrev pub index_panic : ℕ
index_panic = 0

-- The end of a batch of at most `max` sequences from `next` on.
unfoldable pub batch_end : ℕ → ℕ → ℕ → ℕ
batch_end max next available =
    if ltb max (add (sub available next) (of_nat 1))
    then sub (add next max) (of_nat 1)
    else available

abbrev pub handled : ℕ → Reply → Option Error
handled sequence done = none
handled sequence (fails e) = some (handler_error sequence e)
handled sequence (panics v) = some (handler_panic_error sequence v)

-- The search for `lastDelivered`, downwards.
unfoldable pub last_loop {ℓ} : {T : Type ℓ} → ℕ → RingBuffer T → ℕ → ℕ
last_loop zero r last = last
last_loop (suc rounds) r last =
    if is_discarded r last then last_loop rounds r (sub last (of_nat 1)) else last

-- `if err := ...; err != nil { return err }`, and what comes after it.
abbrev pub or_return {κ} :
    {X : Type κ} → Option Error × X → (X → Option Error × X) → Option Error × X
or_return (some e, x) rest = (some e, x)
or_return (none, x) rest = rest x

module _ {ℓ κ} {T : Type ℓ} {X : Type κ} where
  -- handleEvent
  unfoldable pub handle_event : RingBuffer T → Handler T X → ℕ → Bool → X → Option Error × X
  handle_event r f sequence end_of_batch x = elim (get r sequence) [
    | none ↦ (some (handler_panic_error sequence index_panic), x)
    | some event ↦
        (let (reply, x') = f event sequence end_of_batch x in (handled sequence reply, x'))
  ]

  -- The loop of `processBatch` where nothing was ever discarded.
  unfoldable pub plain_loop : ℕ → RingBuffer T → Handler T X → ℕ → ℕ → X → Option Error × X
  plain_loop zero r f sequence end x = (none, x)
  plain_loop (suc rounds) r f sequence end x =
      or_return (handle_event r f sequence (sequence == end) x)
        (λ x'. plain_loop rounds r f (add sequence (of_nat 1)) end x')

  -- The loop of `processBatch` that skips discarded sequences.
  unfoldable pub skipping_loop : ℕ → RingBuffer T → Handler T X → ℕ → ℕ → X → Option Error × X
  skipping_loop zero r f sequence last x = (none, x)
  skipping_loop (suc rounds) r f sequence last x =
      let onwards = λ (y : X). skipping_loop rounds r f (add sequence (of_nat 1)) last y in
      if is_discarded r sequence
      then onwards x
      else or_return (handle_event r f sequence (sequence == last) x) onwards

  -- `processBatch`: each loop has a round for each sequence from `next` to `end`.
  unfoldable pub process_batch : RingBuffer T → Handler T X → ℕ → ℕ → X → Option Error × X
  unfolding plain_loop last_loop skipping_loop
  process_batch r f next end x =
      let rounds = end + 1 - next in
      if r.discarded
      then skipping_loop rounds r f next (last_loop rounds r end) x
      else plain_loop rounds r f next end x
