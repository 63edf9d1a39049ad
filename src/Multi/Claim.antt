-- ===== src/Multi/Claim.antt =====
-- sequencer_multi.go: `Next`, `TryNext` and `Shutdown`, whose loops other producers may disturb.
use disruptor_go.Prelude.{
  [], ℕ, Bool, ◌||◌, List, ◌∷◌, Option, none, some, ltb, ◌==◌, if◌then◌else◌,
}
use disruptor_go.Int64.{of_nat, add, sub}
use disruptor_go.Errors.{closed, invalid_claim_size, insufficient_capacity, Result, ok, err}
use disruptor_go.Heap.{load, store_value}
use disruptor_go.Sequencer.{SequencerBase, minimum_gate, begin_shutdown}
use disruptor_go.Sequencer.Waiting.{Turn, prepared, start_wait, finish_wait, await_shutdown}
use disruptor_go.Multi.{MultiProducerSequencer, with_heap, prepare}

-- How a round of a claim's loop ends.
pub data Round : Type 0 where
  returned : Result ℕ → MultiProducerSequencer → Round
  again : MultiProducerSequencer → Round
  asleep : MultiProducerSequencer → Round

abbrev pub set_base : SequencerBase → MultiProducerSequencer → MultiProducerSequencer
set_base b s = record s { base = b }

-- The exchange at the end of a round, after what the others did since the cursor was read.
unfoldable pub exchange : Turn MultiProducerSequencer → ℕ → ℕ → MultiProducerSequencer → Round
exchange t current next s =
    let s' = t.during s in
    if load s'.cursor s'.heap == current
    then returned (ok next)
        (prepare (add current (of_nat 1)) next (with_heap (store_value s'.cursor next s'.heap) s'))
    else again s'

-- How a round ends by what its wait returned.
abbrev pub wake_up :
    Option (Result (Unit {0})) → MultiProducerSequencer → MultiProducerSequencer → Round
wake_up none waiting s = asleep waiting
wake_up (some (err e)) waiting s = returned (err e) s
wake_up (some (ok _)) waiting s = again s

-- The wait of a round of `Next`.
unfoldable pub sleep : Turn MultiProducerSequencer → MultiProducerSequencer → Round
sleep t s =
    let s' = t.during (set_base (start_wait s.base) s) in
    let (woken, b) = finish_wait t.wake t.ctx_done (prepared s.base) s'.base in
    wake_up woken s' (set_base b s')

-- One round of the loop of `Next`. What the source reads one after the other, the seal, the cursor,
-- the cached gate, the waiter's channel in `prepare` and the gates, is read here in one snapshot, the
-- state after the turn's `before`. The others act before the round, and again between that snapshot
-- and the exchange, or while the round sleeps; the exchange and the `prepare` after it are one step.
-- Multi/Atomic has these operations as steps of their own.
unfoldable pub next_round : Turn MultiProducerSequencer → ℕ → MultiProducerSequencer → Round
unfolding exchange sleep
next_round t count s₀ =
    let s = t.before s₀ in
    let current = load s.cursor s.heap in
    let next = add current count in
    let wrap_point = sub next s.buffer_size in
    let cached = load s.gate_cache s.heap in
    let minimum = minimum_gate s.base current in
    if s.is_sealed
    then returned (err closed) s
    else if ltb cached wrap_point || ltb current cached
    then (if ltb minimum wrap_point
        then sleep t s
        else exchange t current next (with_heap (store_value s.gate_cache minimum s.heap) s))
    else exchange t current next s

-- One round of the loop of `TryNext`.
unfoldable pub try_next_round : Turn MultiProducerSequencer → ℕ → MultiProducerSequencer → Round
unfolding exchange
try_next_round t count s₀ =
    let s = t.before s₀ in
    let current = load s.cursor s.heap in
    let next = add current count in
    let wrap_point = sub next s.buffer_size in
    let cached = load s.gate_cache s.heap in
    let minimum = minimum_gate s.base current in
    let s' = with_heap (store_value s.gate_cache minimum s.heap) s in
    if s.is_sealed
    then returned (err closed) s
    else if ltb cached wrap_point || ltb current cached
    then (if ltb minimum wrap_point
        then returned (err insufficient_capacity) s'
        else exchange t current next s')
    else exchange t current next s

abbrev pub Claim : Type 0
Claim = Option (Result ℕ) × MultiProducerSequencer

-- What follows a round: the next one, if it is to be tried again.
abbrev pub after_round : Round → (MultiProducerSequencer → Claim) → Claim
after_round (returned r s) retry = (some r, s)
after_round (again s) retry = retry s
after_round (asleep s) retry = (none, s)

-- The loops: a turn for each round. `none` is a claim that is not through when the turns end.
unfoldable pub next_loop : List (Turn MultiProducerSequencer) → ℕ → MultiProducerSequencer → Claim
next_loop [] count s = (none, s)
next_loop (t ∷ ts) count s = after_round (next_round t count s) (λ s'. next_loop ts count s')

unfoldable pub try_next_loop :
    List (Turn MultiProducerSequencer) → ℕ → MultiProducerSequencer → Claim
try_next_loop [] count s = (none, s)
try_next_loop (t ∷ ts) count s =
    after_round (try_next_round t count s) (λ s'. try_next_loop ts count s')

abbrev pub bad_count : ℕ → MultiProducerSequencer → Bool
bad_count count s = ltb count (of_nat 1) || ltb s.buffer_size count

-- Next
unfoldable pub next : List (Turn MultiProducerSequencer) → ℕ → MultiProducerSequencer → Claim
unfolding next_loop next_round
next ts count s =
    if bad_count count s then (some (err invalid_claim_size), s) else next_loop ts count s

-- TryNext
unfoldable pub try_next : List (Turn MultiProducerSequencer) → ℕ → MultiProducerSequencer → Claim
unfolding try_next_loop try_next_round
try_next ts count s =
    if bad_count count s then (some (err invalid_claim_size), s) else try_next_loop ts count s

-- Shutdown
unfoldable pub shutdown :
    List (Turn SequencerBase)
    → MultiProducerSequencer
    → Option (Result (Unit {0})) × MultiProducerSequencer
unfolding begin_shutdown await_shutdown
shutdown ts s =
    let (begun, b) = begin_shutdown s.base in
    elim begun [
      | err e ↦ (some (err e), set_base b s)
      | ok _ ↦
          (let (drained, b') = await_shutdown ts (load b.cursor b.heap) b in
            (drained, set_base b' s))
    ]
