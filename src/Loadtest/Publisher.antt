-- ===== src/Loadtest/Publisher.antt =====
-- cmd/loadtest/runner.go: a publisher of `publishPhase`.
--
-- The ring holds pointers to the events; an event is found by its pointer.
use disruptor_go.Prelude.{
  [], ℕ, ◌+◌, ◌-◌, ◌%◌, ◌^◌, Bool, ◌&&◌, List, ◌∷◌, Option, none, some, ltb, ◌==◌, if◌then◌else◌,
}
use disruptor_go.Int64.{of_nat, add, to_u64}
use disruptor_go.Errors.{Result, ok, err}
use disruptor_go.Heap.{update}
use disruptor_go.Ring.{
  Turns, RingBuffer, Ending, fine, error, panicked, out_of_range, get, next, next_n,
  publish_sequence,
}

-- `loadEvent`; the time is that of the clock, in nanoseconds.
pub record LoadEvent : Type 0 where
  pub value : ℕ  -- int64
  pub published_at : ℕ
  pub sampled : Bool
  pub payload : List ℕ  -- bytes

-- The ring, with what its pointers point to.
pub record Load : Type 0 where
  pub ring : RingBuffer ℕ
  pub events : ℕ → LoadEvent

-- An iteration of the loop: the turns of its claim, what the others do between its steps, and the
-- clock.
pub record Iteration : Type 0 where
  pub claim : Turns
  pub claimed : Load → Load
  pub now : ℕ
  pub filled : Load → Load

-- What the division by zero panics with.
abbrev pub division_panic : ℕ
division_panic = 1

abbrev magnitude : ℕ → ℕ
magnitude a = if ltb a (of_nat 0) then of_nat 0 - a else a - of_nat 0

-- `index%sampleEvery == 0`, where `sampleEvery` is not zero.
abbrev pub divides : ℕ → ℕ → Bool
divides index every = magnitude index % magnitude every == 0

-- The loop over the payload, from an index on.
unfoldable pub touch_payload : ℕ → ℕ → List ℕ → List ℕ
touch_payload sequence i [] = []
touch_payload sequence i (b ∷ bs) =
    to_u64 (add sequence (of_nat i)) % 2 ^ 8 ∷ touch_payload sequence (i + 1) bs

-- The body of the loop on the event it has claimed.
unfoldable pub fill_event : ℕ → ℕ → Bool → ℕ → LoadEvent → LoadEvent
unfolding touch_payload
fill_event now value sampled sequence event = record {
  value = value;
  published_at = if sampled then now else event.published_at;
  sampled = sampled;
  payload = touch_payload sequence 0 event.payload;
}

-- The body of the loop, after its claim: `none` goes on.
unfoldable pub after_claim :
    Iteration
    → ℕ
    → Bool
    → ℕ
    → ℕ
    → Option (Result ℕ) × RingBuffer ℕ
    → (ℕ → LoadEvent)
    → Option (Option Ending) × Load
unfolding fill_event
after_claim t base sample every index (none, r) events =
    (some none, record { ring = r; events = events })
after_claim t base sample every index (some (err e), r) events =
    (some (some (error e)), record { ring = r; events = events })
after_claim t base sample every index (some (ok sequence), r) events =
    let l = t.claimed (record { ring = r; events = events }) in
    let sampled = sample && divides index every in
    elim (get l.ring sequence) [
      | none ↦ (some (some out_of_range), l)
      | some p ↦
          if sample && (every == of_nat 0)
          then (
            some (some (panicked division_panic)),
            record l {
              events = update l.events p (record (l.events p) { value = add base index });
            },
          )
          else (let l' = t.filled (record l {
            events =
                update l.events p (fill_event t.now (add base index) sampled sequence (l.events p));
          }) in
              (none, record l' { ring = publish_sequence sequence l'.ring }))
    ]

-- The rest of the loop after an iteration, unless it ended.
abbrev pub or_end :
    Option (Option Ending) × Load → (Load → Option Ending × Load) → Option Ending × Load
or_end (some o, l) rest = (o, l)
or_end (none, l) rest = rest l

-- The loop of a publisher, from an index on: `none` has not ended.
unfoldable pub publisher : List Iteration → ℕ → ℕ → ℕ → Bool → ℕ → ℕ → Load → Option Ending × Load
unfolding after_claim next_n
publisher [] producers base events sample every index l =
    (if ltb index events then none else some fine, l)
publisher (t ∷ ts) producers base events sample every index l =
    let onwards =
      λ (l' : Load). publisher ts producers base events sample every (add index producers) l' in
    if ltb index events
    then or_end (after_claim t base sample every index (next t.claim l.ring) l.events) onwards
    else (some fine, l)
