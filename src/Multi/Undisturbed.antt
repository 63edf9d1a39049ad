-- ===== src/Multi/Undisturbed.antt =====
-- sequencer_multi.go: a claim that no other goroutine disturbs is decided in its first round.
use disruptor_go.Prelude.{
  ℕ, ◌+◌, ◌-◌, ◌^◌, ◌≤◌, ◌≡◌, refl, Bool, true, false, ◌||◌, arith, ltb, leb, ◌==◌, if◌then◌else◌,
  List, ◌∷◌, inl, inr, Bool-cases, ap, ◌∙◌, Option, some, none, if_elim, All-map,
}
use disruptor_go.Int64.{of_nat, add, sub}
use disruptor_go.Errors.{Result, ok, err, closed, invalid_claim_size, insufficient_capacity}
use disruptor_go.Heap.{load}
use disruptor_go.Heap.Laws.{minimum-ge}
use disruptor_go.Sequencer.{minimum_gate}
use disruptor_go.Sequencer.Waiting.{Turn, Wake}
use disruptor_go.Multi.{MultiProducerSequencer, remaining_capacity}
use disruptor_go.Multi.Claim.{
  Round, returned, again, asleep, exchange, Claim, after_round, next_round, try_next_round,
  bad_count, next, next_loop, try_next, try_next_loop,
}
use disruptor_go.Multi.Safety.{cursor_of, IsSafe, IsShort}
use disruptor_go.Multi.Exchange.{claim_numbers}
use disruptor_go.Multi.Rounds.{cache-le-minimum, refreshed, cursor-refreshed, minimum-le-cursor}

-- A turn in which the other goroutines do nothing.
abbrev pub undisturbed : Bool → Wake → Turn MultiProducerSequencer
undisturbed ctx_done wake = record {
  before = λ s. s;
  during = λ s. s;
  ctx_done = ctx_done;
  wake = wake;
}

-- The result of a round.
abbrev result : Round → Option (Result ℕ)
result (returned r s) = some r
result (again s) = none
result (asleep s) = none

exchange_lem :
    (c : Bool) (w : Wake) (current next : ℕ) (s : MultiProducerSequencer)
    → cursor_of s ≡ current
    → result (exchange (undisturbed c w) current next s) ≡ some (ok next)
unfolding exchange
exchange_lem c w current next s e =
    if_elim (λ r. result r ≡ some (ok next)) (cursor_of s == current) _ (again s) (λ same. refl)
      (λ other. absurd (ground (arith, e, other)))

module _ {k : ℕ} {s : MultiProducerSequencer} (safe : IsSafe k s) (short : IsShort k s) where
  near : cursor_of s ≤ minimum_gate s.base (cursor_of s) + 2 ^ k
  near = omega (
    arith,
    minimum-ge s.heap (cursor_of s - 2 ^ k) (cursor_of s) s.gating (omega arith)
        (All-map s.gating (λ p q. omega (arith, q.room)) safe.guarded.gates),
  )

  -- The capacity that is left, as a number.
  remaining_capacity_lem :
      remaining_capacity s ≡ of_nat (2 ^ k - (cursor_of s - minimum_gate s.base (cursor_of s)))
  unfolding remaining_capacity
  remaining_capacity_lem =
      ground (arith, near, cache-le-minimum safe, minimum-le-cursor safe, safe.ring, safe.guarded)

  -- Whether there is room for `count` events behind the slowest gate.
  room :
      (count : ℕ)
      → bad_count count s ≡ false
      → ltb (minimum_gate s.base (cursor_of s)) (sub (add (cursor_of s) count) s.buffer_size)
        ≡ (if leb count (remaining_capacity s) then false else true)
  room count good =
      let numbers = claim_numbers count safe short good in
      ground (
        arith,
        numbers,
        remaining_capacity_lem,
        near,
        cache-le-minimum safe,
        minimum-le-cursor safe,
      )

  -- What a claim that nobody disturbs comes to.
  abbrev decided : ℕ → Result ℕ
  decided count =
      if s.is_sealed
      then err closed
      else if leb count (remaining_capacity s)
      then ok (cursor_of s + (count - of_nat 0))
      else err insufficient_capacity

  try_round :
      (c : Bool) (w : Wake) (count : ℕ)
      → bad_count count s ≡ false
      → result (try_next_round (undisturbed c w) count s) ≡ some (decided count)
  unfolding try_next_round refreshed
  try_round c w count good =
      if_elim (λ r. result r ≡ expected) s.is_sealed _ _ (λ sealed. rw sealed refl)
        (λ unsealed.
          if_elim (λ r. result r ≡ expected)
            (ltb (load s.gate_cache s.heap) (sub (add (cursor_of s) count) s.buffer_size)
              || ltb (cursor_of s) (load s.gate_cache s.heap))
            _ _
            (λ stale.
              if_elim (λ r. result r ≡ expected)
                (ltb (minimum_gate s.base (cursor_of s))
                  (sub (add (cursor_of s) count) s.buffer_size))
                _ _ (λ full. ground (arith, room count good))
                (λ enough. ground (
                  arith,
                  exchange_lem c w (cursor_of s) (add (cursor_of s) count) (refreshed safe)
                      (cursor-refreshed safe),
                  (claim_numbers count safe short good).0,
                  room count good,
                )))
            (λ fresh. ground (
              arith,
              exchange_lem c w (cursor_of s) (add (cursor_of s) count) s refl,
              (claim_numbers count safe short good).0,
              room count good,
              cache-le-minimum safe,
            )))
    where
      expected : Option (Result ℕ)
      expected = some (decided count)

  next_round_lem :
      (c : Bool) (w : Wake) (count : ℕ)
      → bad_count count s ≡ false
      → s.is_sealed ≡ false
      → leb count (remaining_capacity s) ≡ true
      → result (next_round (undisturbed c w) count s) ≡ some (ok (cursor_of s + (count - of_nat 0)))
  unfolding next_round refreshed
  next_round_lem c w count good unsealed fits =
      if_elim (λ r. result r ≡ expected) s.is_sealed _ _
        (λ sealed. absurd (ground (arith, sealed, unsealed)))
        (λ here.
          if_elim (λ r. result r ≡ expected)
            (ltb (load s.gate_cache s.heap) (sub (add (cursor_of s) count) s.buffer_size)
              || ltb (cursor_of s) (load s.gate_cache s.heap))
            _ _
            (λ stale.
              if_elim (λ r. result r ≡ expected)
                (ltb (minimum_gate s.base (cursor_of s))
                  (sub (add (cursor_of s) count) s.buffer_size))
                _ _ (λ full. absurd (ground (arith, room count good, fits, full)))
                (λ enough.
                  exchange_lem c w (cursor_of s) (add (cursor_of s) count) (refreshed safe)
                    (cursor-refreshed safe)
                  ∙ counted))
            (λ fresh. exchange_lem c w (cursor_of s) (add (cursor_of s) count) s refl ∙ counted))
    where
      expected : Option (Result ℕ)
      expected = some (ok (cursor_of s + (count - of_nat 0)))

      counted : some (ok (add (cursor_of s) count)) ≡ expected
      counted = ap (λ n. some (ok n)) (claim_numbers count safe short good).0

result-after_round :
    (r : Round) (retry : MultiProducerSequencer → Claim) (x : Result ℕ)
    → result r ≡ some x
    → (after_round r retry).0 ≡ some x
result-after_round (returned y s) retry x e = e
result-after_round (again s) retry x e = absurd (ground (arith, e))
result-after_round (asleep s) retry x e = absurd (ground (arith, e))

-- On a safe ring that is short of 2^62 events, `TryNext` is decided by the first turn in which
-- nobody disturbs it: it reports a bad count, a closed ring and a lack of room, in this order, and
-- otherwise claims its events, which it does exactly if `RemainingCapacity` is that much.
pub try_next-undisturbed :
    {k : ℕ} {s : MultiProducerSequencer} (c : Bool) (w : Wake)
    (ts : List (Turn MultiProducerSequencer)) (count : ℕ)
    → IsSafe k s
    → IsShort k s
    → (try_next (undisturbed c w ∷ ts) count s).0
      ≡ some (
          if bad_count count s
          then err invalid_claim_size
          else if s.is_sealed
          then err closed
          else if leb count (remaining_capacity s)
          then ok (cursor_of s + (count - of_nat 0))
          else err insufficient_capacity)
unfolding try_next try_next_loop
try_next-undisturbed {k} {s} c w ts count safe short = elim (Bool-cases (bad_count count s)) [
  | inl bad ↦ rw bad refl
  | inr good ↦ rw good (result-after_round _ _ _ (try_round safe short c w count good))
]

-- On a safe ring that is short of 2^62 events and is not sealed, `Next` for no more events than
-- `RemainingCapacity` claims them in the first turn in which nobody disturbs it.
pub next-undisturbed :
    {k : ℕ} {s : MultiProducerSequencer} (c : Bool) (w : Wake)
    (ts : List (Turn MultiProducerSequencer)) (count : ℕ)
    → IsSafe k s
    → IsShort k s
    → bad_count count s ≡ false
    → s.is_sealed ≡ false
    → count ≤ remaining_capacity s
    → (next (undisturbed c w ∷ ts) count s).0 ≡ some (ok (cursor_of s + (count - of_nat 0)))
unfolding next next_loop
next-undisturbed {k} {s} c w ts count safe short good unsealed fits =
    if_elim (λ (p : Claim). p.0 ≡ some (ok (cursor_of s + (count - of_nat 0)))) (bad_count count s)
      _ _ (λ bad. absurd (ground (arith, bad, good)))
      (λ fine.
        result-after_round _ _ _ (next_round_lem safe short c w count good unsealed (ground arith)))
