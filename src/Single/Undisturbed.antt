-- ===== src/Single/Undisturbed.antt =====
-- sequencer_single.go and sequencer.go: `Next` does not wait where there is room.
use disruptor_go.Prelude.{
  ℕ, ◌+◌, ◌-◌, ◌≤◌, ◌≡◌, refl, false, ◌||◌, arith, ltb, List, ◌∷◌, ap, ◌∙◌, Option, some, none,
  if_elim, le→leb,
}
use disruptor_go.Int64.{of_nat, add, sub}
use disruptor_go.Errors.{Result, ok, err}
use disruptor_go.Sequencer.{SequencerBase, minimum_gate}
use disruptor_go.Sequencer.Waiting.{Turn, wait_for_capacity}
use disruptor_go.Single.{SingleProducerSequencer, settle, next, remaining_capacity}
use disruptor_go.Single.Safety.{IsSafe, IsShort, bad_count, least_bounds, remaining_capacity_lem}
use disruptor_go.Single.Claim.{claim_numbers}

-- The wait ends in its first round.
wait_for_capacity-room :
    (t : Turn SequencerBase) (ts : List (Turn SequencerBase)) (wrap hi : ℕ) (b : SequencerBase)
    → t.before b ≡ b
    → b.is_sealed ≡ false
    → wrap ≤ minimum_gate b hi
    → (wait_for_capacity (t ∷ ts) wrap hi b).0 ≡ some (ok (minimum_gate b hi))
unfolding wait_for_capacity
wait_for_capacity-room t ts wrap hi b same unsealed room =
    rw (same, unsealed, le→leb wrap (minimum_gate b hi) room) refl

settle-room :
    (n m : ℕ) (s : SingleProducerSequencer) (w : Option (Result ℕ) × SequencerBase)
    → w.0 ≡ some (ok m)
    → (settle n s w).0 ≡ some (ok n)
settle-room n m s (some (ok x), b) e = refl
settle-room n m s (some (err x), b) e = absurd (ground (arith, e))
settle-room n m s (none, b) e = absurd (ground (arith, e))

-- On a safe ring that is short of 2^62 events and is not sealed, `Next` for no more events than
-- `RemainingCapacity` claims them in its first round, if the others do nothing before that.
pub next-remaining :
    {k : ℕ} {s : SingleProducerSequencer} (t : Turn SequencerBase) (ts : List (Turn SequencerBase))
    (count : ℕ)
    → t.before s.base ≡ s.base
    → IsSafe k s
    → IsShort k s
    → bad_count count s ≡ false
    → s.is_sealed ≡ false
    → count ≤ remaining_capacity s
    → (next (t ∷ ts) count s).0 ≡ some (ok (s.next_value + (count - of_nat 0)))
unfolding next
next-remaining {k} {s} t ts count same safe short good unsealed fits =
    if_elim Counted s.is_sealed _ _ (λ sealed. absurd (ground (arith, sealed, unsealed)))
      (λ here.
        if_elim Counted (bad_count count s) _ _ (λ bad. absurd (ground (arith, bad, good)))
          (λ fine.
            if_elim Counted (ltb s.cached_gate wrap || ltb s.next_value s.cached_gate) _ _
              (λ stale.
                settle-room (add s.next_value count) (minimum_gate s.base s.next_value) s _
                  (wait_for_capacity-room t ts wrap s.next_value s.base same unsealed room)
                ∙ counted)
              (λ fresh. counted)))
  where
    Counted : Option (Result ℕ) × SingleProducerSequencer → Type 0
    Counted c = c.0 ≡ some (ok (s.next_value + (count - of_nat 0)))

    wrap : ℕ
    wrap = sub (add s.next_value count) s.buffer_size

    room : wrap ≤ minimum_gate s.base s.next_value
    room = ground (
      arith,
      claim_numbers count safe short good,
      remaining_capacity_lem safe short,
      least_bounds safe,
      safe,
    )

    counted : some (ok (add s.next_value count)) ≡ some (ok (s.next_value + (count - of_nat 0)))
    counted = ap (λ n. some (ok n)) (claim_numbers count safe short good).0
