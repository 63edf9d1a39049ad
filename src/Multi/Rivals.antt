-- ===== src/Multi/Rivals.antt =====
-- sequencer_multi.go: what another goroutine's claim keeps of a ring.
use disruptor_go.Prelude.{
  ℕ, ◌+◌, ◌^◌, ◌≤◌, ◌<◌, ◌≡◌, refl, false, arith, ltb, ◌==◌, [], ◌∷◌, All, All-map, if_elim, none,
  ltb→le,
}
use disruptor_go.Int64.{of_nat, add, sub}
use disruptor_go.Heap.{load, store_value}
use disruptor_go.Sequencer.{minimum_gate}
use disruptor_go.Sequencer.Waiting.{Wake}
use disruptor_go.Multi.{MultiProducerSequencer, with_heap, prepare}
use disruptor_go.Multi.Claim.{
  Claim, Round, again, after_round, exchange, try_next, try_next_loop, try_next_round, bad_count,
  next,
}
use disruptor_go.Multi.Safety.{cursor_of, IsSafe, IsShort, Kept, Rely, base-prepare}
use disruptor_go.Multi.Exchange.{claim_numbers}
use disruptor_go.Multi.Rounds.{
  cache-le-minimum, minimum-le-cursor, minimum-gates, cached-gates, refreshed, cursor-refreshed,
  refreshed-gates, needs_gates, cached_room,
}
use disruptor_go.Multi.Undisturbed.{undisturbed}
use disruptor_go.Multi.Steps.{
  own-Kept, then-Rely, store_cache-Kept, store_cursor-Kept, prepare-Kept,
}

-- A claim's end is kept where it is short of the last events.
abbrev pub EndsKept : ℕ → MultiProducerSequencer → Claim → Type 0
EndsKept k s c = IsShort k c.1 → Kept k s c.1

-- The exchange of a claim that nobody disturbs.
exchange-EndsKept :
    {k : ℕ} {s : MultiProducerSequencer} (w : Wake) (current next bound : ℕ)
    → cursor_of s ≡ current
    → current < next
    → next ≤ bound + 2 ^ k
    → All (λ p. bound ≤ load p s.heap) s.gating
    → IsSafe k s
    → IsShort k s
    → EndsKept k s (after_round (exchange (undisturbed false w) current next s) (λ s'. (none, s')))
unfolding exchange
exchange-EndsKept {k} {s} w current next bound here up near reached safe short =
    if_elim (λ r. EndsKept k s (after_round r (λ s'. (none, s')))) (cursor_of s == current) _
      (again s)
      (λ won short'.
        then-Rely s moved _
          (store_cursor-Kept s next (omega (arith, here, up)) (at_next short')
            (All-map s.gating (λ p q. omega arith) reached))
          (prepare-Kept (add current (of_nat 1)) next moved
            (
              omega (arith, here, safe.guarded, at_next short'),
              omega (arith, here, safe.guarded, at_next short'),
            )
            (omega (arith, here, safe.guarded), omega (arith, at_next short')) (ground arith))
          safe short)
      (λ lost short'. own-Kept s safe short)
  where
    moved : MultiProducerSequencer
    moved = with_heap (store_value s.cursor next s.heap) s

    at_next :
        IsShort k (prepare (add current (of_nat 1)) next moved) → next + 2 ^ k < of_nat (2 ^ 62)
    at_next h =
        let h' : IsShort k moved = rw ((base-prepare (add current (of_nat 1)) next moved).0) at h in
        ground arith

pub try_next-EndsKept :
    {k : ℕ} {s : MultiProducerSequencer} (w : Wake) (count : ℕ)
    → IsSafe k s
    → IsShort k s
    → EndsKept k s (try_next (undisturbed false w ∷ []) count s)
unfolding try_next try_next_loop try_next_round refreshed
try_next-EndsKept {k} {s} w count safe short =
    if_elim (EndsKept k s) (bad_count count s) _ _ (λ bad h. own-Kept s safe short)
      (λ good.
        let numbers = claim_numbers count safe short good in
        if_elim Q s.is_sealed _ _ (λ sealed h. own-Kept s safe short)
          (λ unsealed.
            if_elim Q (needs_gates count s) _ _
              (λ stale.
                if_elim Q
                  (ltb (minimum_gate s.base (cursor_of s))
                    (sub (add (cursor_of s) count) s.buffer_size))
                  _ _ (λ full h. cached safe short)
                  (λ room h.
                    then-Rely s (refreshed safe) _ cached
                      (λ safe' short'.
                        exchange-EndsKept w (cursor_of s) (add (cursor_of s) count)
                          (minimum_gate s.base (cursor_of s)) (cursor-refreshed safe)
                          (ground (arith, numbers)) (omega (arith, numbers, ltb→le _ _ room))
                          (refreshed-gates safe) safe' short' h)
                      safe short))
              (λ enough.
                exchange-EndsKept w (cursor_of s) (add (cursor_of s) count)
                  (load s.gate_cache s.heap) refl (ground (arith, numbers))
                  (omega (arith, numbers, cached_room count s enough)) (cached-gates safe) safe
                  short)))
  where
    Q : Round → Type 0
    Q r = EndsKept k s (after_round r (λ s'. (none, s')))

    cached : Rely k s (refreshed safe)
    cached =
        store_cache-Kept s (minimum_gate s.base (cursor_of s))
          (omega (arith, cache-le-minimum safe, safe.guarded.started)) (minimum-le-cursor safe)
          (minimum-gates safe)
