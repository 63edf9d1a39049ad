-- ===== src/Multi/Atomic/Claimed.antt =====
-- sequencer_multi.go: a claim that nobody disturbs as a run of atomic operations.
use disruptor_go.Prelude.{
  ℕ, ◌+◌, ◌^◌, ◌≤◌, ◌<◌, ◌≡◌, ◌≢◌, refl, ap, ap₂, subst, ◌∙◌, true, false, arith, ◌==◌, ltb, ◌||◌,
  List, [], ◌∷◌, Option, none, some, Bool, if_elim,
}
use disruptor_go.Int64.{of_nat, add, minus_one}
use disruptor_go.Errors.{ok, err}
use disruptor_go.Heap.{load, store_value, minimum_from, minimum_sequence}
use disruptor_go.Sequencer.{minimum_gate}
use disruptor_go.Sequencer.Waiting.{Wake}
use disruptor_go.Multi.{MultiProducerSequencer, with_heap, prepare}
use disruptor_go.Multi.Claim.{
  Claim, after_round, bad_count, try_next_loop, exchange, Round, again, try_next_round, try_next,
}
use disruptor_go.Multi.Safety.{cursor_of, IsSafe, IsShort}
use disruptor_go.Multi.Exchange.{claim_numbers}
use disruptor_go.Multi.Undisturbed.{undisturbed}
use disruptor_go.Multi.Atomic.{
  Phase, System, goes, idle, looking, scanning, aiming, holding, Step, least_of, wrap_point,
  store_cache,
}
use disruptor_go.Multi.Atomic.Turns.{update_self}
use disruptor_go.Multi.Atomic.Whole.{Ran, after_step, prepare-Ran}

-- The rest of a claim, once the cursor is to be exchanged.
exchange-Ran :
    {k : ℕ} (y : System) (i current next : ℕ)
    → y.phases i ≡ aiming current next
    → cursor_of y.ring ≡ current
    → minus_one ≤ current
    → current < next
    → next + 2 ^ k < of_nat (2 ^ 62)
    → Ran k i y
        (prepare
          (add current (of_nat 1))
          next
          (with_heap (store_value y.ring.cursor next y.ring.heap) y.ring))
        (holding (add current (of_nat 1)) next)
exchange-Ran {k} y i current next was here low up short =
    after_step _ (Step.win i current next was here short) (
      prepare-Ran _ i (add current (of_nat 1)) next (update_self y.phases i _) (omega arith)
        (omega arith))

-- The gates are read one after the other, and the least of all is what is left.
scan-Ran :
    {k i current next : ℕ} {s : MultiProducerSequencer} {ph : Phase} (ps : List ℕ) (m : ℕ)
    (y : System)
    → y.phases i ≡ scanning current next (some m) ps
    → ((y' : System)
        → y'.ring ≡ y.ring
        → y'.phases i ≡ scanning current next (some (minimum_from y.ring.heap m ps)) []
        → Ran k i y' s ph)
    → Ran k i y s ph
unfolding minimum_from
scan-Ran [] m y was rest = rest y refl was
scan-Ran {i = i} (p ∷ ps) m y was rest =
    after_step _ (Step.read_gate _ _ _ (some m) p ps was)
      (scan-Ran ps _ (goes i _ y.ring y) (update_self y.phases _ _) rest)

-- The same from the first gate on.
scan_all-Ran :
    {k i current next : ℕ} {s : MultiProducerSequencer} {ph : Phase} (ps : List ℕ) (y : System)
    → y.phases i ≡ scanning current next none ps
    → ((y' : System) (least : Option ℕ)
        → y'.ring ≡ y.ring
        → y'.phases i ≡ scanning current next least []
        → least_of current least ≡ minimum_sequence y.ring.heap ps current
        → Ran k i y' s ph)
    → Ran k i y s ph
unfolding minimum_sequence
scan_all-Ran [] y was rest = rest y none refl was refl
scan_all-Ran {i = i} (p ∷ ps) y was rest = after_step _ (Step.read_gate _ _ _ none p ps was) (
    scan-Ran ps _ (goes i _ y.ring y) (update_self y.phases _ _)
      (λ y' same at. rest y' (some _) same at refl))

-- What the exchange of a claim leaves, in a ring where nobody has moved the cursor.
abbrev taken : ℕ → ℕ → MultiProducerSequencer → MultiProducerSequencer
taken current next s =
    prepare (add current (of_nat 1)) next (with_heap (store_value s.cursor next s.heap) s)

module _ {k : ℕ} (i current next : ℕ) (low : minus_one ≤ current) (up : current < next)
    (few : next + 2 ^ k < of_nat (2 ^ 62)) where
  -- The claim goes on where the cached gate leaves room.
  trusted-Ran :
      (y : System)
      → y.phases i ≡ looking current next
      → cursor_of y.ring ≡ current
      → (ltb (load y.ring.gate_cache y.ring.heap) (wrap_point next y.ring)
          || ltb current (load y.ring.gate_cache y.ring.heap))
        ≡ false
      → Ran k i y (taken current next y.ring) (holding (add current (of_nat 1)) next)
  trusted-Ran y was here enough =
      after_step (aiming current next) (Step.trust_cache i current next was enough) (
        exchange-Ran (goes i (aiming current next) y.ring y) i current next
          (update_self y.phases i (aiming current next)) here low up few)

  -- Once the gates are read, and leave room.
  room-Ran :
      (y : System) (least : Option ℕ)
      → y.phases i ≡ scanning current next least []
      → cursor_of y.ring ≡ current
      → y.ring.gate_cache ≢ y.ring.cursor
      → ltb (least_of current least) (wrap_point next y.ring) ≡ false
      → Ran k i y
          (taken current next (store_cache (least_of current least) y.ring))
          (holding (add current (of_nat 1)) next)
  room-Ran y least was here apart enough =
      after_step (aiming current next) (Step.make_room i current next least was enough) (
        exchange-Ran (goes i (aiming current next) (store_cache (least_of current least) y.ring) y)
          i current next (update_self y.phases i (aiming current next)) (ground (arith, apart)) low
          up few)

  -- The claim goes on where the gates leave room.
  scanned-Ran :
      (y : System)
      → y.phases i ≡ looking current next
      → cursor_of y.ring ≡ current
      → y.ring.gate_cache ≢ y.ring.cursor
      → (ltb (load y.ring.gate_cache y.ring.heap) (wrap_point next y.ring)
          || ltb current (load y.ring.gate_cache y.ring.heap))
        ≡ true
      → ltb (minimum_gate y.ring.base current) (wrap_point next y.ring) ≡ false
      → Ran k i y
          (taken current next (store_cache (minimum_gate y.ring.base current) y.ring))
          (holding (add current (of_nat 1)) next)
  scanned-Ran y was here apart stale enough =
      after_step scan (Step.distrust_cache i current next was stale) (
        scan_all-Ran y.ring.gating (goes i scan y.ring y) (update_self y.phases i scan)
          (λ y' least ring at e.
            subst (λ s. Ran k i y' (taken current next s) (holding (add current (of_nat 1)) next))
              (ap₂ store_cache e ring)
              (room-Ran y' least at (ap cursor_of ring ∙ here) (rw ring apart)
                (ap₂ (λ m s. ltb m (wrap_point next s)) e ring ∙ enough))))
    where
      scan : Phase
      scan = scanning current next none y.ring.gating

-- A claim that succeeds is a run to a phase in which its producer holds the claimed sequences.
abbrev pub RanClaim : ℕ → ℕ → System → Claim → Type 0
RanClaim k i y (some (ok n), s) = Ran k i y s (holding (add (cursor_of y.ring) (of_nat 1)) n)
RanClaim k i y (some (err e), s) = Unit
RanClaim k i y (none, s) = Unit

module _ {k : ℕ} (y : System) (i count : ℕ) (ctx_done : Bool) (w : Wake) (idles : y.phases i ≡ idle)
    (safe : IsSafe k y.ring) (short : IsShort k y.ring)
    (few : add (cursor_of y.ring) count + 2 ^ k < of_nat (2 ^ 62)) where
  abbrev ends : Round → Claim
  ends r = after_round r (λ s. (none, s))

  abbrev looks : System
  looks = goes i (looking (cursor_of y.ring) (add (cursor_of y.ring) count)) y.ring y

  -- The exchange of a round, if its success is a run from where the cursor was read.
  exchanged :
      (s : MultiProducerSequencer)
      → bad_count count y.ring ≡ false
      → Ran k i looks
          (taken (cursor_of y.ring) (add (cursor_of y.ring) count) s)
          (holding (add (cursor_of y.ring) (of_nat 1)) (add (cursor_of y.ring) count))
      → RanClaim k i y (
          ends
            (exchange (undisturbed ctx_done w) (cursor_of y.ring) (add (cursor_of y.ring) count) s))
  unfolding exchange
  exchanged s good ran =
      if_elim (λ r. RanClaim k i y (ends r)) (cursor_of s == cursor_of y.ring) _ (again s)
        (λ same.
          after_step (looking (cursor_of y.ring) (add (cursor_of y.ring) count))
            (Step.read_cursor i count idles (ground arith) (ground arith)) ran)
        (λ moved. tt)

  numbers :
      bad_count count y.ring ≡ false
      → (minus_one ≤ cursor_of y.ring) × (cursor_of y.ring < add (cursor_of y.ring) count)
  numbers good = let ns = claim_numbers count safe short good in ground (arith, ns, safe.guarded)

  round-Ran :
      bad_count count y.ring ≡ false
      → RanClaim k i y (ends (try_next_round (undisturbed ctx_done w) count y.ring))
  unfolding try_next_round
  round-Ran good =
      let ns = numbers good in
      if_elim (λ r. RanClaim k i y (ends r)) y.ring.is_sealed _ _ (λ over. tt)
        (λ on.
          if_elim (λ r. RanClaim k i y (ends r))
            (ltb (load y.ring.gate_cache y.ring.heap)
                (wrap_point (add (cursor_of y.ring) count) y.ring)
              || ltb (cursor_of y.ring) (load y.ring.gate_cache y.ring.heap))
            _ _
            (λ stale.
              if_elim (λ r. RanClaim k i y (ends r))
                (ltb (minimum_gate y.ring.base (cursor_of y.ring))
                  (wrap_point (add (cursor_of y.ring) count) y.ring))
                _ _ (λ full. tt)
                (λ enough.
                  exchanged (store_cache (minimum_gate y.ring.base (cursor_of y.ring)) y.ring) good
                    (scanned-Ran i _ _ ns.0 ns.1 few looks (update_self y.phases i _) refl
                      safe.guarded.cache_apart stale enough)))
            (λ trust.
              exchanged y.ring good
                (trusted-Ran i _ _ ns.0 ns.1 few looks (update_self y.phases i _) refl trust)))

  -- A `TryNext` that nobody disturbs, and that succeeds, is a run of atomic operations of its
  -- producer, from any phase in which it holds nothing to one in which it holds the claimed
  -- sequences; the other producers stay where they are.
  pub try_next-Ran : RanClaim k i y (try_next (undisturbed ctx_done w ∷ []) count y.ring)
  unfolding try_next try_next_loop
  try_next-Ran = if_elim (RanClaim k i y) (bad_count count y.ring) _ _ (λ bad. tt) round-Ran
