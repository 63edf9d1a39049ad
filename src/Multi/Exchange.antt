-- ===== src/Multi/Exchange.antt =====
-- sequencer_multi.go: what the exchange of a claim leaves behind.
use disruptor_go.Prelude.{
  ℕ, ◌+◌, ◌-◌, ◌^◌, ◌≤◌, ◌<◌, ◌≡◌, true, false, arith, leb, ◌==◌, if◌then◌else◌, All, All-map,
  if_elim, ==_iff,
}
use disruptor_go.Int64.{of_nat, add, sub}
use disruptor_go.Errors.{Result, ok, err}
use disruptor_go.Heap.{load, store_value}
use disruptor_go.Sequencer.Waiting.{Turn}
use disruptor_go.Multi.{MultiProducerSequencer, with_heap, prepare, resolution}
use disruptor_go.Publication.{unresolved}
use disruptor_go.Multi.Slots.{IsRing, is_claimed}
use disruptor_go.Multi.Ranges.{prepare_lem}
use disruptor_go.Multi.Claim.{Round, returned, again, asleep, exchange, bad_count}
use disruptor_go.Multi.Safety.{
  cursor_of, IsSafe, IsShort, Kept, IsFair, prepare-IsSafe, base-prepare,
}
use disruptor_go.Multi.Kept.{store_cursor-IsSafe}

-- A claim of `c` events up to `n`: the cursor stands there, and the events are claimed.
pub record IsClaim (c n : ℕ) (s : MultiProducerSequencer) : Type 0 where
  pub at_cursor : cursor_of s ≡ n
  pub claimed : (q : ℕ) → n < q + c → q ≤ n → is_claimed s q ≡ true
  pub untouched : (q : ℕ) → n < q + c → q ≤ n → resolution s q ≡ unresolved

-- What a result says of the state, for a claim of `count` events.
abbrev pub Claimed : ℕ → Result ℕ → MultiProducerSequencer → Type 0
Claimed count (ok n) s = IsClaim (count - of_nat 0) n s
Claimed count (err e) s = Unit

-- What a round leaves behind.
abbrev pub Leaves : ℕ → ℕ → Round → Type 0
Leaves k count (returned r s) = IsSafe k s × Claimed count r s
Leaves k count (again s) = IsSafe k s × IsShort k s
Leaves k count (asleep s) = IsSafe k s

-- Below 2^62 neither the sum nor the difference of a claim wraps round.
pub claim_numbers :
    {k : ℕ} {s : MultiProducerSequencer} (count : ℕ)
    → IsSafe k s
    → IsShort k s
    → bad_count count s ≡ false
    → (add (cursor_of s) count ≡ cursor_of s + (count - of_nat 0))
      × (sub (add (cursor_of s) count) s.buffer_size + 2 ^ k ≡ cursor_of s + (count - of_nat 0))
      × (count - of_nat 0 ≤ 2 ^ k)
      × (of_nat 0 ≤ cursor_of s + (count - of_nat 0))
claim_numbers {k} {s} count safe short good = ground (arith, safe, safe.ring, safe.guarded)

-- A cursor that is moved on by `c` claims the `c` events that it passes.
move-IsClaim :
    {k : ℕ} (s : MultiProducerSequencer) (n c : ℕ)
    → IsSafe k s
    → IsShort k s
    → n ≡ cursor_of s + c
    → 0 < c
    → c ≤ 2 ^ k
    → IsClaim c n
        (prepare (add (cursor_of s) (of_nat 1)) n (with_heap (store_value s.cursor n s.heap) s))
move-IsClaim {k} s n c safe short e pos few = record {
  at_cursor = rw ((base-prepare (add (cursor_of s) (of_nat 1)) n moved).0) (ground arith);
  claimed = λ q below upto. ground (arith, step, range q below upto);
  untouched = λ q below upto. ground (arith, step, range q below upto);
}
  where
    moved : MultiProducerSequencer
    moved = with_heap (store_value s.cursor n s.heap) s

    step : add (cursor_of s) (of_nat 1) ≡ cursor_of s + 1
    step = omega (arith, safe.guarded)

    ring : IsRing k moved
    ring = record {
      mask = safe.ring.mask;
      shift = safe.ring.shift;
      slots = safe.ring.slots;
      size = safe.ring.size;
      small = safe.ring.small;
    }

    range :
        (q : ℕ)
        → n < q + c
        → q ≤ n
        → (is_claimed (prepare (add (cursor_of s) (of_nat 1)) n moved) q
            ≡ (if leb (add (cursor_of s) (of_nat 1)) q then true else is_claimed moved q))
          × (resolution (prepare (add (cursor_of s) (of_nat 1)) n moved) q
              ≡ (if leb (add (cursor_of s) (of_nat 1)) q then unresolved else resolution moved q))
    range q below upto =
        prepare_lem (add (cursor_of s) (of_nat 1)) n q ring (omega (arith, step, safe.guarded))
          (omega (arith, safe.guarded)) (omega (arith, step)) (omega (arith, safe.guarded)) upto
          (omega arith)

pub exchange-Leaves :
    {k : ℕ} {s : MultiProducerSequencer} (t : Turn MultiProducerSequencer) (bound n count : ℕ)
    → IsFair k t
    → IsSafe k s
    → IsShort k s
    → bound ≤ cursor_of s
    → All (λ p. bound ≤ load p s.heap) s.gating
    → n ≡ cursor_of s + (count - of_nat 0)
    → of_nat 0 < count
    → count - of_nat 0 ≤ 2 ^ k
    → n ≤ bound + 2 ^ k
    → Leaves k count (exchange t (cursor_of s) n s)
unfolding exchange
exchange-Leaves {k} {s} t bound n count fair safe short low reached up pos few near =
    if_elim (Leaves k count) (cursor_of s' == cursor_of s) _ _
      (λ won.
        let same : cursor_of s' ≡ cursor_of s = (==_iff (cursor_of s') (cursor_of s)).0 won in
        rw (← same) (
          prepare-IsSafe (add (cursor_of s') (of_nat 1)) n _ (moved same),
          move-IsClaim s' n (count - of_nat 0) after rely.short (rw same up) (omega arith) few,
        ))
      (λ lost. (after, rely.short))
  where
    s' : MultiProducerSequencer
    s' = t.during s

    rely : Kept k s s'
    rely = fair.during s safe short

    after : IsSafe k s'
    after = rely.safe

    moved : cursor_of s' ≡ cursor_of s → IsSafe k (with_heap (store_value s'.cursor n s'.heap) s')
    moved same =
        store_cursor-IsSafe s' n after (omega (arith, same))
          (All-map s'.gating (λ p. omega arith) (rely.reached bound low reached))
