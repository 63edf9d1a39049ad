-- ===== src/Multi/Steps.antt =====
-- sequencer_multi.go: the single steps that keep a ring safe for the claims of others.
use disruptor_go.Prelude.{ℕ, ◌+◌, ◌^◌, ◌≤◌, ◌<◌, ◌≡◌, ◌≢◌, refl, arith, All, All-map, All-map₂}
use disruptor_go.Int64.{of_nat, minus_one}
use disruptor_go.Heap.{load, store_value}
use disruptor_go.Sequencer.{SequencerBase}
use disruptor_go.Multi.{MultiProducerSequencer, with_heap, prepare, index, flag, resolution}
use disruptor_go.Multi.Slots.{InRange, is_claimed}
use disruptor_go.Multi.Claim.{set_base}
use disruptor_go.Multi.Ranges.{after-prepare}
use disruptor_go.Multi.Safety.{cursor_of, IsGate, IsGuarded, Rely, base-prepare, prepare-IsSafe}
use disruptor_go.Multi.Kept.{set_base-IsSafe, store_cache-IsSafe, store_cursor-IsSafe}

pub own-Kept : {k : ℕ} (s : MultiProducerSequencer) → Rely k s s
own-Kept s safe short = record {
  safe = safe;
  short = short;
  forward = omega arith;
  reached = λ m a p. p;
  clean = λ c. c;
}

pub then-Rely :
    {k : ℕ} (s s' s'' : MultiProducerSequencer) → Rely k s s' → Rely k s' s'' → Rely k s s''
then-Rely s s' s'' first second safe short =
    let one = first safe short in
    let two = second one.safe one.short in
    record {
      safe = two.safe;
      short = two.short;
      forward = omega (arith, one.forward, two.forward);
      reached = λ m a p. two.reached m (omega (arith, a, one.forward)) (one.reached m a p);
      clean = λ c. two.clean (one.clean c);
    }

-- A base of the same size and cursor and with the same positions, whose gates are still gates.
pub set_base-Kept :
    {k : ℕ} (s : MultiProducerSequencer) (b : SequencerBase)
    → b.buffer_size ≡ s.buffer_size
    → b.cursor ≡ s.cursor
    → ((p : ℕ) → load p b.heap ≡ load p s.heap)
    → ((P : ℕ → Type 0) → All P s.gating → All P b.gating)
    → Rely k s (set_base b s)
unfolding is_claimed resolution index flag
set_base-Kept {k} s b size same values among safe short = record {
  safe = set_base-IsSafe s b size safe.ring (record {
    cache_apart = rw same safe.guarded.cache_apart;
    started = rw (values s.gate_cache) safe.guarded.started;
    cache_behind = omega (arith, values s.gate_cache, at_cursor, safe.guarded.cache_behind);
    gates = All-map b.gating gate (among (IsGate k s.base s.gate_cache) safe.guarded.gates);
  });
  short = rw (same, values s.cursor) short;
  forward = omega (arith, at_cursor);
  reached =
      λ m a p. All-map b.gating (λ q r. omega (arith, values q)) (among (λ q. m ≤ load q s.heap) p);
  clean = λ c q r above. c q r (omega (arith, at_cursor));
}
  where
    at_cursor : load b.cursor b.heap ≡ cursor_of s
    at_cursor = rw same (values s.cursor)

    gate : (p : ℕ) → IsGate k s.base s.gate_cache p → IsGate k b s.gate_cache p
    gate p g = record {
      not_cursor = rw same g.not_cursor;
      not_cache = g.not_cache;
      cached = omega (arith, values p, values s.gate_cache, g.cached);
      behind = omega (arith, values p, at_cursor, g.behind);
      room = omega (arith, values p, at_cursor, g.room);
    }

-- The cache is set to a bound of the gates, or the cursor moved on, or a gate moved up to the cursor.
pub store_cache-Kept :
    {k : ℕ} (s : MultiProducerSequencer) (m : ℕ)
    → minus_one ≤ m
    → m ≤ cursor_of s
    → All (λ p. m ≤ load p s.heap) s.gating
    → Rely k s (with_heap (store_value s.gate_cache m s.heap) s)
unfolding is_claimed resolution index flag
store_cache-Kept {k} s m up below reached safe short = record {
  safe = store_cache-IsSafe s m safe up below reached;
  short = ground (arith, safe.guarded.cache_apart);
  forward = ground (arith, safe.guarded.cache_apart);
  reached = λ n a p. All-map₂ s.gating (λ q g r. ground (arith, g)) safe.guarded.gates p;
  clean = λ c q r above. c q r (ground (arith, safe.guarded.cache_apart));
}

pub store_cursor-Kept :
    {k : ℕ} (s : MultiProducerSequencer) (n : ℕ)
    → cursor_of s ≤ n
    → n + 2 ^ k < of_nat (2 ^ 62)
    → All (λ p. n ≤ load p s.heap + 2 ^ k) s.gating
    → Rely k s (with_heap (store_value s.cursor n s.heap) s)
unfolding is_claimed resolution index flag
store_cursor-Kept {k} s n up few near safe short = record {
  safe = store_cursor-IsSafe s n safe up near;
  short = ground arith;
  forward = ground arith;
  reached = λ m a p. All-map₂ s.gating (λ q g r. ground (arith, g)) safe.guarded.gates p;
  clean = λ c q r above. c q r (ground (arith, safe.guarded.cache_apart));
}

pub prepare-Kept :
    {k : ℕ} (low high : ℕ) (s : MultiProducerSequencer)
    → InRange low
    → InRange high
    → high ≤ cursor_of s
    → Rely k s (prepare low high s)
prepare-Kept {k} low high s hl hh done safe short = record {
  safe = prepare-IsSafe low high s safe;
  short = rw ((base-prepare low high s).0) short;
  forward = rw ((base-prepare low high s).0) (omega arith);
  reached = λ m a p. rw ((base-prepare low high s).0) p;
  clean = λ c q r above.
      let above' : cursor_of s < q = rw ((base-prepare low high s).0) at above in
      after-prepare low high q safe.ring hl hh r (omega arith) (c q r above');
}

store_gate-IsGuarded :
    {k : ℕ} (b : SequencerBase) (cache p v : ℕ)
    → IsGuarded k b cache
    → p ≢ b.cursor
    → p ≢ cache
    → load p b.heap ≤ v
    → v ≤ load b.cursor b.heap
    → IsGuarded k (record b { heap = store_value p v b.heap }) cache
store_gate-IsGuarded {k} b cache p v g apart apart' up below = record {
  cache_apart = g.cache_apart;
  started = ground (arith, g);
  cache_behind = ground (arith, g);
  gates = All-map b.gating gate g.gates;
}
  where
    gate :
        (q : ℕ) → IsGate k b cache q → IsGate k (record b { heap = store_value p v b.heap }) cache q
    gate q r = ground (arith, r)

pub store_gate-Kept :
    {k : ℕ} (s : MultiProducerSequencer) (p v : ℕ)
    → p ≢ s.cursor
    → p ≢ s.gate_cache
    → load p s.heap ≤ v
    → v ≤ cursor_of s
    → Rely k s (with_heap (store_value p v s.heap) s)
unfolding is_claimed resolution index flag
store_gate-Kept {k} s p v apart apart' up below safe short = record {
  safe =
      set_base-IsSafe s _ refl safe.ring
        (store_gate-IsGuarded s.base s.gate_cache p v safe.guarded apart apart' up below);
  short = ground (arith, apart);
  forward = ground (arith, apart);
  reached = λ m a h. All-map s.gating (λ q r. ground arith) h;
  clean = λ c q r above. c q r (ground (arith, apart));
}
