-- ===== src/Multi/Rounds.antt =====
-- sequencer_multi.go: what a round of `Next` or `TryNext` leaves behind.
use disruptor_go.Prelude.{
  ℕ, ◌≤◌, ◌≡◌, sym, ◌∙◌, Bool, false, ◌||◌, arith, ltb, All, All-map, All-map₂, Option, none, some,
  subst, ltb→le, if_elim,
}
use disruptor_go.Int64.{add, sub}
use disruptor_go.Errors.{Result, ok, err}
use disruptor_go.Heap.{load, store_value}
use disruptor_go.Heap.Laws.{minimum-ge, minimum-le, All-minimum-le}
use disruptor_go.Sequencer.{minimum_gate}
use disruptor_go.Sequencer.Waiting.{Turn, prepared, start_wait}
use disruptor_go.Multi.{MultiProducerSequencer, with_heap}
use disruptor_go.Multi.Claim.{
  exchange, wake_up, set_base, sleep, next_round, try_next_round, bad_count,
}
use disruptor_go.Multi.Safety.{cursor_of, IsSafe, IsShort, Kept, IsFair}
use disruptor_go.Multi.Kept.{store_cache-IsSafe, start_wait-IsSafe, finish_wait-IsSafe}
use disruptor_go.Multi.Exchange.{Leaves, claim_numbers, exchange-Leaves}

module _ {k : ℕ} {s : MultiProducerSequencer} (safe : IsSafe k s) where
  minimum : ℕ
  minimum = minimum_gate s.base (cursor_of s)

  pub cached-gates : All (λ p. load s.gate_cache s.heap ≤ load p s.heap) s.gating
  cached-gates = All-map s.gating (λ p q. q.cached) safe.guarded.gates

  pub cache-le-minimum : load s.gate_cache s.heap ≤ minimum_gate s.base (cursor_of s)
  cache-le-minimum =
      minimum-ge s.heap (load s.gate_cache s.heap) (cursor_of s) s.gating safe.guarded.cache_behind
        cached-gates

  pub minimum-le-cursor : minimum_gate s.base (cursor_of s) ≤ cursor_of s
  minimum-le-cursor =
      minimum-le s.heap (cursor_of s) (cursor_of s) s.gating (omega arith)
        (All-map s.gating (λ p q. q.behind) safe.guarded.gates)

  pub minimum-gates : All (λ p. minimum_gate s.base (cursor_of s) ≤ load p s.heap) s.gating
  minimum-gates = All-minimum-le s.heap (cursor_of s) s.gating

  -- The state once the least gate is cached.
  unfoldable pub refreshed : MultiProducerSequencer
  refreshed = with_heap (store_value s.gate_cache (minimum_gate s.base (cursor_of s)) s.heap) s

  refreshed-IsSafe : IsSafe k refreshed
  unfolding refreshed
  refreshed-IsSafe =
      store_cache-IsSafe s (minimum_gate s.base (cursor_of s)) safe
        (omega (arith, cache-le-minimum, safe.guarded.started)) minimum-le-cursor minimum-gates

  pub cursor-refreshed : cursor_of refreshed ≡ cursor_of s
  unfolding refreshed
  cursor-refreshed = ground (arith, safe.guarded.cache_apart)

  pub refreshed-gates :
      All (λ p. minimum_gate s.base (cursor_of s) ≤ load p refreshed.heap) refreshed.gating
  unfolding refreshed
  refreshed-gates = All-map₂ s.gating (λ p q r. ground (arith, q)) safe.guarded.gates minimum-gates

  module _ (short : IsShort k s) (count : ℕ) (good : bad_count count s ≡ false) where
    -- A claim against the cached gate.
    claim_cached :
        (t : Turn MultiProducerSequencer)
        → IsFair k t
        → sub (add (cursor_of s) count) s.buffer_size ≤ load s.gate_cache s.heap
        → Leaves k count (exchange t (cursor_of s) (add (cursor_of s) count) s)
    claim_cached t fair room =
        let numbers = claim_numbers count safe short good in
        exchange-Leaves t (load s.gate_cache s.heap) (add (cursor_of s) count) count fair safe short
          safe.guarded.cache_behind cached-gates numbers.0 (ground arith) numbers.2
          (omega (arith, numbers))

    -- A claim against the least gate, which is cached first.
    claim_refreshed :
        (t : Turn MultiProducerSequencer)
        → IsFair k t
        → sub (add (cursor_of s) count) s.buffer_size ≤ minimum_gate s.base (cursor_of s)
        → Leaves k count (exchange t (cursor_of s) (add (cursor_of s) count) refreshed)
    claim_refreshed t fair room =
        let numbers = claim_numbers count safe short good in
        subst (λ c. Leaves k count (exchange t c (add (cursor_of s) count) refreshed))
          cursor-refreshed
          (exchange-Leaves t (minimum_gate s.base (cursor_of s)) (add (cursor_of s) count) count
            fair refreshed-IsSafe (rw cursor-refreshed short)
            (rw cursor-refreshed minimum-le-cursor) refreshed-gates (rw cursor-refreshed numbers.0)
            (ground arith) numbers.2 (omega (arith, numbers)))

wake_up-Leaves :
    {k : ℕ} (count : ℕ) (o : Option (Result (Unit {0}))) (waiting s : MultiProducerSequencer)
    → IsSafe k waiting
    → IsSafe k s × IsShort k s
    → Leaves k count (wake_up o waiting s)
wake_up-Leaves count none waiting s safe both = safe
wake_up-Leaves count (some (err e)) waiting s safe both = (both.0, tt)
wake_up-Leaves count (some (ok _)) waiting s safe both = both

sleep-Leaves :
    {k : ℕ} {s : MultiProducerSequencer} (count : ℕ) (t : Turn MultiProducerSequencer)
    → IsFair k t
    → IsSafe k s
    → IsShort k s
    → Leaves k count (sleep t s)
unfolding sleep
sleep-Leaves {k} {s} count t fair safe short =
    wake_up-Leaves count _ s' _ after
      (finish_wait-IsSafe t.wake t.ctx_done (prepared s.base) s' after still_short)
  where
    waiting : MultiProducerSequencer
    waiting = set_base (start_wait s.base) s

    rely : Kept k waiting (t.during waiting)
    rely = fair.during waiting (start_wait-IsSafe s safe short).0 (start_wait-IsSafe s safe short).1

    s' : MultiProducerSequencer
    s' = t.during waiting

    after : IsSafe k s'
    after = rely.safe

    still_short : IsShort k s'
    still_short = rely.short

abbrev pub needs_gates : ℕ → MultiProducerSequencer → Bool
needs_gates count s =
    ltb (load s.gate_cache s.heap) (sub (add (cursor_of s) count) s.buffer_size)
    || ltb (cursor_of s) (load s.gate_cache s.heap)

pub cached_room :
    (count : ℕ) (s : MultiProducerSequencer)
    → needs_gates count s ≡ false
    → sub (add (cursor_of s) count) s.buffer_size ≤ load s.gate_cache s.heap
cached_room count s h = ground arith

module _ {k : ℕ} (t : Turn MultiProducerSequencer) (fair : IsFair k t) {s₀ : MultiProducerSequencer}
    (safe₀ : IsSafe k s₀) (short₀ : IsShort k s₀) (count : ℕ)
    (good : bad_count count (t.before s₀) ≡ false) where
  abbrev s : MultiProducerSequencer
  s = t.before s₀

  safe : IsSafe k s
  safe = (fair.before s₀ safe₀ short₀).safe

  short : IsShort k s
  short = (fair.before s₀ safe₀ short₀).short

  abbrev least : ℕ
  least = minimum_gate s.base (cursor_of s)

  abbrev wrap_point : ℕ
  wrap_point = sub (add (cursor_of s) count) s.buffer_size

  pub try_next_round-Leaves : Leaves k count (try_next_round t count s₀)
  unfolding try_next_round refreshed
  try_next_round-Leaves =
      if_elim (Leaves k count) s.is_sealed _ _ (λ sealed. (safe, tt))
        (λ unsealed.
          if_elim (Leaves k count) (needs_gates count s) _ _
            (λ stale.
              if_elim (Leaves k count) (ltb least wrap_point) _ _
                (λ full. (refreshed-IsSafe safe, tt))
                (λ room.
                  claim_refreshed safe short count good t fair (ltb→le least wrap_point room)))
            (λ enough. claim_cached safe short count good t fair (cached_room count s enough)))

  pub next_round-Leaves : Leaves k count (next_round t count s₀)
  unfolding next_round refreshed
  next_round-Leaves =
      if_elim (Leaves k count) s.is_sealed _ _ (λ sealed. (safe, tt))
        (λ unsealed.
          if_elim (Leaves k count) (needs_gates count s) _ _
            (λ stale.
              if_elim (Leaves k count) (ltb least wrap_point) _ _
                (λ full. sleep-Leaves count t fair safe short)
                (λ room.
                  claim_refreshed safe short count good t fair (ltb→le least wrap_point room)))
            (λ enough. claim_cached safe short count good t fair (cached_room count s enough)))

-- The size of a ring does not change, so a count that was checked once stays good.
pub good_again :
    {k : ℕ} {s s' : MultiProducerSequencer} (count : ℕ)
    → IsSafe k s
    → IsSafe k s'
    → bad_count count s ≡ false
    → bad_count count s' ≡ false
good_again {k} {s} {s'} count safe safe' good =
    let same : s'.buffer_size ≡ s.buffer_size = safe'.ring.size ∙ sym safe.ring.size in rw same good
